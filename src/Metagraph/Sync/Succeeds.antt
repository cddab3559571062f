-- ===== src/Metagraph/Sync/Succeeds.antt =====
-- When no step of `sync_metagraph` raises an exception of its own.
use Prim.Native.String.{String}
use sentinel_tower.Prelude.{
  ℕ, ◌≡◌, refl, inl, inr, ◌⊎◌, Bool, Option, none, some, List, [], ◌∷◌, In, Option-cases,
}
use sentinel_tower.Prelude.Int.{ℤ}
use sentinel_tower.Json.{◌>>=◌, Result-cases, Succeeds, Succeeds-bind}
use sentinel_tower.Metagraph.Amounts.{Amount, decimal, to_rao}
use sentinel_tower.Metagraph.Keys.{
  Keys, get_or_create_coldkey, get_or_create_hotkey, get_cached_hotkey,
}
use sentinel_tower.Metagraph.Keys.Refines.{get_or_create_hotkey-answers}
use sentinel_tower.Metagraph.Relations.{
  NeuronCache, neuron_by_uid, collaterals_to_create, sync_collaterals,
}
use sentinel_tower.Metagraph.Rows.{
  Subnet, State, HotkeyDto, SubnetDto, NeuronDto, SnapshotDto, CollateralDto, Metagraph,
}
use sentinel_tower.Metagraph.Sync.{DumpMetadata, sync_owner, sync_subnet, measures_of}
use sentinel_tower.Metagraph.Sync.Run.{
  Stats, initial, hotkey_for, sync_keys, sync_neuron, count_neuron, sync_one, sync_neurons,
  sync_relations, sync_all, sync_metagraph,
}

-- An amount that is missing, or a number.
abbrev pub IsNumber : Option Amount → Type 0
IsNumber a = (a ≡ none) ⊎ ((s : Bool) × (c : ℕ) × (e : ℤ) × (a ≡ some (decimal s c e)))

-- A hotkey whose coldkey is known.
abbrev pub IsOwned : Option HotkeyDto → Type 0
IsOwned d = (h : String) × (c : String) × (d ≡ some (record { hotkey = h; coldkey = some c }))

pub record IsComplete (n : SnapshotDto) : Type 0 where
  pub owned : IsOwned n.neuron.hotkey
  pub total_stake_number : IsNumber n.total_stake
  pub alpha_stake_number : IsNumber n.alpha_stake
  pub alpha_dividends_number : IsNumber n.alpha_dividends
  pub tao_dividends_number : IsNumber n.tao_dividends
  pub emissions_number : IsNumber n.emissions

pub record AllComplete (meta : Metagraph) : Type 0 where
  pub owner_complete : (meta.subnet.owner_hotkey ≡ none) ⊎ IsOwned meta.subnet.owner_hotkey
  pub emission_number : IsNumber meta.subnet.alpha_out_emission
  pub neurons_complete : (n : SnapshotDto) → In n meta.neurons → IsComplete n
  pub collaterals_complete : (c : CollateralDto) → In c meta.collaterals → IsNumber c.amount

to_rao-Succeeds : (a : Option Amount) → IsNumber a → Succeeds (to_rao a)
unfolding to_rao
to_rao-Succeeds a (inl e) = rw e (_, refl)
to_rao-Succeeds a (inr (s, c, x, e)) = rw e (_, refl)

hotkey-Succeeds :
    (now : ℕ) (a c : String) (s : Keys) → Succeeds (get_or_create_hotkey now a (some c) s)
hotkey-Succeeds now a c s = elim (Result-cases (get_or_create_hotkey now a (some c) s)) [
  | inl e ↦ elim (get_or_create_hotkey-answers now a c s e) [ ]
  | inr found ↦ found
]

sync_owner-Succeeds :
    (now : ℕ) (d : Option HotkeyDto) (s : Keys)
    → (d ≡ none) ⊎ IsOwned d
    → Succeeds (sync_owner now d s)
unfolding sync_owner
sync_owner-Succeeds now d s (inl e) = rw e (_, refl)
sync_owner-Succeeds now d s (inr (h, c, e)) =
    rw e (Succeeds-bind (hotkey-Succeeds now h c (get_or_create_coldkey c s).1) (λ q. (_, refl)))

sync_subnet-Succeeds :
    (now : ℕ) (zone : ℕ → ℕ) (dto : SubnetDto) (keys : Keys) (rows : List Subnet)
    → (dto.owner_hotkey ≡ none) ⊎ IsOwned dto.owner_hotkey
    → IsNumber dto.alpha_out_emission
    → Succeeds (sync_subnet now zone dto keys rows)
unfolding sync_subnet
sync_subnet-Succeeds now zone dto keys rows h n =
    Succeeds-bind (sync_owner-Succeeds now dto.owner_hotkey keys h)
      (λ owner. Succeeds-bind (to_rao-Succeeds dto.alpha_out_emission n) (λ emission. (_, refl)))

measures_of-Succeeds : (dto : SnapshotDto) → IsComplete dto → Succeeds (measures_of dto)
unfolding measures_of
measures_of-Succeeds dto h =
    Succeeds-bind (to_rao-Succeeds dto.total_stake h.total_stake_number) (λ a.
      Succeeds-bind (to_rao-Succeeds dto.alpha_stake h.alpha_stake_number) (λ b.
        Succeeds-bind (to_rao-Succeeds dto.alpha_dividends h.alpha_dividends_number) (λ c.
          Succeeds-bind (to_rao-Succeeds dto.tao_dividends h.tao_dividends_number) (λ d.
            Succeeds-bind (to_rao-Succeeds dto.emissions h.emissions_number) (λ e. (_, refl))))))

sync_keys-Succeeds :
    (now : ℕ) (dto : NeuronDto) (s : Keys) → IsOwned dto.hotkey → Succeeds (sync_keys now dto s)
unfolding sync_keys
sync_keys-Succeeds now dto s (h, c, e) =
    rw (e, sync_keys)
      (Succeeds-bind (hotkey-Succeeds now h c (get_or_create_coldkey c s).1) (λ q. (_, refl)))

sync_neuron-Succeeds :
    (now : ℕ) (dto : NeuronDto) (netuid : ℕ) (s : State)
    → IsOwned dto.hotkey
    → Succeeds (sync_neuron now dto netuid s)
unfolding sync_neuron hotkey_for ◌>>=◌
sync_neuron-Succeeds now dto netuid s (h, c, e) =
    rw (e, sync_neuron)
      (elim (Option-cases (get_cached_hotkey h s.keys)) [
        | inl f ↦
            rw (f, hotkey_for) (Succeeds-bind (hotkey-Succeeds now h c s.keys) (λ q. (_, refl)))
        | inr (k, f) ↦ rw (f, hotkey_for) (_, refl)
      ])

sync_neurons-Succeeds :
    (now block netuid : ℕ) (ns : List SnapshotDto) (t : Stats) (s : State)
    → ((n : SnapshotDto) → In n ns → IsComplete n)
    → Succeeds (sync_neurons now block netuid ns t s)
unfolding sync_neurons sync_one
sync_neurons-Succeeds now block netuid [] t s h = (_, refl)
sync_neurons-Succeeds now block netuid (n ∷ ns) t s h =
    Succeeds-bind
      (Succeeds-bind (sync_keys-Succeeds now n.neuron s.keys (h n (inl refl)).owned) (λ keys.
        Succeeds-bind
          (sync_neuron-Succeeds now n.neuron netuid (record s { keys = keys })
            (h n (inl refl)).owned)
          (λ found. Succeeds-bind (measures_of-Succeeds n (h n (inl refl))) (λ m. (_, refl)))))
      (λ s'. sync_neurons-Succeeds now block netuid ns (count_neuron n t) s' (λ m i. h m (inr i)))

collaterals_to_create-Succeeds :
    (cache : NeuronCache) (block netuid : ℕ) (cs : List CollateralDto)
    → ((c : CollateralDto) → In c cs → IsNumber c.amount)
    → Succeeds (collaterals_to_create cache block netuid cs)
unfolding collaterals_to_create
collaterals_to_create-Succeeds cache block netuid [] h = (_, refl)
collaterals_to_create-Succeeds cache block netuid (c ∷ cs) h =
    let rest = collaterals_to_create-Succeeds cache block netuid cs (λ d i. h d (inr i)) in
    elim (Option-cases (neuron_by_uid netuid c.source_neuron_uid cache)) [
      | inl e ↦ rw (e, collaterals_to_create) rest
      | inr (a, e) ↦ elim (Option-cases (neuron_by_uid netuid c.target_neuron_uid cache)) [
        | inl f ↦ rw (e, f, collaterals_to_create) rest
        | inr (b, f) ↦
            rw (e, f, collaterals_to_create)
              (Succeeds-bind (to_rao-Succeeds c.amount (h c (inl refl)))
                (λ amount. Succeeds-bind rest (λ others. (_, refl))))
      ]
    ]

-- Where the database takes every row, no step of storing a metagraph raises, if every amount of it is missing or a number, every neuron has
-- a hotkey with a coldkey, and the owner of the subnet has a coldkey, if there is an owner.
pub sync_metagraph-Succeeds :
    (now : ℕ) (zone : ℕ → ℕ) (meta : Metagraph) (dump : DumpMetadata) (s : State)
    → AllComplete meta
    → Succeeds (sync_metagraph now zone meta dump s).0
unfolding sync_metagraph sync_all sync_relations sync_collaterals
sync_metagraph-Succeeds now zone meta dump s h = rw (all.1, sync_metagraph) (_, refl)
  where
    all : Succeeds (sync_all now zone meta dump s)
    all =
        Succeeds-bind
          (sync_subnet-Succeeds now zone meta.subnet s.keys s.subnets h.owner_complete
            h.emission_number)
          (λ subnet.
            Succeeds-bind (sync_neurons-Succeeds now _ _ meta.neurons initial _ h.neurons_complete)
              (λ looped.
                Succeeds-bind
                  (Succeeds-bind
                    (Succeeds-bind
                      (collaterals_to_create-Succeeds looped.1.neuron_cache _ _ meta.collaterals
                        h.collaterals_complete)
                      (λ new. (_, refl)))
                    (λ c. (_, refl)))
                  (λ r. (_, refl))))
