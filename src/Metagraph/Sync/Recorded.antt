-- ===== src/Metagraph/Sync/Recorded.antt =====
-- What `sync_metagraph` reports.
use sentinel_tower.Prelude.{
  ℕ, suc, ◌+◌, ◌≡◌, refl, ap, inl, inr, Bool, true, false, ◌&&◌, Option, none, some, List, [], ◌∷◌,
  filter, length, Option-cases, arith,
}
use sentinel_tower.Json.{ok, AfterOk, AfterOk-ok, AfterOk-raised, AfterOk-bind}
use sentinel_tower.Metagraph.Keys.{Keys}
use sentinel_tower.Metagraph.Relations.{
  NeuronCache, neuron_by_uid, links_to_create, sync_links, sync_collaterals,
}
use sentinel_tower.Metagraph.Rows.{
  Subnet, SubnetDto, is_subnet, State, HotkeyDto, MechanismDto, SnapshotDto, LinkDto, Metagraph,
}
use sentinel_tower.Metagraph.Sync.{
  DumpMetadata, sync_subnet, measures_of, sync_owner, make_aware, put_subnet, fill_subnet,
}
use sentinel_tower.Metagraph.Amounts.{to_rao}
use sentinel_tower.Prelude.Int.{ℤ}
use sentinel_tower.Prelude.Rows.{find_row, find_row-holds}
use sentinel_tower.Metagraph.Sync.Run.{
  Stats, initial, one_if, mechanisms_in, count_neuron, sync_keys, sync_neuron, sync_one,
  sync_neurons, sync_relations, sync_all, sync_metagraph,
}
use sentinel_tower.Metagraph.Sync.Valid.{sync_metagraph-ok}
use sentinel_tower.Metagraph.Sync.Keyed.{whatever}

abbrev pub mechanisms_total : List SnapshotDto → ℕ
mechanisms_total [] = 0
mechanisms_total (n ∷ ns) = length n.mechanisms + mechanisms_total ns

mechanisms_in-length : (ms : List MechanismDto) → mechanisms_in ms ≡ length ms
unfolding mechanisms_in
mechanisms_in-length [] = refl
mechanisms_in-length (m ∷ ms) = ap suc (mechanisms_in-length ms)

-- A neuron that is stored has a hotkey.
sync_one-hotkey :
    (now block netuid : ℕ) (dto : SnapshotDto) (s : State)
    → AfterOk (λ s'. one_if dto.neuron.hotkey ≡ 1) (sync_one now block netuid dto s)
unfolding sync_one sync_neuron
sync_one-hotkey now block netuid dto s =
    AfterOk-bind (whatever (sync_keys now dto.neuron s.keys)) (λ keys v.
      AfterOk-bind (there keys dto.neuron.hotkey refl)
        (λ found w. AfterOk-bind (whatever (measures_of dto)) (λ m e. AfterOk-ok w)))
  where
    there :
        (keys : Keys) (d : Option HotkeyDto)
        → dto.neuron.hotkey ≡ d
        → AfterOk
            (λ q. one_if dto.neuron.hotkey ≡ 1)
            (sync_neuron now dto.neuron netuid (record s { keys = keys }))
    there keys none e = rw (e, sync_neuron) AfterOk-raised
    there keys (some d) e = record { after = λ q f. rw e refl }

-- Every neuron has a hotkey.
abbrev pub AllOwned : List SnapshotDto → Type 0
AllOwned [] = Unit
AllOwned (n ∷ ns) = (one_if n.neuron.hotkey ≡ 1) × AllOwned ns

-- The counters of the loop.
record Counted (ns : List SnapshotDto) (t t' : Stats) : Type 0 where
  neurons_counted : t'.neurons ≡ t.neurons + length ns
  snapshots_counted : t'.snapshots ≡ t.snapshots + length ns
  hotkeys_counted : t'.hotkeys ≡ t.hotkeys + length ns
  mechanisms_counted : t'.mechanism_metrics ≡ t.mechanism_metrics + mechanisms_total ns
  owned : AllOwned ns

sync_neurons-Counted :
    (now block netuid : ℕ) (ns : List SnapshotDto) (t : Stats) (s : State)
    → AfterOk (λ q. Counted ns t q.0) (sync_neurons now block netuid ns t s)
unfolding sync_neurons count_neuron
sync_neurons-Counted now block netuid [] t s = AfterOk-ok (record {
  neurons_counted = omega arith;
  snapshots_counted = omega arith;
  hotkeys_counted = omega arith;
  mechanisms_counted = omega arith;
  owned = tt;
})
sync_neurons-Counted now block netuid (n ∷ ns) t s =
    AfterOk-bind (sync_one-hotkey now block netuid n s) (λ s' one. record {
      after = λ q e.
          let c = (sync_neurons-Counted now block netuid ns (count_neuron n t) s').after q e in
          record {
            neurons_counted = omega (arith, c.neurons_counted);
            snapshots_counted = omega (arith, c.snapshots_counted);
            hotkeys_counted = omega (arith, c.hotkeys_counted, one);
            mechanisms_counted =
                omega (arith, c.mechanisms_counted, mechanisms_in-length n.mechanisms);
            owned = (one, c.owned);
          };
    })

abbrev pub is_some : {A : Type 0} → Option A → Bool
is_some none = false
is_some (some a) = true

-- Both uids of a link are those of neurons of the subnet that are cached.
abbrev pub is_linked : NeuronCache → ℕ → LinkDto → Bool
is_linked cache netuid l =
    is_some (neuron_by_uid netuid l.source_neuron_uid cache)
    && is_some (neuron_by_uid netuid l.target_neuron_uid cache)

links_to_create-length :
    (cache : NeuronCache) (block netuid : ℕ) (ls : List LinkDto)
    → length (links_to_create cache block netuid ls) ≡ length (filter (is_linked cache netuid) ls)
unfolding links_to_create
links_to_create-length cache block netuid [] = refl
links_to_create-length cache block netuid (l ∷ ls) =
    let rest = links_to_create-length cache block netuid ls in
    elim (Option-cases (neuron_by_uid netuid l.source_neuron_uid cache)) [
      | inl e ↦ rw (e, links_to_create) rest
      | inr (a, e) ↦ elim (Option-cases (neuron_by_uid netuid l.target_neuron_uid cache)) [
        | inl f ↦ rw (e, f, links_to_create) rest
        | inr (b, f) ↦ rw (e, f, links_to_create) (ap suc rest)
      ]
    ]

pub record IsReport (meta : Metagraph) (t : Stats) (cache : NeuronCache) : Type 0 where
  pub all_owned : AllOwned meta.neurons
  pub neurons_all : t.neurons ≡ length meta.neurons
  pub snapshots_all : t.snapshots ≡ length meta.neurons
  pub hotkeys_all : t.hotkeys ≡ length meta.neurons
  pub mechanisms_all : t.mechanism_metrics ≡ mechanisms_total meta.neurons
  pub weights_linked : t.weights ≡ length (filter (is_linked cache meta.subnet.netuid) meta.weights)
  pub bonds_linked : t.bonds ≡ length (filter (is_linked cache meta.subnet.netuid) meta.bonds)

sync_relations-IsReport :
    (meta : Metagraph) (block : ℕ) (t : Stats) (s : State)
    → Counted meta.neurons initial t
    → AfterOk
        (λ q. IsReport meta q.0 q.1.neuron_cache)
        (sync_relations meta block meta.subnet.netuid t s)
unfolding sync_relations sync_links
sync_relations-IsReport meta block t s c =
    let cache = s.neuron_cache in
    let netuid = meta.subnet.netuid in
    AfterOk-bind (whatever (sync_collaterals cache block netuid meta.collaterals s.collaterals))
      (λ x e. AfterOk-ok (record {
        all_owned = c.owned;
        neurons_all = omega (arith, c.neurons_counted);
        snapshots_all = omega (arith, c.snapshots_counted);
        hotkeys_all = omega (arith, c.hotkeys_counted);
        mechanisms_all = omega (arith, c.mechanisms_counted);
        weights_linked = links_to_create-length cache block netuid meta.weights;
        bonds_linked = links_to_create-length cache block netuid meta.bonds;
      }))

put_subnet-netuid :
    (dto : SubnetDto) (owner registered : Option ℕ) (emission : ℤ) (rows : List Subnet)
    → (put_subnet dto owner registered emission rows).0.netuid ≡ dto.netuid
unfolding put_subnet fill_subnet
put_subnet-netuid dto owner registered emission rows =
    elim (Option-cases (find_row (is_subnet dto.netuid) rows)) [
      | inl e ↦ rw (e, put_subnet) refl
      | inr (s, e) ↦
          let own = find_row-holds (is_subnet dto.netuid) rows e in
          let same : s.netuid ≡ dto.netuid = ground arith in rw (e, put_subnet) same
    ]

sync_subnet-netuid :
    (now : ℕ) (zone : ℕ → ℕ) (dto : SubnetDto) (keys : Keys) (rows : List Subnet)
    → AfterOk (λ q. q.0.netuid ≡ dto.netuid) (sync_subnet now zone dto keys rows)
unfolding sync_subnet
sync_subnet-netuid now zone dto keys rows =
    AfterOk-bind (whatever (sync_owner now dto.owner_hotkey keys)) (λ owner v.
      AfterOk-bind (whatever (to_rao dto.alpha_out_emission)) (λ emission u.
        AfterOk-ok
          (put_subnet-netuid dto owner.0 (make_aware zone dto.registered_at) emission rows)))

module _ (now : ℕ) (zone : ℕ → ℕ) where
  sync_all-IsReport :
      (meta : Metagraph) (dump : DumpMetadata) (s : State)
      → AfterOk (λ q. IsReport meta q.0 q.1.neuron_cache) (sync_all now zone meta dump s)
  unfolding sync_all
  sync_all-IsReport meta dump s =
      AfterOk-bind (sync_subnet-netuid now zone meta.subnet s.keys s.subnets) (λ subnet v.
        AfterOk-bind (sync_neurons-Counted now _ _ meta.neurons initial _) (λ looped c.
          AfterOk-bind (rw v (sync_relations-IsReport meta _ looped.0 looped.1 c))
            (λ r x. AfterOk-ok x)))

  -- If a metagraph is stored, then every neuron of it had a hotkey, and is counted once as a neuron,
  -- as a hotkey and as a snapshot; every mechanism is counted once; and the weights and bonds that are
  -- counted are those of which both uids are uids of neurons of the subnet in the cache of the service.
  pub sync_metagraph-IsReport :
      (meta : Metagraph) (dump : DumpMetadata) (s : State) {t : Stats} {s' : State}
      → sync_metagraph now zone meta dump s ≡ (ok t, s')
      → IsReport meta t s'.neuron_cache
  sync_metagraph-IsReport meta dump s {t} {s'} e =
      (sync_all-IsReport meta dump s).after (t, s') (sync_metagraph-ok now zone meta dump s e)
