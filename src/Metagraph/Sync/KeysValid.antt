-- ===== src/Metagraph/Sync/KeysValid.antt =====
-- What a metagraph keeps valid, and the keys that it asks for.
use Prim.Native.String.{String}
use sentinel_tower.Prelude.{ℕ, ◌≡◌, refl, Option, none, some, List}
use sentinel_tower.Prelude.Rows.{IsKeyed}
use sentinel_tower.Json.{AfterOk, AfterOk-ok, AfterOk-bind}
use sentinel_tower.Metagraph.Amounts.{to_rao}
use sentinel_tower.Metagraph.Keys.{Keys, get_or_create_coldkey, get_or_create_hotkey}
use sentinel_tower.Metagraph.Keys.Assign.{
  IsCoherent, get_or_create_coldkey-IsAssigned, get_or_create_evmkey-IsAssigned,
}
use sentinel_tower.Metagraph.Keys.Refines.{get_or_create_hotkey-IsAssigned}
use sentinel_tower.Metagraph.Keys.Unique.{
  IsUnique, get_or_create_coldkey-IsUnique, get_or_create_evmkey-IsUnique,
  get_or_create_hotkey-IsUnique,
}
use sentinel_tower.Metagraph.Rows.{
  Subnet, State, is_block, is_subnet, is_neuron, is_snapshot, is_metrics, is_link, is_collateral,
  is_dump, HotkeyDto, SubnetDto, NeuronDto,
}
use sentinel_tower.Metagraph.Sync.{sync_owner, sync_subnet}
use sentinel_tower.Metagraph.Sync.Run.{evmkey_for, sync_keys}
use sentinel_tower.Metagraph.Sync.Keyed.{put_subnet-IsKeyed, whatever}

abbrev pub KeysValid : Keys → Type 0
KeysValid s = IsUnique s × IsCoherent s

-- The unique constraints, and what the caches of keys hold.
pub record IsValid (s : State) : Type 0 where
  pub keys_valid : KeysValid s.keys
  pub blocks_keyed : IsKeyed is_block s.blocks
  pub subnets_keyed : IsKeyed is_subnet s.subnets
  pub neurons_keyed : IsKeyed is_neuron s.neurons.rows
  pub snapshots_keyed : IsKeyed is_snapshot s.snapshots.rows
  pub metrics_keyed : IsKeyed is_metrics s.metrics
  pub weights_keyed : IsKeyed is_link s.weights
  pub bonds_keyed : IsKeyed is_link s.bonds
  pub collaterals_keyed : IsKeyed is_collateral s.collaterals
  pub dumps_keyed : IsKeyed is_dump s.dumps

pub hotkey-IsValid :
    (now : ℕ) (a : String) (d : Option String) (s : Keys)
    → KeysValid s
    → AfterOk (λ q. KeysValid q.1) (get_or_create_hotkey now a d s)
hotkey-IsValid now a d s h = record {
  after = λ q e. (
    (get_or_create_hotkey-IsUnique now a d s h.0).after q e,
    (get_or_create_hotkey-IsAssigned now a d s h.1 {h = q.0} {s' = q.1} e).1,
  );
}

coldkey-IsValid :
    (d : Option String) (s : Keys)
    → KeysValid s
    → KeysValid (elim d [ none ↦ s | some c ↦ (get_or_create_coldkey c s).1 ])
coldkey-IsValid none s h = h
coldkey-IsValid (some c) s h =
    (get_or_create_coldkey-IsUnique c s h.0, (get_or_create_coldkey-IsAssigned c s h.1).1)

pub evmkey-IsValid : (d : Option String) (s : Keys) → KeysValid s → KeysValid (evmkey_for d s).1
unfolding evmkey_for
evmkey-IsValid none s h = h
evmkey-IsValid (some a) s h =
    (get_or_create_evmkey-IsUnique a s h.0, (get_or_create_evmkey-IsAssigned a s h.1).1)

sync_owner-IsValid :
    (now : ℕ) (d : Option HotkeyDto) (s : Keys)
    → KeysValid s
    → AfterOk (λ q. KeysValid q.1) (sync_owner now d s)
unfolding sync_owner
sync_owner-IsValid now none s h = AfterOk-ok h
sync_owner-IsValid now (some d) s h =
    AfterOk-bind (hotkey-IsValid now d.hotkey d.coldkey _ (coldkey-IsValid d.coldkey s h))
      (λ q v. AfterOk-ok v)

pub sync_keys-IsValid :
    (now : ℕ) (dto : NeuronDto) (s : Keys) → KeysValid s → AfterOk KeysValid (sync_keys now dto s)
unfolding sync_keys
sync_keys-IsValid now dto s h = go dto.hotkey refl
  where
    go : (d : Option HotkeyDto) → dto.hotkey ≡ d → AfterOk KeysValid (sync_keys now dto s)
    go none e = rw (e, sync_keys) (AfterOk-ok (evmkey-IsValid dto.evm_key s h))
    go (some d) e =
        rw (e, sync_keys)
          (AfterOk-bind (hotkey-IsValid now d.hotkey d.coldkey _ (coldkey-IsValid d.coldkey s h))
            (λ q v. AfterOk-ok (evmkey-IsValid dto.evm_key q.1 v)))

pub sync_subnet-IsValid :
    (now : ℕ) (zone : ℕ → ℕ) (dto : SubnetDto) (keys : Keys) (rows : List Subnet)
    → KeysValid keys
    → IsKeyed is_subnet rows
    → AfterOk (λ q. KeysValid q.1 × IsKeyed is_subnet q.2) (sync_subnet now zone dto keys rows)
unfolding sync_subnet
sync_subnet-IsValid now zone dto keys rows h k =
    AfterOk-bind (sync_owner-IsValid now dto.owner_hotkey keys h) (λ owner v.
      AfterOk-bind (whatever (to_rao dto.alpha_out_emission))
        (λ emission u. AfterOk-ok (v, put_subnet-IsKeyed dto owner.0 _ emission rows k)))
