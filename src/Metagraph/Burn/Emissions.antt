-- ===== src/Metagraph/Burn/Emissions.antt =====
-- `BurnService.sync_subnet_emissions` of app/src/apps/metagraph/services/burn_service.py, and what a
-- block of a subnet triggers in app/src/apps/metagraph/block_tasks.py.
use Prim.Native.String.{String}
use sentinel_tower.Prelude.{
  ℕ, ◌==◌, Bool, true, false, not, Option, none, some, List, [], ◌∷◌, map, filter, ltb, length,
  if◌then◌else◌,
}
use sentinel_tower.Prelude.Int.{pos}
use sentinel_tower.Prelude.Rows.{upsert}
use sentinel_tower.Epoch.Position.{
  Position, start, inside, end, get_epoch_position, root_netuid, is_meta_epoch_start,
}
use sentinel_tower.Json.{Result, ok, raised}
use sentinel_tower.Metagraph.Relations.{create_new}
use sentinel_tower.Metagraph.Rows.{Subnet, is_subnet, Metagraph}
use sentinel_tower.Metagraph.Sync.{DumpMetadata}
use sentinel_tower.Metagraph.Sync.Run.{Stats, new_service, sync_metagraph}
use sentinel_tower.Metagraph.Burn.{
  SubnetEmission, Burns, is_emission, ChainRead, unsupported, failed, unavailable, values,
  Providers, meta_epoch_for_block, Floats, float_zero, sync_burn,
}

-- `sorted` by the netuids, which are all different.
unfoldable pub insert_sorted : ℕ × Bool → List (ℕ × Bool) → List (ℕ × Bool)
insert_sorted e [] = e ∷ []
insert_sorted e (f ∷ fs) =
    let rest = insert_sorted e fs in if ltb f.0 e.0 then f ∷ rest else e ∷ f ∷ fs

unfoldable pub sorted : List (ℕ × Bool) → List (ℕ × Bool)
unfolding insert_sorted
sorted [] = []
sorted (e ∷ es) = insert_sorted e (sorted es)

-- A subnet that only has its number.
abbrev pub placeholder : ℕ → Subnet
placeholder n = record {
  netuid = n;
  name = "";
  owner_hotkey_id = none;
  registered_at = none;
  alpha_out_emission = pos 0;
  tempo = 0;
  moving_price = float_zero;
}

-- `bulk_create(..., update_conflicts=True)`
unfoldable pub put_emissions : List SubnetEmission → List SubnetEmission → List SubnetEmission
unfolding upsert
put_emissions [] rows = rows
put_emissions (e ∷ es) rows = put_emissions es (
    upsert (is_emission (e.subnet_id, e.meta_epoch_id))
      (λ r. record r { emission_enabled = e.emission_enabled }) e rows)

abbrev pub not_root : ℕ × Bool → Bool
not_root e = not (e.0 == root_netuid)

unfoldable pub emissions_of : ℕ → List (ℕ × Bool) → List SubnetEmission
unfolding sorted
emissions_of epoch chain =
    map (λ e. record { subnet_id = e.0; meta_epoch_id = epoch; emission_enabled = e.1 })
      (sorted (filter not_root chain))

unfoldable pub placeholders_of : List (ℕ × Bool) → List Subnet
unfolding sorted
placeholders_of chain = map (λ e. placeholder e.0) (sorted (filter not_root chain))

unfoldable pub store_emissions : List (ℕ × Bool) → Option ℕ × Burns → List SubnetEmission × Burns
unfolding emissions_of placeholders_of put_emissions create_new
store_emissions chain (none, s) = ([], s)
store_emissions chain (some epoch, s) = (
  emissions_of epoch chain,
  record s {
    state = record s.state {
      subnets = create_new is_subnet (λ n. n.netuid) (placeholders_of chain) s.state.subnets;
    };
    emissions = put_emissions (emissions_of epoch chain) s.emissions;
  },
)

module _ (ps : Providers) where
  unfoldable pub read_emissions : ℕ → ChainRead → Burns → Result (List SubnetEmission) × Burns
  unfolding store_emissions meta_epoch_for_block
  read_emissions block unsupported s = (ok [], s)
  read_emissions block failed s = (raised, s)
  read_emissions block unavailable s = (ok [], s)
  read_emissions block (values chain) s =
      let stored = store_emissions chain (meta_epoch_for_block ps block s) in
      (ok stored.0, stored.1)

  unfoldable pub sync_subnet_emissions : ℕ → Burns → Result (List SubnetEmission) × Burns
  unfolding read_emissions is_meta_epoch_start
  sync_subnet_emissions block s =
      if is_meta_epoch_start (pos block)
      then (elim ps.current [
        | none ↦ (raised, s)
        | some p ↦ read_emissions block (p.get_subnet_emission_enabled block) s
      ])
      else (ok [], s)

  -- `sync_subnet_emissions_for_block`
  unfoldable pub sync_subnet_emissions_for_block : ℕ → Burns → Result ℕ × Burns
  unfolding sync_subnet_emissions
  sync_subnet_emissions_for_block block s =
      let done = sync_subnet_emissions block s in
      (elim done.0 [ raised ↦ raised | ok es ↦ ok (length es) ], done.1)

abbrev pub position_text : Position → String
position_text start = "start"
position_text inside = "inside"
position_text end = "end"

abbrev pub is_start : Position → Bool
is_start start = true
is_start inside = false
is_start end = false

module _ (fl : Floats) (ps : Providers) (superburn : Option String) (now : ℕ) (zone : ℕ → ℕ) where
  -- What follows the storing of a metagraph: the burn, at the start of an epoch.
  unfoldable pub after_sync :
      ℕ → ℕ → Position → Result Stats → Burns → Result (Option Stats) × Burns
  unfolding sync_burn
  after_sync block netuid p raised s = (raised, s)
  after_sync block netuid p (ok t) s =
      if is_start p
      then (ok (some t), (sync_burn fl ps superburn block netuid s).1)
      else (ok (some t), s)

  -- `sync_metagraph_for_block`, over what `ingest_subnet` gives: nothing, a metagraph or an exception. The
  -- times are those before and after it.
  unfoldable pub sync_metagraph_for_block :
      ℕ → ℕ → Result (Option Metagraph) → ℕ → ℕ → Burns → Result (Option Stats) × Burns
  unfolding get_epoch_position new_service sync_metagraph after_sync
  sync_metagraph_for_block block netuid raised started finished s = (raised, s)
  sync_metagraph_for_block block netuid (ok none) started finished s = (ok none, s)
  sync_metagraph_for_block block netuid (ok (some meta)) started finished s =
      elim (get_epoch_position (pos block) netuid) [
        | none ↦ (raised, s)
        | some p ↦
            let dump : DumpMetadata = record {
              netuid = netuid;
              epoch_position = position_text p;
              started_at = started;
              finished_at = finished;
            } in
            let synced = sync_metagraph now zone meta dump (new_service s.state) in
            after_sync block netuid p synced.0 (record s { state = synced.1 })
      ]
