-- ===== src/Metagraph/Sync.antt =====
-- `MetagraphSyncService` of app/src/apps/metagraph/services/metagraph_sync_service.py: what it does with
-- one row, and the whole of `sync_metagraph`. The clock stands still while a metagraph is stored.
pub mod Run
pub mod Keyed
pub mod KeysValid
pub mod Valid
pub mod Kept
pub mod History
pub mod Recorded
pub mod Succeeds
pub mod Dumped
use Prim.Native.String.{String}
use text.Mathlib.Text.{◌==◌ as str_eq}
use sentinel_tower.Prelude.{
  ℕ, ◌==◌, Bool, true, false, not, ◌&&◌, Option, none, some, List, [], ◌∷◌, if◌then◌else◌,
}
use sentinel_tower.Prelude.Int.{ℤ, pos, eqb_ℤ}
use sentinel_tower.Prelude.Rows.{find_row, update_where, upsert}
use sentinel_tower.Json.{Json, Result, ok, raised, ◌>>=◌, truthy}
use sentinel_tower.Metagraph.Amounts.{to_rao}
use sentinel_tower.Metagraph.Keys.{
  Hotkey, EvmKey, Keys, get_or_create_coldkey, get_or_create_hotkey, get_or_create_evmkey,
  get_cached_hotkey,
}
use sentinel_tower.Metagraph.Rows.{
  Block, Subnet, Neuron, Measures, MetagraphDump, is_block, is_subnet, BlockDto, HotkeyDto, Moment,
  naive, aware, SubnetDto, SnapshotDto,
}

-- What is known of a dump.
pub record DumpMetadata : Type 0 where
  pub netuid : ℕ
  pub epoch_position : String
  pub started_at : ℕ
  pub finished_at : ℕ

abbrev pub or_text : Option String → String
or_text none = ""
or_text (some s) = s

-- A value that is known stays; one that is missing is filled in.
abbrev pub fill : Option ℕ → Option ℕ → Option ℕ
fill none new = new
fill (some old) new = some old

unfoldable pub fill_block : BlockDto → DumpMetadata → Block → Block
fill_block dto dump b = record b {
  timestamp = fill b.timestamp dto.timestamp;
  dump_started_at = fill b.dump_started_at (some dump.started_at);
  dump_finished_at = fill b.dump_finished_at (some dump.finished_at);
}

-- The row of the block, and the table.
unfoldable pub sync_block : BlockDto → DumpMetadata → List Block → Block × List Block
unfolding find_row update_where fill_block
sync_block dto dump rows = elim (find_row (is_block dto.block_number) rows) [
  | none ↦
      let new : Block = record {
        number = dto.block_number;
        timestamp = dto.timestamp;
        dump_started_at = some dump.started_at;
        dump_finished_at = some dump.finished_at;
      } in
      (new, new ∷ rows)
  | some b ↦
      (fill_block dto dump b, update_where (is_block dto.block_number) (fill_block dto dump) rows)
]

-- The owner of the subnet. The coldkey is fetched before the hotkey, which fetches it again.
unfoldable pub sync_owner : ℕ → Option HotkeyDto → Keys → Result (Option ℕ × Keys)
unfolding get_or_create_coldkey get_or_create_hotkey
sync_owner now none s = ok (none, s)
sync_owner now (some h) s = do
  found ←
      get_or_create_hotkey now h.hotkey h.coldkey
        (elim h.coldkey [ none ↦ s | some c ↦ (get_or_create_coldkey c s).1 ])
  ok (some found.0.id, found.1)

-- The time zone of the settings is added where a datetime has none.
unfoldable pub make_aware : (ℕ → ℕ) → Option Moment → Option ℕ
make_aware zone none = none
make_aware zone (some (naive t)) = some (zone t)
make_aware zone (some (aware t)) = some t

-- The updates of a subnet that exists. The tests for a difference only spare a write.
unfoldable pub fill_subnet : SubnetDto → Option ℕ → Option ℕ → ℤ → Subnet → Subnet
unfolding truthy
fill_subnet dto owner registered emission s = record s {
  name = if str_eq (or_text dto.name) "" then s.name else or_text dto.name;
  owner_hotkey_id = elim owner [ none ↦ s.owner_hotkey_id | some i ↦ some i ];
  registered_at = fill s.registered_at registered;
  alpha_out_emission = if eqb_ℤ emission (pos 0) then s.alpha_out_emission else emission;
  tempo = if dto.tempo == 0 then s.tempo else dto.tempo;
  moving_price = if truthy dto.moving_price then dto.moving_price else s.moving_price;
}

unfoldable pub put_subnet : SubnetDto → Option ℕ → Option ℕ → ℤ → List Subnet → Subnet × List Subnet
unfolding find_row update_where fill_subnet
put_subnet dto owner registered emission rows = elim (find_row (is_subnet dto.netuid) rows) [
  | none ↦
      let new : Subnet = record {
        netuid = dto.netuid;
        name = or_text dto.name;
        owner_hotkey_id = owner;
        registered_at = registered;
        alpha_out_emission = emission;
        tempo = dto.tempo;
        moving_price = dto.moving_price;
      } in
      (new, new ∷ rows)
  | some s ↦ (
    fill_subnet dto owner registered emission s,
    update_where (is_subnet dto.netuid) (fill_subnet dto owner registered emission) rows,
  )
]

unfoldable pub sync_subnet :
    ℕ → (ℕ → ℕ) → SubnetDto → Keys → List Subnet → Result (Subnet × Keys × List Subnet)
unfolding sync_owner make_aware put_subnet
sync_subnet now zone dto keys rows = do
  owner ← sync_owner now dto.owner_hotkey keys
  emission ← to_rao dto.alpha_out_emission
  let put = put_subnet dto owner.0 (make_aware zone dto.registered_at) emission rows
  ok (put.0, owner.1, put.1)

-- The columns of a snapshot, whose amounts may be no numbers.
unfoldable pub measures_of : SnapshotDto → Result Measures
measures_of dto = do
  total_stake ← to_rao dto.total_stake
  alpha_stake ← to_rao dto.alpha_stake
  alpha_dividends ← to_rao dto.alpha_dividends
  tao_dividends ← to_rao dto.tao_dividends
  emissions ← to_rao dto.emissions
  ok (record {
    uid = dto.uid;
    axon_address = or_text dto.axon_address;
    total_stake = total_stake;
    alpha_stake = alpha_stake;
    alpha_dividends = alpha_dividends;
    tao_dividends = tao_dividends;
    normalized_stake = dto.normalized_stake;
    rank = dto.rank;
    trust = dto.trust;
    emissions = emissions;
    is_active = dto.is_active;
    is_validator = dto.is_validator;
    is_immune = dto.is_immune;
    has_any_weights = dto.has_any_weights;
    neuron_version = dto.neuron_version;
    block_at_registration = dto.block_at_registration;
  })

-- `epoch_position_map.get(...)`
unfoldable pub position_number : String → Option ℕ
position_number p =
    if str_eq p "start"
    then some 0
    else (if str_eq p "inside" then some 1 else (if str_eq p "end" then some 2 else none))
