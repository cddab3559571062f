-- ===== src/Metagraph/Sync/Run.antt =====
-- `_sync_neuron`, the loop over the neurons and `sync_metagraph` of
-- app/src/apps/metagraph/services/metagraph_sync_service.py. The tables and the caches are passed on;
-- an exception leaves the tables as they were, and nothing cached.
use Prim.Native.String.{String}
use sentinel_tower.Prelude.{
  ℕ, suc, ◌+◌, ◌==◌, ◌&&◌, Option, none, some, List, [], ◌∷◌, if◌then◌else◌,
}
use sentinel_tower.Prelude.Rows.{upsert}
use sentinel_tower.Json.{Result, ok, raised, ◌>>=◌}
use sentinel_tower.Metagraph.Tables.{Table, update_or_create}
use sentinel_tower.Metagraph.Keys.{
  Hotkey, Keys, get_or_create_coldkey, get_or_create_hotkey, get_or_create_evmkey,
  get_cached_hotkey, flush_hotkey_last_seen,
}
use sentinel_tower.Metagraph.Relations.{NeuronCache, sync_links, sync_collaterals}
use sentinel_tower.Metagraph.Rows.{
  Subnet, Neuron, Measures, NeuronSnapshot, MechanismMetrics, MetagraphDump, State, is_neuron,
  is_snapshot, is_metrics, is_dump, HotkeyDto, NeuronDto, MechanismDto, SnapshotDto, Metagraph,
}
use sentinel_tower.Metagraph.Sync.{
  DumpMetadata, sync_block, sync_subnet, measures_of, position_number,
}

-- The counts that `sync_metagraph` returns.
pub record Stats : Type 0 where
  pub coldkeys : ℕ
  pub hotkeys : ℕ
  pub evmkeys : ℕ
  pub subnets : ℕ
  pub blocks : ℕ
  pub neurons : ℕ
  pub snapshots : ℕ
  pub mechanism_metrics : ℕ
  pub weights : ℕ
  pub bonds : ℕ
  pub collaterals : ℕ
  pub dumps : ℕ

-- The counters after the block and the subnet.
abbrev pub initial : Stats
initial = record {
  coldkeys = 0;
  hotkeys = 0;
  evmkeys = 0;
  subnets = 1;
  blocks = 1;
  neurons = 0;
  snapshots = 0;
  mechanism_metrics = 0;
  weights = 0;
  bonds = 0;
  collaterals = 0;
  dumps = 0;
}

unfoldable pub cached_neuron : ℕ × ℕ → NeuronCache → Option Neuron
cached_neuron k [] = none
cached_neuron k ((j, n) ∷ cache) =
    if (k.0 == j.0) && (k.1 == j.1) then some n else cached_neuron k cache

-- The hotkey of a neuron, from the cache if it is there.
unfoldable pub hotkey_for : ℕ → HotkeyDto → Keys → Result (Hotkey × Keys)
unfolding get_cached_hotkey get_or_create_hotkey
hotkey_for now h s = elim (get_cached_hotkey h.hotkey s) [
  | some k ↦ ok (k, s)
  | none ↦ get_or_create_hotkey now h.hotkey h.coldkey s
]

unfoldable pub evmkey_for : Option String → Keys → Option ℕ × Keys
unfolding get_or_create_evmkey
evmkey_for none s = (none, s)
evmkey_for (some a) s = let found = get_or_create_evmkey a s in (some found.0.id, found.1)

-- The uid of now, and the EVM key if there is one. The tests for a difference only spare a write.
unfoldable pub renew_neuron : ℕ → Option ℕ → Neuron → Neuron
renew_neuron uid evm n = record n {
  uid = uid;
  evm_key_id = elim evm [ none ↦ n.evm_key_id | some e ↦ some e ];
}

unfoldable pub put_neuron : ℕ × ℕ → ℕ → Option ℕ → Table Neuron → Neuron × Table Neuron
unfolding update_or_create renew_neuron
put_neuron k uid evm t =
    update_or_create (is_neuron k) (renew_neuron uid evm)
      (λ i. record { id = i; hotkey_id = k.0; subnet_id = k.1; uid = uid; evm_key_id = evm }) t

unfoldable pub neuron_of_hotkey : NeuronDto → ℕ → Hotkey → State → Neuron × State
unfolding cached_neuron evmkey_for put_neuron
neuron_of_hotkey dto netuid hotkey s = elim (cached_neuron (hotkey.id, netuid) s.neuron_cache) [
  | some n ↦ (n, s)
  | none ↦
      let evm = evmkey_for dto.evm_key s.keys in
      let put = put_neuron (hotkey.id, netuid) dto.uid evm.0 s.neurons in
      (
        put.0,
        record s {
          keys = evm.1;
          neurons = put.1;
          neuron_cache = ((hotkey.id, netuid), put.0) ∷ s.neuron_cache;
        },
      )
]

-- A neuron without a hotkey is an exception: its hotkey is asked for its address.
unfoldable pub sync_neuron : ℕ → NeuronDto → ℕ → State → Result (Neuron × State)
unfolding hotkey_for neuron_of_hotkey
sync_neuron now dto netuid s = elim dto.hotkey [
  | none ↦ raised
  | some h ↦ do
    found ← hotkey_for now h s.keys
    ok (neuron_of_hotkey dto netuid found.0 (record s { keys = found.1 }))
]

unfoldable pub sync_neuron_snapshot : ℕ → ℕ → Measures → State → NeuronSnapshot × State
unfolding update_or_create
sync_neuron_snapshot neuron block m s =
    let put =
      update_or_create (is_snapshot (neuron, block)) (λ r. record r { measures = m })
        (λ i. record { id = i; neuron_id = neuron; block_id = block; measures = m }) s.snapshots in
    (put.0, record s { snapshots = put.1 })

unfoldable pub sync_mechanism_metrics :
    ℕ → MechanismDto → List MechanismMetrics → List MechanismMetrics
unfolding upsert
sync_mechanism_metrics snapshot dto rows =
    upsert (is_metrics (snapshot, dto.mech_id)) (λ r. record r { mechanism = dto.mechanism })
      (record { snapshot_id = snapshot; mech_id = dto.mech_id; mechanism = dto.mechanism }) rows

unfoldable pub sync_mechanisms :
    ℕ → List MechanismDto → List MechanismMetrics → List MechanismMetrics
unfolding sync_mechanism_metrics
sync_mechanisms snapshot [] rows = rows
sync_mechanisms snapshot (m ∷ ms) rows =
    sync_mechanisms snapshot ms (sync_mechanism_metrics snapshot m rows)

abbrev pub one_if : {A : Type 0} → Option A → ℕ
one_if none = 0
one_if (some a) = 1

-- The keys of a neuron, and how many coldkeys, hotkeys and EVM keys they are.
unfoldable pub sync_keys : ℕ → NeuronDto → Keys → Result Keys
unfolding get_or_create_coldkey get_or_create_hotkey evmkey_for
sync_keys now dto s = elim dto.hotkey [
  | none ↦ ok (evmkey_for dto.evm_key s).1
  | some h ↦ do
    found ←
        get_or_create_hotkey now h.hotkey h.coldkey
          (elim h.coldkey [ none ↦ s | some c ↦ (get_or_create_coldkey c s).1 ])
    ok (evmkey_for dto.evm_key found.1).1
]

unfoldable pub coldkeys_in : NeuronDto → ℕ
coldkeys_in dto = elim dto.hotkey [ none ↦ 0 | some h ↦ one_if h.coldkey ]

unfoldable pub mechanisms_in : List MechanismDto → ℕ
mechanisms_in [] = 0
mechanisms_in (m ∷ ms) = suc (mechanisms_in ms)

unfoldable pub count_neuron : SnapshotDto → Stats → Stats
unfolding coldkeys_in mechanisms_in
count_neuron dto t = record t {
  coldkeys = t.coldkeys + coldkeys_in dto.neuron;
  hotkeys = t.hotkeys + one_if dto.neuron.hotkey;
  evmkeys = t.evmkeys + one_if dto.neuron.evm_key;
  neurons = t.neurons + 1;
  snapshots = t.snapshots + 1;
  mechanism_metrics = t.mechanism_metrics + mechanisms_in dto.mechanisms;
}

-- One turn of the loop over the neurons.
unfoldable pub sync_one : ℕ → ℕ → ℕ → SnapshotDto → State → Result State
unfolding sync_keys sync_neuron measures_of sync_neuron_snapshot sync_mechanisms
sync_one now block netuid dto s = do
  keys ← sync_keys now dto.neuron s.keys
  found ← sync_neuron now dto.neuron netuid (record s { keys = keys })
  m ← measures_of dto
  let put = sync_neuron_snapshot found.0.id block m found.1
  ok (record put.1 { metrics = sync_mechanisms put.0.id dto.mechanisms put.1.metrics })

unfoldable pub sync_neurons : ℕ → ℕ → ℕ → List SnapshotDto → Stats → State → Result (Stats × State)
unfolding sync_one count_neuron
sync_neurons now block netuid [] t s = ok (t, s)
sync_neurons now block netuid (n ∷ ns) t s = do
  s' ← sync_one now block netuid n s
  sync_neurons now block netuid ns (count_neuron n t) s'

unfoldable pub sync_relations : Metagraph → ℕ → ℕ → Stats → State → Result (Stats × State)
unfolding sync_links sync_collaterals
sync_relations meta block netuid t s = do
  let weights = sync_links s.neuron_cache block netuid meta.weights s.weights
  let bonds = sync_links s.neuron_cache block netuid meta.bonds s.bonds
  collaterals ← sync_collaterals s.neuron_cache block netuid meta.collaterals s.collaterals
  ok (
    record t { weights = weights.0; bonds = bonds.0; collaterals = collaterals.0; dumps = 1 },
    record s { weights = weights.1; bonds = bonds.1; collaterals = collaterals.1 },
  )

unfoldable pub sync_metagraph_dump :
    DumpMetadata → ℕ → Subnet → List MetagraphDump → List MetagraphDump
unfolding upsert position_number
sync_metagraph_dump dump block subnet rows =
    upsert (is_dump (dump.netuid, block))
      (λ r. record r {
        owner_hotkey_id = subnet.owner_hotkey_id;
        epoch_position = position_number dump.epoch_position;
        started_at = dump.started_at;
        finished_at = dump.finished_at;
        tempo = subnet.tempo;
      })
      (record {
        netuid = dump.netuid;
        block_id = block;
        owner_hotkey_id = subnet.owner_hotkey_id;
        epoch_position = position_number dump.epoch_position;
        started_at = dump.started_at;
        finished_at = dump.finished_at;
        tempo = subnet.tempo;
      })
      rows

-- `MetagraphSyncService()`: the tables, with empty caches.
unfoldable pub new_service : State → State
new_service s = record s {
  keys = record s.keys {
    coldkey_cache = [];
    hotkey_cache = [];
    evmkey_cache = [];
    hotkeys_to_update = [];
  };
  neuron_cache = [];
}

module _ (now : ℕ) (zone : ℕ → ℕ) where
  -- The body of the transaction.
  unfoldable pub sync_all : Metagraph → DumpMetadata → State → Result (Stats × State)
  unfolding sync_block sync_subnet sync_neurons sync_relations sync_metagraph_dump
      flush_hotkey_last_seen
  sync_all meta dump s = do
    let block = sync_block meta.block dump s.blocks
    subnet ← sync_subnet now zone meta.subnet s.keys s.subnets
    looped ←
        sync_neurons now block.0.number subnet.0.netuid meta.neurons initial
          (record s { blocks = block.1; keys = subnet.1; subnets = subnet.2 })
    related ← sync_relations meta block.0.number subnet.0.netuid looped.0 looped.1
    ok (
      related.0,
      record related.1 {
        dumps = sync_metagraph_dump dump block.0.number subnet.0 related.1.dumps;
        keys = (flush_hotkey_last_seen now related.1.keys).1;
      },
    )

  -- An exception undoes the transaction. It does not undo what the caches have got, but the service, which
  -- its callers make for one call, is dropped then: what is left are the tables, with nothing cached.
  unfoldable pub sync_metagraph : Metagraph → DumpMetadata → State → Result Stats × State
  unfolding sync_all new_service
  sync_metagraph meta dump s = elim (sync_all meta dump s) [
    | raised ↦ (raised, new_service s)
    | ok done ↦ (ok done.0, done.1)
  ]
