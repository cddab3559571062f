-- ===== src/Dagster/Metagraphs.antt =====
-- The op `ingest_metagraph` of app/src/project/dagster/jobs.py: it stores the metagraph of each file that
-- has no checkpoint. `model_validate` of the SDK, `json.loads` and the clock are parameters; the files
-- are those that the reader lists, and the clock stands still during a run.
pub mod Counts
use Prim.Native.String.{String}
use sentinel_tower.Prelude.{
  ℕ, zero, suc, ◌+◌, ◌-◌, ◌≤◌, ◌≡◌, refl, sym, ap, ◌∙◌, Bool, true, false, not, ◌||◌, Option, none,
  some, List, [], ◌∷◌, length, length-append, if◌then◌else◌, arith, Bool-cases, inl, inr,
}
use sentinel_tower.Prelude.Int.{ℤ, pos}
use sentinel_tower.Json.{Json, Result, ok, raised, ◌>>=◌, truthy, Result-cases}
use sentinel_tower.Storage.{Text}
use sentinel_tower.Storage.Backend.{text_eq}
use sentinel_tower.Metagraph.Rows.{State, Metagraph}
use sentinel_tower.Metagraph.Sync.{DumpMetadata}
use sentinel_tower.Metagraph.Sync.Run.{Stats, new_service, sync_metagraph}
use sentinel_tower.Metagraph.Sync.KeysValid.{IsValid}
use sentinel_tower.Metagraph.Sync.Valid.{new_service-IsValid, sync_metagraph-IsValid}
use sentinel_tower.Dagster.Decimal.{parse_int}
use sentinel_tower.Dagster.Keys.{get_metagraph_checkpoint_key}
use sentinel_tower.Dagster.Reader.{read_metagraph_file}

-- A file of a subnet: its name without ".jsonl", and its text, or none where it cannot be opened.
pub record MetagraphFile : Type 0 where
  pub netuid : ℕ
  pub stem : Text
  pub content : Option Text

-- The dump that a metagraph carries, if any.
pub record DumpDto : Type 0 where
  pub epoch_position : Option String
  pub started_at : Option ℕ
  pub finished_at : Option ℕ

-- The metagraph tables, and the paths that have a checkpoint.
pub record Warehouse : Type 0 where
  pub state : State
  pub checkpoints : List Text

-- A file that is to be processed, with its checkpoint key.
pub record Pending : Type 0 where
  pub file : MetagraphFile
  pub key : Text

unfoldable pub has_text : Text → List Text → Bool
unfolding text_eq
has_text t [] = false
has_text t (u ∷ us) = text_eq t u || has_text t us

-- The files without a checkpoint. A name that is no number raises.
unfoldable pub files_to_process : List Text → List MetagraphFile → Result (List Pending)
unfolding has_text parse_int get_metagraph_checkpoint_key
files_to_process processed [] = ok []
files_to_process processed (f ∷ fs) = elim (parse_int f.stem) [
  | none ↦ raised
  | some block ↦
      let key = get_metagraph_checkpoint_key (pos f.netuid) block in
      elim (files_to_process processed fs) [
        | raised ↦ raised
        | ok pending ↦
            ok
              (if has_text key processed then pending else record { file = f; key = key } ∷ pending)
      ]
]

abbrev pub or_default : {A : Type 0} → Option A → A → A
or_default none d = d
or_default (some a) d = a

abbrev pub position_of : Option DumpDto → String
position_of none = "inside"
position_of (some d) = or_default d.epoch_position "inside"

abbrev pub started_of : Option DumpDto → ℕ → ℕ
started_of none now = now
started_of (some d) now = or_default d.started_at now

abbrev pub finished_of : Option DumpDto → ℕ → ℕ
finished_of none now = now
finished_of (some d) now = or_default d.finished_at now

-- `DumpMetadata(...)`
unfoldable pub dump_metadata : ℕ → Option DumpDto → ℕ → DumpMetadata
dump_metadata netuid dump now = record {
  netuid = netuid;
  epoch_position = position_of dump;
  started_at = started_of dump now;
  finished_at = finished_of dump now;
}

-- `total_stats.get(key, 0) + value` for each key.
unfoldable pub add_stats : Option Stats → Stats → Stats
add_stats none t = t
add_stats (some s) t = record {
  coldkeys = s.coldkeys + t.coldkeys;
  hotkeys = s.hotkeys + t.hotkeys;
  evmkeys = s.evmkeys + t.evmkeys;
  subnets = s.subnets + t.subnets;
  blocks = s.blocks + t.blocks;
  neurons = s.neurons + t.neurons;
  snapshots = s.snapshots + t.snapshots;
  mechanism_metrics = s.mechanism_metrics + t.mechanism_metrics;
  weights = s.weights + t.weights;
  bonds = s.bonds + t.bonds;
  collaterals = s.collaterals + t.collaterals;
  dumps = s.dumps + t.dumps;
}

-- The counters of the loop, and the tables.
pub record Progress : Type 0 where
  pub processed_count : ℕ
  pub error_count : ℕ
  pub total_stats : Option Stats
  pub warehouse : Warehouse

pub data MetagraphReport : Type 0 where
  failed : MetagraphReport
  report : (processed errors skipped : ℕ) → Option Stats → MetagraphReport

module _ (now : ℕ) (zone : ℕ → ℕ) (loads : Text → Result Json)
    (validate : Json → Result (Metagraph × Option DumpDto)) where
  abbrev pub with_error : Progress → Progress
  with_error p = record p { error_count = p.error_count + 1 }

  -- After the transaction: the stats are added, and the checkpoint is made, which fails where there is
  -- one. The tables keep what was stored.
  unfoldable pub after_store : Pending → Result Stats × State → Progress → Progress
  unfolding has_text add_stats
  after_store file (raised, s) p =
      with_error (record p { warehouse = record p.warehouse { state = s } })
  after_store file (ok t, s) p =
      let stored = record p {
        total_stats = some (add_stats p.total_stats t);
        warehouse = record p.warehouse { state = s };
      } in
      if has_text file.key p.warehouse.checkpoints then with_error stored else record stored {
        processed_count = p.processed_count + 1;
        warehouse = record { state = s; checkpoints = file.key ∷ p.warehouse.checkpoints };
      }

  -- `MetagraphSyncService().sync_metagraph(...)` of what the file holds.
  unfoldable pub store_file : Pending → Result (Metagraph × Option DumpDto) → Progress → Progress
  unfolding new_service sync_metagraph after_store dump_metadata
  store_file file raised p = with_error p
  store_file file (ok (meta, dump)) p =
      after_store file
        (sync_metagraph now zone meta (dump_metadata file.file.netuid dump now)
          (new_service p.warehouse.state))
        p

  -- One turn of the loop; an exception counts as an error.
  unfoldable pub process_file : Pending → Progress → Progress
  unfolding read_metagraph_file store_file truthy
  process_file file p = elim (read_metagraph_file loads file.file.content) [
    | none ↦ with_error p
    | some v ↦ if truthy v then store_file file (validate v) p else with_error p
  ]

  unfoldable pub process_all : List Pending → Progress → Progress
  unfolding process_file
  process_all [] p = p
  process_all (f ∷ fs) p = process_all fs (process_file f p)

  unfoldable pub report_of : ℕ → List Pending → Warehouse → MetagraphReport × Warehouse
  unfolding process_all
  report_of total pending w =
      let p =
        process_all pending
          (record { processed_count = 0; error_count = 0; total_stats = none; warehouse = w }) in
      (report p.processed_count p.error_count (total - length pending) p.total_stats, p.warehouse)

  unfoldable pub ingest_metagraph : List MetagraphFile → Warehouse → MetagraphReport × Warehouse
  unfolding files_to_process report_of
  ingest_metagraph files w = elim (files_to_process w.checkpoints files) [
    | raised ↦ (failed, w)
    | ok pending ↦ report_of (length files) pending w
  ]
