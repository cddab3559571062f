-- ===== src/Extrinsics/Sync.antt =====
-- `sync_extrinsics_to_db`, `store_extrinsics_artifact` and `store_block_extrinsics` of
-- app/src/apps/extrinsics/block_tasks.py, over the tables, the hyperparameters and the outbox.
pub mod Stored
pub mod Again
pub mod Rows
use Prim.Native.String.{String}
use text.Mathlib.Text.{◌==◌ as str_eq}
use sentinel_tower.Prelude.{
  ℕ, ◌+◌, Bool, true, false, not, ◌&&◌, ◌||◌, Option, none, some, List, [], ◌∷◌, ◌++◌, map, filter,
  length, if◌then◌else◌,
}
use sentinel_tower.Prelude.Int.{ℤ, pos, eqb_ℤ}
use sentinel_tower.Json.{Json, null, int, str, obj, Fields, end, field, Result, ok, raised, ◌>>=◌}
use sentinel_tower.Extrinsics.Sanitize.{sanitize_json}
use sentinel_tower.Extrinsics.Parse.{Extrinsic, parse_extrinsic_record}
use sentinel_tower.Extrinsics.Hyperparams.{Store, enrich_extrinsics_with_previous_values}
use sentinel_tower.Notifications.Channels.{Outbox}
use sentinel_tower.Notifications.Registry.{
  Handler, dispatch_block_notifications, dispatch_block_event_notifications,
}

-- An event of the SDK: the extrinsic that it belongs to, if any, and its `model_dump()`.
pub record Event : Type 0 where
  pub extrinsic_idx : Option ℕ
  pub dump : Json

-- The extrinsics table, the two hyperparameter tables, and what was posted.
pub record Db : Type 0 where
  pub rows : List Extrinsic
  pub store : Store
  pub box : Outbox

-- What the two registries hold, and Django's conversion of a netuid.
pub record Setup : Type 0 where
  pub registry : List (Handler Extrinsic)
  pub event_registry : List (Handler Json)
  pub to_column : Json → Option ℕ

-- `{"block_number": ..., "timestamp": ..., **dump}`: a key of the dump hides the one before it.
unfoldable pub overlay : Fields → Fields → Fields
overlay end base = base
overlay (field k v fs) base = field k v (overlay fs base)

unfoldable pub record_of : ℕ → Json → Fields → Json
unfolding overlay
record_of block timestamp dump =
    obj (overlay dump (field "block_number" (int (pos block)) (field "timestamp" timestamp end)))

-- Hashes are texts; of other values, which the column holds as their printed form, none count as equal.
unfoldable pub same_hash : Json → Json → Bool
same_hash (str s) (str t) = str_eq s t
same_hash _ _ = false

unfoldable pub contains_hash : Json → List Json → Bool
contains_hash h [] = false
contains_hash h (k ∷ ks) = same_hash h k || contains_hash h ks

unfoldable pub in_block : ℕ → Extrinsic → Bool
in_block n e = elim e.block_number [ int z ↦ eqb_ℤ z (pos n) | _ ↦ false ]

-- `Extrinsic.objects.filter(block_number=...).values_list("extrinsic_hash")`
unfoldable pub existing_hashes : ℕ → List Extrinsic → List Json
existing_hashes n rows = map (λ e. e.extrinsic_hash) (filter (in_block n) rows)

-- Takes a record on, unless it was skipped or its hash exists.
unfoldable pub take_new : List Json → Option Extrinsic → List Extrinsic → List Extrinsic
take_new existing none others = others
take_new existing (some e) others =
    if contains_hash e.extrinsic_hash existing then others else e ∷ others

-- The loop over the extrinsics of the block; its two lists are the same.
unfoldable pub new_records : List Json → List Json → Result (List Extrinsic)
new_records existing [] = ok []
new_records existing (r ∷ rs) = do
  parsed ← parse_extrinsic_record r
  others ← new_records existing rs
  ok (take_new existing parsed others)

-- `bulk_create(..., ignore_conflicts=True)`: a row whose hash the table has is left out.
unfoldable pub bulk_create : List Extrinsic → List Extrinsic → List Extrinsic
bulk_create [] rows = rows
bulk_create (e ∷ es) rows =
    bulk_create es
      (if contains_hash e.extrinsic_hash (map (λ r. r.extrinsic_hash) rows) then rows else e ∷ rows)

-- `[_sanitize_json(e.model_dump()) for e in block_events if e.extrinsic_idx is None]`
unfoldable pub block_level : List Event → List Json
block_level [] = []
block_level (e ∷ es) = elim e.extrinsic_idx [
  | none ↦ sanitize_json e.dump ∷ block_level es
  | some i ↦ block_level es
]

module _ (setup : Setup) (block : ℕ) where
  -- Dispatches the block's own events, if no extrinsic of the block was stored before. An exception is
  -- logged.
  unfoldable pub dispatch_events : List Json → List Json → Outbox → Outbox
  dispatch_events [] [] box = box
  dispatch_events [] (e ∷ es) box =
      (dispatch_block_event_notifications setup.event_registry block (e ∷ es) box).1
  dispatch_events (h ∷ hs) events box = box

  -- What follows the enrichment, which may raise; an exception of the dispatch is logged.
  unfoldable pub notify_new :
      List Json
      → List Event
      → ℕ
      → List Extrinsic
      → Result (List Extrinsic) × Store
      → Outbox
      → Result ℕ × Db
  unfolding dispatch_events
  notify_new existing events count rows (raised, store) box =
      (raised, record { rows = rows; store = store; box = box })
  notify_new existing events count rows (ok enriched, store) box =
      let box' = (dispatch_block_notifications setup.registry block enriched box).1 in
      (
        ok count,
        record {
          rows = rows;
          store = store;
          box = dispatch_events existing (block_level events) box';
        },
      )

  unfoldable pub sync_new : List Json → List Event → Result (List Extrinsic) → Db → Result ℕ × Db
  unfolding notify_new bulk_create
  sync_new existing events raised db = (raised, db)
  sync_new existing events (ok records) db =
      notify_new existing events (length records) (bulk_create records db.rows)
        (enrich_extrinsics_with_previous_values setup.to_column records db.store) db.box

  unfoldable pub sync_extrinsics_to_db : Json → List Fields → List Event → Db → Result ℕ × Db
  unfolding sync_new
  sync_extrinsics_to_db timestamp [] events db = (ok 0, db)
  sync_extrinsics_to_db timestamp (d ∷ dumps) events db =
      let existing = existing_hashes block db.rows in
      sync_new existing events (new_records existing (map (record_of block timestamp) (d ∷ dumps)))
        db

-- The function returns before its body.
unfoldable pub store_extrinsics_artifact : List Fields → ℕ → Json → ℕ
store_extrinsics_artifact dumps block timestamp = 0

-- What the SDK reads of a block.
pub record Block : Type 0 where
  pub extrinsics : List Fields
  pub timestamp : Json
  pub events : List Event

-- The counts, `BlockExtrinsicsUnavailableError`, or another exception.
pub data Outcome : Type 0 where
  stored : (artifact_count db_count : ℕ) → Outcome
  unavailable : Outcome
  failed : Outcome

abbrev outcome_of : ℕ → Result ℕ → Outcome
outcome_of artifacts raised = failed
outcome_of artifacts (ok n) = stored artifacts n

-- `ingest` stands for the SDK's `ingest_block`.
module _ (setup : Setup) (ingest : ℕ → Result Block) where
  unfoldable pub store_read : ℕ → Block → Db → Outcome × Db
  unfolding sync_extrinsics_to_db store_extrinsics_artifact
  store_read block read db = elim read.extrinsics [
    | [] ↦ (unavailable, db)
    | d ∷ dumps ↦
        let artifacts = store_extrinsics_artifact (d ∷ dumps) block read.timestamp in
        let (result, db') =
          sync_extrinsics_to_db setup block read.timestamp (d ∷ dumps) read.events db in
        (outcome_of artifacts result, db')
  ]

  unfoldable pub store_block_extrinsics : ℕ → Db → Outcome × Db
  unfolding store_read
  store_block_extrinsics block db = elim (ingest block) [
    | raised ↦ (failed, db)
    | ok read ↦ store_read block read db
  ]
