-- ===== src/Dagster/Extrinsics.antt =====
-- The op `ingest_extrinsics` of app/src/project/dagster/jobs.py: it reads the records after the
-- checkpoint, and adds those whose hash the table has not. Which rows the database takes for their
-- values is a parameter. That it finds equal hashes is modelled for texts.
pub mod Hashes
pub mod Stored
pub mod Ingested
pub mod Again
pub mod Complete
use sentinel_tower.Prelude.{
  ℕ, zero, suc, ◌+◌, Bool, true, false, not, ◌&&◌, Option, none, some, List, [], ◌∷◌, map, filter,
  length, ltb, if◌then◌else◌,
}
use sentinel_tower.Json.{Json, arr, tup, obj, Items, nil, cons, Result, ok, raised, ◌>>=◌}
use sentinel_tower.Extrinsics.Parse.{Extrinsic}
use sentinel_tower.Extrinsics.Sync.{same_hash, contains_hash, bulk_create}
use sentinel_tower.Extrinsics.Sync.Stored.{hashes}
use sentinel_tower.Retention.{take}
use sentinel_tower.Storage.{Text}
use sentinel_tower.Dagster.Parse.{parse_artifact_record}
use sentinel_tower.Dagster.Reader.{Directory, read_partitioned_dir}
use sentinel_tower.Dagster.Reader.Lines.{drop}

-- The table of extrinsics, and the checkpoint of the directory, if there is one.
pub record Ingestion : Type 0 where
  pub rows : List Extrinsic
  pub checkpoint : Option ℕ

pub data IngestReport : Type 0 where
  failed : IngestReport
  ingested : (processed skipped : ℕ) → IngestReport

-- `parsed_records[extrinsic_hash] = parsed`: a key keeps its first place, and gets its last value.
unfoldable pub put_record : Extrinsic → List Extrinsic → List Extrinsic
unfolding same_hash
put_record e [] = e ∷ []
put_record e (d ∷ ds) =
    let rest = put_record e ds in
    if same_hash e.extrinsic_hash d.extrinsic_hash then e ∷ ds else d ∷ rest

-- Whether a value can be the key of a dict: a list or a dict is a TypeError.
abbrev mutual
  pub is_hashable : Json → Bool
  is_hashable (arr xs) = false
  is_hashable (obj fs) = false
  is_hashable (tup xs) = are_hashable xs
  is_hashable _ = true

  pub are_hashable : Items → Bool
  are_hashable nil = true
  are_hashable (cons x xs) = is_hashable x && are_hashable xs

-- The loop over the records: the dict of those that are parsed, and how many are skipped.
unfoldable pub parse_records : List Json → List Extrinsic → ℕ → Result (List Extrinsic × ℕ)
unfolding parse_artifact_record put_record
parse_records [] ds skipped = ok (ds, skipped)
parse_records (r ∷ rs) ds skipped = elim (parse_artifact_record r) [
  | raised ↦ raised
  | ok parsed ↦ elim parsed [
    | none ↦ parse_records rs ds (skipped + 1)
    | some e ↦ elim (is_hashable e.extrinsic_hash) [
      | false ↦ raised
      | true ↦ parse_records rs (put_record e ds) skipped
    ]
  ]
]

abbrev pub batch_size : ℕ
batch_size = 1000

abbrev pub is_existing : List Extrinsic → Extrinsic → Bool
is_existing rows d = contains_hash d.extrinsic_hash (hashes rows)

-- What follows the loop over the batches.
unfoldable pub after_batches :
    (processed skipped total_lines : ℕ)
    → Ingestion
    → Bool × List Extrinsic
    → IngestReport × Ingestion
after_batches processed skipped total p (true, rows) =
    (ingested processed skipped, record { rows = rows; checkpoint = some total })
after_batches processed skipped total p (false, rows) = (failed, record p { rows = rows })

-- `accepts` tells whether the database takes a row.
module _ (accepts : Extrinsic → Bool) where
  abbrev pub all_accepted : List Extrinsic → Bool
  all_accepted [] = true
  all_accepted (e ∷ es) = accepts e && all_accepted es

  -- The loop over the batches, each in a transaction of its own: whether all are created, and the rows.
  -- The fuel counts the batches.
  unfoldable pub create_batches :
      (fuel : ℕ) → List Extrinsic → List Extrinsic → Bool × List Extrinsic
  unfolding bulk_create take
  create_batches zero new rows = (true, rows)
  create_batches (suc fuel) new rows = elim (all_accepted (take batch_size new)) [
    | true ↦ create_batches fuel (drop batch_size new) (bulk_create (take batch_size new) rows)
    | false ↦ (false, rows)
  ]

  -- What follows the parsing. Where no record is valid the checkpoint stays.
  unfoldable pub store_parsed :
      List Extrinsic → (skipped total_lines : ℕ) → Ingestion → IngestReport × Ingestion
  unfolding create_batches after_batches
  store_parsed [] skipped total p = (ingested 0 skipped, p)
  store_parsed (d ∷ ds) skipped total p =
      let new = filter (λ e. not (is_existing p.rows e)) (d ∷ ds) in
      let existing = filter (is_existing p.rows) (d ∷ ds) in
      after_batches (length new) (skipped + length existing) total p
        (create_batches (length new) new p.rows)

  unfoldable pub after_parse :
      Result (List Extrinsic × ℕ) → (total_lines : ℕ) → Ingestion → IngestReport × Ingestion
  unfolding store_parsed
  after_parse raised total p = (failed, p)
  after_parse (ok (ds, skipped)) total p = store_parsed ds skipped total p

  -- What follows the read of the records.
  unfoldable pub ingest_records :
      List Json → (total_lines : ℕ) → Ingestion → IngestReport × Ingestion
  unfolding parse_records after_parse
  ingest_records [] total p = (ingested 0 0, record p { checkpoint = some total })
  ingest_records (r ∷ rs) total p = after_parse (parse_records (r ∷ rs) [] 0) total p

-- `get_or_create(..., defaults={"last_processed_line": 0})`
abbrev pub start_line_of : Option ℕ → ℕ
start_line_of none = 0
start_line_of (some n) = n

module _ (accepts : Extrinsic → Bool) (loads : Text → Result Json) (dir : Directory) where
  unfoldable pub ingest_from : (start_line : ℕ) → List Extrinsic → IngestReport × Ingestion
  unfolding read_partitioned_dir ingest_records
  ingest_from start rows =
      let (records, total) = read_partitioned_dir loads dir start in
      ingest_records accepts records total (record { rows = rows; checkpoint = some start })

  -- Where the data have shrunk, everything is read again.
  unfoldable pub ingest_extrinsics : Ingestion → IngestReport × Ingestion
  unfolding ingest_from read_partitioned_dir
  ingest_extrinsics p =
      let start = start_line_of p.checkpoint in
      let total = (read_partitioned_dir loads dir start).1 in
      if ltb total start then ingest_from 0 p.rows else ingest_from start p.rows
