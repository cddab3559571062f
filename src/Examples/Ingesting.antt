-- ===== src/Examples/Ingesting.antt =====
-- The theorems on the Dagster pipeline at two records, each in a file of its own, and a metagraph of one
-- neuron.
use sentinel_tower.Prelude.{
  Bool, true, inr, ℕ, ◌≡◌, ◌≢◌, refl, true, false, Option, none, some, List, [], ◌∷◌, ◌++◌, ◌==◌,
  if◌then◌else◌,
}
use sentinel_tower.Prelude.Int.{pos}
use sentinel_tower.Json.{
  Json, str, int, obj, field, end, Result, ok, raised, get, get_default, truthy, iterate,
}
use sentinel_tower.Extrinsics.Parse.{Extrinsic, parse_extrinsic_record}
use sentinel_tower.Metagraph.Rows.{Metagraph}
use sentinel_tower.Retention.{take}
use sentinel_tower.Storage.{Text}
use sentinel_tower.Dagster.Reader.{Directory}
use sentinel_tower.Dagster.Reader.Lines.{all_lines, dir_lines, records_of}
use sentinel_tower.Dagster.Parse.{Agrees, parse_artifact_record, parse_artifact_record-Agrees}
use sentinel_tower.Dagster.Extrinsics.{Ingestion, failed, ingest_extrinsics}
use sentinel_tower.Dagster.Extrinsics.Again.{
  AllStored, IsCurrent, IsCaughtUp, ingest_extrinsics-IsCaughtUp,
}
use sentinel_tower.Dagster.Extrinsics.Complete.{AllParse, AllTaken, ingest_extrinsics-IsComplete}
use sentinel_tower.Dagster.Decimal.{print_int}
use sentinel_tower.Dagster.Metagraphs.{MetagraphFile, DumpDto, Warehouse}
use sentinel_tower.Dagster.Sensor.{
  IsTicked, sensor_tick, skip_reason, sensor_tick-IsTicked, last_cursor,
}
use sentinel_tower.Examples.Metagraphs.{state, metagraph}

abbrev call : Json
call = obj (field "call_module" (str "System") (field "call_function" (str "remark") end))

-- An extrinsic with the fields that a record of a file has at least.
abbrev extrinsic : Json
extrinsic = obj (
    field "extrinsic_hash" (str "0x01")
      (field "block_number" (int (pos 7)) (field "call" call (field "status" (str "Success") end))))

-- "1" is the extrinsic above, "2" is one of which only the hash is known, all else is malformed.
abbrev loads : Text → Result Json
loads [] = raised
loads (c ∷ cs) =
    if c == 49
    then ok extrinsic
    else if c == 50
    then ok (obj (field "extrinsic_hash" (str "0x02") end))
    else raised

-- The file of a day, with "1" and a malformed line; then that of the next day, with "2".
abbrev one_day : Directory
one_day = some (record { name = "1.jsonl"; content = 49 ∷ 10 ∷ 48 ∷ 10 ∷ [] } ∷ [])

abbrev two_days : Directory
two_days = some (
    record { name = "2.jsonl"; content = 32 ∷ 50 ∷ 10 ∷ [] }
    ∷ record { name = "1.jsonl"; content = 49 ∷ 10 ∷ 48 ∷ 10 ∷ [] }
    ∷ [])

abbrev next_day : List Text
next_day = (32 ∷ 50 ∷ 10 ∷ []) ∷ []

two_days-lines : dir_lines two_days ≡ dir_lines one_day ++ next_day
unfolding dir_lines all_lines
two_days-lines = refl

parse_artifact_record-Agrees_example :
    Agrees (parse_extrinsic_record extrinsic) (parse_artifact_record extrinsic)
parse_artifact_record-Agrees_example = parse_artifact_record-Agrees extrinsic

-- The database takes every row.
abbrev every : Extrinsic → Bool
every e = true

abbrev nothing : Ingestion
nothing = record { rows = []; checkpoint = none }

nothing-IsCurrent : IsCurrent loads (dir_lines one_day) nothing
unfolding records_of take
nothing-IsCurrent s g = elim g [ ]

-- What a run leaves after the first day.
abbrev after_one_day : Ingestion
after_one_day = (ingest_extrinsics every loads one_day nothing).1

after_one_day-IsCurrent : IsCurrent loads (dir_lines two_days) after_one_day
after_one_day-IsCurrent =
    rw two_days-lines (
      (ingest_extrinsics-IsCaughtUp loads every one_day nothing nothing-IsCurrent).current next_day)

ingest_extrinsics-IsCaughtUp_example :
    IsCaughtUp loads
      (dir_lines two_days)
      after_one_day.rows
      (ingest_extrinsics every loads two_days after_one_day)
ingest_extrinsics-IsCaughtUp_example =
    ingest_extrinsics-IsCaughtUp loads every two_days after_one_day after_one_day-IsCurrent

two_days-AllParse : AllParse (records_of loads (dir_lines two_days))
unfolding records_of parse_artifact_record dir_lines all_lines get_default truthy get iterate
two_days-AllParse = (inr (_, _, refl, refl), (inr (_, _, refl, refl), tt))

two_days-AllTaken : AllTaken every (records_of loads (dir_lines two_days))
unfolding records_of dir_lines all_lines
two_days-AllTaken = ((λ e q. refl), ((λ e q. refl), tt))

ingest_extrinsics-IsComplete_example :
    ((ingest_extrinsics every loads two_days after_one_day).0 ≢ failed)
    × AllStored loads
        (dir_lines two_days)
        (ingest_extrinsics every loads two_days after_one_day).1.rows
ingest_extrinsics-IsComplete_example =
    ingest_extrinsics-IsComplete every loads two_days after_one_day after_one_day-IsCurrent
      two_days-AllParse two_days-AllTaken

-- Of the subnet 1, the file of block 719, and one that holds nothing that can be read.
abbrev files : List MetagraphFile
files =
    record { netuid = 1; stem = 55 ∷ 49 ∷ 57 ∷ []; content = some (49 ∷ 10 ∷ []) }
    ∷ record { netuid = 1; stem = 55 ∷ 50 ∷ 48 ∷ []; content = some (48 ∷ 10 ∷ []) }
    ∷ []

abbrev validate : Json → Result (Metagraph × Option DumpDto)
validate v = ok (metagraph, none)

abbrev warehouse : Warehouse
warehouse = record { state = state; checkpoints = [] }

-- The cursor "40".
abbrev cursor : Option Text
cursor = some (52 ∷ 48 ∷ [])

cursor-Stands : last_cursor cursor ≡ some (pos 40)
unfolding last_cursor
cursor-Stands = refl

abbrev prefix : Text
prefix = 120 ∷ 45 ∷ []

sensor_tick-IsTicked_example :
    IsTicked prefix 40 55 (sensor_tick prefix false 55 cursor)
    × (sensor_tick prefix true 55 cursor ≡ ok (skip_reason ∷ [], cursor))
    × ((other : ℕ)
        → prefix ++ print_int (pos 55) ≡ prefix ++ print_int (pos other)
        → pos 55 ≡ pos other)
sensor_tick-IsTicked_example = sensor_tick-IsTicked prefix 40 55 cursor cursor-Stands
