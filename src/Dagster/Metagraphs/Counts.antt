-- ===== src/Dagster/Metagraphs/Counts.antt =====
-- What a run of `ingest_metagraph` of app/src/project/dagster/jobs.py reports, and what it leaves.
use sentinel_tower.Prelude.{ℕ, ◌+◌, ◌≡◌, true, false, List, [], ◌∷◌, length}
use sentinel_tower.Json.{Json}
use sentinel_tower.Storage.{Text}
use sentinel_tower.Metagraph.Rows.{Metagraph}
use sentinel_tower.Metagraph.Sync.KeysValid.{IsValid}
use sentinel_tower.Dagster.Metagraphs.{
  MetagraphFile, Warehouse, has_text, Progress, MetagraphReport, failed, report,
}

-- No path has two checkpoints, as the unique constraint has it.
abbrev pub IsDistinct : List Text → Type 0
IsDistinct [] = Unit
IsDistinct (t ∷ ts) = (has_text t ts ≡ false) × IsDistinct ts

-- What a part of the loop does to the counters and the tables.
record Advances (n : ℕ) (p q : Progress) : Type 0 where
  counted : q.processed_count + q.error_count ≡ p.processed_count + p.error_count + n
  recorded :
      length q.warehouse.checkpoints + p.processed_count
      ≡ length p.warehouse.checkpoints + q.processed_count
  distinct : IsDistinct p.warehouse.checkpoints → IsDistinct q.warehouse.checkpoints
  kept :
      (t : Text)
      → has_text t p.warehouse.checkpoints ≡ true
      → has_text t q.warehouse.checkpoints ≡ true
  valid : IsValid p.warehouse.state → IsValid q.warehouse.state

-- What a run leaves, by its report.
abbrev pub IsMetagraphReport : List MetagraphFile → Warehouse → MetagraphReport × Warehouse → Type 0
IsMetagraphReport files w (failed, w') = w' ≡ w
IsMetagraphReport files w (report processed errors skipped stats, w') =
    (processed + errors + skipped ≡ length files)
    × (length w'.checkpoints ≡ length w.checkpoints + processed)
    × (IsDistinct w.checkpoints → IsDistinct w'.checkpoints)
    × ((t : Text) → has_text t w.checkpoints ≡ true → has_text t w'.checkpoints ≡ true)
    × (IsValid w.state → IsValid w'.state)
