-- ===== src/Metagraph/Apy/Backfill.antt =====
-- The command app/src/apps/metagraph/management/commands/backfill_validator_apy_epochs.py, which repeats
-- the ingest over a range of blocks in chunks, each in its own transaction.
use sentinel_tower.Prelude.{
  ℕ, zero, suc, ◌+◌, ◌-◌, Bool, true, false, not, ◌||◌, Option, none, some, List, [], ◌∷◌, leb,
  if◌then◌else◌,
}
use sentinel_tower.Prelude.Int.{ℤ, pos, negsuc}
use sentinel_tower.Json.{Result, ok, raised}
use sentinel_tower.Metagraph.Rows.{Block, State}
use sentinel_tower.Metagraph.Apy.{ValidatorApyEpoch, is_set, Arithmetic, ingest_block_range}
use sentinel_tower.Metagraph.Apy.Tick.{World, max_id, greatest}

abbrev pub is_since : ℕ → Option ℕ → Bool
is_since since none = false
is_since since (some t) = leb since t

abbrev pub widen : ℕ → Option (ℕ × ℕ) → ℕ × ℕ
widen n none = (n, n)
widen n (some (low, high)) = (if leb n low then n else low, if leb high n then n else high)

-- `SELECT MIN(number), MAX(number) ... WHERE timestamp >= ...`
unfoldable pub derived_range : ℕ → List Block → Option (ℕ × ℕ)
derived_range since [] = none
derived_range since (b ∷ bs) =
    let rest = derived_range since bs in
    if is_since since b.timestamp then some (widen b.number rest) else rest

-- The chunks in turn: whether all succeed, how many facts are deleted and written, and the facts, where
-- a chunk that fails leaves those of the chunks before it. The fuel counts the chunks.
unfoldable pub ingest_chunks :
    Arithmetic
    → State
    → (block_end chunk_size fuel chunk_start deleted upserted : ℕ) → List ValidatorApyEpoch
    → Result (ℕ × ℕ) × List ValidatorApyEpoch
unfolding ingest_block_range
ingest_chunks ar s e size zero start d u facts = (ok (d, u), facts)
ingest_chunks ar s e size (suc fuel) start d u facts =
    let chunk_end = if leb (start + size - 1) e then start + size - 1 else e in
    if leb start e
    then (elim (ingest_block_range ar start chunk_end s facts) [
      | raised ↦ (raised, facts)
      | ok (counts, facts') ↦
          ingest_chunks ar s e size fuel (start + size) (d + counts.0) (u + counts.1) facts'
    ])
    else (ok (d, u), facts)

pub data RepairReport : Type 0 where
  failed : RepairReport
  nothing : RepairReport
  repaired : (upserted reconciled : ℕ) → RepairReport
  backfilled : (upserted reconciled : ℕ) → RepairReport

abbrev pub or_bound : Option ℕ → ℕ → ℕ
or_bound none d = d
or_bound (some n) d = n

-- The endpoints that are given, and where one is missing the derived ones.
unfoldable pub bounds : Option ℕ → Option ℕ → Option (ℕ × ℕ) → Option (ℕ × ℕ)
bounds (some a) (some b) derived = some (a, b)
bounds a b none = none
bounds a b (some (low, high)) = some (or_bound a low, or_bound b high)

-- The update of the watermark, which wants its row.
unfoldable pub advance : ℕ → ℕ → ℕ → World → Option ℕ → RepairReport × World
advance d u current_max w none = (failed, w)
advance d u current_max w (some watermark) =
    (backfilled u d, record w { last_snapshot_id = some (greatest watermark current_max) })

unfoldable pub finish :
    Bool → ℕ → World → Result (ℕ × ℕ) × List ValidatorApyEpoch → RepairReport × World
unfolding advance
finish explicit current_max w (raised, facts) = (failed, record w { facts = facts })
finish true current_max w (ok (d, u), facts) = (repaired u d, record w { facts = facts })
finish false current_max w (ok (d, u), facts) =
    advance d u current_max (record w { facts = facts }) w.last_snapshot_id

-- The chunks where the step is below 0, by its size: `range` goes down from the start to the block after
-- the end, and each chunk ends before it starts. The fuel counts the chunks.
unfoldable pub ingest_chunks_down :
    Arithmetic
    → State
    → (block_end step fuel chunk_start deleted upserted : ℕ) → List ValidatorApyEpoch
    → Result (ℕ × ℕ) × List ValidatorApyEpoch
unfolding ingest_block_range
ingest_chunks_down ar s e step zero start d u facts = (ok (d, u), facts)
ingest_chunks_down ar s e step (suc fuel) start d u facts =
    let below = start - step - 1 in
    let chunk_end = if leb below e then below else e in
    if leb start (suc e)
    then (ok (d, u), facts)
    else (elim (ingest_block_range ar start chunk_end s facts) [
      | raised ↦ (raised, facts)
      | ok (counts, facts') ↦
          ingest_chunks_down ar s e step fuel (start - step) (d + counts.0) (u + counts.1) facts'
    ])

-- `range` refuses a step of 0, and is empty where a step below 0 starts at or before the end.
unfoldable pub run_range :
    Arithmetic → (chunk_size : ℤ) → Bool → World → Option (ℕ × ℕ) → RepairReport × World
unfolding ingest_chunks ingest_chunks_down finish max_id
run_range ar size explicit w none = (nothing, w)
run_range ar (pos zero) explicit w (some (a, b)) = (failed, w)
run_range ar (pos (suc n)) explicit w (some (a, b)) =
    finish explicit (max_id w.state.snapshots.rows) w
      (ingest_chunks ar w.state b (suc n) (suc b - a) a 0 0 w.facts)
run_range ar (negsuc n) explicit w (some (a, b)) =
    finish explicit (max_id w.state.snapshots.rows) w
      (ingest_chunks_down ar w.state b (suc n) a a 0 0 w.facts)

-- `_run`; `since` is the moment `--days` ago.
unfoldable pub run_repair :
    Arithmetic
    → (since : ℕ) → (block_start block_end : Option ℕ) → (chunk_size : ℤ) → World
    → RepairReport × World
unfolding derived_range bounds run_range
run_repair ar since a b size w =
    run_range ar size (is_set a || is_set b) w (bounds a b (derived_range since w.state.blocks))

-- `handle`, with the lock: it is not ours if another session has it, and else released in the end, unless
-- the unlock fails, which is only logged.
unfoldable pub handle_repair :
    Arithmetic
    → (since : ℕ) → (block_start block_end : Option ℕ) → (chunk_size : ℤ) → (locked unlocks : Bool)
    → World
    → RepairReport × World × Bool
unfolding run_repair
handle_repair ar since a b size locked unlocks w =
    if locked
    then (failed, w, true)
    else (let (r, w') = run_repair ar since a b size w in (r, w', not unlocks))
