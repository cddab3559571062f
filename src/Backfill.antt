-- ===== src/Backfill.antt =====
-- app/src/apps/extrinsics/management/commands/backfill_extrinsics.py.
pub mod Missing
pub mod Counts
use sentinel_tower.Prelude.{
  ℕ, zero, suc, ◌+◌, ◌≡◌, Bool, true, false, ◌&&◌, Option, none, some, List, [], ◌∷◌, length,
  if◌then◌else◌,
}
use sentinel_tower.Prelude.Int.{ℤ, pos, negsuc, pos_part, ◌+ℤ◌, ◌-ℤ◌, leb_ℤ, ltb_ℤ}
use sentinel_tower.Json.{int, Result, ok, raised}
use sentinel_tower.Epoch.{elem}
use sentinel_tower.Extrinsics.Parse.{Extrinsic}
use sentinel_tower.Extrinsics.Sync.{
  Db, Setup, Block, Outcome, stored, unavailable, failed, store_block_extrinsics,
}

-- The block numbers of the rows that lie in [low, high].
unfoldable pub existing_blocks : ℤ → ℤ → List Extrinsic → List ℤ
existing_blocks low high [] = []
existing_blocks low high (r ∷ rs) = elim r.block_number [
  | int b ↦
      if leb_ℤ low b && leb_ℤ b high
      then b ∷ existing_blocks low high rs
      else existing_blocks low high rs
  | _ ↦ existing_blocks low high rs
]

-- `sorted(expected - existing)`, of the `n` numbers from `first` on.
unfoldable pub missing_from : ℕ → ℤ → List ℤ → List ℤ
unfolding elem
missing_from zero first existing = []
missing_from (suc n) first existing =
    let rest = missing_from n (first +ℤ pos 1) existing in
    if elem first existing then rest else first ∷ rest

unfoldable pub find_missing_blocks : ℤ → ℤ → List Extrinsic → List ℤ
unfolding existing_blocks missing_from
find_missing_blocks lookback head rows =
    let min_block = head -ℤ lookback in
    missing_from (pos_part (head +ℤ pos 1 -ℤ min_block)) min_block
      (existing_blocks min_block head rows)

pub data Provider : Type 0 where
  live : Provider
  archive : Provider

abbrev pub live_provider_window : ℤ
live_provider_window = pos 300

unfoldable pub pick_provider : ℤ → ℤ → Provider
pick_provider block head = if ltb_ℤ (head -ℤ block) live_provider_window then live else archive

-- Adds one to the count of the stored blocks or of the errors.
unfoldable pub tally : Outcome → (ℕ × ℕ) × Db → (ℕ × ℕ) × Db
tally (stored artifacts count) ((synced, errors), db) = ((suc synced, errors), db)
tally unavailable ((synced, errors), db) = ((synced, suc errors), db)
tally failed ((synced, errors), db) = ((synced, suc errors), db)

-- What the command reports.
pub data Report : Type 0 where
  head_failed : Report
  nothing_missing : Report
  finished : (synced errors total : ℕ) → Report

abbrev report_of : ℕ → (ℕ × ℕ) × Db → Report × Db
report_of total ((synced, errors), db) = (finished synced errors total, db)

-- `ingest` stands for the SDK's `ingest_block` of each provider; no block has a negative number.
-- `should_stop i` is the answer before the i-th block.
module _ (setup : Setup) (ingest : Provider → ℕ → Result Block) (should_stop : ℕ → Bool) where
  unfoldable pub store_at : Provider → ℤ → Db → Outcome × Db
  store_at provider (pos n) db = store_block_extrinsics setup (ingest provider) n db
  store_at provider (negsuc n) db = (failed, db)

  -- From the i-th block on: the numbers of stored blocks and of errors.
  unfoldable pub backfill_blocks : ℕ → List ℤ → ℤ → Db → (ℕ × ℕ) × Db
  unfolding pick_provider store_at tally
  backfill_blocks i [] head db = ((0, 0), db)
  backfill_blocks i (b ∷ blocks) head db =
      let (outcome, db') = store_at (pick_provider b head) b db in
      let rest = tally outcome (backfill_blocks (suc i) blocks head db') in
      if should_stop i then ((0, 0), db) else rest

  abbrev backfill_missing : List ℤ → ℤ → Db → Report × Db
  backfill_missing [] head db = (nothing_missing, db)
  backfill_missing (b ∷ blocks) head db =
      report_of (length (b ∷ blocks)) (backfill_blocks 0 (b ∷ blocks) head db)

  -- `handle`, of the option `--block` and the lookback.
  unfoldable pub backfill : Option ℤ → ℤ → Result ℤ → Db → Report × Db
  unfolding backfill_blocks find_missing_blocks
  backfill block lookback raised db = (head_failed, db)
  backfill (some b) lookback (ok head) db = report_of 1 (backfill_blocks 0 (b ∷ []) head db)
  backfill none lookback (ok head) db =
      backfill_missing (find_missing_blocks lookback head db.rows) head db
