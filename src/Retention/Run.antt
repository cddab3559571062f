-- ===== src/Retention/Run.antt =====
-- The orchestrator of app/src/project/core/retention.py: the cutoffs, the advisory lock, and the calls
-- of the two `prune_expired`.
pub mod Lock
pub mod Cutoff
use sentinel_tower.Prelude.{
  ℕ, zero, suc, ◌+◌, ◌*◌, ◌≤◌, ◌<◌, ◌≡◌, refl, subst, ap, ◌∙◌, sym, Bool, true, false, Option, none,
  some, List, [], ◌∷◌, In, if◌then◌else◌, ltb, leb, arith, ◌⊎◌, inl, inr, Bool-cases, Option-cases,
}
use sentinel_tower.Prelude.Int.{ℤ}
use sentinel_tower.Retention.{Row, Snapshot}
use sentinel_tower.Retention.Prune.{
  Pruned, invalid, endless, pruned, Tables, Deleted, at_least_one, or_setting, prune_metagraph,
  prune_extrinsics,
}

-- A row of the table of blocks; the timestamps are in seconds.
pub record Block : Type 0 where
  pub number : ℕ
  pub timestamp : Option ℕ

-- The database: `lock` tells whether a session holds the advisory lock.
pub record World : Type 0 where
  pub blocks : List Block
  pub tables : Tables
  pub extrinsics : List Row
  pub lock : Bool

pub data Report : Type 0 where
  raised : Report
  unfinished : Report
  skipped : Report
  report : (cutoff_block bulk_cutoff_block : Option ℕ) → Option (Deleted × ℕ) → Report

-- `timestamp__isnull=False, timestamp__lt=now - timedelta(days=days)`, with the days on the other side.
unfoldable pub is_before : ℕ → ℕ → Block → Bool
is_before now days b = elim b.timestamp [ none ↦ false | some t ↦ ltb (t + days * 86400) now ]

unfoldable pub newer : ℕ → Option ℕ → Option ℕ
newer n none = some n
newer n (some m) = some (if leb m n then n else m)

-- `order_by("-number").first()` of the blocks that are old enough.
unfoldable pub compute_cutoff_block : ℕ → ℕ → List Block → Option ℕ
unfolding is_before newer
compute_cutoff_block now days [] = none
compute_cutoff_block now days (b ∷ bs) =
    let rest = compute_cutoff_block now days bs in
    if is_before now days b then newer b.number rest else rest

-- What the two prunings gave.
unfoldable pub report_of :
    Option ℕ → Option ℕ → World → Deleted × Tables → Pruned (ℕ × List Row) → Report × World
report_of cutoff bulk_cutoff w (d, t) invalid = (raised, record w { tables = t })
report_of cutoff bulk_cutoff w (d, t) endless = (unfinished, record w { tables = t })
report_of cutoff bulk_cutoff w (d, t) (pruned (n, rows)) =
    (report cutoff bulk_cutoff (some (d, n)), record w { tables = t; extrinsics = rows })

-- `finally`: the unlock is tried on every path. Where it fails, this is only logged.
unfoldable pub release : (unlocks : Bool) → Report × World → Report × World
release true (r, w) = (r, record w { lock = false })
release false (r, w) = (r, w)

module _ (order : List Row → List Row) (order_snapshots : List Snapshot → List Snapshot)
    (days_setting bulk_setting batch_setting : ℤ) (fuel now : ℕ) (batch_size : Option ℤ)
    (dry_run : Bool) (max_batches : Option ℕ) where
  unfoldable pub after_metagraph :
      Option ℕ → Option ℕ → World → Pruned (Deleted × Tables) → Report × World
  unfolding report_of
  after_metagraph cutoff bulk_cutoff w invalid = (raised, w)
  after_metagraph cutoff bulk_cutoff w endless = (unfinished, w)
  after_metagraph cutoff none w (pruned p) = report_of cutoff none w p (pruned (0, w.extrinsics))
  after_metagraph cutoff (some c) w (pruned p) = report_of cutoff (some c) w p (
      prune_extrinsics order order_snapshots batch_setting fuel c batch_size dry_run max_batches
        w.extrinsics)

  -- The body of the `try`, with the lock held.
  unfoldable pub prune_both : Option ℕ → Option ℕ → World → Report × World
  unfolding after_metagraph
  prune_both none none w = (report none none none, w)
  prune_both cutoff bulk_cutoff w = after_metagraph cutoff bulk_cutoff w (
      prune_metagraph order order_snapshots batch_setting fuel cutoff bulk_cutoff batch_size dry_run
        max_batches w.tables)

  -- `unlocks` tells whether the statement that releases the lock succeeds.
  unfoldable pub with_lock : (unlocks : Bool) → ℕ → ℕ → World → Report × World
  unfolding prune_both release compute_cutoff_block
  with_lock unlocks days bulk_days w = elim w.lock [
    | true ↦ (skipped, w)
    | false ↦
        let held = record w { lock = true } in
        release unlocks (
          prune_both (compute_cutoff_block now days w.blocks)
            (compute_cutoff_block now bulk_days w.blocks) held)
  ]

  unfoldable pub run : (unlocks : Bool) → Option ℤ → Option ℤ → World → Report × World
  unfolding with_lock at_least_one or_setting
  run unlocks days bulk_days w = elim (at_least_one (or_setting days days_setting)) [
    | none ↦ (raised, w)
    | some d ↦ elim (at_least_one (or_setting bulk_days bulk_setting)) [
      | none ↦ (raised, w)
      | some b ↦ with_lock unlocks d b w
    ]
  ]
