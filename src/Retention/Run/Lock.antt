-- ===== src/Retention/Run/Lock.antt =====
-- The advisory lock over a run.
use sentinel_tower.Prelude.{
  ℕ, ◌≡◌, refl, Bool, true, false, Option, List, inl, inr, Bool-cases, Option-cases,
}
use sentinel_tower.Prelude.Int.{ℤ}
use sentinel_tower.Retention.{Row, Snapshot}
use sentinel_tower.Retention.Prune.{at_least_one, or_setting}
use sentinel_tower.Retention.Run.{Report, World, release, with_lock, run}

-- A run where the unlock succeeds, and the same run where it fails.
pub record Unlocks (w : World) (done failed : Report × World) : Type 0 where
  pub released : done.1.lock ≡ w.lock
  pub same_report : failed.0 ≡ done.0
  pub same_tables : (failed.1.tables ≡ done.1.tables) × (failed.1.extrinsics ≡ done.1.extrinsics)
  pub not_taken : w.lock ≡ true → failed.1.lock ≡ true

module _ (order : List Row → List Row) (order_snapshots : List Snapshot → List Snapshot)
    (days_setting bulk_setting batch_setting : ℤ) (fuel now : ℕ) (batch_size : Option ℤ)
    (dry_run : Bool) (max_batches : Option ℕ) where
  abbrev runs : Bool → Option ℤ → Option ℤ → World → Report × World
  runs =
      run order order_snapshots days_setting bulk_setting batch_setting fuel now batch_size dry_run
        max_batches

  abbrev locked : Bool → ℕ → ℕ → World → Report × World
  locked =
      with_lock order order_snapshots days_setting bulk_setting batch_setting fuel now batch_size
        dry_run max_batches

  with_lock-Unlocks :
      (days bulk_days : ℕ) (w : World)
      → Unlocks w (locked true days bulk_days w) (locked false days bulk_days w)
  unfolding with_lock release
  with_lock-Unlocks days bulk_days w = elim (Bool-cases w.lock) [
    | inl e ↦
        rw (e, with_lock)
          (record {
            released = e;
            same_report = refl;
            same_tables = (refl, refl);
            not_taken = λ t. e;
          })
    | inr e ↦
        rw (e, with_lock)
          (record {
            released = refl;
            same_report = refl;
            same_tables = (refl, refl);
            not_taken = λ t. cc;
          })
  ]

  nothing_done : (r : Report) (w : World) → Unlocks w (r, w) (r, w)
  nothing_done r w = record {
    released = refl;
    same_report = refl;
    same_tables = (refl, refl);
    not_taken = λ t. t;
  }

  -- A run leaves the lock as it found it, if the unlock succeeds: what it took it releases on every
  -- path, an exception or a loop out of fuel among them. Where the unlock fails, the report and the
  -- tables are the same as where it succeeds. In both cases a lock of another session stays.
  pub run-Unlocks :
      (days bulk_days : Option ℤ) (w : World)
      → Unlocks w (runs true days bulk_days w) (runs false days bulk_days w)
  unfolding run
  run-Unlocks days bulk_days w = elim (Option-cases (at_least_one (or_setting days days_setting))) [
    | inl e ↦ rw (e, run) (nothing_done _ w)
    | inr (d, e) ↦ elim (Option-cases (at_least_one (or_setting bulk_days bulk_setting))) [
      | inl f ↦ rw (e, f, run) (nothing_done _ w)
      | inr (b, f) ↦ rw (e, f, run) (with_lock-Unlocks d b w)
    ]
  ]
