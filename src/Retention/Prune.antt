-- ===== src/Retention/Prune.antt =====
-- The two `prune_expired` functions: app/src/apps/metagraph/retention.py and
-- app/src/apps/extrinsics/retention.py.
pub mod Exact
use sentinel_tower.Prelude.{
  ℕ, zero, suc, ◌+◌, Bool, true, false, not, ◌&&◌, Option, none, some, List, [], ◌∷◌, filter,
  length, if◌then◌else◌, ◌==◌,
}
use sentinel_tower.Prelude.Int.{ℤ, pos, negsuc}
use sentinel_tower.Retention.{
  Row, Snapshot, Metrics, Loop, done, unfinished, Table, Snapshots, is_expired, is_expired_snapshot,
  delete_simple_batch, delete_snapshot_batch, prune_loop,
}

-- `ValueError`, a loop whose fuel ran out, or a result.
pub data Pruned (A : Type 0) : Type 0 where
  invalid : Pruned A
  endless : Pruned A
  pruned : A → Pruned A

pub record Tables : Type 0 where
  pub snapshots : List Snapshot
  pub metrics : List Metrics
  pub weight : List Row
  pub bond : List Row
  pub collateral : List Row

-- The dict that the metagraph's `prune_expired` returns.
pub record Deleted : Type 0 where
  pub neuron_snapshot : ℕ
  pub mechanism_metrics : ℕ
  pub weight : ℕ
  pub bond : ℕ
  pub collateral : ℕ

-- The batch size if it is at least 1.
unfoldable pub at_least_one : ℤ → Option ℕ
at_least_one (pos zero) = none
at_least_one (pos (suc n)) = some (suc n)
at_least_one (negsuc n) = none

unfoldable pub or_setting : Option ℤ → ℤ → ℤ
or_setting none setting = setting
or_setting (some n) setting = n

-- `max_batches`, or the fuel of an uncapped loop.
unfoldable pub run_loop : {S : Type 0} → (S → ℕ × S) → Option ℕ → ℕ → S → Loop S
unfolding prune_loop
run_loop step none fuel s = prune_loop step false fuel s
run_loop step (some max_batches) fuel s = prune_loop step true max_batches s

unfoldable pub after_loop : {S A : Type 0} → Loop S → (S → Pruned A) → Pruned A
after_loop unfinished f = endless
after_loop (done s) f = f s

-- The pairs of metrics and an expired snapshot that they belong to.
unfoldable pub count_join : ℕ → List Snapshot → List Metrics → ℕ
unfolding is_expired_snapshot
count_join cutoff snapshots [] = 0
count_join cutoff snapshots (m ∷ ms) =
    length (filter (λ s. s.id == m.snapshot_id && is_expired_snapshot cutoff s) snapshots)
    + count_join cutoff snapshots ms

-- `SELECT count(*) ... WHERE ... <= cutoff`
unfoldable pub count : ℕ → List Row → ℕ
unfolding is_expired
count cutoff rows = length (filter (is_expired cutoff) rows)

abbrev pub or_zero : Option ℕ → (ℕ → ℕ) → ℕ
or_zero none f = 0
or_zero (some cutoff) f = f cutoff

unfoldable pub dry_counts : Option ℕ → Option ℕ → Tables → Deleted
unfolding count count_join is_expired_snapshot
dry_counts snapshot_cutoff bulk_cutoff t = record {
  neuron_snapshot =
      or_zero snapshot_cutoff λ c. length (filter (is_expired_snapshot c) t.snapshots);
  mechanism_metrics = or_zero snapshot_cutoff λ c. count_join c t.snapshots t.metrics;
  weight = or_zero bulk_cutoff λ c. count c t.weight;
  bond = or_zero bulk_cutoff λ c. count c t.bond;
  collateral = or_zero bulk_cutoff λ c. count c t.collateral;
}

module _ (order : List Row → List Row) (order_snapshots : List Snapshot → List Snapshot)
    (setting : ℤ) (fuel : ℕ) where
  -- The loop over one bulk table, from a count of 0.
  unfoldable pub prune_table : ℕ → ℕ → Option ℕ → List Row → Loop Table
  unfolding run_loop
  prune_table cutoff size max_batches rows =
      run_loop (delete_simple_batch order cutoff size) max_batches fuel
        (record { rows = rows; deleted = 0 })

  unfoldable pub prune_snapshots :
      Option ℕ → ℕ → Option ℕ → List Snapshot → List Metrics → Loop Snapshots
  unfolding run_loop
  prune_snapshots none size max_batches snapshots metrics = done (record {
    snapshots = snapshots;
    metrics = metrics;
    deleted_snapshots = 0;
    deleted_metrics = 0;
  })
  prune_snapshots (some cutoff) size max_batches snapshots metrics =
      run_loop (delete_snapshot_batch order_snapshots cutoff size) max_batches fuel (record {
        snapshots = snapshots;
        metrics = metrics;
        deleted_snapshots = 0;
        deleted_metrics = 0;
      })

  unfoldable pub prune_bulk : Option ℕ → ℕ → Option ℕ → List Row → Loop Table
  unfolding prune_table
  prune_bulk none size max_batches rows = done (record { rows = rows; deleted = 0 })
  prune_bulk (some cutoff) size max_batches rows = prune_table cutoff size max_batches rows

  unfoldable pub prune_tables :
      Option ℕ → Option ℕ → ℕ → Option ℕ → Tables → Pruned (Deleted × Tables)
  unfolding prune_snapshots prune_bulk after_loop
  prune_tables snapshot_cutoff bulk_cutoff size max_batches t =
      after_loop (prune_snapshots snapshot_cutoff size max_batches t.snapshots t.metrics) λ s.
        after_loop (prune_bulk bulk_cutoff size max_batches t.weight) λ weight.
          after_loop (prune_bulk bulk_cutoff size max_batches t.bond) λ bond.
            after_loop (prune_bulk bulk_cutoff size max_batches t.collateral) λ collateral. pruned (
              record {
                neuron_snapshot = s.deleted_snapshots;
                mechanism_metrics = s.deleted_metrics;
                weight = weight.deleted;
                bond = bond.deleted;
                collateral = collateral.deleted;
              },
              record {
                snapshots = s.snapshots;
                metrics = s.metrics;
                weight = weight.rows;
                bond = bond.rows;
                collateral = collateral.rows;
              },
            )

  unfoldable pub prune_metagraph :
      Option ℕ → Option ℕ → Option ℤ → Bool → Option ℕ → Tables → Pruned (Deleted × Tables)
  unfolding at_least_one or_setting dry_counts prune_tables
  prune_metagraph snapshot_cutoff bulk_cutoff batch_size dry_run max_batches t =
      elim (at_least_one (or_setting batch_size setting)) [
        | none ↦ invalid
        | some size ↦ elim dry_run [
          | true ↦ pruned (dry_counts snapshot_cutoff bulk_cutoff t, t)
          | false ↦ prune_tables snapshot_cutoff bulk_cutoff size max_batches t
        ]
      ]

  -- The extrinsics' `prune_expired`.
  unfoldable pub prune_extrinsics :
      ℕ → Option ℤ → Bool → Option ℕ → List Row → Pruned (ℕ × List Row)
  unfolding at_least_one or_setting count prune_table after_loop
  prune_extrinsics cutoff batch_size dry_run max_batches rows =
      elim (at_least_one (or_setting batch_size setting)) [
        | none ↦ invalid
        | some size ↦ elim dry_run [
          | true ↦ pruned (count cutoff rows, rows)
          | false ↦
              after_loop (prune_table cutoff size max_batches rows) λ t. pruned (t.deleted, t.rows)
        ]
      ]
