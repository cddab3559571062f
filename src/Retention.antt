-- ===== src/Retention.antt =====
-- Batched deletion of old rows: app/src/apps/metagraph/retention.py and
-- app/src/apps/extrinsics/retention.py, over tables as lists of rows.
pub mod Batches
pub mod Bulk
pub mod Cascade
pub mod Prune
pub mod Run
use sentinel_tower.Prelude.{
  ℕ, zero, suc, ◌+◌, Bool, true, false, not, ◌&&◌, ◌||◌, Option, none, some, List, [], ◌∷◌, map,
  filter, length, if◌then◌else◌, leb, ◌==◌,
}
use sentinel_tower.Prelude.Int.{ℤ, pos, negsuc}

-- A row of one of the tables metagraph_weight, metagraph_bond, metagraph_collateral, extrinsics.
pub record Row : Type 0 where
  pub id : ℕ
  pub block : ℕ

pub record Snapshot : Type 0 where
  pub id : ℕ
  pub block_id : ℕ
  pub is_validator : Bool

pub record Metrics : Type 0 where
  pub snapshot_id : ℕ

-- What a loop gives: its final state, or that its fuel ran out.
pub data Loop (S : Type 0) : Type 0 where
  unfinished : Loop S
  done : S → Loop S

unfoldable pub is_in : ℕ → List ℕ → Bool
is_in n [] = false
is_in n (m ∷ ms) = n == m || is_in n ms

module _ {A : Type 0} where
  unfoldable pub take : ℕ → List A → List A
  take zero xs = []
  take (suc n) [] = []
  take (suc n) (x ∷ xs) = x ∷ take n xs

module _ {R : Type 0} (row_id : R → ℕ) (order : List R → List R) (expired : R → Bool) where
  -- `SELECT id ... WHERE ... ORDER BY ... LIMIT size`
  unfoldable pub batch : ℕ → List R → List ℕ
  unfolding take
  batch size rows = map row_id (take size (order (filter expired rows)))

  -- `id IN (...)`
  unfoldable pub in_batch : ℕ → List R → R → Bool
  unfolding is_in batch
  in_batch size rows r = is_in (row_id r) (batch size rows)

-- `while max_batches is None or batches < max_batches`, of a step that gives a count and stops the
-- loop by 0: the fuel is `max_batches` if the loop is capped.
module _ {S : Type 0} (step : S → ℕ × S) where
  unfoldable pub prune_loop : (capped : Bool) (fuel : ℕ) → S → Loop S
  prune_loop true zero s = done s
  prune_loop false zero s = unfinished
  prune_loop capped (suc fuel) s = elim (step s).0 [
    | zero ↦ done (step s).1
    | suc n ↦ prune_loop capped fuel (step s).1
  ]

-- A bulk table and the number of its rows that were deleted.
pub record Table : Type 0 where
  pub rows : List Row
  pub deleted : ℕ

unfoldable pub is_expired : ℕ → Row → Bool
is_expired cutoff r = leb r.block cutoff

unfoldable pub is_expired_snapshot : ℕ → Snapshot → Bool
is_expired_snapshot cutoff s = leb s.block_id cutoff && not s.is_validator

-- The snapshots, their metrics, and the numbers of deleted ones.
pub record Snapshots : Type 0 where
  pub snapshots : List Snapshot
  pub metrics : List Metrics
  pub deleted_snapshots : ℕ
  pub deleted_metrics : ℕ

-- `order_rows` and `order_snapshots` stand for the database's ORDER BY.
module _ (order_rows : List Row → List Row) (cutoff size : ℕ) where
  -- `_delete_simple_batch` and the extrinsics' `_delete_batch`, added to the count.
  unfoldable pub delete_simple_batch : Table → ℕ × Table
  unfolding in_batch is_expired
  delete_simple_batch t =
      let chosen = in_batch (λ r. r.id) order_rows (is_expired cutoff) size t.rows in
      let count = length (filter chosen t.rows) in
      (count, record { rows = filter (λ r. not (chosen r)) t.rows; deleted = t.deleted + count })

module _ (order_snapshots : List Snapshot → List Snapshot) (cutoff size : ℕ) where
  -- `_delete_snapshot_batch`, added to the counts: the metrics of a batch go with its snapshots.
  unfoldable pub delete_snapshot_batch : Snapshots → ℕ × Snapshots
  unfolding in_batch batch is_in is_expired_snapshot
  delete_snapshot_batch t =
      let p = is_expired_snapshot cutoff in
      let chosen = in_batch (λ s. s.id) order_snapshots p size t.snapshots in
      let chosen_metrics = λ (m : Metrics).
        is_in m.snapshot_id (batch (λ s. s.id) order_snapshots p size t.snapshots) in
      let count = length (filter chosen t.snapshots) in
      (
        count,
        record {
          snapshots = filter (λ s. not (chosen s)) t.snapshots;
          metrics = filter (λ m. not (chosen_metrics m)) t.metrics;
          deleted_snapshots = t.deleted_snapshots + count;
          deleted_metrics = t.deleted_metrics + length (filter chosen_metrics t.metrics);
        },
      )
