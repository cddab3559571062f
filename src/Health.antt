-- ===== src/Health.antt =====
-- The check for missing snapshots: `_compute_missing_snapshot_blocks` and
-- `update_snapshot_health_metrics` of app/src/apps/metagraph/tasks.py, and `is_dumpable_block` and
-- `netuids_to_sync` of app/src/apps/metagraph/services/metagraph_service.py.
pub mod Missing
use Prim.Native.String.{String}
use text.Mathlib.Text.{◌==◌ as str_eq}
use sentinel_tower.Prelude.{
  ℕ, zero, suc, ◌*◌, ◌/◌, Bool, true, false, not, ◌&&◌, Option, none, some, List, [], ◌∷◌, filter,
  length, leb, ltb, ◌==◌, if◌then◌else◌,
}
use sentinel_tower.Prelude.Int.{ℤ, pos, ◌-ℤ◌, leb_ℤ}
use sentinel_tower.Epoch.{
  elem, get_epoch_containing_block, get_dumpable_blocks, get_dumpable_blocks_in_range,
}
use sentinel_tower.Retention.Run.{Block, newer}

unfoldable pub is_dumpable_block : ℤ → ℕ → Bool
is_dumpable_block block netuid =
    elem block (get_dumpable_blocks (get_epoch_containing_block block netuid))

-- `range(first, first + n)`
unfoldable pub count_up : ℕ → ℕ → List ℕ
count_up first zero = []
count_up first (suc n) = first ∷ count_up (suc first) n

-- The setting if it is not empty, else 1 to 128.
unfoldable pub netuids_to_sync : List ℕ → List ℕ
unfolding count_up
netuids_to_sync [] = count_up 1 128
netuids_to_sync (n ∷ ns) = n ∷ ns

-- A snapshot, by its block and the subnet of its neuron.
pub record Snapshot : Type 0 where
  pub block : ℕ
  pub netuid : ℕ

pub record Window : Type 0 where
  pub name : String
  pub block_delta : ℕ

pub record Metric : Type 0 where
  pub netuid : ℕ
  pub window : String
  pub missing_blocks : ℕ

-- The windows of 7 and 12 days, for a number of seconds per block.
abbrev pub snapshot_health_windows : ℕ → List Window
snapshot_health_windows seconds_per_block =
    record { name = "7d"; block_delta = (7 * 24 * 3600) / seconds_per_block }
    ∷ record { name = "12d"; block_delta = (12 * 24 * 3600) / seconds_per_block }
    ∷ []

-- The greatest number of a block with a timestamp.
unfoldable pub latest_block : List Block → Option ℕ
unfolding newer
latest_block [] = none
latest_block (b ∷ bs) =
    let rest = latest_block bs in elim b.timestamp [ none ↦ rest | some t ↦ newer b.number rest ]

-- The blocks of the subnet's snapshots that lie in [low, high].
unfoldable pub covered_blocks : ℤ → ℤ → ℕ → List Snapshot → List ℤ
covered_blocks low high netuid [] = []
covered_blocks low high netuid (s ∷ ss) =
    let rest = covered_blocks low high netuid ss in
    if (s.netuid == netuid) && leb_ℤ low (pos s.block) && leb_ℤ (pos s.block) high
    then pos s.block ∷ rest
    else rest

-- `sorted(..., key=..., reverse=True)`, which keeps the order of equal sizes.
unfoldable pub insert_window : Window → List Window → List Window
insert_window w [] = w ∷ []
insert_window w (v ∷ vs) =
    if leb v.block_delta w.block_delta then w ∷ v ∷ vs else v ∷ insert_window w vs

unfoldable pub by_size : List Window → List Window
unfolding insert_window
by_size [] = []
by_size (w ∷ ws) = insert_window w (by_size ws)

-- `{block for block in widest_dumpable if block >= end_block - block_delta}`
unfoldable pub narrowed : ℤ → ℕ → List ℤ → List ℤ
narrowed end_block delta dumpable = filter (λ b. leb_ℤ (end_block -ℤ pos delta) b) dumpable

-- `dumpable - covered`
unfoldable pub uncovered : List ℤ → List ℤ → List ℤ
unfolding elem
uncovered dumpable covered = filter (λ b. not (elem b covered)) dumpable

-- `results[(netuid, window_name)] = missing`
unfoldable pub put_metric : Metric → List Metric → List Metric
put_metric m [] = m ∷ []
put_metric m (n ∷ ns) =
    if (n.netuid == m.netuid) && str_eq n.window m.window then m ∷ ns else n ∷ put_metric m ns

module _ (end_block : ℤ) (netuid : ℕ) (dumpable covered : List ℤ) where
  unfoldable pub count_windows : List Window → List Metric → List Metric
  unfolding narrowed uncovered put_metric
  count_windows [] results = results
  count_windows (w ∷ ws) results = elim (narrowed end_block w.block_delta dumpable) [
    | [] ↦ count_windows ws results
    | b ∷ bs ↦ count_windows ws (
        put_metric
          (record {
            netuid = netuid;
            window = w.name;
            missing_blocks = length (uncovered (b ∷ bs) covered);
          })
          results)
  ]

module _ (end_block : ℤ) (widest : ℕ) (windows : List Window) (snapshots : List Snapshot) where
  -- The loop over the subnets; `none` would be a loop that does not end.
  unfoldable pub count_subnets : List ℕ → List Metric → Option (List Metric)
  unfolding count_windows covered_blocks
  count_subnets [] results = some results
  count_subnets (n ∷ ns) results =
      elim (get_dumpable_blocks_in_range (end_block -ℤ pos widest) end_block n) [
        | none ↦ none
        | some dumpable ↦ count_subnets ns (
            count_windows end_block n dumpable
              (covered_blocks (end_block -ℤ pos widest) end_block n snapshots) windows results)
      ]

-- `METAGRAPH_NETUIDS`, or all subnets.
unfoldable pub or_subnets : List ℕ → List ℕ → List ℕ
or_subnets [] subnets = subnets
or_subnets (n ∷ ns) subnets = n ∷ ns

-- Of the windows, the largest first. The source always has windows.
unfoldable pub count_all : Option ℕ → List Window → List ℕ → List Snapshot → Option (List Metric)
unfolding count_subnets
count_all none windows netuids snapshots = some []
count_all (some end_block) [] netuids snapshots = some []
count_all (some end_block) (w ∷ ws) netuids snapshots =
    count_subnets (pos end_block) w.block_delta (w ∷ ws) snapshots netuids []

unfoldable pub compute_missing_snapshot_blocks :
    List Window → List ℕ → List ℕ → List Block → List Snapshot → Option (List Metric)
unfolding latest_block by_size or_subnets count_all
compute_missing_snapshot_blocks windows setting subnets blocks snapshots =
    count_all (latest_block blocks) (by_size windows) (or_subnets setting subnets) snapshots

-- The persisted metrics after one transaction, which deletes the old ones and creates those of the check.
unfoldable pub update_snapshot_health_metrics :
    List Window → List ℕ → List ℕ → List Block → List Snapshot → List Metric → Option (List Metric)
unfolding compute_missing_snapshot_blocks
update_snapshot_health_metrics windows setting subnets blocks snapshots persisted =
    compute_missing_snapshot_blocks windows setting subnets blocks snapshots
