-- ===== src/Examples/Checking.antt =====
-- The check for missing snapshots at a concrete chain.
use sentinel_tower.Prelude.{◌≡◌, ◌↔◌, none, some, List, [], ◌∷◌, In, arith}
use sentinel_tower.Prelude.Int.{ℤ, pos, ◌-ℤ◌}
use sentinel_tower.Epoch.{get_dumpable_blocks_in_range}
use sentinel_tower.Epoch.InRange.{get_dumpable_blocks_in_range_exact}
use sentinel_tower.Retention.Run.{Block}
use sentinel_tower.Health.{
  snapshot_health_windows, Snapshot, Window, covered_blocks, narrowed, uncovered,
}
use sentinel_tower.Health.Missing.{IsMissing, uncovered-exact}

abbrev windows : List Window
windows = snapshot_health_windows 12

abbrev chain : List Block
chain =
    record { number = 90000; timestamp = some 5 } ∷ record { number = 90001; timestamp = none } ∷ []

abbrev taken : List Snapshot
taken = record { block = 89000; netuid = 3 } ∷ []

dumped :
    (r : List ℤ) × (get_dumpable_blocks_in_range (pos 90000 -ℤ pos 86400) (pos 90000) 3 ≡ some r)
dumped =
    let r = get_dumpable_blocks_in_range_exact (pos 90000 -ℤ pos 86400) (pos 90000) 3 in (r.0, r.1)

uncovered-exact_example :
    In (pos 89999) (
      uncovered
        (narrowed (pos 90000) 50400 dumped.0)
        (covered_blocks (pos 90000 -ℤ pos 86400) (pos 90000) 3 taken))
    ↔ IsMissing (pos 90000) 50400 86400 3 taken dumped.0 (pos 89999)
uncovered-exact_example =
    uncovered-exact (pos 90000) 50400 86400 3 taken dumped.0 (omega arith) dumped.1 (pos 89999)
