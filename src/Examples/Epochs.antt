-- ===== src/Examples/Epochs.antt =====
-- The epochs of a subnet at concrete blocks.
use sentinel_tower.Prelude.{◌≡◌, ◌↔◌, some, List, In}
use sentinel_tower.Prelude.Int.{ℤ, pos, ◌≤ℤ◌}
use sentinel_tower.Epoch.{
  tempo, block_index_in_epoch, get_epoch_containing_block, get_dumpable_blocks,
  get_dumpable_blocks_in_range, epoch_start_blocks_in_range,
}
use sentinel_tower.Epoch.InRange.{get_dumpable_blocks_in_range_exact}
use sentinel_tower.Epoch.Starts.{IsAscending, epoch_start_blocks_in_range_exact}

get_dumpable_blocks_in_range_exact_example :
    (r : List ℤ) × (get_dumpable_blocks_in_range (pos 300) (pos 1200) 3 ≡ some r)
    × ((b : ℤ)
        → In b r ↔ (
            (pos 300 ≤ℤ b)
            × (b ≤ℤ pos 1200)
            × In b (get_dumpable_blocks (get_epoch_containing_block b 3))))
get_dumpable_blocks_in_range_exact_example =
    get_dumpable_blocks_in_range_exact (pos 300) (pos 1200) 3

epoch_start_blocks_in_range_exact_example :
    IsAscending (epoch_start_blocks_in_range (pos 10) (pos 1500) 7)
    × ((b : ℤ)
        → In b (epoch_start_blocks_in_range (pos 10) (pos 1500) 7)
          ↔ ((pos 10 ≤ℤ b) × (b ≤ℤ pos 1500) × (block_index_in_epoch b 7 tempo ≡ 0)))
epoch_start_blocks_in_range_exact_example = epoch_start_blocks_in_range_exact (pos 10) (pos 1500) 7
