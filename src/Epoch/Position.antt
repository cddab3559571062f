-- ===== src/Epoch/Position.antt =====
-- `_get_epoch_position` of app/src/apps/metagraph/block_tasks.py, and the epoch tests of
-- app/src/apps/metagraph/services/burn_service.py.
use sentinel_tower.Prelude.{
  ℕ, ◌≡◌, Bool, Option, none, some, List, [], ◌∷◌, arith, if◌then◌else◌, ◌==◌, ltb,
}
use sentinel_tower.Prelude.Int.{ℤ, mod_ℤ, pos, ◌+ℤ◌, ◌-ℤ◌, eqb_ℤ, +ℤ_parts, -ℤ_parts, ltb_ℤ}
use sentinel_tower.Epoch.{
  tempo, get_dumpable_blocks, get_epoch_containing_block, block_index_in_epoch,
}
use sentinel_tower.Epoch.Containing.{start_lem, index-lt}

pub data Position : Type 0 where
  start inside end : Position

-- `l[0]` and `l[-1]`; `none` is an IndexError.
abbrev first? : List ℤ → Option ℤ
first? [] = none
first? (b ∷ bs) = some b

abbrev last? : List ℤ → Option ℤ
last? [] = none
last? (b ∷ []) = some b
last? (b ∷ c ∷ bs) = last? (c ∷ bs)

unfoldable pub get_epoch_position : ℤ → ℕ → Option Position
unfolding get_dumpable_blocks
get_epoch_position block netuid =
    let dumpable_blocks = get_dumpable_blocks (get_epoch_containing_block block netuid) in
    elim (first? dumpable_blocks) [
      | none ↦ none
      | some first ↦ if eqb_ℤ block first then some start else elim (last? dumpable_blocks) [
        | none ↦ none
        | some last ↦ if eqb_ℤ block last then some end else some inside
      ]
    ]

unfoldable pub is_subnet_epoch_start : ℤ → ℕ → Bool
is_subnet_epoch_start block netuid = eqb_ℤ block (get_epoch_containing_block block netuid).start

abbrev pub root_netuid : ℕ
root_netuid = 0

unfoldable pub is_meta_epoch_start : ℤ → Bool
unfolding is_subnet_epoch_start
is_meta_epoch_start block = is_subnet_epoch_start block root_netuid

unfoldable pub meta_epoch_block : ℤ → ℤ
meta_epoch_block block = (get_epoch_containing_block block root_netuid).start

-- The position of a block by its index in the epoch, for every block.
abbrev pub position_of_index : ℕ → Position
position_of_index i = if i == 0 then start else if i == tempo then end else inside

-- `_get_epoch_position` never fails, and is "start" at index 0, "end" at index 360, and "inside" at
-- every other index.
get_epoch_position-eq-index :
    (block : ℤ) (netuid : ℕ)
    → get_epoch_position block netuid
      ≡ some (position_of_index (block_index_in_epoch block netuid tempo))
unfolding get_epoch_position
get_epoch_position-eq-index block netuid = rw start_lem (
    ground (
      arith,
      index-lt block netuid,
      -ℤ_parts block (pos (block_index_in_epoch block netuid tempo)),
      +ℤ_parts (block -ℤ pos (block_index_in_epoch block netuid tempo)) (pos 360),
    ))

-- A block passes the epoch-start test exactly at index 0.
pub is_subnet_epoch_start-iff-index :
    (block : ℤ) (netuid : ℕ)
    → is_subnet_epoch_start block netuid ≡ (block_index_in_epoch block netuid tempo == 0)
unfolding is_subnet_epoch_start
is_subnet_epoch_start-iff-index block netuid =
    rw start_lem (ground (arith, -ℤ_parts block (pos (block_index_in_epoch block netuid tempo))))

-- The anchor of a block is negative exactly for the blocks before block 359.
pub meta_epoch_block-negative_iff :
    (block : ℕ) → ltb_ℤ (meta_epoch_block (pos block)) (pos 0) ≡ ltb block 359
unfolding meta_epoch_block block_index_in_epoch mod_ℤ ◌+ℤ◌ ◌-ℤ◌
meta_epoch_block-negative_iff block = rw start_lem (ground arith)
