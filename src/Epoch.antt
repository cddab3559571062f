-- ===== src/Epoch.antt =====
-- The epoch arithmetic of app/src/apps/metagraph/utils.py. Blocks are Python integers, negative ones
-- included; netuids are natural numbers.
pub mod Containing
pub mod Dumpable
pub mod InRange
pub mod Starts
pub mod Position
use sentinel_tower.Prelude.{
  ℕ, zero, suc, ◌+◌, ◌-◌, ◌/◌, Bool, true, false, Option, none, some, List, [], ◌∷◌, ◌++◌, ◌&&◌,
  ◌==◌, if◌then◌else◌,
}
use sentinel_tower.Prelude.Int.{ℤ, pos, pos_part, ◌+ℤ◌, ◌-ℤ◌, mod_ℤ, leb_ℤ, ltb_ℤ, eqb_ℤ}

abbrev pub tempo : ℕ
tempo = 360

abbrev pub num_block_dumps_per_epoch : ℕ
num_block_dumps_per_epoch = 3

-- A Python `range` with step 1.
pub record Range : Type 0 where
  pub start : ℤ
  pub stop : ℤ

abbrev pub get_epoch_duration : ℕ → ℕ
get_epoch_duration t = t + 1

unfoldable pub block_index_in_epoch : ℤ → ℕ → ℕ → ℕ
unfolding mod_ℤ ◌+ℤ◌
block_index_in_epoch block netuid t = mod_ℤ (block +ℤ pos (netuid + 2)) (get_epoch_duration t)

unfoldable pub get_blocks_until_next_epoch : ℤ → ℕ → ℕ → ℕ
get_blocks_until_next_epoch block netuid t =
    let index = block_index_in_epoch block netuid t in
    if index == 0 then 0 else get_epoch_duration t - index

-- Python's `n or d`: zero is falsy.
abbrev or_else : ℕ → ℕ → ℕ
or_else n d = if n == 0 then d else n

unfoldable pub get_next_epoch_block : ℤ → ℕ → ℕ → ℤ
unfolding get_blocks_until_next_epoch
get_next_epoch_block block netuid t =
    block +ℤ pos (or_else (get_blocks_until_next_epoch block netuid t) (get_epoch_duration t))

unfoldable pub get_epoch_containing_block : ℤ → ℕ → Range
unfolding get_next_epoch_block
get_epoch_containing_block block netuid =
    let next = get_next_epoch_block block netuid tempo in
    record { start = next -ℤ pos (get_epoch_duration tempo); stop = next }

-- `TEMPO / NUM_BLOCK_DUMPS_PER_EPOCH` is exact, so the float and its floor are this number.
abbrev step : ℕ
step = tempo / num_block_dumps_per_epoch

unfoldable pub get_dumpable_blocks : Range → List ℤ
get_dumpable_blocks epoch =
    epoch.start
    ∷ (epoch.start +ℤ pos step)
    ∷ (epoch.start +ℤ pos (step + step))
    ∷ (epoch.start +ℤ pos tempo)
    ∷ []

-- A Python set, as a list without repetitions.
unfoldable pub elem : ℤ → List ℤ → Bool
elem b [] = false
elem b (x ∷ xs) = if eqb_ℤ b x then true else elem b xs

unfoldable pub add : ℤ → List ℤ → List ℤ
unfolding elem
add b xs = if elem b xs then xs else b ∷ xs

-- The inner `for` loop: adds the blocks that lie in [start, end].
unfoldable pub add_in_range : ℤ → ℤ → List ℤ → List ℤ → List ℤ
unfolding add
add_in_range start end [] result = result
add_in_range start end (b ∷ bs) result =
    add_in_range start end bs (if leb_ℤ start b && leb_ℤ b end then add b result else result)

-- The `while` loop, on fuel.
unfoldable pub collect : ℕ → ℤ → ℤ → ℕ → ℤ → List ℤ → Option (List ℤ)
unfolding get_epoch_containing_block get_dumpable_blocks add_in_range
collect zero start end netuid block result = none
collect (suc fuel) start end netuid block result =
    let epoch = get_epoch_containing_block block netuid in
    let rest =
      collect fuel start end netuid epoch.stop
        (add_in_range start end (get_dumpable_blocks epoch) result) in
    if leb_ℤ block end then rest else some result

unfoldable pub get_dumpable_blocks_in_range : ℤ → ℤ → ℕ → Option (List ℤ)
unfolding collect
get_dumpable_blocks_in_range start end netuid =
    collect (suc (pos_part (end +ℤ pos 1 -ℤ start))) start end netuid start []

-- `range(first, ..., duration)` with `n` members.
unfoldable pub arithmetic_range : ℕ → ℤ → ℕ → List ℤ
arithmetic_range zero first duration = []
arithmetic_range (suc n) first duration =
    first ∷ arithmetic_range n (first +ℤ pos duration) duration

-- `len(range(first, end + 1, duration))`
abbrev count_in_range : ℤ → ℤ → ℕ → ℕ
count_in_range first end duration = (pos_part (end +ℤ pos 1 -ℤ first) + (duration - 1)) / duration

unfoldable pub epoch_start_blocks_in_range : ℤ → ℤ → ℕ → List ℤ
unfolding arithmetic_range
epoch_start_blocks_in_range start end netuid =
    let duration = get_epoch_duration tempo in
    let first = start +ℤ pos (mod_ℤ (pos 0 -ℤ (start +ℤ pos (netuid + 2))) duration) in
    if ltb_ℤ end start
    then []
    else if ltb_ℤ end first
    then []
    else arithmetic_range (count_in_range first end duration) first duration
