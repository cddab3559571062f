-- ===== src/Epoch/Containing.antt =====
-- The epoch that contains a block: its bounds, and that it is the same for all of its blocks.
use sentinel_tower.Prelude.{ℕ, ◌-◌, ◌<◌, ◌≡◌, sym, ap, arith, ◌∙◌}
use sentinel_tower.Prelude.Int.{
  ℤ, pos, pos_part, ◌+ℤ◌, ◌-ℤ◌, ◌≤ℤ◌, ◌<ℤ◌, mod_ℤ, +ℤ_parts, -ℤ_parts, eq_of_parts, int_laws,
}
use sentinel_tower.Epoch.{
  tempo, block_index_in_epoch, get_epoch_containing_block, get_next_epoch_block,
}

pub index-lt : (b : ℤ) (n : ℕ) → block_index_in_epoch b n tempo < 361
unfolding block_index_in_epoch mod_ℤ
index-lt b n = ground arith

-- Moving by less than a duration from an epoch's start moves the index by as much.
pub index-add :
    (b : ℤ) (n k : ℕ)
    → block_index_in_epoch b n tempo ≡ 0
    → k < 361
    → block_index_in_epoch (b +ℤ pos k) n tempo ≡ k
unfolding block_index_in_epoch mod_ℤ ◌+ℤ◌
index-add b n k h lt = ground arith

pub index-sub_index :
    (b : ℤ) (n : ℕ) → block_index_in_epoch (b -ℤ pos (block_index_in_epoch b n tempo)) n tempo ≡ 0
unfolding block_index_in_epoch mod_ℤ ◌+ℤ◌ ◌-ℤ◌
index-sub_index b n = ground arith

pub index-next :
    (b : ℤ) (n : ℕ)
    → block_index_in_epoch b n tempo ≡ 0
    → block_index_in_epoch (b +ℤ pos 361) n tempo ≡ 0
unfolding block_index_in_epoch mod_ℤ ◌+ℤ◌
index-next b n h = ground arith

-- The start is the block less its index.
pub start_lem :
    (b : ℤ) (n : ℕ)
    → (get_epoch_containing_block b n).start ≡ b -ℤ pos (block_index_in_epoch b n tempo)
unfolding get_epoch_containing_block
start_lem b n = ground (
  arith,
  index-lt b n,
  +ℤ_parts b (pos 361),
  +ℤ_parts b (pos (361 - block_index_in_epoch b n tempo)),
  -ℤ_parts (b +ℤ pos 361) (pos 361),
  -ℤ_parts (b +ℤ pos (361 - block_index_in_epoch b n tempo)) (pos 361),
  -ℤ_parts b (pos (block_index_in_epoch b n tempo)),
  eq_of_parts (get_next_epoch_block b n tempo -ℤ pos 361)
      (b -ℤ pos (block_index_in_epoch b n tempo)),
)

pub stop_lem :
    (b : ℤ) (n : ℕ)
    → (get_epoch_containing_block b n).stop ≡ (get_epoch_containing_block b n).start +ℤ pos 361
unfolding get_epoch_containing_block
stop_lem b n = omega int_laws

-- The epoch of a block contains it, has 361 blocks, and starts at a block with index 0.
pub get_epoch_containing_block-contains :
    (b : ℤ) (n : ℕ)
    → ((get_epoch_containing_block b n).start ≤ℤ b)
      × (b <ℤ (get_epoch_containing_block b n).stop)
      × ((get_epoch_containing_block b n).stop ≡ (get_epoch_containing_block b n).start +ℤ pos 361)
      × (block_index_in_epoch (get_epoch_containing_block b n).start n tempo ≡ 0)
get_epoch_containing_block-contains b n = (
  rw start_lem (omega (int_laws, index-lt b n)),
  rw (stop_lem, start_lem) (omega (int_laws, index-lt b n)),
  stop_lem b n,
  rw start_lem (index-sub_index b n),
)

offset : (b c : ℤ) → b ≤ℤ c → c ≡ b +ℤ pos (pos_part (c -ℤ b))
unfolding ◌+ℤ◌ ◌-ℤ◌
offset b c h = ground arith

sub-offset : (b c : ℤ) → b ≤ℤ c → b ≡ c -ℤ pos (pos_part (c -ℤ b))
unfolding ◌-ℤ◌
sub-offset b c h = ground arith

pub index_in_epoch :
    (s b : ℤ) (n : ℕ)
    → block_index_in_epoch s n tempo ≡ 0
    → s ≤ℤ b
    → b <ℤ s +ℤ pos 361
    → block_index_in_epoch b n tempo ≡ pos_part (b -ℤ s)
index_in_epoch s b n h lo hi =
    ap (λ c. block_index_in_epoch c n tempo) (offset s b lo)
    ∙ index-add s n (pos_part (b -ℤ s)) h (ground (arith, -ℤ_parts b s, +ℤ_parts s (pos 361)))

-- A block between an epoch's start and the next has that epoch.
pub same_epoch :
    (s b : ℤ) (n : ℕ)
    → block_index_in_epoch s n tempo ≡ 0
    → s ≤ℤ b
    → b <ℤ s +ℤ pos 361
    → get_epoch_containing_block b n ≡ record { start = s; stop = s +ℤ pos 361 }
same_epoch s b n h lo hi =
    let e : (get_epoch_containing_block b n).start ≡ s =
      rw (start_lem, index_in_epoch s b n h lo hi) (sym (sub-offset s b lo)) in
    cc (stop_lem b n, e)
