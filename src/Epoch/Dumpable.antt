-- ===== src/Epoch/Dumpable.antt =====
-- `get_dumpable_blocks`: the blocks of an epoch that are dumped.
use sentinel_tower.Prelude.{ℕ, In, arith}
use sentinel_tower.Prelude.Int.{ℤ, pos, ◌+ℤ◌, ◌≤ℤ◌, ◌<ℤ◌, +ℤ_parts}
use sentinel_tower.Epoch.{get_dumpable_blocks, get_epoch_containing_block}

-- A block is dumpable if it is one of the dumped blocks of its own epoch.
abbrev pub IsDumpable : ℤ → ℕ → Type 0
IsDumpable b n = In b (get_dumpable_blocks (get_epoch_containing_block b n))

-- The dumped blocks of an epoch lie in it.
pub dumpable_within :
    (s b : ℤ)
    → In b (get_dumpable_blocks (record { start = s; stop = s +ℤ pos 361 }))
    → (s ≤ℤ b) × (b <ℤ s +ℤ pos 361)
unfolding get_dumpable_blocks
dumpable_within s b m =
    ground (
      arith,
      +ℤ_parts s (pos 120),
      +ℤ_parts s (pos 240),
      +ℤ_parts s (pos 360),
      +ℤ_parts s (pos 361),
    )
