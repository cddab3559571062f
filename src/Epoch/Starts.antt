-- ===== src/Epoch/Starts.antt =====
-- `epoch_start_blocks_in_range` lists the epoch starts of a range, in ascending order.
use sentinel_tower.Prelude.{
  ℕ, zero, suc, ◌+◌, ◌*◌, ◌/◌, ◌≤◌, ◌<◌, ◌≡◌, inl, inr, ◌↔◌, List, [], ◌∷◌, In, Bool-cases, arith,
}
use sentinel_tower.Prelude.Int.{
  ℤ, pos, pos_part, ◌+ℤ◌, ◌-ℤ◌, mod_ℤ, ◌≤ℤ◌, ◌<ℤ◌, +ℤ_parts, -ℤ_parts, int_laws, ltb_ℤ, eq_of_parts,
}
use sentinel_tower.Epoch.{
  tempo, block_index_in_epoch, arithmetic_range, epoch_start_blocks_in_range,
}
use sentinel_tower.Epoch.Containing.{index_in_epoch, index-next}

abbrev pub AscendingFrom : ℤ → List ℤ → Type 0
AscendingFrom x [] = Unit
AscendingFrom x (y ∷ ys) = (x <ℤ y) × AscendingFrom y ys

abbrev pub IsAscending : List ℤ → Type 0
IsAscending [] = Unit
IsAscending (x ∷ xs) = AscendingFrom x xs

module _ (netuid : ℕ) where
  abbrev IsStart : ℤ → Type 0
  IsStart b = block_index_in_epoch b netuid tempo ≡ 0

  In-arithmetic_range :
      (b first : ℤ) (n : ℕ)
      → IsStart first
      → In b (arithmetic_range n first 361)
      → IsStart b × (first ≤ℤ b) × (pos_part (b -ℤ first) + 361 ≤ 361 * n)
  unfolding arithmetic_range
  In-arithmetic_range b first zero s m = absurd m
  In-arithmetic_range b first (suc n) s (inl e) =
      rw e (s, omega arith, ground (arith, -ℤ_parts first first))
  In-arithmetic_range b first (suc n) s (inr m) =
      let ih = In-arithmetic_range b (first +ℤ pos 361) n (index-next first netuid s) m in
      (
        ih.0,
        omega (arith, ih.1, +ℤ_parts first (pos 361)),
        ground (
          arith,
          ih.1,
          ih.2,
          +ℤ_parts first (pos 361),
          -ℤ_parts b first,
          -ℤ_parts b (first +ℤ pos 361),
        ),
      )

  start-start : (s b : ℤ) → IsStart s → IsStart b → s ≤ℤ b → b <ℤ s +ℤ pos 361 → b ≡ s
  start-start s b hs hb lo hi =
      let e = index_in_epoch s b netuid hs lo hi in ground (arith, e, -ℤ_parts b s, eq_of_parts b s)

  arithmetic_range-In :
      (b first : ℤ) (n : ℕ)
      → IsStart first
      → IsStart b
      → first ≤ℤ b
      → pos_part (b -ℤ first) < 361 * n
      → In b (arithmetic_range n first 361)
  unfolding arithmetic_range
  arithmetic_range-In b first zero s t lo hi = absurd (omega arith)
  arithmetic_range-In b first (suc n) s t lo hi = elim (Bool-cases (ltb_ℤ b (first +ℤ pos 361))) [
    | inl e ↦ inl (start-start first b s t lo (ground arith))
    | inr e ↦ inr (
        arithmetic_range-In b (first +ℤ pos 361) n (index-next first netuid s) t (ground arith) (
          ground
            (arith, +ℤ_parts first (pos 361), -ℤ_parts b first, -ℤ_parts b (first +ℤ pos 361))))
  ]

arithmetic_range-AscendingFrom :
    (x first : ℤ) (n : ℕ) → x <ℤ first → AscendingFrom x (arithmetic_range n first 361)
unfolding arithmetic_range
arithmetic_range-AscendingFrom x first zero h = tt
arithmetic_range-AscendingFrom x first (suc n) h =
    (h, arithmetic_range-AscendingFrom first (first +ℤ pos 361) n (omega int_laws))

arithmetic_range-IsAscending : (first : ℤ) (n : ℕ) → IsAscending (arithmetic_range n first 361)
unfolding arithmetic_range
arithmetic_range-IsAscending first zero = tt
arithmetic_range-IsAscending first (suc n) =
    arithmetic_range-AscendingFrom first (first +ℤ pos 361) n (omega int_laws)

module _ (start : ℤ) (netuid : ℕ) where
  -- The first epoch start at or after `start`.
  abbrev first_start : ℤ
  first_start = start +ℤ pos (mod_ℤ (pos 0 -ℤ (start +ℤ pos (netuid + 2))) 361)

  first_start-IsStart : block_index_in_epoch first_start netuid tempo ≡ 0
  unfolding block_index_in_epoch mod_ℤ ◌+ℤ◌ ◌-ℤ◌
  first_start-IsStart = ground arith

  first_start_bounds : (start ≤ℤ first_start) × (first_start <ℤ start +ℤ pos 361)
  unfolding mod_ℤ ◌+ℤ◌ ◌-ℤ◌
  first_start_bounds = ground arith

  below : (b : ℤ) → start ≤ℤ b → first_start <ℤ b +ℤ pos 361
  below b lo =
      let bounds = first_start_bounds in
      omega (arith, bounds.1, +ℤ_parts b (pos 361), +ℤ_parts start (pos 361))

  first_start-le : (b : ℤ) → block_index_in_epoch b netuid tempo ≡ 0 → start ≤ℤ b → first_start ≤ℤ b
  first_start-le b t lo = elim (Bool-cases (ltb_ℤ b first_start)) [
    | inl e ↦
        let eq =
          start-start netuid b first_start t first_start-IsStart (ground arith) (below b lo) in
        rw eq (omega arith)
    | inr e ↦ ground arith
  ]

  module _ (end : ℤ) where
    abbrev starts : ℕ
    starts = (pos_part (end +ℤ pos 1 -ℤ first_start) + 360) / 361

    -- What the early returns and the range of the source come to.
    unfolded_cases :
        (P : List ℤ → Type 0)
        → (end <ℤ first_start → P [])
        → (first_start ≤ℤ end → P (arithmetic_range starts first_start 361))
        → P (epoch_start_blocks_in_range start end netuid)
    unfolding epoch_start_blocks_in_range
    unfolded_cases P nothing some_blocks =
        let bounds = first_start_bounds in
        elim (Bool-cases (ltb_ℤ end start)) [
          | inl e ↦ rw e (nothing (ground arith))
          | inr e ↦ elim (Bool-cases (ltb_ℤ end first_start)) [
            | inl f ↦ rw (e, f) (nothing (ground arith))
            | inr f ↦ rw (e, f) (some_blocks (ground arith))
          ]
        ]

-- The list is ascending, and holds a block exactly when the block lies in [start, end] and starts an
-- epoch of the subnet.
pub epoch_start_blocks_in_range_exact :
    (start end : ℤ) (netuid : ℕ)
    → IsAscending (epoch_start_blocks_in_range start end netuid)
      × ((b : ℤ)
          → In b (epoch_start_blocks_in_range start end netuid)
            ↔ ((start ≤ℤ b) × (b ≤ℤ end) × (block_index_in_epoch b netuid tempo ≡ 0)))
epoch_start_blocks_in_range_exact start end netuid =
    unfolded_cases start netuid end
      (λ l.
        IsAscending l
        × ((b : ℤ)
            → In b l ↔ ((start ≤ℤ b) × (b ≤ℤ end) × (block_index_in_epoch b netuid tempo ≡ 0))))
      (λ none_left. (
        tt,
        λ b. (
          (λ m. absurd m),
          (λ w. let le = first_start-le start netuid b w.2 w.0 in absurd (omega arith)),
        ),
      ))
      (λ le. (
        arithmetic_range-IsAscending _ _,
        λ b. (
          (λ m.
              let facts = In-arithmetic_range netuid b first _ is_start m in
              (
                omega (arith, facts.1, first_start_bounds start netuid),
                at_most b le facts.2,
                facts.0,
              )),
          (λ w.
              arithmetic_range-In netuid b first _ is_start w.2
                (first_start-le start netuid b w.2 w.0)
                (counted b le (first_start-le start netuid b w.2 w.0) w.1)),
        ),
      ))
  where
    first : ℤ
    first = first_start start netuid

    is_start : block_index_in_epoch first netuid tempo ≡ 0
    is_start = first_start-IsStart start netuid

    at_most :
        (b : ℤ)
        → first ≤ℤ end
        → pos_part (b -ℤ first) + 361 ≤ 361 * ((pos_part (end +ℤ pos 1 -ℤ first) + 360) / 361)
        → b ≤ℤ end
    at_most b le h =
        ground (arith, -ℤ_parts b first, +ℤ_parts end (pos 1), -ℤ_parts (end +ℤ pos 1) first)

    counted :
        (b : ℤ)
        → first ≤ℤ end
        → first ≤ℤ b
        → b ≤ℤ end
        → pos_part (b -ℤ first) < 361 * ((pos_part (end +ℤ pos 1 -ℤ first) + 360) / 361)
    counted b le lo hi =
        ground (arith, -ℤ_parts b first, +ℤ_parts end (pos 1), -ℤ_parts (end +ℤ pos 1) first)
