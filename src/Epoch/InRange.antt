-- ===== src/Epoch/InRange.antt =====
-- `get_dumpable_blocks_in_range` ends, and collects the dumpable blocks of the range.
use sentinel_tower.Prelude.{
  ℕ, zero, suc, ◌<◌, ◌≡◌, ◌⊎◌, inl, inr, ◌↔◌, true, false, some, List, [], ◌∷◌, In, Bool-cases,
  arith, ◌&&◌, if◌then◌else◌, subst, sym, refl, ◌∙◌,
}
use sentinel_tower.Prelude.Int.{
  ℤ, pos, pos_part, ◌+ℤ◌, ◌-ℤ◌, ◌≤ℤ◌, ◌<ℤ◌, +ℤ_parts, -ℤ_parts, leb_ℤ, ltb_ℤ, eqb_ℤ, eqb_ℤ→≡,
  leb_ℤ→≤ℤ,
}
use sentinel_tower.Epoch.{
  Range, get_dumpable_blocks, get_epoch_containing_block, elem, add, add_in_range, collect,
  get_dumpable_blocks_in_range,
}
use sentinel_tower.Epoch.Containing.{get_epoch_containing_block-contains, same_epoch, stop_lem}
use sentinel_tower.Epoch.Dumpable.{IsDumpable, dumpable_within}

elem-In : (b : ℤ) (xs : List ℤ) → elem b xs ≡ true → In b xs
unfolding elem
elem-In b [] h = ground arith
elem-In b (x ∷ xs) h = elim (Bool-cases (eqb_ℤ b x)) [
  | inl e ↦ inl (eqb_ℤ→≡ b x e)
  | inr e ↦ inr (elem-In b xs (rw (← h) (sym (rw e refl))))
]

In-add : (b c : ℤ) (xs : List ℤ) → In b (add c xs) ↔ ((b ≡ c) ⊎ In b xs)
unfolding add
In-add b c xs = elim (Bool-cases (elem c xs)) [
  | inl e ↦ rw e ((λ m. inr m), (λ m. elim m [ inl p ↦ rw p (elem-In c xs e) | inr q ↦ q ]))
  | inr e ↦ rw e ((λ m. m), (λ m. m))
]

-- What one step of the inner loop adds.
In-add_kept :
    (start end b c : ℤ) (result : List ℤ)
    → In b (if leb_ℤ start c && leb_ℤ c end then add c result else result)
      ↔ (((start ≤ℤ b) × (b ≤ℤ end) × (b ≡ c)) ⊎ In b result)
In-add_kept start end b c result = elim (Bool-cases (leb_ℤ start c && leb_ℤ c end)) [
  | inl e ↦ rw e (
    (λ m. elim ((In-add b c result).0 m) [
      | inl p ↦ inl (rw p (ground arith), rw p (ground arith), p)
      | inr q ↦ inr q
    ]),
    (λ m. (In-add b c result).1 (elim m [ inl p ↦ inl p.2 | inr q ↦ inr q ])),
  )
  | inr e ↦
      rw e ((λ m. inr m), (λ m. elim m [ inl p ↦ absurd (out start end b c e p) | inr q ↦ q ]))
]
  where
    out :
        (start end b c : ℤ)
        → (leb_ℤ start c && leb_ℤ c end) ≡ false
        → (start ≤ℤ b) × (b ≤ℤ end) × (b ≡ c)
        → ⊥
    out start end b c e p = ground arith

pub In-add_in_range :
    (start end b : ℤ) (bs result : List ℤ)
    → In b (add_in_range start end bs result)
      ↔ (((start ≤ℤ b) × (b ≤ℤ end) × In b bs) ⊎ In b result)
unfolding add_in_range
In-add_in_range start end b [] result =
    ((λ m. inr m), (λ m. elim m [ inl p ↦ absurd p.2 | inr q ↦ q ]))
In-add_in_range start end b (c ∷ bs) result =
    let rest =
      In-add_in_range start end b bs
        (if leb_ℤ start c && leb_ℤ c end then add c result else result) in
    let kept = In-add_kept start end b c result in
    (
      (λ m. elim (rest.0 m) [
        | inl p ↦ inl (p.0, p.1, inr p.2)
        | inr q ↦ elim (kept.0 q) [ inl p ↦ inl (p.0, p.1, inl p.2) | inr r ↦ inr r ]
      ]),
      (λ m. rest.1 (elim m [
        | inl p ↦ elim p.2 [ inl e ↦ inr (kept.1 (inl (p.0, p.1, e))) | inr i ↦ inl (p.0, p.1, i) ]
        | inr q ↦ inr (kept.1 (inr q))
      ])),
    )

-- The blocks that the range asks for.
abbrev pub IsWanted : ℤ → ℤ → ℕ → ℤ → Type 0
IsWanted start end n b = (start ≤ℤ b) × (b ≤ℤ end) × IsDumpable b n

-- The blocks collected so far are those wanted below the current block.
record Collected (start end : ℤ) (n : ℕ) (block : ℤ) (result : List ℤ) : Type 0 where
  sound : (b : ℤ) → In b result → IsWanted start end n b × (b <ℤ block)
  complete : (b : ℤ) → IsWanted start end n b → b <ℤ block → In b result

module _ (block : ℤ) (n : ℕ) where
  abbrev current : Range
  current = get_epoch_containing_block block n

  current-form : current ≡ record { start = current.start; stop = current.start +ℤ pos 361 }
  current-form = cc (stop_lem block n)

  -- The blocks of the epoch of `block` have that epoch.
  epoch_of :
      (b : ℤ) → current.start ≤ℤ b → b <ℤ current.stop → get_epoch_containing_block b n ≡ current
  epoch_of b lo hi =
      same_epoch current.start b n (get_epoch_containing_block-contains block n).3 lo
        (subst (λ e. b <ℤ e) (stop_lem block n) hi)
      ∙ sym current-form

  dumped_within :
      (b : ℤ) → In b (get_dumpable_blocks current) → (current.start ≤ℤ b) × (b <ℤ current.stop)
  dumped_within b m =
      subst (λ e. (current.start ≤ℤ b) × (b <ℤ e)) (sym (stop_lem block n))
        (dumpable_within current.start b (subst (λ e. In b (get_dumpable_blocks e)) current-form m))

  dumped-IsDumpable : (b : ℤ) → In b (get_dumpable_blocks current) → IsDumpable b n
  dumped-IsDumpable b m =
      subst (λ e. In b (get_dumpable_blocks e))
        (sym (epoch_of b (dumped_within b m).0 (dumped_within b m).1)) m

  dumpable-dumped :
      (b : ℤ) → block ≤ℤ b → b <ℤ current.stop → IsDumpable b n → In b (get_dumpable_blocks current)
  dumpable-dumped b lo hi m =
      let facts = (get_epoch_containing_block-contains block n).0 in
      subst (λ e. In b (get_dumpable_blocks e)) (epoch_of b (omega arith) hi) m

  step :
      (start end : ℤ) (result : List ℤ)
      → Collected start end n block result
      → Collected start end n current.stop
          (add_in_range start end (get_dumpable_blocks current) result)
  step start end result c = record {
    sound = λ b m. elim ((In-add_in_range start end b (get_dumpable_blocks current) result).0 m) [
      | inl p ↦ ((p.0, p.1, dumped-IsDumpable b p.2), (dumped_within b p.2).1)
      | inr q ↦
          let below = (get_epoch_containing_block-contains block n).1 in
          let bound = (c.sound b q).1 in ((c.sound b q).0, omega arith)
    ];
    complete = λ b w lt.
        (In-add_in_range start end b (get_dumpable_blocks current) result).1
          (elim (Bool-cases (ltb_ℤ b block)) [
            | inl e ↦ inr (c.complete b w (ground arith))
            | inr e ↦ inl (w.0, w.1, dumpable-dumped b (ground arith) lt w.2)
          ]);
  }

  next-gt : block <ℤ current.stop
  next-gt = (get_epoch_containing_block-contains block n).1

module _ (start end : ℤ) (n : ℕ) where
  collect_more :
      (fuel : ℕ) (block : ℤ) (result : List ℤ)
      → leb_ℤ block end ≡ true
      → collect (suc fuel) start end n block result
        ≡ collect fuel start end n (get_epoch_containing_block block n).stop (
            add_in_range start end
              (get_dumpable_blocks (get_epoch_containing_block block n))
              result)
  unfolding collect
  collect_more fuel block result e = rw e

  collect_done :
      (fuel : ℕ) (block : ℤ) (result : List ℤ)
      → leb_ℤ block end ≡ false
      → collect (suc fuel) start end n block result ≡ some result
  unfolding collect
  collect_done fuel block result e = rw e

  -- With fuel for each block of the range the loop ends, with the blocks that are wanted.
  collect_total :
      (fuel : ℕ) (block : ℤ) (result : List ℤ)
      → pos_part (end +ℤ pos 1 -ℤ block) < fuel
      → Collected start end n block result
      → (r : List ℤ) × (collect fuel start end n block result ≡ some r)
        × ((b : ℤ) → In b r ↔ IsWanted start end n b)
  collect_total zero block result lt c = elim lt [ ]
  collect_total (suc fuel) block result lt c = elim (Bool-cases (leb_ℤ block end)) [
    | inl e ↦ rw (collect_more fuel block result e) (
        collect_total fuel (get_epoch_containing_block block n).stop
          (add_in_range start end (get_dumpable_blocks (get_epoch_containing_block block n)) result)
          (shrinks block (get_epoch_containing_block block n).stop fuel (next-gt block n)
            (leb_ℤ→≤ℤ block end e) lt)
          (step block n start end result c))
    | inr e ↦ (
      result,
      collect_done fuel block result e,
      λ b. ((λ m. (c.sound b m).0), (λ w. c.complete b w (past block b e w.1))),
    )
  ]
    where
      shrinks :
          (block next : ℤ) (fuel : ℕ)
          → block <ℤ next
          → block ≤ℤ end
          → pos_part (end +ℤ pos 1 -ℤ block) < suc fuel
          → pos_part (end +ℤ pos 1 -ℤ next) < fuel
      shrinks block next fuel lt le h =
          ground (
            arith,
            +ℤ_parts end (pos 1),
            -ℤ_parts (end +ℤ pos 1) block,
            -ℤ_parts (end +ℤ pos 1) next,
          )

      past : (block b : ℤ) → leb_ℤ block end ≡ false → b ≤ℤ end → b <ℤ block
      past block b e h = ground arith

-- The loop of `get_dumpable_blocks_in_range` ends, and its set holds a block exactly when the block
-- lies in [start, end] and is one of the dumped blocks of its own epoch.
pub get_dumpable_blocks_in_range_exact :
    (start end : ℤ) (n : ℕ)
    → (r : List ℤ) × (get_dumpable_blocks_in_range start end n ≡ some r)
      × ((b : ℤ)
          → In b r ↔ (
              (start ≤ℤ b)
              × (b ≤ℤ end)
              × In b (get_dumpable_blocks (get_epoch_containing_block b n))))
unfolding get_dumpable_blocks_in_range
get_dumpable_blocks_in_range_exact start end n =
    collect_total start end n (suc (pos_part (end +ℤ pos 1 -ℤ start))) start [] (omega arith)
      (record { sound = λ b m. absurd m; complete = λ b w lt. absurd (omega arith) })
