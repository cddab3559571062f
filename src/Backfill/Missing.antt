-- ===== src/Backfill/Missing.antt =====
-- What `_find_missing_blocks` lists.
use sentinel_tower.Prelude.{
  ℕ, zero, suc, ◌<◌, ◌≡◌, refl, sym, ◌∙◌, false, List, [], ◌∷◌, In, ◌↔◌, ◌⊎◌, inl, inr, subst,
  Bool-cases, arith,
}
use sentinel_tower.Prelude.Int.{
  ℤ, pos, pos_part, ◌+ℤ◌, ◌-ℤ◌, ◌≤ℤ◌, ◌<ℤ◌, eqb_ℤ, eqb_ℤ→≡, +ℤ_parts, -ℤ_parts, eq_of_parts,
}
use sentinel_tower.Json.{int}
use sentinel_tower.Extrinsics.Parse.{Extrinsic}
use sentinel_tower.Epoch.{elem}
use sentinel_tower.Epoch.Starts.{AscendingFrom, IsAscending}
use sentinel_tower.Backfill.{existing_blocks, missing_from, find_missing_blocks}

missing_from-AscendingFrom :
    (n : ℕ) (x first : ℤ) (existing : List ℤ)
    → x <ℤ first
    → AscendingFrom x (missing_from n first existing)
unfolding missing_from
missing_from-AscendingFrom zero x first existing lt = tt
missing_from-AscendingFrom (suc n) x first existing lt = elim (Bool-cases (elem first existing)) [
  | inl e ↦ rw e (
      missing_from-AscendingFrom n x (first +ℤ pos 1) existing
        (ground (arith, +ℤ_parts first (pos 1))))
  | inr e ↦ rw e (
    lt,
    missing_from-AscendingFrom n first (first +ℤ pos 1) existing
        (ground (arith, +ℤ_parts first (pos 1))),
  )
]

missing_from-IsAscending :
    (n : ℕ) (first : ℤ) (existing : List ℤ) → IsAscending (missing_from n first existing)
unfolding missing_from
missing_from-IsAscending zero first existing = tt
missing_from-IsAscending (suc n) first existing = elim (Bool-cases (elem first existing)) [
  | inl e ↦ rw e (missing_from-IsAscending n (first +ℤ pos 1) existing)
  | inr e ↦ rw e (
      missing_from-AscendingFrom n first (first +ℤ pos 1) existing
        (ground (arith, +ℤ_parts first (pos 1))))
]

In-missing_from :
    (n : ℕ) (b first : ℤ) (existing : List ℤ)
    → In b (missing_from n first existing)
    → (first ≤ℤ b) × (b <ℤ first +ℤ pos n) × (elem b existing ≡ false)
unfolding missing_from
In-missing_from zero b first existing m = elim m [ ]
In-missing_from (suc n) b first existing m = elim (Bool-cases (elem first existing)) [
  | inl e ↦ later (In-missing_from n b (first +ℤ pos 1) existing (rw e at m))
  | inr e ↦ here e (λ k. In-missing_from n b (first +ℤ pos 1) existing k) (rw e at m)
]
  where
    Bounds : Type 0
    Bounds = (first ≤ℤ b) × (b <ℤ first +ℤ pos (suc n)) × (elem b existing ≡ false)

    later :
        (first +ℤ pos 1 ≤ℤ b) × (b <ℤ first +ℤ pos 1 +ℤ pos n) × (elem b existing ≡ false) → Bounds
    later (lo, hi, e) = (
      omega (arith, lo, +ℤ_parts first (pos 1)),
      omega (
        arith,
        hi,
        +ℤ_parts first (pos 1),
        +ℤ_parts (first +ℤ pos 1) (pos n),
        +ℤ_parts first (pos (suc n)),
      ),
      e,
    )

    here :
        elem first existing ≡ false
        → (In b (missing_from n (first +ℤ pos 1) existing)
            → (first +ℤ pos 1 ≤ℤ b) × (b <ℤ first +ℤ pos 1 +ℤ pos n) × (elem b existing ≡ false))
        → (b ≡ first) ⊎ In b (missing_from n (first +ℤ pos 1) existing)
        → Bounds
    here e f (inl p) =
        subst (λ c. (first ≤ℤ c) × (c <ℤ first +ℤ pos (suc n)) × (elem c existing ≡ false)) (sym p)
          (omega arith, omega (arith, +ℤ_parts first (pos (suc n))), e)
    here e f (inr k) = later (f k)

missing_from-In :
    (n : ℕ) (b first : ℤ) (existing : List ℤ)
    → first ≤ℤ b
    → b <ℤ first +ℤ pos n
    → elem b existing ≡ false
    → In b (missing_from n first existing)
unfolding missing_from
missing_from-In zero b first existing lo hi e =
    elim (empty (omega (arith, lo, hi, +ℤ_parts first (pos 0)))) [ ]
  where
    empty : 0 < 0 → ⊥
    empty p = omega arith
missing_from-In (suc n) b first existing lo hi e = elim (Bool-cases (eqb_ℤ b first)) [
  | inl p ↦ at_first (eqb_ℤ→≡ b first p)
  | inr p ↦ after (
      missing_from-In n b (first +ℤ pos 1) existing
        (ground (arith, lo, p, eq_of_parts b first, +ℤ_parts first (pos 1)))
        (omega (
          arith,
          hi,
          +ℤ_parts first (pos 1),
          +ℤ_parts (first +ℤ pos 1) (pos n),
          +ℤ_parts first (pos (suc n)),
        ))
        e)
]
  where
    at_first : b ≡ first → In b (missing_from (suc n) first existing)
    at_first p = rw (subst (λ c. elem c existing ≡ false) p e) (inl p)

    after :
        In b (missing_from n (first +ℤ pos 1) existing) → In b (missing_from (suc n) first existing)
    after m = elim (Bool-cases (elem first existing)) [ inl q ↦ rw q m | inr q ↦ rw q (inr m) ]

-- The number of every row that has one.
abbrev pub blocks_of : List Extrinsic → List ℤ
blocks_of [] = []
blocks_of (r ∷ rs) = elim r.block_number [ int b ↦ b ∷ blocks_of rs | _ ↦ blocks_of rs ]

existing-elem :
    (b low high : ℤ) (rows : List Extrinsic)
    → low ≤ℤ b
    → b ≤ℤ high
    → elem b (existing_blocks low high rows) ≡ elem b (blocks_of rows)
unfolding existing_blocks elem
existing-elem b low high [] lo hi = refl
existing-elem b low high (r ∷ rs) lo hi =
    ground (arith, existing-elem b low high rs lo hi, eqb_ℤ→≡ b)

-- The list is ascending, and holds a block exactly if the block lies in [head - lookback, head] and no
-- row has its number.
pub find_missing_blocks-exact :
    (lookback head : ℤ) (rows : List Extrinsic)
    → IsAscending (find_missing_blocks lookback head rows)
      × ((b : ℤ)
          → In b (find_missing_blocks lookback head rows)
            ↔ ((head -ℤ lookback ≤ℤ b) × (b ≤ℤ head) × (elem b (blocks_of rows) ≡ false)))
unfolding find_missing_blocks
find_missing_blocks-exact lookback head rows = (
  missing_from-IsAscending count (head -ℤ lookback) existing,
  λ b. ((λ m. to b (In-missing_from count b (head -ℤ lookback) existing m)), (λ w. from b w)),
)
  where
    count : ℕ
    count = pos_part (head +ℤ pos 1 -ℤ (head -ℤ lookback))

    existing : List ℤ
    existing = existing_blocks (head -ℤ lookback) head rows

    Missing : ℤ → Type 0
    Missing b = (head -ℤ lookback ≤ℤ b) × (b ≤ℤ head) × (elem b (blocks_of rows) ≡ false)

    below : (b : ℤ) → head -ℤ lookback ≤ℤ b → b <ℤ (head -ℤ lookback) +ℤ pos count → b ≤ℤ head
    below b lo hi = ground (
      arith,
      lo,
      hi,
      +ℤ_parts (head -ℤ lookback) (pos count),
      +ℤ_parts head (pos 1),
      -ℤ_parts (head +ℤ pos 1) (head -ℤ lookback),
    )

    within : (b : ℤ) → head -ℤ lookback ≤ℤ b → b ≤ℤ head → b <ℤ (head -ℤ lookback) +ℤ pos count
    within b lo hi = ground (
      arith,
      lo,
      hi,
      +ℤ_parts (head -ℤ lookback) (pos count),
      +ℤ_parts head (pos 1),
      -ℤ_parts (head +ℤ pos 1) (head -ℤ lookback),
    )

    to :
        (b : ℤ)
        → (head -ℤ lookback ≤ℤ b)
          × (b <ℤ (head -ℤ lookback) +ℤ pos count)
          × (elem b existing ≡ false)
        → Missing b
    to b (lo, hi, e) = (
      lo,
      below b lo hi,
      sym (existing-elem b (head -ℤ lookback) head rows lo (below b lo hi)) ∙ e,
    )

    from : (b : ℤ) → Missing b → In b (missing_from count (head -ℤ lookback) existing)
    from b (lo, hi, e) =
        missing_from-In count b (head -ℤ lookback) existing lo (within b lo hi)
          (existing-elem b (head -ℤ lookback) head rows lo hi ∙ e)
