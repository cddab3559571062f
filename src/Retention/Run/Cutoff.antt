-- ===== src/Retention/Run/Cutoff.antt =====
-- The cutoff blocks.
use sentinel_tower.Prelude.{
  ℕ, ◌≤◌, ◌≡◌, refl, sym, subst, Bool, true, false, Option, none, some, List, [], ◌∷◌, In, leb,
  arith, inl, inr, Bool-cases,
}
use sentinel_tower.Retention.Run.{Block, is_before, newer, compute_cutoff_block}

module _ (now days : ℕ) where
  -- A cutoff is the number of an old block, and no old block has a greater number; if there is none,
  -- no block is old.
  abbrev pub IsNewest : List Block → Option ℕ → Type 0
  IsNewest blocks none = (b : Block) → In b blocks → is_before now days b ≡ false
  IsNewest blocks (some n) =
      ((b : Block) × In b blocks × (is_before now days b ≡ true) × (b.number ≡ n))
      × ((b : Block) → In b blocks → is_before now days b ≡ true → b.number ≤ n)

  at_most : (b c : Block) (m n : ℕ) → m ≤ n → c ≡ b → b.number ≡ m → c.number ≤ n
  at_most b c m n l e q = subst (λ k. k.number ≤ n) (sym e) (omega (arith, q, l))

  add_old :
      (b : Block) (bs : List Block) (o : Option ℕ)
      → is_before now days b ≡ true
      → IsNewest bs o
      → IsNewest (b ∷ bs) (newer b.number o)
  unfolding newer
  add_old b bs none e h = (
    (b, inl refl, e, refl),
    λ c i p. elim i [
      | inl q ↦ at_most b c b.number b.number (omega arith) q refl
      | inr j ↦ elim (clash (h c j) p) [ ]
    ],
  )
    where
      clash : {x : Bool} → x ≡ false → x ≡ true → ⊥
      clash p q = cc
  add_old b bs (some m) e (w, h) = elim (Bool-cases (leb m b.number)) [
    | inl l ↦ rw l (
      (b, inl refl, e, refl),
      λ c i p. elim i [
        | inl q ↦ at_most b c b.number b.number (omega arith) q refl
        | inr j ↦ below m b.number c.number l (h c j p)
      ],
    )
    | inr l ↦ rw l (
      later w,
      λ c i p. elim i [
        | inl q ↦ at_most b c b.number m (above m b.number l) q refl
        | inr j ↦ h c j p
      ],
    )
  ]
    where
      below : (m n k : ℕ) → leb m n ≡ true → k ≤ m → k ≤ n
      below m n k l h = ground arith

      above : (m n : ℕ) → leb m n ≡ false → n ≤ m
      above m n l = ground arith

      later :
          ((c : Block) × In c bs × (is_before now days c ≡ true) × (c.number ≡ m))
          → (c : Block) × In c (b ∷ bs) × (is_before now days c ≡ true) × (c.number ≡ m)
      later (c, i, p, q) = (c, inr i, p, q)

  add_new :
      (b : Block) (bs : List Block) (o : Option ℕ)
      → is_before now days b ≡ false
      → IsNewest bs o
      → IsNewest (b ∷ bs) o
  add_new b bs none e h =
      λ c i. elim i [ inl q ↦ subst (λ k. is_before now days k ≡ false) (sym q) e | inr j ↦ h c j ]
  add_new b bs (some m) e (w, h) = (
    later w,
    λ c i p. elim i [
      | inl q ↦ elim (clash (subst (λ k. is_before now days k ≡ true) q p)) [ ]
      | inr j ↦ h c j p
    ],
  )
    where
      clash : is_before now days b ≡ true → ⊥
      clash p = cc

      later :
          ((c : Block) × In c bs × (is_before now days c ≡ true) × (c.number ≡ m))
          → (c : Block) × In c (b ∷ bs) × (is_before now days c ≡ true) × (c.number ≡ m)
      later (c, i, p, q) = (c, inr i, p, q)

  -- The cutoff of a window is the greatest number of a block that is older than it, and there is none
  -- exactly if no block is older.
  compute_cutoff_block-IsNewest :
      (blocks : List Block) → IsNewest blocks (compute_cutoff_block now days blocks)
  unfolding compute_cutoff_block
  compute_cutoff_block-IsNewest [] = λ b i. elim i [ ]
  compute_cutoff_block-IsNewest (b ∷ bs) = elim (Bool-cases (is_before now days b)) [
    | inl e ↦
        rw e (add_old b bs (compute_cutoff_block now days bs) e (compute_cutoff_block-IsNewest bs))
    | inr e ↦
        rw e (add_new b bs (compute_cutoff_block now days bs) e (compute_cutoff_block-IsNewest bs))
  ]
