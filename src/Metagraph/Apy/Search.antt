-- ===== src/Metagraph/Apy/Search.antt =====
-- What a search of a table finds, where the rows are filtered or the test holds of one row at most.
use sentinel_tower.Prelude.{
  ℕ, suc, ◌≤◌, ◌≡◌, refl, sym, inl, inr, Bool, true, false, ◌&&◌, ◌||◌, none, some, List, [], ◌∷◌,
  filter, length, if◌then◌else◌, Bool-cases, arith, some_injective, none_absurd,
}
use sentinel_tower.Prelude.Rows.{find_row, update_where}
use sentinel_tower.Metagraph.Apy.{exists_row}

module _ {R : Type 0} where
  pub find_row-filter :
      (p q : R → Bool) (c : Bool) (rows : List R)
      → ((x : R) → p x ≡ true → q x ≡ c)
      → find_row p (filter q rows) ≡ (if c then find_row p rows else none)
  unfolding find_row
  find_row-filter p q true [] same = refl
  find_row-filter p q false [] same = refl
  find_row-filter p q c (x ∷ rows) same = elim (Bool-cases (p x)) [
    | inl t ↦ found c t (same x t) (find_row-filter p q c rows same)
    | inr n ↦ elim (Bool-cases (q x)) [
      | inl m ↦ rw (m, n) (find_row-filter p q c rows same)
      | inr m ↦ rw (m, n) (find_row-filter p q c rows same)
    ]
  ]
    where
      found :
          (c : Bool)
          → p x ≡ true
          → q x ≡ c
          → find_row p (filter q rows) ≡ (if c then find_row p rows else none)
          → find_row p (filter q (x ∷ rows)) ≡ (if c then find_row p (x ∷ rows) else none)
      found true t m rest = rw (m, t) refl
      found false t m rest = rw m rest

  pub exists_row-none :
      (c q : R → Bool) (rows : List R)
      → find_row c rows ≡ none
      → exists_row (λ r. c r && q r) rows ≡ false
  unfolding find_row exists_row
  exists_row-none c q [] e = refl
  exists_row-none c q (x ∷ rows) e = elim (Bool-cases (c x)) [
    | inl t ↦ none_absurd (sym (rw t at e))
    | inr n ↦ rw n (exists_row-none c q rows (rw n at e))
  ]

  pub none-of_count :
      (c : R → Bool) (rows : List R) → length (filter c rows) ≡ 0 → find_row c rows ≡ none
  unfolding find_row
  none-of_count c [] z = refl
  none-of_count c (x ∷ rows) z = elim (Bool-cases (c x)) [
    | inl t ↦ absurd (positive (length (filter c rows)) (rw t at z))
    | inr n ↦ rw n (none-of_count c rows (rw n at z))
  ]
    where
      positive : (n : ℕ) → suc n ≡ 0 → ⊥
      positive n e = omega arith

  -- Where a test holds of at most one row, a row with it and more is that row.
  pub exists_row-some :
      (c q : R → Bool) (rows : List R) {r : R}
      → length (filter c rows) ≤ 1
      → find_row c rows ≡ some r
      → exists_row (λ r. c r && q r) rows ≡ q r
  unfolding find_row exists_row
  exists_row-some c q [] le e = none_absurd e
  exists_row-some c q (x ∷ rows) {r} le e = elim (Bool-cases (c x)) [
    | inl t ↦ first t (rw t at le) (some_injective (rw t at e))
    | inr n ↦ rw n (exists_row-some c q rows (rw n at le) (rw n at e))
  ]
    where
      or_false : (b : Bool) → (b || false) ≡ b
      or_false true = refl
      or_false false = refl

      first :
          c x ≡ true
          → suc (length (filter c rows)) ≤ 1
          → x ≡ r
          → exists_row (λ r. c r && q r) (x ∷ rows) ≡ q r
      first t le e =
          rw (t, e, exists_row-none c q rows (none-of_count c rows (omega arith))) (or_false (q r))

  -- An update of other rows is not seen.
  pub find_row-update_other :
      (p q : R → Bool) (f : R → R) (rows : List R)
      → ((x : R) → q (f x) ≡ q x)
      → ((x : R) → q x ≡ true → p x ≡ false)
      → find_row q (update_where p f rows) ≡ find_row q rows
  unfolding find_row update_where
  find_row-update_other p q f [] same apart = refl
  find_row-update_other p q f (x ∷ rows) same apart = elim (Bool-cases (q x)) [
    | inl t ↦ rw (apart x t, t) refl
    | inr n ↦ elim (Bool-cases (p x)) [
      | inl m ↦ rw (m, same x, n) (find_row-update_other p q f rows same apart)
      | inr m ↦ rw (m, n) (find_row-update_other p q f rows same apart)
    ]
  ]

  pub length-filter-filter :
      (p q : R → Bool) (rows : List R) → length (filter p (filter q rows)) ≤ length (filter p rows)
  length-filter-filter p q [] = omega arith
  length-filter-filter p q (x ∷ rows) = ground (arith, length-filter-filter p q rows)
