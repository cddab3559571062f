-- ===== src/Metagraph/Apy/Found.antt =====
-- Rows that a test finds, or that a deletion leaves.
use sentinel_tower.Prelude.{
  suc, ◌≤◌, ◌≡◌, refl, sym, ap, subst, inl, inr, Bool, true, false, not, none, some, List, [], ◌∷◌,
  filter, length, In, Bool-cases, arith, none_absurd,
}
use sentinel_tower.Prelude.Rows.{find_row}
use sentinel_tower.Metagraph.Apy.Search.{none-of_count}

module _ {R : Type 0} where
  pub not_found :
      (p : R → Bool) (r : R) (rows : List R) → In r rows → p r ≡ true → find_row p rows ≡ none → ⊥
  unfolding find_row
  not_found p r [] i own e = i
  not_found p r (x ∷ rows) (inl q) own e =
      none_absurd (sym (rw (subst (λ y. p y ≡ true) q own) at e))
  not_found p r (x ∷ rows) (inr i) own e = elim (Bool-cases (p x)) [
    | inl t ↦ none_absurd (sym (rw t at e))
    | inr n ↦ not_found p r rows i own (rw n at e)
  ]

  -- Where a test holds of at most one row, it finds that row.
  pub found_alone :
      (p : R → Bool) (r : R) (rows : List R)
      → In r rows
      → p r ≡ true
      → length (filter p rows) ≤ 1
      → find_row p rows ≡ some r
  unfolding find_row
  found_alone p r [] i own le = elim i [ ]
  found_alone p r (x ∷ rows) (inl q) own le = rw (subst (λ y. p y ≡ true) q own) (ap some (sym q))
  found_alone p r (x ∷ rows) (inr i) own le = elim (Bool-cases (p x)) [
    | inl t ↦ absurd (not_found p r rows i own (alone (rw t at le)))
    | inr n ↦ rw n (found_alone p r rows i own (rw n at le))
  ]
    where
      alone : suc (length (filter p rows)) ≤ 1 → find_row p rows ≡ none
      alone le = none-of_count p rows (omega arith)

  -- A deletion of no row.
  pub filter_all :
      (p : R → Bool) (rows : List R)
      → ((r : R) → In r rows → p r ≡ false)
      → (length (filter p rows) ≡ 0) × (filter (λ r. not (p r)) rows ≡ rows)
  filter_all p [] none_of = (refl, refl)
  filter_all p (x ∷ rows) none_of = rw (none_of x (inl refl)) (
    (filter_all p rows (λ r i. none_of r (inr i))).0,
    ap (λ l. x ∷ l) (filter_all p rows (λ r i. none_of r (inr i))).1,
  )
