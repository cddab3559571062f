-- ===== src/Retention/Batches.antt =====
-- What a batch chooses, and loops whose steps lower a measure.
use sentinel_tower.Prelude.{
  ℕ, zero, suc, ◌+◌, ◌<◌, ◌≡◌, refl, sym, subst, ap, Bool, true, false, not, List, [], ◌∷◌, map,
  filter, In, length, ◌==◌, Bool-cases, ◌⊎◌, inl, inr, arith,
}
use sentinel_tower.Retention.{is_in, take, batch, in_batch, done, prune_loop}

module _ {A : Type 0} where
  pub In-filter : (p : A → Bool) (a : A) (xs : List A) → In a (filter p xs) → In a xs × (p a ≡ true)
  In-filter p a [] i = elim i [ ]
  In-filter p a (x ∷ xs) i = elim (Bool-cases (p x)) [
    | inl e ↦ split e (λ j. In-filter p a xs j) (rw e at i)
    | inr e ↦ later (In-filter p a xs (rw e at i))
  ]
    where
      later : In a xs × (p a ≡ true) → In a (x ∷ xs) × (p a ≡ true)
      later (j, q) = (inr j, q)

      split :
          p x ≡ true
          → (In a (filter p xs) → In a xs × (p a ≡ true))
          → (a ≡ x) ⊎ In a (filter p xs)
          → In a (x ∷ xs) × (p a ≡ true)
      split e f (inl q) = (inl q, subst (λ y. p y ≡ true) (sym q) e)
      split e f (inr j) = later (f j)

  pub filter-In : (p : A → Bool) (a : A) (xs : List A) → In a xs → p a ≡ true → In a (filter p xs)
  filter-In p a [] i q = elim i [ ]
  filter-In p a (x ∷ xs) (inl e) q = rw (subst (λ y. p y ≡ true) e q) (inl e)
  filter-In p a (x ∷ xs) (inr i) q = elim (Bool-cases (p x)) [
    | inl e ↦ rw e (inr (filter-In p a xs i q))
    | inr e ↦ rw e (filter-In p a xs i q)
  ]

  pub In-take : (n : ℕ) (a : A) (xs : List A) → In a (take n xs) → In a xs
  unfolding take
  In-take zero a xs i = elim i [ ]
  In-take (suc n) a [] i = elim i [ ]
  In-take (suc n) a (x ∷ xs) (inl e) = inl e
  In-take (suc n) a (x ∷ xs) (inr i) = inr (In-take n a xs i)

  -- Two passes of a filter, the first of which drops nothing that the second keeps.
  pub filter-dropped :
      (p q : A → Bool) (xs : List A)
      → ((a : A) → In a xs → q a ≡ true → p a ≡ true)
      → filter (λ a. not (p a)) (filter (λ a. not (q a)) xs) ≡ filter (λ a. not (p a)) xs
  filter-dropped p q [] h = refl
  filter-dropped p q (x ∷ xs) h = elim (Bool-cases (q x)) [
    | inl e ↦ rw (e, h x (inl refl) e) (filter-dropped p q xs λ a i. h a (inr i))
    | inr e ↦ elim (Bool-cases (p x)) [
      | inl f ↦ rw (e, f) (filter-dropped p q xs λ a i. h a (inr i))
      | inr f ↦ rw (e, f) (ap (λ r. x ∷ r) (filter-dropped p q xs λ a i. h a (inr i)))
    ]
  ]

  -- What the first pass drops and what it leaves make up what satisfies `p`.
  pub length-dropped :
      (p q : A → Bool) (xs : List A)
      → ((a : A) → In a xs → q a ≡ true → p a ≡ true)
      → length (filter q xs) + length (filter p (filter (λ a. not (q a)) xs)) ≡ length (filter p xs)
  length-dropped p q [] h = omega arith
  length-dropped p q (x ∷ xs) h = elim (Bool-cases (q x)) [
    | inl e ↦ rw (e, h x (inl refl) e) (omega (arith, length-dropped p q xs λ a i. h a (inr i)))
    | inr e ↦ elim (Bool-cases (p x)) [
      | inl f ↦ rw (e, f) (omega (arith, length-dropped p q xs λ a i. h a (inr i)))
      | inr f ↦ rw (e, f) (length-dropped p q xs λ a i. h a (inr i))
    ]
  ]

  pub none_left :
      (p : A → Bool) (a : A) (xs : List A) → length (filter p xs) ≡ 0 → In a xs → p a ≡ true → ⊥
  none_left p a xs z i e = empty (filter p xs) z (filter-In p a xs i e)
    where
      empty : (ys : List A) → length ys ≡ 0 → In a ys → ⊥
      empty [] z j = j
      empty (y ∷ ys) z j = omega arith

  pub filter-all :
      (p : A → Bool) (xs : List A) → length (filter p xs) ≡ 0 → filter (λ a. not (p a)) xs ≡ xs
  filter-all p [] z = refl
  filter-all p (x ∷ xs) z = elim (Bool-cases (p x)) [
    | inl e ↦ absurd (length (filter p xs)) (rw e at z)
    | inr e ↦ rw e (ap (λ r. x ∷ r) (filter-all p xs (rw e at z)))
  ]
    where
      bad : (n : ℕ) → suc n ≡ 0 → ⊥
      bad n z = omega arith

      absurd : (n : ℕ) → suc n ≡ 0 → filter (λ a. not (p a)) (x ∷ xs) ≡ x ∷ xs
      absurd n z = elim (bad n z) [ ]

not_below_zero : (n : ℕ) → n < 0 → ⊥
not_below_zero n lt = omega arith

eq_sound : (n m : ℕ) → (n == m) ≡ true → n ≡ m
eq_sound n m e = ground arith

eq_refl : (n : ℕ) → (n == n) ≡ true
eq_refl n = ground arith

module _ {R : Type 0} (row_id : R → ℕ) where
  -- No two rows have the same id, which is the primary key.
  abbrev pub Keyed : List R → Type 0
  Keyed rows = (r s : R) → In r rows → In s rows → row_id r ≡ row_id s → r ≡ s

  pub is_in-map :
      (n : ℕ) (rows : List R)
      → is_in n (map row_id rows) ≡ true
      → (r : R) × In r rows × (n ≡ row_id r)
  unfolding is_in
  is_in-map n [] e = cc
  is_in-map n (r ∷ rows) e = elim (Bool-cases (n == row_id r)) [
    | inl f ↦ (r, inl refl, eq_sound n (row_id r) f)
    | inr f ↦ later (is_in-map n rows (rw f at e))
  ]
    where
      later : ((s : R) × In s rows × (n ≡ row_id s)) → (s : R) × In s (r ∷ rows) × (n ≡ row_id s)
      later (s, i, q) = (s, inr i, q)

  pub map-is_in : (r : R) (rows : List R) → In r rows → is_in (row_id r) (map row_id rows) ≡ true
  unfolding is_in
  map-is_in r [] i = elim i [ ]
  map-is_in r (s ∷ rows) (inl e) = rw (sym e, eq_refl (row_id r)) refl
  map-is_in r (s ∷ rows) (inr i) = elim (Bool-cases (row_id r == row_id s)) [
    | inl f ↦ rw f refl
    | inr f ↦ rw f (map-is_in r rows i)
  ]

-- What ORDER BY does with the rows: none is lost and none is added.
abbrev pub Reorders : {R : Type 0} → (List R → List R) → Type 0
Reorders {R} order =
    (rows : List R) (r : R) → (In r (order rows) → In r rows) × (In r rows → In r (order rows))

module _ {R : Type 0} (row_id : R → ℕ) (order : List R → List R) (p : R → Bool) (size : ℕ)
    (reorders : Reorders order) where
  -- A row of a batch has expired.
  pub in_batch-expired :
      (rows : List R)
      → Keyed row_id rows
      → (r : R) → In r rows
      → in_batch row_id order p size rows r ≡ true
      → p r ≡ true
  unfolding in_batch batch
  in_batch-expired rows keyed r i e =
      go (is_in-map row_id (row_id r) (take size (order (filter p rows))) e)
    where
      go : ((s : R) × In s (take size (order (filter p rows))) × (row_id r ≡ row_id s)) → p r ≡ true
      go (s, j, q) = same (
          In-filter p s rows
            ((reorders (filter p rows) s).0 (In-take size s (order (filter p rows)) j)))
        where
          same : In s rows × (p s ≡ true) → p r ≡ true
          same (k, t) = subst (λ a. p a ≡ true) (sym (keyed r s i k q)) t

  -- A batch of a table with an expired row has a row of it.
  pub in_batch-some :
      (rows : List R) (r : R)
      → In r rows
      → p r ≡ true
      → 0 < size
      → (s : R) × In s rows × (in_batch row_id order p size rows s ≡ true)
  unfolding in_batch batch take
  in_batch-some rows r i e positive =
      go size positive (order (filter p rows)) refl
        ((reorders (filter p rows) r).1 (filter-In p r rows i e))
    where
      go :
          (n : ℕ)
          → 0 < n
          → (chosen : List R) → order (filter p rows) ≡ chosen
          → In r chosen
          → (s : R) × In s rows
            × (is_in (row_id s) (map row_id (take n (order (filter p rows)))) ≡ true)
      go zero lt chosen q j = elim (not_below_zero 0 lt) [ ]
      go (suc n) lt [] q j = elim j [ ]
      go (suc n) lt (s ∷ chosen) q j = (
        s,
        (In-filter p s rows ((reorders (filter p rows) s).0 (rw q (inl refl)))).0,
        rw q (map-is_in row_id s (s ∷ take n chosen) (inl refl)),
      )

-- A loop whose step keeps an invariant and lowers a measure by its count, which is 0 only where the
-- measure is, ends within a fuel above the measure, where the measure is 0.
module _ {S : Type 0} (step : S → ℕ × S) (Inv : S → Type 0) (measure : S → ℕ)
    (keeps : (s : S) → Inv s → Inv (step s).1)
    (lowers : (s : S) → Inv s → (step s).0 + measure (step s).1 ≡ measure s)
    (stops : (s : S) → Inv s → (step s).0 ≡ 0 → measure s ≡ 0) where
  pub prune_loop-done :
      (fuel : ℕ) (s : S)
      → Inv s
      → measure s < fuel
      → (final : S) × (prune_loop step false fuel s ≡ done final) × Inv final × (measure final ≡ 0)
  unfolding prune_loop
  prune_loop-done zero s inv lt = elim (not_below_zero (measure s) lt) [ ]
  prune_loop-done (suc fuel) s inv lt =
      go (step s).0 refl (λ l. prune_loop-done fuel (step s).1 (keeps s inv) l)
    where
      Result : Type 0
      Result =
          (final : S) × (prune_loop step false (suc fuel) s ≡ done final)
          × Inv final
          × (measure final ≡ 0)

      go :
          (n : ℕ)
          → (step s).0 ≡ n
          → (measure (step s).1 < fuel
              → (final : S) × (prune_loop step false fuel (step s).1 ≡ done final)
                × Inv final
                × (measure final ≡ 0))
          → Result
      go zero e rest = (
        (step s).1,
        rw (e, prune_loop) refl,
        keeps s inv,
        omega (arith, lowers s inv, stops s inv e),
      )
      go (suc n) e rest = take_on (rest (omega (arith, lowers s inv)))
        where
          take_on :
              ((final : S) × (prune_loop step false fuel (step s).1 ≡ done final)
                × Inv final
                × (measure final ≡ 0))
              → Result
          take_on (final, f, i, z) = (final, rw (e, prune_loop) f, i, z)
