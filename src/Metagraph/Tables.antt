-- ===== src/Metagraph/Tables.antt =====
-- Tables whose rows get their numbers from a sequence, as Django's `get_or_create` and
-- `QuerySet.update` change them: the database side of app/src/apps/metagraph/services/key_cache.py.
use sentinel_tower.Prelude.{
  ℕ, suc, ◌≡◌, refl, inl, inr, Bool, true, false, Option, none, some, List, [], ◌∷◌, if◌then◌else◌,
  Bool-cases,
}
use sentinel_tower.Prelude.Rows.{find_row, update_where}

-- The rows, and the number of the next one.
pub record Table (R : Type 0) : Type 0 where
  pub rows : List R
  pub next_id : ℕ

module _ {R : Type 0} where
  unfoldable pub insert : (ℕ → R) → Table R → Table R
  insert new t = record { rows = new t.next_id ∷ t.rows; next_id = suc t.next_id }

  -- The row that is there, or a new one; whether it is new, and the table afterwards.
  unfoldable pub get_or_create : (R → Bool) → (ℕ → R) → Table R → R × Bool × Table R
  unfolding find_row insert
  get_or_create p new t = elim (find_row p t.rows) [
    | none ↦ (new t.next_id, true, insert new t)
    | some r ↦ (r, false, t)
  ]

  -- A change of the row that a test finds, or a new row; and the table afterwards.
  unfoldable pub update_or_create : (R → Bool) → (R → R) → (ℕ → R) → Table R → R × Table R
  unfolding find_row update_where insert
  update_or_create p f new t = elim (find_row p t.rows) [
    | none ↦ (new t.next_id, insert new t)
    | some r ↦ (f r, record t { rows = update_where p f t.rows })
  ]

  -- What a column of the row that a test finds is.
  unfoldable pub column_of : (R → ℕ) → (R → Bool) → List R → Option ℕ
  column_of c q [] = none
  column_of c q (r ∷ rows) = if q r then some (c r) else column_of c q rows

  pub column_of-found :
      (c : R → ℕ) (q : R → Bool) (rows : List R) {r : R}
      → find_row q rows ≡ some r
      → column_of c q rows ≡ some (c r)
  unfolding find_row column_of
  column_of-found c q [] e = cc
  column_of-found c q (x ∷ rows) {r} e = elim (Bool-cases (q x)) [
    | inl t ↦ rw t (same (rw t at e))
    | inr n ↦ rw n (column_of-found c q rows (rw n at e))
  ]
    where
      same : ◌≡◌ {A = Option R} (some x) (some r) → ◌≡◌ {A = Option ℕ} (some (c x)) (some (c r))
      same p = cc

  pub column_of-none :
      (c : R → ℕ) (q : R → Bool) (rows : List R)
      → find_row q rows ≡ none
      → column_of c q rows ≡ none
  unfolding find_row column_of
  column_of-none c q [] e = refl
  column_of-none c q (x ∷ rows) e = elim (Bool-cases (q x)) [
    | inl t ↦ absurd_some (rw t at e)
    | inr n ↦ rw n (column_of-none c q rows (rw n at e))
  ]
    where
      absurd_some : ◌≡◌ {A = Option R} (some x) none → column_of c q (x ∷ rows) ≡ none
      absurd_some p = cc

  -- An update of other columns is not seen.
  pub column_of-update_where :
      (c : R → ℕ) (q p : R → Bool) (f : R → R) (rows : List R)
      → ((x : R) → (q (f x) ≡ q x) × (c (f x) ≡ c x))
      → column_of c q (update_where p f rows) ≡ column_of c q rows
  unfolding column_of update_where
  column_of-update_where c q p f [] keeps = refl
  column_of-update_where c q p f (x ∷ rows) keeps = elim (Bool-cases (p x)) [
    | inl t ↦ rw (t, (keeps x).0, (keeps x).1, column_of-update_where c q p f rows keeps) refl
    | inr n ↦ rw (n, column_of-update_where c q p f rows keeps) refl
  ]
