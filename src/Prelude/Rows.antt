-- ===== src/Prelude/Rows.antt =====
-- Tables of a database as lists of rows: the first row with a property, its update, and unique keys.
use Prim.Native.Nat.{suc, ◌≤◌}
use mathlib.Core.Path.{◌≡◌, refl, sym, ap, ◌∙◌}
use mathlib.Core.Logic.{inl, inr}
use mathlib.Core.Bool.{Bool, true, false}
use mathlib.Core.Option.{Option, none, some}
use mathlib.Core.List.{List, [], ◌∷◌}
use native.Mathlib.Omega.{arith}
use sentinel_tower.Prelude.Tests.{if◌then◌else◌, Bool-cases, Option-cases}
use sentinel_tower.Prelude.Lists.{length, filter}

module _ {R : Type 0} where
  -- `.filter(...).first()`
  unfoldable pub find_row : (R → Bool) → List R → Option R
  find_row p [] = none
  find_row p (r ∷ rows) = if p r then some r else find_row p rows

  -- `.filter(...).update(...)`: every row with the property is changed.
  unfoldable pub update_where : (R → Bool) → (R → R) → List R → List R
  update_where p f [] = []
  update_where p f (r ∷ rows) = (if p r then f r else r) ∷ update_where p f rows

  -- The rows after an `update_or_create`: the row that is there is changed, or a new one is added.
  unfoldable pub upsert : (R → Bool) → (R → R) → R → List R → List R
  unfolding find_row update_where
  upsert p f new rows = elim (find_row p rows) [
    | none ↦ new ∷ rows
    | some r ↦ update_where p f rows
  ]

  pub find_row-holds :
      (p : R → Bool) (rows : List R) {r : R} → find_row p rows ≡ some r → p r ≡ true
  unfolding find_row
  find_row-holds p [] e = cc
  find_row-holds p (x ∷ rows) {r} e = elim (Bool-cases (p x)) [
    | inl t ↦ same t (rw t at e)
    | inr f ↦ find_row-holds p rows (rw f at e)
  ]
    where
      same : p x ≡ true → ◌≡◌ {A = Option R} (some x) (some r) → p r ≡ true
      same t q = cc

  pub find_row-update_where :
      (p : R → Bool) (f : R → R) (rows : List R) {r : R}
      → find_row p rows ≡ some r
      → ((x : R) → p x ≡ true → p (f x) ≡ true)
      → find_row p (update_where p f rows) ≡ some (f r)
  unfolding find_row update_where
  find_row-update_where p f [] e keeps = cc
  find_row-update_where p f (x ∷ rows) {r} e keeps = elim (Bool-cases (p x)) [
    | inl t ↦ rw (t, keeps x t) (same (rw t at e))
    | inr n ↦ rw (n, n) (find_row-update_where p f rows (rw n at e) keeps)
  ]
    where
      same : ◌≡◌ {A = Option R} (some x) (some r) → ◌≡◌ {A = Option R} (some (f x)) (some (f r))
      same q = cc

  none-count : (p : R → Bool) (rows : List R) → find_row p rows ≡ none → length (filter p rows) ≡ 0
  unfolding find_row
  none-count p [] e = refl
  none-count p (x ∷ rows) e = elim (Bool-cases (p x)) [
    | inl t ↦ absurd_some (rw t at e)
    | inr f ↦ rw f (none-count p rows (rw f at e))
  ]
    where
      absurd_some : ◌≡◌ {A = Option R} (some x) none → length (filter p (x ∷ rows)) ≡ 0
      absurd_some q = cc

  count-update_where :
      (p q : R → Bool) (f : R → R) (rows : List R)
      → ((x : R) → q (f x) ≡ q x)
      → length (filter q (update_where p f rows)) ≡ length (filter q rows)
  unfolding update_where
  count-update_where p q f [] same = refl
  count-update_where p q f (x ∷ rows) same =
      let rest = count-update_where p q f rows same in
      elim (Bool-cases (p x)) [
        | inl t ↦ elim (Bool-cases (q x)) [
          | inl m ↦ rw (t, same x, m) (ap suc rest)
          | inr m ↦ rw (t, same x, m) rest
        ]
        | inr n ↦ elim (Bool-cases (q x)) [
          | inl m ↦ rw (n, m) (ap suc rest)
          | inr m ↦ rw (n, m) rest
        ]
      ]

module _ {K R : Type 0} (matches : K → R → Bool) where
  -- No key has two rows, as a unique constraint has it.
  abbrev pub IsKeyed : List R → Type 0
  IsKeyed rows = (k : K) → length (filter (matches k) rows) ≤ 1

  pub insert-IsKeyed :
      (key : K) (new : R) (rows : List R)
      → ((k : K) → matches k new ≡ true → k ≡ key)
      → find_row (matches key) rows ≡ none
      → IsKeyed rows
      → IsKeyed (new ∷ rows)
  insert-IsKeyed key new rows own e keyed k = elim (Bool-cases (matches k new)) [
    | inl t ↦ rw t (omega (arith, rw (sym (own k t)) at (none-count (matches key) rows e)))
    | inr n ↦ rw n (keyed k)
  ]

  pub update_where-IsKeyed :
      (p : R → Bool) (f : R → R) (rows : List R)
      → ((k : K) (r : R) → matches k (f r) ≡ matches k r)
      → IsKeyed rows
      → IsKeyed (update_where p f rows)
  update_where-IsKeyed p f rows same keyed k =
      omega (arith, count-update_where p (matches k) f rows (same k), keyed k)

  pub upsert-IsKeyed :
      (key : K) (f : R → R) (new : R) (rows : List R)
      → ((k : K) → matches k new ≡ true → k ≡ key)
      → ((k : K) (r : R) → matches k (f r) ≡ matches k r)
      → IsKeyed rows
      → IsKeyed (upsert (matches key) f new rows)
  unfolding upsert
  upsert-IsKeyed key f new rows own same keyed = elim (Option-cases (find_row (matches key) rows)) [
    | inl e ↦ rw (e, upsert) (insert-IsKeyed key new rows own e keyed)
    | inr (r, e) ↦ rw (e, upsert) (update_where-IsKeyed (matches key) f rows same keyed)
  ]

  -- A new row of a key without rows hides none.
  pub find_row-insert :
      (key k : K) (new : R) (rows : List R) {r : R}
      → (matches k new ≡ true → k ≡ key)
      → find_row (matches key) rows ≡ none
      → find_row (matches k) rows ≡ some r
      → find_row (matches k) (new ∷ rows) ≡ some r
  unfolding find_row
  find_row-insert key k new rows {r} own e f = elim (Bool-cases (matches k new)) [
    | inl t ↦ absurd_some (rw (sym (own t)) at e)
    | inr n ↦ rw n f
  ]
    where
      absurd_some : find_row (matches k) rows ≡ none → find_row (matches k) (new ∷ rows) ≡ some r
      absurd_some g = cc

module _ {R : Type 0} where
  -- After an `update_or_create` the row is there, changed or new.
  pub upsert-found :
      (p : R → Bool) (f : R → R) (new : R) (rows : List R) (Q : R → Type 0)
      → p new ≡ true
      → ((x : R) → p (f x) ≡ p x)
      → Q new
      → ((x : R) → Q (f x))
      → (r : R) × (find_row p (upsert p f new rows) ≡ some r) × Q r
  unfolding upsert find_row
  upsert-found p f new rows Q own same at_new at_old = elim (Option-cases (find_row p rows)) [
    | inl e ↦ rw (e, upsert) (new, rw own refl, at_new)
    | inr (r, e) ↦
        rw (e, upsert) (f r, find_row-update_where p f rows e (λ x t. same x ∙ t), at_old r)
  ]

  -- What a test finds is changed or not, but still found.
  pub find_row-update_keeps :
      (p q : R → Bool) (f : R → R) (rows : List R) {r : R}
      → ((x : R) → q (f x) ≡ q x)
      → find_row q rows ≡ some r
      → find_row q (update_where p f rows) ≡ some (if p r then f r else r)
  unfolding find_row update_where
  find_row-update_keeps p q f [] same e = cc
  find_row-update_keeps p q f (x ∷ rows) {r} same e = elim (Bool-cases (q x)) [
    | inl m ↦ first m (some_injective (rw m at e))
    | inr m ↦ later m (find_row-update_keeps p q f rows same (rw m at e))
  ]
    where
      some_injective : {x y : R} → ◌≡◌ {A = Option R} (some x) (some y) → x ≡ y
      some_injective g = cc

      first :
          q x ≡ true
          → x ≡ r
          → find_row q ((if p x then f x else x) ∷ update_where p f rows)
            ≡ some (if p r then f r else r)
      first m g = elim (Bool-cases (p x)) [
        | inl t ↦ rw (sym g, t, same x, m) refl
        | inr n ↦ rw (sym g, n, m) refl
      ]

      later :
          q x ≡ false
          → find_row q (update_where p f rows) ≡ some (if p r then f r else r)
          → find_row q ((if p x then f x else x) ∷ update_where p f rows)
            ≡ some (if p r then f r else r)
      later m g = elim (Bool-cases (p x)) [ inl t ↦ rw (t, same x, m) g | inr n ↦ rw (n, m) g ]
