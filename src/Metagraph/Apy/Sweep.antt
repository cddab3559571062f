-- ===== src/Metagraph/Apy/Sweep.antt =====
-- `sweep_timestamps` and `apply_retention` of app/src/apps/metagraph/services/apy_epoch_ingest.py.
use sentinel_tower.Prelude.{
  ℕ, suc, ◌≤◌, ◌≡◌, refl, sym, ap, ◌∙◌, inl, inr, Bool, true, false, not, ◌&&◌, Option, none, some,
  List, [], ◌∷◌, map, filter, length, ltb, leb, if◌then◌else◌, Bool-cases, arith, none_absurd,
}
use sentinel_tower.Prelude.Rows.{find_row, IsKeyed}
use sentinel_tower.Metagraph.Rows.{Block, is_block}
use sentinel_tower.Metagraph.Apy.{ValidatorApyEpoch, is_fact, is_set}
use sentinel_tower.Metagraph.Apy.Search.{none-of_count, length-filter-filter}

-- The time of a block, if it is known.
unfoldable pub known_time : ℕ → List Block → Option ℕ
unfolding find_row
known_time n blocks = elim (find_row (λ b. is_block n b && is_set b.timestamp) blocks) [
  | none ↦ none
  | some b ↦ b.timestamp
]

-- `SWEEP_SQL` at a fact.
unfoldable pub fill_time : List Block → ValidatorApyEpoch → ValidatorApyEpoch
unfolding known_time
fill_time blocks e = elim e.epoch_ts [
  | none ↦ record e { epoch_ts = known_time e.epoch_block blocks }
  | some t ↦ e
]

unfoldable pub is_swept : List Block → ValidatorApyEpoch → Bool
unfolding known_time
is_swept blocks e = not (is_set e.epoch_ts) && is_set (known_time e.epoch_block blocks)

unfoldable pub sweep_timestamps : List Block → List ValidatorApyEpoch → ℕ × List ValidatorApyEpoch
unfolding is_swept fill_time
sweep_timestamps blocks facts =
    (length (filter (is_swept blocks) facts), map (fill_time blocks) facts)

abbrev pub is_older : ℕ → Option ℕ → Bool
is_older before none = false
is_older before (some t) = ltb t before

abbrev pub greater : ℕ → Option ℕ → ℕ
greater n none = n
greater n (some m) = if leb m n then n else m

-- `SELECT MAX(number) ... WHERE timestamp < ...`
unfoldable pub cutoff_block : ℕ → List Block → Option ℕ
cutoff_block before [] = none
cutoff_block before (b ∷ bs) =
    let rest = cutoff_block before bs in
    if is_older before b.timestamp then some (greater b.number rest) else rest

-- `_RETENTION_DELETE_TS_SQL`, and with a cutoff `_RETENTION_DELETE_TS_AND_BLOCK_SQL`.
unfoldable pub is_expired_fact : ℕ → Option ℕ → ValidatorApyEpoch → Bool
is_expired_fact before cutoff e = elim e.epoch_ts [
  | some t ↦ ltb t before
  | none ↦ elim cutoff [ none ↦ false | some c ↦ leb e.epoch_block c ]
]

-- `before` is the moment RETENTION_DAYS ago.
unfoldable pub apply_retention :
    ℕ → List Block → List ValidatorApyEpoch → ℕ × List ValidatorApyEpoch
unfolding cutoff_block is_expired_fact
apply_retention before blocks facts =
    let cutoff = cutoff_block before blocks in
    (
      length (filter (is_expired_fact before cutoff) facts),
      filter (λ e. not (is_expired_fact before cutoff e)) facts,
    )

-- What the two make of one fact.
unfoldable pub retained : ℕ → List Block → Option ValidatorApyEpoch → Option ValidatorApyEpoch
unfolding fill_time is_expired_fact cutoff_block
retained before blocks none = none
retained before blocks (some e) =
    if is_expired_fact before (cutoff_block before blocks) (fill_time blocks e)
    then none
    else some (fill_time blocks e)

module _ {R : Type 0} where
  mapped : (R → R) → Option R → Option R
  mapped f none = none
  mapped f (some r) = some (f r)

  kept : (R → Bool) → Option R → Option R
  kept q none = none
  kept q (some r) = if q r then some r else none

  found_in_map :
      (p : R → Bool) (f : R → R) (rows : List R)
      → ((r : R) → p (f r) ≡ p r)
      → find_row p (map f rows) ≡ mapped f (find_row p rows)
  unfolding find_row mapped
  found_in_map p f [] same = refl
  found_in_map p f (x ∷ rows) same = elim (Bool-cases (p x)) [
    | inl t ↦ rw (same x, t) refl
    | inr n ↦ rw (same x, n) (found_in_map p f rows same)
  ]

  length-filter-map :
      (p : R → Bool) (f : R → R) (rows : List R)
      → ((r : R) → p (f r) ≡ p r)
      → length (filter p (map f rows)) ≡ length (filter p rows)
  length-filter-map p f [] same = refl
  length-filter-map p f (x ∷ rows) same = ground (arith, same x, length-filter-map p f rows same)

  absent_in_filter :
      (p q : R → Bool) (rows : List R) → find_row p rows ≡ none → find_row p (filter q rows) ≡ none
  unfolding find_row
  absent_in_filter p q [] e = refl
  absent_in_filter p q (x ∷ rows) e = elim (Bool-cases (p x)) [
    | inl t ↦ none_absurd (sym (rw t at e))
    | inr n ↦ elim (Bool-cases (q x)) [
      | inl m ↦ rw (m, n) (absent_in_filter p q rows (rw n at e))
      | inr m ↦ rw m (absent_in_filter p q rows (rw n at e))
    ]
  ]

  -- Where a test holds of at most one row, a deletion takes that row or leaves it.
  found_in_filter :
      (p q : R → Bool) (rows : List R)
      → length (filter p rows) ≤ 1
      → find_row p (filter q rows) ≡ kept q (find_row p rows)
  unfolding find_row kept
  found_in_filter p q [] le = refl
  found_in_filter p q (x ∷ rows) le = elim (Bool-cases (p x)) [
    | inl t ↦ elim (Bool-cases (q x)) [
      | inl m ↦ rw (t, m, t) refl
      | inr m ↦ rw (t, m) (absent_in_filter p q rows (alone (rw t at le)))
    ]
    | inr n ↦ elim (Bool-cases (q x)) [
      | inl m ↦ rw (n, m, n) (found_in_filter p q rows (rw n at le))
      | inr m ↦ rw (n, m) (found_in_filter p q rows (rw n at le))
    ]
  ]
    where
      alone : suc (length (filter p rows)) ≤ 1 → find_row p rows ≡ none
      alone le = none-of_count p rows (omega arith)

is_fact-fill_time :
    (k : ℕ × ℕ × ℕ) (blocks : List Block) (e : ValidatorApyEpoch)
    → is_fact k (fill_time blocks e) ≡ is_fact k e
unfolding fill_time
is_fact-fill_time k blocks e = ground arith

-- A sweep and a retention keep the unique constraint, and act on each fact by itself.
module _ (before : ℕ) (blocks : List Block) (facts : List ValidatorApyEpoch) where
  pub sweep_timestamps-IsKeyed :
      IsKeyed is_fact facts → IsKeyed is_fact (sweep_timestamps blocks facts).1
  unfolding sweep_timestamps
  sweep_timestamps-IsKeyed keyed k =
      rw (length-filter-map (is_fact k) (fill_time blocks) facts (is_fact-fill_time k blocks))
        (keyed k)

  pub swept-at :
      (k : ℕ × ℕ × ℕ)
      → IsKeyed is_fact facts
      → find_row (is_fact k) (apply_retention before blocks (sweep_timestamps blocks facts).1).1
        ≡ retained before blocks (find_row (is_fact k) facts)
  unfolding sweep_timestamps apply_retention retained kept mapped
  swept-at k keyed =
      found_in_filter (is_fact k) (λ e. not (is_expired_fact before (cutoff_block before blocks) e))
        (map (fill_time blocks) facts) (sweep_timestamps-IsKeyed keyed k)
      ∙ ap (kept (λ e. not (is_expired_fact before (cutoff_block before blocks) e)))
          (found_in_map (is_fact k) (fill_time blocks) facts (is_fact-fill_time k blocks))
      ∙ settled (find_row (is_fact k) facts)
    where
      flip :
          (b : Bool) (o : Option ValidatorApyEpoch)
          → (if not b then o else none) ≡ (if b then none else o)
      flip true o = refl
      flip false o = refl

      settled :
          (o : Option ValidatorApyEpoch)
          → kept
              (λ e. not (is_expired_fact before (cutoff_block before blocks) e))
              (mapped (fill_time blocks) o)
            ≡ retained before blocks o
      settled none = refl
      settled (some e) =
          flip (is_expired_fact before (cutoff_block before blocks) (fill_time blocks e))
            (some (fill_time blocks e))

  pub apply_retention-IsKeyed :
      IsKeyed is_fact facts → IsKeyed is_fact (apply_retention before blocks facts).1
  unfolding apply_retention
  apply_retention-IsKeyed keyed k = omega (
    arith,
    keyed k,
    length-filter-filter (is_fact k)
        (λ e. not (is_expired_fact before (cutoff_block before blocks) e)) facts,
  )
