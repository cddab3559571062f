-- ===== src/Metagraph/Apy/Refines.antt =====
-- One pass of app/src/apps/metagraph/services/apy_epoch_ingest.py beside a map from keys to facts.
use sentinel_tower.Prelude.{
  ℕ, ◌≤◌, ◌≡◌, refl, sym, ◌∙◌, inl, inr, Bool, true, false, not, Option, none, some, List, [], ◌∷◌,
  filter, length, if◌then◌else◌, Option-cases, arith,
}
use sentinel_tower.Prelude.Rows.{find_row, IsKeyed}
use sentinel_tower.Json.{
  Result, ok, ◌>>=◌, ok_injective, raised_absurd, Result-cases, AfterOk, AfterOk-bind, AfterOk-ok,
}
use sentinel_tower.Metagraph.Rows.{NeuronSnapshot, State, is_snapshot}
use sentinel_tower.Metagraph.Apy.{
  ValidatorApyEpoch, is_fact, Arithmetic, Source, source_of, fact_of, is_eligible, concerns,
  reconcile, reconcile_and_upsert,
}
use sentinel_tower.Metagraph.Apy.Search.{exists_row-none, exists_row-some}
use sentinel_tower.Metagraph.Apy.Ingest.{
  qualifies, merged, named, reconcile-at, updated, upsert_facts-at,
}
use sentinel_tower.Metagraph.Apy.Selected.{selected, select_facts-IsSelected}

-- What a pass leaves at a key, from the snapshot of the range that the key names, and what was there.
unfoldable pub expected :
    Arithmetic
    → State
    → Option NeuronSnapshot
    → Option ValidatorApyEpoch
    → Result (Option ValidatorApyEpoch)
unfolding source_of fact_of qualifies merged ◌>>=◌
expected ar s none old = ok old
expected ar s (some ns) old = elim (source_of s ns) [
  | none ↦ ok (if qualifies s ns then old else none)
  | some src ↦ fact_of ar ns src >>= λ f. ok (some (merged old f))
]

pub source_of-qualifies :
    (s : State) (ns : NeuronSnapshot) {src : Source}
    → source_of s ns ≡ some src
    → qualifies s ns ≡ true
unfolding source_of qualifies is_eligible
source_of-qualifies s ns e = ground arith

pub expected-unqualified :
    (ar : Arithmetic) (s : State) (ns : NeuronSnapshot) (old : Option ValidatorApyEpoch)
    → qualifies s ns ≡ false
    → expected ar s (some ns) old ≡ ok none
unfolding expected
expected-unqualified ar s ns old n = elim (Option-cases (source_of s ns)) [
  | inl e ↦ rw (e, expected, n) refl
  | inr (src, e) ↦ differ (sym (source_of-qualifies s ns e) ∙ n)
]
  where
    differ : true ≡ false → expected ar s (some ns) old ≡ ok none
    differ t = cc

pub length-filter-imp :
    {R : Type 0} (p q : R → Bool) (rows : List R)
    → ((r : R) → p r ≡ true → q r ≡ true)
    → length (filter p rows) ≤ length (filter q rows)
length-filter-imp p q [] imp = omega arith
length-filter-imp p q (r ∷ rows) imp = ground (arith, imp r, length-filter-imp p q rows imp)

module _ (range : NeuronSnapshot → Bool) (s : State) (k : ℕ × ℕ × ℕ)
    (keyed : IsKeyed is_snapshot s.snapshots.rows) where
  -- A key names one snapshot at most.
  pub named_unique : length (filter (named range s k) s.snapshots.rows) ≤ 1
  unfolding concerns
  named_unique = omega (
    arith,
    length-filter-imp (named range s k) (is_snapshot (k.1, k.2)) s.snapshots.rows of_named,
    keyed (k.1, k.2),
  )
    where
      of_named :
          (ns : NeuronSnapshot) → named range s k ns ≡ true → is_snapshot (k.1, k.2) ns ≡ true
      of_named ns e = ground arith

module _ (ar : Arithmetic) (range : NeuronSnapshot → Bool) (s : State) (k : ℕ × ℕ × ℕ)
    (keyed : IsKeyed is_snapshot s.snapshots.rows) (facts : List ValidatorApyEpoch) where
  -- The two statements together, at the key.
  step_at :
      (found : Option NeuronSnapshot) (picked : Option ValidatorApyEpoch)
      → find_row (named range s k) s.snapshots.rows ≡ found
      → selected ar s k found ≡ ok picked
      → expected ar s found (find_row (is_fact k) facts)
        ≡ ok (updated picked (find_row (is_fact k) (reconcile range s facts).1))
  unfolding expected selected updated ◌>>=◌
  step_at none picked e h =
      rw
        (
          reconcile-at range s k facts,
          exists_row-none (named range s k) (λ ns. not (qualifies s ns)) s.snapshots.rows e,
          sym (ok_injective h),
        )
        refl
  step_at (some ns) picked e h =
      rw
        (
          reconcile-at range s k facts,
          exists_row-some (named range s k) (λ ns. not (qualifies s ns)) s.snapshots.rows
              (named_unique range s k keyed) e,
        )
        (elim (Option-cases (source_of s ns)) [
          | inl g ↦
              rw (g, expected)
                (rw (sym (ok_injective (rw (g, selected) at h))) (flip (qualifies s ns)))
          | inr (src, g) ↦
              rw (g, expected) (rw (source_of-qualifies s ns g) (row src (rw (g, selected) at h)))
        ])
    where
      old : Option ValidatorApyEpoch
      old = find_row (is_fact k) facts

      flip : (b : Bool) → ok (if b then old else none) ≡ ok (if not b then none else old)
      flip true = refl
      flip false = refl

      row :
          (src : Source)
          → (fact_of ar ns src >>= λ f. ok (some f)) ≡ ok picked
          → (fact_of ar ns src >>= λ f. ok (some (merged old f))) ≡ ok (updated picked old)
      row src q = elim (Result-cases (fact_of ar ns src)) [
        | inl r ↦ raised_absurd (rw (r, ◌>>=◌) at q)
        | inr (f, r) ↦ rw (r, ◌>>=◌) (rw (sym (ok_injective (rw (r, ◌>>=◌) at q))) refl)
      ]

  -- A pass that succeeds leaves at every key what is expected there: the fact of the snapshot that the
  -- key names, if it has what a fact needs; none, if it has not; and what was there, if the range has
  -- no such snapshot.
  pub reconcile_and_upsert-Refines :
      AfterOk
        (λ r.
          expected ar s (find_row (named range s k) s.snapshots.rows) (find_row (is_fact k) facts)
          ≡ ok (find_row (is_fact k) r.1))
        (reconcile_and_upsert ar range s facts)
  unfolding reconcile_and_upsert
  reconcile_and_upsert-Refines =
      AfterOk-bind (select_facts-IsSelected ar s k range s.snapshots.rows) λ fs h. AfterOk-ok (
        rw
          (upsert_facts-at k fs (reconcile range s facts).1
            (omega (arith, h.counted, named_unique range s k keyed)))
          (step_at _ _ refl (h.picked (named_unique range s k keyed))))
