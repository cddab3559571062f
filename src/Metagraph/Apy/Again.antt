-- ===== src/Metagraph/Apy/Again.antt =====
-- A pass of app/src/apps/metagraph/services/apy_epoch_ingest.py over facts that a pass has left.
use text.Mathlib.TextPositions.{eq_refl}
use sentinel_tower.Prelude.{
  ℕ, ◌≤◌, ◌≡◌, refl, sym, ap, ◌∙◌, inl, inr, Bool, false, not, Option, none, some, List, [], ◌∷◌,
  filter, length, In, Bool-cases, Option-cases, arith,
}
use sentinel_tower.Prelude.Rows.{find_row, IsKeyed, insert-IsKeyed, update_where-IsKeyed}
use sentinel_tower.Json.{
  ok, ◌>>=◌, ok_injective, raised_absurd, Result-cases, AfterOk, AfterOk-bind, AfterOk-ok,
}
use sentinel_tower.Metagraph.Rows.{NeuronSnapshot, State, is_snapshot}
use sentinel_tower.Metagraph.Sync.Keyed.{whatever}
use sentinel_tower.Metagraph.Apy.{
  ValidatorApyEpoch, is_fact, Arithmetic, disqualifies, exists_row, reconcile, select_facts,
  differs, overwrite, key_of, upsert_fact, upsert_facts, reconcile_and_upsert,
}
use sentinel_tower.Metagraph.Apy.Search.{length-filter-filter, exists_row-none, exists_row-some}
use sentinel_tower.Metagraph.Apy.Ingest.{
  merged, is_fact-overwrite, is_fact-key_of, is_fact_self, updated, named, qualifies,
  disqualifies-named, exists_row-same, upsert_facts-at,
}
use sentinel_tower.Metagraph.Apy.Selected.{select_facts-IsSelected, IsSelected}
use sentinel_tower.Metagraph.Apy.Refines.{
  expected, expected-unqualified, named_unique, reconcile_and_upsert-Refines,
}
use sentinel_tower.Metagraph.Apy.Found.{not_found, found_alone, filter_all}

upsert_fact-IsKeyed :
    (f : ValidatorApyEpoch) (facts : List ValidatorApyEpoch)
    → IsKeyed is_fact facts
    → IsKeyed is_fact (upsert_fact f facts).1
unfolding upsert_fact
upsert_fact-IsKeyed f facts keyed = elim (Option-cases (find_row (is_fact (key_of f)) facts)) [
  | inl e ↦
      rw (e, upsert_fact)
        (insert-IsKeyed is_fact (key_of f) f facts (λ k own. is_fact-key_of k f own) e keyed)
  | inr (e, found) ↦
      rw (found, upsert_fact)
        (elim (Bool-cases (differs e f)) [
          | inl t ↦ rw t (
              update_where-IsKeyed is_fact (is_fact (key_of f)) (overwrite f) facts
                (λ k x. is_fact-overwrite k f x) keyed)
          | inr n ↦ rw n keyed
        ])
]

upsert_facts-IsKeyed :
    (fs facts : List ValidatorApyEpoch)
    → IsKeyed is_fact facts
    → IsKeyed is_fact (upsert_facts fs facts).1
unfolding upsert_facts
upsert_facts-IsKeyed [] facts keyed = keyed
upsert_facts-IsKeyed (f ∷ fs) facts keyed =
    upsert_facts-IsKeyed fs (upsert_fact f facts).1 (upsert_fact-IsKeyed f facts keyed)

-- A pass keeps the unique constraint of the facts.
pub reconcile_and_upsert-IsKeyed :
    (ar : Arithmetic) (range : NeuronSnapshot → Bool) (s : State) (facts : List ValidatorApyEpoch)
    → IsKeyed is_fact facts
    → AfterOk (λ r. IsKeyed is_fact r.1) (reconcile_and_upsert ar range s facts)
unfolding reconcile_and_upsert reconcile
reconcile_and_upsert-IsKeyed ar range s facts keyed =
    AfterOk-bind (whatever (select_facts ar range s s.snapshots.rows)) λ fs e. AfterOk-ok (
      upsert_facts-IsKeyed fs (reconcile range s facts).1 λ k. omega (
        arith,
        keyed k,
        length-filter-filter (is_fact k)
            (λ e. not (exists_row (disqualifies range s e) s.snapshots.rows)) facts,
      ))

-- A fact that an upsert has written differs no more.
differs-merged :
    (old : Option ValidatorApyEpoch) (f : ValidatorApyEpoch) → differs (merged old f) f ≡ false
unfolding differs merged overwrite
differs-merged none f = ground (arith, eq_refl f.apy_pct)
differs-merged (some e) f = elim (Bool-cases (differs e f)) [
  | inl t ↦ rw t (ground (arith, eq_refl f.apy_pct))
  | inr n ↦ rw n n
]

upsert_facts_again :
    (fs facts : List ValidatorApyEpoch)
    → ((f : ValidatorApyEpoch)
        → In f fs
        → (e : ValidatorApyEpoch) × (find_row (is_fact (key_of f)) facts ≡ some e)
          × (differs e f ≡ false))
    → upsert_facts fs facts ≡ (0, facts)
unfolding upsert_facts upsert_fact
upsert_facts_again [] facts same = refl
upsert_facts_again (f ∷ fs) facts same =
    rw
      (
        (same f (inl refl)).1,
        upsert_fact,
        (same f (inl refl)).2,
        upsert_facts_again fs facts (λ g i. same g (inr i)),
      )
      refl

module _ (ar : Arithmetic) (range : NeuronSnapshot → Bool) (s : State)
    (keyed : IsKeyed is_snapshot s.snapshots.rows) (facts : List ValidatorApyEpoch) where
  none_disqualified :
      (final : List ValidatorApyEpoch)
      → ((k : ℕ × ℕ × ℕ)
          → expected ar s (find_row (named range s k) s.snapshots.rows) (find_row (is_fact k) facts)
            ≡ ok (find_row (is_fact k) final))
      → (e : ValidatorApyEpoch) → In e final
      → exists_row (disqualifies range s e) s.snapshots.rows ≡ false
  unfolding expected
  none_disqualified final meets e i =
      exists_row-same range s (key_of e) _ _ s.snapshots.rows
        (λ ns. disqualifies-named range s (key_of e) e ns (is_fact_self e))
      ∙ elim (Option-cases (find_row (named range s (key_of e)) s.snapshots.rows)) [
        | inl g ↦ exists_row-none (named range s (key_of e)) _ s.snapshots.rows g
        | inr (ns, g) ↦
            exists_row-some (named range s (key_of e)) (λ ns. not (qualifies s ns)) s.snapshots.rows
              (named_unique range s (key_of e) keyed) g
            ∙ elim (Bool-cases (qualifies s ns)) [
              | inl t ↦ ap not t
              | inr n ↦ absurd (
                  not_found (is_fact (key_of e)) e final i (is_fact_self e) (
                    sym (
                      ok_injective (
                        sym (expected-unqualified ar s ns (find_row (is_fact (key_of e)) facts) n)
                        ∙ rw g at (meets (key_of e))))))
            ]
      ]

  module _ (fs : List ValidatorApyEpoch)
      (h : (k : ℕ × ℕ × ℕ) → IsSelected ar s k range s.snapshots.rows fs) where
    -- Each row of the SELECT is in the facts afterwards, up to its time.
    all_merged :
        (f : ValidatorApyEpoch)
        → In f fs
        → (e : ValidatorApyEpoch) × (find_row
              (is_fact (key_of f))
              (upsert_facts fs (reconcile range s facts).1).1
            ≡ some e)
          × (differs e f ≡ false)
    unfolding updated
    all_merged f i =
        let old = find_row (is_fact (key_of f)) (reconcile range s facts).1 in
        let one : length (filter (is_fact (key_of f)) fs) ≤ 1 =
          omega (arith, (h (key_of f)).counted, named_unique range s (key_of f) keyed) in
        (
          merged old f,
          upsert_facts-at (key_of f) fs (reconcile range s facts).1 one
              ∙ ap (λ o. updated o old)
                  (found_alone (is_fact (key_of f)) f fs i (is_fact_self f) one),
          differs-merged old f,
        )

  -- A pass over tables that a pass has just read deletes nothing, writes nothing, and leaves every fact
  -- as it is.
  pub reconcile_and_upsert_again :
      AfterOk
        (λ r. reconcile_and_upsert ar range s r.1 ≡ ok ((0, 0), r.1))
        (reconcile_and_upsert ar range s facts)
  unfolding reconcile_and_upsert ◌>>=◌
  reconcile_and_upsert_again = record {
    after = λ r e. elim (Result-cases (select_facts ar range s s.snapshots.rows)) [
      | inl g ↦ raised_absurd (rw (g, ◌>>=◌) at e)
      | inr (fs, g) ↦
          settled fs g r.1 (ap (λ x. x.1) (ok_injective (rw (g, ◌>>=◌) at e)))
            (λ k. (reconcile_and_upsert-Refines ar range s k keyed facts).after r e)
    ];
  }
    where
      settled :
          (fs : List ValidatorApyEpoch)
          → select_facts ar range s s.snapshots.rows ≡ ok fs
          → (final : List ValidatorApyEpoch)
          → (upsert_facts fs (reconcile range s facts).1).1 ≡ final
          → ((k : ℕ × ℕ × ℕ)
              → expected ar s
                  (find_row (named range s k) s.snapshots.rows)
                  (find_row (is_fact k) facts)
                ≡ ok (find_row (is_fact k) final))
          → reconcile_and_upsert ar range s final ≡ ok ((0, 0), final)
      settled fs g final q meets =
          let gone =
            filter_all (λ e. exists_row (disqualifies range s e) s.snapshots.rows) final
              (none_disqualified final meets) in
          let same = upsert_facts_again fs final λ f i. rw (sym q) (
            all_merged fs (λ k. (select_facts-IsSelected ar s k range s.snapshots.rows).after fs g)
              f i) in
          rw (g, ◌>>=◌, gone.0, gone.1, same) refl
