-- ===== src/Metagraph/Apy/Selected.antt =====
-- The rows that the SELECT of app/src/apps/metagraph/services/apy_epoch_ingest.py gives, seen at a key.
use sentinel_tower.Prelude.{
  ℕ, ◌≤◌, ◌≡◌, refl, sym, ap, inl, inr, ◌==◌, Bool, true, false, ◌&&◌, Option, none, some, List, [],
  ◌∷◌, filter, length, Bool-cases, Option-cases, arith, none_absurd,
}
use sentinel_tower.Prelude.Rows.{find_row}
use sentinel_tower.Json.{
  Result, ok, ◌>>=◌, ok_injective, raised_absurd, Result-cases, AfterOk, AfterOk-bind, AfterOk-ok,
}
use sentinel_tower.Metagraph.Rows.{NeuronSnapshot, State}
use sentinel_tower.Metagraph.Sync.Keyed.{whatever}
use sentinel_tower.Metagraph.Apy.{
  ValidatorApyEpoch, is_fact, Arithmetic, apy_expr, tempo_of, neuron_of, Source, source_of, fact_of,
  concerns, select_facts,
}
use sentinel_tower.Metagraph.Apy.Search.{none-of_count}
use sentinel_tower.Metagraph.Apy.Ingest.{named}

-- The joined neuron is the neuron of the snapshot.
source_of-neuron :
    (s : State) (ns : NeuronSnapshot) {src : Source}
    → source_of s ns ≡ some src
    → neuron_of s ns ≡ some src.neuron
unfolding source_of
source_of-neuron s ns {src} e = ground arith

module _ (ar : Arithmetic) (s : State) (k : ℕ × ℕ × ℕ) where
  fact_of-names :
      (ns : NeuronSnapshot) (src : Source) {f : ValidatorApyEpoch}
      → fact_of ar ns src ≡ ok f
      → is_fact k f
        ≡ ((k.0 == src.neuron.subnet_id) && (k.1 == ns.neuron_id) && (k.2 == ns.block_id))
  unfolding fact_of ◌>>=◌
  fact_of-names ns src {f} e =
      elim (Result-cases (
        apy_expr ar (tempo_of src.dump src.subnet) ns.measures.alpha_stake
          ns.measures.alpha_dividends)) [
            | inl r ↦ raised_absurd (rw (r, ◌>>=◌) at e)
            | inr (apy, r) ↦ ap (is_fact k) (sym (ok_injective (rw (r, ◌>>=◌) at e)))
          ]

  fact_of-concerns :
      (ns : NeuronSnapshot) (src : Source) {f : ValidatorApyEpoch}
      → source_of s ns ≡ some src
      → fact_of ar ns src ≡ ok f
      → is_fact k f ≡ concerns s k ns
  unfolding concerns
  fact_of-concerns ns src e h = rw (source_of-neuron s ns e, concerns) (fact_of-names ns src h)

  -- What the SELECT gives for the snapshot that a key names.
  unfoldable pub selected : Option NeuronSnapshot → Result (Option ValidatorApyEpoch)
  unfolding source_of fact_of ◌>>=◌
  selected none = ok none
  selected (some ns) = elim (source_of s ns) [
    | none ↦ ok none
    | some src ↦ fact_of ar ns src >>= λ f. ok (some f)
  ]

  module _ (range : NeuronSnapshot → Bool) where
    -- The rows of the SELECT with the key, seen from the snapshots that it names.
    pub record IsSelected (rows : List NeuronSnapshot) (fs : List ValidatorApyEpoch) : Type 0 where
      pub counted : length (filter (is_fact k) fs) ≤ length (filter (named range s k) rows)
      pub absent : find_row (named range s k) rows ≡ none → find_row (is_fact k) fs ≡ none
      pub picked :
          length (filter (named range s k) rows) ≤ 1
          → selected (find_row (named range s k) rows) ≡ ok (find_row (is_fact k) fs)

    module _ (ns : NeuronSnapshot) (rows : List NeuronSnapshot) (fs : List ValidatorApyEpoch)
        (h : IsSelected rows fs) where
      unnamed-IsSelected : named range s k ns ≡ false → IsSelected (ns ∷ rows) fs
      unfolding find_row
      unnamed-IsSelected n = record {
        counted = rw n h.counted;
        absent = rw n h.absent;
        picked = rw n h.picked;
      }

      sourceless-IsSelected : source_of s ns ≡ none → IsSelected (ns ∷ rows) fs
      unfolding find_row selected
      sourceless-IsSelected e = elim (Bool-cases (named range s k ns)) [
        | inr n ↦ unnamed-IsSelected n
        | inl t ↦ record {
          counted = rw t (omega (arith, h.counted));
          absent = λ g. none_absurd (sym (rw t at g));
          picked = λ le. rw t (
              rw (e, selected)
                (ap ok (
                  sym (
                    h.absent (none-of_count (named range s k) rows (omega (arith, rw t at le)))))));
        }
      ]

      sourced-IsSelected :
          (src : Source) (f : ValidatorApyEpoch)
          → range ns ≡ true
          → source_of s ns ≡ some src
          → fact_of ar ns src ≡ ok f
          → IsSelected (ns ∷ rows) (f ∷ fs)
      unfolding find_row selected ◌>>=◌
      sourced-IsSelected src f inside e g = elim (Bool-cases (concerns s k ns)) [
        | inl t ↦ record {
          counted = rw (inside, t, fact_of-concerns ns src e g, t) (omega (arith, h.counted));
          absent = λ q. none_absurd (sym (rw (inside, t) at q));
          picked = λ le.
              rw (inside, t, fact_of-concerns ns src e g, t)
                (rw (e, selected) (rw (g, ◌>>=◌) refl));
        }
        | inr n ↦ record {
          counted = rw (inside, n, fact_of-concerns ns src e g, n) h.counted;
          absent = rw (inside, n, fact_of-concerns ns src e g, n) h.absent;
          picked = rw (inside, n, fact_of-concerns ns src e g, n) h.picked;
        }
      ]

    pub select_facts-IsSelected :
        (rows : List NeuronSnapshot) → AfterOk (IsSelected rows) (select_facts ar range s rows)
    unfolding select_facts find_row selected ◌>>=◌
    select_facts-IsSelected [] =
        AfterOk-ok (record { counted = omega arith; absent = λ e. refl; picked = λ le. refl })
    select_facts-IsSelected (ns ∷ rows) =
        let rest = select_facts-IsSelected rows in
        elim (Bool-cases (range ns)) [
          | inr n ↦ rw n (weaken rest (λ fs h. unnamed-IsSelected ns rows fs h (rw n refl)))
          | inl inside ↦ rw inside (elim (Option-cases (source_of s ns)) [
            | inl e ↦
                rw (e, select_facts) (weaken rest (λ fs h. sourceless-IsSelected ns rows fs h e))
            | inr (src, e) ↦
                rw (e, select_facts)
                  (AfterOk-bind (whatever (fact_of ar ns src)) λ f g.
                    AfterOk-bind rest
                      λ fs h. AfterOk-ok (sourced-IsSelected ns rows fs h src f inside e g))
          ])
        ]
      where
        weaken :
            {P Q : List ValidatorApyEpoch → Type 0} {r : Result (List ValidatorApyEpoch)}
            → AfterOk P r
            → ((fs : List ValidatorApyEpoch) → P fs → Q fs)
            → AfterOk Q r
        weaken h k = record { after = λ fs e. k fs (h.after fs e) }
