-- ===== src/Metagraph/Apy/Succeeds.antt =====
-- When a pass of app/src/apps/metagraph/services/apy_epoch_ingest.py succeeds.
use sentinel_tower.Prelude.{
  ◌≡◌, refl, Bool, true, false, some, List, [], ◌∷◌, Bool-cases, Option-cases, inl, inr, arith,
}
use sentinel_tower.Prelude.Int.{ℤ, pos, ltb_ℤ}
use sentinel_tower.Json.{Succeeds, Succeeds-bind}
use sentinel_tower.Metagraph.Rows.{NeuronSnapshot, State}
use sentinel_tower.Metagraph.Apy.{
  ValidatorApyEpoch, Arithmetic, apy_expr, Source, source_of, fact_of, is_staked, select_facts,
  reconcile_and_upsert,
}

-- `ln` has a value at 1 plus a share that is not below 0.
abbrev pub HasLogarithms : Arithmetic → Type 0
HasLogarithms ar =
    (dividends stake : ℤ)
    → ltb_ℤ dividends (pos 0) ≡ false
    → ltb_ℤ (pos 0) stake ≡ true
    → Succeeds (ar.ln (ar.add "1" (ar.div (ar.of_int dividends) (ar.of_int stake))))

-- No snapshot has dividends below 0.
abbrev pub AllNonNegative : List NeuronSnapshot → Type 0
AllNonNegative [] = Unit
AllNonNegative (ns ∷ rows) =
    (ltb_ℤ ns.measures.alpha_dividends (pos 0) ≡ false) × AllNonNegative rows

source_of-is_staked :
    (s : State) (ns : NeuronSnapshot) {src : Source}
    → source_of s ns ≡ some src
    → ltb_ℤ (pos 0) ns.measures.alpha_stake ≡ true
unfolding source_of is_staked
source_of-is_staked s ns e = ground arith

module _ (ar : Arithmetic) (logarithms : HasLogarithms ar) (range : NeuronSnapshot → Bool)
    (s : State) where
  fact_of-Succeeds :
      (ns : NeuronSnapshot) (src : Source)
      → ltb_ℤ ns.measures.alpha_dividends (pos 0) ≡ false
      → source_of s ns ≡ some src
      → Succeeds (fact_of ar ns src)
  unfolding fact_of apy_expr
  fact_of-Succeeds ns src n e =
      Succeeds-bind
        (Succeeds-bind
          (logarithms ns.measures.alpha_dividends ns.measures.alpha_stake n
            (source_of-is_staked s ns e))
          λ l. (_, refl))
        λ apy. (_, refl)

  select_facts-Succeeds :
      (rows : List NeuronSnapshot) → AllNonNegative rows → Succeeds (select_facts ar range s rows)
  unfolding select_facts
  select_facts-Succeeds [] n = ([], refl)
  select_facts-Succeeds (ns ∷ rows) n =
      let rest = select_facts-Succeeds rows n.1 in
      elim (Bool-cases (range ns)) [
        | inr m ↦ rw m rest
        | inl t ↦ rw t (elim (Option-cases (source_of s ns)) [
          | inl e ↦ rw (e, select_facts) rest
          | inr (src, e) ↦
              rw (e, select_facts)
                (Succeeds-bind (fact_of-Succeeds ns src n.0 e)
                  λ f. Succeeds-bind rest λ fs. (f ∷ fs, refl))
        ])
      ]

  pub reconcile_and_upsert-Succeeds :
      AllNonNegative s.snapshots.rows
      → (facts : List ValidatorApyEpoch) → Succeeds (reconcile_and_upsert ar range s facts)
  unfolding reconcile_and_upsert
  reconcile_and_upsert-Succeeds n facts =
      Succeeds-bind (select_facts-Succeeds s.snapshots.rows n) λ fs. (_, refl)
