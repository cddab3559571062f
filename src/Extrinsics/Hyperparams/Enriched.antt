-- ===== src/Extrinsics/Hyperparams/Enriched.antt =====
-- What enriching one extrinsic reports and stores.
use Prim.Native.String.{String}
use sentinel_tower.Prelude.{
  ℕ, ◌≡◌, false, Option, some, arith, if◌then◌else◌, Bool-cases, inl, inr, ◌&&◌,
}
use sentinel_tower.Json.{Json, ok}
use sentinel_tower.Extrinsics.Parse.{Extrinsic}
use sentinel_tower.Extrinsics.Hyperparams.{
  Store, same_key, find, value_or_null, get_previous_value, update_hyperparam, record_change,
  apply_change, change_of, enrich_extrinsic_with_previous_values,
}
use sentinel_tower.Extrinsics.Hyperparams.History.{find-put_value}

module _ (to_column : Json → Option ℕ) where
  record_change_tables :
      (e : Extrinsic) (netuid : Json) (p : String) (v : Json) (n : ℕ) (s : Store)
      → to_column netuid ≡ some n
      → (m : ℕ) (q : String)
      → find m q (record_change to_column e netuid p v s).1.params
        ≡ (if e.success && same_key n p m q then some v else find m q s.params)
  unfolding record_change update_hyperparam
  record_change_tables e netuid p v n s found m q =
      rw (found, record_change)
        (elim (Bool-cases e.success) [
          | inl t ↦ simp t (find-put_value n m p q v e.block_number s.params)
          | inr f ↦ simp f
        ])

  record_change_reports :
      (e : Extrinsic) (netuid : Json) (p : String) (v : Json) (n : ℕ) (s : Store)
      → to_column netuid ≡ some n
      → (record_change to_column e netuid p v s).0
        ≡ ok (record e { previous_values = some (p, value_or_null (find n p s.params)) })
  unfolding record_change update_hyperparam get_previous_value
  record_change_reports e netuid p v n s found =
      rw (found, record_change) (elim (Bool-cases e.success) [ inl t ↦ simp t | inr f ↦ simp f ])

  -- An extrinsic that changes a parameter is reported with the value stored before it, whether it
  -- succeeded or not, and only a success changes a stored value: that of this netuid and name.
  pub enrich_extrinsic-reports :
      (e : Extrinsic) (netuid : Json) (p : String) (v : Json) (n : ℕ) (s : Store)
      → change_of e ≡ ok (some (netuid, p, v))
      → to_column netuid ≡ some n
      → ((enrich_extrinsic_with_previous_values to_column e s).0
          ≡ ok (record e { previous_values = some (p, value_or_null (find n p s.params)) }))
        × ((m : ℕ) (q : String)
            → find m q (enrich_extrinsic_with_previous_values to_column e s).1.params
              ≡ (if e.success && same_key n p m q then some v else find m q s.params))
  unfolding enrich_extrinsic_with_previous_values apply_change
  enrich_extrinsic-reports e netuid p v n s change found =
      rw (change, apply_change)
        (record_change_reports e netuid p v n s found, record_change_tables e netuid p v n s found)

  -- A failed extrinsic leaves both tables as they are, whatever it is.
  pub enrich_extrinsic-failed :
      (e : Extrinsic) (s : Store)
      → e.success ≡ false
      → (enrich_extrinsic_with_previous_values to_column e s).1 ≡ s
  unfolding enrich_extrinsic_with_previous_values apply_change record_change
  enrich_extrinsic-failed e s f = ground arith
