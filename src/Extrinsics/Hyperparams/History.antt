-- ===== src/Extrinsics/Hyperparams/History.antt =====
-- The stored values agree with the history, and each entry starts from the value before it.
use Prim.Native.String.{String}
use text.Mathlib.TextEquality.{eq_iff}
use sentinel_tower.Prelude.{
  ℕ, ◌≡◌, ap, Bool, Option, none, some, List, [], ◌∷◌, arith, if◌then◌else◌, Bool-cases,
  Option-cases, inl, inr,
}
use sentinel_tower.Json.{Json, Result, ok, raised}
use sentinel_tower.Extrinsics.Parse.{Extrinsic}
use sentinel_tower.Extrinsics.Hyperparams.{
  Row, Entry, Store, same_key, find, save, value_or_null, get_previous_value, put_value,
  update_hyperparam, record_change, apply_change, change_of, enrich_extrinsic_with_previous_values,
  continue, enrich_extrinsics_with_previous_values,
}

-- The value that the newest entry for a key set.
unfoldable pub latest : ℕ → String → List Entry → Option Json
unfolding same_key
latest n p [] = none
latest n p (e ∷ es) = if same_key e.netuid e.param_name n p then some e.new_value else latest n p es

abbrev pub IsChained : List Entry → Type 0
IsChained [] = Unit
IsChained (e ∷ es) = (e.old_value ≡ value_or_null (latest e.netuid e.param_name es)) × IsChained es

pub record IsConsistent (s : Store) : Type 0 where
  pub agree : (n : ℕ) (p : String) → find n p s.params ≡ latest n p s.history
  pub chained : IsChained s.history

module _ (n m : ℕ) (p q : String) (v b : Json) where
  find-save :
      (rows : List Row)
      → find m q (save n p v b rows) ≡ (
          if same_key n p m q
          then elim (find n p rows) [ none ↦ none | some old ↦ some v ]
          else find m q rows)
  unfolding find save
  find-save [] = ground arith
  find-save (r ∷ rs) =
      ground (arith, find-save rs, eq_iff r.param_name p, eq_iff r.param_name q, eq_iff p q)

  pub find-put_value :
      (rows : List Row)
      → find m q (put_value n p v b rows) ≡ (if same_key n p m q then some v else find m q rows)
  unfolding put_value
  find-put_value rows = elim (Option-cases (find n p rows)) [
    | inl e ↦ rw (e, put_value)
    | inr (old, e) ↦ rw (e, put_value) (rw (find-save rows, e))
  ]

-- Every change keeps the tables consistent.
update_hyperparam-IsConsistent :
    (n : ℕ) (p : String) (v b h a : Json) (ok? : Bool) (s : Store)
    → IsConsistent s
    → IsConsistent (update_hyperparam n p v b h a ok? s).1
update_hyperparam-IsConsistent n p v b h a ok? s c = record {
  agree = λ m q. unfold update_hyperparam latest in rw find-put_value (rw c.agree);
  chained =
      unfold update_hyperparam get_previous_value in (ap value_or_null (c.agree n p), c.chained);
}

module _ (to_column : Json → Option ℕ) where
  record_change-IsConsistent :
      (e : Extrinsic) (netuid : Json) (p : String) (v : Json) (s : Store)
      → IsConsistent s
      → IsConsistent (record_change to_column e netuid p v s).1
  unfolding record_change
  record_change-IsConsistent e netuid p v s c = elim (Option-cases (to_column netuid)) [
    | inl none_left ↦ rw (none_left, record_change) c
    | inr (n, found) ↦
        rw (found, record_change)
          (elim (Bool-cases e.success) [
            | inl t ↦ simp t (update_hyperparam-IsConsistent n p v _ _ _ _ s c)
            | inr f ↦ simp f c
          ])
  ]

  apply_change-IsConsistent :
      (e : Extrinsic) (r : Result (Option (Json × String × Json))) (s : Store)
      → IsConsistent s
      → IsConsistent (apply_change to_column e r s).1
  unfolding apply_change
  apply_change-IsConsistent e raised s c = c
  apply_change-IsConsistent e (ok none) s c = c
  apply_change-IsConsistent e (ok (some (netuid, p, v))) s c =
      record_change-IsConsistent e netuid p v s c

  enrich-IsConsistent :
      (e : Extrinsic) (s : Store)
      → IsConsistent s
      → IsConsistent (enrich_extrinsic_with_previous_values to_column e s).1
  unfolding enrich_extrinsic_with_previous_values
  enrich-IsConsistent e s c = apply_change-IsConsistent e (change_of e) s c

  -- Whatever the extrinsics, and also when an exception ends the loop, the stored value of every
  -- parameter stays the newest one of its history, and each entry's old value stays the value set by
  -- the entry before it.
  pub enrich_extrinsics-IsConsistent :
      (es : List Extrinsic) (s : Store)
      → IsConsistent s
      → IsConsistent (enrich_extrinsics_with_previous_values to_column es s).1
  unfolding enrich_extrinsics_with_previous_values
  enrich_extrinsics-IsConsistent [] s c = c
  enrich_extrinsics-IsConsistent (e ∷ es) s c =
      let (first, t) = enrich_extrinsic_with_previous_values to_column e s in
      go first t (enrich_extrinsics_with_previous_values to_column es t) (enrich-IsConsistent e s c)
        (enrich_extrinsics-IsConsistent es t (enrich-IsConsistent e s c))
    where
      go :
          (first : Result Extrinsic) (t : Store) (rest : Result (List Extrinsic) × Store)
          → IsConsistent t
          → IsConsistent rest.1
          → IsConsistent (continue first t rest).1
      go raised t rest c d = c
      go (ok f) t (es, u) c d = d
