-- ===== src/Extrinsics/Parse/Valid.antt =====
-- What every record that `_parse_extrinsic_record` accepts satisfies.
use sentinel_tower.Prelude.{
  ◌≡◌, ◌∙◌, subst, Option, List, Bool, true, some, none, refl, arith, if◌then◌else◌, Bool-cases,
  inl, inr,
}
use sentinel_tower.Json.{
  Json, null, str, Result, ok, raised, ◌>>=◌, truthy, get_default, get, is_null, iterate,
}
use sentinel_tower.Extrinsics.Sanitize.{sanitize_json, IsClean, sanitize_json-IsClean}
use sentinel_tower.Extrinsics.Parse.{
  Extrinsic, parse_fields, parse_extrinsic_record, extract_error, extract_netuid, find_arg,
  netuid_from_event,
}

-- What is promised of an accepted record.
pub record IsValid (e : Extrinsic) : Type 0 where
  pub hashed : truthy e.extrinsic_hash ≡ true
  pub clean_args : IsClean e.call_args
  pub clean_signature : IsClean e.signature
  pub clean_error : IsClean e.error_data
  pub clean_events : IsClean e.events
  pub no_error : e.success ≡ true → e.error_data ≡ null

-- What an accepted record satisfies; a skipped one and an exception satisfy it.
data Ensures (P : Extrinsic → Type 0) : Result (Option Extrinsic) → Type 0 where
  accepted : {e : Extrinsic} → P e → Ensures P (ok (some e))
  skipped : Ensures P (ok none)
  failed : Ensures P raised

module _ {P : Extrinsic → Type 0} where
  Ensures-bind :
      {A : Type 0} {m : Result A} {f : A → Result (Option Extrinsic)}
      → ((a : A) → m ≡ ok a → Ensures P (f a))
      → Ensures P (m >>= f)
  unfolding ◌>>=◌
  Ensures-bind {m = ok a} h = h a refl
  Ensures-bind {m = raised} h = failed

  Ensures-eq : {r : Result (Option Extrinsic)} {e : Extrinsic} → Ensures P r → r ≡ ok (some e) → P e
  Ensures-eq (accepted {e = d} v) p = subst P (unwrap p) v
    where
      unwrap :
          {a b : Extrinsic}
          → ◌≡◌ {A = Result (Option Extrinsic)} (ok (some a)) (ok (some b))
          → a ≡ b
      unwrap q = cc
  Ensures-eq skipped p = cc
  Ensures-eq failed p = cc

Ensures-map :
    {P Q : Extrinsic → Type 0} {r : Result (Option Extrinsic)}
    → ((e : Extrinsic) → P e → Q e)
    → Ensures P r
    → Ensures Q r
Ensures-map f (accepted {e = e} v) = accepted (f e v)
Ensures-map f skipped = skipped
Ensures-map f failed = failed

error_of_success :
    (events : Json) (s : Bool) (error : Json)
    → extract_error events s ≡ ok error
    → s ≡ true
    → sanitize_json error ≡ null
unfolding extract_error sanitize_json
error_of_success events s error h e = ground arith

abbrev clean : (v : Json) → IsClean (sanitize_json v)
clean v = (sanitize_json-IsClean v).0

parse_fields-Ensures :
    (r h : Json)
    → truthy h ≡ true
    → Ensures (λ e. IsValid e × (e.extrinsic_hash ≡ h)) (parse_fields r h)
unfolding parse_fields
parse_fields-Ensures r h hashed = Ensures-bind λ call_data _. Ensures-bind λ call_args _.
    Ensures-bind λ netuid _. Ensures-bind λ status _. Ensures-bind λ success _.
      Ensures-bind λ events _. Ensures-bind λ error_data found. Ensures-bind λ block_number _.
        Ensures-bind λ timestamp _. Ensures-bind λ index _. Ensures-bind λ call_module _.
          Ensures-bind λ call_function _. Ensures-bind λ address _. Ensures-bind λ signature _.
            Ensures-bind λ nonce _. Ensures-bind λ tip _. accepted (
              record {
                hashed = hashed;
                clean_args = clean call_args;
                clean_signature = clean signature;
                clean_error = clean error_data;
                clean_events = clean events;
                no_error = error_of_success events success error_data found;
              },
              refl,
            )

-- A record that is accepted has a hash that is not empty, and no error data if it counts as a success;
-- its arguments, signature, error and events have no NUL in the texts of lists and dict values, at any
-- depth. Of the keys of dicts and of the items of tuples nothing is said.
pub parse_extrinsic_record-IsValid :
    (r : Json) {e : Extrinsic} → parse_extrinsic_record r ≡ ok (some e) → IsValid e
unfolding parse_extrinsic_record
parse_extrinsic_record-IsValid r = Ensures-eq {P = IsValid} (
    Ensures-bind λ h _. elim (Bool-cases (truthy h)) [
      | inl t ↦ rw t (Ensures-map (λ e v. v.0) (parse_fields-Ensures r h t))
      | inr f ↦ rw f skipped
    ])

-- The hash of an accepted record is the record's.
pub parse_extrinsic_record-hash :
    (r h : Json) {e : Extrinsic}
    → get_default r "extrinsic_hash" (str "") ≡ ok h
    → parse_extrinsic_record r ≡ ok (some e)
    → e.extrinsic_hash ≡ h
unfolding parse_extrinsic_record
parse_extrinsic_record-hash r h p = Ensures-eq {P = λ e. e.extrinsic_hash ≡ h} (
    Ensures-bind λ k q. elim (Bool-cases (truthy k)) [
      | inl t ↦ rw t (Ensures-map (λ e v. v.1 ∙ same k q) (parse_fields-Ensures r k t))
      | inr f ↦ rw f skipped
    ])
  where
    same : (k : Json) → get_default r "extrinsic_hash" (str "") ≡ ok k → k ≡ h
    same k q = cc

-- The netuid: the record's own if it has one, else that of the first argument named so, if it has
-- one, else what the events of a registration give.
pub extract_netuid_order :
    (r call_data : Json) (call_args own : Json) (args : List Json) (from_args : Json)
    → get r "netuid" ≡ ok own
    → iterate call_args ≡ ok args
    → find_arg "netuid" args ≡ ok from_args
    → extract_netuid r call_data call_args ≡ (
        if is_null own
        then (if is_null from_args then netuid_from_event r call_data else ok from_args)
        else ok own)
unfolding extract_netuid ◌>>=◌
extract_netuid_order r call_data call_args own args from_args p q s =
    elim (Bool-cases (is_null own)) [ inl e ↦ simp (p, e, q, s) | inr e ↦ simp (p, e) ]
