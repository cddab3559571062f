-- ===== src/Dagster/Parse.antt =====
-- `_parse_extrinsic_record` of app/src/project/dagster/jobs.py, beside that of
-- app/src/apps/extrinsics/block_tasks.py. It does not look for a netuid in the events.
use sentinel_tower.Prelude.{
  ◌≡◌, refl, false, Option, none, some, if◌then◌else◌, Bool-cases, inl, inr,
}
use sentinel_tower.Prelude.Int.{pos}
use sentinel_tower.Json.{
  Json, null, str, int, arr, obj, nil, end, Result, ok, raised, ◌>>=◌, get, get_default, iterate,
  is_null, truthy, AfterOk, AfterOk-ok, AfterOk-raised, Result-cases, raised_absurd,
}
use sentinel_tower.Extrinsics.Sanitize.{sanitize_json}
use sentinel_tower.Extrinsics.Parse.{
  Extrinsic, find_arg, extract_netuid, is_success, extract_error, or_empty, parse_fields,
  parse_extrinsic_record,
}

-- Netuid from the record, or the call arguments.
unfoldable pub artifact_netuid : Json → Json → Result Json
unfolding find_arg ◌>>=◌
artifact_netuid record_ call_args = do
  own ← get record_ "netuid"
  if is_null own then (do args ← iterate call_args; find_arg "netuid" args) else ok own

-- The fields of the model, once the netuid is known.
unfoldable pub fields_with : Json → Json → Json → Json → Json → Result (Option Extrinsic)
unfolding is_success extract_error sanitize_json ◌>>=◌
fields_with record_ extrinsic_hash call_data call_args netuid = do
  status ← get_default record_ "status" (str "")
  success ← is_success status
  events ← get_default record_ "events" (arr nil)
  error_data ← extract_error events success
  block_number ← get_default record_ "block_number" (int (pos 0))
  timestamp ← get record_ "timestamp"
  index ← get record_ "index"
  call_module ← get_default call_data "call_module" (str "")
  call_function ← get_default call_data "call_function" (str "")
  address ← get record_ "address"
  signature ← get record_ "signature"
  nonce ← get record_ "nonce"
  tip ← get record_ "tip"
  ok (
      some (record {
        extrinsic_hash = extrinsic_hash;
        block_number = block_number;
        block_timestamp = timestamp;
        extrinsic_index = index;
        call_module = call_module;
        call_function = call_function;
        call_args = sanitize_json call_args;
        address = or_empty address;
        signature = sanitize_json signature;
        nonce = nonce;
        tip_rao = tip;
        success = success;
        status = status;
        error_data = sanitize_json error_data;
        events = sanitize_json events;
        netuid = netuid;
        previous_values = none;
        is_sudo = false;
      }))

unfoldable pub artifact_fields : Json → Json → Result (Option Extrinsic)
unfolding artifact_netuid fields_with ◌>>=◌
artifact_fields record_ extrinsic_hash = do
  call_data ← get_default record_ "call" (obj end)
  call_args ← get_default call_data "call_args" (arr nil)
  netuid ← artifact_netuid record_ call_args
  fields_with record_ extrinsic_hash call_data call_args netuid

unfoldable pub parse_artifact_record : Json → Result (Option Extrinsic)
unfolding artifact_fields ◌>>=◌
parse_artifact_record record_ = do
  extrinsic_hash ← get_default record_ "extrinsic_hash" (str "")
  if truthy extrinsic_hash then artifact_fields record_ extrinsic_hash else ok none

abbrev pub with_netuid : Json → Option Extrinsic → Option Extrinsic
with_netuid n none = none
with_netuid n (some e) = some (record e { netuid = n })

-- Two chains of calls whose first call is the same.
module _ {B : Type 0} (w : B → B) where
  abbrev Follows : Result B → Result B → Type 0
  Follows f g = AfterOk (λ o. g ≡ ok (w o)) f

  Follows-bind :
      {A : Type 0} (r : Result A) {f g : A → Result B}
      → ((a : A) → Follows (f a) (g a))
      → Follows (r >>= f) (r >>= g)
  unfolding ◌>>=◌
  Follows-bind raised h = AfterOk-raised
  Follows-bind (ok a) h = h a

-- The fields do not depend on the netuid.
fields_with-netuid :
    (record_ extrinsic_hash call_data call_args netuid n : Json)
    → Follows
        (with_netuid n)
        (fields_with record_ extrinsic_hash call_data call_args netuid)
        (fields_with record_ extrinsic_hash call_data call_args n)
unfolding fields_with
fields_with-netuid record_ extrinsic_hash call_data call_args netuid n =
    let w = with_netuid n in
    Follows-bind w (get_default record_ "status" (str "")) λ status.
      Follows-bind w (is_success status) λ success.
        Follows-bind w (get_default record_ "events" (arr nil)) λ events.
          Follows-bind w (extract_error events success) λ error_data.
            Follows-bind w (get_default record_ "block_number" (int (pos 0))) λ block_number.
              Follows-bind w (get record_ "timestamp") λ timestamp.
                Follows-bind w (get record_ "index") λ index.
                  Follows-bind w (get_default call_data "call_module" (str "")) λ call_module.
                    Follows-bind w (get_default call_data "call_function" (str "")) λ call_function.
                      Follows-bind w (get record_ "address") λ address.
                        Follows-bind w (get record_ "signature") λ signature.
                          Follows-bind w (get record_ "nonce")
                            λ nonce. Follows-bind w (get record_ "tip") λ tip. AfterOk-ok refl

-- A netuid of the other parser comes after one of this parser.
artifact_netuid-ok :
    (record_ call_data call_args : Json) {n : Json}
    → extract_netuid record_ call_data call_args ≡ ok n
    → (m : Json) × (artifact_netuid record_ call_args ≡ ok m)
unfolding extract_netuid artifact_netuid ◌>>=◌
artifact_netuid-ok record_ call_data call_args e = elim (Result-cases (get record_ "netuid")) [
  | inl r ↦ raised_absurd (rw (r, ◌>>=◌) at e)
  | inr (own, r) ↦
      elim (Result-cases
        (if is_null own then iterate call_args >>= (λ args. find_arg "netuid" args) else ok own)) [
          | inl q ↦ raised_absurd (rw (q, ◌>>=◌) at (rw (r, ◌>>=◌) at e))
          | inr (m, q) ↦ (m, rw (r, ◌>>=◌) q)
        ]
]

-- The parser of artifacts answers as the other does, up to the netuid.
abbrev pub Agrees : Result (Option Extrinsic) → Result (Option Extrinsic) → Type 0
Agrees f g = AfterOk (λ o. (n : Json) × (g ≡ ok (with_netuid n o))) f

Agrees-bind :
    {A : Type 0} (r : Result A) {f g : A → Result (Option Extrinsic)}
    → ((a : A) → Agrees (f a) (g a))
    → Agrees (r >>= f) (r >>= g)
unfolding ◌>>=◌
Agrees-bind raised h = AfterOk-raised
Agrees-bind (ok a) h = h a

netuid-Agrees :
    (record_ extrinsic_hash call_data call_args : Json)
    → Agrees
        (extract_netuid record_ call_data call_args >>= λ n.
          fields_with record_ extrinsic_hash call_data call_args n)
        (artifact_netuid record_ call_args >>= λ n.
          fields_with record_ extrinsic_hash call_data call_args n)
unfolding ◌>>=◌
netuid-Agrees record_ extrinsic_hash call_data call_args =
    elim (Result-cases (extract_netuid record_ call_data call_args)) [
      | inl r ↦ rw (r, ◌>>=◌) AfterOk-raised
      | inr (n, r) ↦
          let m = artifact_netuid-ok record_ call_data call_args r in
          rw (r, ◌>>=◌)
            (rw (m.1, ◌>>=◌)
              (record {
                after = λ o e. (
                  m.0,
                  (fields_with-netuid record_ extrinsic_hash call_data call_args n m.0).after o e,
                );
              }))
    ]

-- Whatever record `_parse_extrinsic_record` of the blocks accepts or skips, that of the artifacts
-- accepts or skips too, and the fields that it gives are the same but for the netuid.
pub parse_artifact_record-Agrees :
    (record_ : Json) → Agrees (parse_extrinsic_record record_) (parse_artifact_record record_)
unfolding parse_extrinsic_record parse_artifact_record parse_fields artifact_fields
parse_artifact_record-Agrees record_ =
    Agrees-bind (get_default record_ "extrinsic_hash" (str "")) λ extrinsic_hash.
      elim (Bool-cases (truthy extrinsic_hash)) [
        | inr n ↦ rw n (AfterOk-ok (null, refl))
        | inl t ↦ rw t (
            Agrees-bind (get_default record_ "call" (obj end)) λ call_data.
              Agrees-bind (get_default call_data "call_args" (arr nil))
                λ call_args. netuid-Agrees record_ extrinsic_hash call_data call_args)
      ]
