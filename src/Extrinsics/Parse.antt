-- ===== src/Extrinsics/Parse.antt =====
-- `_parse_extrinsic_record` of app/src/apps/extrinsics/block_tasks.py. A record is the dict that
-- `sync_extrinsics_to_db` builds from the SDK's `model_dump()`.
pub mod Valid
use Prim.Native.Char.{code}
use Prim.Native.String.{String}
use text.Mathlib.Text.{◌==◌ as str_eq}
use sentinel_tower.Prelude.{
  ℕ, ◌+◌, ◌≡◌, refl, Bool, true, false, not, ◌&&◌, ◌||◌, Option, none, some, List, [], ◌∷◌, leb,
  ◌==◌, if◌then◌else◌,
}
use sentinel_tower.Prelude.Int.{ℤ, pos}
use sentinel_tower.Json.{
  Json, null, str, int, arr, tup, obj, Items, nil, cons, Fields, end, Result, ok, raised, ◌>>=◌,
  get, get_default, iterate, is_text, is_null, is_dict, truthy, elements,
}
use sentinel_tower.Extrinsics.Sanitize.{sanitize_json, IsClean, sanitize_json-IsClean}

-- The dict of model fields, with the two keys that the later steps add to a copy of it.
pub record Extrinsic : Type 0 where
  pub extrinsic_hash : Json
  pub block_number : Json
  pub block_timestamp : Json
  pub extrinsic_index : Json
  pub call_module : Json
  pub call_function : Json
  pub call_args : Json
  pub address : Json
  pub signature : Json
  pub nonce : Json
  pub tip_rao : Json
  pub success : Bool
  pub status : Json
  pub error_data : Json
  pub events : Json
  pub netuid : Json
  -- `previous_values`, a dict of one entry
  pub previous_values : Option (String × Json)
  -- `_is_sudo`
  pub is_sudo : Bool

-- The loop over `call_args`: the value of the first argument with that name.
unfoldable pub find_arg : String → List Json → Result Json
find_arg name [] = ok null
find_arg name (arg ∷ args) =
    let rest = find_arg name args in
    do found ← get arg "name"; if is_text found name then get arg "value" else rest

-- The first event with that id.
unfoldable pub find_event : String → List Json → Result (Option Json)
find_event id [] = ok none
find_event id (event ∷ events) =
    let rest = find_event id events in
    do found ← get event "event_id"; if is_text found id then ok (some event) else rest

-- `attrs.get("netuid")` of a dict, `attrs[0]` of a list or tuple that is not empty, else the old value.
unfoldable pub netuid_of_attributes : Json → Json → Result Json
netuid_of_attributes (obj fs) old = get (obj fs) "netuid"
netuid_of_attributes (arr (cons x xs)) old = ok x
netuid_of_attributes (tup (cons x xs)) old = ok x
netuid_of_attributes _ old = ok old

is_register : Json → Bool
is_register call_function =
    is_text call_function "register_network"
    || is_text call_function "register_network_with_identity"

unfoldable pub netuid_from_event : Json → Json → Result Json
unfolding is_register find_event netuid_of_attributes
netuid_from_event record_ call_data = do
  call_function ← get_default call_data "call_function" (str "")
  if is_register call_function
      then (do
        events ← get_default record_ "events" (arr nil)
        list ← iterate events
        found ← find_event "NetworkAdded" list
        elim found [
          | none ↦ ok null
          | some event ↦ do attrs ← get event "attributes"; netuid_of_attributes attrs null
        ])
      else ok null

-- Netuid from the record, the call arguments, or the events.
unfoldable pub extract_netuid : Json → Json → Json → Result Json
unfolding find_arg netuid_from_event
extract_netuid record_ call_data call_args = do
  own ← get record_ "netuid"
  from_args ←
      (if is_null own then (do args ← iterate call_args; find_arg "netuid" args) else ok own)
  if is_null from_args then netuid_from_event record_ call_data else ok from_args

-- `s.lower() == "success"` reads only letters below 128, and no other letter has one of them for its
-- lower case.
abbrev lower_code : ℕ → ℕ
lower_code c = if leb 65 c && leb c 90 then c + 32 else c

unfoldable pub same_lower : String → String → Bool
same_lower String.[] String.[] = true
same_lower (String.◌∷◌ c s) (String.◌∷◌ d t) = (lower_code (code c) == code d) && same_lower s t
same_lower _ _ = false

-- `status.lower() == "success"`
unfoldable pub is_success : Json → Result Bool
unfolding same_lower
is_success (str s) = ok (same_lower s "success")
is_success _ = raised

unfoldable pub extract_error : Json → Bool → Result Json
unfolding find_event
extract_error events true = ok null
extract_error events false = do
  list ← iterate events
  found ← find_event "ExtrinsicFailed" list
  elim found [ none ↦ ok null | some event ↦ get event "attributes" ]

-- `value or ""`
abbrev pub or_empty : Json → Json
or_empty v = if truthy v then v else str ""

unfoldable pub parse_fields : Json → Json → Result (Option Extrinsic)
parse_fields record_ extrinsic_hash = do
  call_data ← get_default record_ "call" (obj end)
  call_args ← get_default call_data "call_args" (arr nil)
  netuid ← extract_netuid record_ call_data call_args
  status ← get_default record_ "status" (str "")
  success ← is_success status
  events ← get_default record_ "events" (arr nil)
  error_data ← extract_error events success
  block_number ← get_default record_ "block_number" (int (pos 0))
  timestamp ← get record_ "timestamp"
  index ← get record_ "index"
  call_module ← get_default call_data "call_module" (str "")
  call_function ← get_default call_data "call_function" (str "")
  address ← get record_ "address"
  signature ← get record_ "signature"
  nonce ← get record_ "nonce"
  tip ← get record_ "tip"
  ok (
      some (record {
        extrinsic_hash = extrinsic_hash;
        block_number = block_number;
        block_timestamp = timestamp;
        extrinsic_index = index;
        call_module = call_module;
        call_function = call_function;
        call_args = sanitize_json call_args;
        address = or_empty address;
        signature = sanitize_json signature;
        nonce = nonce;
        tip_rao = tip;
        success = success;
        status = status;
        error_data = sanitize_json error_data;
        events = sanitize_json events;
        netuid = netuid;
        previous_values = none;
        is_sudo = false;
      }))

unfoldable pub parse_extrinsic_record : Json → Result (Option Extrinsic)
parse_extrinsic_record record_ = do
  extrinsic_hash ← get_default record_ "extrinsic_hash" (str "")
  if truthy extrinsic_hash then parse_fields record_ extrinsic_hash else ok none
