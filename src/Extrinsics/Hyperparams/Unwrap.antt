-- ===== src/Extrinsics/Hyperparams/Unwrap.antt =====
-- `HYPERPARAM_FUNCTION_MAP`, `get_hyperparam_name` and `_unwrap_sudo_call` of
-- app/src/apps/extrinsics/hyperparam_service.py.
use Prim.Native.String.{String}
use text.Mathlib.Text.{◌==◌ as str_eq}
use sentinel_tower.Prelude.{◌&&◌, Option, none, some, List, [], ◌∷◌, if◌then◌else◌}
use sentinel_tower.Json.{
  Json, null, str, arr, nil, obj, Result, ok, raised, ◌>>=◌, get, get_default, iterate, is_text,
  is_null, is_dict,
}
use sentinel_tower.Extrinsics.Parse.{Extrinsic, find_arg}

abbrev pub hyperparam_function_map : List (String × String)
hyperparam_function_map =
    ("sudo_set_tempo", "tempo")
    ∷ ("sudo_set_weights_set_rate_limit", "weights_rate_limit")
    ∷ ("sudo_set_adjustment_interval", "adjustment_interval")
    ∷ ("sudo_set_target_registrations_per_interval", "target_registrations_per_interval")
    ∷ ("sudo_set_activity_cutoff", "activity_cutoff")
    ∷ ("sudo_set_max_allowed_validators", "max_allowed_validators")
    ∷ ("sudo_set_min_allowed_weights", "min_allowed_weights")
    ∷ ("sudo_set_max_weight_limit", "max_weight_limit")
    ∷ ("sudo_set_immunity_period", "immunity_period")
    ∷ ("sudo_set_min_difficulty", "min_difficulty")
    ∷ ("sudo_set_max_difficulty", "max_difficulty")
    ∷ ("sudo_set_weights_version_key", "weights_version_key")
    ∷ ("sudo_set_bonds_moving_average", "bonds_moving_average")
    ∷ ("sudo_set_commit_reveal_weights_interval", "commit_reveal_weights_interval")
    ∷ ("sudo_set_commit_reveal_weights_enabled", "commit_reveal_weights_enabled")
    ∷ ("sudo_set_alpha_values", "alpha_values")
    ∷ ("sudo_set_network_pow_registration_allowed", "pow_registration_allowed")
    ∷ ("sudo_set_network_registration_allowed", "registration_allowed")
    ∷ ("sudo_set_adjustment_alpha", "adjustment_alpha")
    ∷ ("sudo_set_min_burn", "min_burn")
    ∷ ("sudo_set_max_burn", "max_burn")
    ∷ ("sudo_set_serving_rate_limit", "serving_rate_limit")
    ∷ ("sudo_set_kappa", "kappa")
    ∷ ("sudo_set_rho", "rho")
    ∷ ("sudo_set_liquid_alpha_enabled", "liquid_alpha_enabled")
    ∷ []

unfoldable pub lookup_name : String → List (String × String) → Option String
lookup_name k [] = none
lookup_name k ((j, v) ∷ m) = if str_eq j k then some v else lookup_name k m

-- `HYPERPARAM_FUNCTION_MAP.get(call_function)`: a list or a dict is no key, which raises.
unfoldable pub get_hyperparam_name : Json → Result (Option String)
unfolding lookup_name
get_hyperparam_name (str s) = ok (lookup_name s hyperparam_function_map)
get_hyperparam_name (arr xs) = raised
get_hyperparam_name (obj fs) = raised
get_hyperparam_name _ = ok none

pub record Call : Type 0 where
  pub call_module : Json
  pub call_function : Json
  pub call_args : Json
  pub netuid : Json

-- The first argument that is named "call" and holds a dict.
unfoldable pub find_inner : List Json → Result (Option Json)
find_inner [] = ok none
find_inner (arg ∷ args) =
    let rest = find_inner args in
    do
      name ← get arg "name"
      value ← get arg "value"
      if is_text name "call" && is_dict value then ok (some value) else rest

unfoldable pub inner_netuid : Json → Json → Result Json
inner_netuid own inner_args =
    if is_null own then (do args ← iterate inner_args; find_arg "netuid" args) else ok own

unfoldable pub unwrap_sudo_call : Extrinsic → Result Call
unfolding find_inner inner_netuid
unwrap_sudo_call e =
    let own : Call = record {
      call_module = e.call_module;
      call_function = e.call_function;
      call_args = e.call_args;
      netuid = e.netuid;
    } in
    if is_text e.call_module "Sudo" && is_text e.call_function "sudo"
    then (do
      args ← iterate e.call_args
      found ← find_inner args
      elim found [
        | none ↦ ok own
        | some inner ↦ do
          inner_args ← get_default inner "call_args" (arr nil)
          netuid ← inner_netuid e.netuid inner_args
          call_module ← get_default inner "call_module" (str "")
          call_function ← get_default inner "call_function" (str "")
          ok (record {
            call_module = call_module;
            call_function = call_function;
            call_args = inner_args;
            netuid = netuid;
          })
      ])
    else ok own

-- The value of the first argument that is not the netuid.
unfoldable pub first_value : List Json → Result Json
first_value [] = ok null
first_value (arg ∷ args) =
    let rest = first_value args in
    do name ← get arg "name"; if is_text name "netuid" then rest else get arg "value"
