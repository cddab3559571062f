-- ===== src/Notifications/Unwrap.antt =====
-- `unwrap_sudo_call` and `event_netuid` of app/src/apps/notifications/base.py.
use sentinel_tower.Prelude.{true, ◌&&◌, none, some, if◌then◌else◌}
use sentinel_tower.Json.{
  Json, null, arr, tup, nil, cons, obj, Result, ok, ◌>>=◌, get, get_default, iterate, is_text,
}
use sentinel_tower.Extrinsics.Parse.{Extrinsic}
use sentinel_tower.Extrinsics.Hyperparams.Unwrap.{find_inner, inner_netuid}

-- Returns the extrinsic with the inner call in place of the Sudo call, marked as such.
unfoldable pub unwrap_sudo_call : Extrinsic → Result Extrinsic
unfolding find_inner inner_netuid
unwrap_sudo_call e =
    if is_text e.call_module "Sudo" && is_text e.call_function "sudo"
    then (do
      args ← iterate e.call_args
      found ← find_inner args
      elim found [
        | none ↦ ok e
        | some inner ↦ do
          inner_args ← get_default inner "call_args" (arr nil)
          netuid ← inner_netuid e.netuid inner_args
          call_module ← get_default inner "call_module" e.call_module
          call_function ← get_default inner "call_function" e.call_function
          ok (record e {
            call_module = call_module;
            call_function = call_function;
            call_args = inner_args;
            netuid = netuid;
            is_sudo = true;
          })
      ])
    else ok e

-- A named dict, a list or tuple by position, or the bare value.
unfoldable pub attributes_netuid : Json → Result Json
attributes_netuid (obj fs) = get (obj fs) "netuid"
attributes_netuid (arr nil) = ok null
attributes_netuid (arr (cons x xs)) = ok x
attributes_netuid (tup nil) = ok null
attributes_netuid (tup (cons x xs)) = ok x
attributes_netuid v = ok v

unfoldable pub event_netuid : Json → Result Json
unfolding attributes_netuid
event_netuid event = do attrs ← get event "attributes"; attributes_netuid attrs
