-- ===== src/Extrinsics/Hyperparams.antt =====
-- app/src/apps/extrinsics/hyperparam_service.py: the current value of each hyperparameter of a subnet,
-- and the history of its changes.
pub mod Unwrap
pub mod History
pub mod Enriched
use Unwrap.{unwrap_sudo_call, first_value, get_hyperparam_name}
use Prim.Native.String.{String}
use text.Mathlib.Text.{◌==◌ as str_eq}
use sentinel_tower.Prelude.{
  ℕ, Bool, true, false, ◌&&◌, ◌||◌, not, Option, none, some, List, [], ◌∷◌, ◌==◌, if◌then◌else◌,
}
use sentinel_tower.Json.{Json, null, Result, ok, raised, ◌>>=◌, is_text, is_null, iterate}
use sentinel_tower.Extrinsics.Parse.{Extrinsic}

-- A row of SubnetHyperparam, which is unique by netuid and name.
pub record Row : Type 0 where
  pub netuid : ℕ
  pub param_name : String
  pub value : Json
  pub last_block_number : Json

-- A row of SubnetHyperparamHistory.
pub record Entry : Type 0 where
  pub netuid : ℕ
  pub param_name : String
  pub old_value : Json
  pub new_value : Json
  pub block_number : Json
  pub extrinsic_hash : Json
  pub address : Json
  pub success : Bool

-- The two tables; the newest entry of the history stands first.
pub record Store : Type 0 where
  pub params : List Row
  pub history : List Entry

unfoldable pub same_key : ℕ → String → ℕ → String → Bool
same_key n p m q = (n == m) && str_eq p q

unfoldable pub find : ℕ → String → List Row → Option Json
unfolding same_key
find n p [] = none
find n p (r ∷ rs) = if same_key r.netuid r.param_name n p then some r.value else find n p rs

-- `record.value = value; record.last_block_number = block_number; record.save()`
unfoldable pub save : ℕ → String → Json → Json → List Row → List Row
unfolding same_key
save n p v b [] = []
save n p v b (r ∷ rs) =
    if same_key r.netuid r.param_name n p
    then record r { value = v; last_block_number = b } ∷ rs
    else r ∷ save n p v b rs

abbrev value_or_null : Option Json → Json
value_or_null none = null
value_or_null (some v) = v

unfoldable pub get_previous_value : ℕ → String → Store → Json
unfolding find
get_previous_value n p s = value_or_null (find n p s.params)

-- The rows after `get_or_create` and, if the row was there, its `save`.
unfoldable pub put_value : ℕ → String → Json → Json → List Row → List Row
unfolding find save
put_value n p v b rows = elim (find n p rows) [
  | none ↦ record { netuid = n; param_name = p; value = v; last_block_number = b } ∷ rows
  | some old ↦ save n p v b rows
]

-- Returns the previous value and the new tables.
unfoldable pub update_hyperparam :
    ℕ → String → Json → Json → Json → Json → Bool → Store → Json × Store
unfolding get_previous_value put_value
update_hyperparam n p v block hash address success s =
    let previous = get_previous_value n p s in
    (
      previous,
      record {
        params = put_value n p v block s.params;
        history =
            record {
              netuid = n;
              param_name = p;
              old_value = previous;
              new_value = v;
              block_number = block;
              extrinsic_hash = hash;
              address = address;
              success = success;
            }
            ∷ s.history;
      },
    )

-- The change that an extrinsic makes: netuid, name and value; `none` where the source returns early.
unfoldable pub change_of : Extrinsic → Result (Option (Json × String × Json))
unfolding unwrap_sudo_call first_value get_hyperparam_name
change_of e = do
  call ← unwrap_sudo_call e
  if not (is_text call.call_module "AdminUtils") || is_null call.netuid then ok none else (do
    name ← get_hyperparam_name call.call_function
    elim name [
      | none ↦ ok none
      | some param ↦ do
        args ← iterate call.call_args
        value ← first_value args
        ok (if is_null value then none else some (call.netuid, param, value))
    ])

abbrev prepend : Extrinsic → Result (List Extrinsic) → Result (List Extrinsic)
prepend e raised = raised
prepend e (ok es) = ok (e ∷ es)

-- An exception ends the loop with the tables as they are then.
unfoldable pub continue :
    Result Extrinsic → Store → Result (List Extrinsic) × Store → Result (List Extrinsic) × Store
continue raised t rest = (raised, t)
continue (ok e) t (es, u) = (prepend e es, u)

-- Django's conversion of a value for the netuid column; `none` is an exception.
module _ (to_column : Json → Option ℕ) where
  -- The part of `enrich_extrinsic_with_previous_values` once the parameter's name and value are known.
  unfoldable pub record_change : Extrinsic → Json → String → Json → Store → Result Extrinsic × Store
  record_change e netuid param new_value s = elim (to_column netuid) [
    | none ↦ (raised, s)
    | some n ↦
        if e.success
        then (let (previous, t) =
              update_hyperparam n param new_value e.block_number e.extrinsic_hash e.address true
                s in
            (ok (record e { previous_values = some (param, previous) }), t))
        else (ok (record e { previous_values = some (param, get_previous_value n param s) }), s)
  ]

  -- What the source does with that change.
  unfoldable pub apply_change :
      Extrinsic → Result (Option (Json × String × Json)) → Store → Result Extrinsic × Store
  apply_change e raised s = (raised, s)
  apply_change e (ok none) s = (ok e, s)
  apply_change e (ok (some (netuid, param, value))) s = record_change e netuid param value s

  unfoldable pub enrich_extrinsic_with_previous_values :
      Extrinsic → Store → Result Extrinsic × Store
  enrich_extrinsic_with_previous_values e s = apply_change e (change_of e) s

  -- The list comprehension: in order, up to the first exception.
  unfoldable pub enrich_extrinsics_with_previous_values :
      List Extrinsic → Store → Result (List Extrinsic) × Store
  unfolding continue
  enrich_extrinsics_with_previous_values [] s = (ok [], s)
  enrich_extrinsics_with_previous_values (e ∷ es) s =
      let (first, t) = enrich_extrinsic_with_previous_values e s in
      continue first t (enrich_extrinsics_with_previous_values es t)
