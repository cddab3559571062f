-- ===== src/Notifications/Registry.antt =====
-- app/src/apps/notifications/registry.py. The registry is a list of handlers in registration order; a
-- dict keyed by handlers is the list of its entries, in insertion order.
pub mod Classify
pub mod Partition
pub mod Totals
use Prim.Native.String.{String}
use text.Mathlib.Text.{◌==◌ as str_eq}
use sentinel_tower.Prelude.{
  ℕ, ◌+◌, Bool, true, false, not, ◌&&◌, ◌||◌, Option, none, some, List, [], ◌∷◌, ◌++◌, map,
  if◌then◌else◌,
}
use sentinel_tower.Json.{Json, str, Result, ok, raised, ◌>>=◌, get_default, is_text}
use sentinel_tower.Extrinsics.Parse.{Extrinsic}
use sentinel_tower.Notifications.Patterns.{matches}
use sentinel_tower.Notifications.Unwrap.{unwrap_sudo_call}
use sentinel_tower.Notifications.Channels.{Outbox}

-- A registered object: its patterns, and the `notify` of its class.
pub record Handler (E : Type 0) : Type 0 where
  pub patterns : List String
  pub notify : ℕ → List E → Outbox → Result ℕ × Outbox

-- The entries of `handler_groups`.
abbrev pub Groups : Type 0 → Type 0
Groups E = List (Handler E × List E)

module _ {E I : Type 0} (value : I → E) (match : I → Handler E → Bool) where
  -- The inner loop over the handlers: the item is added to the group of the first that matches. Says
  -- whether there is one.
  unfoldable pub place : I → Groups E → Bool × Groups E
  place item [] = (false, [])
  place item ((h, members) ∷ groups) =
      let (found, others) = place item groups in
      if match item h
      then (true, (h, members ++ value item ∷ []) ∷ groups)
      else (found, (h, members) ∷ others)

  -- The outer loop. An item that no handler matches is kept apart if `caught` holds of it.
  unfoldable pub classify : (I → Bool) → List I → Groups E × List E → Groups E × List E
  unfolding place
  classify caught [] (groups, rest) = (groups, rest)
  classify caught (item ∷ items) (groups, rest) =
      let (found, groups') = place item groups in
      classify caught items
        (groups', if found then rest else if caught item then rest ++ value item ∷ [] else rest)

-- `handler.extrinsics == ["Sudo"]`
abbrev is_sudo_only : List String → Bool
is_sudo_only [] = false
is_sudo_only (p ∷ []) = str_eq p "Sudo"
is_sudo_only (p ∷ q ∷ ps) = false

abbrev last_of : Option (Handler Extrinsic) → Handler Extrinsic → Option (Handler Extrinsic)
last_of none h = some h
last_of (some later) h = some later

-- The groups of the specific handlers, empty, and the catch-all, the last one if there are several.
unfoldable pub first_pass : List (Handler Extrinsic) → Groups Extrinsic × Option (Handler Extrinsic)
first_pass [] = ([], none)
first_pass (h ∷ hs) =
    let (groups, sudo_handler) = first_pass hs in
    if is_sudo_only h.patterns
    then (groups, last_of sudo_handler h)
    else ((h, []) ∷ groups, sudo_handler)

-- Each extrinsic beside its unwrapped form.
unfoldable pub unwrap_all : List Extrinsic → Result (List (Extrinsic × Extrinsic))
unwrap_all [] = ok []
unwrap_all (e ∷ es) = do
  unwrapped ← unwrap_sudo_call e
  others ← unwrap_all es
  ok ((e, unwrapped) ∷ others)

unfoldable pub match_extrinsic : Extrinsic × Extrinsic → Handler Extrinsic → Bool
match_extrinsic (original, unwrapped) h =
    matches h.patterns unwrapped.call_module unwrapped.call_function

unfoldable pub is_sudo_call : Extrinsic × Extrinsic → Bool
is_sudo_call (original, unwrapped) = unwrapped.is_sudo || is_text original.call_module "Sudo"

abbrev pub original_of : Extrinsic × Extrinsic → Extrinsic
original_of (original, unwrapped) = original

-- `if sudo_handler and unmatched_sudo: handler_groups[sudo_handler] = unmatched_sudo`
unfoldable pub with_catch_all :
    Option (Handler Extrinsic) → Groups Extrinsic × List Extrinsic → Groups Extrinsic
with_catch_all none (groups, unmatched) = groups
with_catch_all (some h) (groups, []) = groups
with_catch_all (some h) (groups, e ∷ es) = groups ++ (h, e ∷ es) ∷ []

-- An exception of a handler is logged, and counts nothing.
abbrev pub count_of : Result ℕ → ℕ
count_of raised = 0
count_of (ok n) = n

module _ {E : Type 0} (block : ℕ) where
  -- The last loop: every group that is not empty is notified, whatever became of the others.
  unfoldable pub notify_groups : Groups E → Outbox → ℕ × Outbox
  notify_groups [] box = (0, box)
  notify_groups ((h, []) ∷ groups) box = notify_groups groups box
  notify_groups ((h, e ∷ es) ∷ groups) box =
      let (result, box') = h.notify block (e ∷ es) box in
      let (others, box'') = notify_groups groups box' in (count_of result + others, box'')

-- The groups that `dispatch_block_notifications` notifies.
unfoldable pub extrinsic_groups :
    List (Handler Extrinsic) → List (Extrinsic × Extrinsic) → Groups Extrinsic
unfolding first_pass classify with_catch_all
extrinsic_groups registry pairs =
    let (groups, sudo_handler) = first_pass registry in
    with_catch_all sudo_handler
      (classify original_of match_extrinsic is_sudo_call pairs (groups, []))

unfoldable pub dispatch_block_notifications :
    List (Handler Extrinsic) → ℕ → List Extrinsic → Outbox → Result ℕ × Outbox
dispatch_block_notifications registry block [] box = (ok 0, box)
dispatch_block_notifications registry block (e ∷ es) box = elim (unwrap_all (e ∷ es)) [
  | raised ↦ (raised, box)
  | ok pairs ↦
      let (total, box') = notify_groups block (extrinsic_groups registry pairs) box in
      (ok total, box')
]

-- An event beside its module and id.
unfoldable pub event_names : List Json → Result (List (Json × Json × Json))
event_names [] = ok []
event_names (event ∷ events) = do
  module_id ← get_default event "module_id" (str "")
  event_id ← get_default event "event_id" (str "")
  others ← event_names events
  ok ((event, module_id, event_id) ∷ others)

unfoldable pub match_event : Json × Json × Json → Handler Json → Bool
match_event (event, module_id, event_id) h = matches h.patterns module_id event_id

abbrev pub event_of : Json × Json × Json → Json
event_of (event, module_id, event_id) = event

-- The groups that `dispatch_block_event_notifications` notifies.
unfoldable pub event_groups : List (Handler Json) → List (Json × Json × Json) → Groups Json
unfolding classify
event_groups registry items =
    (classify event_of match_event (λ _. false) items (map (λ h. (h, [])) registry, [])).0

unfoldable pub dispatch_block_event_notifications :
    List (Handler Json) → ℕ → List Json → Outbox → Result ℕ × Outbox
dispatch_block_event_notifications registry block [] box = (ok 0, box)
dispatch_block_event_notifications registry block (event ∷ events) box =
    elim (event_names (event ∷ events)) [
      | raised ↦ (raised, box)
      | ok items ↦
          let (total, box') = notify_groups block (event_groups registry items) box in
          (ok total, box')
    ]
