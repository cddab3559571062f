-- ===== src/Notifications/Registry/Totals.antt =====
-- The counts that the dispatchers return.
use sentinel_tower.Prelude.{
  ℕ, ◌+◌, ◌≤◌, ◌≡◌, refl, Bool, Option, none, some, List, [], ◌∷◌, ◌++◌, map, filter, length, arith,
  Bool-cases, inl, inr,
}
use sentinel_tower.Json.{Json, Result, str, get_default, ok, raised, ◌>>=◌, Result-cases}
use sentinel_tower.Extrinsics.Parse.{Extrinsic}
use sentinel_tower.Notifications.Unwrap.{unwrap_sudo_call}
use sentinel_tower.Notifications.Channels.{Outbox}
use sentinel_tower.Notifications.Notify.Counts.{AtMost}
use sentinel_tower.Notifications.Registry.{
  Handler, Groups, first_pass, unwrap_all, match_extrinsic, is_sudo_call, original_of,
  with_catch_all, last_of, is_sudo_only, count_of, notify_groups, extrinsic_groups,
  dispatch_block_notifications, event_names, match_event, event_of, event_groups,
  dispatch_block_event_notifications,
}
use sentinel_tower.Notifications.Registry.Partition.{extrinsic_groups-exact, event_groups-exact}
use sentinel_tower.Notifications.Registry.Classify.{
  distribute, left_over, held, held-distribute, length-map, length-parts,
}

count-le : (n : ℕ) (r : Result ℕ) → AtMost n r → count_of r ≤ n
count-le n raised h = omega arith
count-le n (ok m) h = h

module _ {E : Type 0} where
  -- The law of a `notify`: it counts at most the items that it is given.
  abbrev pub IsHonest : Handler E → Type 0
  IsHonest h =
      (block : ℕ) (es : List E) (box : Outbox) → AtMost (length es) (h.notify block es box).0

  abbrev pub AllHonest : List (Handler E) → Type 0
  AllHonest [] = Unit
  AllHonest (h ∷ hs) = IsHonest h × AllHonest hs

  abbrev GroupsHonest : Groups E → Type 0
  GroupsHonest [] = Unit
  GroupsHonest ((h, members) ∷ groups) = IsHonest h × GroupsHonest groups

  notify_groups-le-held :
      (block : ℕ) (groups : Groups E) (box : Outbox)
      → GroupsHonest groups
      → (notify_groups block groups box).0 ≤ held groups
  unfolding notify_groups
  notify_groups-le-held block [] box honest = omega arith
  notify_groups-le-held block ((h, []) ∷ groups) box honest =
      omega (arith, notify_groups-le-held block groups box honest.1)
  notify_groups-le-held block ((h, e ∷ es) ∷ groups) box honest =
      let (result, box') = h.notify block (e ∷ es) box in
      omega (
        arith,
        count-le (length (e ∷ es)) result (honest.0 block (e ∷ es) box),
        notify_groups-le-held block groups box' honest.1,
      )

module _ {E I : Type 0} (value : I → E) (match : I → Handler E → Bool) where
  distribute-GroupsHonest :
      (groups : Groups E) (items : List I)
      → GroupsHonest groups
      → GroupsHonest (distribute value match groups items)
  distribute-GroupsHonest [] items honest = tt
  distribute-GroupsHonest ((h, members) ∷ groups) items honest =
      (honest.0, distribute-GroupsHonest groups _ honest.1)

abbrev OptionHonest : Option (Handler Extrinsic) → Type 0
OptionHonest none = Unit
OptionHonest (some h) = IsHonest h

-- The groups that the dispatch of extrinsics starts from.
record Start (start : Groups Extrinsic × Option (Handler Extrinsic)) : Type 0 where
  empty : held start.0 ≡ 0
  honest : GroupsHonest start.0
  catch_all : OptionHonest start.1

last_of-honest :
    (o : Option (Handler Extrinsic)) (h : Handler Extrinsic)
    → OptionHonest o
    → IsHonest h
    → OptionHonest (last_of o h)
last_of-honest none h p q = q
last_of-honest (some later) h p q = p

first_pass-Start :
    (registry : List (Handler Extrinsic)) → AllHonest registry → Start (first_pass registry)
unfolding first_pass
first_pass-Start [] honest = record { empty = refl; honest = tt; catch_all = tt }
first_pass-Start (h ∷ hs) honest =
    let ih = first_pass-Start hs honest.1 in
    elim (Bool-cases (is_sudo_only h.patterns)) [
      | inl e ↦ rw e (record {
        empty = ih.empty;
        honest = ih.honest;
        catch_all = last_of-honest (first_pass hs).1 h ih.catch_all honest.0;
      })
      | inr e ↦ rw e (record {
        empty = omega (arith, ih.empty);
        honest = (honest.0, ih.honest);
        catch_all = ih.catch_all;
      })
    ]

held-append :
    (groups : Groups Extrinsic) (h : Handler Extrinsic) (es : List Extrinsic)
    → held (groups ++ (h, es) ∷ []) ≡ held groups + length es
held-append [] h es = omega arith
held-append (g ∷ groups) h es = omega (arith, held-append groups h es)

append-GroupsHonest :
    (groups : Groups Extrinsic) (h : Handler Extrinsic) (es : List Extrinsic)
    → GroupsHonest groups
    → IsHonest h
    → GroupsHonest (groups ++ (h, es) ∷ [])
append-GroupsHonest [] h es honest p = (p, tt)
append-GroupsHonest (g ∷ groups) h es honest p =
    (honest.0, append-GroupsHonest groups h es honest.1 p)

-- What the catch-all adds.
with_catch_all-bounds :
    (sudo : Option (Handler Extrinsic)) (groups : Groups Extrinsic) (unmatched : List Extrinsic)
    → GroupsHonest groups
    → OptionHonest sudo
    → (held (with_catch_all sudo (groups, unmatched)) ≤ held groups + length unmatched)
      × GroupsHonest (with_catch_all sudo (groups, unmatched))
unfolding with_catch_all
with_catch_all-bounds none groups unmatched g s = (omega arith, g)
with_catch_all-bounds (some h) groups [] g s = (omega arith, g)
with_catch_all-bounds (some h) groups (e ∷ es) g s =
    (omega (arith, held-append groups h (e ∷ es)), append-GroupsHonest groups h (e ∷ es) g s)

extrinsic_groups-bounds :
    (registry : List (Handler Extrinsic)) (pairs : List (Extrinsic × Extrinsic))
    → AllHonest registry
    → (held (extrinsic_groups registry pairs) ≤ length pairs)
      × GroupsHonest (extrinsic_groups registry pairs)
extrinsic_groups-bounds registry pairs honest =
    let start = first_pass-Start registry honest in
    let (groups, sudo) = first_pass registry in
    let caught = filter is_sudo_call (left_over original_of match_extrinsic groups pairs) in
    let bounds =
      with_catch_all-bounds sudo (distribute original_of match_extrinsic groups pairs)
        (map original_of caught)
        (distribute-GroupsHonest original_of match_extrinsic groups pairs start.honest)
        start.catch_all in
    rw extrinsic_groups-exact (
      omega (
        arith,
        bounds.0,
        start.empty,
        length-map original_of caught,
        held-distribute original_of match_extrinsic groups pairs,
        length-parts is_sudo_call (left_over original_of match_extrinsic groups pairs),
      ),
      bounds.1,
    )

length-unwrap_all :
    (es : List Extrinsic) {pairs : List (Extrinsic × Extrinsic)}
    → unwrap_all es ≡ ok pairs
    → length pairs ≡ length es
unfolding unwrap_all ◌>>=◌
length-unwrap_all [] h = ground arith
length-unwrap_all (e ∷ es) {pairs} h = elim (Result-cases (unwrap_sudo_call e)) [
  | inl bad ↦ cc (rw (bad, ◌>>=◌) at h)
  | inr (u, good) ↦ elim (Result-cases (unwrap_all es)) [
    | inl bad ↦ cc (rw (good, bad, ◌>>=◌) at h)
    | inr (others, fine) ↦
        let grown : ok ((e, u) ∷ others) ≡ ok pairs = rw (good, fine, ◌>>=◌) at h in
        ground (arith, length-unwrap_all es fine, grown)
  ]
]

-- The groups of all events hold no event twice, and nothing else.
event_groups-bounds :
    (registry : List (Handler Json)) (items : List (Json × Json × Json))
    → AllHonest registry
    → (held (event_groups registry items) ≤ length items)
      × GroupsHonest (event_groups registry items)
event_groups-bounds registry items honest = rw event_groups-exact (
  omega (
    arith,
    held-distribute event_of match_event (map (λ h. (h, [])) registry) items,
    held_empty registry,
  ),
  distribute-GroupsHonest event_of match_event (map (λ h. (h, [])) registry) items
      (empty-GroupsHonest registry honest),
)
  where
    held_empty : (hs : List (Handler Json)) → held (map (λ h. (h, [])) hs) ≡ 0
    held_empty [] = refl
    held_empty (h ∷ hs) = omega (arith, held_empty hs)

    empty-GroupsHonest :
        (hs : List (Handler Json)) → AllHonest hs → GroupsHonest (map (λ h. (h, [])) hs)
    empty-GroupsHonest [] a = tt
    empty-GroupsHonest (h ∷ hs) a = (a.0, empty-GroupsHonest hs a.1)

-- If no handler counts more than it is given, the dispatch of extrinsics counts at most the
-- extrinsics of the block, whatever handlers raise.
dispatch_block_notifications-AtMost :
    (registry : List (Handler Extrinsic)) (block : ℕ) (es : List Extrinsic) (box : Outbox)
    → AllHonest registry
    → AtMost (length es) (dispatch_block_notifications registry block es box).0
unfolding dispatch_block_notifications
dispatch_block_notifications-AtMost registry block [] box honest = omega arith
dispatch_block_notifications-AtMost registry block (e ∷ es) box honest =
    elim (Result-cases (unwrap_all (e ∷ es))) [
      | inl bad ↦ rw (bad, dispatch_block_notifications) tt
      | inr (pairs, good) ↦
          let bounds = extrinsic_groups-bounds registry pairs honest in
          rw (good, dispatch_block_notifications)
            (omega (
              arith,
              bounds.0,
              length-unwrap_all (e ∷ es) good,
              notify_groups-le-held block (extrinsic_groups registry pairs) box bounds.1,
            ))
    ]

length-event_names :
    (events : List Json) {items : List (Json × Json × Json)}
    → event_names events ≡ ok items
    → length items ≡ length events
unfolding event_names ◌>>=◌
length-event_names [] h = ground arith
length-event_names (e ∷ es) {items} h = elim (Result-cases (get_default e "module_id" (str ""))) [
  | inl bad ↦ cc (rw (bad, ◌>>=◌) at h)
  | inr (m, good) ↦ elim (Result-cases (get_default e "event_id" (str ""))) [
    | inl bad ↦ cc (rw (good, bad, ◌>>=◌) at h)
    | inr (n, fair) ↦ elim (Result-cases (event_names es)) [
      | inl bad ↦ cc (rw (good, fair, bad, ◌>>=◌) at h)
      | inr (others, fine) ↦
          let grown : ok ((e, m, n) ∷ others) ≡ ok items = rw (good, fair, fine, ◌>>=◌) at h in
          ground (arith, length-event_names es fine, grown)
    ]
  ]
]

-- If no handler counts more than it is given, the dispatch of block events counts at most the events,
-- whatever handlers raise.
pub dispatch_block_event_notifications-AtMost :
    (registry : List (Handler Json)) (block : ℕ) (events : List Json) (box : Outbox)
    → AllHonest registry
    → AtMost (length events) (dispatch_block_event_notifications registry block events box).0
unfolding dispatch_block_event_notifications
dispatch_block_event_notifications-AtMost registry block [] box honest = omega arith
dispatch_block_event_notifications-AtMost registry block (e ∷ es) box honest =
    elim (Result-cases (event_names (e ∷ es))) [
      | inl bad ↦ rw (bad, dispatch_block_event_notifications) tt
      | inr (items, good) ↦
          let bounds = event_groups-bounds registry items honest in
          rw (good, dispatch_block_event_notifications)
            (omega (
              arith,
              bounds.0,
              length-event_names (e ∷ es) good,
              notify_groups-le-held block (event_groups registry items) box bounds.1,
            ))
    ]
