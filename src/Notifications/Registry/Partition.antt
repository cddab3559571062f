-- ===== src/Notifications/Registry/Partition.antt =====
-- The groups that the two dispatchers notify, described by filters.
use sentinel_tower.Prelude.{◌≡◌, ap, false, List, [], map, filter}
use sentinel_tower.Json.{Json}
use sentinel_tower.Extrinsics.Parse.{Extrinsic}
use sentinel_tower.Notifications.Registry.{
  Handler, first_pass, match_extrinsic, is_sudo_call, original_of, with_catch_all, extrinsic_groups,
  match_event, event_of, event_groups,
}
use sentinel_tower.Notifications.Registry.Classify.{distribute, left_over, classify_lem}

-- Each specific handler is given, in order, the extrinsics whose unwrapped call it matches and no
-- earlier handler does, in their original form. The catch-all, if there is one and it has any, is
-- given exactly the Sudo calls that no specific handler matches; other unmatched calls go nowhere.
pub extrinsic_groups-exact :
    (registry : List (Handler Extrinsic)) (pairs : List (Extrinsic × Extrinsic))
    → extrinsic_groups registry pairs
      ≡ with_catch_all (first_pass registry).1 (
        distribute original_of match_extrinsic (first_pass registry).0 pairs,
        map original_of (
            filter is_sudo_call
              (left_over original_of match_extrinsic (first_pass registry).0 pairs)),
      )
unfolding extrinsic_groups
extrinsic_groups-exact registry pairs =
    ap (with_catch_all (first_pass registry).1)
      (classify_lem original_of match_extrinsic is_sudo_call pairs (first_pass registry).0 [])

-- Each handler of block events is given, in order, the events that it matches and no handler
-- registered before it does; unmatched events go nowhere.
pub event_groups-exact :
    (registry : List (Handler Json)) (items : List (Json × Json × Json))
    → event_groups registry items
      ≡ distribute event_of match_event (map (λ h. (h, [])) registry) items
unfolding event_groups
event_groups-exact registry items =
    ap (λ r. r.0)
      (classify_lem event_of match_event (λ _. false) items (map (λ h. (h, [])) registry) [])
