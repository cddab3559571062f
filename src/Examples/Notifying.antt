-- ===== src/Examples/Notifying.antt =====
-- The dispatch of notifications at concrete handlers.
use sentinel_tower.Prelude.{
  ℕ, String, ◌≡◌, refl, true, false, some, List, [], ◌∷◌, map, filter, length,
}
use sentinel_tower.Prelude.Int.{pos}
use sentinel_tower.Json.{Json, int, str, Result, ok}
use sentinel_tower.Extrinsics.Parse.{Extrinsic}
use sentinel_tower.Examples.Storing.{set_tempo}
use sentinel_tower.Notifications.Groups.{
  number, Group, hash_key, same_key, insert, group_from, group_by_netuid, members_of, has_key,
  group_by_netuid-exact,
}
use sentinel_tower.Notifications.Channels.{World}
use sentinel_tower.Notifications.Registry.{
  Handler, first_pass, match_extrinsic, is_sudo_call, original_of, with_catch_all, extrinsic_groups,
}
use sentinel_tower.Notifications.Registry.Classify.{distribute, left_over}
use sentinel_tower.Notifications.Registry.Partition.{extrinsic_groups-exact}

abbrev world : World
world = record {
  environ = λ name. "https://example.org/a, https://example.org/b";
  webhooks = record { netuid = 5; url = "https://example.org/5"; enabled = true } ∷ [];
  deliver = λ n url. true;
  to_column = λ v. some 5;
}

abbrev format : {E : Type 0} → ℕ → List E → Result Json
format block es = ok (str "message")

abbrev calls : List Extrinsic
calls = set_tempo ∷ record set_tempo { success = false } ∷ []

abbrev groups : List Group
groups = record { key = number (pos 5); netuid = int (pos 5); members = calls } ∷ []

grouped : group_by_netuid calls ≡ ok groups
unfolding group_by_netuid group_from hash_key insert same_key
grouped = refl

group_by_netuid-exact_example :
    members_of (number (pos 5)) groups ≡ filter (has_key (number (pos 5))) calls
group_by_netuid-exact_example = group_by_netuid-exact (number (pos 5)) calls grouped

abbrev patterns : List String
patterns = "Sudo" ∷ "AdminUtils:sudo_set_tempo" ∷ []

-- A handler that counts every item.
abbrev counter : {E : Type 0} → List String → Handler E
counter names = record { patterns = names; notify = λ block es box. (ok (length es), box) }

abbrev registry : List (Handler Extrinsic)
registry = counter ("Sudo" ∷ []) ∷ counter ("AdminUtils" ∷ []) ∷ []

abbrev sudo : Extrinsic
sudo = record set_tempo { call_module = str "Sudo"; call_function = str "sudo_as" }

abbrev pairs : List (Extrinsic × Extrinsic)
pairs = (set_tempo, set_tempo) ∷ (sudo, sudo) ∷ []

extrinsic_groups-exact_example :
    extrinsic_groups registry pairs
    ≡ with_catch_all (first_pass registry).1 (
      distribute original_of match_extrinsic (first_pass registry).0 pairs,
      map original_of (
          filter is_sudo_call
            (left_over original_of match_extrinsic (first_pass registry).0 pairs)),
    )
extrinsic_groups-exact_example = extrinsic_groups-exact registry pairs
