-- ===== src/Notifications/Notify.antt =====
-- `notify` of `ExtrinsicNotification`, `BlockEventNotification` and `SubnetRoutedNotification` in
-- app/src/apps/notifications/base.py. `format` stands for the subclass's `format_message`.
pub mod Counts
use sentinel_tower.Prelude.{
  ℕ, ◌+◌, Bool, true, false, not, ◌||◌, Option, none, some, List, [], ◌∷◌, ◌++◌, length, filter,
  if◌then◌else◌,
}
use sentinel_tower.Json.{Json, Result, ok, raised, is_null}
use sentinel_tower.Extrinsics.Parse.{Extrinsic}
use sentinel_tower.Notifications.Groups.{Group, group_by_netuid}
use sentinel_tower.Notifications.Channels.{World, Outbox, Channel, database, send}

-- `[e for e in extrinsics if e.get("success", False)]`, if only successes are notified.
unfoldable pub select : Bool → List Extrinsic → List Extrinsic
select success_only es = filter (λ e. not success_only || e.success) es

abbrev counted : ℕ → Result Bool × Outbox → Result ℕ × Outbox
counted n (raised, box) = (raised, box)
counted n (ok true, box) = (ok n, box)
counted n (ok false, box) = (ok 0, box)

module _ {E : Type 0} (w : World) (format : ℕ → List E → Result Json) where
  -- Formats one message for the items and sends it: the shared end of both `notify` methods.
  unfoldable pub deliver_all : Channel → ℕ → List E → Outbox → Result ℕ × Outbox
  deliver_all channel block [] box = (ok 0, box)
  deliver_all channel block (e ∷ es) box = elim (format block (e ∷ es)) [
    | raised ↦ (raised, box)
    | ok payload ↦ counted (length (e ∷ es)) (send w channel payload box)
  ]

-- `BlockEventNotification.notify`
unfoldable pub notify_events :
    World → (ℕ → List Json → Result Json) → Channel → ℕ → List Json → Outbox → Result ℕ × Outbox
unfolding deliver_all
notify_events w format channel block events box = deliver_all w format channel block events box

abbrev joined :
    Group → Bool → Result (ℕ × List Extrinsic) × Outbox → Result (ℕ × List Extrinsic) × Outbox
joined g sent (raised, box) = (raised, box)
joined g true (ok (routed, unrouted), box) = (ok (length g.members + routed, unrouted), box)
joined g false (ok (routed, unrouted), box) = (ok (routed, g.members ++ unrouted), box)

abbrev after_group :
    Group
    → Result Bool × Outbox
    → (Outbox → Result (ℕ × List Extrinsic) × Outbox)
    → Result (ℕ × List Extrinsic) × Outbox
after_group g (raised, box) rest = (raised, box)
after_group g (ok sent, box) rest = joined g sent (rest box)

abbrev plus : ℕ → Result ℕ × Outbox → Result ℕ × Outbox
plus n (raised, box) = (raised, box)
plus n (ok m, box) = (ok (n + m), box)

module _ (w : World) (format : ℕ → List Extrinsic → Result Json) (success_only : Bool) where
  -- `ExtrinsicNotification.notify`
  unfoldable pub notify_extrinsics : Channel → ℕ → List Extrinsic → Outbox → Result ℕ × Outbox
  unfolding deliver_all select
  notify_extrinsics channel block es box =
      deliver_all w format channel block (select success_only es) box

  -- One turn of the loop of `_route_to_subnets`: whether the group was sent to its own webhooks.
  unfoldable pub route_group : ℕ → Group → Outbox → Result Bool × Outbox
  route_group block g box =
      if is_null g.netuid then (ok false, box) else elim (format block g.members) [
        | raised ↦ (raised, box)
        | ok payload ↦ send w (database g.netuid) payload box
      ]

  -- The count that was routed, and the extrinsics that were not.
  unfoldable pub route : ℕ → List Group → Outbox → Result (ℕ × List Extrinsic) × Outbox
  unfolding route_group
  route block [] box = (ok (0, []), box)
  route block (g ∷ gs) box = after_group g (route_group block g box) (route block gs)

  unfoldable pub route_to_subnets :
      ℕ → List Extrinsic → Outbox → Result (ℕ × List Extrinsic) × Outbox
  unfolding group_by_netuid route
  route_to_subnets block es box = elim (group_by_netuid es) [
    | raised ↦ (raised, box)
    | ok groups ↦ route block groups box
  ]

  -- The fallback message for what was not routed, if there is any and the class has a fallback.
  unfoldable pub fall_back :
      Option Channel → ℕ → Result (ℕ × List Extrinsic) × Outbox → Result ℕ × Outbox
  unfolding deliver_all
  fall_back fallback block (raised, box) = (raised, box)
  fall_back none block (ok (routed, unrouted), box) = (ok routed, box)
  fall_back (some channel) block (ok (routed, unrouted), box) =
      plus routed (deliver_all w format channel block unrouted box)

  unfoldable pub route_kept : Option Channel → ℕ → List Extrinsic → Outbox → Result ℕ × Outbox
  unfolding route_to_subnets fall_back
  route_kept fallback block [] box = (ok 0, box)
  route_kept fallback block (e ∷ kept) box =
      fall_back fallback block (route_to_subnets block (e ∷ kept) box)

  -- `SubnetRoutedNotification.notify`
  unfoldable pub notify_routed : Option Channel → ℕ → List Extrinsic → Outbox → Result ℕ × Outbox
  unfolding route_kept select
  notify_routed fallback block es box = route_kept fallback block (select success_only es) box
