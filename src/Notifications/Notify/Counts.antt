-- ===== src/Notifications/Notify/Counts.antt =====
-- The counts that the `notify` methods return.
use sentinel_tower.Prelude.{
  ℕ, ◌+◌, ◌≤◌, ◌≡◌, refl, subst, Bool, true, false, Option, none, some, List, [], ◌∷◌, length,
  length-append, length-filter-le, ◌⊎◌, inl, inr, arith,
}
use sentinel_tower.Json.{Json, Result, ok, raised, Result-cases}
use sentinel_tower.Extrinsics.Parse.{Extrinsic}
use sentinel_tower.Notifications.Groups.{Group, group_by_netuid, group_by_netuid-size, size}
use sentinel_tower.Notifications.Channels.{World, Outbox, Channel, send}
use sentinel_tower.Notifications.Notify.{
  select, counted, joined, after_group, plus, deliver_all, notify_extrinsics, route_group, route,
  route_to_subnets, fall_back, route_kept, notify_routed,
}

-- A count of at most `n`, or an exception.
abbrev pub AtMost : ℕ → Result ℕ → Type 0
AtMost n (ok m) = m ≤ n
AtMost n raised = Unit

pub length-select-le : (b : Bool) (es : List Extrinsic) → length (select b es) ≤ length es
unfolding select
length-select-le b es = length-filter-le _ es

-- All of the items or none.
abbrev pub AllOrNone : ℕ → Result ℕ → Type 0
AllOrNone n (ok m) = (m ≡ n) ⊎ (m ≡ 0)
AllOrNone n raised = Unit

module _ {E : Type 0} (w : World) (format : ℕ → List E → Result Json) where
  deliver_all-AllOrNone :
      (channel : Channel) (block : ℕ) (es : List E) (box : Outbox)
      → AllOrNone (length es) (deliver_all w format channel block es box).0
  unfolding deliver_all
  deliver_all-AllOrNone channel block [] box = inl refl
  deliver_all-AllOrNone channel block (e ∷ es) box = elim (Result-cases (format block (e ∷ es))) [
    | inl bad ↦ rw (bad, deliver_all) tt
    | inr (payload, good) ↦ rw (good, deliver_all) (go (send w channel payload box))
  ]
    where
      go : (r : Result Bool × Outbox) → AllOrNone (length (e ∷ es)) (counted (length (e ∷ es)) r).0
      go (raised, b) = tt
      go (ok true, b) = inl refl
      go (ok false, b) = inr refl

  -- A delivery of items counts at most them.
  pub deliver_all-AtMost :
      (channel : Channel) (block : ℕ) (es : List E) (box : Outbox)
      → AtMost (length es) (deliver_all w format channel block es box).0
  deliver_all-AtMost channel block es box =
      go (deliver_all w format channel block es box).0 (deliver_all-AllOrNone channel block es box)
    where
      go : (r : Result ℕ) → AllOrNone (length es) r → AtMost (length es) r
      go raised h = tt
      go (ok m) h = omega arith

-- What was routed and what was not make up the groups.
abbrev pub Splits : ℕ → Result (ℕ × List Extrinsic) → Type 0
Splits n (ok (routed, unrouted)) = routed + length unrouted ≡ n
Splits n raised = Unit

module _ (w : World) (format : ℕ → List Extrinsic → Result Json) (success_only : Bool) where
  -- `notify` of a plain handler returns the number of the extrinsics that it selects, all of them or
  -- 0, or raises.
  pub notify_extrinsics-count :
      (channel : Channel) (block : ℕ) (es : List Extrinsic) (box : Outbox)
      → AllOrNone
          (length (select success_only es))
          (notify_extrinsics w format success_only channel block es box).0
  unfolding notify_extrinsics
  notify_extrinsics-count channel block es box =
      deliver_all-AllOrNone w format channel block (select success_only es) box

  route-Splits :
      (block : ℕ) (gs : List Group) (box : Outbox)
      → Splits (size gs) (route w format success_only block gs box).0
  unfolding route size
  route-Splits block [] box = omega arith
  route-Splits block (g ∷ gs) box =
      go (route_group w format success_only block g box) (route-Splits block gs)
    where
      join :
          (sent : Bool) (r : Result (ℕ × List Extrinsic) × Outbox)
          → Splits (size gs) r.0
          → Splits (length g.members + size gs) (joined g sent r).0
      join sent (raised, b) h = tt
      join true (ok (n, us), b) h = omega arith
      join false (ok (n, us), b) h = omega (arith, length-append g.members us)

      go :
          (r : Result Bool × Outbox)
          → ((b : Outbox) → Splits (size gs) (route w format success_only block gs b).0)
          → Splits
              (length g.members + size gs)
              (after_group g r (route w format success_only block gs)).0
      go (raised, b) ih = tt
      go (ok sent, b) ih = join sent (route w format success_only block gs b) (ih b)

  -- The number that routing to the subnets' own webhooks counts, and that of the extrinsics which it hands
  -- back, make up the number that it is given.
  route_to_subnets-Splits :
      (block : ℕ) (es : List Extrinsic) (box : Outbox)
      → Splits (length es) (route_to_subnets w format success_only block es box).0
  unfolding route_to_subnets
  route_to_subnets-Splits block es box = elim (Result-cases (group_by_netuid es)) [
    | inl bad ↦ rw (bad, route_to_subnets) tt
    | inr (gs, good) ↦
        rw (good, route_to_subnets)
          (subst (λ n. Splits n (route w format success_only block gs box).0)
            (group_by_netuid-size es good) (route-Splits block gs box))
  ]

  fall_back-AtMost :
      (fallback : Option Channel) (block n : ℕ) (r : Result (ℕ × List Extrinsic) × Outbox)
      → Splits n r.0
      → AtMost n (fall_back w format success_only fallback block r).0
  unfolding fall_back
  fall_back-AtMost fallback block n (raised, box) h = tt
  fall_back-AtMost none block n (ok (routed, unrouted), box) h = omega arith
  fall_back-AtMost (some channel) block n (ok (routed, unrouted), box) h =
      go (deliver_all w format channel block unrouted box)
        (deliver_all-AtMost w format channel block unrouted box)
    where
      go : (r : Result ℕ × Outbox) → AtMost (length unrouted) r.0 → AtMost n (plus routed r).0
      go (raised, b) le = tt
      go (ok m, b) le = omega arith

  route_kept-AtMost :
      (fallback : Option Channel) (block : ℕ) (kept : List Extrinsic) (box : Outbox)
      → AtMost (length kept) (route_kept w format success_only fallback block kept box).0
  unfolding route_kept
  route_kept-AtMost fallback block [] box = omega arith
  route_kept-AtMost fallback block (e ∷ kept) box =
      fall_back-AtMost fallback block (length (e ∷ kept)) _
        (route_to_subnets-Splits block (e ∷ kept) box)

  -- `notify` of a handler that routes by subnet counts at most the extrinsics that it selects,
  -- whatever webhooks fail, or raises.
  notify_routed-AtMost :
      (fallback : Option Channel) (block : ℕ) (es : List Extrinsic) (box : Outbox)
      → AtMost
          (length (select success_only es))
          (notify_routed w format success_only fallback block es box).0
  unfolding notify_routed
  notify_routed-AtMost fallback block es box =
      route_kept-AtMost fallback block (select success_only es) box
