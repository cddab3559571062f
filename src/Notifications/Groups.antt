-- ===== src/Notifications/Groups.antt =====
-- `group_by_netuid` of app/src/apps/notifications/base.py.
use Prim.Native.String.{String}
use text.Mathlib.Text.{◌==◌ as str_eq}
use text.Mathlib.TextEquality.{eq_iff}
use mathlib.Core.List.{append-nil, append_assoc}
use sentinel_tower.Prelude.{
  ℕ, ◌+◌, ◌≡◌, refl, ap, subst, Bool, true, false, List, [], ◌∷◌, ◌++◌, if◌then◌else◌, filter,
  length, length-append, ◌∙◌, arith, Bool-cases, inl, inr, ◌↔◌,
}
use sentinel_tower.Prelude.Int.{ℤ, pos, eqb_ℤ}
use sentinel_tower.Json.{Json, null, bool, int, real, str, Result, ok, raised, Result-cases}
use sentinel_tower.Extrinsics.Parse.{Extrinsic}

-- A netuid as a key of a dict. A Boolean is equal to 0 or 1; a list or a dict cannot be a key. No JSON
-- value is a tuple, and an integer is never compared with a float here.
pub data Key : Type 0 where
  nothing : Key
  number : ℤ → Key
  decimal : String → Key
  word : String → Key

unfoldable pub hash_key : Json → Result Key
hash_key null = ok nothing
hash_key (bool false) = ok (number (pos 0))
hash_key (bool true) = ok (number (pos 1))
hash_key (int n) = ok (number n)
hash_key (real s) = ok (decimal s)
hash_key (str s) = ok (word s)
hash_key _ = raised

unfoldable pub same_key : Key → Key → Bool
same_key nothing nothing = true
same_key (number m) (number n) = eqb_ℤ m n
same_key (decimal s) (decimal t) = str_eq s t
same_key (word s) (word t) = str_eq s t
same_key _ _ = false

-- An entry of the dict: its key, the value that was first used for it, and the extrinsics.
pub record Group : Type 0 where
  pub key : Key
  pub netuid : Json
  pub members : List Extrinsic

-- `groups.setdefault(netuid, []).append(ext)`
unfoldable pub insert : Key → Extrinsic → List Group → List Group
insert k e [] = record { key = k; netuid = e.netuid; members = e ∷ [] } ∷ []
insert k e (g ∷ gs) =
    if same_key g.key k then record g { members = g.members ++ e ∷ [] } ∷ gs else g ∷ insert k e gs

unfoldable pub group_from : List Group → List Extrinsic → Result (List Group)
group_from groups [] = ok groups
group_from groups (e ∷ es) = elim (hash_key e.netuid) [
  | raised ↦ raised
  | ok k ↦ group_from (insert k e groups) es
]

unfoldable pub group_by_netuid : List Extrinsic → Result (List Group)
unfolding group_from
group_by_netuid es = group_from [] es

-- The members of the group of a key.
unfoldable pub members_of : Key → List Group → List Extrinsic
members_of k [] = []
members_of k (g ∷ gs) = if same_key g.key k then g.members else members_of k gs

unfoldable pub has_key : Key → Extrinsic → Bool
has_key k e = elim (hash_key e.netuid) [ raised ↦ false | ok j ↦ same_key j k ]

same_key_iff : (j k : Key) → (same_key j k ≡ true) ↔ (j ≡ k)
unfolding same_key
same_key_iff (number m) (number n) = ground arith
same_key_iff (decimal s) (decimal t) = ground (arith, eq_iff s t)
same_key_iff (word s) (word t) = ground (arith, eq_iff s t)
same_key_iff nothing nothing = ground arith
same_key_iff _ _ = ground arith

members_of-insert :
    (k j : Key) (e : Extrinsic) (gs : List Group)
    → members_of k (insert j e gs)
      ≡ (if same_key j k then members_of k gs ++ e ∷ [] else members_of k gs)
unfolding members_of insert
members_of-insert k j e [] = refl
members_of-insert k j e (g ∷ gs) = elim (Bool-cases (same_key g.key j)) [
  | inl same ↦ rw same (
      rw (ap (λ i. same_key i k) ((same_key_iff g.key j).0 same))
        (elim (Bool-cases (same_key j k)) [ inl e ↦ rw e | inr e ↦ rw e ]))
  | inr other ↦ rw other (
      rw (members_of-insert k j e gs)
        (elim (Bool-cases (same_key j k)) [ inl h ↦ rw (h, apart g.key h other) | inr h ↦ rw h ]))
]
  where
    apart : (i : Key) → same_key j k ≡ true → same_key i j ≡ false → same_key i k ≡ false
    apart i h o = subst (λ l. same_key i l ≡ false) ((same_key_iff j k).0 h) o

has_key-hash : (k j : Key) (e : Extrinsic) → hash_key e.netuid ≡ ok j → has_key k e ≡ same_key j k
unfolding has_key
has_key-hash k j e h = rw (h, has_key)

step :
    (k j : Key) (e : Extrinsic) (es : List Extrinsic) (gs : List Group)
    → hash_key e.netuid ≡ ok j
    → members_of k (insert j e gs) ++ filter (has_key k) es
      ≡ members_of k gs ++ filter (has_key k) (e ∷ es)
step k j e es gs good =
    rw (members_of-insert k j e gs, has_key-hash k j e good)
      (elim (Bool-cases (same_key j k)) [
        | inl h ↦ rw h (append_assoc (members_of k gs) (e ∷ []) (filter (has_key k) es))
        | inr h ↦ rw h
      ])

group_from-exact :
    (k : Key) (es : List Extrinsic) (gs : List Group) {hs : List Group}
    → group_from gs es ≡ ok hs
    → members_of k hs ≡ members_of k gs ++ filter (has_key k) es
unfolding group_from
group_from-exact k [] gs h = cc (append-nil (members_of k gs))
group_from-exact k (e ∷ es) gs h = elim (Result-cases (hash_key e.netuid)) [
  | inl bad ↦ cc (rw (bad, group_from) at h)
  | inr (j, good) ↦
      group_from-exact k es (insert j e gs) (rw (good, group_from) at h) ∙ step k j e es gs good
]

-- The group of each netuid holds exactly the extrinsics with that netuid, in their order.
pub group_by_netuid-exact :
    (k : Key) (es : List Extrinsic) {gs : List Group}
    → group_by_netuid es ≡ ok gs
    → members_of k gs ≡ filter (has_key k) es
unfolding group_by_netuid members_of
group_by_netuid-exact k es h = group_from-exact k es [] h

-- The extrinsics of all groups together.
unfoldable pub size : List Group → ℕ
size [] = 0
size (g ∷ gs) = length g.members + size gs

size-insert : (k : Key) (e : Extrinsic) (gs : List Group) → size (insert k e gs) ≡ size gs + 1
unfolding size insert
size-insert k e [] = refl
size-insert k e (g ∷ gs) = ground (arith, size-insert k e gs, length-append g.members (e ∷ []))

group_from-size :
    (es : List Extrinsic) (gs : List Group) {hs : List Group}
    → group_from gs es ≡ ok hs
    → size hs ≡ size gs + length es
unfolding group_from
group_from-size [] gs h = ground arith
group_from-size (e ∷ es) gs h = elim (Result-cases (hash_key e.netuid)) [
  | inl bad ↦ cc (rw (bad, group_from) at h)
  | inr (j, good) ↦
      omega
        (arith, group_from-size es (insert j e gs) (rw (good, group_from) at h), size-insert j e gs)
]

-- No extrinsic is lost or doubled.
pub group_by_netuid-size :
    (es : List Extrinsic) {gs : List Group} → group_by_netuid es ≡ ok gs → size gs ≡ length es
unfolding group_by_netuid size
group_by_netuid-size es h = omega (arith, group_from-size es [] h)
