-- ===== src/Extrinsics/Sync/Again.antt =====
-- A block that is stored a second time: no row is added.
use sentinel_tower.Prelude.{
  String, ◌≡◌, sym, subst, ◌∙◌, true, false, Option, none, some, List, [], ◌∷◌, Bool-cases, ◌⊎◌,
  inl, inr,
}
use sentinel_tower.Json.{Json, str, Result, ok, raised, ◌>>=◌, Result-cases, get_default}
use sentinel_tower.Extrinsics.Parse.{Extrinsic, parse_extrinsic_record}
use sentinel_tower.Extrinsics.Parse.Valid.{parse_extrinsic_record-hash}
use sentinel_tower.Extrinsics.Sync.{contains_hash, take_new, new_records}
use sentinel_tower.Extrinsics.Sync.Stored.{hashes, IsText, AllText, AllIn}

-- Every record of the SDK gives its hash as a text.
abbrev pub AllHashed : List Json → Type 0
AllHashed [] = Unit
AllHashed (r ∷ rs) =
    ((s : String) × (get_default r "extrinsic_hash" (str "") ≡ ok (str s))) × AllHashed rs

-- `new_records` by the results of its two calls.
data Step (existing : List Json) (r : Json) (rs : List Json)
    : Result (List Extrinsic) → Type 0 where
  failed : Step existing r rs raised
  taken :
      (parsed : Option Extrinsic) (others : List Extrinsic)
      → parse_extrinsic_record r ≡ ok parsed
      → new_records existing rs ≡ ok others
      → Step existing r rs (ok (take_new existing parsed others))

step :
    (existing : List Json) (r : Json) (rs : List Json)
    → Step existing r rs (new_records existing (r ∷ rs))
unfolding new_records ◌>>=◌
step existing r rs = elim (Result-cases (parse_extrinsic_record r)) [
  | inl e ↦ rw e failed
  | inr (parsed, e) ↦ elim (Result-cases (new_records existing rs)) [
    | inl e' ↦ rw (e, e') failed
    | inr (others, e') ↦ rw (e, e') (taken parsed others e e')
  ]
]

IsText-hash :
    (r : Json) (e : Extrinsic)
    → ((s : String) × (get_default r "extrinsic_hash" (str "") ≡ ok (str s)))
    → parse_extrinsic_record r ≡ ok (some e)
    → IsText e.extrinsic_hash
IsText-hash r e (s, p) q = (s, parse_extrinsic_record-hash r (str s) p q)

-- What holds of the records, if there was no exception.
abbrev pub Holds : (List Extrinsic → Type 0) → Result (List Extrinsic) → Type 0
Holds P raised = Unit
Holds P (ok es) = P es

pub Holds-ok :
    (P : List Extrinsic → Type 0) {m : Result (List Extrinsic)} {es : List Extrinsic}
    → Holds P m
    → m ≡ ok es
    → P es
Holds-ok P h e = subst (Holds P) e h

pub new_records-AllText :
    (existing : List Json) (rs : List Json) → AllHashed rs → Holds AllText (new_records existing rs)
unfolding new_records take_new
new_records-AllText existing [] t = tt
new_records-AllText existing (r ∷ rs) (t, ts) =
    go (new_records-AllText existing rs ts) (step existing r rs)
  where
    take :
        (parsed : Option Extrinsic) (others : List Extrinsic)
        → parse_extrinsic_record r ≡ ok parsed
        → AllText others
        → AllText (take_new existing parsed others)
    take none others e h = h
    take (some x) others e h = elim (Bool-cases (contains_hash x.extrinsic_hash existing)) [
      | inl c ↦ rw c h
      | inr c ↦ rw c (IsText-hash r x t e, h)
    ]

    go :
        Holds AllText (new_records existing rs)
        → {m : Result (List Extrinsic)} → Step existing r rs m
        → Holds AllText m
    go h failed = tt
    go h (taken parsed others e e') = take parsed others e (Holds-ok AllText h e')

module _ (rows : List Extrinsic) (first second : List Json)
    (kept : (h : Json) → contains_hash h first ≡ true → contains_hash h (hashes rows) ≡ true) where
  take_new-AllIn :
      (parsed : Option Extrinsic) (others others' : List Extrinsic)
      → AllIn (take_new first parsed others) rows
      → (AllIn others rows → AllIn others' rows)
      → AllIn (take_new second parsed others') rows
  unfolding take_new
  take_new-AllIn none others others' k f = f k
  take_new-AllIn (some x) others others' k f =
      elim (Bool-cases (contains_hash x.extrinsic_hash second)) [
        | inl d ↦ rw d (f (tail (Bool-cases (contains_hash x.extrinsic_hash first)) k))
        | inr d ↦ rw d (
          head (Bool-cases (contains_hash x.extrinsic_hash first)) k,
          f (tail (Bool-cases (contains_hash x.extrinsic_hash first)) k),
        )
      ]
    where
      Split : Type 0
      Split =
          (contains_hash x.extrinsic_hash first ≡ true)
          ⊎ (contains_hash x.extrinsic_hash first ≡ false)

      tail : Split → AllIn (take_new first (some x) others) rows → AllIn others rows
      tail (inl c) k = rw c at k
      tail (inr c) k = (rw c at k).1

      head :
          Split
          → AllIn (take_new first (some x) others) rows
          → contains_hash x.extrinsic_hash (hashes rows) ≡ true
      head (inl c) k = kept x.extrinsic_hash c
      head (inr c) k = (rw c at k).0

  -- What a first pass takes on is all that a second one can.
  pub new_records-AllIn :
      (rs : List Json) (ns : List Extrinsic)
      → new_records first rs ≡ ok ns
      → AllIn ns rows
      → Holds (λ es. AllIn es rows) (new_records second rs)
  unfolding new_records
  new_records-AllIn [] ns p k = tt
  new_records-AllIn (r ∷ rs) ns p k =
      go (λ others e h. new_records-AllIn rs others e h) (step first r rs) p (step second r rs)
    where
      same : {a b : Option Extrinsic} → ◌≡◌ {A = Result (Option Extrinsic)} (ok a) (ok b) → a ≡ b
      same q = cc

      same_list : {a b : List Extrinsic} → ◌≡◌ {A = Result (List Extrinsic)} (ok a) (ok b) → a ≡ b
      same_list q = cc

      go :
          ((others : List Extrinsic)
            → new_records first rs ≡ ok others
            → AllIn others rows
            → Holds (λ es. AllIn es rows) (new_records second rs))
          → {m m' : Result (List Extrinsic)} → Step first r rs m
          → m ≡ ok ns
          → Step second r rs m'
          → Holds (λ es. AllIn es rows) m'
      go ih failed q _ = cc
      go ih (taken parsed others e e') q failed = tt
      go ih (taken parsed others e e') q (taken parsed' others' f f') =
          subst (λ a. AllIn (take_new second a others') rows) (same (sym e ∙ f))
            (take_new-AllIn parsed others others'
              (subst (λ es. AllIn es rows) (sym (same_list q)) k)
              (λ h. Holds-ok (λ es. AllIn es rows) (ih others e' h) f'))
