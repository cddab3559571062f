-- ===== src/Extrinsics/Sync/Stored.antt =====
-- The extrinsics table: what `bulk_create` adds, and that it finds again.
use text.Mathlib.TextPositions.{eq_refl as str_eq-refl}
use sentinel_tower.Prelude.{
  String, ℕ, ◌≡◌, refl, Bool, true, false, ◌||◌, List, [], ◌∷◌, map, Bool-cases, inl, inr,
}
use sentinel_tower.Json.{Json, str}
use sentinel_tower.Extrinsics.Parse.{Extrinsic}
use sentinel_tower.Extrinsics.Sync.{
  same_hash, contains_hash, in_block, existing_hashes, bulk_create,
}

abbrev pub hashes : List Extrinsic → List Json
hashes rows = map (λ r. r.extrinsic_hash) rows

-- No two rows share a hash, which is the unique constraint of the table.
abbrev pub IsUnique : List Extrinsic → Type 0
IsUnique [] = Unit
IsUnique (r ∷ rs) = (contains_hash r.extrinsic_hash (hashes rs) ≡ false) × IsUnique rs

pub bulk_create-IsUnique :
    (es rows : List Extrinsic) → IsUnique rows → IsUnique (bulk_create es rows)
unfolding bulk_create
bulk_create-IsUnique [] rows u = u
bulk_create-IsUnique (e ∷ es) rows u =
    elim (Bool-cases (contains_hash e.extrinsic_hash (hashes rows))) [
      | inl c ↦ rw c (bulk_create-IsUnique es rows u)
      | inr c ↦ rw c (bulk_create-IsUnique es (e ∷ rows) (c, u))
    ]

or_true : (b : Bool) → (b || true) ≡ true
or_true true = refl
or_true false = refl

-- What a table has it keeps.
pub contains-bulk_create :
    (h : Json) (es rows : List Extrinsic)
    → contains_hash h (hashes rows) ≡ true
    → contains_hash h (hashes (bulk_create es rows)) ≡ true
unfolding bulk_create contains_hash
contains-bulk_create h [] rows c = c
contains-bulk_create h (e ∷ es) rows c =
    elim (Bool-cases (contains_hash e.extrinsic_hash (hashes rows))) [
      | inl d ↦ rw d (contains-bulk_create h es rows c)
      | inr d ↦
          rw d
            (contains-bulk_create h es (e ∷ rows) (rw c (or_true (same_hash h e.extrinsic_hash))))
    ]

-- A hash that is a text.
abbrev pub IsText : Json → Type 0
IsText h = (s : String) × (h ≡ str s)

same_hash_refl : (h : Json) → IsText h → same_hash h h ≡ true
unfolding same_hash
same_hash_refl h (s, p) = rw p (str_eq-refl s)

abbrev pub AllText : List Extrinsic → Type 0
AllText [] = Unit
AllText (e ∷ es) = IsText e.extrinsic_hash × AllText es

-- Every record's hash is among those of the rows.
abbrev pub AllIn : List Extrinsic → List Extrinsic → Type 0
AllIn [] rows = Unit
AllIn (e ∷ es) rows = (contains_hash e.extrinsic_hash (hashes rows) ≡ true) × AllIn es rows

pub bulk_create-AllIn : (es rows : List Extrinsic) → AllText es → AllIn es (bulk_create es rows)
unfolding bulk_create contains_hash
bulk_create-AllIn [] rows t = tt
bulk_create-AllIn (e ∷ es) rows (t, ts) =
    elim (Bool-cases (contains_hash e.extrinsic_hash (hashes rows))) [
      | inl c ↦ rw c (contains-bulk_create e.extrinsic_hash es rows c, bulk_create-AllIn es rows ts)
      | inr c ↦ rw c (
        contains-bulk_create e.extrinsic_hash es (e ∷ rows)
            (rw (same_hash_refl e.extrinsic_hash t) refl),
        bulk_create-AllIn es (e ∷ rows) ts,
      )
    ]

-- Rows that are there are not created again.
pub bulk_create-known : (es rows : List Extrinsic) → AllIn es rows → bulk_create es rows ≡ rows
unfolding bulk_create
bulk_create-known [] rows k = refl
bulk_create-known (e ∷ es) rows (k, ks) = rw k (bulk_create-known es rows ks)

-- The hashes of a block's rows are among those of all rows.
pub existing-sub :
    (n : ℕ) (h : Json) (rows : List Extrinsic)
    → contains_hash h (existing_hashes n rows) ≡ true
    → contains_hash h (hashes rows) ≡ true
unfolding existing_hashes contains_hash
existing-sub n h [] c = c
existing-sub n h (r ∷ rs) c = elim (Bool-cases (in_block n r)) [
  | inl b ↦ elim (Bool-cases (same_hash h r.extrinsic_hash)) [
    | inl d ↦ rw d refl
    | inr d ↦ rw d (existing-sub n h rs (rw (b, d) at c))
  ]
  | inr b ↦ rw (existing-sub n h rs (rw b at c)) (or_true (same_hash h r.extrinsic_hash))
]
