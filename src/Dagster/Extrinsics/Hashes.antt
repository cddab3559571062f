-- ===== src/Dagster/Extrinsics/Hashes.antt =====
-- The hashes that a table holds, and that the records of app/src/project/dagster/jobs.py give.
use text.Mathlib.TextEquality.{eq_iff}
use text.Mathlib.TextPositions.{eq_refl as str_eq-refl}
use Prim.Native.String.{String}
use sentinel_tower.Prelude.{
  ℕ, ◌+◌, ◌≡◌, refl, sym, ap, ◌∙◌, Bool, true, false, not, ◌||◌, none, some, List, [], ◌∷◌, filter,
  ◌⊎◌, Bool-cases, inl, inr, some_injective, none_absurd,
}
use sentinel_tower.Json.{
  Json, str, ok, ok_injective, Result-cases, AfterOk, AfterOk-ok, AfterOk-raised,
}
use sentinel_tower.Extrinsics.Parse.{Extrinsic}
use sentinel_tower.Extrinsics.Sync.{same_hash, contains_hash, bulk_create}
use sentinel_tower.Extrinsics.Sync.Stored.{hashes, contains-bulk_create}
use sentinel_tower.Dagster.Parse.{parse_artifact_record}
use sentinel_tower.Dagster.Extrinsics.{is_hashable, put_record, parse_records, is_existing}

same_hash-eq : (h k : Json) → same_hash h k ≡ true → h ≡ k
unfolding same_hash
same_hash-eq (str s) (str t) e = ap str ((eq_iff s t).0 e)
same_hash-eq _ _ e = cc

-- The text is the hash of one of the rows.
abbrev pub Has : String → List Extrinsic → Type 0
Has s rows = contains_hash (str s) (hashes rows) ≡ true

module _ (s : String) where
  or_right : (b c : Bool) → c ≡ true → (b || c) ≡ true
  or_right true c e = refl
  or_right false c e = e

  Has-head : (e : Extrinsic) (es : List Extrinsic) → e.extrinsic_hash ≡ str s → Has s (e ∷ es)
  unfolding contains_hash same_hash
  Has-head e es h = rw (h, str_eq-refl s) refl

  Has-tail : (e : Extrinsic) (es : List Extrinsic) → Has s es → Has s (e ∷ es)
  unfolding contains_hash
  Has-tail e es h = or_right (same_hash (str s) e.extrinsic_hash) _ h

  Has-cases :
      {C : Type 0} (e : Extrinsic) (es : List Extrinsic)
      → (e.extrinsic_hash ≡ str s → C)
      → (Has s es → C)
      → Has s (e ∷ es)
      → C
  unfolding contains_hash
  Has-cases e es f g h = elim (Bool-cases (same_hash (str s) e.extrinsic_hash)) [
    | inl t ↦ f (sym (same_hash-eq (str s) e.extrinsic_hash t))
    | inr n ↦ g (rw n at h)
  ]

  put_record-Has : (e : Extrinsic) (ds : List Extrinsic) → Has s ds → Has s (put_record e ds)
  unfolding put_record contains_hash
  put_record-Has e [] h = cc
  put_record-Has e (d ∷ ds) h = elim (Bool-cases (same_hash e.extrinsic_hash d.extrinsic_hash)) [
    | inl t ↦ rw t (
        Has-cases d ds (λ q. Has-head e ds (same_hash-eq e.extrinsic_hash d.extrinsic_hash t ∙ q))
          (λ k. Has-tail e ds k) h)
    | inr n ↦ rw n (
        Has-cases d ds (λ q. Has-head d (put_record e ds) q)
          (λ k. Has-tail d (put_record e ds) (put_record-Has e ds k)) h)
  ]

  put_record-own :
      (e : Extrinsic) (ds : List Extrinsic) → e.extrinsic_hash ≡ str s → Has s (put_record e ds)
  unfolding put_record
  put_record-own e [] q = Has-head e [] q
  put_record-own e (d ∷ ds) q = elim (Bool-cases (same_hash e.extrinsic_hash d.extrinsic_hash)) [
    | inl t ↦ rw t (Has-head e ds q)
    | inr n ↦ rw n (Has-tail d (put_record e ds) (put_record-own e ds q))
  ]

  -- The text is the hash of a valid record.
  abbrev pub Gives : Json → Type 0
  Gives r = (e : Extrinsic) × (parse_artifact_record r ≡ ok (some e)) × (e.extrinsic_hash ≡ str s)

  abbrev pub AnyGives : List Json → Type 0
  AnyGives [] = ⊥
  AnyGives (r ∷ rs) = Gives r ⊎ AnyGives rs

  pub parse_records-Has :
      (rs : List Json) (ds : List Extrinsic) (skipped : ℕ)
      → Has s ds ⊎ AnyGives rs
      → AfterOk (λ f. Has s f.0) (parse_records rs ds skipped)
  unfolding parse_records
  parse_records-Has [] ds skipped (inl h) = AfterOk-ok h
  parse_records-Has [] ds skipped (inr h) = elim h [ ]
  parse_records-Has (r ∷ rs) ds skipped h = elim (Result-cases (parse_artifact_record r)) [
    | inl e ↦ rw (e, parse_records) AfterOk-raised
    | inr (none, e) ↦ rw (e, parse_records) (parse_records-Has rs ds (skipped + 1) (without e h))
    | inr (some x, e) ↦ elim (Bool-cases (is_hashable x.extrinsic_hash)) [
      | inl t ↦
          rw (e, t, parse_records) (parse_records-Has rs (put_record x ds) skipped (taken x e h))
      | inr f ↦ rw (e, f, parse_records) AfterOk-raised
    ]
  ]
    where
      without :
          parse_artifact_record r ≡ ok none
          → Has s ds ⊎ Gives r ⊎ AnyGives rs
          → Has s ds ⊎ AnyGives rs
      without e (inl k) = inl k
      without e (inr (inl (x, f, q))) = none_absurd (ok_injective (sym e ∙ f))
      without e (inr (inr k)) = inr k

      taken :
          (x : Extrinsic)
          → parse_artifact_record r ≡ ok (some x)
          → Has s ds ⊎ Gives r ⊎ AnyGives rs
          → Has s (put_record x ds) ⊎ AnyGives rs
      taken x e (inl k) = inl (put_record-Has x ds k)
      taken x e (inr (inl (y, f, q))) = inl (
          put_record-own x ds
            (ap (λ z. z.extrinsic_hash) (some_injective (ok_injective (sym e ∙ f))) ∙ q))
      taken x e (inr (inr k)) = inr k

  pub bulk_create-Has : (es rows : List Extrinsic) → Has s es → Has s (bulk_create es rows)
  unfolding bulk_create contains_hash
  bulk_create-Has [] rows h = absurd_nil h
    where
      absurd_nil : Has s [] → Has s rows
      absurd_nil h = cc
  bulk_create-Has (e ∷ es) rows h =
      elim (Bool-cases (contains_hash e.extrinsic_hash (hashes rows))) [
        | inl c ↦ rw c (
            Has-cases e es (λ q. contains-bulk_create (str s) es rows (rw q at c))
              (λ k. bulk_create-Has es rows k) h)
        | inr c ↦ rw c (
            Has-cases e es (λ q. contains-bulk_create (str s) es (e ∷ rows) (Has-head e rows q))
              (λ k. bulk_create-Has es (e ∷ rows) k) h)
      ]

  pub filter-Has :
      (rows ds : List Extrinsic)
      → contains_hash (str s) (hashes rows) ≡ false
      → Has s ds
      → Has s (filter (λ e. not (is_existing rows e)) ds)
  filter-Has rows [] absent h = h
  filter-Has rows (d ∷ ds) absent h = elim (Bool-cases (is_existing rows d)) [
    | inl t ↦ rw t (
        Has-cases d ds (λ q. differ (sym (rw q at t) ∙ absent)) (λ k. filter-Has rows ds absent k)
          h)
    | inr n ↦ rw n (
        Has-cases d ds (λ q. Has-head d (filter (λ e. not (is_existing rows e)) ds) q)
          (λ k.
            Has-tail d (filter (λ e. not (is_existing rows e)) ds) (filter-Has rows ds absent k))
          h)
  ]
    where
      differ : {C : Type 0} → true ≡ false → C
      differ e = cc
