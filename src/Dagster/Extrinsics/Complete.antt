-- ===== src/Dagster/Extrinsics/Complete.antt =====
-- When `ingest_extrinsics` of app/src/project/dagster/jobs.py returns.
use sentinel_tower.Prelude.{
  ℕ, ◌≡◌, ◌+◌, ◌≢◌, refl, sym, ap, ◌∙◌, subst, none, some, List, [], ◌∷◌, ◌++◌, length, filter, ltb,
  Bool, true, false, not, ◌⊎◌, arith, Bool-cases, inl, inr,
}
use Prim.Native.String.{String}
use sentinel_tower.Json.{Json, str, Result, ok}
use sentinel_tower.Extrinsics.Sync.{same_hash}
use sentinel_tower.Extrinsics.Parse.{Extrinsic}
use sentinel_tower.Retention.{take}
use sentinel_tower.Storage.{Text}
use sentinel_tower.Dagster.Parse.{parse_artifact_record}
use sentinel_tower.Dagster.Reader.{Directory, read_partitioned_dir}
use sentinel_tower.Dagster.Reader.Lines.{
  dir_lines, drop, records_of, records_of-append, read_partitioned_dir-lem,
}
use sentinel_tower.Dagster.Extrinsics.{
  Ingestion, failed, put_record, is_existing, parse_records, all_accepted, create_batches,
  after_batches, store_parsed, after_parse, ingest_records, start_line_of, ingest_from,
  ingest_extrinsics,
}
use sentinel_tower.Dagster.Extrinsics.Stored.{take-append-drop, create_batches-created}
use sentinel_tower.Dagster.Extrinsics.Again.{AllStored, IsCurrent, ingest_extrinsics-IsCaughtUp}

-- The parser raises at none of the records: it skips them, or the hash that it gives is a text.
abbrev pub AllParse : List Json → Type 0
AllParse [] = Unit
AllParse (r ∷ rs) =
    ((parse_artifact_record r ≡ ok none)
      ⊎ (e : Extrinsic) × (s : String) × (parse_artifact_record r ≡ ok (some e))
        × (e.extrinsic_hash ≡ str s))
    × AllParse rs

AllParse-after : (rs qs : List Json) → AllParse (rs ++ qs) → AllParse qs
AllParse-after [] qs h = h
AllParse-after (r ∷ rs) qs h = AllParse-after rs qs h.1

-- The database takes whatever the parser gives for the records.
abbrev pub AllTaken : (Extrinsic → Bool) → List Json → Type 0
AllTaken accepts [] = Unit
AllTaken accepts (r ∷ rs) =
    ((e : Extrinsic) → parse_artifact_record r ≡ ok (some e) → accepts e ≡ true)
    × AllTaken accepts rs

AllTaken-after :
    (accepts : Extrinsic → Bool) (rs qs : List Json)
    → AllTaken accepts (rs ++ qs)
    → AllTaken accepts qs
AllTaken-after accepts [] qs h = h
AllTaken-after accepts (r ∷ rs) qs h = AllTaken-after accepts rs qs h.1

module _ (accepts : Extrinsic → Bool) where
  put_record_accepted :
      (e : Extrinsic) (ds : List Extrinsic)
      → accepts e ≡ true
      → all_accepted accepts ds ≡ true
      → all_accepted accepts (put_record e ds) ≡ true
  unfolding put_record
  put_record_accepted e [] a h = rw a refl
  put_record_accepted e (d ∷ ds) a h =
      let here : accepts d ≡ true = ground arith in
      let rest : all_accepted accepts ds ≡ true = ground arith in
      elim (Bool-cases (same_hash e.extrinsic_hash d.extrinsic_hash)) [
        | inl t ↦ rw (t, a) rest
        | inr n ↦ rw (n, here) (put_record_accepted e ds a rest)
      ]

  filter_accepted :
      (q : Extrinsic → Bool) (ds : List Extrinsic)
      → all_accepted accepts ds ≡ true
      → all_accepted accepts (filter q ds) ≡ true
  filter_accepted q [] h = refl
  filter_accepted q (d ∷ ds) h =
      let here : accepts d ≡ true = ground arith in
      let rest = filter_accepted q ds (ground arith) in
      elim (Bool-cases (q d)) [ inl t ↦ rw (t, here) rest | inr n ↦ rw n rest ]

  -- The loop over the records ends with a dict of rows that the database takes.
  parse_records-Succeeds :
      (rs : List Json) (ds : List Extrinsic) (skipped : ℕ)
      → AllParse rs
      → AllTaken accepts rs
      → all_accepted accepts ds ≡ true
      → (f : List Extrinsic × ℕ) × (parse_records rs ds skipped ≡ ok f)
        × (all_accepted accepts f.0 ≡ true)
  unfolding parse_records
  parse_records-Succeeds [] ds skipped h t a = ((ds, skipped), refl, a)
  parse_records-Succeeds (r ∷ rs) ds skipped (inl e, h) (k, t) a =
      rw (e, parse_records) (parse_records-Succeeds rs ds (skipped + 1) h t a)
  parse_records-Succeeds (r ∷ rs) ds skipped (inr (x, s, e, hashed), h) (k, t) a =
      rw (e, hashed, parse_records)
        (parse_records-Succeeds rs (put_record x ds) skipped h t
          (put_record_accepted x ds (k x e) a))

  after_batches-returns :
      (processed skipped total : ℕ) (p : Ingestion) (c : Bool × List Extrinsic)
      → c.0 ≡ true
      → (after_batches processed skipped total p c).0 ≢ failed
  unfolding after_batches
  after_batches-returns processed skipped total p (true, rows) e = λ f. cc
  after_batches-returns processed skipped total p (false, rows) e = λ f. cc

  ingest_records-returns :
      (records : List Json) (total : ℕ) (p : Ingestion)
      → AllParse records
      → AllTaken accepts records
      → (ingest_records accepts records total p).0 ≢ failed
  unfolding ingest_records after_parse store_parsed
  ingest_records-returns [] total p h t = λ f. cc
  ingest_records-returns (r ∷ rs) total p h t = go (parse_records-Succeeds (r ∷ rs) [] 0 h t refl)
    where
      stored :
          (ds : List Extrinsic) (skipped : ℕ)
          → all_accepted accepts ds ≡ true
          → (store_parsed accepts ds skipped total p).0 ≢ failed
      stored [] skipped a = λ f. cc
      stored (d ∷ ds) skipped a =
          let is_new : Extrinsic → Bool = λ e. not (is_existing p.rows e) in
          let new = filter is_new (d ∷ ds) in
          after_batches-returns (length new)
            (skipped + length (filter (is_existing p.rows) (d ∷ ds))) total p
            (create_batches accepts (length new) new p.rows)
            (create_batches-created accepts (length new) new p.rows
              (filter_accepted is_new (d ∷ ds) a))

      go :
          (f : List Extrinsic × ℕ) × (parse_records (r ∷ rs) [] 0 ≡ ok f)
            × (all_accepted accepts f.0 ≡ true)
          → (after_parse accepts (parse_records (r ∷ rs) [] 0) total p).0 ≢ failed
      go ((ds, skipped), e, a) = rw (e, after_parse) (stored ds skipped a)

module _ (accepts : Extrinsic → Bool) (loads : Text → Result Json) (dir : Directory) where
  AllParse-drop :
      (start : ℕ) (lines : List Text)
      → AllParse (records_of loads lines)
      → AllParse (records_of loads (drop start lines))
  AllParse-drop start lines h =
      AllParse-after (records_of loads (take start lines)) (records_of loads (drop start lines)) (
        subst AllParse
          (ap (records_of loads) (sym (take-append-drop start lines))
            ∙ records_of-append loads (take start lines) (drop start lines))
          h)

  AllTaken-drop :
      (start : ℕ) (lines : List Text)
      → AllTaken accepts (records_of loads lines)
      → AllTaken accepts (records_of loads (drop start lines))
  AllTaken-drop start lines h =
      AllTaken-after accepts (records_of loads (take start lines))
        (records_of loads (drop start lines))
        (subst (AllTaken accepts)
          (ap (records_of loads) (sym (take-append-drop start lines))
            ∙ records_of-append loads (take start lines) (drop start lines))
          h)

  ingest_from-returns :
      (start : ℕ) (rows : List Extrinsic)
      → AllParse (records_of loads (dir_lines dir))
      → AllTaken accepts (records_of loads (dir_lines dir))
      → (ingest_from accepts loads dir start rows).0 ≢ failed
  unfolding ingest_from
  ingest_from-returns start rows h taken =
      let read = read_partitioned_dir-lem loads dir start in
      rw (read.0, read.1)
        (ingest_records-returns accepts _ (length (dir_lines dir)) _
          (AllParse-drop start (dir_lines dir) h) (AllTaken-drop start (dir_lines dir) taken))

  ingest_extrinsics-returns :
      (p : Ingestion)
      → AllParse (records_of loads (dir_lines dir))
      → AllTaken accepts (records_of loads (dir_lines dir))
      → (ingest_extrinsics accepts loads dir p).0 ≢ failed
  unfolding ingest_extrinsics
  ingest_extrinsics-returns p h taken =
      let start = start_line_of p.checkpoint in
      elim (Bool-cases (ltb (read_partitioned_dir loads dir start).1 start)) [
        | inl t ↦ rw t (ingest_from-returns 0 p.rows h taken)
        | inr n ↦ rw n (ingest_from-returns start p.rows h taken)
      ]

  -- If the parser raises at no record of the directory and gives texts as hashes, the database takes the
  -- rows that it gives, and what lies before the checkpoint is stored, then a run returns, and every valid
  -- record of the directory has its row afterwards.
  pub ingest_extrinsics-IsComplete :
      (p : Ingestion)
      → IsCurrent loads (dir_lines dir) p
      → AllParse (records_of loads (dir_lines dir))
      → AllTaken accepts (records_of loads (dir_lines dir))
      → ((ingest_extrinsics accepts loads dir p).0 ≢ failed)
        × AllStored loads (dir_lines dir) (ingest_extrinsics accepts loads dir p).1.rows
  ingest_extrinsics-IsComplete p current h taken =
      let returns = ingest_extrinsics-returns p h taken in
      (returns, (ingest_extrinsics-IsCaughtUp loads accepts dir p current).stored returns)
