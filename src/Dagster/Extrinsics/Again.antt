-- ===== src/Dagster/Extrinsics/Again.antt =====
-- Runs of `ingest_extrinsics` of app/src/project/dagster/jobs.py one after another, over data that grow.
use Prim.Native.String.{String}
use sentinel_tower.Prelude.{
  ℕ, zero, suc, Bool, true, false, ◌≤◌, ◌≡◌, ◌≢◌, refl, sym, ap, ◌∙◌, subst, some, List, [], ◌∷◌,
  ◌++◌, length, ltb, arith, Bool-cases, inl, inr, ◌⊎◌,
}
use sentinel_tower.Json.{Json, Result, ok, raised}
use sentinel_tower.Extrinsics.Parse.{Extrinsic}
use sentinel_tower.Extrinsics.Sync.Stored.{IsUnique}
use sentinel_tower.Retention.{take}
use sentinel_tower.Storage.{Text}
use sentinel_tower.Dagster.Reader.{Directory, read_partitioned_dir}
use sentinel_tower.Dagster.Reader.Lines.{
  dir_lines, drop, records_of, records_of-append, read_partitioned_dir-lem,
}
use sentinel_tower.Dagster.Extrinsics.{
  Ingestion, IngestReport, failed, parse_records, after_batches, store_parsed, after_parse,
  ingest_records, start_line_of, ingest_from, ingest_extrinsics,
}
use sentinel_tower.Dagster.Extrinsics.Hashes.{Has, AnyGives}
use sentinel_tower.Dagster.Extrinsics.Stored.{take-append-drop}
use sentinel_tower.Dagster.Extrinsics.Ingested.{IsIngested, ingest_records-IsIngested}

-- The checkpoint afterwards is the number of all lines, or the line that the run started at.
abbrev IsAt : ℕ → ℕ → IngestReport × Ingestion → Type 0
IsAt start total (r, p) = ((r ≢ failed) × (p.checkpoint ≡ some total)) ⊎ (p.checkpoint ≡ some start)

after_batches-IsAt :
    (processed skipped start total : ℕ) (p : Ingestion) (c : Bool × List Extrinsic)
    → p.checkpoint ≡ some start
    → IsAt start total (after_batches processed skipped total p c)
unfolding after_batches
after_batches-IsAt processed skipped start total p (true, rows) e = inl ((λ f. cc), refl)
after_batches-IsAt processed skipped start total p (false, rows) e = inr e

ingest_records-IsAt :
    (accepts : Extrinsic → Bool) (records : List Json) (start total : ℕ) (p : Ingestion)
    → p.checkpoint ≡ some start
    → IsAt start total (ingest_records accepts records total p)
unfolding ingest_records after_parse store_parsed
ingest_records-IsAt accepts [] start total p e = inl ((λ f. cc), refl)
ingest_records-IsAt accepts (r ∷ rs) start total p e = go (parse_records (r ∷ rs) [] 0)
  where
    go : (m : Result (List Extrinsic × ℕ)) → IsAt start total (after_parse accepts m total p)
    go raised = inr e
    go (ok ([], skipped)) = inr e
    go (ok (d ∷ ds, skipped)) = after_batches-IsAt _ _ start total p _ e

module _ (s : String) where
  AnyGives-append : (rs qs : List Json) → AnyGives s (rs ++ qs) → AnyGives s rs ⊎ AnyGives s qs
  AnyGives-append [] qs g = inr g
  AnyGives-append (r ∷ rs) qs (inl g) = inl (inl g)
  AnyGives-append (r ∷ rs) qs (inr g) = elim (AnyGives-append rs qs g) [
    | inl h ↦ inl (inr h)
    | inr h ↦ inr h
  ]

  AnyGives-before : (rs qs : List Json) → AnyGives s rs → AnyGives s (rs ++ qs)
  AnyGives-before [] qs g = elim g [ ]
  AnyGives-before (r ∷ rs) qs (inl g) = inl g
  AnyGives-before (r ∷ rs) qs (inr g) = inr (AnyGives-before rs qs g)

module _ (loads : Text → Result Json) where
  -- The valid records of some lines all have their rows.
  abbrev pub AllStored : List Text → List Extrinsic → Type 0
  AllStored lines rows = (s : String) → AnyGives s (records_of loads lines) → Has s rows

  -- What lies before the checkpoint is stored.
  abbrev pub IsCurrent : List Text → Ingestion → Type 0
  IsCurrent lines p = AllStored (take (start_line_of p.checkpoint) lines) p.rows

  AllStored-join :
      (k : ℕ) (lines : List Text) (rows : List Extrinsic)
      → AllStored (take k lines) rows
      → AllStored (drop k lines) rows
      → AllStored lines rows
  AllStored-join k lines rows f g s a =
      elim (AnyGives-append s (records_of loads (take k lines)) (records_of loads (drop k lines)) (
        subst (AnyGives s)
          (ap (records_of loads) (sym (take-append-drop k lines))
            ∙ records_of-append loads (take k lines) (drop k lines))
          a)) [ inl b ↦ f s b | inr b ↦ g s b ]

  AllStored-take :
      (k : ℕ) (lines : List Text) (rows : List Extrinsic)
      → AllStored lines rows
      → AllStored (take k lines) rows
  AllStored-take k lines rows f s a = f s (
      subst (AnyGives s)
        (sym (
          ap (records_of loads) (sym (take-append-drop k lines))
          ∙ records_of-append loads (take k lines) (drop k lines)))
        (AnyGives-before s (records_of loads (take k lines)) (records_of loads (drop k lines)) a))

  take-append_of_le :
      (k : ℕ) (lines new : List Text) → k ≤ length lines → take k (lines ++ new) ≡ take k lines
  unfolding take
  take-append_of_le zero lines new le = refl
  take-append_of_le (suc k) [] new le = absurd (omega arith)
  take-append_of_le (suc k) (l ∷ lines) new le =
      ap (λ r. l ∷ r) (take-append_of_le k lines new (omega arith))

  -- What holds after a run over some lines.
  pub record IsCaughtUp (lines : List Text) (rows : List Extrinsic)
      (result : IngestReport × Ingestion) : Type 0 where
    pub unique : IsUnique rows → IsUnique result.1.rows
    pub kept : (s : String) → Has s rows → Has s result.1.rows
    pub stored : result.0 ≢ failed → AllStored lines result.1.rows
    pub current : (new : List Text) → IsCurrent (lines ++ new) result.1

  caught_up :
      (lines : List Text) (start : ℕ) (rows : List Extrinsic) (result : IngestReport × Ingestion)
      → start ≤ length lines
      → AllStored (take start lines) rows
      → IsIngested (records_of loads (drop start lines)) rows result
      → IsAt start (length lines) result
      → IsCaughtUp lines rows result
  caught_up lines start rows (r, p) le before h at_line = record {
    unique = h.0;
    kept = h.1;
    stored = stored;
    current = λ new. elim at_line [
      | inl x ↦ rw x.1 (
          rw (take-append_of_le (length lines) lines new (omega arith))
            (AllStored-take (length lines) lines p.rows (stored x.0)))
      | inr e ↦ rw e (rw (take-append_of_le start lines new le) (λ s g. h.1 s (before s g)))
    ];
  }
    where
      stored : r ≢ failed → AllStored lines p.rows
      stored n = AllStored-join start lines p.rows (λ s g. h.1 s (before s g)) (λ s g. h.2 s n g)

  nothing_before : (rows : List Extrinsic) → AllStored [] rows
  unfolding records_of
  nothing_before rows s g = elim g [ ]

  module _ (accepts : Extrinsic → Bool) (dir : Directory) where
    ingest_from-IsCaughtUp :
        (start : ℕ) (rows : List Extrinsic)
        → start ≤ length (dir_lines dir)
        → AllStored (take start (dir_lines dir)) rows
        → IsCaughtUp (dir_lines dir) rows (ingest_from accepts loads dir start rows)
    unfolding ingest_from
    ingest_from-IsCaughtUp start rows le before =
        let read = read_partitioned_dir-lem loads dir start in
        let p : Ingestion = record { rows = rows; checkpoint = some start } in
        rw (read.0, read.1)
          (caught_up (dir_lines dir) start rows _ le before
            (ingest_records-IsIngested accepts (records_of loads (drop start (dir_lines dir)))
              (length (dir_lines dir)) p)
            (ingest_records-IsAt accepts _ start (length (dir_lines dir)) p refl))

    -- If what lies before the checkpoint is stored, then so it is after a run, also when lines are added
    -- after all others; and if the run returns, every valid record of the directory has its row. The
    -- table keeps its rows and stays unique.
    pub ingest_extrinsics-IsCaughtUp :
        (p : Ingestion)
        → IsCurrent (dir_lines dir) p
        → IsCaughtUp (dir_lines dir) p.rows (ingest_extrinsics accepts loads dir p)
    unfolding ingest_extrinsics
    ingest_extrinsics-IsCaughtUp p current =
        let start = start_line_of p.checkpoint in
        let total = (read_partitioned_dir-lem loads dir start).1 in
        elim (Bool-cases (ltb (read_partitioned_dir loads dir start).1 start)) [
          | inl t ↦ rw t (ingest_from-IsCaughtUp 0 p.rows (omega arith) (nothing_before p.rows))
          | inr n ↦ rw n (ingest_from-IsCaughtUp start p.rows (ground arith) current)
        ]
