-- ===== src/Dagster/Extrinsics/Ingested.antt =====
-- What one run of `ingest_extrinsics` of app/src/project/dagster/jobs.py leaves in the table.
use Prim.Native.String.{String}
use sentinel_tower.Prelude.{
  ℕ, ◌≡◌, ◌≢◌, refl, Bool, true, false, not, List, [], ◌∷◌, filter, length, arith, Bool-cases, inl,
  inr,
}
use sentinel_tower.Json.{Json, str, Result, ok, raised}
use sentinel_tower.Extrinsics.Parse.{Extrinsic}
use sentinel_tower.Extrinsics.Sync.{contains_hash}
use sentinel_tower.Extrinsics.Sync.Stored.{
  hashes, IsUnique, bulk_create-IsUnique, contains-bulk_create,
}
use sentinel_tower.Dagster.Extrinsics.{
  Ingestion, IngestReport, failed, parse_records, is_existing, create_batches, after_batches,
  store_parsed, after_parse, ingest_records,
}
use sentinel_tower.Dagster.Extrinsics.Hashes.{
  Has, AnyGives, parse_records-Has, bulk_create-Has, filter-Has,
}
use sentinel_tower.Dagster.Extrinsics.Stored.{create_batches-eq, create_batches-keeps}

-- What the records leave: the table keeps its rows and stays unique, and if the op returns, every valid
-- record whose hash is a text has a row.
abbrev pub IsIngested : List Json → List Extrinsic → IngestReport × Ingestion → Type 0
IsIngested records rows (r, p) =
    (IsUnique rows → IsUnique p.rows)
    × ((s : String) → Has s rows → Has s p.rows)
    × ((s : String) → r ≢ failed → AnyGives s records → Has s p.rows)

after_batches-IsIngested :
    (records : List Json) (processed skipped total : ℕ) (p : Ingestion) (c : Bool × List Extrinsic)
    → (IsUnique p.rows → IsUnique c.1)
    → ((s : String) → Has s p.rows → Has s c.1)
    → ((s : String) → c.0 ≡ true → AnyGives s records → Has s c.1)
    → IsIngested records p.rows (after_batches processed skipped total p c)
unfolding after_batches
after_batches-IsIngested records processed skipped total p (true, rows) u k g =
    (u, k, λ s n a. g s refl a)
after_batches-IsIngested records processed skipped total p (false, rows) u k g =
    (u, k, λ s n a. absurd (n refl))

module _ (accepts : Extrinsic → Bool) where
  store_parsed-IsIngested :
      (records : List Json) (ds : List Extrinsic) (skipped total : ℕ) (p : Ingestion)
      → ((s : String) → AnyGives s records → Has s ds)
      → IsIngested records p.rows (store_parsed accepts ds skipped total p)
  unfolding store_parsed contains_hash
  store_parsed-IsIngested records [] skipped total p given =
      ((λ u. u), (λ s h. h), (λ s n g. absurd_nil s (given s g)))
    where
      absurd_nil : (s : String) → Has s [] → Has s p.rows
      absurd_nil s h = cc
  store_parsed-IsIngested records (d ∷ ds) skipped total p given =
      let new = filter (λ e. not (is_existing p.rows e)) (d ∷ ds) in
      after_batches-IsIngested records _ _ total p (create_batches accepts (length new) new p.rows)
        (λ u.
          create_batches-keeps accepts IsUnique (λ es rows v. bulk_create-IsUnique es rows v)
            (length new) new p.rows u)
        (λ s h.
          create_batches-keeps accepts (Has s) (λ es rows v. contains-bulk_create (str s) es rows v)
            (length new) new p.rows h)
        (λ s all g.
          rw (create_batches-eq accepts (length new) new p.rows (omega arith) all)
            (elim (Bool-cases (contains_hash (str s) (hashes p.rows))) [
              | inl t ↦ contains-bulk_create (str s) new p.rows t
              | inr m ↦ bulk_create-Has s new p.rows (filter-Has s p.rows (d ∷ ds) m (given s g))
            ]))

  pub ingest_records-IsIngested :
      (records : List Json) (total : ℕ) (p : Ingestion)
      → IsIngested records p.rows (ingest_records accepts records total p)
  unfolding ingest_records
  ingest_records-IsIngested [] total p = ((λ u. u), (λ s h. h), (λ s n g. elim g [ ]))
  ingest_records-IsIngested (r ∷ rs) total p = go (parse_records (r ∷ rs) [] 0) refl
    where
      go :
          (m : Result (List Extrinsic × ℕ))
          → parse_records (r ∷ rs) [] 0 ≡ m
          → IsIngested (r ∷ rs) p.rows (after_parse accepts m total p)
      go raised e = ((λ u. u), (λ s h. h), (λ s n g. absurd (n refl)))
      go (ok (ds, skipped)) e =
          store_parsed-IsIngested (r ∷ rs) ds skipped total p
            (λ s g. (parse_records-Has s (r ∷ rs) [] 0 (inr g)).after (ds, skipped) e)
