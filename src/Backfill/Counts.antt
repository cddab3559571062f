-- ===== src/Backfill/Counts.antt =====
-- What `_backfill_blocks` counts and keeps.
use sentinel_tower.Prelude.{
  ℕ, suc, ◌+◌, ◌≡◌, refl, Bool, false, List, [], ◌∷◌, length, Bool-cases, inl, inr, arith,
}
use sentinel_tower.Prelude.Int.{ℤ, pos, negsuc}
use sentinel_tower.Json.{Result}
use sentinel_tower.Extrinsics.Sync.{Db, Setup, Block, Outcome, stored, unavailable, failed}
use sentinel_tower.Extrinsics.Sync.Stored.{IsUnique}
use sentinel_tower.Extrinsics.Sync.Rows.{store_block_extrinsics-IsUnique}
use sentinel_tower.Backfill.{Provider, pick_provider, store_at, tally, backfill_blocks}

abbrev pub total : (ℕ × ℕ) × Db → ℕ
total ((synced, errors), db) = synced + errors

total-tally : (o : Outcome) (r : (ℕ × ℕ) × Db) → total (tally o r) ≡ suc (total r)
unfolding tally
total-tally (stored a n) ((synced, errors), db) = omega arith
total-tally unavailable ((synced, errors), db) = omega arith
total-tally failed ((synced, errors), db) = omega arith

tally-db : (o : Outcome) (r : (ℕ × ℕ) × Db) → (tally o r).1 ≡ r.1
unfolding tally
tally-db (stored a n) ((synced, errors), db) = refl
tally-db unavailable ((synced, errors), db) = refl
tally-db failed ((synced, errors), db) = refl

module _ (setup : Setup) (ingest : Provider → ℕ → Result Block) (should_stop : ℕ → Bool) where
  store_at-IsUnique :
      (p : Provider) (b : ℤ) (db : Db)
      → IsUnique db.rows
      → IsUnique (store_at setup ingest should_stop p b db).1.rows
  unfolding store_at
  store_at-IsUnique p (pos n) db u = store_block_extrinsics-IsUnique setup (ingest p) n db u
  store_at-IsUnique p (negsuc n) db u = u

  -- A backfill keeps the hashes of the extrinsics table unique, however many blocks fail and whenever
  -- it is stopped.
  backfill_blocks-IsUnique :
      (i : ℕ) (blocks : List ℤ) (head : ℤ) (db : Db)
      → IsUnique db.rows
      → IsUnique (backfill_blocks setup ingest should_stop i blocks head db).1.rows
  unfolding backfill_blocks
  backfill_blocks-IsUnique i [] head db u = u
  backfill_blocks-IsUnique i (b ∷ blocks) head db u =
      let s = store_at setup ingest should_stop (pick_provider b head) b db in
      elim (Bool-cases (should_stop i)) [
        | inl e ↦ rw e u
        | inr e ↦
            rw (e, tally-db s.0 (backfill_blocks setup ingest should_stop (suc i) blocks head s.1))
              (backfill_blocks-IsUnique (suc i) blocks head s.1
                (store_at-IsUnique (pick_provider b head) b db u))
      ]

  -- Every block is counted as stored or as an error, unless the backfill is told to stop.
  backfill_blocks-total :
      (i : ℕ) (blocks : List ℤ) (head : ℤ) (db : Db)
      → ((j : ℕ) → should_stop j ≡ false)
      → total (backfill_blocks setup ingest should_stop i blocks head db) ≡ length blocks
  unfolding backfill_blocks
  backfill_blocks-total i [] head db never = refl
  backfill_blocks-total i (b ∷ blocks) head db never =
      let s = store_at setup ingest should_stop (pick_provider b head) b db in
      rw (never i) (
        omega (
          arith,
          total-tally s.0 (backfill_blocks setup ingest should_stop (suc i) blocks head s.1),
          backfill_blocks-total (suc i) blocks head s.1 never,
        ))
