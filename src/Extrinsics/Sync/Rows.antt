-- ===== src/Extrinsics/Sync/Rows.antt =====
-- The rows that `store_block_extrinsics` leaves.
use sentinel_tower.Prelude.{ℕ, ◌≡◌, refl, sym, subst, ap, ◌∙◌, List, [], ◌∷◌, map}
use sentinel_tower.Json.{Json, Fields, Result, ok, raised}
use sentinel_tower.Extrinsics.Parse.{Extrinsic}
use sentinel_tower.Extrinsics.Hyperparams.{Store}
use sentinel_tower.Notifications.Channels.{Outbox}
use sentinel_tower.Extrinsics.Sync.{
  Event, Db, Setup, Block, record_of, existing_hashes, new_records, bulk_create, notify_new,
  sync_new, sync_extrinsics_to_db, store_read, store_block_extrinsics,
}
use sentinel_tower.Extrinsics.Sync.Stored.{
  IsUnique, bulk_create-IsUnique, contains-bulk_create, existing-sub, AllIn, bulk_create-AllIn,
  bulk_create-known,
}
use sentinel_tower.Extrinsics.Sync.Again.{
  AllHashed, Holds, Holds-ok, new_records-AllText, new_records-AllIn,
}

-- What the records add, or nothing.
abbrev created : Result (List Extrinsic) → List Extrinsic → List Extrinsic
created raised rows = rows
created (ok es) rows = bulk_create es rows

module _ (setup : Setup) (block : ℕ) where
  notify_new-rows :
      (existing : List Json) (events : List Event) (count : ℕ) (rows : List Extrinsic)
      (enriched : Result (List Extrinsic) × Store) (box : Outbox)
      → (notify_new setup block existing events count rows enriched box).1.rows ≡ rows
  unfolding notify_new
  notify_new-rows existing events count rows (raised, store) box = refl
  notify_new-rows existing events count rows (ok es, store) box = refl

  sync_new-rows :
      (existing : List Json) (events : List Event) (records : Result (List Extrinsic)) (db : Db)
      → (sync_new setup block existing events records db).1.rows ≡ created records db.rows
  unfolding sync_new
  sync_new-rows existing events raised db = refl
  sync_new-rows existing events (ok es) db = notify_new-rows existing events _ _ _ db.box

  abbrev records_of : Json → List Fields → List Extrinsic → Result (List Extrinsic)
  records_of timestamp dumps rows =
      new_records (existing_hashes block rows) (map (record_of block timestamp) dumps)

  sync-rows :
      (timestamp : Json) (dumps : List Fields) (events : List Event) (db : Db)
      → (sync_extrinsics_to_db setup block timestamp dumps events db).1.rows
        ≡ created (records_of timestamp dumps db.rows) db.rows
  unfolding sync_extrinsics_to_db new_records bulk_create
  sync-rows timestamp [] events db = refl
  sync-rows timestamp (d ∷ dumps) events db = sync_new-rows _ events _ db

  created-IsUnique :
      (records : Result (List Extrinsic)) (rows : List Extrinsic)
      → IsUnique rows
      → IsUnique (created records rows)
  created-IsUnique raised rows u = u
  created-IsUnique (ok es) rows u = bulk_create-IsUnique es rows u

  created-again :
      (timestamp : Json) (dumps : List Fields) (rows : List Extrinsic)
      → AllHashed (map (record_of block timestamp) dumps)
      → (let rows' = created (records_of timestamp dumps rows) rows in
          created (records_of timestamp dumps rows') rows' ≡ rows')
  created-again timestamp dumps rows t = go (records_of timestamp dumps rows) refl
    where
      go :
          (m : Result (List Extrinsic))
          → records_of timestamp dumps rows ≡ m
          → created (records_of timestamp dumps (created m rows)) (created m rows) ≡ created m rows
      go raised e = rw e refl
      go (ok es) e = known (records_of timestamp dumps (bulk_create es rows)) (
          new_records-AllIn (bulk_create es rows) (existing_hashes block rows)
            (existing_hashes block (bulk_create es rows))
            (λ h c. contains-bulk_create h es rows (existing-sub block h rows c))
            (map (record_of block timestamp) dumps) es e
            (bulk_create-AllIn es rows (
              Holds-ok _
                (new_records-AllText (existing_hashes block rows)
                  (map (record_of block timestamp) dumps) t)
                e)))
        where
          known :
              (m : Result (List Extrinsic))
              → Holds (λ ns. AllIn ns (bulk_create es rows)) m
              → created m (bulk_create es rows) ≡ bulk_create es rows
          known raised h = refl
          known (ok ns) h = bulk_create-known ns (bulk_create es rows) h

module _ (setup : Setup) (ingest : ℕ → Result Block) (block : ℕ) where
  store_read-rows :
      (read : Block) (db : Db)
      → (store_read setup ingest block read db).1.rows
        ≡ created (records_of setup block read.timestamp read.extrinsics db.rows) db.rows
  unfolding store_read new_records bulk_create
  store_read-rows read db = go read.extrinsics refl
    where
      go :
          (dumps : List Fields)
          → read.extrinsics ≡ dumps
          → (store_read setup ingest block read db).1.rows
            ≡ created (records_of setup block read.timestamp dumps db.rows) db.rows
      go [] e = rw e refl
      go (d ∷ dumps) e = rw e (sync-rows setup block read.timestamp (d ∷ dumps) read.events db)

  -- The rows that follow: those of the block that was read, or the same.
  abbrev next : Result Block → List Extrinsic → List Extrinsic
  next raised rows = rows
  next (ok read) rows = created (records_of setup block read.timestamp read.extrinsics rows) rows

  store_block-rows :
      (db : Db)
      → (store_block_extrinsics setup ingest block db).1.rows ≡ next (ingest block) db.rows
  unfolding store_block_extrinsics
  store_block-rows db = go (ingest block) refl
    where
      go :
          (m : Result Block)
          → ingest block ≡ m
          → (store_block_extrinsics setup ingest block db).1.rows ≡ next m db.rows
      go raised e = rw (e, store_block_extrinsics) refl
      go (ok read) e = rw (e, store_block_extrinsics) (store_read-rows read db)

  next-IsUnique :
      (m : Result Block) (rows : List Extrinsic) → IsUnique rows → IsUnique (next m rows)
  next-IsUnique raised rows u = u
  next-IsUnique (ok read) rows u = created-IsUnique setup block _ rows u

  -- Storing a block keeps the hashes of the extrinsics table unique, whatever the block gives.
  pub store_block_extrinsics-IsUnique :
      (db : Db) → IsUnique db.rows → IsUnique (store_block_extrinsics setup ingest block db).1.rows
  store_block_extrinsics-IsUnique db u =
      subst IsUnique (sym (store_block-rows db)) (next-IsUnique (ingest block) db.rows u)

  next-again :
      (m : Result Block) (rows : List Extrinsic)
      → ((read : Block)
          → m ≡ ok read
          → AllHashed (map (record_of block read.timestamp) read.extrinsics))
      → next m (next m rows) ≡ next m rows
  next-again raised rows hashed = refl
  next-again (ok read) rows hashed =
      created-again setup block read.timestamp read.extrinsics rows (hashed read refl)

  -- A block that is stored again adds no row, if the SDK gives every extrinsic's hash as a text.
  pub store_block_extrinsics_again :
      (db : Db)
      → ((read : Block)
          → ingest block ≡ ok read
          → AllHashed (map (record_of block read.timestamp) read.extrinsics))
      → (store_block_extrinsics setup ingest block
          (store_block_extrinsics setup ingest block db).1).1.rows
        ≡ (store_block_extrinsics setup ingest block db).1.rows
  store_block_extrinsics_again db hashed =
      store_block-rows (store_block_extrinsics setup ingest block db).1
      ∙ ap (next (ingest block)) (store_block-rows db)
      ∙ next-again (ingest block) db.rows hashed
      ∙ sym (store_block-rows db)
