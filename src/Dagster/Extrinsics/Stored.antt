-- ===== src/Dagster/Extrinsics/Stored.antt =====
-- The batches that `ingest_extrinsics` of app/src/project/dagster/jobs.py creates.
use sentinel_tower.Prelude.{
  ℕ, zero, suc, ◌≤◌, ◌≡◌, refl, sym, ap, ◌∙◌, List, [], ◌∷◌, ◌++◌, length, arith, Bool, true, false,
  Bool-cases, inl, inr,
}
use sentinel_tower.Extrinsics.Parse.{Extrinsic}
use sentinel_tower.Extrinsics.Sync.{bulk_create}
use sentinel_tower.Retention.{take}
use sentinel_tower.Dagster.Reader.Lines.{drop}
use sentinel_tower.Dagster.Extrinsics.{batch_size, all_accepted, create_batches}

bulk_create-append :
    (es fs rows : List Extrinsic)
    → bulk_create (es ++ fs) rows ≡ bulk_create fs (bulk_create es rows)
unfolding bulk_create
bulk_create-append [] fs rows = refl
bulk_create-append (e ∷ es) fs rows = bulk_create-append es fs _

module _ {A : Type 0} where
  pub take-append-drop : (n : ℕ) (xs : List A) → take n xs ++ drop n xs ≡ xs
  unfolding take
  take-append-drop zero xs = refl
  take-append-drop (suc n) [] = refl
  take-append-drop (suc n) (x ∷ xs) = ap (λ r. x ∷ r) (take-append-drop n xs)

  length-drop-le : (n : ℕ) (xs : List A) → length (drop n xs) ≤ length xs
  length-drop-le zero xs = omega arith
  length-drop-le (suc n) [] = omega arith
  length-drop-le (suc n) (x ∷ xs) = omega (arith, length-drop-le n xs)

shorter :
    (fuel : ℕ) (new : List Extrinsic) → length new ≤ suc fuel → length (drop batch_size new) ≤ fuel
shorter fuel [] le = omega arith
shorter fuel (e ∷ es) le = omega (arith, length-drop-le 999 es)

module _ (accepts : Extrinsic → Bool) where
  -- If all are created, the batches together create what one call would.
  pub create_batches-eq :
      (fuel : ℕ) (new rows : List Extrinsic)
      → length new ≤ fuel
      → (create_batches accepts fuel new rows).0 ≡ true
      → (create_batches accepts fuel new rows).1 ≡ bulk_create new rows
  unfolding create_batches
  create_batches-eq zero [] rows le e = refl
  create_batches-eq zero (x ∷ es) rows le e = absurd (omega arith)
  create_batches-eq (suc fuel) new rows le e =
      elim (Bool-cases (all_accepted accepts (take batch_size new))) [
        | inr f ↦ absurd_false (rw (f, create_batches) at e)
        | inl t ↦
            rw (t, create_batches)
              (create_batches-eq fuel (drop batch_size new) _ (shorter fuel new le)
                  (rw (t, create_batches) at e)
                ∙ sym (bulk_create-append (take batch_size new) (drop batch_size new) rows)
                ∙ ap (λ es. bulk_create es rows) (take-append-drop batch_size new))
      ]
    where
      absurd_false :
          false ≡ true → (create_batches accepts (suc fuel) new rows).1 ≡ bulk_create new rows
      absurd_false q = cc

  -- What every call of `bulk_create` keeps, the batches keep, also where one is refused.
  pub create_batches-keeps :
      (P : List Extrinsic → Type 0)
      → ((es rows : List Extrinsic) → P rows → P (bulk_create es rows))
      → (fuel : ℕ) (new rows : List Extrinsic) → P rows
      → P (create_batches accepts fuel new rows).1
  unfolding create_batches
  create_batches-keeps P keeps zero new rows h = h
  create_batches-keeps P keeps (suc fuel) new rows h =
      elim (Bool-cases (all_accepted accepts (take batch_size new))) [
        | inr f ↦ rw (f, create_batches) h
        | inl t ↦
            rw (t, create_batches)
              (create_batches-keeps P keeps fuel (drop batch_size new) _
                (keeps (take batch_size new) rows h))
      ]

  all_accepted-parts :
      (n : ℕ) (es : List Extrinsic)
      → all_accepted accepts es ≡ true
      → (all_accepted accepts (take n es) ≡ true) × (all_accepted accepts (drop n es) ≡ true)
  unfolding take
  all_accepted-parts zero es h = (refl, h)
  all_accepted-parts (suc n) [] h = (refl, refl)
  all_accepted-parts (suc n) (e ∷ es) h =
      let here : accepts e ≡ true = ground arith in
      let parts = all_accepted-parts n es (ground arith) in (rw here parts.0, parts.1)

  pub create_batches-created :
      (fuel : ℕ) (new rows : List Extrinsic)
      → all_accepted accepts new ≡ true
      → (create_batches accepts fuel new rows).0 ≡ true
  unfolding create_batches
  create_batches-created zero new rows h = refl
  create_batches-created (suc fuel) new rows h =
      let parts = all_accepted-parts batch_size new h in
      rw (parts.0, create_batches) (create_batches-created fuel (drop batch_size new) _ parts.1)
