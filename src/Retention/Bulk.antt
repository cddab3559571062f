-- ===== src/Retention/Bulk.antt =====
-- The loop over a bulk table: metagraph_weight, metagraph_bond, metagraph_collateral, extrinsics.
use sentinel_tower.Prelude.{
  inl, ℕ, ◌+◌, ◌<◌, ◌≡◌, refl, sym, ap, ◌∙◌, subst, Bool, true, false, not, List, [], ◌∷◌, filter,
  In, length, arith,
}
use sentinel_tower.Retention.{
  Row, Table, done, is_expired, in_batch, delete_simple_batch, prune_loop,
}
use sentinel_tower.Retention.Batches.{
  Keyed, Reorders, In-filter, filter-dropped, length-dropped, none_left, filter-all,
  in_batch-expired, in_batch-some, prune_loop-done,
}

module _ (order : List Row → List Row) (reorders : Reorders order) (cutoff size : ℕ)
    (positive : 0 < size) where
  abbrev old : Row → Bool
  old = is_expired cutoff

  abbrev chosen : List Row → Row → Bool
  chosen rows = in_batch (λ r. r.id) order old size rows

  -- What is kept while the rows of `start` are deleted.
  record Inv (start t : Table) : Type 0 where
    keyed : Keyed (λ r. r.id) t.rows
    others : filter (λ r. not (old r)) t.rows ≡ filter (λ r. not (old r)) start.rows
    total : t.deleted + length (filter old t.rows) ≡ start.deleted + length (filter old start.rows)

  Keyed-filter :
      (q : Row → Bool) (rows : List Row)
      → Keyed (λ r. r.id) rows
      → Keyed (λ r. r.id) (filter q rows)
  Keyed-filter q rows k r s i j e = k r s (In-filter q r rows i).0 (In-filter q s rows j).0 e

  module _ (start : Table) where
    step-expired :
        (t : Table) → Inv start t → (r : Row) → In r t.rows → chosen t.rows r ≡ true → old r ≡ true
    step-expired t v = in_batch-expired (λ r. r.id) order old size reorders t.rows v.keyed

    step-lowers :
        (t : Table)
        → Inv start t
        → (delete_simple_batch order cutoff size t).0
            + length (filter old (delete_simple_batch order cutoff size t).1.rows)
          ≡ length (filter old t.rows)
    unfolding delete_simple_batch
    step-lowers t v = length-dropped old (chosen t.rows) t.rows (step-expired t v)

    step-keeps : (t : Table) → Inv start t → Inv start (delete_simple_batch order cutoff size t).1
    unfolding delete_simple_batch
    step-keeps t v = record {
      keyed = Keyed-filter (λ r. not (chosen t.rows r)) t.rows v.keyed;
      others = filter-dropped old (chosen t.rows) t.rows (step-expired t v) ∙ v.others;
      total = omega (arith, v.total, length-dropped old (chosen t.rows) t.rows (step-expired t v));
    }

    step-stops :
        (t : Table)
        → Inv start t
        → (delete_simple_batch order cutoff size t).0 ≡ 0
        → length (filter old t.rows) ≡ 0
    unfolding delete_simple_batch
    step-stops t v z = go (filter old t.rows) refl
      where
        go : (ys : List Row) → filter old t.rows ≡ ys → length ys ≡ 0
        go [] e = refl
        go (y ∷ ys) e =
            elim (clash (In-filter old y t.rows (subst (λ l. In y l) (sym e) (inl refl)))) [ ]
          where
            clash : In y t.rows × (old y ≡ true) → ⊥
            clash (i, o) =
                found (in_batch-some (λ r. r.id) order old size reorders t.rows y i o positive)
              where
                found : ((s : Row) × In s t.rows × (chosen t.rows s ≡ true)) → ⊥
                found (s, j, c) = none_left (chosen t.rows) s t.rows z j c

  -- An uncapped loop over a table with unique ids ends, if its batches are not empty and its fuel is
  -- above the number of expired rows; then the rows are those that have not expired, in their order,
  -- and the count went up by the number of the expired ones.
  pub prune_loop-simple :
      (fuel : ℕ) (t : Table)
      → Keyed (λ r. r.id) t.rows
      → length (filter (is_expired cutoff) t.rows) < fuel
      → prune_loop (delete_simple_batch order cutoff size) false fuel t
        ≡ done (record {
          rows = filter (λ r. not (is_expired cutoff r)) t.rows;
          deleted = t.deleted + length (filter (is_expired cutoff) t.rows);
        })
  prune_loop-simple fuel t keyed lt = go (
      prune_loop-done (delete_simple_batch order cutoff size) (Inv t)
        (λ s. length (filter old s.rows)) (step-keeps t) (step-lowers t) (step-stops t) fuel t
        (record { keyed = keyed; others = refl; total = refl }) lt)
    where
      go :
          ((final : Table) × (prune_loop (delete_simple_batch order cutoff size) false fuel t
              ≡ done final)
            × Inv t final
            × (length (filter old final.rows) ≡ 0))
          → prune_loop (delete_simple_batch order cutoff size) false fuel t
            ≡ done (record {
              rows = filter (λ r. not (old r)) t.rows;
              deleted = t.deleted + length (filter old t.rows);
            })
      go (final, e, v, z) =
          e
          ∙ ap done (
              record_eq final (sym (filter-all old final.rows z) ∙ v.others)
                (omega (arith, v.total, z)))
        where
          record_eq :
              (a : Table) {rows : List Row} {n : ℕ}
              → a.rows ≡ rows
              → a.deleted ≡ n
              → a ≡ record { rows = rows; deleted = n }
          record_eq a p q = cc
