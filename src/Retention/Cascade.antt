-- ===== src/Retention/Cascade.antt =====
-- The loop over the snapshots: each batch takes the metrics of its snapshots with it.
use sentinel_tower.Prelude.{
  ℕ, ◌+◌, ◌<◌, ◌≡◌, refl, sym, ap, ◌∙◌, subst, Bool, true, false, not, List, [], ◌∷◌, map, filter,
  In, length, arith, inl,
}
use sentinel_tower.Retention.{
  Snapshot, Metrics, Snapshots, done, is_in, take, batch, is_expired_snapshot, in_batch,
  delete_snapshot_batch, prune_loop,
}
use sentinel_tower.Retention.Batches.{
  Keyed, Reorders, In-filter, filter-In, In-take, is_in-map, map-is_in, filter-dropped,
  length-dropped, none_left, filter-all, in_batch-expired, in_batch-some, prune_loop-done,
}

-- Whether the metrics belong to a snapshot that has expired.
abbrev pub is_expired_metrics : ℕ → List Snapshot → Metrics → Bool
is_expired_metrics cutoff snapshots m =
    is_in m.snapshot_id (map (λ s. s.id) (filter (is_expired_snapshot cutoff) snapshots))

-- What is left of the tables, and the counts.
abbrev pub without_expired : ℕ → Snapshots → Snapshots
without_expired cutoff t = record {
  snapshots = filter (λ s. not (is_expired_snapshot cutoff s)) t.snapshots;
  metrics = filter (λ m. not (is_expired_metrics cutoff t.snapshots m)) t.metrics;
  deleted_snapshots =
      t.deleted_snapshots + length (filter (is_expired_snapshot cutoff) t.snapshots);
  deleted_metrics =
      t.deleted_metrics + length (filter (is_expired_metrics cutoff t.snapshots) t.metrics);
}

module _ (order : List Snapshot → List Snapshot) (reorders : Reorders order) (cutoff size : ℕ)
    (positive : 0 < size) where
  abbrev old : Snapshot → Bool
  old = is_expired_snapshot cutoff

  abbrev key : Snapshot → ℕ
  key s = s.id

  abbrev chosen : List Snapshot → Snapshot → Bool
  chosen snapshots = in_batch key order old size snapshots

  abbrev chosen_metrics : List Snapshot → Metrics → Bool
  chosen_metrics snapshots m = is_in m.snapshot_id (batch key order old size snapshots)

  abbrev step : Snapshots → ℕ × Snapshots
  step = delete_snapshot_batch order cutoff size

  abbrev hit : List Snapshot → Metrics → Bool
  hit = is_expired_metrics cutoff

  -- What is kept while the snapshots of `start` are deleted.
  record Inv (start t : Snapshots) : Type 0 where
    keyed : Keyed key t.snapshots
    from_start : (s : Snapshot) → In s t.snapshots → In s start.snapshots
    others : filter (λ s. not (old s)) t.snapshots ≡ filter (λ s. not (old s)) start.snapshots
    total :
        t.deleted_snapshots + length (filter old t.snapshots)
        ≡ start.deleted_snapshots + length (filter old start.snapshots)
    other_metrics :
        filter (λ m. not (hit start.snapshots m)) t.metrics
        ≡ filter (λ m. not (hit start.snapshots m)) start.metrics
    total_metrics :
        t.deleted_metrics + length (filter (hit start.snapshots) t.metrics)
        ≡ start.deleted_metrics + length (filter (hit start.snapshots) start.metrics)
    held : (m : Metrics) → In m t.metrics → hit start.snapshots m ≡ true → hit t.snapshots m ≡ true

  Keyed-filter :
      (q : Snapshot → Bool) (rows : List Snapshot) → Keyed key rows → Keyed key (filter q rows)
  Keyed-filter q rows k r s i j e = k r s (In-filter q r rows i).0 (In-filter q s rows j).0 e

  -- A number that is an id of an expired snapshot is that of one in any list that holds it.
  hit-of :
      (n : ℕ) (s : Snapshot) (snapshots : List Snapshot)
      → In s snapshots
      → old s ≡ true
      → n ≡ s.id
      → is_in n (map key (filter old snapshots)) ≡ true
  hit-of n s snapshots i o e =
      subst (λ k. is_in k (map key (filter old snapshots)) ≡ true) (sym e)
        (map-is_in key s (filter old snapshots) (filter-In old s snapshots i o))

  module _ (start : Snapshots) where
    step-expired :
        (t : Snapshots)
        → Inv start t
        → (s : Snapshot) → In s t.snapshots
        → chosen t.snapshots s ≡ true
        → old s ≡ true
    step-expired t v = in_batch-expired key order old size reorders t.snapshots v.keyed

    step-metrics :
        (t : Snapshots)
        → Inv start t
        → (m : Metrics) → In m t.metrics
        → chosen_metrics t.snapshots m ≡ true
        → hit start.snapshots m ≡ true
    unfolding batch
    step-metrics t v m i c =
        go (is_in-map key m.snapshot_id (take size (order (filter old t.snapshots))) c)
      where
        go :
            ((s : Snapshot) × In s (take size (order (filter old t.snapshots)))
              × (m.snapshot_id ≡ s.id))
            → hit start.snapshots m ≡ true
        go (s, j, e) = at_start (
            In-filter old s t.snapshots
              ((reorders (filter old t.snapshots) s).0 (In-take size s _ j)))
          where
            at_start : In s t.snapshots × (old s ≡ true) → hit start.snapshots m ≡ true
            at_start (k, o) = hit-of m.snapshot_id s start.snapshots (v.from_start s k) o e

    step-held :
        (t : Snapshots)
        → Inv start t
        → (m : Metrics) → In m (filter (λ m. not (chosen_metrics t.snapshots m)) t.metrics)
        → hit start.snapshots m ≡ true
        → hit (filter (λ s. not (chosen t.snapshots s)) t.snapshots) m ≡ true
    unfolding in_batch
    step-held t v m i h = go (In-filter _ m t.metrics i)
      where
        go :
            In m t.metrics × (not (chosen_metrics t.snapshots m) ≡ true)
            → hit (filter (λ s. not (chosen t.snapshots s)) t.snapshots) m ≡ true
        go (j, c) = owner (is_in-map key m.snapshot_id (filter old t.snapshots) (v.held m j h))
          where
            owner :
                ((s : Snapshot) × In s (filter old t.snapshots) × (m.snapshot_id ≡ s.id))
                → hit (filter (λ s. not (chosen t.snapshots s)) t.snapshots) m ≡ true
            owner (s, k, e) =
                hit-of m.snapshot_id s (filter (λ s. not (chosen t.snapshots s)) t.snapshots)
                  (filter-In (λ s. not (chosen t.snapshots s)) s t.snapshots
                    (In-filter old s t.snapshots k).0
                    (subst (λ n. not (is_in n (batch key order old size t.snapshots)) ≡ true) e c))
                  (In-filter old s t.snapshots k).1 e

    step-lowers :
        (t : Snapshots)
        → Inv start t
        → (step t).0 + length (filter old (step t).1.snapshots) ≡ length (filter old t.snapshots)
    unfolding delete_snapshot_batch
    step-lowers t v = length-dropped old (chosen t.snapshots) t.snapshots (step-expired t v)

    step-keeps : (t : Snapshots) → Inv start t → Inv start (step t).1
    unfolding delete_snapshot_batch
    step-keeps t v = record {
      keyed = Keyed-filter (λ s. not (chosen t.snapshots s)) t.snapshots v.keyed;
      from_start = λ s i. v.from_start s (In-filter _ s t.snapshots i).0;
      others = filter-dropped old (chosen t.snapshots) t.snapshots (step-expired t v) ∙ v.others;
      total =
          omega (
            arith,
            v.total,
            length-dropped old (chosen t.snapshots) t.snapshots (step-expired t v),
          );
      other_metrics =
          filter-dropped (hit start.snapshots) (chosen_metrics t.snapshots) t.metrics
            (step-metrics t v)
          ∙ v.other_metrics;
      total_metrics = omega (
        arith,
        v.total_metrics,
        length-dropped (hit start.snapshots) (chosen_metrics t.snapshots) t.metrics
            (step-metrics t v),
      );
      held = step-held t v;
    }

    step-stops :
        (t : Snapshots) → Inv start t → (step t).0 ≡ 0 → length (filter old t.snapshots) ≡ 0
    unfolding delete_snapshot_batch
    step-stops t v z = go (filter old t.snapshots) refl
      where
        go : (ys : List Snapshot) → filter old t.snapshots ≡ ys → length ys ≡ 0
        go [] e = refl
        go (y ∷ ys) e =
            elim (clash (In-filter old y t.snapshots (subst (λ l. In y l) (sym e) (inl refl)))) [ ]
          where
            clash : In y t.snapshots × (old y ≡ true) → ⊥
            clash (i, o) =
                found (in_batch-some key order old size reorders t.snapshots y i o positive)
              where
                found : ((s : Snapshot) × In s t.snapshots × (chosen t.snapshots s ≡ true)) → ⊥
                found (s, j, c) = none_left (chosen t.snapshots) s t.snapshots z j c

    -- No metrics of the start's expired snapshots are left with no expired snapshot.
    metrics-left :
        (t : Snapshots)
        → Inv start t
        → length (filter old t.snapshots) ≡ 0
        → length (filter (hit start.snapshots) t.metrics) ≡ 0
    metrics-left t v z = go (filter (hit start.snapshots) t.metrics) refl
      where
        go : (ms : List Metrics) → filter (hit start.snapshots) t.metrics ≡ ms → length ms ≡ 0
        go [] e = refl
        go (m ∷ ms) e =
            elim (clash (
              In-filter (hit start.snapshots) m t.metrics
                (subst (λ l. In m l) (sym e) (inl refl)))) [ ]
          where
            clash : In m t.metrics × (hit start.snapshots m ≡ true) → ⊥
            clash (i, h) =
                found (is_in-map key m.snapshot_id (filter old t.snapshots) (v.held m i h))
              where
                found :
                    ((s : Snapshot) × In s (filter old t.snapshots) × (m.snapshot_id ≡ s.id)) → ⊥
                found (s, j, _) =
                    none_left old s t.snapshots z (In-filter old s t.snapshots j).0
                      (In-filter old s t.snapshots j).1

  -- An uncapped loop over snapshots with unique ids ends, if its batches are not empty and its fuel is
  -- above the number of expired snapshots; what is left are the snapshots that are a validator's or
  -- above the cutoff and the metrics of no other, and the counts went up by what was deleted.
  pub prune_loop-snapshots :
      (fuel : ℕ) (t : Snapshots)
      → Keyed (λ s. s.id) t.snapshots
      → length (filter (is_expired_snapshot cutoff) t.snapshots) < fuel
      → prune_loop (delete_snapshot_batch order cutoff size) false fuel t
        ≡ done (without_expired cutoff t)
  prune_loop-snapshots fuel t keyed lt = go (
      prune_loop-done step (Inv t) (λ s. length (filter old s.snapshots)) (step-keeps t)
        (step-lowers t) (step-stops t) fuel t
        (record {
          keyed = keyed;
          from_start = λ s i. i;
          others = refl;
          total = refl;
          other_metrics = refl;
          total_metrics = refl;
          held = λ m i h. h;
        })
        lt)
    where
      go :
          ((final : Snapshots) × (prune_loop step false fuel t ≡ done final)
            × Inv t final
            × (length (filter old final.snapshots) ≡ 0))
          → prune_loop step false fuel t ≡ done (without_expired cutoff t)
      go (final, e, v, z) =
          e
          ∙ ap done (
              record_eq final (sym (filter-all old final.snapshots z) ∙ v.others)
                (sym (filter-all (hit t.snapshots) final.metrics (metrics-left t final v z))
                  ∙ v.other_metrics)
                (omega (arith, v.total, z))
                (omega (arith, v.total_metrics, metrics-left t final v z)))
        where
          record_eq :
              (a : Snapshots) {ss : List Snapshot} {ms : List Metrics} {n k : ℕ}
              → a.snapshots ≡ ss
              → a.metrics ≡ ms
              → a.deleted_snapshots ≡ n
              → a.deleted_metrics ≡ k
              → a ≡ record {
                snapshots = ss;
                metrics = ms;
                deleted_snapshots = n;
                deleted_metrics = k;
              }
          record_eq a p q r s = cc
