-- ===== src/Retention/Prune/Exact.antt =====
-- What an uncapped run of the metagraph's `prune_expired` deletes, and what a dry run counts.
use sentinel_tower.Prelude.{
  ℕ, zero, suc, ◌+◌, ◌<◌, ◌≡◌, refl, sym, ap, ◌∙◌, subst, Bool, true, false, not, ◌&&◌, Option,
  none, some, List, [], ◌∷◌, map, filter, In, length, length-filter-le, if◌then◌else◌, ◌==◌, arith,
  inl, inr, Bool-cases,
}
use sentinel_tower.Prelude.Int.{ℤ, pos, negsuc}
use sentinel_tower.Retention.{Row, Snapshot, Metrics, done, is_in, is_expired, is_expired_snapshot}
use sentinel_tower.Retention.Batches.{Keyed, Reorders, map-is_in}
use sentinel_tower.Retention.Bulk.{prune_loop-simple}
use sentinel_tower.Retention.Cascade.{is_expired_metrics, prune_loop-snapshots}
use sentinel_tower.Retention.Prune.{
  or_zero, Tables, pruned, at_least_one, or_setting, run_loop, after_loop, count, count_join,
  dry_counts, prune_table, prune_snapshots, prune_bulk, prune_tables, prune_metagraph,
}

module _ {R : Type 0} (row_id : R → ℕ) where
  -- The primary key: the ids of a table differ.
  abbrev pub Unique : List R → Type 0
  Unique [] = Unit
  Unique (r ∷ rs) = (is_in (row_id r) (map row_id rs) ≡ false) × Unique rs

  absent :
      (r : R) (rows : List R) (n : ℕ)
      → is_in n (map row_id rows) ≡ false
      → In r rows
      → n ≡ row_id r
      → ⊥
  absent r rows n u i e = clash (map-is_in row_id r rows i)
    where
      clash : is_in (row_id r) (map row_id rows) ≡ true → ⊥
      clash c = cc

  pub Unique-Keyed : (rows : List R) → Unique rows → Keyed row_id rows
  Unique-Keyed [] u r s i j e = elim i [ ]
  Unique-Keyed (t ∷ rows) (u, us) r s (inl p) (inl q) e = p ∙ sym q
  Unique-Keyed (t ∷ rows) (u, us) r s (inl p) (inr j) e =
      elim (absent s rows (row_id t) u j (ap row_id (sym p) ∙ e)) [ ]
  Unique-Keyed (t ∷ rows) (u, us) r s (inr i) (inl q) e =
      elim (absent r rows (row_id t) u i (ap row_id (sym q) ∙ sym e)) [ ]
  Unique-Keyed (t ∷ rows) (u, us) r s (inr i) (inr j) e = Unique-Keyed rows us r s i j e

eq-sym : (n m : ℕ) → (n == m) ≡ (m == n)
eq-sym n m = ground arith

eq_sound : (n m : ℕ) → (n == m) ≡ true → n ≡ m
eq_sound n m e = ground arith

module _ (cutoff : ℕ) where
  abbrev key : Snapshot → ℕ
  key s = s.id

  abbrev old : Snapshot → Bool
  old = is_expired_snapshot cutoff

  abbrev owns : ℕ → Snapshot → Bool
  owns n s = s.id == n && is_expired_snapshot cutoff s

  no_owner :
      (n : ℕ) (ss : List Snapshot)
      → is_in n (map key ss) ≡ false
      → (length (filter (owns n) ss) ≡ 0) × (is_in n (map key (filter old ss)) ≡ false)
  unfolding is_in
  no_owner n [] u = (refl, refl)
  no_owner n (s ∷ ss) u = elim (Bool-cases (n == s.id)) [
    | inl e ↦ clash (rw e at u)
    | inr e ↦ elim (Bool-cases (old s)) [
      | inl o ↦ rw (sym (eq-sym n s.id), e, o, e) (no_owner n ss (rw e at u))
      | inr o ↦ rw (sym (eq-sym n s.id), e, o) (no_owner n ss (rw e at u))
    ]
  ]
    where
      clash :
          true ≡ false
          → (length (filter (owns n) (s ∷ ss)) ≡ 0)
            × (is_in n (map key (filter old (s ∷ ss))) ≡ false)
      clash b = cc

  -- At most one snapshot has the id.
  one_owner :
      (n : ℕ) (ss : List Snapshot)
      → Unique key ss
      → length (filter (owns n) ss) ≡ (if is_in n (map key (filter old ss)) then 1 else 0)
  unfolding is_in
  one_owner n [] u = refl
  one_owner n (s ∷ ss) (u, us) = elim (Bool-cases (n == s.id)) [
    | inl e ↦
        first e
          (no_owner n ss (subst (λ k. is_in k (map key ss) ≡ false) (sym (eq_sound n s.id e)) u))
    | inr e ↦ elim (Bool-cases (old s)) [
      | inl o ↦ rw (sym (eq-sym n s.id), e, o, e) (one_owner n ss us)
      | inr o ↦ rw (sym (eq-sym n s.id), e, o) (one_owner n ss us)
    ]
  ]
    where
      first :
          (n == s.id) ≡ true
          → (length (filter (owns n) ss) ≡ 0) × (is_in n (map key (filter old ss)) ≡ false)
          → length (filter (owns n) (s ∷ ss))
            ≡ (if is_in n (map key (filter old (s ∷ ss))) then 1 else 0)
      first e (z, f) = elim (Bool-cases (old s)) [
        | inl o ↦ rw (sym (eq-sym n s.id), e, o, e) (ap suc z)
        | inr o ↦ rw (sym (eq-sym n s.id), e, o, f) z
      ]

  count_join-hit :
      (ss : List Snapshot) (ms : List Metrics)
      → Unique key ss
      → count_join cutoff ss ms ≡ length (filter (is_expired_metrics cutoff ss) ms)
  unfolding count_join
  count_join-hit ss [] u = refl
  count_join-hit ss (m ∷ ms) u = elim (Bool-cases (is_expired_metrics cutoff ss m)) [
    | inl e ↦ rw (one_owner m.snapshot_id ss u, e) (omega (arith, count_join-hit ss ms u))
    | inr e ↦ rw (one_owner m.snapshot_id ss u, e) (omega (arith, count_join-hit ss ms u))
  ]

-- The tables with no expired row.
abbrev pub kept : Option ℕ → List Row → List Row
kept none rows = rows
kept (some cutoff) rows = filter (λ r. not (is_expired cutoff r)) rows

abbrev pub kept_snapshots : Option ℕ → List Snapshot → List Snapshot
kept_snapshots none ss = ss
kept_snapshots (some cutoff) ss = filter (λ s. not (is_expired_snapshot cutoff s)) ss

abbrev pub kept_metrics : Option ℕ → List Snapshot → List Metrics → List Metrics
kept_metrics none ss ms = ms
kept_metrics (some cutoff) ss ms = filter (λ m. not (is_expired_metrics cutoff ss m)) ms

abbrev pub kept_tables : Option ℕ → Option ℕ → Tables → Tables
kept_tables snapshot_cutoff bulk_cutoff t = record {
  snapshots = kept_snapshots snapshot_cutoff t.snapshots;
  metrics = kept_metrics snapshot_cutoff t.snapshots t.metrics;
  weight = kept bulk_cutoff t.weight;
  bond = kept bulk_cutoff t.bond;
  collateral = kept bulk_cutoff t.collateral;
}

-- Every id of a table is unique, and every table has fewer rows than the fuel.
pub record IsSound (fuel : ℕ) (t : Tables) : Type 0 where
  pub unique_snapshots : Unique (λ s. s.id) t.snapshots
  pub unique_weight : Unique (λ r. r.id) t.weight
  pub unique_bond : Unique (λ r. r.id) t.bond
  pub unique_collateral : Unique (λ r. r.id) t.collateral
  pub few_snapshots : length t.snapshots < fuel
  pub few_weight : length t.weight < fuel
  pub few_bond : length t.bond < fuel
  pub few_collateral : length t.collateral < fuel

zero_add : (n : ℕ) → 0 + n ≡ n
zero_add n = omega arith

few-filter :
    {A : Type 0} (p : A → Bool) (xs : List A) (n : ℕ) → length xs < n → length (filter p xs) < n
few-filter p xs n lt = omega (arith, length-filter-le p xs)

module _ (order : List Row → List Row) (order_snapshots : List Snapshot → List Snapshot)
    (reorders : Reorders order) (reorders_snapshots : Reorders order_snapshots) (setting : ℤ)
    (fuel : ℕ) where
  prune_bulk-kept :
      (cutoff : Option ℕ) (size : ℕ)
      → 0 < size
      → (rows : List Row) → Unique (λ r. r.id) rows
      → length rows < fuel
      → prune_bulk order order_snapshots setting fuel cutoff size none rows
        ≡ done (record { rows = kept cutoff rows; deleted = or_zero cutoff λ c. count c rows })
  unfolding prune_bulk prune_table run_loop count
  prune_bulk-kept none size lt rows u few = refl
  prune_bulk-kept (some c) size lt rows u few =
      rw (zero_add (length (filter (is_expired c) rows))) at (
        prune_loop-simple order reorders c size lt fuel (record { rows = rows; deleted = 0 })
          (Unique-Keyed (λ r. r.id) rows u) (few-filter _ rows fuel few))

  prune_snapshots-kept :
      (cutoff : Option ℕ) (size : ℕ)
      → 0 < size
      → (ss : List Snapshot) (ms : List Metrics) → Unique (λ s. s.id) ss
      → length ss < fuel
      → prune_snapshots order order_snapshots setting fuel cutoff size none ss ms
        ≡ done (record {
          snapshots = kept_snapshots cutoff ss;
          metrics = kept_metrics cutoff ss ms;
          deleted_snapshots = or_zero cutoff λ c. length (filter (is_expired_snapshot c) ss);
          deleted_metrics = or_zero cutoff λ c. count_join c ss ms;
        })
  unfolding prune_snapshots run_loop
  prune_snapshots-kept none size lt ss ms u few = refl
  prune_snapshots-kept (some c) size lt ss ms u few = rw (count_join-hit c ss ms u) (
      rw
        (
          zero_add (length (filter (is_expired_snapshot c) ss)),
          zero_add (length (filter (is_expired_metrics c ss) ms)),
        )
        at
        (prune_loop-snapshots order_snapshots reorders_snapshots c size lt fuel
          (record { snapshots = ss; metrics = ms; deleted_snapshots = 0; deleted_metrics = 0 })
          (Unique-Keyed (λ s. s.id) ss u) (few-filter _ ss fuel few)))

  at_least_one-positive : (n : ℤ) (size : ℕ) → at_least_one n ≡ some size → 0 < size
  unfolding at_least_one
  at_least_one-positive (pos zero) size e = absurd_some e
    where
      absurd_some : ◌≡◌ {A = Option ℕ} none (some size) → 0 < size
      absurd_some e = cc
  at_least_one-positive (pos (suc n)) size e = subst (λ k. 0 < k) (same e) (omega arith)
    where
      same : ◌≡◌ {A = Option ℕ} (some (suc n)) (some size) → suc n ≡ size
      same e = cc
  at_least_one-positive (negsuc n) size e = absurd_some e
    where
      absurd_some : ◌≡◌ {A = Option ℕ} none (some size) → 0 < size
      absurd_some e = cc

  -- Over tables whose ids are unique, with a batch size of at least 1 and a fuel above the number of
  -- rows of each table, an uncapped run ends; it leaves the rows that no cutoff concerns, validator
  -- snapshots and their metrics among them, and returns the counts that a dry run returns, which
  -- leaves the tables as they are.
  pub prune_metagraph-exact :
      (snapshot_cutoff bulk_cutoff : Option ℕ) (batch_size : Option ℤ) (max_batches : Option ℕ)
      (size : ℕ) (t : Tables)
      → at_least_one (or_setting batch_size setting) ≡ some size
      → IsSound fuel t
      → (prune_metagraph order order_snapshots setting fuel snapshot_cutoff bulk_cutoff batch_size
            false none t
          ≡ pruned
              (dry_counts snapshot_cutoff bulk_cutoff t, kept_tables snapshot_cutoff bulk_cutoff t))
        × (prune_metagraph order order_snapshots setting fuel snapshot_cutoff bulk_cutoff batch_size
              true max_batches t
            ≡ pruned (dry_counts snapshot_cutoff bulk_cutoff t, t))
  unfolding prune_metagraph prune_tables after_loop dry_counts
  prune_metagraph-exact sc bc batch_size max_batches size t e sound = (
    rw
        (
          e,
          prune_metagraph,
          prune_snapshots-kept sc size lt t.snapshots t.metrics sound.unique_snapshots
              sound.few_snapshots,
          prune_bulk-kept bc size lt t.weight sound.unique_weight sound.few_weight,
          prune_bulk-kept bc size lt t.bond sound.unique_bond sound.few_bond,
          prune_bulk-kept bc size lt t.collateral sound.unique_collateral sound.few_collateral,
        )
        refl,
    rw (e, prune_metagraph) refl,
  )
    where
      lt : 0 < size
      lt = at_least_one-positive (or_setting batch_size setting) size e
