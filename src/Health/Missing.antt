-- ===== src/Health/Missing.antt =====
-- What the check for missing snapshots counts.
use sentinel_tower.Prelude.{
  ℕ, ◌≤◌, ◌≡◌, refl, sym, subst, ap, ◌∙◌, Bool, true, false, not, Option, none, some, List, [], ◌∷◌,
  In, ◌↔◌, ◌==◌, if◌then◌else◌, filter, arith,
}
use sentinel_tower.Prelude.Int.{ℤ, pos, ◌-ℤ◌, ◌≤ℤ◌, leb_ℤ, eqb_ℤ→≡, leb_ℤ→≤ℤ, -ℤ_parts}
use sentinel_tower.Epoch.{
  elem, get_epoch_containing_block, get_dumpable_blocks, get_dumpable_blocks_in_range,
}
use sentinel_tower.Epoch.InRange.{get_dumpable_blocks_in_range_exact}
use sentinel_tower.Retention.Run.{Block}
use sentinel_tower.Retention.Batches.{In-filter, filter-In}
use sentinel_tower.Health.{
  Snapshot, Window, Metric, latest_block, covered_blocks, by_size, narrowed, uncovered,
  count_windows, count_subnets, or_subnets, count_all, compute_missing_snapshot_blocks,
}

-- The blocks of all the subnet's snapshots.
abbrev pub blocks_of : ℕ → List Snapshot → List ℤ
blocks_of netuid [] = []
blocks_of netuid (s ∷ ss) =
    if s.netuid == netuid then pos s.block ∷ blocks_of netuid ss else blocks_of netuid ss

elem-covered :
    (b low high : ℤ) (netuid : ℕ) (ss : List Snapshot)
    → low ≤ℤ b
    → b ≤ℤ high
    → elem b (covered_blocks low high netuid ss) ≡ elem b (blocks_of netuid ss)
unfolding covered_blocks elem
elem-covered b low high netuid [] lo hi = refl
elem-covered b low high netuid (s ∷ ss) lo hi =
    ground (arith, elem-covered b low high netuid ss lo hi, eqb_ℤ→≡ b (pos s.block))

count_subnets-total :
    (end_block : ℤ) (widest : ℕ) (windows : List Window) (ss : List Snapshot) (ns : List ℕ)
    (results : List Metric)
    → (r : List Metric) × (count_subnets end_block widest windows ss ns results ≡ some r)
unfolding count_subnets
count_subnets-total end_block widest windows ss [] results = (results, refl)
count_subnets-total end_block widest windows ss (n ∷ ns) results =
    go (get_dumpable_blocks_in_range_exact (end_block -ℤ pos widest) end_block n).0
      (get_dumpable_blocks_in_range_exact (end_block -ℤ pos widest) end_block n).1
      (λ m. count_subnets-total end_block widest windows ss ns m)
  where
    go :
        (d : List ℤ)
        → get_dumpable_blocks_in_range (end_block -ℤ pos widest) end_block n ≡ some d
        → ((m : List Metric)
            → (r : List Metric) × (count_subnets end_block widest windows ss ns m ≡ some r))
        → (r : List Metric) × (count_subnets end_block widest windows ss (n ∷ ns) results ≡ some r)
    go d e rest =
        rw (e, count_subnets)
          (rest (
            count_windows end_block n d (covered_blocks (end_block -ℤ pos widest) end_block n ss)
              windows results))

-- The check for missing snapshots always gives a result: none of its loops over epochs runs on.
pub compute_missing_snapshot_blocks-total :
    (windows : List Window) (setting subnets : List ℕ) (blocks : List Block) (ss : List Snapshot)
    → (r : List Metric) × (compute_missing_snapshot_blocks windows setting subnets blocks ss
        ≡ some r)
unfolding compute_missing_snapshot_blocks count_all
compute_missing_snapshot_blocks-total windows setting subnets blocks ss =
    go (latest_block blocks) (by_size windows)
  where
    go :
        (o : Option ℕ) (ws : List Window)
        → (r : List Metric) × (count_all o ws (or_subnets setting subnets) ss ≡ some r)
    go none ws = ([], refl)
    go (some n) [] = ([], refl)
    go (some n) (w ∷ ws) =
        count_subnets-total (pos n) w.block_delta (w ∷ ws) ss (or_subnets setting subnets) []

module _ (end_block : ℤ) (delta widest netuid : ℕ) (ss : List Snapshot) (dumpable : List ℤ) where
  abbrev low : ℤ
  low = end_block -ℤ pos widest

  -- A block that is dumped in its epoch and has no snapshot of the subnet.
  abbrev pub IsMissing : ℤ → Type 0
  IsMissing b =
      (end_block -ℤ pos delta ≤ℤ b)
      × (b ≤ℤ end_block)
      × In b (get_dumpable_blocks (get_epoch_containing_block b netuid))
      × (elem b (blocks_of netuid ss) ≡ false)

  dumpable_lem :
      get_dumpable_blocks_in_range low end_block netuid ≡ some dumpable
      → (b : ℤ)
      → In b dumpable ↔ (
          (low ≤ℤ b)
          × (b ≤ℤ end_block)
          × In b (get_dumpable_blocks (get_epoch_containing_block b netuid)))
  dumpable_lem e b = go (get_dumpable_blocks_in_range_exact low end_block netuid)
    where
      same :
          (r : List ℤ) → get_dumpable_blocks_in_range low end_block netuid ≡ some r → r ≡ dumpable
      same r p = cc

      go :
          ((r : List ℤ) × (get_dumpable_blocks_in_range low end_block netuid ≡ some r)
            × ((c : ℤ)
                → In c r ↔ (
                    (low ≤ℤ c)
                    × (c ≤ℤ end_block)
                    × In c (get_dumpable_blocks (get_epoch_containing_block c netuid)))))
          → In b dumpable ↔ (
              (low ≤ℤ b)
              × (b ≤ℤ end_block)
              × In b (get_dumpable_blocks (get_epoch_containing_block b netuid)))
      go (r, p, h) =
          subst
            (λ l. In b l ↔ (
              (low ≤ℤ b)
              × (b ≤ℤ end_block)
              × In b (get_dumpable_blocks (get_epoch_containing_block b netuid))))
            (same r p) (h b)

  -- The set that is counted for a window of at most the widest size holds a block exactly if the block
  -- lies in the window, is one of the dumped blocks of its own epoch, and no snapshot of the subnet has
  -- it.
  pub uncovered-exact :
      delta ≤ widest
      → get_dumpable_blocks_in_range low end_block netuid ≡ some dumpable
      → (b : ℤ)
      → In b
          (uncovered (narrowed end_block delta dumpable) (covered_blocks low end_block netuid ss))
        ↔ IsMissing b
  unfolding uncovered narrowed
  uncovered-exact le e b =
      ((λ m. to (In-filter _ b (filter (λ c. leb_ℤ (end_block -ℤ pos delta) c) dumpable) m)), from)
    where
      not_true : (x : Bool) → not x ≡ true → x ≡ false
      not_true true p = cc
      not_true false p = refl

      to :
          In b (filter (λ c. leb_ℤ (end_block -ℤ pos delta) c) dumpable)
            × (not (elem b (covered_blocks low end_block netuid ss)) ≡ true)
          → IsMissing b
      to (m, p) = in_window (In-filter _ b dumpable m)
        where
          in_window : In b dumpable × (leb_ℤ (end_block -ℤ pos delta) b ≡ true) → IsMissing b
          in_window (i, q) =
              let d = (dumpable_lem e b).0 i in
              (
                leb_ℤ→≤ℤ (end_block -ℤ pos delta) b q,
                d.1,
                d.2,
                sym (elem-covered b low end_block netuid ss d.0 d.1)
                    ∙ not_true (elem b (covered_blocks low end_block netuid ss)) p,
              )

      wider : end_block -ℤ pos delta ≤ℤ b → low ≤ℤ b
      wider lo =
          ground (arith, lo, le, -ℤ_parts end_block (pos delta), -ℤ_parts end_block (pos widest))

      from :
          IsMissing b
          → In b (
              filter
                (λ c. not (elem c (covered_blocks low end_block netuid ss)))
                (filter (λ c. leb_ℤ (end_block -ℤ pos delta) c) dumpable))
      from (lo, hi, i, n) =
          filter-In _ b (filter (λ c. leb_ℤ (end_block -ℤ pos delta) c) dumpable)
            (filter-In _ b dumpable ((dumpable_lem e b).1 (wider lo, hi, i)) (ground (arith, lo)))
            (ap not (elem-covered b low end_block netuid ss (wider lo) hi ∙ n))
