-- ===== src/Examples/Pruning.antt =====
-- The retention of rows at concrete tables; the rows stand in the order of their blocks.
use sentinel_tower.Prelude.{Bool, ◌≡◌, refl, arith, true, false, none, some, List, [], ◌∷◌}
use sentinel_tower.Prelude.Int.{pos}
use sentinel_tower.Retention.{Row, Snapshot, Metrics, is_in}
use sentinel_tower.Retention.Batches.{Reorders}
use sentinel_tower.Retention.Prune.{
  Tables, pruned, at_least_one, or_setting, dry_counts, prune_metagraph,
}
use sentinel_tower.Retention.Prune.Exact.{Unique, kept_tables, IsSound, prune_metagraph-exact}
use sentinel_tower.Retention.Run.{Block, World, Report, run}
use sentinel_tower.Retention.Run.Lock.{Unlocks, run-Unlocks}

abbrev same : {R : Type 0} → List R → List R
same rows = rows

same-Reorders : {R : Type 0} → Reorders {R = R} (λ rows. same rows)
same-Reorders rows r = (λ i. i, λ i. i)

abbrev weights : List Row
weights =
    record { id = 1; block = 10 }
    ∷ record { id = 2; block = 20 }
    ∷ record { id = 3; block = 99 }
    ∷ []

abbrev snapshots : List Snapshot
snapshots =
    record { id = 1; block_id = 10; is_validator = false }
    ∷ record { id = 2; block_id = 10; is_validator = true }
    ∷ record { id = 3; block_id = 99; is_validator = false }
    ∷ []

abbrev metrics : List Metrics
metrics = record { snapshot_id = 1 } ∷ record { snapshot_id = 2 } ∷ record { snapshot_id = 1 } ∷ []

abbrev tables : Tables
tables = record {
  snapshots = snapshots;
  metrics = metrics;
  weight = weights;
  bond = [];
  collateral = weights;
}

weights-Unique : Unique (λ r. r.id) weights
unfolding is_in
weights-Unique = (refl, (refl, (refl, tt)))

snapshots-Unique : Unique (λ s. s.id) snapshots
unfolding is_in
snapshots-Unique = (refl, (refl, (refl, tt)))

sound : IsSound 9 tables
sound = record {
  unique_snapshots = snapshots-Unique;
  unique_weight = weights-Unique;
  unique_bond = tt;
  unique_collateral = weights-Unique;
  few_snapshots = omega arith;
  few_weight = omega arith;
  few_bond = omega arith;
  few_collateral = omega arith;
}

two : at_least_one (or_setting (some (pos 2)) (pos 5000)) ≡ some 2
unfolding at_least_one or_setting
two = refl

prune_metagraph-exact_example :
    (prune_metagraph same same (pos 5000) 9 (some 50) (some 20) (some (pos 2)) false none tables
      ≡ pruned (dry_counts (some 50) (some 20) tables, kept_tables (some 50) (some 20) tables))
    × (prune_metagraph same same
          (pos 5000)
          9
          (some 50)
          (some 20)
          (some (pos 2))
          true
          (some 1)
          tables
        ≡ pruned (dry_counts (some 50) (some 20) tables, tables))
prune_metagraph-exact_example =
    prune_metagraph-exact same same same-Reorders same-Reorders (pos 5000) 9 (some 50) (some 20)
      (some (pos 2)) (some 1) 2 tables two sound

abbrev blocks : List Block
blocks =
    record { number = 10; timestamp = some 100 }
    ∷ record { number = 20; timestamp = some 200 }
    ∷ record { number = 30; timestamp = none }
    ∷ record { number = 99; timestamp = some 900000 }
    ∷ []

abbrev world : World
world = record { blocks = blocks; tables = tables; extrinsics = weights; lock = false }

abbrev run_of : Bool → Report × World
run_of unlocks =
    run same same (pos 30) (pos 7) (pos 5000) 9 800000 none false none unlocks (some (pos 9)) none
      world

run-Unlocks_example : Unlocks world (run_of true) (run_of false)
run-Unlocks_example =
    run-Unlocks same same (pos 30) (pos 7) (pos 5000) 9 800000 none false none (some (pos 9)) none
      world
