-- ===== src/Examples/Following.antt =====
-- The backfill and the daemon at concrete chains.
use sentinel_tower.Prelude.{ℕ, ◌≡◌, ◌↔◌, refl, Bool, false, none, [], ◌∷◌, In, if◌then◌else◌}
use sentinel_tower.Prelude.Int.{ℤ, pos, ◌-ℤ◌, ◌≤ℤ◌}
use sentinel_tower.Json.{ok}
use sentinel_tower.Epoch.{elem}
use sentinel_tower.Epoch.Starts.{IsAscending}
use sentinel_tower.Examples.Storing.{set_tempo, setup, block, db}
use sentinel_tower.Backoff.{Backoff, create, error, min, record_failure}
use sentinel_tower.Backoff.Outage.{
  after_failures, doubled, IsFresh, create-IsFresh, record_failure-exact,
}
use sentinel_tower.Backfill.{find_missing_blocks}
use sentinel_tower.Backfill.Missing.{blocks_of, find_missing_blocks-exact}
use sentinel_tower.Daemon.{World, State, run}
use sentinel_tower.Daemon.Order.{IsInOrder, run-IsInOrder}

abbrev backoff : Backoff
backoff = record { initial_delay = 1; max_delay = 60; alert_after = 4; attempt = 0; delay = 1 }

backoff-IsFresh : IsFresh backoff
unfolding create
backoff-IsFresh = create-IsFresh 1 60 3 backoff refl

record_failure-exact_example :
    (record_failure (after_failures 3 backoff)).0 ≡ (error, min (doubled 3 1) 60)
record_failure-exact_example = record_failure-exact 3 backoff backoff-IsFresh

find_missing_blocks-exact_example :
    IsAscending (find_missing_blocks (pos 3) (pos 8) (set_tempo ∷ []))
    × ((b : ℤ)
        → In b (find_missing_blocks (pos 3) (pos 8) (set_tempo ∷ []))
          ↔ ((pos 8 -ℤ pos 3 ≤ℤ b) × (b ≤ℤ pos 8) × (elem b (blocks_of (set_tempo ∷ [])) ≡ false)))
find_missing_blocks-exact_example = find_missing_blocks-exact (pos 3) (pos 8) (set_tempo ∷ [])

abbrev never : ℕ → Bool
never i = false

abbrev world : World
world = record {
  shutdown = never;
  connects = λ tick. if elem (pos tick) (pos 0 ∷ []) then false else Bool.true;
  current_block = λ tick. ok (pos 7);
  ingest = λ tick n. ok block;
}

abbrev start : State
start = record {
  tick = 0;
  connected = false;
  last_processed_block = none;
  reconnect = backoff;
  attempted = [];
  db = db;
}

run-IsInOrder_example : IsInOrder (run setup world 5 3 start)
run-IsInOrder_example = run-IsInOrder setup world 5 3 start tt
