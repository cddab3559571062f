-- ===== src/Examples/Yields.antt =====
-- The theorems on the yields of validators at a subnet with one validator, whose snapshot stands at the
-- end of an epoch.
use sentinel_tower.Prelude.{
  ℕ, ◌≡◌, refl, ◌≡◌, true, false, none, some, List, [], ◌∷◌, length-filter-le, if◌then◌else◌, arith,
}
use sentinel_tower.Prelude.Int.{pos, eqb_ℤ}
use sentinel_tower.Prelude.Rows.{find_row, IsKeyed}
use sentinel_tower.Json.{null, real, ok, AfterOk}
use sentinel_tower.Metagraph.Keys.{Keys}
use sentinel_tower.Metagraph.Rows.{Measures, State, is_snapshot}
use sentinel_tower.Metagraph.Apy.{
  ValidatorApyEpoch, is_fact, Arithmetic, reconcile_and_upsert, id_range,
}
use sentinel_tower.Metagraph.Apy.Ingest.{named}
use sentinel_tower.Metagraph.Apy.Refines.{expected, reconcile_and_upsert-Refines}
use sentinel_tower.Metagraph.Apy.Again.{reconcile_and_upsert_again}
use sentinel_tower.Metagraph.Apy.Tick.{
  World, done, IsTick, IsDone, ingest_validator_apy_epochs-IsDone, ingest_validator_apy_epochs,
  ingest_validator_apy_epochs-IsTick,
}
use sentinel_tower.Metagraph.Apy.Backfill.{bounds, run_repair}
use sentinel_tower.Metagraph.Apy.Repair.{IsRepair, run_repair-IsRepair}

abbrev keys : Keys
keys = record {
  coldkeys = record { rows = []; next_id = 1 };
  hotkeys = record { rows = []; next_id = 1 };
  evmkeys = record { rows = []; next_id = 1 };
  coldkey_cache = [];
  hotkey_cache = [];
  evmkey_cache = [];
  hotkeys_to_update = [];
}

abbrev measures : Measures
measures = record {
  uid = 0;
  axon_address = "";
  total_stake = pos 9;
  alpha_stake = pos 4;
  alpha_dividends = pos 1;
  tao_dividends = pos 0;
  normalized_stake = real "1.0";
  rank = real "1.0";
  trust = real "1.0";
  emissions = pos 0;
  is_active = true;
  is_validator = true;
  is_immune = false;
  has_any_weights = false;
  neuron_version = null;
  block_at_registration = null;
}

abbrev state : State
state = record {
  keys = keys;
  blocks =
      record { number = 720; timestamp = some 100; dump_started_at = none; dump_finished_at = none }
      ∷ [];
  subnets =
      record {
        netuid = 1;
        name = "apex";
        owner_hotkey_id = none;
        registered_at = none;
        alpha_out_emission = pos 7;
        tempo = 360;
        moving_price = real "0.2";
      }
      ∷ [];
  neurons = record {
    rows = record { id = 5; hotkey_id = 8; subnet_id = 1; uid = 0; evm_key_id = none } ∷ [];
    next_id = 6;
  };
  snapshots = record {
    rows = record { id = 3; neuron_id = 5; block_id = 720; measures = measures } ∷ [];
    next_id = 4;
  };
  metrics = [];
  weights = [];
  bonds = [];
  collaterals = [];
  dumps =
      record {
        netuid = 1;
        block_id = 720;
        owner_hotkey_id = none;
        epoch_position = some 2;
        started_at = 90;
        finished_at = 95;
        tempo = 0;
      }
      ∷ [];
  neuron_cache = [];
}

-- An arithmetic that names the last operation.
abbrev arithmetic : Arithmetic
arithmetic = record {
  of_int = λ z. if eqb_ℤ z (pos 0) then "0" else "number";
  add = λ a b. "sum";
  sub = λ a b. "difference";
  mul = λ a b. "product";
  div = λ a b. "quotient";
  least = λ a b. "least";
  exp = λ a. "power";
  ln = λ a. ok "logarithm";
  to_float = λ a. a;
}

-- A fact with an old stake and no time, and one whose validator has no snapshot any more.
abbrev fact : ValidatorApyEpoch
fact = record {
  subnet_id = 1;
  neuron_id = 5;
  hotkey_id = 8;
  epoch_block = 720;
  epoch_ts = none;
  alpha_stake = pos 2;
  alpha_dividends = pos 1;
  total_stake = pos 9;
  tempo = 360;
  apy_pct = "1";
}

abbrev other : ValidatorApyEpoch
other = record fact { neuron_id = 6 }

abbrev facts : List ValidatorApyEpoch
facts = fact ∷ other ∷ []

snapshots-IsKeyed : IsKeyed is_snapshot state.snapshots.rows
snapshots-IsKeyed k = length-filter-le (is_snapshot k) state.snapshots.rows

facts-IsKeyed : IsKeyed is_fact facts
facts-IsKeyed k = ground arith

reconcile_and_upsert-Refines_example :
    AfterOk
      (λ r.
        expected arithmetic state
          (find_row (named (id_range 0 1000) state (1, 5, 720)) state.snapshots.rows)
          (find_row (is_fact (1, 5, 720)) facts)
        ≡ ok (find_row (is_fact (1, 5, 720)) r.1))
      (reconcile_and_upsert arithmetic (id_range 0 1000) state facts)
reconcile_and_upsert-Refines_example =
    reconcile_and_upsert-Refines arithmetic (id_range 0 1000) state (1, 5, 720) snapshots-IsKeyed
      facts

reconcile_and_upsert_again_example :
    AfterOk
      (λ r. reconcile_and_upsert arithmetic (id_range 0 1000) state r.1 ≡ ok ((0, 0), r.1))
      (reconcile_and_upsert arithmetic (id_range 0 1000) state facts)
reconcile_and_upsert_again_example =
    reconcile_and_upsert_again arithmetic (id_range 0 1000) state snapshots-IsKeyed facts

abbrev world : World
world = record { state = state; facts = facts; last_snapshot_id = some 2 }

ingest_validator_apy_epochs-IsTick_example :
    IsTick arithmetic 50 world (ingest_validator_apy_epochs arithmetic 50 false false world)
ingest_validator_apy_epochs-IsTick_example =
    ingest_validator_apy_epochs-IsTick arithmetic 50 world snapshots-IsKeyed facts-IsKeyed false
      false

ingest_validator_apy_epochs-IsDone_example :
    (c : ℕ × ℕ × ℕ × ℕ) × ((ingest_validator_apy_epochs arithmetic 50 false false world).0
      ≡ done c.0 c.1 c.2 c.3)
    × IsDone arithmetic 50 2 world (ingest_validator_apy_epochs arithmetic 50 false false world).1
ingest_validator_apy_epochs-IsDone_example =
    ingest_validator_apy_epochs-IsDone arithmetic 50 world snapshots-IsKeyed facts-IsKeyed 2 refl
      (λ d s n t. ("logarithm", refl)) (refl, tt)

run_repair-IsRepair_example :
    IsRepair arithmetic true
      (some (700, 730))
      world
      (run_repair arithmetic 60 (some 700) (some 730) (pos 8) world)
unfolding bounds
run_repair-IsRepair_example =
    run_repair-IsRepair arithmetic world snapshots-IsKeyed 60 (some 700) (some 730) 8
