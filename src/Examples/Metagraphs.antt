-- ===== src/Examples/Metagraphs.antt =====
-- The theorems on the metagraph tables at a subnet with one neuron.
use Prim.Native.String.{String}
use text.Mathlib.Text.{◌==◌ as str_eq}
use text.Mathlib.TextEquality.{eq_iff}
use sentinel_tower.Prelude.{
  ℕ, ◌*◌, ◌≤◌, ◌<◌, ◌≡◌, refl, sym, ap, subst, inl, inr, Bool, true, false, ◌&&◌, none, some, [],
  ◌∷◌, length-filter-le, arith, Bool-cases, suc, In,
}
use Prim.Native.Nat.{◌^◌}
use sentinel_tower.Prelude.Int.{pos, negsuc}
use sentinel_tower.Prelude.Rows.{find_row, update_where}
use sentinel_tower.Json.{Json, null, real, ok, raised}
use sentinel_tower.Metagraph.Amounts.{decimal, to_rao, signed, tao_to_rao, to_rao-floor}
use sentinel_tower.Metagraph.Tables.{get_or_create}
use sentinel_tower.Metagraph.Keys.{
  Hotkey, Keys, cached, get_or_create_coldkey, coldkey_of, fetch_hotkey, remember_hotkey,
  get_or_create_hotkey, existing_hotkey, save_coldkey, add_id, is_among, is_coldkey, is_hotkey,
}
use sentinel_tower.Metagraph.Keys.Assign.{IsCoherent}
use sentinel_tower.Metagraph.Keys.Refines.{IsHotkeyOf, get_or_create_hotkey-IsAssigned}
use sentinel_tower.Metagraph.Rows.{
  Block, Subnet, Measures, Mechanism, State, is_block, is_subnet, is_neuron, is_snapshot,
  is_metrics, is_dump, SnapshotDto, Metagraph,
}
use sentinel_tower.Metagraph.Sync.{DumpMetadata}
use sentinel_tower.Metagraph.Sync.Run.{Stats, sync_metagraph}
use sentinel_tower.Metagraph.Sync.KeysValid.{IsValid}
use sentinel_tower.Metagraph.Sync.Kept.{KeepsBlock, KeepsSubnet}
use sentinel_tower.Metagraph.Sync.History.{sync_metagraph-IsKept}
use sentinel_tower.Metagraph.Sync.Succeeds.{IsComplete, AllComplete, sync_metagraph-Succeeds}
use sentinel_tower.Metagraph.Sync.Recorded.{IsReport, sync_metagraph-IsReport}
use sentinel_tower.Metagraph.Sync.Dumped.{IsDumped, sync_metagraph-IsDumped}
use sentinel_tower.Metagraph.Burn.{
  Burns, Providers, values, Floats, float_zero, float_one, sync_burn,
}
use sentinel_tower.Metagraph.Burn.Emissions.{sync_subnet_emissions, sync_metagraph_for_block}
use sentinel_tower.Metagraph.Burn.Placeholders.{sync_subnet_emissions-IsSafe}
use sentinel_tower.Metagraph.Burn.Outcome.{IsOrder, IsOutcome, sync_burn-IsOutcome}
use sentinel_tower.Metagraph.Burn.Anchored.{IsValidBurns, HasBlocks}
use sentinel_tower.Metagraph.Burn.Valid.{sync_metagraph_for_block-IsValidBurns}

abbrev keys : Keys
keys = record {
  coldkeys = record { rows = record { id = 1; coldkey = "owner" } ∷ []; next_id = 2 };
  hotkeys = record {
    rows = record { id = 1; hotkey = "miner"; coldkey_id = 1; last_seen = some 5 } ∷ [];
    next_id = 2;
  };
  evmkeys = record { rows = []; next_id = 1 };
  coldkey_cache = [];
  hotkey_cache = [];
  evmkey_cache = [];
  hotkeys_to_update = [];
}

abbrev mechanism : Mechanism
mechanism = record {
  incentive = real "0.5";
  dividend = real "0.0";
  consensus = real "0.5";
  validator_trust = real "0.0";
  weights_sum = real "1.0";
  last_update = null;
}

abbrev measures : Measures
measures = record {
  uid = 0;
  axon_address = "";
  total_stake = pos 3;
  alpha_stake = pos 3;
  alpha_dividends = pos 0;
  tao_dividends = pos 0;
  normalized_stake = real "1.0";
  rank = real "1.0";
  trust = real "1.0";
  emissions = pos 0;
  is_active = true;
  is_validator = false;
  is_immune = false;
  has_any_weights = false;
  neuron_version = null;
  block_at_registration = null;
}

-- The subnet 1 at block 719, the start of an epoch of it.
abbrev pub state : State
state = record {
  keys = keys;
  blocks =
      record {
        number = 719;
        timestamp = some 100;
        dump_started_at = some 90;
        dump_finished_at = none;
      }
      ∷ [];
  subnets =
      record {
        netuid = 1;
        name = "apex";
        owner_hotkey_id = some 1;
        registered_at = none;
        alpha_out_emission = pos 7;
        tempo = 360;
        moving_price = real "0.2";
      }
      ∷ [];
  neurons = record {
    rows = record { id = 1; hotkey_id = 1; subnet_id = 1; uid = 0; evm_key_id = none } ∷ [];
    next_id = 2;
  };
  snapshots = record {
    rows = record { id = 1; neuron_id = 1; block_id = 719; measures = measures } ∷ [];
    next_id = 2;
  };
  metrics = record { snapshot_id = 1; mech_id = 0; mechanism = mechanism } ∷ [];
  weights = [];
  bonds = [];
  collaterals = [];
  dumps =
      record {
        netuid = 1;
        block_id = 719;
        owner_hotkey_id = some 1;
        epoch_position = some 0;
        started_at = 90;
        finished_at = 95;
        tempo = 360;
      }
      ∷ [];
  neuron_cache = [];
}

keys-IsCoherent : IsCoherent keys
unfolding IsCoherent cached
keys-IsCoherent = (λ a x e. cc, λ a x e. cc, λ a x e. cc)

state-IsValid : IsValid state
state-IsValid = record {
  keys_valid = (
    (
      λ k. length-filter-le (is_coldkey k) keys.coldkeys.rows,
      λ k. length-filter-le (is_hotkey k) keys.hotkeys.rows,
      λ k. omega arith,
    ),
    keys-IsCoherent,
  );
  blocks_keyed = λ k. length-filter-le (is_block k) state.blocks;
  subnets_keyed = λ k. length-filter-le (is_subnet k) state.subnets;
  neurons_keyed = λ k. length-filter-le (is_neuron k) state.neurons.rows;
  snapshots_keyed = λ k. length-filter-le (is_snapshot k) state.snapshots.rows;
  metrics_keyed = λ k. length-filter-le (is_metrics k) state.metrics;
  weights_keyed = λ k. omega arith;
  bonds_keyed = λ k. omega arith;
  collaterals_keyed = λ k. omega arith;
  dumps_keyed = λ k. length-filter-le (is_dump k) state.dumps;
}

abbrev first_block : Block
first_block = record {
  number = 719;
  timestamp = some 100;
  dump_started_at = some 90;
  dump_finished_at = none;
}

abbrev first_subnet : Subnet
first_subnet = record {
  netuid = 1;
  name = "apex";
  owner_hotkey_id = some 1;
  registered_at = none;
  alpha_out_emission = pos 7;
  tempo = 360;
  moving_price = real "0.2";
}

abbrev miner : Hotkey
miner = record { id = 1; hotkey = "miner"; coldkey_id = 1; last_seen = some 5 }

abbrev keys_after : Keys
keys_after = record keys {
  coldkey_cache = ("owner", record { id = 1; coldkey = "owner" }) ∷ [];
  hotkey_cache = ("miner", miner) ∷ [];
  hotkeys_to_update = 1 ∷ [];
}

abbrev neuron : SnapshotDto
neuron = record {
  neuron = record {
    uid = 4;
    hotkey = some (record { hotkey = "new"; coldkey = some "owner" });
    evm_key = none;
  };
  uid = 4;
  axon_address = none;
  total_stake = some (decimal false 1500000001 (negsuc 8));
  alpha_stake = none;
  alpha_dividends = none;
  tao_dividends = none;
  normalized_stake = real "1.0";
  rank = real "1.0";
  trust = real "1.0";
  emissions = none;
  is_active = true;
  is_validator = true;
  is_immune = false;
  has_any_weights = true;
  neuron_version = null;
  block_at_registration = null;
  mechanisms = record { mech_id = 0; mechanism = mechanism } ∷ [];
}

abbrev pub metagraph : Metagraph
metagraph = record {
  block = record { block_number = 719; timestamp = some 200 };
  subnet = record {
    netuid = 1;
    name = none;
    owner_hotkey = none;
    registered_at = none;
    alpha_out_emission = none;
    tempo = 0;
    moving_price = real "0.0";
  };
  neurons = neuron ∷ [];
  weights =
      record { source_neuron_uid = 4; target_neuron_uid = 4; mech_id = 0; value = real "1.0" } ∷ [];
  bonds = [];
  collaterals = [];
}

abbrev dump : DumpMetadata
dump = record { netuid = 1; epoch_position = "start"; started_at = 300; finished_at = 301 }

abbrev pub zone : ℕ → ℕ
zone t = t

metagraph-AllComplete : AllComplete metagraph
metagraph-AllComplete = record {
  owner_complete = inl refl;
  emission_number = inl refl;
  neurons_complete = λ n i. complete n i;
  collaterals_complete = λ c i. elim i [ ];
}
  where
    first : IsComplete neuron
    first = record {
      owned = ("new", "owner", refl);
      total_stake_number = inr (false, 1500000001, negsuc 8, refl);
      alpha_stake_number = inl refl;
      alpha_dividends_number = inl refl;
      tao_dividends_number = inl refl;
      emissions_number = inl refl;
    }

    complete : (n : SnapshotDto) → In n (neuron ∷ []) → IsComplete n
    complete n (inl e) = subst IsComplete (sym e) first
    complete n (inr i) = elim i [ ]

abbrev stored_state : State
stored_state = (sync_metagraph 400 zone metagraph dump state).1

stored : (t : Stats) × (sync_metagraph 400 zone metagraph dump state ≡ (ok t, stored_state))
stored =
    let done = sync_metagraph-Succeeds 400 zone metagraph dump state metagraph-AllComplete in
    (done.0, ap (λ r. (r, stored_state)) done.1)

sync_metagraph-IsReport_example : IsReport metagraph stored.0 stored_state.neuron_cache
sync_metagraph-IsReport_example = sync_metagraph-IsReport 400 zone metagraph dump state stored.1

sync_metagraph-IsDumped_example :
    IsDumped metagraph dump (sync_metagraph 400 zone metagraph dump state).1
sync_metagraph-IsDumped_example = sync_metagraph-IsDumped 400 zone metagraph dump state stored.1

sync_metagraph-IsKept_example :
    ((c : Block) × (find_row (is_block 719) (sync_metagraph 400 zone metagraph dump state).1.blocks
        ≡ some c)
      × KeepsBlock (first_block) c)
    × ((v : Subnet) × (find_row
            (is_subnet 1)
            (sync_metagraph 400 zone metagraph dump state).1.subnets
          ≡ some v)
        × KeepsSubnet first_subnet v)
unfolding find_row
sync_metagraph-IsKept_example =
    sync_metagraph-IsKept 400 zone metagraph dump state 719 1 {b = first_block} {u = first_subnet}
      refl refl

get_or_create_hotkey-IsAssigned_example : IsHotkeyOf "miner" keys miner keys_after
unfolding get_or_create_hotkey cached coldkey_of get_or_create_coldkey fetch_hotkey get_or_create
    find_row existing_hotkey save_coldkey update_where add_id is_among remember_hotkey
get_or_create_hotkey-IsAssigned_example =
    get_or_create_hotkey-IsAssigned 400 "miner" (some "owner") keys keys-IsCoherent {h = miner}
      {s' = keys_after} refl

to_rao-floor_example :
    (n : ℕ) × (to_rao (some (decimal true 1500000001 (negsuc 9))) ≡ ok (signed true n))
    × (n * 10 ^ 10 ≤ 1500000001 * tao_to_rao)
    × (1500000001 * tao_to_rao < suc n * 10 ^ 10)
to_rao-floor_example = to_rao-floor true 1500000001 9 (omega arith)

-- The floats with 0.0 < 1.0 and no other comparison.
abbrev is_text_of : Json → String → Bool
is_text_of (real s) t = str_eq s t
is_text_of _ t = false

abbrev floats : Floats
floats = record {
  db_sum = λ vs. float_zero;
  sum = λ vs. float_one;
  over = λ v n. v;
  below = λ a b. is_text_of a "0.0" && is_text_of b "1.0";
}

floats-asymmetric : (a b : Json) → floats.below a b ≡ true → floats.below b a ≡ false
floats-asymmetric (real s) b h = elim (Bool-cases (str_eq s "0.0")) [
  | inl t ↦ rw ((eq_iff s "0.0").0 t) (no (is_text_of b "0.0"))
  | inr f ↦ absurd_text (rw f at h)
]
  where
    no : (x : Bool) → (x && false) ≡ false
    no true = refl
    no false = refl

    absurd_text : false ≡ true → floats.below b (real s) ≡ false
    absurd_text e = cc
floats-asymmetric a b h = cc

floats-IsOrder : IsOrder floats
floats-IsOrder = record { asymmetric = floats-asymmetric; zero_below_one = refl }

abbrev providers : Providers
providers = record {
  current = some (record {
    get_block_timestamp = λ n. ok (some n);
    get_subnet_emission_enabled = λ n. values ((0, true) ∷ (1, true) ∷ []);
  });
  archive = raised;
}

abbrev burns : Burns
burns = record { state = state; meta_epochs = []; burns = []; emissions = [] }

no_epochs : HasBlocks [] state.blocks
unfolding is_among
no_epochs a t = cc

burns-IsValidBurns : IsValidBurns burns
burns-IsValidBurns = record {
  state_valid = state-IsValid;
  burns_keyed = λ k. omega arith;
  emissions_keyed = λ k. omega arith;
  epochs_anchored = no_epochs;
}

sync_burn-IsOutcome_example :
    IsOutcome floats 719 1 burns (sync_burn floats providers (some "owner") 719 1 burns)
sync_burn-IsOutcome_example =
    sync_burn-IsOutcome floats providers (some "owner") floats-IsOrder 719 1 burns

sync_subnet_emissions-IsSafe_example :
    IsValidBurns (sync_subnet_emissions providers 359 burns).1
    × (find_row (is_subnet 1) (sync_subnet_emissions providers 359 burns).1.state.subnets
        ≡ some first_subnet)
unfolding find_row
sync_subnet_emissions-IsSafe_example =
    sync_subnet_emissions-IsSafe providers 359 burns 1 {u = first_subnet} burns-IsValidBurns refl

sync_metagraph_for_block-IsValidBurns_example :
    IsValidBurns
      (sync_metagraph_for_block floats providers
        (some "owner")
        400
        zone
        719
        1
        (ok (some metagraph))
        300
        301
        burns).1
sync_metagraph_for_block-IsValidBurns_example =
    sync_metagraph_for_block-IsValidBurns floats providers (some "owner") 400 zone 719 1
      (ok (some metagraph)) 300 301 burns burns-IsValidBurns
