-- ===== src/Metagraph/Rows.antt =====
-- The rows of the metagraph tables (app/src/apps/metagraph/models.py), and the records of the SDK that
-- `sync_metagraph` reads. A moment is a number; a value that is only passed on is a Python value.
use Prim.Native.String.{String}
use sentinel_tower.Prelude.{ℕ, ◌==◌, Bool, ◌&&◌, Option, List}
use sentinel_tower.Prelude.Int.{ℤ}
use sentinel_tower.Json.{Json}
use sentinel_tower.Metagraph.Amounts.{Amount}
use sentinel_tower.Metagraph.Keys.{Keys}
use sentinel_tower.Metagraph.Tables.{Table}

pub record Block : Type 0 where
  pub number : ℕ
  pub timestamp : Option ℕ
  pub dump_started_at : Option ℕ
  pub dump_finished_at : Option ℕ

pub record Subnet : Type 0 where
  pub netuid : ℕ
  pub name : String
  pub owner_hotkey_id : Option ℕ
  pub registered_at : Option ℕ
  pub alpha_out_emission : ℤ
  pub tempo : ℕ
  pub moving_price : Json

pub record Neuron : Type 0 where
  pub id : ℕ
  pub hotkey_id : ℕ
  pub subnet_id : ℕ
  pub uid : ℕ
  pub evm_key_id : Option ℕ

-- The columns of a snapshot that every dump of its neuron and block sets.
pub record Measures : Type 0 where
  pub uid : ℕ
  pub axon_address : String
  pub total_stake : ℤ
  pub alpha_stake : ℤ
  pub alpha_dividends : ℤ
  pub tao_dividends : ℤ
  pub normalized_stake : Json
  pub rank : Json
  pub trust : Json
  pub emissions : ℤ
  pub is_active : Bool
  pub is_validator : Bool
  pub is_immune : Bool
  pub has_any_weights : Bool
  pub neuron_version : Json
  pub block_at_registration : Json

pub record NeuronSnapshot : Type 0 where
  pub id : ℕ
  pub neuron_id : ℕ
  pub block_id : ℕ
  pub measures : Measures

-- The columns of a mechanism's metrics, as the SDK has them and as the table has them.
pub record Mechanism : Type 0 where
  pub incentive : Json
  pub dividend : Json
  pub consensus : Json
  pub validator_trust : Json
  pub weights_sum : Json
  pub last_update : Json

pub record MechanismMetrics : Type 0 where
  pub snapshot_id : ℕ
  pub mech_id : ℕ
  pub mechanism : Mechanism

-- A weight or a bond between two neurons.
pub record Link : Type 0 where
  pub source_neuron_id : ℕ
  pub target_neuron_id : ℕ
  pub block_id : ℕ
  pub mech_id : ℕ
  pub value : Json

pub record Collateral : Type 0 where
  pub source_neuron_id : ℕ
  pub target_neuron_id : ℕ
  pub block_id : ℕ
  pub amount : ℤ

pub record MetagraphDump : Type 0 where
  pub netuid : ℕ
  pub block_id : ℕ
  pub owner_hotkey_id : Option ℕ
  pub epoch_position : Option ℕ
  pub started_at : ℕ
  pub finished_at : ℕ
  pub tempo : ℕ

-- The tables, and the caches of the service: the neurons by hotkey and netuid.
pub record State : Type 0 where
  pub keys : Keys
  pub blocks : List Block
  pub subnets : List Subnet
  pub neurons : Table Neuron
  pub snapshots : Table NeuronSnapshot
  pub metrics : List MechanismMetrics
  pub weights : List Link
  pub bonds : List Link
  pub collaterals : List Collateral
  pub dumps : List MetagraphDump
  pub neuron_cache : List ((ℕ × ℕ) × Neuron)

-- The primary keys and the unique constraints.
abbrev pub is_block : ℕ → Block → Bool
is_block n b = n == b.number

abbrev pub is_subnet : ℕ → Subnet → Bool
is_subnet n s = n == s.netuid

abbrev pub is_neuron : ℕ × ℕ → Neuron → Bool
is_neuron k n = (k.0 == n.hotkey_id) && (k.1 == n.subnet_id)

abbrev pub is_snapshot : ℕ × ℕ → NeuronSnapshot → Bool
is_snapshot k s = (k.0 == s.neuron_id) && (k.1 == s.block_id)

abbrev pub is_metrics : ℕ × ℕ → MechanismMetrics → Bool
is_metrics k m = (k.0 == m.snapshot_id) && (k.1 == m.mech_id)

abbrev pub is_link : ℕ × ℕ × ℕ × ℕ → Link → Bool
is_link k l =
    (k.0 == l.source_neuron_id)
    && (k.1 == l.target_neuron_id)
    && (k.2 == l.block_id)
    && (k.3 == l.mech_id)

abbrev pub is_collateral : ℕ × ℕ × ℕ → Collateral → Bool
is_collateral k c =
    (k.0 == c.source_neuron_id) && (k.1 == c.target_neuron_id) && (k.2 == c.block_id)

abbrev pub is_dump : ℕ × ℕ → MetagraphDump → Bool
is_dump k d = (k.0 == d.netuid) && (k.1 == d.block_id)

-- The SDK's records.
pub record HotkeyDto : Type 0 where
  pub hotkey : String
  pub coldkey : Option String

pub record BlockDto : Type 0 where
  pub block_number : ℕ
  pub timestamp : Option ℕ

-- A datetime with or without a time zone.
pub data Moment : Type 0 where
  naive : ℕ → Moment
  aware : ℕ → Moment

pub record SubnetDto : Type 0 where
  pub netuid : ℕ
  pub name : Option String
  pub owner_hotkey : Option HotkeyDto
  pub registered_at : Option Moment
  pub alpha_out_emission : Option Amount
  pub tempo : ℕ
  pub moving_price : Json

pub record NeuronDto : Type 0 where
  pub uid : ℕ
  pub hotkey : Option HotkeyDto
  pub evm_key : Option String

pub record MechanismDto : Type 0 where
  pub mech_id : ℕ
  pub mechanism : Mechanism

pub record SnapshotDto : Type 0 where
  pub neuron : NeuronDto
  pub uid : ℕ
  pub axon_address : Option String
  pub total_stake : Option Amount
  pub alpha_stake : Option Amount
  pub alpha_dividends : Option Amount
  pub tao_dividends : Option Amount
  pub normalized_stake : Json
  pub rank : Json
  pub trust : Json
  pub emissions : Option Amount
  pub is_active : Bool
  pub is_validator : Bool
  pub is_immune : Bool
  pub has_any_weights : Bool
  pub neuron_version : Json
  pub block_at_registration : Json
  pub mechanisms : List MechanismDto

-- A weight or a bond, by the uids of its neurons.
pub record LinkDto : Type 0 where
  pub source_neuron_uid : ℕ
  pub target_neuron_uid : ℕ
  pub mech_id : ℕ
  pub value : Json

pub record CollateralDto : Type 0 where
  pub source_neuron_uid : ℕ
  pub target_neuron_uid : ℕ
  pub amount : Option Amount

pub record Metagraph : Type 0 where
  pub block : BlockDto
  pub subnet : SubnetDto
  pub neurons : List SnapshotDto
  pub weights : List LinkDto
  pub bonds : List LinkDto
  pub collaterals : List CollateralDto
