-- ===== src/Metagraph/Burn.antt =====
-- `BurnService` of app/src/apps/metagraph/services/burn_service.py: the meta epochs, and the burn of a
-- subnet at the start of one of its epochs. Floating-point arithmetic and the database's sums are a
-- parameter.
pub mod Emissions
pub mod Outcome
pub mod Anchored
pub mod Valid
pub mod Placeholders
use Prim.Native.String.{String}
use text.Mathlib.Text.{◌==◌ as str_eq}
use sentinel_tower.Prelude.{
  ℕ, ◌==◌, Bool, true, false, not, ◌&&◌, ◌||◌, Option, none, some, List, [], ◌∷◌, map, length, ltb,
  if◌then◌else◌,
}
use sentinel_tower.Prelude.Int.{ℤ, pos, negsuc}
use sentinel_tower.Prelude.Rows.{find_row, upsert}
use sentinel_tower.Epoch.Position.{root_netuid, is_subnet_epoch_start, meta_epoch_block}
use sentinel_tower.Json.{Json, real, Result, ok, raised, truthy}
use sentinel_tower.Metagraph.Keys.{Coldkey, Hotkey, is_among}
use sentinel_tower.Metagraph.Rows.{
  Block, Neuron, NeuronSnapshot, MechanismMetrics, MetagraphDump, State, is_block, is_subnet,
  is_dump,
}

pub record SubnetBurn : Type 0 where
  pub subnet_id : ℕ
  pub meta_epoch_id : ℕ
  pub source_block_number : ℕ
  pub burn : Json
  pub superburn : Json

pub record SubnetEmission : Type 0 where
  pub subnet_id : ℕ
  pub meta_epoch_id : ℕ
  pub emission_enabled : Bool

-- The metagraph tables, the numbers of the blocks that start a meta epoch, and the cached rows.
pub record Burns : Type 0 where
  pub state : State
  pub meta_epochs : List ℕ
  pub burns : List SubnetBurn
  pub emissions : List SubnetEmission

abbrev pub is_burn : ℕ × ℕ → SubnetBurn → Bool
is_burn k b = (k.0 == b.subnet_id) && (k.1 == b.meta_epoch_id)

abbrev pub is_emission : ℕ × ℕ → SubnetEmission → Bool
is_emission k e = (k.0 == e.subnet_id) && (k.1 == e.meta_epoch_id)

-- What the chain answers on the emissions: NotImplementedError, another exception, None or a dict.
pub data ChainRead : Type 0 where
  unsupported : ChainRead
  failed : ChainRead
  unavailable : ChainRead
  values : List (ℕ × Bool) → ChainRead

pub record ChainProvider : Type 0 where
  pub get_block_timestamp : ℕ → Result (Option ℕ)
  pub get_subnet_emission_enabled : ℕ → ChainRead

-- The provider of the service, and what `get_archive_provider` gives.
pub record Providers : Type 0 where
  pub current : Option ChainProvider
  pub archive : Result ChainProvider

unfoldable pub timestamp_from_provider : ChainProvider → ℕ → Option ℕ
timestamp_from_provider p n = elim (p.get_block_timestamp n) [ raised ↦ none | ok t ↦ t ]

unfoldable pub archive_timestamp : Result ChainProvider → ℕ → Option ℕ
unfolding timestamp_from_provider
archive_timestamp raised n = none
archive_timestamp (ok p) n = timestamp_from_provider p n

unfoldable pub recover_block_timestamp : Providers → ℕ → Option ℕ
unfolding timestamp_from_provider archive_timestamp
recover_block_timestamp ps n = elim ps.current [
  | none ↦ archive_timestamp ps.archive n
  | some p ↦ elim (timestamp_from_provider p n) [
    | none ↦ archive_timestamp ps.archive n
    | some t ↦ some t
  ]
]

-- `Block.objects.get_or_create(number=..., defaults={"timestamp": ...})` where there is no such block.
unfoldable pub add_block : ℕ → ℕ → Burns → Burns
add_block n t s = record s {
  state = record s.state {
    blocks =
        record { number = n; timestamp = some t; dump_started_at = none; dump_finished_at = none }
        ∷ s.state.blocks;
  };
}

abbrev pub add_epoch : ℕ → Burns → Burns
add_epoch a s = record s { meta_epochs = a ∷ s.meta_epochs }

-- The meta epoch that starts at a block, found or made.
unfoldable pub meta_epoch_at : Providers → ℕ → Burns → Option ℕ × Burns
unfolding is_among find_row recover_block_timestamp add_block
meta_epoch_at ps a s =
    if is_among a s.meta_epochs then (some a, s) else (elim (find_row (is_block a) s.state.blocks) [
      | some b ↦ (some a, add_epoch a s)
      | none ↦ elim (recover_block_timestamp ps a) [
        | none ↦ (none, s)
        | some t ↦ (some a, add_epoch a (add_block a t s))
      ]
    ])

unfoldable pub meta_epoch_for_block : Providers → ℕ → Burns → Option ℕ × Burns
unfolding meta_epoch_block meta_epoch_at
meta_epoch_for_block ps n s = elim (meta_epoch_block (pos n)) [
  | negsuc m ↦ (none, s)
  | pos a ↦ meta_epoch_at ps a s
]

-- Floats, as texts: the database's SUM, Python's `sum`, the division by a length, and `<`.
pub record Floats : Type 0 where
  pub db_sum : List Json → Json
  pub sum : List Json → Json
  pub over : Json → ℕ → Json
  pub below : Json → Json → Bool

abbrev pub float_zero : Json
float_zero = real "0.0"

abbrev pub float_one : Json
float_one = real "1.0"

-- `min(1.0, max(0.0, value))`: Python keeps the first of two values, unless the second is smaller, or
-- greater.
unfoldable pub clamp : Floats → Json → Json
clamp fl v =
    let low = if fl.below float_zero v then v else float_zero in
    if fl.below low float_one then low else float_one

-- The coldkey of the neuron that a metric is about, if the metric is of the block and the subnet.
unfoldable pub earner : State → ℕ → ℕ → MechanismMetrics → Option Coldkey
unfolding find_row
earner s block netuid m =
    elim (find_row (λ r. (r.id == m.snapshot_id) && (r.block_id == block)) s.snapshots.rows) [
      | none ↦ none
      | some snapshot ↦
          elim (find_row (λ r. (r.id == snapshot.neuron_id) && (r.subnet_id == netuid))
            s.neurons.rows) [
              | none ↦ none
              | some neuron ↦ elim (find_row (λ r. r.id == neuron.hotkey_id) s.keys.hotkeys.rows) [
                | none ↦ none
                | some hotkey ↦ find_row (λ r. r.id == hotkey.coldkey_id) s.keys.coldkeys.rows
              ]
            ]
    ]

-- The incentives of one mechanism that go to the owner, and those that go to the other coldkey.
pub record Terms : Type 0 where
  pub mech_id : ℕ
  pub owner_terms : List Json
  pub superburn_terms : List Json

-- `GROUP BY mech_id ORDER BY mech_id`
unfoldable pub add_terms : ℕ → Json → Json → List Terms → List Terms
add_terms m o b [] = record { mech_id = m; owner_terms = o ∷ []; superburn_terms = b ∷ [] } ∷ []
add_terms m o b (t ∷ ts) =
    let rest = add_terms m o b ts in
    if m == t.mech_id
    then record t { owner_terms = o ∷ t.owner_terms; superburn_terms = b ∷ t.superburn_terms } ∷ ts
    else (if ltb m t.mech_id
        then record { mech_id = m; owner_terms = o ∷ []; superburn_terms = b ∷ [] } ∷ t ∷ ts
        else t ∷ rest)

abbrev pub is_owner : Option ℕ → Coldkey → Bool
is_owner none k = false
is_owner (some i) k = k.id == i

abbrev pub is_superburn : Option String → Coldkey → Bool
is_superburn none k = false
is_superburn (some a) k = not (str_eq a "") && str_eq k.coldkey a

module _ (s : State) (block netuid : ℕ) (owner : Option ℕ) (superburn : Option String) where
  unfoldable pub terms_of : List MechanismMetrics → List Terms
  unfolding earner add_terms
  terms_of [] = []
  terms_of (m ∷ ms) =
      let rest = terms_of ms in
      elim (earner s block netuid m) [
        | none ↦ rest
        | some k ↦
            add_terms m.mech_id (if is_owner owner k then m.mechanism.incentive else float_zero)
              (if is_superburn superburn k then m.mechanism.incentive else float_zero) rest
      ]

pub record MechanismShares : Type 0 where
  pub burn : Json
  pub superburn : Json

-- `value or 0.0`
abbrev pub or_zero : Json → Json
or_zero v = if truthy v then v else float_zero

unfoldable pub per_mechanism_shares :
    Floats → State → ℕ → ℕ → Option ℕ → Option String → List MechanismShares
unfolding terms_of truthy
per_mechanism_shares fl s block netuid owner superburn =
    map
      (λ t. record {
        burn = or_zero (fl.db_sum t.owner_terms);
        superburn = or_zero (fl.db_sum t.superburn_terms);
      })
      (terms_of s block netuid owner superburn s.metrics)

-- `dump.owner_hotkey.coldkey_id if dump.owner_hotkey else None`
unfoldable pub owner_coldkey : State → MetagraphDump → Option ℕ
unfolding find_row
owner_coldkey s d = elim d.owner_hotkey_id [
  | none ↦ none
  | some i ↦ elim (find_row (λ r. r.id == i) s.keys.hotkeys.rows) [
    | none ↦ none
    | some h ↦ some h.coldkey_id
  ]
]

module _ (fl : Floats) (ps : Providers) (superburn_coldkey : Option String) where
  -- The row of the burn, put under its meta epoch.
  unfoldable pub put_burn :
      ℕ → ℕ → List MechanismShares → Option ℕ × Burns → Option SubnetBurn × Burns
  unfolding clamp upsert
  put_burn block netuid shares (none, s) = (none, s)
  put_burn block netuid shares (some epoch, s) =
      let burn = clamp fl (fl.over (fl.sum (map (λ h. h.burn) shares)) (length shares)) in
      let superburn = clamp fl (fl.over (fl.sum (map (λ h. h.superburn) shares)) (length shares)) in
      let new : SubnetBurn = record {
        subnet_id = netuid;
        meta_epoch_id = epoch;
        source_block_number = block;
        burn = burn;
        superburn = superburn;
      } in
      (
        some new,
        record s {
          burns =
              upsert (is_burn (netuid, epoch))
                (λ b. record b { source_block_number = block; burn = burn; superburn = superburn })
                new s.burns;
        },
      )

  -- A burn from the dump of the block.
  unfoldable pub burn_from_dump : ℕ → ℕ → Burns → MetagraphDump → Option SubnetBurn × Burns
  unfolding per_mechanism_shares owner_coldkey put_burn meta_epoch_for_block
  burn_from_dump block netuid s d =
      let shares =
        per_mechanism_shares fl s.state block netuid (owner_coldkey s.state d) superburn_coldkey in
      elim shares [
        | [] ↦ (none, s)
        | h ∷ hs ↦ put_burn block netuid (h ∷ hs) (meta_epoch_for_block ps block s)
      ]

  abbrev pub precedes_epochs : ℕ → Bool
  precedes_epochs block = elim (meta_epoch_block (pos block)) [ pos a ↦ false | negsuc m ↦ true ]

  unfoldable pub sync_burn : ℕ → ℕ → Burns → Option SubnetBurn × Burns
  unfolding is_subnet_epoch_start find_row burn_from_dump
  sync_burn block netuid s =
      if (netuid == root_netuid)
        || not (is_subnet_epoch_start (pos block) netuid)
        || precedes_epochs block
      then (none, s)
      else (elim (find_row (is_subnet netuid) s.state.subnets) [
        | none ↦ (none, s)
        | some subnet ↦ elim (find_row (is_dump (netuid, block)) s.state.dumps) [
          | none ↦ (none, s)
          | some d ↦ burn_from_dump block netuid s d
        ]
      ])
