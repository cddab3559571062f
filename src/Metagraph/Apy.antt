-- ===== src/Metagraph/Apy.antt =====
-- `apy_epoch_ingest.py` of app/src/apps/metagraph/services: the facts on the yield of validators, one
-- for each validator and completed epoch, that are derived from the snapshots at the end of epochs.
-- The statements of the database are functions of the tables. A join along a unique constraint finds
-- one row; PostgreSQL's arithmetic on numbers is a parameter, and a number is the text that prints it.
pub mod Search
pub mod Ingest
pub mod Selected
pub mod Refines
pub mod Found
pub mod Again
pub mod Succeeds
pub mod Sweep
pub mod Tick
pub mod Backfill
pub mod Repair
use Prim.Native.String.{String}
use text.Mathlib.Text.{◌==◌ as str_eq}
use sentinel_tower.Prelude.{
  ℕ, ◌+◌, ◌==◌, Bool, true, false, not, ◌&&◌, ◌||◌, Option, none, some, List, [], ◌∷◌, filter,
  length, ltb, leb, if◌then◌else◌,
}
use sentinel_tower.Prelude.Int.{ℤ, pos, ltb_ℤ, eqb_ℤ}
use sentinel_tower.Prelude.Rows.{find_row, update_where}
use sentinel_tower.Json.{Result, ok, raised, ◌>>=◌}
use sentinel_tower.Metagraph.Rows.{
  Block, Subnet, Neuron, NeuronSnapshot, MetagraphDump, State, is_block, is_subnet, is_dump,
}

pub record ValidatorApyEpoch : Type 0 where
  pub subnet_id : ℕ
  pub neuron_id : ℕ
  pub hotkey_id : ℕ
  pub epoch_block : ℕ
  pub epoch_ts : Option ℕ
  pub alpha_stake : ℤ
  pub alpha_dividends : ℤ
  pub total_stake : ℤ
  pub tempo : ℕ
  pub apy_pct : String

-- The unique constraint: subnet, neuron and block.
abbrev pub is_fact : ℕ × ℕ × ℕ → ValidatorApyEpoch → Bool
is_fact k e = (k.0 == e.subnet_id) && (k.1 == e.neuron_id) && (k.2 == e.epoch_block)

-- PostgreSQL's numeric operations, of which `ln` fails on what is not positive; and the conversion to
-- a double.
pub record Arithmetic : Type 0 where
  pub of_int : ℤ → String
  pub add : String → String → String
  pub sub : String → String → String
  pub mul : String → String → String
  pub div : String → String → String
  pub least : String → String → String
  pub exp : String → String
  pub ln : String → Result String
  pub to_float : String → String

-- `_APY_EXPR`
unfoldable pub apy_expr : Arithmetic → ℕ → ℤ → ℤ → Result String
unfolding ◌>>=◌
apy_expr ar tempo stake dividends =
    ar.ln (ar.add "1" (ar.div (ar.of_int dividends) (ar.of_int stake))) >>= λ l.
    let epochs = ar.div "2629800.0" (ar.add (ar.of_int (pos tempo)) "1") in
    let growth = ar.exp (ar.least (ar.mul epochs l) "14") in
    ok (ar.to_float (ar.least (ar.mul (ar.sub growth "1") "100") "1000000"))

-- `COALESCE(NULLIF(d.tempo, 0), NULLIF(s.tempo, 0), 360)`
unfoldable pub tempo_of : MetagraphDump → Subnet → ℕ
tempo_of d s = if d.tempo == 0 then (if s.tempo == 0 then 360 else s.tempo) else d.tempo

abbrev pub is_end : Option ℕ → Bool
is_end none = false
is_end (some p) = p == 2

-- `ns.is_validator = true AND ns.alpha_stake > 0`
unfoldable pub is_staked : NeuronSnapshot → Bool
is_staked ns = ns.measures.is_validator && ltb_ℤ (pos 0) ns.measures.alpha_stake

unfoldable pub neuron_of : State → NeuronSnapshot → Option Neuron
unfolding find_row
neuron_of s ns = find_row (λ n. n.id == ns.neuron_id) s.neurons.rows

-- The dump of the block and the subnet, if it is one at the end of an epoch.
unfoldable pub end_dump : State → Neuron → NeuronSnapshot → Option MetagraphDump
unfolding find_row
end_dump s n ns =
    find_row (λ d. is_dump (n.subnet_id, ns.block_id) d && is_end d.epoch_position) s.dumps

-- The rows that a snapshot is joined with.
pub record Source : Type 0 where
  pub neuron : Neuron
  pub subnet : Subnet
  pub dump : MetagraphDump
  pub timestamp : Option ℕ

-- `LEFT JOIN metagraph_block b`
unfoldable pub timestamp_of : State → NeuronSnapshot → Option ℕ
unfolding find_row
timestamp_of s ns = elim (find_row (is_block ns.block_id) s.blocks) [
  | none ↦ none
  | some b ↦ b.timestamp
]

unfoldable pub source_of : State → NeuronSnapshot → Option Source
unfolding neuron_of end_dump timestamp_of find_row is_staked
source_of s ns = elim (neuron_of s ns) [
  | none ↦ none
  | some n ↦ elim (find_row (is_subnet n.subnet_id) s.subnets) [
    | none ↦ none
    | some subnet ↦ elim (end_dump s n ns) [
      | none ↦ none
      | some d ↦
          if is_staked ns
          then some
              (record { neuron = n; subnet = subnet; dump = d; timestamp = timestamp_of s ns })
          else none
    ]
  ]
]

-- A row of the SELECT.
unfoldable pub fact_of : Arithmetic → NeuronSnapshot → Source → Result ValidatorApyEpoch
unfolding apy_expr tempo_of ◌>>=◌
fact_of ar ns src =
    let tempo = tempo_of src.dump src.subnet in
    apy_expr ar tempo ns.measures.alpha_stake ns.measures.alpha_dividends >>= λ apy. ok record {
      subnet_id = src.neuron.subnet_id;
      neuron_id = ns.neuron_id;
      hotkey_id = src.neuron.hotkey_id;
      epoch_block = ns.block_id;
      epoch_ts = src.timestamp;
      alpha_stake = ns.measures.alpha_stake;
      alpha_dividends = ns.measures.alpha_dividends;
      total_stake = ns.measures.total_stake;
      tempo = tempo;
      apy_pct = apy;
    }

-- Whether a snapshot still qualifies for a fact.
unfoldable pub is_eligible : State → Neuron → NeuronSnapshot → Bool
unfolding end_dump is_staked
is_eligible s n ns = is_staked ns && (elim (end_dump s n ns) [ none ↦ false | some d ↦ true ])

-- Whether a snapshot is the one that a key names.
unfoldable pub concerns : State → ℕ × ℕ × ℕ → NeuronSnapshot → Bool
unfolding neuron_of
concerns s k ns = elim (neuron_of s ns) [
  | none ↦ false
  | some n ↦ (k.0 == n.subnet_id) && (k.1 == ns.neuron_id) && (k.2 == ns.block_id)
]

-- Whether the DELETE joins a fact with a snapshot of the range that does not qualify.
unfoldable pub disqualifies :
    (NeuronSnapshot → Bool) → State → ValidatorApyEpoch → NeuronSnapshot → Bool
unfolding neuron_of is_eligible
disqualifies range s e ns = range ns && (elim (neuron_of s ns) [
  | none ↦ false
  | some n ↦ is_fact (n.subnet_id, ns.neuron_id, ns.block_id) e && not (is_eligible s n ns)
])

module _ {R : Type 0} where
  -- `EXISTS`
  unfoldable pub exists_row : (R → Bool) → List R → Bool
  exists_row p [] = false
  exists_row p (r ∷ rows) = p r || exists_row p rows

-- `_RECONCILE_TEMPLATE`: the number of facts that are deleted, and the others.
unfoldable pub reconcile :
    (NeuronSnapshot → Bool) → State → List ValidatorApyEpoch → ℕ × List ValidatorApyEpoch
unfolding exists_row disqualifies
reconcile range s facts = (
  length (filter (λ e. exists_row (disqualifies range s e) s.snapshots.rows) facts),
  filter (λ e. not (exists_row (disqualifies range s e) s.snapshots.rows)) facts,
)

-- The SELECT of `_UPSERT_TEMPLATE`.
unfoldable pub select_facts :
    Arithmetic
    → (NeuronSnapshot → Bool)
    → State
    → List NeuronSnapshot
    → Result (List ValidatorApyEpoch)
unfolding source_of fact_of ◌>>=◌
select_facts ar range s [] = ok []
select_facts ar range s (ns ∷ rest) =
    let facts = select_facts ar range s rest in
    if range ns
    then (elim (source_of s ns) [
      | none ↦ facts
      | some src ↦ fact_of ar ns src >>= λ f. facts >>= λ fs. ok (f ∷ fs)
    ])
    else facts

abbrev pub is_set : Option ℕ → Bool
is_set none = false
is_set (some t) = true

abbrev pub coalesce : Option ℕ → Option ℕ → Option ℕ
coalesce none b = b
coalesce (some t) b = some t

-- `IS DISTINCT FROM`, or a time that the fact has not.
unfoldable pub differs : ValidatorApyEpoch → ValidatorApyEpoch → Bool
differs e f =
    not (
      (e.hotkey_id == f.hotkey_id)
      && eqb_ℤ e.alpha_stake f.alpha_stake
      && eqb_ℤ e.alpha_dividends f.alpha_dividends
      && eqb_ℤ e.total_stake f.total_stake
      && (e.tempo == f.tempo)
      && str_eq e.apy_pct f.apy_pct)
    || (not (is_set e.epoch_ts) && is_set f.epoch_ts)

-- `DO UPDATE SET`
unfoldable pub overwrite : ValidatorApyEpoch → ValidatorApyEpoch → ValidatorApyEpoch
overwrite f e = record e {
  hotkey_id = f.hotkey_id;
  epoch_ts = coalesce f.epoch_ts e.epoch_ts;
  alpha_stake = f.alpha_stake;
  alpha_dividends = f.alpha_dividends;
  total_stake = f.total_stake;
  tempo = f.tempo;
  apy_pct = f.apy_pct;
}

abbrev pub key_of : ValidatorApyEpoch → ℕ × ℕ × ℕ
key_of f = (f.subnet_id, f.neuron_id, f.epoch_block)

-- `ON CONFLICT ... DO UPDATE ... WHERE ...`: the rows that are written, and the facts.
unfoldable pub upsert_fact : ValidatorApyEpoch → List ValidatorApyEpoch → ℕ × List ValidatorApyEpoch
unfolding find_row update_where differs overwrite
upsert_fact f facts = elim (find_row (is_fact (key_of f)) facts) [
  | none ↦ (1, f ∷ facts)
  | some e ↦
      if differs e f then (1, update_where (is_fact (key_of f)) (overwrite f) facts) else (0, facts)
]

unfoldable pub upsert_facts :
    List ValidatorApyEpoch → List ValidatorApyEpoch → ℕ × List ValidatorApyEpoch
unfolding upsert_fact
upsert_facts [] facts = (0, facts)
upsert_facts (f ∷ fs) facts =
    let (n, facts') = upsert_fact f facts in
    let (m, final) = upsert_facts fs facts' in (n + m, final)

-- `_reconcile_and_upsert`: how many facts are deleted and written, and the facts.
unfoldable pub reconcile_and_upsert :
    Arithmetic
    → (NeuronSnapshot → Bool)
    → State
    → List ValidatorApyEpoch
    → Result ((ℕ × ℕ) × List ValidatorApyEpoch)
unfolding reconcile select_facts upsert_facts ◌>>=◌
reconcile_and_upsert ar range s facts = select_facts ar range s s.snapshots.rows >>= λ fs.
    let (deleted, left) = reconcile range s facts in
    let (upserted, final) = upsert_facts fs left in ok ((deleted, upserted), final)

-- `_ID_RANGE`
unfoldable pub id_range : ℕ → ℕ → NeuronSnapshot → Bool
id_range min_id max_id ns = ltb min_id ns.id && leb ns.id max_id

-- `_BLOCK_RANGE`
unfoldable pub block_range : ℕ → ℕ → NeuronSnapshot → Bool
block_range block_start block_end ns = leb block_start ns.block_id && leb ns.block_id block_end

unfoldable pub ingest_id_range :
    Arithmetic → ℕ → ℕ → State → List ValidatorApyEpoch → Result ((ℕ × ℕ) × List ValidatorApyEpoch)
unfolding id_range reconcile_and_upsert
ingest_id_range ar min_id max_id = reconcile_and_upsert ar (id_range min_id max_id)

unfoldable pub ingest_block_range :
    Arithmetic → ℕ → ℕ → State → List ValidatorApyEpoch → Result ((ℕ × ℕ) × List ValidatorApyEpoch)
unfolding block_range reconcile_and_upsert
ingest_block_range ar block_start block_end =
    reconcile_and_upsert ar (block_range block_start block_end)
