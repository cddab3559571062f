-- ===== src/Metagraph/Apy/Tick.antt =====
-- The task `ingest_validator_apy_epochs` of app/src/apps/metagraph/tasks.py: one tick of the ingest, in
-- one transaction under an advisory lock, with the watermark of the snapshots that were read.
use sentinel_tower.Prelude.{
  ℕ, ◌-◌, ◌≤◌, ◌≡◌, refl, sym, Bool, true, false, ◌&&◌, Option, none, some, List, [], ◌∷◌, ltb, leb,
  if◌then◌else◌, arith,
}
use sentinel_tower.Prelude.Rows.{find_row, IsKeyed}
use sentinel_tower.Json.{Result, ok, raised, Succeeds}
use sentinel_tower.Metagraph.Rows.{NeuronSnapshot, State, is_snapshot}
use sentinel_tower.Metagraph.Apy.{
  ValidatorApyEpoch, is_fact, Arithmetic, concerns, id_range, ingest_id_range,
}
use sentinel_tower.Metagraph.Apy.Refines.{expected, reconcile_and_upsert-Refines}
use sentinel_tower.Metagraph.Apy.Again.{reconcile_and_upsert-IsKeyed}
use sentinel_tower.Metagraph.Apy.Succeeds.{
  HasLogarithms, AllNonNegative, reconcile_and_upsert-Succeeds,
}
use sentinel_tower.Metagraph.Apy.Sweep.{
  sweep_timestamps, apply_retention, retained, sweep_timestamps-IsKeyed, apply_retention-IsKeyed,
  swept-at,
}

abbrev pub reprocess_margin : ℕ
reprocess_margin = 1000000

-- `last_snapshot_id` is that of the row 1 of metagraph_validator_apy_ingest_state, if it is there.
pub record World : Type 0 where
  pub state : State
  pub facts : List ValidatorApyEpoch
  pub last_snapshot_id : Option ℕ

pub data Report : Type 0 where
  skipped : Report
  failed : Report
  done : (reconciled upserted swept expired : ℕ) → Report

-- `COALESCE(MAX(id), 0)`
unfoldable pub max_id : List NeuronSnapshot → ℕ
max_id [] = 0
max_id (ns ∷ rest) = let m = max_id rest in if leb m ns.id then ns.id else m

-- `GREATEST(last_snapshot_id, %s)`
abbrev pub greatest : ℕ → ℕ → ℕ
greatest a b = if leb a b then b else a

-- The statements after the ingest, which cannot fail.
unfoldable pub after_ingest :
    ℕ → ℕ → World → Result ((ℕ × ℕ) × List ValidatorApyEpoch) → Report × World
unfolding sweep_timestamps apply_retention max_id
after_ingest before watermark w raised = (failed, w)
after_ingest before watermark w (ok (counts, facts)) =
    let (swept, facts') = sweep_timestamps w.state.blocks facts in
    let (expired, facts'') = apply_retention before w.state.blocks facts' in
    (
      done counts.0 counts.1 swept expired,
      record w {
        facts = facts'';
        last_snapshot_id = some (greatest watermark (max_id w.state.snapshots.rows));
      },
    )

-- What follows the read of the watermark.
unfoldable pub from_watermark : Arithmetic → ℕ → World → Option ℕ → Report × World
unfolding max_id ingest_id_range after_ingest
from_watermark ar before w none = (failed, w)
from_watermark ar before w (some watermark) = after_ingest before watermark w (
    ingest_id_range ar (watermark - reprocess_margin) (max_id w.state.snapshots.rows) w.state
      w.facts)

-- `locked` tells whether another session has the lock, `interrupted` whether the time limit ends the
-- transaction before its commit; `before` is the moment RETENTION_DAYS ago.
unfoldable pub ingest_validator_apy_epochs : Arithmetic → ℕ → Bool → Bool → World → Report × World
unfolding from_watermark
ingest_validator_apy_epochs ar before locked interrupted w =
    if locked
    then (skipped, w)
    else if interrupted
    then (failed, w)
    else from_watermark ar before w w.last_snapshot_id

-- The snapshots that a tick reads again, or for the first time.
abbrev pub recent : ℕ → NeuronSnapshot → Bool
recent watermark ns = ltb (watermark - reprocess_margin) ns.id

find_row-recent :
    (watermark m : ℕ) (c : NeuronSnapshot → Bool) (rows : List NeuronSnapshot)
    → max_id rows ≤ m
    → find_row (λ ns. id_range (watermark - reprocess_margin) m ns && c ns) rows
      ≡ find_row (λ ns. recent watermark ns && c ns) rows
unfolding find_row max_id id_range
find_row-recent watermark m c [] le = refl
find_row-recent watermark m c (ns ∷ rows) le = ground (arith, find_row-recent watermark m c rows)

-- What is true of a tick that is done.
pub record IsDone (ar : Arithmetic) (before watermark : ℕ) (w w' : World) : Type 0 where
  pub state : w'.state ≡ w.state
  pub advanced : w'.last_snapshot_id ≡ some (greatest watermark (max_id w.state.snapshots.rows))
  pub keyed : IsKeyed is_fact w'.facts
  pub at_key :
      (k : ℕ × ℕ × ℕ)
      → (o : Option ValidatorApyEpoch) × (expected ar w.state
            (find_row (λ ns. recent watermark ns && concerns w.state k ns) w.state.snapshots.rows)
            (find_row (is_fact k) w.facts)
          ≡ ok o)
        × (find_row (is_fact k) w'.facts ≡ retained before w.state.blocks o)

-- A tick is skipped or fails, and leaves the tables as they are; or it is done.
abbrev pub IsTick : Arithmetic → ℕ → World → Report × World → Type 0
IsTick ar before w (skipped, w') = w' ≡ w
IsTick ar before w (failed, w') = w' ≡ w
IsTick ar before w (done d u t x, w') =
    (watermark : ℕ) × (w.last_snapshot_id ≡ some watermark) × IsDone ar before watermark w w'

module _ (ar : Arithmetic) (before : ℕ) (w : World)
    (keyed : IsKeyed is_snapshot w.state.snapshots.rows) (unique : IsKeyed is_fact w.facts) where
  after_ingest-IsDone :
      (watermark : ℕ) (r : (ℕ × ℕ) × List ValidatorApyEpoch)
      → ingest_id_range ar
          (watermark - reprocess_margin)
          (max_id w.state.snapshots.rows)
          w.state
          w.facts
        ≡ ok r
      → IsDone ar before watermark w (after_ingest before watermark w (ok r)).1
  unfolding after_ingest ingest_id_range
  after_ingest-IsDone watermark r g =
      let facts_keyed = (reconcile_and_upsert-IsKeyed ar _ w.state w.facts unique).after r g in
      let swept_keyed = sweep_timestamps-IsKeyed before w.state.blocks r.1 facts_keyed in
      record {
        state = refl;
        advanced = refl;
        keyed =
            apply_retention-IsKeyed before w.state.blocks (sweep_timestamps w.state.blocks r.1).1
              swept_keyed;
        at_key = λ k. (
          find_row (is_fact k) r.1,
          rw
              (sym (
                find_row-recent watermark (max_id w.state.snapshots.rows) (concerns w.state k)
                  w.state.snapshots.rows (omega arith)))
              ((reconcile_and_upsert-Refines ar _ w.state k keyed w.facts).after r g),
          swept-at before w.state.blocks r.1 k facts_keyed,
        );
      }

  after_ingest-IsTick :
      (watermark : ℕ) (r : Result ((ℕ × ℕ) × List ValidatorApyEpoch))
      → w.last_snapshot_id ≡ some watermark
      → ingest_id_range ar
          (watermark - reprocess_margin)
          (max_id w.state.snapshots.rows)
          w.state
          w.facts
        ≡ r
      → IsTick ar before w (after_ingest before watermark w r)
  unfolding after_ingest
  after_ingest-IsTick watermark raised e g = refl
  after_ingest-IsTick watermark (ok r) e g = (watermark, e, after_ingest-IsDone watermark r g)

  from_watermark-IsTick :
      (o : Option ℕ) → w.last_snapshot_id ≡ o → IsTick ar before w (from_watermark ar before w o)
  unfolding from_watermark
  from_watermark-IsTick none e = refl
  from_watermark-IsTick (some watermark) e = after_ingest-IsTick watermark _ e refl

  -- A tick that is skipped or fails changes nothing. One that is done moves the watermark to the
  -- greatest id of a snapshot, if that is greater; keeps the facts unique; and leaves at every key what
  -- is expected from the snapshots above the margin, with the time of its block where it had none,
  -- unless that has expired.
  pub ingest_validator_apy_epochs-IsTick :
      (locked interrupted : Bool)
      → IsTick ar before w (ingest_validator_apy_epochs ar before locked interrupted w)
  unfolding ingest_validator_apy_epochs
  ingest_validator_apy_epochs-IsTick true interrupted = refl
  ingest_validator_apy_epochs-IsTick false true = refl
  ingest_validator_apy_epochs-IsTick false false = from_watermark-IsTick w.last_snapshot_id refl

  from_watermark-IsDone :
      (watermark : ℕ) (o : Option ℕ)
      → o ≡ some watermark
      → Succeeds (
          ingest_id_range ar
            (watermark - reprocess_margin)
            (max_id w.state.snapshots.rows)
            w.state
            w.facts)
      → (c : ℕ × ℕ × ℕ × ℕ) × ((from_watermark ar before w o).0 ≡ done c.0 c.1 c.2 c.3)
        × IsDone ar before watermark w (from_watermark ar before w o).1
  unfolding from_watermark after_ingest
  from_watermark-IsDone watermark o e ran =
      rw (e, ran.1, after_ingest) ((_, _, _, _), refl, after_ingest-IsDone watermark ran.0 ran.1)

  -- A tick that has the lock, the row of its watermark and time enough is done: the watermark moves to
  -- the greatest id of a snapshot, if that is greater, the facts stay unique, and at every key stands
  -- what is expected from the snapshots above the margin, with the time of its block where it had none,
  -- unless that has expired. It is assumed that no snapshot has dividends below 0, and that `ln` has a
  -- value at 1 plus the share of dividends that are not below 0 in a stake above 0.
  pub ingest_validator_apy_epochs-IsDone :
      (watermark : ℕ)
      → w.last_snapshot_id ≡ some watermark
      → HasLogarithms ar
      → AllNonNegative w.state.snapshots.rows
      → (c : ℕ × ℕ × ℕ × ℕ) × ((ingest_validator_apy_epochs ar before false false w).0
          ≡ done c.0 c.1 c.2 c.3)
        × IsDone ar before watermark w (ingest_validator_apy_epochs ar before false false w).1
  unfolding ingest_validator_apy_epochs ingest_id_range
  ingest_validator_apy_epochs-IsDone watermark e logarithms positive =
      let range = id_range (watermark - reprocess_margin) (max_id w.state.snapshots.rows) in
      from_watermark-IsDone watermark w.last_snapshot_id e
        (reconcile_and_upsert-Succeeds ar logarithms range w.state positive w.facts)
