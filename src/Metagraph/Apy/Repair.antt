-- ===== src/Metagraph/Apy/Repair.antt =====
-- What `backfill_validator_apy_epochs.py` of app/src/apps/metagraph/management/commands leaves, beside
-- one pass over the whole range.
use sentinel_tower.Prelude.{
  ℕ, zero, suc, ◌+◌, ◌-◌, ◌≤◌, ◌≡◌, refl, sym, ◌∙◌, inl, inr, Bool, true, false, ◌&&◌, ◌||◌, Option,
  none, some, List, [], ◌∷◌, leb, if◌then◌else◌, Bool-cases, arith,
}
use sentinel_tower.Prelude.Int.{pos, negsuc}
use sentinel_tower.Prelude.Rows.{find_row, IsKeyed}
use sentinel_tower.Json.{Result, ok, raised, ok_injective, raised_absurd, Result-cases}
use sentinel_tower.Metagraph.Rows.{NeuronSnapshot, State, is_snapshot}
use sentinel_tower.Metagraph.Apy.{
  ValidatorApyEpoch, is_fact, is_set, Arithmetic, concerns, block_range, ingest_block_range,
}
use sentinel_tower.Metagraph.Apy.Ingest.{named}
use sentinel_tower.Metagraph.Apy.Refines.{expected, reconcile_and_upsert-Refines}
use sentinel_tower.Metagraph.Apy.Tick.{World, max_id, greatest}
use sentinel_tower.Metagraph.Apy.Backfill.{
  RepairReport, advance, backfilled, bounds, derived_range, failed, finish, ingest_chunks,
  ingest_chunks_down, nothing, repaired, run_range, run_repair,
}

-- The snapshot that a key names, if the block of the key is in a range.
abbrev pub named_in : State → ℕ → ℕ → ℕ × ℕ × ℕ → Option NeuronSnapshot
named_in s a b k = if leb a k.2 && leb k.2 b then find_row (concerns s k) s.snapshots.rows else none

concerns-block :
    (s : State) (k : ℕ × ℕ × ℕ) (ns : NeuronSnapshot) → concerns s k ns ≡ true → k.2 ≡ ns.block_id
unfolding concerns
concerns-block s k ns e = ground arith

find_row-block_range :
    (s : State) (a b : ℕ) (k : ℕ × ℕ × ℕ) (rows : List NeuronSnapshot)
    → find_row (named (block_range a b) s k) rows
      ≡ (if leb a k.2 && leb k.2 b then find_row (concerns s k) rows else none)
unfolding find_row block_range
find_row-block_range s a b k [] = ground arith
find_row-block_range s a b k (ns ∷ rows) =
    let rest = find_row-block_range s a b k rows in
    elim (Bool-cases (concerns s k ns)) [
      | inl t ↦ rw t (let same = concerns-block s k ns t in ground arith)
      | inr n ↦ rw n (ground arith)
    ]

module _ (ar : Arithmetic) (s : State) (k : ℕ × ℕ × ℕ)
    (keyed : IsKeyed is_snapshot s.snapshots.rows) where
  -- One chunk.
  ingest_block_range-at :
      (a b : ℕ) (facts : List ValidatorApyEpoch) {r : (ℕ × ℕ) × List ValidatorApyEpoch}
      → ingest_block_range ar a b s facts ≡ ok r
      → expected ar s (named_in s a b k) (find_row (is_fact k) facts)
        ≡ ok (find_row (is_fact k) r.1)
  unfolding ingest_block_range
  ingest_block_range-at a b facts {r} e =
      rw (sym (find_row-block_range s a b k s.snapshots.rows))
        ((reconcile_and_upsert-Refines ar (block_range a b) s k keyed facts).after r e)

  joined :
      (first second whole : Bool) (named : Option NeuronSnapshot)
      (old mid new : Option ValidatorApyEpoch)
      → whole ≡ (first || second)
      → (first && second) ≡ false
      → expected ar s (if first then named else none) old ≡ ok mid
      → expected ar s (if second then named else none) mid ≡ ok new
      → expected ar s (if whole then named else none) old ≡ ok new
  unfolding expected
  joined true true whole named old mid new h apart e g = cc
  joined true false whole named old mid new h apart e g = rw h (e ∙ g)
  joined false true whole named old mid new h apart e g = rw (h, ok_injective e) g
  joined false false whole named old mid new h apart e g = rw h (e ∙ g)

  outside :
      (t : Bool) (facts : List ValidatorApyEpoch)
      → t ≡ false
      → expected ar s
          (if t then find_row (concerns s k) s.snapshots.rows else none)
          (find_row (is_fact k) facts)
        ≡ ok (find_row (is_fact k) facts)
  unfolding expected
  outside t facts h = rw h refl

  -- The end of the chunk that starts at a block.
  abbrev chunk_end : ℕ → ℕ → ℕ → ℕ
  chunk_end b n a = if leb (a + suc n - 1) b then a + suc n - 1 else b

  -- The chunks that are left: if all succeed, each key has what one pass over their range would leave.
  pub ingest_chunks-Refines :
      (b n fuel a d u : ℕ) (facts : List ValidatorApyEpoch) {total : ℕ × ℕ}
      → suc b - a ≤ fuel
      → (ingest_chunks ar s b (suc n) fuel a d u facts).0 ≡ ok total
      → expected ar s (named_in s a b k) (find_row (is_fact k) facts)
        ≡ ok (find_row (is_fact k) (ingest_chunks ar s b (suc n) fuel a d u facts).1)
  unfolding ingest_chunks
  ingest_chunks-Refines b n zero a d u facts le e =
      outside (leb a k.2 && leb k.2 b) facts (ground arith)
  ingest_chunks-Refines b n (suc fuel) a d u facts {total} le e = elim (Bool-cases (leb a b)) [
    | inr m ↦ rw m (outside (leb a k.2 && leb k.2 b) facts (ground arith))
    | inl t ↦ elim (Result-cases (ingest_block_range ar a (chunk_end b n a) s facts)) [
      | inl r ↦ raised_absurd (rw (t, r, ingest_chunks) at e)
      | inr (r, g) ↦
          rw (t, g, ingest_chunks)
            (joined (leb a k.2 && leb k.2 (chunk_end b n a)) (leb (a + suc n) k.2 && leb k.2 b)
              (leb a k.2 && leb k.2 b) (find_row (concerns s k) s.snapshots.rows) _ _ _
              (ground arith) (ground arith) (ingest_block_range-at a (chunk_end b n a) facts g)
              (ingest_chunks-Refines b n fuel (a + suc n) (d + r.0.0) (u + r.0.1) r.1 (omega arith)
                (rw (t, g, ingest_chunks) at e)))
    ]
  ]

-- Each key has what one pass over the range of blocks would leave.
abbrev pub CoversRange : Arithmetic → ℕ × ℕ → World → World → Type 0
CoversRange ar range w w' =
    (k : ℕ × ℕ × ℕ)
    → expected ar w.state (named_in w.state range.0 range.1 k) (find_row (is_fact k) w.facts)
      ≡ ok (find_row (is_fact k) w'.facts)

-- What a run leaves, by its report.
abbrev pub IsRepair : Arithmetic → Bool → Option (ℕ × ℕ) → World → RepairReport × World → Type 0
IsRepair ar explicit range w (failed, w') =
    (w'.state ≡ w.state) × (w'.last_snapshot_id ≡ w.last_snapshot_id)
IsRepair ar explicit range w (nothing, w') = (range ≡ none) × (w' ≡ w)
IsRepair ar explicit range w (repaired u d, w') =
    (explicit ≡ true)
    × (w'.last_snapshot_id ≡ w.last_snapshot_id)
    × ((r : ℕ × ℕ) × (range ≡ some r) × CoversRange ar r w w')
IsRepair ar explicit range w (backfilled u d, w') =
    (explicit ≡ false)
    × ((watermark : ℕ) × (w.last_snapshot_id ≡ some watermark)
        × (w'.last_snapshot_id ≡ some (greatest watermark (max_id w.state.snapshots.rows))))
    × ((r : ℕ × ℕ) × (range ≡ some r) × CoversRange ar r w w')

module _ (ar : Arithmetic) (w : World) (keyed : IsKeyed is_snapshot w.state.snapshots.rows) where
  advance-IsRepair :
      (r : ℕ × ℕ) (d u : ℕ) (facts : List ValidatorApyEpoch) (o : Option ℕ)
      → w.last_snapshot_id ≡ o
      → CoversRange ar r w (record w { facts = facts })
      → IsRepair ar false
          (some r)
          w
          (advance d u (max_id w.state.snapshots.rows) (record w { facts = facts }) o)
  unfolding advance
  advance-IsRepair r d u facts none e covers = (refl, refl)
  advance-IsRepair r d u facts (some n) e covers = (refl, (n, e, refl), (r, refl, covers))

  finish-IsRepair :
      (explicit : Bool) (r : ℕ × ℕ) (c : Result (ℕ × ℕ) × List ValidatorApyEpoch)
      → ((total : ℕ × ℕ) → c.0 ≡ ok total → CoversRange ar r w (record w { facts = c.1 }))
      → IsRepair ar explicit (some r) w (finish explicit (max_id w.state.snapshots.rows) w c)
  unfolding finish
  finish-IsRepair explicit r (raised, facts) covers = (refl, refl)
  finish-IsRepair true r (ok (d, u), facts) covers = (refl, refl, (r, refl, covers (d, u) refl))
  finish-IsRepair false r (ok (d, u), facts) covers =
      advance-IsRepair r d u facts w.last_snapshot_id refl (covers (d, u) refl)

  run_range-IsRepair :
      (size : ℕ) (explicit : Bool) (range : Option (ℕ × ℕ))
      → IsRepair ar explicit range w (run_range ar (pos size) explicit w range)
  unfolding run_range
  run_range-IsRepair size explicit none = (refl, refl)
  run_range-IsRepair zero explicit (some (a, b)) = (refl, refl)
  run_range-IsRepair (suc n) explicit (some (a, b)) =
      finish-IsRepair explicit (a, b) (ingest_chunks ar w.state b (suc n) (suc b - a) a 0 0 w.facts)
        λ total e k.
          ingest_chunks-Refines ar w.state k keyed b n (suc b - a) a 0 0 w.facts (omega arith) e

  -- With a chunk size that is not below 0, a run that succeeds leaves at each key what one pass over its
  -- range of blocks would leave, however the range is cut into chunks. It moves the watermark only if no
  -- endpoint is given; a run that fails moves it in no case.
  pub run_repair-IsRepair :
      (since : ℕ) (block_start block_end : Option ℕ) (chunk_size : ℕ)
      → IsRepair ar
          (is_set block_start || is_set block_end)
          (bounds block_start block_end (derived_range since w.state.blocks))
          w
          (run_repair ar since block_start block_end (pos chunk_size) w)
  unfolding run_repair
  run_repair-IsRepair since a b size =
      run_range-IsRepair size (is_set a || is_set b)
        (bounds a b (derived_range since w.state.blocks))

  -- With a chunk size below 0, a run over a range that is not empty succeeds without a pass: the facts
  -- stay as they are, but if no endpoint is given, the watermark moves all the same.
  run_repair_negative :
      (since n watermark a b : ℕ)
      → w.last_snapshot_id ≡ some watermark
      → derived_range since w.state.blocks ≡ some (a, b)
      → a ≤ b
      → run_repair ar since none none (negsuc n) w ≡ (
        backfilled 0 0,
        record w { last_snapshot_id = some (greatest watermark (max_id w.state.snapshots.rows)) },
      )
  unfolding run_repair run_range ingest_chunks_down finish bounds advance
  run_repair_negative since n watermark zero b e f le = rw (f, e) refl
  run_repair_negative since n watermark (suc a) b e f le =
      let first : leb (suc a) (suc b) ≡ true = ground arith in rw (f, first, e) refl
