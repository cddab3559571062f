-- ===== src/Daemon.antt =====
-- The daemon of app/src/apps/extrinsics/management/commands/sync_extrinsics.py. What it asks of the
-- world is answered by the time of the question: each call of the chain takes one tick.
pub mod Order
use sentinel_tower.Prelude.{
  ℕ, zero, suc, ◌+◌, Bool, true, false, Option, none, some, List, [], ◌∷◌, if◌then◌else◌,
}
use sentinel_tower.Prelude.Int.{ℤ, pos, negsuc, pos_part, ◌+ℤ◌, ◌-ℤ◌, leb_ℤ}
use sentinel_tower.Json.{Result, ok, raised}
use sentinel_tower.Extrinsics.Sync.{
  Db, Setup, Block, Outcome, stored, unavailable, failed, store_block_extrinsics,
}
use sentinel_tower.Backoff.{Backoff, record_failure, record_recovery}

-- `shutdown` tells whether the signal has come, `connects` whether a handshake succeeds,
-- `current_block` what the provider says of the head, `ingest` what the SDK reads.
pub record World : Type 0 where
  pub shutdown : ℕ → Bool
  pub connects : ℕ → Bool
  pub current_block : ℕ → Result ℤ
  pub ingest : ℕ → ℕ → Result Block

-- `attempted` lists the blocks that were tried, the last one first.
pub record State : Type 0 where
  pub tick : ℕ
  pub connected : Bool
  pub last_processed_block : Option ℤ
  pub reconnect : Backoff
  pub attempted : List ℤ
  pub db : Db

unfoldable pub next_tick : State → State
next_tick s = record s { tick = suc s.tick }

-- The provider is closed and the failure recorded.
unfoldable pub drop_provider : State → State
drop_provider s = record s { connected = false; reconnect = (record_failure s.reconnect).1 }

-- `_connect_provider`, on fuel: the loop until a handshake succeeds or the signal comes.
module _ (w : World) where
  unfoldable pub connect_provider : ℕ → State → State
  unfolding next_tick drop_provider
  connect_provider zero s = s
  connect_provider (suc fuel) s =
      let retry = connect_provider fuel (drop_provider (next_tick s)) in
      if w.shutdown s.tick
      then s
      else if w.connects s.tick
      then record (next_tick s) { connected = true }
      else retry

-- What follows the attempt of a block: whether the loop goes on.
unfoldable pub after_block : ℤ → Outcome → State → Bool × State
unfolding drop_provider
after_block b (stored artifacts count) s = (true, record s { last_processed_block = some b })
after_block b unavailable s = (true, record s { last_processed_block = some b })
after_block b failed s = (false, record (drop_provider s) { last_processed_block = some b })

module _ (setup : Setup) (w : World) where
  -- No block has a negative number.
  unfoldable pub store_at : ℤ → State → Outcome × Db
  store_at (pos n) s = store_block_extrinsics setup (w.ingest s.tick) n s.db
  store_at (negsuc n) s = (failed, s.db)

  unfoldable pub attempt_block : ℤ → State → Bool × State
  unfolding store_at after_block next_tick
  attempt_block b s =
      let (outcome, db) = store_at b s in
      after_block b outcome (record (next_tick s) { db = db; attempted = b ∷ s.attempted })

  -- The `for` loop over `n` blocks from `b` on.
  unfoldable pub process_blocks : ℕ → ℤ → State → State
  unfolding attempt_block
  process_blocks zero b s = s
  process_blocks (suc n) b s =
      let (goes_on, s') = attempt_block b s in
      let rest = process_blocks n (b +ℤ pos 1) s' in
      if w.shutdown s.tick then s else if goes_on then rest else s'

  -- A turn once the head is known.
  unfoldable pub process_to_head : ℤ → State → State
  unfolding process_blocks
  process_to_head head s =
      let last : ℤ = (elim s.last_processed_block [ none ↦ head -ℤ pos 1 | some b ↦ b ]) in
      let started = record s { last_processed_block = some last } in
      if leb_ℤ head last
      then started
      else process_blocks (pos_part (head -ℤ last)) (last +ℤ pos 1) started

  -- A turn of the `while` loop with a provider.
  unfoldable pub turn : State → State
  unfolding process_to_head next_tick drop_provider
  turn s = elim (w.current_block s.tick) [
    | raised ↦ drop_provider (next_tick s)
    | ok head ↦
        process_to_head head (record (next_tick s) { reconnect = record_recovery s.reconnect })
  ]

  unfoldable pub run : (fuel turns : ℕ) → State → State
  unfolding turn connect_provider
  run fuel zero s = s
  run fuel (suc turns) s =
      let ready = (if s.connected then s else connect_provider w fuel s) in
      let rest = run fuel turns (turn ready) in
      if w.shutdown s.tick then s else if ready.connected then rest else ready
