-- ===== src/Backoff.antt =====
-- app/src/project/core/services/bittensor_connection.py. Delays are whole numbers of a unit of time; the
-- logger is the level at which a failure is logged. `wait` only sleeps.
pub mod Outage
use sentinel_tower.Prelude.{
  ℕ, zero, suc, ◌+◌, ◌*◌, Bool, Option, none, some, leb, ◌==◌, if◌then◌else◌,
}
use sentinel_tower.Prelude.Int.{ℤ, pos, negsuc}

pub record Backoff : Type 0 where
  pub initial_delay : ℕ
  pub max_delay : ℕ
  pub alert_after : ℕ
  pub attempt : ℕ
  pub delay : ℕ

-- The state after the checks of `__init__`; `none` is `ValueError`.
unfoldable pub create : ℤ → ℤ → ℤ → Option Backoff
create (pos initial) (pos max) (pos (suc n)) =
    if leb initial max
    then some (record {
      initial_delay = initial;
      max_delay = max;
      alert_after = suc n;
      attempt = 0;
      delay = initial;
    })
    else none
create _ _ _ = none

pub data Level : Type 0 where
  warning : Level
  error : Level

abbrev pub min : ℕ → ℕ → ℕ
min a b = if leb a b then a else b

-- Returns the level of the log and the delay to wait.
unfoldable pub record_failure : Backoff → (Level × ℕ) × Backoff
record_failure b =
    let attempt = suc b.attempt in
    (
      (if attempt == b.alert_after then error else warning, b.delay),
      record b { attempt = attempt; delay = min (b.delay * 2) b.max_delay },
    )

unfoldable pub record_recovery : Backoff → Backoff
record_recovery b = record b { attempt = 0; delay = b.initial_delay }
