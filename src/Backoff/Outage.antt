-- ===== src/Backoff/Outage.antt =====
-- The delays and the alert of one outage.
use sentinel_tower.Prelude.{
  ℕ, zero, suc, ◌*◌, ◌≤◌, ◌≡◌, refl, subst, Bool-cases, inl, inr, Option, none, some, leb, ◌==◌,
  if◌then◌else◌, arith,
}
use sentinel_tower.Prelude.Int.{pos}
use sentinel_tower.Backoff.{Backoff, create, warning, error, min, record_failure, record_recovery}

-- The state after a number of failures in a row.
unfoldable pub after_failures : ℕ → Backoff → Backoff
after_failures zero b = b
after_failures (suc n) b = (record_failure (after_failures n b)).1

-- `d` doubled `n` times.
unfoldable pub doubled : ℕ → ℕ → ℕ
doubled zero d = d
doubled (suc n) d = doubled n d * 2

-- A state that holds no outage and whose delays are in order.
pub record IsFresh (b : Backoff) : Type 0 where
  pub no_attempt : b.attempt ≡ 0
  pub first_delay : b.delay ≡ b.initial_delay
  pub ordered : b.initial_delay ≤ b.max_delay

record Inv (b : Backoff) (n : ℕ) (c : Backoff) : Type 0 where
  attempts : c.attempt ≡ n
  delays : c.delay ≡ min (doubled n b.initial_delay) b.max_delay
  same_initial : c.initial_delay ≡ b.initial_delay
  same_max : c.max_delay ≡ b.max_delay
  same_alert : c.alert_after ≡ b.alert_after

after_failures-Inv : (n : ℕ) (b : Backoff) → IsFresh b → Inv b n (after_failures n b)
unfolding after_failures doubled record_failure
after_failures-Inv zero b f = record {
  attempts = f.no_attempt;
  delays = ground (arith, f.first_delay, f.ordered);
  same_initial = refl;
  same_max = refl;
  same_alert = refl;
}
after_failures-Inv (suc n) b f =
    let v = after_failures-Inv n b f in
    record {
      attempts = omega (arith, v.attempts);
      delays = ground (arith, v.delays, v.same_max);
      same_initial = v.same_initial;
      same_max = v.same_max;
      same_alert = v.same_alert;
    }

-- In an outage that starts fresh, the failure that follows `n` others waits the initial delay doubled
-- `n` times, but no longer than the maximum, and it is logged as an error exactly if it is the one whose
-- number is the alert threshold.
pub record_failure-exact :
    (n : ℕ) (b : Backoff)
    → IsFresh b
    → (record_failure (after_failures n b)).0 ≡ (
      (if suc n == b.alert_after then error else warning),
      min (doubled n b.initial_delay) b.max_delay,
    )
unfolding record_failure
record_failure-exact n b f =
    let v = after_failures-Inv n b f in rw (v.attempts, v.same_alert, v.delays) refl

-- A recovery after any number of failures ends the outage: no attempt is counted, and the delay is
-- the initial one.
pub record_recovery-IsFresh :
    (n : ℕ) (b : Backoff) → IsFresh b → IsFresh (record_recovery (after_failures n b))
unfolding record_recovery
record_recovery-IsFresh n b f =
    let v = after_failures-Inv n b f in
    record {
      no_attempt = refl;
      first_delay = refl;
      ordered = omega (arith, v.same_initial, v.same_max, f.ordered);
    }

-- A state that passes the checks is fresh.
pub create-IsFresh :
    (initial max n : ℕ) (b : Backoff)
    → create (pos initial) (pos max) (pos (suc n)) ≡ some b
    → IsFresh b
unfolding create
create-IsFresh initial max n b e = elim (Bool-cases (leb initial max)) [
  | inl l ↦
      subst IsFresh (same (rw l at e))
        (record { no_attempt = refl; first_delay = refl; ordered = ground arith })
  | inr l ↦ elim (clash (rw l at e)) [ ]
]
  where
    same : {c : Backoff} → ◌≡◌ {A = Option Backoff} (some c) (some b) → c ≡ b
    same p = cc

    clash : ◌≡◌ {A = Option Backoff} none (some b) → ⊥
    clash p = cc
