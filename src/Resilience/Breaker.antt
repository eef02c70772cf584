-- ===== src/Resilience/Breaker.antt =====
-- `CircuitBreaker` of dockerls/utils/rate_limit.py. Times are ticks of the monotonic clock.
pub mod Laws
use docker_ls.Prelude.{ℕ, ◌+◌, ◌-◌, List, [], ◌∷◌, Bool, false, Option, none, some, leb, ltb}
use docker_ls.Prelude.{if◌then◌else◌}

pub record CircuitBreaker : Type 0 where
  pub threshold : ℕ
  pub cooldown : ℕ
  pub failures : ℕ
  pub opened_at : ℕ

unfoldable pub new_breaker : ℕ → ℕ → CircuitBreaker
new_breaker threshold cooldown = record {
  threshold = threshold;
  cooldown = cooldown;
  failures = 0;
  opened_at = 0;
}

-- `is_open`
unfoldable pub is_open : ℕ → CircuitBreaker → Bool
is_open now b = if ltb b.failures b.threshold then false else ltb (now - b.opened_at) b.cooldown

-- `check`: `some` is `CircuitOpenError`, with the failures and the ticks left that its message names.
unfoldable pub check : ℕ → CircuitBreaker → Option (ℕ × ℕ)
unfolding is_open
check now b = if is_open now b then some (b.failures, b.cooldown - (now - b.opened_at)) else none

-- `record_success`
unfoldable pub record_success : CircuitBreaker → CircuitBreaker
record_success b = record b { failures = 0; opened_at = 0 }

-- `record_failure`
unfoldable pub record_failure : ℕ → CircuitBreaker → CircuitBreaker
record_failure now b =
    let failures = b.failures + 1 in
    record b {
      failures = failures;
      opened_at = if leb b.threshold failures then now else b.opened_at;
    }

-- What is recorded of a call.
pub data Event : Type 0 where
  success : Event
  failure : ℕ → Event

unfoldable pub record_event : Event → CircuitBreaker → CircuitBreaker
unfolding record_success record_failure
record_event success b = record_success b
record_event (failure now) b = record_failure now b

-- The breaker after a history, the latest event first.
unfoldable pub after : List Event → CircuitBreaker → CircuitBreaker
after [] b = b
after (e ∷ past) b = record_event e (after past b)
