-- ===== src/Resilience/Limiter.antt =====
-- `RateLimiter` of dockerls/utils/rate_limit.py. Times are ticks of the monotonic clock and `period`
-- is a number of ticks. Tokens are counted in parts, `period` parts to a token, so that one tick
-- refills `rate` parts: the formulas of the source without their division. Its lock makes an attempt
-- one step. A wait is a fraction of ticks, by the formulas of the source; the random number of its jitter is
-- an argument.
pub mod Laws
use Prim.Native.Nat.{min}
use docker_ls.Prelude.{ℕ, ◌+◌, ◌*◌, ◌-◌, List, [], ◌∷◌, Option, none, some, leb, ltb, if◌then◌else◌}

pub record Limiter : Type 0 where
  pub rate : ℕ
  pub period : ℕ
  pub capacity : ℕ  -- in tokens
  pub parts : ℕ
  pub updated : ℕ

abbrev pub burst_or : ℕ → Option ℕ → ℕ
burst_or rate none = rate
burst_or rate (some burst) = burst

-- `RateLimiter(rate, period, burst)` at a time; `none` is a `ValueError`.
unfoldable pub new_limiter : ℕ → ℕ → Option ℕ → ℕ → Option Limiter
new_limiter rate period burst now =
    if ltb rate 1
    then none
    else if leb period 0
    then none
    else some (record {
      rate = rate;
      period = period;
      capacity = burst_or rate burst;
      parts = burst_or rate burst * period;
      updated = now;
    })

-- A number of ticks or of tokens: `over` divided by `under`
pub record Fraction : Type 0 where
  pub over : ℕ
  pub under : ℕ

abbrev product_of : Fraction → Fraction → Fraction
product_of a b = record { over = a.over * b.over; under = a.under * b.under }

pub data Attempt : Type 0 where
  granted : Attempt
  -- the wait of the caller, without its jitter
  refused : Fraction → Attempt

-- The refill at the top of the loop of `acquire`
unfoldable pub refill : ℕ → Limiter → Limiter
refill now l = record l {
  parts = min (l.capacity * l.period) (l.parts + (now - l.updated) * l.rate);
  updated = now;
}

-- `deficit`: what is missing to a token, as a part of it
abbrev deficit : Limiter → Fraction
deficit l = record { over = l.period - l.parts; under = l.period }

-- `wait = deficit * (self._period / self._rate)`
unfoldable pub wait_of : Limiter → Fraction
wait_of l = product_of (deficit l) (record { over = l.period; under = l.rate })

-- What `acquire` does while it holds the lock
unfoldable pub attempt : ℕ → Limiter → Attempt × Limiter
unfolding refill wait_of
attempt now l =
    let l' = refill now l in
    if leb l'.period l'.parts
    then (granted, record l' { parts = l'.parts - l'.period })
    else (refused (wait_of l'), l')

-- The sleep before the next attempt, `wait * (1.0 + jitter * JITTER_FRACTION)`, where the fraction is
-- a tenth
unfoldable pub sleep : Fraction → Fraction → Fraction
sleep jitter wait =
    product_of wait (record { over = 10 * jitter.under + jitter.over; under = 10 * jitter.under })

abbrev pub grants : Attempt → ℕ
grants granted = 1
grants (refused _) = 0

-- Attempts of any callers at the given times: how many were granted, and the state after them.
unfoldable pub attempts : List ℕ → Limiter → ℕ × Limiter
attempts [] l = (0, l)
attempts (now ∷ later) l =
    let (answer, l') = attempt now l in
    let (more, l'') = attempts later l' in (grants answer + more, l'')
