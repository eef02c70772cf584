-- ===== src/Examples/Resilience.antt =====
-- A limiter of two operations in ten ticks, and a breaker that three failures open.
use docker_ls.Prelude.{
  ◌+◌, ◌-◌, ◌*◌, ◌≤◌, ◌<◌, ◌≡◌, ◌↔◌, refl, List, [], ◌∷◌, true, false, none, arith,
}
use docker_ls.Resilience.Limiter.{
  Limiter, Fraction, granted, attempt, attempts, refill, wait_of, sleep,
}
use docker_ls.Resilience.Limiter.Laws.{
  IsValid, attempts_bounded, attempt_after_wait, attempts_burst_zero,
}
use docker_ls.Resilience.Breaker.{new_breaker, is_open, check, Event, success, failure, after}
use docker_ls.Resilience.Breaker.Laws.{streak, last_failure, is_open_iff}
use docker_ls.Prelude.{if◌then◌else◌, count, any}
use docker_ls.Evidence.Scan.{ScanStatus, ScanErrorKind}
use docker_ls.Resilience.Fallback.{new_fallback_scanner, Answers, after_scans}
use docker_ls.Resilience.Fallback.Laws.{faulty, asks_secondary, recovers, after_scans_lem}
use docker_ls.Examples.Data.{scan_of, zlib}

abbrev two_in_ten : Limiter
two_in_ten = record { rate = 2; period = 10; capacity = 2; parts = 20; updated = 0 }

abbrev limiter_IsValid : IsValid two_in_ten
limiter_IsValid = record { rated = omega arith; paced = omega arith; filled = omega arith }

attempts_bounded_example : (attempts (0 ∷ 1 ∷ 2 ∷ 9 ∷ []) two_in_ten).0 * 10 ≤ 2 * 10 + (10 - 0) * 2
attempts_bounded_example =
    attempts_bounded 0 (1 ∷ 2 ∷ 9 ∷ []) 10 two_in_ten
      (omega arith, (omega arith, (omega arith, omega arith)))

-- The limiter with four parts of a token left
abbrev drained : Limiter
drained = record two_in_ten { parts = 4 }

abbrev drained_IsValid : IsValid drained
drained_IsValid = record { rated = omega arith; paced = omega arith; filled = omega arith }

-- Four of ten parts are missing after one tick, at two parts a tick.
abbrev two_ticks : Fraction
two_ticks = record { over = 40; under = 20 }

attempt_after_wait_example :
    (((attempt 3 (attempt 1 drained).1).0 ≡ granted) ↔ (40 ≤ (3 - 1) * 20))
    × ((jitter : Fraction)
        → 1 ≤ jitter.under
        → (sleep jitter two_ticks).over ≤ (3 - 1) * (sleep jitter two_ticks).under
        → (attempt 3 (attempt 1 drained).1).0 ≡ granted)
unfolding attempt refill wait_of
attempt_after_wait_example =
    attempt_after_wait 1 3 two_ticks drained drained_IsValid (omega arith) (omega arith) refl

abbrev no_burst : Limiter
no_burst = record { rate = 2; period = 10; capacity = 0; parts = 0; updated = 0 }

attempts_burst_zero_example : (attempts (5 ∷ 100 ∷ 1000 ∷ []) no_burst).0 ≡ 0
attempts_burst_zero_example =
    attempts_burst_zero (5 ∷ 100 ∷ 1000 ∷ []) no_burst
      (record { rated = omega arith; paced = omega arith; filled = omega arith }) refl

abbrev calls : List Event
calls = failure 30 ∷ failure 20 ∷ failure 10 ∷ success ∷ failure 5 ∷ []

is_open_iff_example :
    let state = after calls (new_breaker 3 60) in
    ((is_open 40 state ≡ true) ↔ ((3 ≤ streak calls) × (40 - last_failure calls < 60)))
    × ((check 40 state ≡ none) ↔ (is_open 40 state ≡ false))
is_open_iff_example = is_open_iff 3 60 (omega arith) calls 40

-- A scan that the primary fails by its database, and that the secondary answers
abbrev broken_primary : Answers
broken_primary = record {
  primary = record (scan_of []) {
    status = ScanStatus.error;
    error_kind = ScanErrorKind.db_init_failed;
  };
  secondary_available = true;
  secondary = scan_of (zlib ∷ []);
}

after_scans_lem_example :
    let s = after_scans (broken_primary ∷ broken_primary ∷ []) new_fallback_scanner in
    (s.fallback_attempts ≡ count faulty (broken_primary ∷ broken_primary ∷ []))
    × (s.fallback_successes ≡ count recovers (broken_primary ∷ broken_primary ∷ []))
    × (s.refreshes ≡ (if any asks_secondary (broken_primary ∷ broken_primary ∷ []) then 1 else 0))
after_scans_lem_example = after_scans_lem (broken_primary ∷ broken_primary ∷ [])
