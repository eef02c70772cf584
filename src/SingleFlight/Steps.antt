-- ===== src/SingleFlight/Steps.antt =====
-- The steps of a table of flights, and the states that they reach.
pub mod Invariant
pub mod Sharing
use Prim.Native.Nat.{ℕ, ◌<◌}
use docker_ls.Prelude.{◌≡◌, true, false}
use docker_ls.Prelude.Text.{Text}
use docker_ls.SingleFlight.Flights.{SingleFlight, new_single_flight, run, leave, finish, on_done}

-- One step: a caller comes, a task ends, the callback of an ended task runs, or a caller leaves,
-- with the result or because it is cancelled itself.
pub data Step : SingleFlight → SingleFlight → Type 0 where
  comes : {s : SingleFlight} (key : Text) → Step s (run key s).0
  ends : {s : SingleFlight} (f : ℕ) → f < s.made → (s.flight f).done ≡ false → Step s (finish f s)
  calls_back :
      {s : SingleFlight} (f : ℕ)
      → f < s.made
      → (s.flight f).done ≡ true
      → (s.flight f).callback ≡ true
      → Step s (on_done f s)
  leaves : {s : SingleFlight} (f : ℕ) → f < s.made → 0 < (s.flight f).waiters → Step s (leave f s)

pub data Reach : SingleFlight → Type 0 where
  start : Reach new_single_flight
  later : {s t : SingleFlight} → Reach s → Step s t → Reach t
