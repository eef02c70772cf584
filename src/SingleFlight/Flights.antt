-- ===== src/SingleFlight/Flights.antt =====
-- `_Flight` and the table of `SingleFlight`: what each stretch between two awaits does to them.
pub mod Table
use Prim.Native.Nat.{ℕ, suc, ◌+◌, ◌-◌}
use docker_ls.Prelude.{
  List, [], ◌∷◌, ◌++◌, Bool, true, false, ◌&&◌, Option, none, some, ◌==◌, not, if◌then◌else◌,
}
use docker_ls.Prelude.Text.{Text, text_eq}

-- `_Flight` with the state of its task: `done` is `task.done()`, `cancelled` says that
-- `task.cancel()` was called, `callback` that the task's done callback is still to run, and `key` is
-- the key that the callback was made with.
pub record Flight : Type 0 where
  pub key : Text
  pub waiters : ℕ
  pub done : Bool
  pub cancelled : Bool
  pub callback : Bool

-- `_flights`, as the number of the flight of each key; flights are numbered as they are made.
abbrev pub Flights : Type 0
Flights = List (Text × ℕ)

pub record SingleFlight : Type 0 where
  pub flights : Flights
  pub made : ℕ
  pub flight : ℕ → Flight

-- `self._flights.get(key)`
unfoldable pub get : Text → Flights → Option ℕ
get key [] = none
get key ((k, f) ∷ flights) = if text_eq k key then some f else get key flights

-- `del self._flights[key]`
unfoldable pub del : Text → Flights → Flights
del key [] = []
del key ((k, f) ∷ flights) =
    let rest = del key flights in if text_eq k key then rest else (k, f) ∷ rest

abbrev pub set_flight : ℕ → Flight → (ℕ → Flight) → ℕ → Flight
set_flight f x flight g = if g == f then x else flight g

abbrev pub new_single_flight : SingleFlight
new_single_flight = record {
  flights = [];
  made = 0;
  flight = λ f. record { key = []; waiters = 0; done = true; cancelled = false; callback = false };
}

-- `flight.waiters += 1`
abbrev pub joined : Flight → Flight
joined x = record {
  key = x.key;
  waiters = x.waiters + 1;
  done = x.done;
  cancelled = x.cancelled;
  callback = x.callback;
}

abbrev pub taken_off : Text → Flight
taken_off key = record { key = key; waiters = 1; done = false; cancelled = false; callback = true }

-- `run`, up to its `await`: the table after it, the flight that is awaited, and `shared`
unfoldable pub run : Text → SingleFlight → SingleFlight × ℕ × Bool
run key s = elim (get key s.flights) [
  | some f ↦ (
    record {
      flights = s.flights;
      made = s.made;
      flight = set_flight f (joined (s.flight f)) s.flight;
    },
    f,
    true,
  )
  | none ↦ (
    record {
      flights = (key, s.made) ∷ s.flights;
      made = suc s.made;
      flight = set_flight s.made (taken_off key) s.flight;
    },
    s.made,
    false,
  )
]

-- `flight.waiters -= 1`, and the cancellation of a task that nobody waits for
abbrev pub left : Flight → Flight
left x = record {
  key = x.key;
  waiters = x.waiters - 1;
  done = x.done;
  cancelled = if x.waiters - 1 == 0 && not x.done then true else x.cancelled;
  callback = x.callback;
}

-- `run`, from its `finally` on
unfoldable pub leave : ℕ → SingleFlight → SingleFlight
leave f s = record {
  flights = s.flights;
  made = s.made;
  flight = set_flight f (left (s.flight f)) s.flight;
}

abbrev pub ended : Flight → Flight
ended x = record {
  key = x.key;
  waiters = x.waiters;
  done = true;
  cancelled = x.cancelled;
  callback = x.callback;
}

-- The task of a flight ends, with a result, an exception or as cancelled.
unfoldable pub finish : ℕ → SingleFlight → SingleFlight
finish f s = record {
  flights = s.flights;
  made = s.made;
  flight = set_flight f (ended (s.flight f)) s.flight;
}

abbrev pub called_back : Flight → Flight
called_back x = record {
  key = x.key;
  waiters = x.waiters;
  done = x.done;
  cancelled = x.cancelled;
  callback = false;
}

-- `self._flights.get(key) is flight`
abbrev pub is_flight : ℕ → Option ℕ → Bool
is_flight f none = false
is_flight f (some g) = g == f

-- `_forget`
unfoldable pub forget : Text → ℕ → Flights → Flights
forget key f flights = if is_flight f (get key flights) then del key flights else flights

-- `_on_done`
unfoldable pub on_done : ℕ → SingleFlight → SingleFlight
on_done f s = record {
  flights = forget (s.flight f).key f s.flights;
  made = s.made;
  flight = set_flight f (called_back (s.flight f)) s.flight;
}
