-- ===== src/SingleFlight.antt =====
-- Work that callers share while it runs: dockerls/utils/single_flight.py. The event loop runs one
-- coroutine at a time, from one `await` to the next, so that each such stretch is one step.
pub mod Flights
pub mod Steps
