-- ===== src/SingleFlight/Steps/Sharing.antt =====
-- What callers that share a table of flights get.
use Prim.Native.Nat.{ℕ, ◌<◌}
use docker_ls.Prelude.{◌≡◌, ◌⊎◌, refl, inl, inr, true, false, arith, Bool-cases}
use docker_ls.SingleFlight.Flights.{SingleFlight, run, leave}
use docker_ls.SingleFlight.Steps.{Reach}
use docker_ls.SingleFlight.Steps.Invariant.{Inv-Reach}

-- In every state that is reached from an empty table, two flights whose tasks both still run and
-- that have the same key are one flight: no key has two computations at a time.
pub one_computation :
    {s : SingleFlight}
    → Reach s
    → (f g : ℕ) → f < s.made
    → g < s.made
    → (s.flight f).done ≡ false
    → (s.flight g).done ≡ false
    → (s.flight f).key ≡ (s.flight g).key
    → f ≡ g
one_computation {s} r f g h k d e q =
    ground (arith, known f h (pending f h d), known g k (pending g k e), q)
  where
    open (Inv-Reach r) use {known, pending}

-- In every state that is reached from an empty table, a flight whose task still runs has a caller
-- that waits for it, or its task has been asked to stop.
pub wanted_or_cancelled :
    {s : SingleFlight}
    → Reach s
    → (f : ℕ) → f < s.made
    → (s.flight f).done ≡ false
    → (0 < (s.flight f).waiters) ⊎ ((s.flight f).cancelled ≡ true)
wanted_or_cancelled {s} r f h d = elim (Bool-cases (s.flight f).cancelled) [
  | inl e ↦ inr e
  | inr e ↦ inl (wanted f h d e)
]
  where
    open (Inv-Reach r) use {wanted}

-- In every state that is reached from an empty table, when the only caller of a flight leaves
-- before its task ends, a caller that comes next with the same key joins that flight as a shared
-- one, and the task that it then waits for has been asked to stop.
pub late_joiner :
    {s : SingleFlight}
    → Reach s
    → (f : ℕ) → f < s.made
    → (s.flight f).done ≡ false
    → (s.flight f).waiters ≡ 1
    → ((run (s.flight f).key (leave f s)).1 ≡ f)
      × ((run (s.flight f).key (leave f s)).2 ≡ true)
      × (((run (s.flight f).key (leave f s)).0.flight f).waiters ≡ 1)
      × (((run (s.flight f).key (leave f s)).0.flight f).cancelled ≡ true)
unfolding run leave
late_joiner {s} r f h d w =
    rw (known f h (pending f h d), run) (refl, refl, ground (arith, w), ground (arith, w, d))
  where
    open (Inv-Reach r) use {known, pending}
