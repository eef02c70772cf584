-- ===== src/SingleFlight/Steps/Invariant.antt =====
-- What holds of the table of flights in every reachable state.
use Prim.Native.Nat.{ℕ, suc, ◌<◌}
use docker_ls.Prelude.{
  ◌≡◌, refl, inl, inr, ◌∷◌, true, false, none, some, arith, ==_iff, if◌then◌else◌, Option-cases,
}
use docker_ls.Prelude.Text.{Text, text_eq, text_eq_iff}
use docker_ls.SingleFlight.Flights.{
  SingleFlight, get, set_flight, new_single_flight, run, joined, taken_off, leave, finish, forget,
  on_done,
}
use docker_ls.SingleFlight.Flights.Table.{text_eq_self, get-del}
use docker_ls.SingleFlight.Steps.{Step, comes, ends, calls_back, leaves, Reach, start, later}

pub record Inv (s : SingleFlight) : Type 0 where
  pub listed :
      (key : Text) (f : ℕ)
      → get key s.flights ≡ some f
      → (f < s.made) × ((s.flight f).key ≡ key) × ((s.flight f).callback ≡ true)
  pub known :
      (f : ℕ) → f < s.made → (s.flight f).callback ≡ true → get (s.flight f).key s.flights ≡ some f
  pub pending : (f : ℕ) → f < s.made → (s.flight f).done ≡ false → (s.flight f).callback ≡ true
  pub wanted :
      (f : ℕ)
      → f < s.made
      → (s.flight f).done ≡ false
      → (s.flight f).cancelled ≡ false
      → 0 < (s.flight f).waiters

Inv-start : Inv new_single_flight
unfolding get
Inv-start = record {
  listed = λ key f e. cc;
  known = λ f h e. absurd (omega arith);
  pending = λ f h e. absurd (omega arith);
  wanted = λ f h e k. omega arith;
}

module _ (s : SingleFlight) (inv : Inv s) where
  Inv-leave : (f : ℕ) → Inv (leave f s)
  unfolding leave
  Inv-leave f = record {
    listed = λ key g e. ground (arith, inv.listed key g);
    known = λ g h e. ground (arith, inv.known g);
    pending = λ g h e. ground (arith, inv.pending g);
    wanted = λ g h e k. ground (arith, inv.wanted g);
  }

  Inv-finish : (f : ℕ) → Inv (finish f s)
  unfolding finish
  Inv-finish f = record {
    listed = λ key g e. ground (arith, inv.listed key g);
    known = λ g h e. ground (arith, inv.known g);
    pending = λ g h e. ground (arith, inv.pending g);
    wanted = λ g h e k. ground (arith, inv.wanted g);
  }

  Inv-joins :
      (key : Text) (f : ℕ)
      → Inv (record {
        flights = s.flights;
        made = s.made;
        flight = set_flight f (joined (s.flight f)) s.flight;
      })
  Inv-joins key f = record {
    listed = λ key g e. ground (arith, inv.listed key g);
    known = λ g h e. ground (arith, inv.known g);
    pending = λ g h e. ground (arith, inv.pending g);
    wanted = λ g h e k. ground (arith, inv.wanted g);
  }

  Inv-takes_off :
      (key : Text)
      → get key s.flights ≡ none
      → Inv (record {
        flights = (key, s.made) ∷ s.flights;
        made = suc s.made;
        flight = set_flight s.made (taken_off key) s.flight;
      })
  unfolding get
  Inv-takes_off key absent = record {
    listed = λ k g e. ground (arith, inv.listed k g, text_eq_iff key k);
    known = λ g h e.
        ground (arith, inv.known g, text_eq_iff key (s.flight g).key, text_eq_self key, absent);
    pending = λ g h e. ground (arith, inv.pending g);
    wanted = λ g h e k. ground (arith, inv.wanted g);
  }

  Inv-run : (key : Text) → Inv (run key s).0
  unfolding run
  Inv-run key = elim (Option-cases (get key s.flights)) [
    | inl e ↦ rw (e, run) (Inv-takes_off key e)
    | inr (f, e) ↦ rw (e, run) (Inv-joins key f)
  ]

  get-forget :
      (f : ℕ) (k : Text)
      → f < s.made
      → (s.flight f).callback ≡ true
      → get k (forget (s.flight f).key f s.flights)
        ≡ (if text_eq (s.flight f).key k then none else get k s.flights)
  unfolding forget
  get-forget f k h c =
      rw (inv.known f h c) (rw ((==_iff f f).1 refl) (get-del (s.flight f).key k s.flights))

  Inv-on_done :
      (f : ℕ)
      → f < s.made
      → (s.flight f).done ≡ true
      → (s.flight f).callback ≡ true
      → Inv (on_done f s)
  unfolding on_done
  Inv-on_done f h d c = record {
    listed = λ k g e.
        ground
          (arith, get-forget f k h c, text_eq_iff (s.flight f).key k, inv.listed k g, e, h, d, c);
    known = λ g l e. ground (
      arith,
      get-forget f (s.flight g).key h c,
      text_eq_iff (s.flight f).key (s.flight g).key,
      inv.known g,
      inv.known f h c,
    );
    pending = λ g l e. ground (arith, inv.pending g);
    wanted = λ g l e k. ground (arith, inv.wanted g);
  }

pub Inv-Step : {s t : SingleFlight} → Step s t → Inv s → Inv t
Inv-Step {s} (comes key) inv = Inv-run s inv key
Inv-Step {s} (ends f h d) inv = Inv-finish s inv f
Inv-Step {s} (calls_back f h d c) inv = Inv-on_done s inv f h d c
Inv-Step {s} (leaves f h w) inv = Inv-leave s inv f

pub Inv-Reach : {s : SingleFlight} → Reach s → Inv s
Inv-Reach start = Inv-start
Inv-Reach (later r st) = Inv-Step st (Inv-Reach r)
