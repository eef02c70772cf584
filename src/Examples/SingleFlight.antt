-- ===== src/Examples/SingleFlight.antt =====
-- Two callers of one key, the first of which leaves before the work is done.
use docker_ls.Prelude.{ℕ, ◌<◌, ◌≡◌, ◌⊎◌, refl, true, arith}
use docker_ls.Prelude.Text.{codes, text_eq}
use docker_ls.SingleFlight.Flights.{SingleFlight, new_single_flight, run, leave, get}
use docker_ls.SingleFlight.Steps.{Reach, start, later, comes, leaves}
use docker_ls.SingleFlight.Steps.Sharing.{one_computation, wanted_or_cancelled, late_joiner}

abbrev taken : SingleFlight
taken = (run (codes "sha256:aa") new_single_flight).0

abbrev taken_Reach : Reach taken
taken_Reach = later start (comes (codes "sha256:aa"))

abbrev twice : SingleFlight
twice = (run (codes "sha256:aa") taken).0

one_computation_example : ◌≡◌ {A = ℕ} 0 0
unfolding run get text_eq
one_computation_example =
    one_computation (later taken_Reach (comes (codes "sha256:aa"))) 0 0 (omega arith) (omega arith)
      refl refl refl

wanted_or_cancelled_example :
    (0 < ((leave 0 taken).flight 0).waiters) ⊎ (((leave 0 taken).flight 0).cancelled ≡ true)
unfolding run leave get
wanted_or_cancelled_example =
    wanted_or_cancelled (later taken_Reach (leaves 0 (omega arith) (omega arith))) 0 (omega arith)
      refl

late_joiner_example :
    let joined = run (codes "sha256:aa") (leave 0 taken) in
    (joined.1 ≡ 0)
    × (joined.2 ≡ true)
    × ((joined.0.flight 0).waiters ≡ 1)
    × ((joined.0.flight 0).cancelled ≡ true)
unfolding run get text_eq
late_joiner_example = late_joiner taken_Reach 0 (omega arith) refl refl
