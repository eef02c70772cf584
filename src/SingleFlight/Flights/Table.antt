-- ===== src/SingleFlight/Flights/Table.antt =====
-- The table of flights, as a map.
use docker_ls.Prelude.{◌≡◌, refl, [], ◌∷◌, true, none, arith, if◌then◌else◌}
use docker_ls.Prelude.Text.{Text, text_eq, text_eq_iff}
use docker_ls.SingleFlight.Flights.{Flights, get, del}

pub text_eq_self : (t : Text) → text_eq t t ≡ true
text_eq_self t = (text_eq_iff t t).1 refl

pub get-del :
    (key k : Text) (flights : Flights)
    → get k (del key flights) ≡ (if text_eq key k then none else get k flights)
unfolding get del
get-del key k [] = ground arith
get-del key k ((l, f) ∷ flights) =
    ground (arith, get-del key k flights, text_eq_iff l key, text_eq_iff l k, text_eq_iff key k)
