-- ===== src/Histories/Tags.antt =====
-- `TagObservation`, `TagHistory` and `record` of tag_history.py. A time is the text that
-- `observed_at.isoformat(timespec="seconds")` gives.
pub mod Replay
use Prim.Native.Nat.{ℕ, ◌+◌, ◌-◌}
use docker_ls.Prelude.{
  List, [], ◌∷◌, ◌++◌, Bool, false, ◌||◌, Option, none, some, ◌==◌, if◌then◌else◌, is_empty, length,
}
use docker_ls.Prelude.Text.{Text, text_eq, strip}
use docker_ls.Histories.Bounded.{last_of, push}

pub record TagObservation : Type 0 where
  pub digest : Text
  pub observed_at : Text

pub record TagHistory : Type 0 where
  pub reference : Text
  pub observations : List TagObservation
  pub dropped : ℕ

abbrev pub new_tag_history : Text → TagHistory
new_tag_history r = record { reference = r; observations = []; dropped = 0 }

-- `moves`
unfoldable pub moves : TagHistory → ℕ
moves h = (length h.observations - 1) + h.dropped

abbrev digest_or_empty : Option TagObservation → Text
digest_or_empty none = []
digest_or_empty (some o) = o.digest

abbrev time_or_empty : Option TagObservation → Text
time_or_empty none = []
time_or_empty (some o) = o.observed_at

-- `current_digest`
unfoldable pub current_digest : TagHistory → Text
current_digest h = digest_or_empty (last_of h.observations)

abbrev first_time : List TagObservation → Text
first_time [] = []
first_time (o ∷ os) = o.observed_at

-- `first_seen`
unfoldable pub first_seen : TagHistory → Text
first_seen h = first_time h.observations

-- `last_moved_at`
unfoldable pub last_moved_at : TagHistory → Text
unfolding moves
last_moved_at h = if moves h == 0 then [] else time_or_empty (last_of h.observations)

-- `history.observations and history.observations[-1].digest == digest`
abbrev pub repeats_digest : Option TagObservation → Text → Bool
repeats_digest none digest = false
repeats_digest (some o) digest = text_eq o.digest digest

abbrev with_pushed : TagHistory → List TagObservation × ℕ → TagHistory
with_pushed h (entries, dropped) = record {
  reference = h.reference;
  observations = entries;
  dropped = dropped;
}

-- `record`
unfoldable pub record_digest : TagHistory → Text → Text → TagHistory
record_digest h digest observed_at =
    let stripped = strip digest in
    if is_empty stripped || repeats_digest (last_of h.observations) stripped
    then h
    else with_pushed h
        (push h.observations h.dropped (record { digest = stripped; observed_at = observed_at }))

unfoldable pub record_all : TagHistory → List (Text × Text) → TagHistory
record_all h [] = h
record_all h ((digest, observed_at) ∷ answers) =
    record_all (record_digest h digest observed_at) answers
