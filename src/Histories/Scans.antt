-- ===== src/Histories/Scans.antt =====
-- `ScanObservation`, `ScanHistory` and `record` of scan_history.py.
pub mod Replay
use Prim.Native.Nat.{ℕ, ◌+◌, ◌-◌}
use docker_ls.Prelude.{
  List, [], ◌∷◌, ◌++◌, Bool, true, false, ◌&&◌, ◌||◌, Option, none, some, ◌==◌, if◌then◌else◌,
  is_empty, length,
}
use docker_ls.Prelude.Text.{Text, text_eq, strip}
use docker_ls.Histories.Bounded.{last_of, push}

pub record ScanObservation : Type 0 where
  pub digest : Text
  pub observed_at : Text
  pub critical : ℕ
  pub high : ℕ
  pub medium : ℕ
  pub low : ℕ
  pub total : ℕ

-- `counts`, in the order of `_FIELDS`
abbrev pub counts : ScanObservation → List ℕ
counts o = o.critical ∷ o.high ∷ o.medium ∷ o.low ∷ o.total ∷ []

abbrev pub same_counts : List ℕ → List ℕ → Bool
same_counts [] [] = true
same_counts [] (n ∷ ns) = false
same_counts (m ∷ ms) [] = false
same_counts (m ∷ ms) (n ∷ ns) = m == n && same_counts ms ns

pub record ScanHistory : Type 0 where
  pub reference : Text
  pub observations : List ScanObservation
  pub dropped : ℕ

abbrev pub new_scan_history : Text → ScanHistory
new_scan_history r = record { reference = r; observations = []; dropped = 0 }

-- `scans`
unfoldable pub scans : ScanHistory → ℕ
scans h = length h.observations + h.dropped

-- `latest`
unfoldable pub latest : ScanHistory → Option ScanObservation
latest h = last_of h.observations

abbrev pub same_scan : ScanObservation → ScanObservation → Bool
same_scan last o = text_eq last.digest o.digest && same_counts (counts last) (counts o)

abbrev pub repeats_scan : Option ScanObservation → ScanObservation → Bool
repeats_scan none o = false
repeats_scan (some last) o = same_scan last o

abbrev with_scan : ScanHistory → List ScanObservation × ℕ → ScanHistory
with_scan h (entries, dropped) = record {
  reference = h.reference;
  observations = entries;
  dropped = dropped;
}

-- `record`
unfoldable pub record_scan : ScanHistory → ScanObservation → ScanHistory
record_scan h o =
    if is_empty (strip o.digest)
    then h
    else if repeats_scan (last_of h.observations) o
    then h
    else with_scan h (push h.observations h.dropped o)

unfoldable pub record_scans : ScanHistory → List ScanObservation → ScanHistory
record_scans h [] = h
record_scans h (o ∷ os) = record_scans (record_scan h o) os
