-- ===== src/Examples/Histories.antt =====
-- A tag that moves and moves back, and an image whose count of findings falls.
use docker_ls.Prelude.{ℕ, ◌-◌, ◌≤◌, ◌≡◌, List, [], ◌∷◌, length}
use docker_ls.Prelude.Text.{Text, codes}
use docker_ls.Histories.Bounded.{max_observations}
use docker_ls.Histories.Bounded.Laws.{bounded, overflow}
use docker_ls.Histories.Tags.{new_tag_history, moves, record_all}
use docker_ls.Histories.Tags.Replay.{seen, record_all_lem}
use docker_ls.Histories.Scans.{ScanObservation}

abbrev answers : List (Text × Text)
answers =
    (codes "sha256:aa", codes "2026-01-01")
    ∷ (codes "", codes "2026-01-02")
    ∷ (codes "sha256:aa", codes "2026-01-03")
    ∷ (codes "sha256:bb", codes "2026-01-04")
    ∷ (codes "sha256:aa", codes "2026-01-05")
    ∷ []

record_all_lem_example :
    let h = record_all (new_tag_history (codes "python:3.13")) answers in
    (h.observations ≡ bounded (seen answers))
    × (h.dropped ≡ overflow (seen answers))
    × (moves h ≡ length (seen answers) - 1)
    × (length h.observations ≤ max_observations)
record_all_lem_example = record_all_lem (codes "python:3.13") answers

abbrev scan_on : Text → ℕ → ScanObservation
scan_on day n = record {
  digest = codes "sha256:aa";
  observed_at = day;
  critical = 0;
  high = n;
  medium = 0;
  low = 0;
  total = n;
}

abbrev two_scans : List ScanObservation
two_scans = scan_on (codes "2026-01-01") 2 ∷ scan_on (codes "2026-01-02") 1 ∷ []
