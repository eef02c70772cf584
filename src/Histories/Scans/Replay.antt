-- ===== src/Histories/Scans/Replay.antt =====
-- What a scan history says after any sequence of scans.
use Prim.Native.Nat.{ℕ, ◌≤◌}
use docker_ls.Prelude.{
  ◌≡◌, refl, ap, ◌∙◌, inl, inr, List, [], ◌∷◌, true, false, is_empty, not, filter, length,
  Bool-cases, Option-cases,
}
use docker_ls.Prelude.Text.{Text, strip}
use docker_ls.Histories.Bounded.{max_observations, last_of}
use docker_ls.Histories.Bounded.Laws.{bounded, overflow, length-bounded, length-bounded-le}
use docker_ls.Histories.Bounded.Replay.{changes, observe, observe_all, observe_all_lem}
use docker_ls.Histories.Scans.{
  ScanObservation, ScanHistory, new_scan_history, scans, same_scan, record_scan, record_scans,
}

-- The scans of a digest, without those that repeat the one before them
unfoldable pub scanned : List ScanObservation → List ScanObservation
scanned os = filter (λ o. not (is_empty (strip o.digest))) os

unfoldable pub changed : List ScanObservation → List ScanObservation
unfolding scanned changes
changed os = changes same_scan (scanned os)

history_of : Text → List ScanObservation × ℕ → ScanHistory
history_of r (os, n) = record { reference = r; observations = os; dropped = n }

record_scan-blank :
    (h : ScanHistory) (o : ScanObservation) → is_empty (strip o.digest) ≡ true → record_scan h o ≡ h
unfolding record_scan
record_scan-blank h o e = rw e refl

record_scan-observe :
    (r : Text) (os : List ScanObservation) (n : ℕ) (o : ScanObservation)
    → is_empty (strip o.digest) ≡ false
    → record_scan (history_of r (os, n)) o ≡ history_of r (observe same_scan (os, n) o)
unfolding record_scan observe history_of
record_scan-observe r os n o e = rw e (elim (Option-cases (last_of os)) [
  | inl l ↦ rw l refl
  | inr (p, l) ↦ rw l (elim (Bool-cases (same_scan p o)) [ inl f ↦ rw f refl | inr f ↦ rw f refl ])
])

record_scans-observe :
    (r : Text) (h : List ScanObservation × ℕ) (os : List ScanObservation)
    → record_scans (history_of r h) os ≡ history_of r (observe_all same_scan h (scanned os))
unfolding record_scans scanned observe_all
record_scans-observe r h [] = refl
record_scans-observe r (kept, n) (o ∷ os) = elim (Bool-cases (is_empty (strip o.digest))) [
  | inl e ↦
      rw e
        (rw (record_scan-blank (history_of r (kept, n)) o e) (record_scans-observe r (kept, n) os))
  | inr e ↦ rw e (
      rw (record_scan-observe r kept n o e)
        (record_scans-observe r (observe same_scan (kept, n) o) os))
]

scans-kept :
    (r : Text) (os : List ScanObservation)
    → scans (history_of r (bounded os, overflow os)) ≡ length os
unfolding scans history_of
scans-kept r os = length-bounded os

-- From an empty history, after any sequence of scans: what is kept is the first scan and the last
-- 23 of those that changed the digest or a count, the others are counted as dropped, `scans` is the
-- number of all that changed something, and no more than 24 observations are kept. A scan with a
-- blank digest is no observation.
record_scans_lem :
    (r : Text) (os : List ScanObservation)
    → ((record_scans (new_scan_history r) os).observations ≡ bounded (changed os))
      × ((record_scans (new_scan_history r) os).dropped ≡ overflow (changed os))
      × (scans (record_scans (new_scan_history r) os) ≡ length (changed os))
      × (length (record_scans (new_scan_history r) os).observations ≤ max_observations)
unfolding changed history_of
record_scans_lem r os =
    let e =
      record_scans-observe r ([], 0) os
      ∙ ap (history_of r) (observe_all_lem same_scan (scanned os)) in
    (
      ap (λ h. h.observations) e,
      ap (λ h. h.dropped) e,
      ap scans e ∙ scans-kept r (changed os),
      rw e (length-bounded-le (changed os)),
    )
