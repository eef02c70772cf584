-- ===== src/Exemptions/Laws.antt =====
-- Which findings the rules take out of a scan.
use docker_ls.Prelude.{
  ℕ, ◌≡◌, refl, sym, ap, ◌∙◌, ◌↔◌, List, [], ◌∷◌, filter, Bool, true, false, ◌&&◌, not, is_empty,
  any, arith, In, Bool-cases, inl, inr,
}
use docker_ls.Prelude.Text.{contains, strip, text_eq, upper}
use docker_ls.Evidence.Scan.{ScanResult}
use docker_ls.Evidence.Vulnerability.{Vulnerability}
use docker_ls.Exemptions.Vex.{}
use docker_ls.Exemptions.Rules.{IgnoreRule, is_expired, active_ids, apply_ignore_rules}

-- A rule exempts a finding: it is in force, it names an advisory, and that is the finding's.
abbrev pub exempts : ℕ → Vulnerability → IgnoreRule → Bool
exempts today v r =
    not (is_expired today r) && not (is_empty (strip r.cve)) && text_eq (upper v.cve_id) r.cve

contains-active_ids :
    (today : ℕ) (rules : List IgnoreRule) (v : Vulnerability)
    → contains (active_ids today rules) (upper v.cve_id) ≡ any (exempts today v) rules
unfolding active_ids
contains-active_ids today [] v = refl
contains-active_ids today (r ∷ rules) v = ground (arith, contains-active_ids today rules v)

In-filter :
    {A : Type 0} (p : A → Bool) (x : A) (xs : List A)
    → (In x (filter p xs)) ↔ (In x xs × (p x ≡ true))
In-filter p x [] = (λ m. absurd m, λ m. absurd m.0)
In-filter p x (y ∷ xs) = elim (Bool-cases (p y)) [
  | inl e ↦ rw e (
    λ m. elim m [
      | inl q ↦ (inl q, rw q e)
      | inr k ↦ (inr ((In-filter p x xs).0 k).0, ((In-filter p x xs).0 k).1)
    ],
    λ m. elim m.0 [ inl q ↦ inl q | inr k ↦ inr ((In-filter p x xs).1 (k, m.1)) ],
  )
  | inr e ↦ rw e (
    λ m. (inr ((In-filter p x xs).0 m).0, ((In-filter p x xs).0 m).1),
    λ m. elim m.0 [ inl q ↦ absurd (cc (ap p q, e, m.1)) | inr k ↦ (In-filter p x xs).1 (k, m.1) ],
  )
]

not-true : (b : Bool) → (not b ≡ true) ↔ (b ≡ false)
not-true b = ground arith

-- A finding stays in a scan exactly where the scan has it and no rule exempts it: one that is in
-- force, whose identifier is not blank, and is the finding's in upper case.
pub apply_ignore_rules_iff :
    (today : ℕ) (rules : List IgnoreRule) (s : ScanResult) (v : Vulnerability)
    → (In v (apply_ignore_rules s (active_ids today rules)).vulnerabilities)
      ↔ (In v s.vulnerabilities × (any (exempts today v) rules ≡ false))
unfolding apply_ignore_rules
apply_ignore_rules_iff today rules s v =
    let same = contains-active_ids today rules v in
    let kept =
      In-filter (λ w. not (contains (active_ids today rules) (upper w.cve_id))) v
        s.vulnerabilities in
    (
      λ m. ((kept.0 m).0, sym same ∙ (not-true _).0 (kept.0 m).1),
      λ m. kept.1 (m.0, (not-true _).1 (same ∙ m.1)),
    )
