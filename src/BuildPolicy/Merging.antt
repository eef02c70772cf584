-- ===== src/BuildPolicy/Merging.antt =====
-- Two policies that are merged against the two of them.
use Prim.Native.Nat.{ℕ}
use docker_ls.Prelude.{
  ◌≡◌, ◌⊎◌, refl, sym, ◌∙◌, ap, inl, inr, List, [], ◌∷◌, ◌++◌, map, filter, Bool, true, false, ◌||◌,
  ◌&&◌, not, Option, none, some, is_empty, any, when, if◌then◌else◌, arith, Bool-cases,
}
use docker_ls.Prelude.Text.{Text, text_eq, text_eq_iff, lower, contains}
use docker_ls.Evidence.Vulnerability.{Severity}
use docker_ls.BuildPolicy.{
  Ceilings, BuildPolicy, severity_order, has_ceiling, any_ceiling, from_keys, stricter, combined,
  merged_with,
}
use docker_ls.Gate.Types.{Result, ok, err, InvalidGate}
use docker_ls.Gate.Merge.{merge_gates}
use docker_ls.BuildPolicy.Rules.{
  BaseFact, PolicyFacts, PolicyViolation, no_counts, no_bases, over_ceiling, not_pinned,
  registry_of, exceeds, check_ceilings, permits, registry_refused, check_pinned,
}

-- No check finds a violation.
abbrev pub passes : List PolicyViolation → Bool
passes vs = is_empty vs

pub passes-append : (xs ys : List PolicyViolation) → passes (xs ++ ys) ≡ (passes xs && passes ys)
passes-append [] ys = refl
passes-append (x ∷ xs) ys = refl

pub passes-when : (b : Bool) (x : PolicyViolation) → passes (when b x) ≡ not b
unfolding when
passes-when true x = refl
passes-when false x = refl

module _ {A : Type 0} (p : A → Bool) (make : A → PolicyViolation) where
  pub passes-map-filter : (xs : List A) → passes (map make (filter p xs)) ≡ not (any p xs)
  passes-map-filter [] = refl
  passes-map-filter (x ∷ xs) = ground (arith, passes-map-filter xs)

module _ (p : Text → Bool) where
  any-append : (xs ys : List Text) → any p (xs ++ ys) ≡ (any p xs || any p ys)
  any-append [] ys = refl
  any-append (x ∷ xs) ys = ground (arith, any-append xs ys)

  any-contains : (xs : List Text) (x : Text) → contains xs x ≡ true → p x ≡ true → any p xs ≡ true
  any-contains [] x h k = cc
  any-contains (y ∷ xs) x h k = ground (arith, any-contains xs x, text_eq_iff x y, ap p)

  any-from_keys :
      (seen xs : List Text) → (any p (from_keys seen xs) || any p seen) ≡ (any p xs || any p seen)
  unfolding from_keys
  any-from_keys seen [] = refl
  any-from_keys seen (x ∷ xs) = elim (Bool-cases (contains seen x)) [
    | inl e ↦ rw e (ground (arith, any-from_keys seen xs, any-contains seen x e))
    | inr e ↦ rw e (ground (arith, any-from_keys (x ∷ seen) xs))
  ]

  pub any-from_all : (xs ys : List Text) → any p (from_keys [] (xs ++ ys)) ≡ (any p xs || any p ys)
  any-from_all xs ys = ground (arith, any-from_keys [] (xs ++ ys), any-append xs ys)

is_empty-append : (xs ys : List Text) → is_empty (xs ++ ys) ≡ (is_empty xs && is_empty ys)
is_empty-append [] ys = refl
is_empty-append (x ∷ xs) ys = refl

is_empty-from_keys : (xs : List Text) → is_empty (from_keys [] xs) ≡ is_empty xs
unfolding from_keys
is_empty-from_keys [] = refl
is_empty-from_keys (x ∷ xs) = refl

module _ {A : Type 0} (p q r : A → Bool) (h : (x : A) → p x ≡ (q x || r x)) where
  pub any-or : (xs : List A) → any p xs ≡ (any q xs || any r xs)
  any-or [] = refl
  any-or (x ∷ xs) = ground (arith, h x, any-or xs)

pub exceeds-stricter :
    (a b : Option ℕ) (n : ℕ) → exceeds (stricter a b) n ≡ (exceeds a n || exceeds b n)
exceeds-stricter none b n = refl
exceeds-stricter (some limit) none n = ground arith
exceeds-stricter (some limit) (some other) n = ground arith

pub has_ceiling-stricter :
    (a b : Option ℕ) → has_ceiling (stricter a b) ≡ (has_ceiling a || has_ceiling b)
has_ceiling-stricter none b = refl
has_ceiling-stricter (some limit) none = refl
has_ceiling-stricter (some limit) (some other) = refl

exceeds-has_ceiling :
    (c : Ceilings) (counts : Severity → ℕ) (ss : List Severity)
    → any (λ s. has_ceiling (c s)) ss ≡ false
    → any (λ s. exceeds (c s) (counts s)) ss ≡ false
exceeds-has_ceiling c counts [] h = refl
exceeds-has_ceiling c counts (s ∷ ss) h =
    ground (arith, exceeds-has_ceiling c counts ss, exceeds-none (c s) (counts s))
  where
    exceeds-none : (o : Option ℕ) (n : ℕ) → has_ceiling o ≡ false → exceeds o n ≡ false
    exceeds-none none n k = refl
    exceeds-none (some limit) n k = cc

passes-counted :
    (given ran over : Bool) (vs : List PolicyViolation)
    → passes vs ≡ not over
    → (given ≡ false → over ≡ false)
    → passes (if not given then [] else if not ran then no_counts ∷ [] else vs)
      ≡ (if ran then not over else not given)
passes-counted true true over vs h k = h
passes-counted true false over vs h k = refl
passes-counted false true over vs h k = rw (k refl) refl
passes-counted false false over vs h k = refl

pub passes-check_ceilings :
    (p : BuildPolicy) (f : PolicyFacts)
    → passes (check_ceilings p f) ≡ (
        if f.scan_ran
        then not (any (λ s. exceeds (p.max_vulnerabilities s) (f.severity_counts s)) severity_order)
        else not (any_ceiling p.max_vulnerabilities))
unfolding check_ceilings
passes-check_ceilings p f =
    passes-counted (any_ceiling p.max_vulnerabilities) f.scan_ran
      (any (λ s. exceeds (p.max_vulnerabilities s) (f.severity_counts s)) severity_order)
      (map over_ceiling
        (filter (λ s. exceeds (p.max_vulnerabilities s) (f.severity_counts s)) severity_order))
      (passes-map-filter (λ s. exceeds (p.max_vulnerabilities s) (f.severity_counts s)) over_ceiling
        severity_order)
      (exceeds-has_ceiling p.max_vulnerabilities f.severity_counts severity_order)

pub passes-check_pinned :
    (p : BuildPolicy) (f : PolicyFacts)
    → passes (check_pinned p f)
      ≡ not (p.require_pinned_bases && (is_empty f.bases || any (λ b. not b.pinned) f.bases))
unfolding check_pinned
passes-check_pinned p f = ground (
  arith,
  passes-append (when (is_empty f.bases) no_bases)
      (map (λ b. not_pinned b.reference) (filter (λ b. not b.pinned) f.bases)),
  passes-when (is_empty f.bases) no_bases,
  passes-map-filter (λ (b : BaseFact). not b.pinned) (λ b. not_pinned b.reference) f.bases,
)

-- One of the policies names no registries.
abbrev pub OneOpen : BuildPolicy → BuildPolicy → Type 0
OneOpen p q =
    (is_empty p.allowed_base_registries ≡ true) ⊎ (is_empty q.allowed_base_registries ≡ true)

any-none : (h : Text → Bool) (xs : List Text) → is_empty xs ≡ true → any h xs ≡ false
any-none h [] e = refl
any-none h (x ∷ xs) e = cc

pub registry_refused-merged :
    (xs ys : List Text) (b : BaseFact)
    → (is_empty xs ≡ true) ⊎ (is_empty ys ≡ true)
    → registry_refused (from_keys [] (xs ++ ys)) b
      ≡ (registry_refused xs b || registry_refused ys b)
registry_refused-merged xs ys b h =
    let named : Text → Bool = λ r. text_eq (lower r) (registry_of b) in
    ground (
      arith,
      h,
      any-from_all named xs ys,
      is_empty-append xs ys,
      is_empty-from_keys (xs ++ ys),
      any-none named xs,
      any-none named ys,
    )

Result-cases : (r : Result Text) → ((t : Text) × (r ≡ ok t)) ⊎ ((e : InvalidGate) × (r ≡ err e))
Result-cases (ok t) = inl (t, refl)
Result-cases (err e) = inr (e, refl)

ok_injective : {a b : BuildPolicy} → ok a ≡ ok b → a ≡ b
ok_injective e = cc

not_error :
    {a : BuildPolicy} {bad : InvalidGate} → ◌≡◌ {A = Result BuildPolicy} (ok a) (err bad) → ⊥
not_error e = cc

-- A merged policy is the two of them combined, with some gate.
pub merged_with-combined :
    (p q m : BuildPolicy) → merged_with p q ≡ ok m → (gate : Text) × (m ≡ combined p q gate)
unfolding merged_with
merged_with-combined p q m e = elim (Result-cases (merge_gates p.fail_on q.fail_on)) [
  | inl (gate, g) ↦ (gate, ok_injective (sym e ∙ rw g refl))
  | inr (bad, g) ↦ absurd (not_error {a = m} {bad = bad} (sym e ∙ rw g refl))
]

-- A base whose registry one policy refuses is not refused by the merged policy, if the other policy
-- names registries and permits it.
pub registry_loosened :
    (p q m : BuildPolicy) (b : BaseFact)
    → merged_with p q ≡ ok m
    → registry_refused p.allowed_base_registries b ≡ true
    → permits q.allowed_base_registries b ≡ true
    → registry_refused m.allowed_base_registries b ≡ false
unfolding combined
registry_loosened p q m b e h k =
    let (gate, same) = merged_with-combined p q m e in
    let named : Text → Bool = λ r. text_eq (lower r) (registry_of b) in
    rw same
      (ground (arith, h, k, any-from_all named p.allowed_base_registries q.allowed_base_registries))
