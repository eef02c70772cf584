-- ===== src/Scanning/Criteria.antt =====
-- candidate_criteria.py: what is excluded before any scan, and on what evidence. How a range is
-- written as text is not modelled; it enters as the terms that `VersionRange.parse` makes.
use docker_ls.Prelude.{
  ℕ, List, [], ◌∷◌, ◌++◌, map, Bool, true, false, ◌&&◌, ◌||◌, Option, none, some,
}
use docker_ls.Prelude.{◌==◌, not, any, all, is_empty, filter, if◌then◌else◌}
use docker_ls.Prelude.Text.{Text, codes, strip, lower, contains, text_eq}
use docker_ls.Evidence.Image.{DockerImage}
use docker_ls.Scanning.Versions.{Version, version_leb, version_ltb, version_of_tag}

-- A discovered tag: the image, the architectures that its listing names, and its identity as an object
-- (`id` in Python), which no two tags of a listing share.
pub record Candidate : Type 0 where
  pub object : ℕ
  pub image : DockerImage
  pub architectures : List Text

abbrev pub reference : Candidate → Text
reference c = c.image.full_reference

pub data Basis : Type 0 where
  confirmed heuristic : Basis

pub data Variant : Type 0 where
  runtime dev : Variant

abbrev pub same_variant : Variant → Variant → Bool
same_variant runtime runtime = true
same_variant dev dev = true
same_variant _ _ = false

pub data Criterion : Type 0 where
  platform runtime_version distro variant : Criterion

-- `_FAMILY_TOKENS`
abbrev family_tokens : List (Text × Text)
family_tokens =
    (codes "alpine", codes "alpine")
    ∷ (codes "wolfi", codes "wolfi")
    ∷ (codes "chainguard", codes "wolfi")
    ∷ (codes "debian", codes "debian")
    ∷ (codes "bookworm", codes "debian")
    ∷ (codes "bullseye", codes "debian")
    ∷ (codes "buster", codes "debian")
    ∷ (codes "trixie", codes "debian")
    ∷ (codes "slim", codes "debian")
    ∷ (codes "ubuntu", codes "ubuntu")
    ∷ (codes "jammy", codes "ubuntu")
    ∷ (codes "noble", codes "ubuntu")
    ∷ (codes "focal", codes "ubuntu")
    ∷ (codes "distroless", codes "distroless")
    ∷ []

-- `_DEV_TOKENS`
abbrev dev_tokens : List Text
dev_tokens =
    codes "dev"
    ∷ codes "debug"
    ∷ codes "sdk"
    ∷ codes "build"
    ∷ codes "builder"
    ∷ codes "devel"
    ∷ codes "development"
    ∷ []

-- `[-_.:/]`
abbrev is_separator : ℕ → Bool
is_separator c = c == b'-' || (c == b'_' || (c == b'.' || (c == b':' || c == b'/')))

abbrev onto_first : ℕ → List Text → List Text
onto_first c [] = (c ∷ []) ∷ []
onto_first c (piece ∷ pieces) = (c ∷ piece) ∷ pieces

-- `_TOKEN_SPLIT.split`
split_tokens : Text → List Text
split_tokens [] = [] ∷ []
split_tokens (c ∷ t) =
    let rest = split_tokens t in if is_separator c then [] ∷ rest else onto_first c rest

-- `_tokens`
unfoldable pub tokens : DockerImage → List Text
unfolding split_tokens
tokens i =
    filter (λ token. not (is_empty token)) (split_tokens (lower (i.name ++ (codes ":" ++ i.tag))))

-- `_FAMILY_TOKENS[token]`, if it is there
family_named : List (Text × Text) → Text → Option Text
family_named [] token = none
family_named ((name, family) ∷ names) token =
    if text_eq name token then some family else family_named names token

first_family : List Text → Text
first_family [] = []
first_family (token ∷ rest) = elim (family_named family_tokens token) [
  | none ↦ first_family rest
  | some family ↦ family
]

-- `family_of_tag`
unfoldable pub family_of_tag : DockerImage → Text
unfolding first_family family_named
family_of_tag i = first_family (tokens i)

-- `variant_of_tag`
unfoldable pub variant_of_tag : DockerImage → Variant
variant_of_tag i = if any (λ token. contains dev_tokens token) (tokens i) then dev else runtime

-- The terms of a `VersionRange`
pub data Term : Type 0 where
  prefix at_least above at_most below equal major_at_most : Version → Term

-- `version[: len(bound)] == bound`
abbrev has_prefix : Version → Version → Bool
has_prefix version [] = true
has_prefix [] (b ∷ bound) = false
has_prefix (v ∷ version) (b ∷ bound) = v == b && has_prefix version bound

-- `version[:1]`
abbrev pub major : Version → Version
major [] = []
major (v ∷ version) = v ∷ []

abbrev meets : Version → Term → Bool
meets version (prefix bound) = has_prefix version bound
meets version (at_least bound) = version_leb bound version
meets version (above bound) = version_ltb bound version
meets version (at_most bound) = version_leb version bound
meets version (below bound) = version_ltb version bound
meets version (equal bound) = version_leb version bound && version_leb bound version
meets version (major_at_most bound) = version_leb (major version) bound

-- `VersionRange.accepts`
unfoldable pub accepts : List Term → Version → Bool
accepts terms version = all (meets version) terms

-- `CandidateCriteria`; an empty `distro` is no filter.
pub record CandidateCriteria : Type 0 where
  pub architecture : Option Text
  pub runtime : Option (List Term)
  pub distro : Text
  pub variant : Option Variant

abbrev given {ℓ} : {A : Type ℓ} → Option A → Bool
given none = false
given (some a) = true

-- `active`
unfoldable pub active : CandidateCriteria → Bool
active c = given c.architecture || (given c.runtime || (not (is_empty c.distro) || given c.variant))

-- The groups of `_family_compatible`
abbrev compatible_groups : List (List Text)
compatible_groups =
    (codes "wolfi" ∷ codes "chainguard" ∷ [])
    ∷ (codes "rhel" ∷ codes "redhat" ∷ codes "centos" ∷ codes "rocky" ∷ codes "almalinux" ∷ [])
    ∷ []

-- `_family_compatible`
unfoldable pub family_compatible : Text → Text → Bool
family_compatible a b = any (λ group. contains group a && contains group b) compatible_groups

-- `Exclusion`
pub record Exclusion : Type 0 where
  pub reference : Text
  pub criterion : Criterion
  pub basis : Basis

abbrev excluded : Candidate → Criterion → Basis → Exclusion
excluded c criterion basis = record {
  reference = reference c;
  criterion = criterion;
  basis = basis;
}

-- The four tests of `evaluate`
unfoldable pub fails_platform : CandidateCriteria → Candidate → Bool
fails_platform criteria c = elim criteria.architecture [
  | none ↦ false
  | some wanted ↦
      not (is_empty c.architectures)
      && not (contains (map lower (filter (λ a. not (is_empty a)) c.architectures)) wanted)
]

fails_terms : Option (List Term) → Option Version → Bool
fails_terms (some terms) (some version) = not (accepts terms version)
fails_terms _ _ = false

unfoldable pub fails_runtime : CandidateCriteria → Candidate → Bool
unfolding fails_terms
fails_runtime criteria c = fails_terms criteria.runtime (version_of_tag c.image.tag)

unfoldable pub fails_distro : CandidateCriteria → Candidate → Bool
fails_distro criteria c =
    let named = family_of_tag c.image in
    not (is_empty criteria.distro)
    && (not (is_empty named)
        && (not (text_eq named criteria.distro) && not (family_compatible named criteria.distro)))

unfoldable pub fails_variant : CandidateCriteria → Candidate → Bool
fails_variant criteria c = elim criteria.variant [
  | none ↦ false
  | some wanted ↦ not (same_variant (variant_of_tag c.image) wanted)
]

-- `CandidateCriteria.evaluate`
unfoldable pub evaluate_candidate : CandidateCriteria → Candidate → Option Exclusion
evaluate_candidate criteria c =
    if fails_platform criteria c
    then some (excluded c platform confirmed)
    else if fails_runtime criteria c
    then some (excluded c runtime_version heuristic)
    else if fails_distro criteria c
    then some (excluded c distro heuristic)
    else if fails_variant criteria c
    then some (excluded c variant heuristic)
    else none

-- `CandidateCriteria.confirm`
unfoldable pub confirm : CandidateCriteria → Candidate → Text → Option Exclusion
confirm criteria c os_family =
    let measured = lower (strip os_family) in
    if is_empty criteria.distro || is_empty os_family
    then none
    else if text_eq measured criteria.distro || family_compatible measured criteria.distro
    then none
    else some (excluded c distro confirmed)

-- The loop of `apply_criteria`: what is kept, and what is excluded
unfoldable pub split_candidates :
    CandidateCriteria → List Candidate → List Candidate × List Exclusion
split_candidates criteria [] = ([], [])
split_candidates criteria (c ∷ cs) =
    let (kept, excluded) = split_candidates criteria cs in
    elim (evaluate_candidate criteria c) [
      | none ↦ (c ∷ kept, excluded)
      | some exclusion ↦ (kept, exclusion ∷ excluded)
    ]

-- `apply_criteria`
unfoldable pub apply_criteria : CandidateCriteria → List Candidate → List Candidate × List Exclusion
apply_criteria criteria cs =
    if not (active criteria) then (cs, []) else split_candidates criteria cs
