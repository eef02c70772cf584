-- ===== src/Identity/Reference/Laws.antt =====
-- The registry that a reference names is the one that the image is filed under, and what a
-- repository and a tag make together.
use mathlib.Core.List.{append_assoc}
use docker_ls.Prelude.{
  ℕ, ◌<◌, ◌≡◌, refl, sym, ap, ◌∙◌, [], ◌∷◌, ◌++◌, true, false, ◌==◌, is_empty, arith, if◌then◌else◌,
  Bool-cases, inl, inr,
}
use docker_ls.Prelude.Text.{Text, codes, contains, lower_code, lower, strip, text_eq, text_eq_iff}
use docker_ls.Prelude.Text.Laws.{lower-lower}
use docker_ls.Bases.Reference.{has_char, before_first, after_first, up_to_last, after_last}
use docker_ls.Bases.Reference.Laws.{
  has_char-append, has_char-after_last, has_char-after_last_of, after_last_none,
}
use docker_ls.Identity.Parts.{before_last}
use docker_ls.Identity.Reference.{
  docker_hub_hosts, is_registry_host, host_in, registry_host_of, prefix_and_tail,
  split_repository_and_tag,
}
use docker_ls.Identity.Canonical.{
  docker_hub, named_registry, canonical_registry, split_registry_and_repository,
}

-- A separator below the letters
module _ (c : ℕ) (below : c < 65) where
  has_char-lower : (t : Text) → has_char c (lower t) ≡ has_char c t
  unfolding lower
  has_char-lower [] = refl
  has_char-lower (x ∷ t) =
      let same : (lower_code x == c) ≡ (x == c) = ground arith in rw (same, has_char-lower t) refl

  before_first-lower : (t : Text) → before_first c (lower t) ≡ lower (before_first c t)
  unfolding lower before_first
  before_first-lower [] = refl
  before_first-lower (x ∷ t) =
      let same : (lower_code x == c) ≡ (x == c) = ground arith in
      rw (same, before_first-lower t)
        (elim (Bool-cases (x == c)) [ inl e ↦ rw e refl | inr e ↦ rw e refl ])

is_registry_host-lower : (t : Text) → is_registry_host (lower t) ≡ is_registry_host t
unfolding is_registry_host
is_registry_host-lower t =
    rw (has_char-lower b'.' (omega arith) t, has_char-lower b':' (omega arith) t, lower-lower t)
      refl

is_registry_host-empty : is_registry_host [] ≡ false
unfolding is_registry_host lower text_eq
is_registry_host-empty = refl

before_first_none : (c : ℕ) (t : Text) → has_char c t ≡ false → before_first c t ≡ t
unfolding before_first
before_first_none c [] h = refl
before_first_none c (x ∷ t) h = ground (arith, before_first_none c t)

canonical_registry-hub :
    (r : Text) → contains docker_hub_hosts r ≡ true → canonical_registry r ≡ docker_hub
unfolding canonical_registry
canonical_registry-hub r h = ground (arith, (text_eq_iff r docker_hub).0)

canonical_registry-other :
    (r : Text) → contains docker_hub_hosts r ≡ false → canonical_registry r ≡ r
unfolding canonical_registry
canonical_registry-other r h = ground arith

split_registry :
    (name : Text)
    → (split_registry_and_repository name).0 ≡ canonical_registry (named_registry (lower name)).0
unfolding split_registry_and_repository
split_registry name = ground arith

is_empty-host : (h : Text) → is_registry_host h ≡ true → is_empty h ≡ false
is_empty-host [] e = absurd (cc (e, is_registry_host-empty))
is_empty-host (x ∷ h) e = refl

registry_host_of-plain :
    (name : Text)
    → strip name ≡ name
    → has_char b'@' name ≡ false
    → registry_host_of name ≡ host_in name
unfolding registry_host_of
registry_host_of-plain [] s h = rw s (unfold host_in in refl)
registry_host_of-plain (x ∷ t) s h = rw (s, before_first_none b'@' (x ∷ t) h) refl

-- The first part of a name that has a registry, as the scanners' guard and the cache see it
module _ (name : Text) (slash : has_char b'/' name ≡ true) where
  abbrev head : Text
  head = before_first b'/' name

  named_registry-lower : named_registry (lower name) ≡ (
      if is_registry_host head
      then (lower head, after_first b'/' (lower name))
      else (docker_hub, lower name))
  unfolding named_registry
  named_registry-lower =
      rw
        (
          has_char-lower b'/' (omega arith) name,
          slash,
          before_first-lower b'/' (omega arith) name,
          is_registry_host-lower head,
        )
        refl

  host_in-slash : host_in name ≡ (
      if is_registry_host head
      then (if contains docker_hub_hosts (lower head) then [] else head)
      else [])
  unfolding host_in
  host_in-slash = rw slash refl

abbrev registry_named : Text → Text
registry_named host = if is_empty host then docker_hub else lower host

canonical_registry-host_in :
    (name : Text)
    → canonical_registry (named_registry (lower name)).0 ≡ registry_named (host_in name)
canonical_registry-host_in name = elim (Bool-cases (has_char b'/' name)) [
  | inr none_named ↦
      unfold host_in named_registry in rw (has_char-lower b'/' (omega arith) name, none_named) hub
  | inl slash ↦
      rw (named_registry-lower name slash, host_in-slash name slash)
        (elim (Bool-cases (is_registry_host (before_first b'/' name))) [
          | inr namespace ↦ rw namespace hub
          | inl host ↦
              rw host
                (elim (Bool-cases (contains docker_hub_hosts (lower (before_first b'/' name)))) [
                  | inl e ↦ rw e (canonical_registry-hub (lower (before_first b'/' name)) e)
                  | inr e ↦
                      rw (e, is_empty-host (before_first b'/' name) host)
                        (canonical_registry-other (lower (before_first b'/' name)) e)
                ])
        ])
]
  where
    hub : canonical_registry docker_hub ≡ docker_hub
    hub = unfold canonical_registry text_eq in refl

before_first-after_first :
    (c : ℕ) (t : Text) → has_char c t ≡ true → before_first c t ++ (c ∷ after_first c t) ≡ t
unfolding before_first after_first
before_first-after_first c [] h = cc
before_first-after_first c (x ∷ t) h = ground (arith, before_first-after_first c t)

host_in-head :
    (name : Text)
    → is_empty (host_in name) ≡ false
    → (host_in name ≡ before_first b'/' name) × (has_char b'/' name ≡ true)
unfolding host_in
host_in-head name h = ground arith

-- A host is what stands before the first "/", as it is written.
host_in-written :
    (name : Text)
    → is_empty (host_in name) ≡ false
    → host_in name ++ (b'/' ∷ after_first b'/' name) ≡ name
host_in-written name h =
    let (same, slash) = host_in-head name h in rw same (before_first-after_first b'/' name slash)

-- For a name without a digest and without white space at its ends, `registry_host_of` names the
-- registry that `split_registry_and_repository` files the image under: where it names none, the image
-- is filed under Docker Hub, and else under the host that it names, in lower case. The host that it
-- names is what stands before the first "/" of the name, as it is written.
pub registry_host_of_lem :
    (name : Text)
    → strip name ≡ name
    → has_char b'@' name ≡ false
    → ((split_registry_and_repository name).0
        ≡ (if is_empty (registry_host_of name) then docker_hub else lower (registry_host_of name)))
      × (is_empty (registry_host_of name) ≡ false
          → registry_host_of name ++ (b'/' ∷ after_first b'/' name) ≡ name)
registry_host_of_lem name s h =
    rw (registry_host_of-plain name s h)
      (split_registry name ∙ canonical_registry-host_in name, host_in-written name)

up_to_last-after_last : (c : ℕ) (t : Text) → up_to_last c t ++ after_last c t ≡ t
unfolding up_to_last after_last
up_to_last-after_last c [] = refl
up_to_last-after_last c (x ∷ t) = ground (arith, up_to_last-after_last c t)

before_last-after_last :
    (c : ℕ) (t : Text) → has_char c t ≡ true → before_last c t ++ (c ∷ after_last c t) ≡ t
unfolding before_last after_last
before_last-after_last c [] h = cc
before_last-after_last c (x ∷ t) h = ground (arith, before_last-after_last c t)

after_last-through : (c : ℕ) (s u : Text) → after_last c (s ++ (c ∷ u)) ≡ after_last c u
unfolding after_last
after_last-through c [] u = ground (arith, after_last_none c u)
after_last-through c (x ∷ s) u =
    let found : has_char c (s ++ (c ∷ u)) ≡ true = ground (arith, has_char-append c s (c ∷ u)) in
    rw (found, after_last-through c s u) refl

-- The prefix and the tail make the reference, and the tail has its last part.
record Cut (ref : Text) (cut : Text × Text) : Type 0 where
  whole : cut.0 ++ cut.1 ≡ ref
  last : after_last b'/' cut.1 ≡ after_last b'/' ref

prefix_and_tail-Cut : (ref : Text) → Cut ref (prefix_and_tail ref)
unfolding prefix_and_tail
prefix_and_tail-Cut ref = elim (Bool-cases (has_char b'/' ref)) [
  | inr e ↦ rw e (record { whole = refl; last = refl })
  | inl e ↦
      let joined : before_first b'/' ref ++ (b'/' ∷ after_first b'/' ref) ≡ ref =
        before_first-after_first b'/' ref e in
      rw e (elim (Bool-cases (is_registry_host (before_first b'/' ref))) [
        | inr f ↦ rw f (record { whole = refl; last = refl })
        | inl f ↦ rw f (record {
          whole = append_assoc (before_first b'/' ref) (codes "/") (after_first b'/' ref) ∙ joined;
          last =
              sym (after_last-through b'/' (before_first b'/' ref) (after_first b'/' ref))
              ∙ ap (after_last b'/') joined;
        })
      ])
]

-- A tag has neither "/" nor ":". Where the last part of the reference has a ":", the repository and
-- the tag, joined by ":", are the reference without its digest; where it has none, the repository is
-- the whole of that and the tag is empty.
pub split_repository_and_tag_lem :
    (reference : Text)
    → let ref = before_first b'@' reference in
      let (repository, tag) = split_repository_and_tag reference in
      (has_char b'/' tag ≡ false)
      × (has_char b':' tag ≡ false)
      × (has_char b':' (after_last b'/' ref) ≡ true → repository ++ (b':' ∷ tag) ≡ ref)
      × (has_char b':' (after_last b'/' ref) ≡ false → (repository ≡ ref) × (tag ≡ []))
unfolding split_repository_and_tag
split_repository_and_tag_lem reference =
    let ref : Text = before_first b'@' reference in
    let prefix : Text = (prefix_and_tail ref).0 in
    let tail : Text = (prefix_and_tail ref).1 in
    let part : Text = after_last b'/' tail in
    let cut : Cut ref (prefix_and_tail ref) = prefix_and_tail-Cut ref in
    rw (← cut.last) (elim (Bool-cases (has_char b':' part)) [
      | inr e ↦ rw e (refl, refl, λ h. cc, λ _. (refl, refl))
      | inl e ↦
          let joined : up_to_last b'/' tail
                ++ (before_last b':' part ++ (b':' ∷ after_last b':' part))
              ≡ tail =
            ap (λ t. up_to_last b'/' tail ++ t) (before_last-after_last b':' part e)
            ∙ up_to_last-after_last b'/' tail in
          rw e (
            has_char-after_last_of b'/' b':' part (has_char-after_last b'/' tail),
            has_char-after_last b':' part,
            λ _.
                append_assoc prefix (up_to_last b'/' tail ++ before_last b':' part)
                  (b':' ∷ after_last b':' part)
                ∙ (ap (λ t. prefix ++ t)
                      (append_assoc (up_to_last b'/' tail) (before_last b':' part)
                        (b':' ∷ after_last b':' part))
                    ∙ (ap (λ t. prefix ++ t) joined ∙ cut.whole)),
            λ h. cc,
          )
    ])
