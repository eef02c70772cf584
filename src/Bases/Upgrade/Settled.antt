-- ===== src/Bases/Upgrade/Settled.antt =====
-- A line that was upgraded is read again as one that is up to date.
use Prim.Native.Nat.{ℕ}
use docker_ls.Prelude.{
  ◌≡◌, refl, ap, ◌∙◌, inl, inr, [], ◌∷◌, false, some, is_empty, arith, Bool-cases,
}
use docker_ls.Prelude.Text.{Text, text_eq_iff}
use docker_ls.Bases.Reference.{has_char, split_reference}
use docker_ls.Bases.Reference.Laws.{written, split_reference-written, split_reference-tag}
use docker_ls.Bases.Lines.{FromLine, from_match, with_base}
use docker_ls.Bases.Lines.Swap.{Token, from_match-with_base}
use docker_ls.Bases.Variables.{Args, expand_plain}
use docker_ls.Bases.Upgrade.{
  pinned_current, DeclaredBase, BaseFinding, classify_base, tag_or_latest, proposed_reference,
  ArgLines, declared_base,
}

classify_base-current :
    (b : DeclaredBase) (current : Text)
    → is_empty current ≡ false
    → b.digest ≡ current
    → (classify_base b current).status ≡ pinned_current
unfolding classify_base
classify_base-current b current h e =
    rw h (rw e (rw h (rw ((text_eq_iff current current).1 refl) refl)))

tag_or_latest-plain :
    (tag : Text)
    → has_char b'@' tag ≡ false
    → has_char b'/' tag ≡ false
    → (has_char b'@' (tag_or_latest tag) ≡ false) × (has_char b'/' (tag_or_latest tag) ≡ false)
tag_or_latest-plain [] h k = (refl, refl)
tag_or_latest-plain (c ∷ tag) h k = (h, k)

proposed_reference-written :
    (f : BaseFinding)
    → is_empty (proposed_reference f) ≡ false
    → (proposed_reference f ≡ written f.base.name (tag_or_latest f.base.tag) f.current_digest)
      × (is_empty f.current_digest ≡ false)
unfolding proposed_reference
proposed_reference-written f h = ground (arith, h)

classify_base-base : (b : DeclaredBase) (current : Text) → (classify_base b current).base ≡ b
unfolding classify_base
classify_base-base b current = elim (Bool-cases (is_empty current)) [
  | inl e ↦ rw e refl
  | inr e ↦ rw e (elim (Bool-cases (is_empty b.digest)) [ inl f ↦ rw f refl | inr f ↦ rw f refl ])
]

classify_base-digest :
    (b : DeclaredBase) (current : Text)
    → is_empty (classify_base b current).current_digest ≡ false
    → ((classify_base b current).current_digest ≡ current) × (is_empty current ≡ false)
unfolding classify_base
classify_base-digest b current = elim (Bool-cases (is_empty current)) [
  | inl e ↦ rw e (λ h. cc)
  | inr e ↦ rw e (elim (Bool-cases (is_empty b.digest)) [
    | inl f ↦ rw f (λ h. (refl, refl))
    | inr f ↦ rw f (λ h. (refl, refl))
  ])
]

-- A base that is read of a reference without variables has its parts.
declared_base-parts :
    (args : Args) (numbers : ArgLines) (number : ℕ) (m : FromLine)
    → has_char b'$' m.reference ≡ false
    → ((declared_base args numbers number m).name ≡ (split_reference m.reference).name)
      × ((declared_base args numbers number m).tag ≡ (split_reference m.reference).tag)
      × ((declared_base args numbers number m).digest ≡ (split_reference m.reference).digest)
unfolding declared_base
declared_base-parts args numbers number m h =
    let e = expand_plain args m.reference h in
    (
      ap (λ t. (split_reference t).name) e,
      ap (λ t. (split_reference t).tag) e,
      ap (λ t. (split_reference t).digest) e,
    )

-- The reference that is proposed for a base without variables falls into the name of the base, a
-- tag, and the digest that the tag points at.
proposed_reference-digest :
    (args : Args) (numbers : ArgLines) (number : ℕ) (m : FromLine) (current : Text)
    → has_char b'$' m.reference ≡ false
    → let f = classify_base (declared_base args numbers number m) current in
      is_empty (proposed_reference f) ≡ false
      → ((split_reference (proposed_reference f)).digest ≡ current) × (is_empty current ≡ false)
proposed_reference-digest args numbers number m current plain some_of =
    let b = declared_base args numbers number m in
    let f = classify_base b current in
    let (text, given) = proposed_reference-written f some_of in
    let (same, present) = classify_base-digest b current given in
    let (name, tag, _) = declared_base-parts args numbers number m plain in
    let (at, slash) = split_reference-tag m.reference in
    let (at_latest, slash_latest) =
      tag_or_latest-plain (split_reference m.reference).tag at slash in
    (
      rw (text, same, classify_base-base b current, name, tag)
          (ap (λ r. r.digest)
            (split_reference-written m.reference (tag_or_latest (split_reference m.reference).tag)
              current at_latest slash_latest)),
      present,
    )

-- What is proposed for the base of a match
abbrev pub proposal : Args → ArgLines → ℕ → FromLine → Text → Text
proposal args numbers number m current =
    proposed_reference (classify_base (declared_base args numbers number m) current)

-- Where a `FROM` line without variables is upgraded, as it stands or from a digest that is no longer
-- current, and the proposal is a token without variables that does not read as a flag, `_FROM_LINE`
-- matches the new line, and the base that is read of it is pinned to the current digest.
pub upgrade_settled :
    (args : Args) (numbers : ArgLines) (number : ℕ) (line current : Text) (m : FromLine)
    → from_match line ≡ some m
    → has_char b'$' m.reference ≡ false
    → Token (proposal args numbers number m current)
    → has_char b'$' (proposal args numbers number m current) ≡ false
    → (n : FromLine) × (from_match (with_base (proposal args numbers number m current) m) ≡ some n)
      × ((classify_base (declared_base args numbers number n) current).status ≡ pinned_current)
upgrade_settled args numbers number line current m e plain token no_dollar =
    let new = proposal args numbers number m current in
    let n : FromLine = record { prefix = m.prefix; reference = new; suffix = m.suffix } in
    let (digest, present) = proposed_reference-digest args numbers number m current plain token.1 in
    let parts = declared_base-parts args numbers number n no_dollar in
    (
      n,
      from_match-with_base line new m token e,
      classify_base-current (declared_base args numbers number n) current present
          (parts.2 ∙ digest),
    )
