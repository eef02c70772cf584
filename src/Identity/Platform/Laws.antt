-- ===== src/Identity/Platform/Laws.antt =====
-- A platform that was read is read again from its text, and which platforms satisfy a request.
use docker_ls.Prelude.{
  ◌≡◌, refl, List, [], ◌∷◌, ◌++◌, true, false, ◌||◌, some, all, is_empty, arith, Bool-cases, inl,
  inr,
}
use docker_ls.Prelude.Text.{Text, codes, lower, strip, text_eq}
use docker_ls.Bases.Reference.{has_char}
use docker_ls.Identity.Parts.{split_on, join_with}
use docker_ls.Identity.Parts.Laws.{
  split_on-append, split_on-whole, is_plain, lower-plain, strip-plain, all-append,
}
use docker_ls.Identity.Platform.{
  in_part, names_part, is_part, canonical_architecture, Platform, made_platform, platform_of,
  read_platform, platform_text,
}

canonical_architecture_idem :
    (a : Text) → canonical_architecture (canonical_architecture a) ≡ canonical_architecture a
unfolding canonical_architecture text_eq
canonical_architecture_idem a =
    elim (Bool-cases (text_eq a (codes "x86_64") || text_eq a (codes "x86-64"))) [
      | inl e ↦ rw e refl
      | inr e ↦ elim (Bool-cases (text_eq a (codes "aarch64"))) [
        | inl f ↦ rw (e, f) refl
        | inr f ↦ elim (Bool-cases (text_eq a (codes "armhf") || text_eq a (codes "armel"))) [
          | inl g ↦ rw (e, f, g) refl
          | inr g ↦ rw (e, f, g) (rw (e, f, g) refl)
        ]
      ]
    ]

-- What `Platform.parse` makes sure of
record Canonical (p : Platform) : Type 0 where
  os_part : is_part p.os ≡ true
  architecture_part : is_part p.architecture ≡ true
  variant_part : (is_empty p.variant || is_part p.variant) ≡ true
  named : canonical_architecture p.architecture ≡ p.architecture

made_platform-Canonical :
    (os architecture variant : Text) (p : Platform)
    → made_platform
        (record { os = os; architecture = canonical_architecture architecture; variant = variant })
      ≡ some p
    → Canonical p
unfolding made_platform
made_platform-Canonical os architecture variant p h = record {
  os_part = ground arith;
  architecture_part = ground arith;
  variant_part = ground arith;
  named = ground (arith, canonical_architecture_idem architecture);
}

platform_of-Canonical :
    (parts : List Text) (p : Platform) → platform_of parts ≡ some p → Canonical p
unfolding platform_of
platform_of-Canonical [] p h = cc
platform_of-Canonical (os ∷ []) p h = cc
platform_of-Canonical (os ∷ architecture ∷ []) p h =
    made_platform-Canonical os architecture [] p (ground arith)
platform_of-Canonical (os ∷ architecture ∷ variant ∷ []) p h =
    made_platform-Canonical os architecture variant p (ground arith)
platform_of-Canonical (os ∷ architecture ∷ variant ∷ more ∷ parts) p h = cc

-- A part is a text that stays as it is, and has no "/".
record Solid (t : Text) : Type 0 where
  plain : all is_plain t ≡ true
  free : has_char b'/' t ≡ false

in_part-Solid : (t : Text) → all in_part t ≡ true → Solid t
in_part-Solid [] h = record { plain = refl; free = refl }
in_part-Solid (c ∷ t) h =
    let rest : Solid t = in_part-Solid t (ground arith) in
    record { plain = ground (arith, rest.plain); free = ground (arith, rest.free) }

is_part-Solid : (t : Text) → is_part t ≡ true → Solid t
unfolding is_part names_part
is_part-Solid [] h = record { plain = refl; free = refl }
is_part-Solid (c ∷ t) h = in_part-Solid (c ∷ t) (ground arith)

is_part-some : (t : Text) → is_part t ≡ true → is_empty t ≡ false
unfolding is_part names_part
is_part-some [] h = ground arith
is_part-some (c ∷ t) h = refl

read_platform-plain :
    (t : Text) → all is_plain t ≡ true → read_platform t ≡ platform_of (split_on b'/' t)
unfolding read_platform
read_platform-plain t h = rw (strip-plain t h, lower-plain t h) refl

module _ (os architecture : Text) (solid_os : Solid os)
    (solid_architecture : Solid architecture) where
  joined-plain : (t : Text) → all is_plain t ≡ true → all is_plain (os ++ (b'/' ∷ t)) ≡ true
  joined-plain t h = ground (arith, all-append is_plain os (b'/' ∷ t), solid_os.plain)

  read_two : read_platform (os ++ (b'/' ∷ architecture)) ≡ platform_of (os ∷ architecture ∷ [])
  read_two =
      rw
        (
          read_platform-plain (os ++ (b'/' ∷ architecture))
              (joined-plain architecture solid_architecture.plain),
          split_on-append b'/' os architecture solid_os.free,
          split_on-whole b'/' architecture solid_architecture.free,
        )
        refl

  read_three :
      (variant : Text)
      → Solid variant
      → read_platform (os ++ (b'/' ∷ (architecture ++ (b'/' ∷ variant))))
        ≡ platform_of (os ∷ architecture ∷ variant ∷ [])
  read_three variant v =
      rw
        (
          read_platform-plain (os ++ (b'/' ∷ (architecture ++ (b'/' ∷ variant)))) (
              joined-plain (architecture ++ (b'/' ∷ variant)) (
                ground (
                  arith,
                  all-append is_plain architecture (b'/' ∷ variant),
                  solid_architecture.plain,
                  v.plain,
                ))),
          split_on-append b'/' os (architecture ++ (b'/' ∷ variant)) solid_os.free,
          split_on-append b'/' architecture variant solid_architecture.free,
          split_on-whole b'/' variant v.free,
        )
        refl

reread :
    (os architecture variant : Text)
    → Canonical (record { os = os; architecture = architecture; variant = variant })
    → read_platform
        (platform_text (record { os = os; architecture = architecture; variant = variant }))
      ≡ some (record { os = os; architecture = architecture; variant = variant })
unfolding platform_text join_with platform_of made_platform
reread os architecture [] c =
    rw
      (
        is_part-some os c.os_part,
        is_part-some architecture c.architecture_part,
        read_two os architecture (is_part-Solid os c.os_part)
            (is_part-Solid architecture c.architecture_part),
        is_part-some os c.os_part,
        is_part-some architecture c.architecture_part,
        c.named,
        c.os_part,
        c.architecture_part,
      )
      refl
reread os architecture (v ∷ variant) c =
    rw
      (
        is_part-some os c.os_part,
        is_part-some architecture c.architecture_part,
        read_three os architecture (is_part-Solid os c.os_part)
            (is_part-Solid architecture c.architecture_part) (v ∷ variant)
            (is_part-Solid (v ∷ variant) c.variant_part),
        is_part-some os c.os_part,
        is_part-some architecture c.architecture_part,
        c.named,
        c.os_part,
        c.architecture_part,
        c.variant_part,
      )
      refl

-- A platform that `Platform.parse` reads of any text is read again from what `str` prints of it.
pub read_platform-platform_text :
    (text : Text) (p : Platform)
    → read_platform text ≡ some p
    → read_platform (platform_text p) ≡ some p
unfolding read_platform
read_platform-platform_text text p h =
    reread p.os p.architecture p.variant
      (platform_of-Canonical (split_on b'/' (lower (strip text))) p h)
