-- ===== src/Identity/Canonical/Laws.antt =====
-- What is filed under one key is one image for one platform.
use mathlib.Core.List.{append_assoc}
use docker_ls.Prelude.{
  ◌≡◌, refl, sym, ap, ◌∙◌, List, [], ◌∷◌, ◌++◌, true, false, some, all, length, drop, arith,
}
use docker_ls.Prelude.Text.{Text, codes, lower, starts_with}
use docker_ls.Bases.Reference.{has_char, before_first, after_first, after_last}
use docker_ls.Bases.Reference.Laws.{
  has_char-append, has_char-before_first, before_first-append, after_first-append,
}
use docker_ls.Evidence.Image.{DockerImage}
use docker_ls.Identity.Parts.{split_on, join_with, before_last}
use docker_ls.Identity.Parts.Laws.{join_with-split_on, before_last-append, after_last-behind}
use docker_ls.Identity.Platform.{names_part, in_part}
use docker_ls.Identity.Canonical.{
  named_registry, canonical_registry, split_registry_and_repository, is_hex, is_digest, is_platform,
  ImageIdentity, made_identity, identity_fields, try_from_image, cache_material,
}

-- The fields of an identity hold none of the separators that they are told apart by.
record Separable (i : ImageIdentity) : Type 0 where
  registry_free : has_char b'/' i.registry ≡ false
  digest_free : has_char b'@' i.digest ≡ false
  platform_free : has_char b'#' i.platform ≡ false

named_registry-free : (name : Text) → has_char b'/' (named_registry name).0 ≡ false
unfolding named_registry
named_registry-free name = ground (arith, has_char-before_first b'/' name)

canonical_registry-free :
    (r : Text) → has_char b'/' r ≡ false → has_char b'/' (canonical_registry r) ≡ false
unfolding canonical_registry
canonical_registry-free r h = ground arith

registry-free : (name : Text) → has_char b'/' (split_registry_and_repository name).0 ≡ false
unfolding split_registry_and_repository
registry-free name =
    let free : has_char b'/' (canonical_registry (named_registry (lower name)).0) ≡ false =
      canonical_registry-free (named_registry (lower name)).0 (named_registry-free (lower name)) in
    ground (arith, free)

all-hex_free : (t : Text) → all is_hex t ≡ true → has_char b'@' t ≡ false
all-hex_free [] h = refl
all-hex_free (c ∷ t) h = ground (arith, all-hex_free t)

starts_with-split : (t p : Text) → starts_with t p ≡ true → t ≡ p ++ drop (length p) t
starts_with-split t [] h = refl
starts_with-split [] (c ∷ p) h = cc
starts_with-split (d ∷ t) (c ∷ p) h = ground (arith, starts_with-split t p)

is_digest-free : (t : Text) → is_digest t ≡ true → has_char b'@' t ≡ false
unfolding is_digest
is_digest-free t h =
    let shape : t ≡ codes "sha256:" ++ drop 7 t =
      starts_with-split t (codes "sha256:") (ground arith) in
    ap (has_char b'@') shape
    ∙ (has_char-append b'@' (codes "sha256:") (drop 7 t) ∙ all-hex_free (drop 7 t) (ground arith))

in_part-free : (t : Text) → all in_part t ≡ true → has_char b'#' t ≡ false
in_part-free [] h = refl
in_part-free (c ∷ t) h = ground (arith, in_part-free t)

names_part-free : (t : Text) → names_part t ≡ true → has_char b'#' t ≡ false
unfolding names_part
names_part-free [] h = refl
names_part-free (c ∷ t) h = ground (arith, in_part-free t)

join_with-free :
    (parts : List Text) → all names_part parts ≡ true → has_char b'#' (join_with b'/' parts) ≡ false
unfolding join_with
join_with-free [] h = refl
join_with-free (part ∷ []) h = names_part-free part (ground arith)
join_with-free (part ∷ next ∷ parts) h = ground (
  arith,
  has_char-append b'#' part (b'/' ∷ join_with b'/' (next ∷ parts)),
  names_part-free part,
  join_with-free (next ∷ parts),
)

is_platform-free : (t : Text) → is_platform t ≡ true → has_char b'#' t ≡ false
unfolding is_platform
is_platform-free t h =
    ap (has_char b'#') (sym (join_with-split_on b'/' t))
    ∙ join_with-free (split_on b'/' t) (ground arith)

made_identity-Separable :
    (i j : ImageIdentity)
    → has_char b'/' i.registry ≡ false
    → made_identity i ≡ some j
    → Separable j
unfolding made_identity
made_identity-Separable i j h made =
    let whole : i ≡ j = ground arith in
    let digest : is_digest i.digest ≡ true = ground arith in
    let platform : is_platform i.platform ≡ true = ground arith in
    rw (← whole) (record {
      registry_free = h;
      digest_free = is_digest-free i.digest digest;
      platform_free = is_platform-free i.platform platform;
    })

try_from_image-Separable :
    (image : DockerImage) (i : ImageIdentity) → try_from_image image ≡ some i → Separable i
unfolding try_from_image identity_fields
try_from_image-Separable image i h =
    made_identity-Separable (identity_fields image) i (registry-free image.name) h

decoded : Text → ImageIdentity
decoded t =
    let pinned = before_last b'#' t in
    let name = before_last b'@' pinned in
    record {
      registry = before_first b'/' name;
      repository = after_first b'/' name;
      digest = after_last b'@' pinned;
      platform = after_last b'#' t;
    }

module _ (i : ImageIdentity) (s : Separable i) where
  open s use {registry_free, digest_free, platform_free}

  abbrev name : Text
  name = i.registry ++ (b'/' ∷ i.repository)

  abbrev pinned : Text
  pinned = name ++ (b'@' ∷ i.digest)

  cache_material-parts : cache_material i ≡ pinned ++ (b'#' ∷ i.platform)
  unfolding cache_material
  cache_material-parts =
      sym (append_assoc i.registry (b'/' ∷ i.repository) (b'@' ∷ (i.digest ++ (b'#' ∷ i.platform))))
      ∙ sym (append_assoc name (b'@' ∷ i.digest) (b'#' ∷ i.platform))

  decoded-cache_material : decoded (cache_material i) ≡ i
  unfolding decoded
  decoded-cache_material =
      rw
        (
          cache_material-parts,
          before_last-append b'#' i.platform platform_free pinned,
          after_last-behind b'#' i.platform platform_free pinned,
          before_last-append b'@' i.digest digest_free name,
          after_last-behind b'@' i.digest digest_free name,
          before_first-append b'/' i.registry i.repository registry_free,
          after_first-append b'/' i.registry i.repository registry_free,
        )
        refl

-- Two images that have identities with the same cache material have the same identity: the same
-- registry, repository, digest and platform.
pub cache_material_inj :
    (a b : DockerImage) (i j : ImageIdentity)
    → try_from_image a ≡ some i
    → try_from_image b ≡ some j
    → cache_material i ≡ cache_material j
    → i ≡ j
cache_material_inj a b i j ha hb same =
    sym (decoded-cache_material i (try_from_image-Separable a i ha))
    ∙ (ap decoded same ∙ decoded-cache_material j (try_from_image-Separable b j hb))
