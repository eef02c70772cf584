-- ===== src/Identity/Canonical.antt =====
-- dockerls/domain/value_objects/image_identity.py: what an image is filed under. `none` is the
-- `ValueError` of `__post_init__`.
pub mod Laws
use docker_ls.Prelude.{
  ℕ, List, [], ◌∷◌, ◌++◌, Bool, true, false, ◌&&◌, ◌||◌, not, Option, none, some, ◌==◌, leb, all,
  is_empty, length, if◌then◌else◌,
}
use docker_ls.Prelude.Text.{Text, codes, lower, starts_with, text_eq}
use docker_ls.Prelude.{drop}
use docker_ls.Bases.Reference.{has_char, before_first, after_first}
use docker_ls.Evidence.Image.{DockerImage}
use docker_ls.Identity.Parts.{split_on}
use docker_ls.Identity.Platform.{names_part}
use docker_ls.Identity.Reference.{is_registry_host}

-- `DOCKER_HUB_REGISTRY`
abbrev pub docker_hub : Text
docker_hub = codes "docker.io"

-- The registry as it stands in the name, and what stands behind it
unfoldable pub named_registry : Text → Text × Text
unfolding is_registry_host
named_registry name =
    let head = before_first b'/' name in
    if has_char b'/' name
    then (if is_registry_host head then (head, after_first b'/' name) else (docker_hub, name))
    else (docker_hub, name)

unfoldable pub canonical_registry : Text → Text
canonical_registry registry =
    if text_eq registry (codes "index.docker.io") || text_eq registry (codes "registry-1.docker.io")
    then docker_hub
    else registry

-- `split_registry_and_repository`
unfoldable pub split_registry_and_repository : Text → Text × Text
unfolding named_registry canonical_registry
split_registry_and_repository name =
    let (named, repository) = named_registry (lower name) in
    let registry = canonical_registry named in
    if text_eq registry docker_hub && not (has_char b'/' repository)
    then (registry, codes "library/" ++ repository)
    else (registry, repository)

abbrev pub is_hex : ℕ → Bool
is_hex c = (leb b'a' c && leb c b'f') || (leb b'0' c && leb c b'9')

-- `_DIGEST`
unfoldable pub is_digest : Text → Bool
is_digest t = starts_with t (codes "sha256:") && (all is_hex (drop 7 t) && length (drop 7 t) == 64)

pub record ImageIdentity : Type 0 where
  pub registry : Text
  pub repository : Text
  pub digest : Text
  pub platform : Text

-- `len(parts) in (2, 3)`, and each of them is a `_PLATFORM_PART`
unfoldable pub is_platform : Text → Bool
is_platform platform =
    let parts = split_on b'/' platform in
    (length parts == 2 || length parts == 3) && all names_part parts

-- `ImageIdentity.__post_init__`
unfoldable pub made_identity : ImageIdentity → Option ImageIdentity
unfolding is_digest is_platform
made_identity i =
    if is_empty i.registry || is_empty i.repository
    then none
    else if not (is_digest i.digest)
    then none
    else if not (is_platform i.platform)
    then none
    else some i

-- What `from_image` gives the constructor
unfoldable pub identity_fields : DockerImage → ImageIdentity
unfolding split_registry_and_repository
identity_fields i =
    let (registry, repository) = split_registry_and_repository i.name in
    record {
      registry = registry;
      repository = repository;
      digest = lower i.digest;
      platform =
          lower (if is_empty i.platform then i.os ++ (b'/' ∷ i.architecture) else i.platform);
    }

-- `try_from_image`; `from_image` raises where it gives `none`.
unfoldable pub try_from_image : DockerImage → Option ImageIdentity
unfolding identity_fields made_identity
try_from_image i = made_identity (identity_fields i)

-- `cache_material`
unfoldable pub cache_material : ImageIdentity → Text
cache_material i =
    i.registry ++ (b'/' ∷ (i.repository ++ (b'@' ∷ (i.digest ++ (b'#' ∷ i.platform)))))
