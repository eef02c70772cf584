-- ===== src/Examples/Identity.antt =====
-- Names of images, as the code reads them.
use docker_ls.Prelude.{◌≡◌, refl, [], ◌∷◌, ◌++◌, true, false, some, if◌then◌else◌, is_empty}
use docker_ls.Prelude.Text.{Text, codes, lower, lstrip, rstrip, strip, text_eq}
use docker_ls.Bases.Reference.{has_char, before_first, after_first, up_to_last, after_last}
use docker_ls.Evidence.Image.{DockerImage}
use docker_ls.Identity.Parts.{split_on, before_last}
use docker_ls.Identity.Reference.{
  host_in, is_registry_host, prefix_and_tail, registry_host_of, split_repository_and_tag,
}
use docker_ls.Identity.Reference.Laws.{registry_host_of_lem, split_repository_and_tag_lem}
use docker_ls.Identity.Platform.{
  Platform, read_platform, platform_text, platform_of, made_platform, is_part, names_part,
  canonical_architecture,
}
use docker_ls.Identity.Platform.Laws.{read_platform-platform_text}
use docker_ls.Identity.Canonical.{
  ImageIdentity, docker_hub, try_from_image, split_registry_and_repository, named_registry,
  canonical_registry, identity_fields, made_identity, is_digest, is_platform,
}
use docker_ls.Identity.Canonical.Laws.{cache_material_inj}
use docker_ls.Examples.Data.{python_slim}

host_read : registry_host_of (codes "GHCR.io/team/app:1.2") ≡ codes "GHCR.io"
unfolding registry_host_of host_in is_registry_host strip lstrip rstrip before_first lower text_eq
host_read = refl

port_is_no_tag :
    split_repository_and_tag (codes "localhost:5000/team/app@sha256:0")
    ≡ (codes "localhost:5000/team/app", [])
unfolding split_repository_and_tag prefix_and_tail is_registry_host before_first after_first
    after_last up_to_last before_last lower text_eq
port_is_no_tag = refl

tag_read :
    split_repository_and_tag (codes "localhost:5000/team/app:1.2")
    ≡ (codes "localhost:5000/team/app", codes "1.2")
unfolding split_repository_and_tag prefix_and_tail is_registry_host before_first after_first
    after_last up_to_last before_last lower text_eq
tag_read = refl

filed :
    split_registry_and_repository (codes "Index.Docker.io/Node")
    ≡ (codes "docker.io", codes "library/node")
unfolding split_registry_and_repository named_registry canonical_registry is_registry_host
    before_first after_first lower text_eq
filed = refl

registry_host_of_lem_example :
    let name : Text = codes "GHCR.io/team/app" in
    ((split_registry_and_repository name).0
      ≡ (if is_empty (registry_host_of name) then docker_hub else lower (registry_host_of name)))
    × (is_empty (registry_host_of name) ≡ false
        → registry_host_of name ++ (b'/' ∷ after_first b'/' name) ≡ name)
registry_host_of_lem_example =
    registry_host_of_lem (codes "GHCR.io/team/app") (unfold strip lstrip rstrip in refl) refl

split_repository_and_tag_lem_example :
    let reference : Text = codes "localhost:5000/team/app:1.2@sha256:0" in
    let ref = before_first b'@' reference in
    let (repository, tag) = split_repository_and_tag reference in
    (has_char b'/' tag ≡ false)
    × (has_char b':' tag ≡ false)
    × (has_char b':' (after_last b'/' ref) ≡ true → repository ++ (b':' ∷ tag) ≡ ref)
    × (has_char b':' (after_last b'/' ref) ≡ false → (repository ≡ ref) × (tag ≡ []))
split_repository_and_tag_lem_example =
    split_repository_and_tag_lem (codes "localhost:5000/team/app:1.2@sha256:0")

abbrev arm : Platform
arm = record { os = codes "linux"; architecture = codes "arm64"; variant = codes "v8" }

arm_read : read_platform (codes " Linux/AArch64/v8 ") ≡ some arm
unfolding read_platform platform_of made_platform is_part names_part canonical_architecture split_on
    strip lstrip rstrip lower text_eq
arm_read = refl

read_platform-platform_text_example : read_platform (platform_text arm) ≡ some arm
read_platform-platform_text_example =
    read_platform-platform_text (codes " Linux/AArch64/v8 ") arm arm_read

abbrev digest : Text
digest = codes "sha256:0123456789abcdef0123456789abcdef0123456789abcdef0123456789abcdef"

abbrev pinned_python : DockerImage
pinned_python = record python_slim { digest = digest; name = codes "Python" }

abbrev identity : ImageIdentity
identity = record {
  registry = codes "docker.io";
  repository = codes "library/python";
  digest = digest;
  platform = codes "linux/amd64";
}

identity_made : try_from_image pinned_python ≡ some identity
unfolding try_from_image identity_fields made_identity split_registry_and_repository named_registry
    canonical_registry is_digest is_platform is_registry_host names_part split_on before_first
    after_first lower text_eq
identity_made = refl

identity_of_slim :
    try_from_image (record pinned_python { name = codes "index.docker.io/python" }) ≡ some identity
unfolding try_from_image identity_fields made_identity split_registry_and_repository named_registry
    canonical_registry is_digest is_platform is_registry_host names_part split_on before_first
    after_first lower text_eq
identity_of_slim = refl

cache_material_inj_example : identity ≡ identity
cache_material_inj_example =
    cache_material_inj pinned_python
      (record pinned_python { name = codes "index.docker.io/python" }) identity identity
      identity_made identity_of_slim refl
