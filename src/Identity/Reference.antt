-- ===== src/Identity/Reference.antt =====
-- dockerls/domain/value_objects/image_reference.py: which registry a reference names, and its
-- repository and tag.
pub mod Laws
use docker_ls.Prelude.{ℕ, List, [], ◌∷◌, ◌++◌, Bool, true, false, ◌||◌, is_empty, if◌then◌else◌}
use docker_ls.Prelude.Text.{Text, codes, contains, lower, strip, text_eq}
use docker_ls.Bases.Reference.{has_char, before_first, after_first, up_to_last, after_last}
use docker_ls.Identity.Parts.{before_last}

-- `_DOCKER_HUB_HOSTS`
abbrev pub docker_hub_hosts : List Text
docker_hub_hosts = codes "docker.io" ∷ codes "index.docker.io" ∷ codes "registry-1.docker.io" ∷ []

-- `is_registry_host`
unfoldable pub is_registry_host : Text → Bool
is_registry_host segment =
    has_char b'.' segment || has_char b':' segment || text_eq (lower segment) (codes "localhost")

-- `registry_host_of` behind its guard, of a name without the digest
unfoldable pub host_in : Text → Text
unfolding is_registry_host
host_in name =
    let head = before_first b'/' name in
    if has_char b'/' name
    then (if is_registry_host head
        then (if contains docker_hub_hosts (lower head) then [] else head)
        else [])
    else []

-- `registry_host_of`
unfoldable pub registry_host_of : Text → Text
unfolding host_in
registry_host_of reference =
    let name = strip reference in if is_empty name then [] else host_in (before_first b'@' name)

-- The registry with its slash, and what stands behind it: `prefix` and `tail`
unfoldable pub prefix_and_tail : Text → Text × Text
unfolding is_registry_host
prefix_and_tail ref =
    let head = before_first b'/' ref in
    if has_char b'/' ref
    then (if is_registry_host head then (head ++ codes "/", after_first b'/' ref) else ([], ref))
    else ([], ref)

-- `split_repository_and_tag`
unfoldable pub split_repository_and_tag : Text → Text × Text
unfolding prefix_and_tail
split_repository_and_tag reference =
    let ref = before_first b'@' reference in
    let (prefix, tail) = prefix_and_tail ref in
    let last = after_last b'/' tail in
    if has_char b':' last
    then (prefix ++ (up_to_last b'/' tail ++ before_last b':' last), after_last b':' last)
    else (ref, [])
