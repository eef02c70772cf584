-- ===== src/Identity/Measured.antt =====
-- dockerls/domain/value_objects/measured_identity.py: what was asked for and what was measured.
use docker_ls.Prelude.{[], ◌∷◌, ◌++◌, Bool, true, false, ◌&&◌, Option, none, if◌then◌else◌}
use docker_ls.Prelude.Text.{Text}
use docker_ls.Identity.Canonical.{
  ImageIdentity, is_digest, made_identity, split_registry_and_repository,
}
use docker_ls.Identity.Platform.{Platform, platform_text}

pub data IdentityStatus : Type 0 where
  confirmed digest_only unresolved platform_mismatch : IdentityStatus

abbrev pub is_confirmed : IdentityStatus → Bool
is_confirmed confirmed = true
is_confirmed _ = false

pub record ImageRefs : Type 0 where
  pub requested : Text
  pub resolved : Text
  pub measured : Text

pub record ResolvedIdentity : Type 0 where
  pub name : Text
  pub tag : Text
  pub platform : Platform
  pub status : IdentityStatus
  pub index_digest : Text
  pub manifest_digest : Text

-- `ResolvedIdentity.confirmed`
unfoldable pub identity_holds : ResolvedIdentity → Bool
unfolding is_digest
identity_holds r = is_confirmed r.status && is_digest r.manifest_digest

-- `resolved_reference`
unfoldable pub resolved_reference : ResolvedIdentity → Text
unfolding identity_holds
resolved_reference r = if identity_holds r then r.name ++ (b'@' ∷ r.manifest_digest) else []

-- `identity`
unfoldable pub resolved_identity : ResolvedIdentity → Option ImageIdentity
unfolding identity_holds split_registry_and_repository made_identity platform_text
resolved_identity r =
    let (registry, repository) = split_registry_and_repository r.name in
    if identity_holds r
    then made_identity (record {
      registry = registry;
      repository = repository;
      digest = r.manifest_digest;
      platform = platform_text r.platform;
    })
    else none

-- `refs`
unfoldable pub refs : ResolvedIdentity → Text → Text → ImageRefs
unfolding resolved_reference
refs r requested measured = record {
  requested = requested;
  resolved = resolved_reference r;
  measured = measured;
}
