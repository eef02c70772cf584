-- ===== src/Evidence/Image.antt =====
-- dockerls/domain/entities/image.py: an image as the catalogue and the registry describe it. Times
-- are microseconds; `now` is the clock that `age_days` reads.
use docker_ls.Prelude.{ℕ, ◌++◌, ◌-◌, ◌/◌, [], ◌∷◌, Bool, ◌&&◌, ◌||◌, Option, none, some}
use docker_ls.Prelude.{any, is_empty, not, leb, if◌then◌else◌, true, false}
use docker_ls.Prelude.Text.{Text, codes, lower, occurs_in, text_eq}

pub record DockerImage : Type 0 where
  pub name : Text
  pub tag : Text
  pub digest : Text
  pub last_updated : Option ℕ
  pub is_official : Bool
  pub is_signed : Bool
  pub full_reference : Text
  pub identity_status : Text
  pub architecture : Text
  pub os : Text
  pub platform : Text

-- `model_post_init`: a reference that was not given is made of the name and the tag.
unfoldable pub with_reference : DockerImage → DockerImage
with_reference i =
    if is_empty i.full_reference
    then record i { full_reference = i.name ++ (codes ":" ++ i.tag) }
    else i

-- `pinned_reference`
unfoldable pub pinned_reference : DockerImage → Text
pinned_reference i =
    if is_empty i.digest then i.full_reference else i.name ++ (codes "@" ++ i.digest)

-- `identity_confirmed`
unfoldable pub identity_confirmed : DockerImage → Bool
unfolding text_eq
identity_confirmed i = text_eq i.identity_status (codes "CONFIRMED") && not (is_empty i.digest)

-- `age_known`
abbrev pub age_known : DockerImage → Bool
age_known i = elim i.last_updated [ none ↦ false | some _ ↦ true ]

abbrev microseconds_per_day : ℕ
microseconds_per_day = 86400000000

-- `age_days`; a date in the future has a negative number of days, which `max(0, …)` makes 0.
unfoldable pub age_days : ℕ → DockerImage → ℕ
age_days now i = elim i.last_updated [
  | none ↦ 365
  | some published ↦ (now - published) / microseconds_per_day
]

-- `is_alpine`
unfoldable pub is_alpine : DockerImage → Bool
unfolding lower occurs_in
is_alpine i = occurs_in (codes "alpine") (lower i.tag)

-- `is_distroless`
unfoldable pub is_distroless : DockerImage → Bool
unfolding lower occurs_in
is_distroless i =
    occurs_in (codes "distroless") (lower i.tag) || occurs_in (codes "distroless") (lower i.name)

-- `is_hardened_source`
unfoldable pub is_hardened_source : DockerImage → Bool
unfolding lower occurs_in
is_hardened_source i =
    any (λ marker. occurs_in marker (lower i.name))
      (codes "chainguard" ∷ codes "cgr.dev" ∷ codes "wolfi" ∷ codes "bitnami" ∷ [])

-- `recently_updated`
unfoldable pub recently_updated : ℕ → DockerImage → Bool
unfolding age_days
recently_updated now i = leb (age_days now i) 30
