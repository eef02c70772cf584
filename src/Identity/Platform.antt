-- ===== src/Identity/Platform.antt =====
-- dockerls/domain/value_objects/platform.py: `os/architecture[/variant]`. `none` is
-- `InvalidPlatformError`.
pub mod Laws
use docker_ls.Prelude.{
  ℕ, List, [], ◌∷◌, Bool, true, false, ◌&&◌, ◌||◌, not, Option, none, some, ◌==◌, leb, all,
  is_empty, filter, length, if◌then◌else◌,
}
use docker_ls.Prelude.Text.{Text, codes, lower, occurs_in, strip, text_eq}
use docker_ls.Identity.Parts.{split_on, join_with}

abbrev pub starts_part : ℕ → Bool
starts_part c = (leb b'a' c && leb c b'z') || (leb b'0' c && leb c b'9')

abbrev pub in_part : ℕ → Bool
in_part c = starts_part c || c == b'_' || c == b'.' || c == b'-'

-- `[a-z0-9][a-z0-9_.-]*`
unfoldable pub names_part : Text → Bool
names_part [] = false
names_part (c ∷ t) = starts_part c && all in_part t

-- `_PART`
unfoldable pub is_part : Text → Bool
unfolding names_part
is_part t = names_part t && leb (length t) 32

-- `_ARCH_ALIASES.get(architecture, architecture)`
unfoldable pub canonical_architecture : Text → Text
canonical_architecture a =
    if text_eq a (codes "x86_64") || text_eq a (codes "x86-64")
    then codes "amd64"
    else if text_eq a (codes "aarch64")
    then codes "arm64"
    else if text_eq a (codes "armhf") || text_eq a (codes "armel")
    then codes "arm"
    else a

pub record Platform : Type 0 where
  pub os : Text
  pub architecture : Text
  pub variant : Text

-- `Platform.__post_init__`
unfoldable pub made_platform : Platform → Option Platform
unfolding is_part
made_platform p =
    if is_part p.os && is_part p.architecture && (is_empty p.variant || is_part p.variant)
    then some p
    else none

-- The two or three parts of `Platform.parse`
unfoldable pub platform_of : List Text → Option Platform
unfolding made_platform canonical_architecture
platform_of (os ∷ architecture ∷ []) =
    if is_empty os || is_empty architecture
    then none
    else made_platform
        (record { os = os; architecture = canonical_architecture architecture; variant = [] })
platform_of (os ∷ architecture ∷ variant ∷ []) =
    if is_empty os || is_empty architecture || is_empty variant
    then none
    else made_platform
        (record { os = os; architecture = canonical_architecture architecture; variant = variant })
platform_of _ = none

-- `Platform.parse`
unfoldable pub read_platform : Text → Option Platform
unfolding platform_of
read_platform text = platform_of (split_on b'/' (lower (strip text)))

-- What the `platform` object of an index entry holds under its three keys; a key that is missing or
-- null is an empty text.
pub record IndexPlatform : Type 0 where
  pub os : Text
  pub architecture : Text
  pub variant : Text

-- `Platform.from_index_entry`; the entry has no object under `platform` where `none` is given.
unfoldable pub from_index_entry : Option IndexPlatform → Option Platform
unfolding made_platform canonical_architecture
from_index_entry none = none
from_index_entry (some raw) =
    let os = lower raw.os in
    let architecture = canonical_architecture (lower raw.architecture) in
    if is_empty os
      || is_empty architecture
      || text_eq os (codes "unknown")
      || text_eq architecture (codes "unknown")
    then none
    else made_platform
        (record { os = os; architecture = architecture; variant = lower raw.variant })

-- `satisfied_by`
unfoldable pub satisfied_by : Platform → Platform → Bool
satisfied_by p candidate =
    (text_eq p.os candidate.os && text_eq p.architecture candidate.architecture)
    && (is_empty p.variant || text_eq p.variant candidate.variant)

-- `default_variant`
unfoldable pub default_variant : Platform → Text
default_variant p =
    if text_eq p.architecture (codes "arm64")
    then codes "v8"
    else if text_eq p.architecture (codes "arm")
    then codes "v7"
    else []

-- `str(platform)`
unfoldable pub platform_text : Platform → Text
platform_text p =
    join_with b'/' (filter (λ part. not (is_empty part)) (p.os ∷ p.architecture ∷ p.variant ∷ []))

-- `DEFAULT_PLATFORM`
abbrev pub default_platform : Platform
default_platform = record { os = codes "linux"; architecture = codes "amd64"; variant = [] }

-- `parse_platform`
unfoldable pub parse_platform : Option Text → Option Platform
unfolding read_platform
parse_platform none = some default_platform
parse_platform (some text) =
    if is_empty (strip text) then some default_platform else read_platform text
