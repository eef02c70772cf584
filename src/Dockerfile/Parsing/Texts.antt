-- ===== src/Dockerfile/Parsing/Texts.antt =====
-- The texts that `DockerfileParser` reads: references, names of secrets, users.
use docker_ls.Prelude.{
  ℕ, ◌+◌, ◌*◌, ◌-◌, List, [], ◌∷◌, ◌++◌, Bool, false, ◌&&◌, ◌||◌, not, is_empty, any, all, filter,
  length, Option, none, some, if◌then◌else◌, ltb, leb, ◌==◌,
}
use docker_ls.Prelude.Text.{Text, codes, contains, is_space, lower, occurs_in, starts_with, text_eq}
use docker_ls.Bases.Reference.{before_first, after_first}
use docker_ls.Identity.Reference.{split_repository_and_tag}

-- `str.split`
abbrev pub onto_word : ℕ → List Text → List Text
onto_word c [] = (c ∷ []) ∷ []
onto_word c (w ∷ words) = (c ∷ w) ∷ words

abbrev pub split_spaces : Text → List Text
split_spaces [] = [] ∷ []
split_spaces (c ∷ t) =
    let words = split_spaces t in if is_space c then [] ∷ words else onto_word c words

abbrev pub split_words : Text → List Text
split_words t = filter (λ w. not (is_empty w)) (split_spaces t)

abbrev pub without_flags : Text → List Text
without_flags image = filter (λ p. not (starts_with p (codes "--"))) (split_words image)

abbrev pub last_or : Text → List Text → Text
last_or t [] = t
last_or t (w ∷ words) = last_or w words

-- `_from_reference`
unfoldable pub from_reference : Text → Text
from_reference image = last_or image (without_flags image)

-- `_is_scratch`
unfoldable pub is_scratch : Text → Bool
is_scratch image = text_eq (lower (last_or [] (without_flags image))) (codes "scratch")

abbrev pub first_or_blank : List Text → Text
first_or_blank [] = []
first_or_blank (w ∷ words) = w

-- `_is_moving_reference`
unfoldable pub is_moving_reference : Text → Bool
is_moving_reference image =
    let reference = first_or_blank (without_flags image) in
    let tag = (split_repository_and_tag reference).1 in
    if is_empty reference || occurs_in (codes "$") reference
    then false
    else if occurs_in (codes "@sha256:") reference
    then false
    else is_empty tag || text_eq (lower tag) (codes "latest")

-- The parts of the names that `SECRET_ENV_PATTERNS` match
abbrev pub secret_parts : List Text
secret_parts =
    codes "password"
    ∷ codes "passwd"
    ∷ codes "secret"
    ∷ codes "token"
    ∷ codes "apikey"
    ∷ codes "api_key"
    ∷ codes "api-key"
    ∷ codes "auth"
    ∷ codes "credential"
    ∷ codes "privatekey"
    ∷ codes "private_key"
    ∷ codes "private-key"
    ∷ codes "accesskey"
    ∷ codes "access_key"
    ∷ codes "access-key"
    ∷ []

-- `_is_secret_name`
unfoldable pub is_secret_name : Text → Bool
is_secret_name name = any (λ part. occurs_in part (lower name)) secret_parts

-- `if x not in xs: xs.append(x)`
unfoldable pub append_new : Text → List Text → List Text
append_new t ts = if contains ts t then ts else ts ++ (t ∷ [])

unfoldable pub append_all_new : List Text → List Text → List Text
unfolding append_new
append_all_new [] ts = ts
append_all_new (t ∷ new) ts = append_all_new new (append_new t ts)

abbrev pub is_digit : ℕ → Bool
is_digit c = leb b'0' c && leb c b'9'

abbrev pub skip_zeros : Text → Text
skip_zeros [] = []
skip_zeros (c ∷ t) = let rest = skip_zeros t in if c == b'0' then rest else c ∷ t

-- `int` of digits, behind the value of those before
abbrev pub int_from : ℕ → Text → ℕ
int_from n [] = n
int_from n (c ∷ t) = int_from (10 * n + (c - b'0')) t

abbrev pub max_uid : ℕ
max_uid = 4294967295

-- `_bounded_int(digits, _MAX_UID)`: ten digits write the maximum.
unfoldable pub bounded_uid : Text → Option ℕ
bounded_uid digits =
    let normalized = skip_zeros digits in
    if ltb 10 (length normalized)
    then none
    else if leb (int_from 0 normalized) max_uid
    then some (int_from 0 normalized)
    else none

-- The user and the uid of a `USER`: its first group takes the whole word, so that the second one
-- matches nothing.
unfoldable pub user_of : Text → Text × Option ℕ
unfolding bounded_uid
user_of word =
    let group = after_first b':' word in
    (
      before_first b':' word,
      if not (is_empty group) && all is_digit group then bounded_uid group else none,
    )
