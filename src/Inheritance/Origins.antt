-- ===== src/Inheritance/Origins.antt =====
-- Which origin a finding is given.
use docker_ls.Prelude.{
  ℕ, ◌+◌, ◌≡◌, refl, ap, List, [], ◌∷◌, ◌++◌, map, Bool, true, ◌&&◌, ◌||◌, not, if◌then◌else◌,
  arith,
}
use docker_ls.Prelude.{filter, count}
use docker_ls.Prelude.Text.{Text, text_eq, text_eq_iff, contains}
use docker_ls.Evidence.Vulnerability.{Vulnerability, finding_identity}
use docker_ls.Inheritance.{
  FindingOrigin, inherited, introduced, removed, same_origin, AttributedFinding, Items, has_key,
  put, put_all, by_identity, attributed, attribute,
}

abbrev pub bit : Bool → ℕ
bit b = if b then 1 else 0

abbrev key_count : Items → Text → ℕ
key_count items t = count (λ item. text_eq item.0 t) items

-- Each key once.
abbrev Keyed : Items → Type 0
Keyed items = (t : Text) → key_count items t ≡ bit (has_key items t)

put-has_key :
    (key t : Text) (v : Vulnerability) (items : Items)
    → has_key (put key v items) t ≡ (text_eq key t || has_key items t)
unfolding put
put-has_key key t v [] = ground arith
put-has_key key t v ((k, w) ∷ items) = ground (arith, put-has_key key t v items, text_eq_iff k key)

put-key_count :
    (key t : Text) (v : Vulnerability) (items : Items)
    → key_count (put key v items) t
      ≡ (if has_key items key then key_count items t else bit (text_eq key t) + key_count items t)
unfolding put
put-key_count key t v [] = ground arith
put-key_count key t v ((k, w) ∷ items) = ground (arith, put-key_count key t v items)

text_eq_comm : (s t : Text) → text_eq s t ≡ text_eq t s
text_eq_comm s t = ground (arith, text_eq_iff s t, text_eq_iff t s)

-- A key that is there is the key that is looked for.
has_key_eq : (items : Items) (s t : Text) → text_eq s t ≡ true → has_key items s ≡ has_key items t
has_key_eq items s t e = ap (has_key items) ((text_eq_iff s t).0 e)

put-Keyed : (key : Text) (v : Vulnerability) (items : Items) → Keyed items → Keyed (put key v items)
put-Keyed key v items h t =
    ground
      (arith, put-key_count key t v items, put-has_key key t v items, h t, has_key_eq items key t)

put_all-Keyed :
    (items : Items) (found : List Vulnerability) → Keyed items → Keyed (put_all items found)
unfolding put_all
put_all-Keyed items [] h = h
put_all-Keyed items (v ∷ found) h =
    put_all-Keyed (put (finding_identity v) v items) found
      (put-Keyed (finding_identity v) v items h)

put_all-has_key :
    (items : Items) (found : List Vulnerability) (t : Text)
    → has_key (put_all items found) t ≡ (has_key items t || contains (map finding_identity found) t)
unfolding put_all
put_all-has_key items [] t = ground arith
put_all-has_key items (v ∷ found) t = ground (
  arith,
  put_all-has_key (put (finding_identity v) v items) found t,
  put-has_key (finding_identity v) t v items,
  text_eq_comm t (finding_identity v),
)

by_identity-Keyed : (found : List Vulnerability) → Keyed (by_identity found)
unfolding by_identity
by_identity-Keyed found = put_all-Keyed [] found (λ t. refl)

by_identity-has_key :
    (found : List Vulnerability) (t : Text)
    → has_key (by_identity found) t ≡ contains (map finding_identity found) t
unfolding by_identity
by_identity-has_key found t = put_all-has_key [] found t

-- Whether a finding has an identity and an origin
abbrev pub is_at : Text → FindingOrigin → AttributedFinding → Bool
is_at t o f = text_eq f.identity t && same_origin f.origin o

module _ (t : Text) (o : FindingOrigin) where
  count-append :
      (xs ys : List AttributedFinding)
      → count (is_at t o) (xs ++ ys) ≡ count (is_at t o) xs + count (is_at t o) ys
  count-append [] ys = omega arith
  count-append (x ∷ xs) ys = ground (arith, count-append xs ys)

  -- The findings that one pass makes, where their origin follows from their keys.
  count-attributed :
      (origin_of : Text → FindingOrigin) (items : Items)
      → count (is_at t o) (map (λ item. attributed (origin_of item.0) item) items)
        ≡ (if same_origin (origin_of t) o then key_count items t else 0)
  count-attributed origin_of [] = ground arith
  count-attributed origin_of ((k, v) ∷ items) =
      ground (arith, count-attributed origin_of items, same)
    where
      same : text_eq k t ≡ true → origin_of k ≡ origin_of t
      same e = ap origin_of ((text_eq_iff k t).0 e)

  key_count-filter :
      (keep : Text → Bool) (items : Items)
      → key_count (filter (λ item. keep item.0) items) t ≡ (if keep t then key_count items t else 0)
  key_count-filter keep [] = ground arith
  key_count-filter keep ((k, v) ∷ items) = ground (arith, key_count-filter keep items, same)
    where
      same : text_eq k t ≡ true → keep k ≡ keep t
      same e = ap keep ((text_eq_iff k t).0 e)

-- Whether an identity has an origin, told from whether the build and the base report it.
abbrev pub has_origin : FindingOrigin → Bool → Bool → Bool
has_origin inherited built base = built && base
has_origin introduced built base = built && not base
has_origin removed built base = not built && base

-- A report holds each identity once for the origin that it has, and never for another: inherited
-- where both scans report it, introduced where only the build's does, removed where only the base's
-- does.
pub attribute-count :
    (built base : List Vulnerability) (t : Text) (o : FindingOrigin)
    → count (is_at t o) (attribute built base)
      ≡ bit (
          has_origin o
            (contains (map finding_identity built) t)
            (contains (map finding_identity base) t))
unfolding attribute
attribute-count built base t o =
    let present = by_identity built in
    let before = by_identity base in
    rw
      (
        count-append t o,
        count-attributed t o (λ k. if has_key before k then inherited else introduced) present,
        count-attributed t o (λ k. removed) (filter (λ item. not (has_key present item.0)) before),
        key_count-filter t o (λ k. not (has_key present k)) before,
        by_identity-Keyed built t,
        by_identity-Keyed base t,
        by_identity-has_key built t,
        by_identity-has_key base t,
      )
      (ground arith)
