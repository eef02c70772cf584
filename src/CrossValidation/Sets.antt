-- ===== src/CrossValidation/Sets.antt =====
-- Python's sets of texts as lists of distinct elements.
use docker_ls.Prelude.{◌≡◌, ◌↔◌, inl, inr, refl, List, [], ◌∷◌, true}
use docker_ls.Prelude.{In, filter, not, is_empty, arith, if◌then◌else◌, Bool-cases}
use docker_ls.Prelude.Text.{Text, text_eq_iff, contains}

-- `set(xs)`: the last occurrence of each element is kept.
unfoldable pub distinct : List Text → List Text
distinct [] = []
distinct (x ∷ xs) = let rest = distinct xs in if contains rest x then rest else x ∷ rest

-- `xs - ys`
unfoldable pub minus : List Text → List Text → List Text
minus xs ys = filter (λ x. not (contains ys x)) xs

pub contains_iff : (xs : List Text) (x : Text) → (contains xs x ≡ true) ↔ In x xs
contains_iff [] x = (λ e. cc, λ m. absurd m)
contains_iff (y ∷ ys) x = (
  λ e. ground (arith, (text_eq_iff x y).0, (contains_iff ys x).0),
  λ m. ground (arith, (text_eq_iff x y).1, (contains_iff ys x).1),
)

-- The difference is empty exactly when it is a subset.
pub is_empty-minus :
    (xs ys : List Text) → (is_empty (minus xs ys) ≡ true) ↔ ((x : Text) → In x xs → In x ys)
unfolding minus
is_empty-minus [] ys = (λ _ x m. absurd m, λ _. refl)
is_empty-minus (x ∷ xs) ys = elim (Bool-cases (contains ys x)) [
  | inl there ↦ rw there (
    λ e a m. elim m [
      | inl same ↦ rw same ((contains_iff ys x).0 there)
      | inr later ↦ (is_empty-minus xs ys).0 e a later
    ],
    λ sub. (is_empty-minus xs ys).1 (λ a m. sub a (inr m)),
  )
  | inr missing ↦ rw missing (λ e. cc, λ sub. cc ((contains_iff ys x).1 (sub x (inl refl))))
]
