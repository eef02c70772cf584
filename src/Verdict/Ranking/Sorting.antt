-- ===== src/Verdict/Ranking/Sorting.antt =====
-- A stable sort, best first, and lexicographic comparison.
use docker_ls.Prelude.{ℕ, ◌≡◌, refl, ◌⊎◌, inl, inr, List, [], ◌∷◌, Bool, true, false, arith, ltb}
use docker_ls.Prelude.{All, AllPairs, count, filter, if◌then◌else◌, Bool-cases}

-- Compare by x ≤ y, and where the two are equal by what follows.
abbrev pub first_then : ℕ → ℕ → Bool → Bool
first_then x y rest = if ltb x y then true else if ltb y x then false else rest

pub first_then_trans :
    (x y z : ℕ) (r s t : Bool)
    → (r ≡ true → s ≡ true → t ≡ true)
    → first_then x y r ≡ true
    → first_then y z s ≡ true
    → first_then x z t ≡ true
first_then_trans x y z r s t keep p q = ground arith

pub first_then_total :
    (x y : ℕ) (r s : Bool)
    → (r ≡ true) ⊎ (s ≡ true)
    → (first_then x y r ≡ true) ⊎ (first_then y x s ≡ true)
first_then_total x y r s h = ground arith

module _ {A : Type 0} (at_least : A → A → Bool) where
  -- Into a sorted list, in front of the elements that are equal to it.
  unfoldable pub insert_by : A → List A → List A
  insert_by x [] = x ∷ []
  insert_by x (y ∷ ys) = let rest = insert_by x ys in if at_least x y then x ∷ y ∷ ys else y ∷ rest

  unfoldable pub sort_by : List A → List A
  unfolding insert_by
  sort_by [] = []
  sort_by (x ∷ xs) = insert_by x (sort_by xs)

  pub count-insert_by :
      (p : A → Bool) (x : A) (ys : List A) → count p (insert_by x ys) ≡ count p (x ∷ ys)
  unfolding insert_by
  count-insert_by p x [] = refl
  count-insert_by p x (y ∷ ys) = ground (arith, count-insert_by p x ys)

  pub count-sort_by : (p : A → Bool) (xs : List A) → count p (sort_by xs) ≡ count p xs
  unfolding sort_by
  count-sort_by p [] = refl
  count-sort_by p (x ∷ xs) = ground (arith, count-insert_by p x (sort_by xs), count-sort_by p xs)

  module _ (total : (a b : A) → (at_least a b ≡ true) ⊎ (at_least b a ≡ true))
      (trans : (a b c : A) → at_least a b ≡ true → at_least b c ≡ true → at_least a c ≡ true) where
    All-below :
        (x y : A) (ys : List A)
        → at_least x y ≡ true
        → All (λ z. at_least y z ≡ true) ys
        → All (λ z. at_least x z ≡ true) ys
    All-below x y [] h a = tt
    All-below x y (z ∷ zs) h (b, bs) = (trans x y z h b, All-below x y zs h bs)

    All-insert_by :
        (a x : A) (ys : List A)
        → at_least a x ≡ true
        → All (λ z. at_least a z ≡ true) ys
        → All (λ z. at_least a z ≡ true) (insert_by x ys)
    unfolding insert_by
    All-insert_by a x [] h k = (h, tt)
    All-insert_by a x (y ∷ ys) h (k, ks) = elim (Bool-cases (at_least x y)) [
      | inl e ↦ rw e (h, (k, ks))
      | inr e ↦ rw e (k, All-insert_by a x ys h ks)
    ]

    pub AllPairs-insert_by :
        (x : A) (ys : List A)
        → AllPairs (λ a b. at_least a b ≡ true) ys
        → AllPairs (λ a b. at_least a b ≡ true) (insert_by x ys)
    unfolding insert_by
    AllPairs-insert_by x [] s = (tt, tt)
    AllPairs-insert_by x (y ∷ ys) (b, s) = elim (Bool-cases (at_least x y)) [
      | inl e ↦ rw e ((e, All-below x y ys e b), (b, s))
      | inr e ↦
          let back : at_least y x ≡ true = elim (total x y) [ inl f ↦ cc | inr f ↦ f ] in
          rw e (All-insert_by y x ys back b, AllPairs-insert_by x ys s)
    ]

    pub AllPairs-sort_by : (xs : List A) → AllPairs (λ a b. at_least a b ≡ true) (sort_by xs)
    unfolding sort_by
    AllPairs-sort_by [] = tt
    AllPairs-sort_by (x ∷ xs) = AllPairs-insert_by x (sort_by xs) (AllPairs-sort_by xs)

  -- Elements that a predicate selects and that are equal in rank keep their order.
  filter-insert_by :
      (p : A → Bool) (x : A) (ys : List A)
      → ((a b : A) → p a ≡ true → p b ≡ true → at_least a b ≡ true)
      → filter p (insert_by x ys) ≡ filter p (x ∷ ys)
  unfolding insert_by
  filter-insert_by p x [] same = refl
  filter-insert_by p x (y ∷ ys) same = ground (arith, filter-insert_by p x ys same, same x y)

  pub filter-sort_by :
      (p : A → Bool) (xs : List A)
      → ((a b : A) → p a ≡ true → p b ≡ true → at_least a b ≡ true)
      → filter p (sort_by xs) ≡ filter p xs
  unfolding sort_by
  filter-sort_by p [] same = refl
  filter-sort_by p (x ∷ xs) same =
      ground (arith, filter-insert_by p x (sort_by xs) same, filter-sort_by p xs same)
