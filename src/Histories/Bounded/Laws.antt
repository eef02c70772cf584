-- ===== src/Histories/Bounded/Laws.antt =====
-- What is kept of any sequence of observations that are pushed one after another.
use Prim.Native.Nat.{ℕ, zero, suc, ◌+◌, ◌-◌, ◌≤◌, ◌<◌}
use docker_ls.Prelude.{
  ◌≡◌, refl, sym, inl, inr, ap, ◌∙◌, List, [], ◌∷◌, ◌++◌, true, false, some, arith, ltb, length,
  drop, length-append, Bool-cases,
}
use docker_ls.Histories.Bounded.{max_observations, last_n, last_of, pruned, push}

-- The first of the observations and the last 23 of the others
unfoldable pub bounded : {A : Type 0} → List A → List A
bounded [] = []
bounded (x ∷ xs) = x ∷ last_n (max_observations - 1) xs

-- How many that leaves out
unfoldable pub overflow : {A : Type 0} → List A → ℕ
overflow xs = length xs - max_observations

module _ {A : Type 0} where
  drop_append : (n : ℕ) (xs ys : List A) → n ≤ length xs → drop n (xs ++ ys) ≡ drop n xs ++ ys
  drop_append zero xs ys h = refl
  drop_append (suc n) [] ys h = absurd (omega arith)
  drop_append (suc n) (x ∷ xs) ys h = drop_append n xs ys (omega arith)

  drop_tail : (n : ℕ) (x : A) (xs : List A) → drop (suc n) (x ∷ xs) ≡ drop n xs
  drop_tail n x xs = refl

  drop_more : (n : ℕ) (xs : List A) → drop 1 (drop n xs) ≡ drop (suc n) xs
  drop_more zero xs = refl
  drop_more (suc n) [] = refl
  drop_more (suc n) (x ∷ xs) = drop_more n xs

  length-drop : (n : ℕ) (xs : List A) → length (drop n xs) ≡ length xs - n
  length-drop zero xs = omega arith
  length-drop (suc n) [] = omega arith
  length-drop (suc n) (x ∷ xs) = omega (arith, length-drop n xs)

  pub last_n-whole : (n : ℕ) (xs : List A) → length xs ≤ n → last_n n xs ≡ xs
  unfolding last_n
  last_n-whole n xs h = let e : length xs - n ≡ 0 = omega arith in rw e refl

  length-last_n : (n : ℕ) (xs : List A) → n ≤ length xs → length (last_n n xs) ≡ n
  unfolding last_n
  length-last_n n xs h = omega (arith, length-drop (length xs - n) xs)

  -- One more at the end drops one from the front.
  last_n-snoc :
      (n : ℕ) (xs : List A) (y : A)
      → 1 ≤ n
      → n ≤ length xs
      → last_n n (xs ++ (y ∷ [])) ≡ drop 1 (last_n n xs) ++ (y ∷ [])
  unfolding last_n
  last_n-snoc n xs y h k =
      let e : length (xs ++ (y ∷ [])) - n ≡ suc (length xs - n) =
        omega (arith, length-append xs (y ∷ [])) in
      rw e (
        drop_append (suc (length xs - n)) xs (y ∷ []) (omega arith)
        ∙ ap (λ d. d ++ (y ∷ [])) (sym (drop_more (length xs - n) xs)))

  pruned-snoc :
      (x : A) (d : List A) (y : A)
      → length d ≡ max_observations - 1
      → pruned ((x ∷ d) ++ (y ∷ [])) ≡ x ∷ (drop 1 d ++ (y ∷ []))
  unfolding last_n
  pruned-snoc x d y h =
      let e : length (x ∷ (d ++ (y ∷ []))) - 23 ≡ 2 = omega (arith, length-append d (y ∷ [])) in
      rw e (ap (λ l. x ∷ l) (drop_append 1 d (y ∷ []) (omega arith)))

  push-fits :
      (xs : List A) (n : ℕ) (y : A)
      → length xs < max_observations
      → push xs n y ≡ (xs ++ (y ∷ []), n)
  unfolding push
  push-fits xs n y h =
      let e : ltb max_observations (length (xs ++ (y ∷ []))) ≡ false =
        ground (arith, h, length-append xs (y ∷ [])) in
      rw e refl

  push-full :
      (x : A) (d : List A) (n : ℕ) (y : A)
      → length d ≡ max_observations - 1
      → push (x ∷ d) n y ≡ (x ∷ (drop 1 d ++ (y ∷ [])), n + 1)
  unfolding push
  push-full x d n y h =
      let e : ltb max_observations (length ((x ∷ d) ++ (y ∷ []))) ≡ true =
        ground (arith, h, length-append d (y ∷ [])) in
      let k : length ((x ∷ d) ++ (y ∷ [])) - max_observations ≡ 1 =
        omega (arith, h, length-append d (y ∷ [])) in
      rw e (rw k (ap (λ l. (l, n + 1)) (pruned-snoc x d y h)))

  -- What is kept and counted after a push is what it is of the whole sequence and one more.
  pub push-bounded :
      (x : A) (r : List A) (y : A)
      → push (bounded (x ∷ r)) (overflow (x ∷ r)) y
        ≡ (bounded ((x ∷ r) ++ (y ∷ [])), overflow ((x ∷ r) ++ (y ∷ [])))
  unfolding bounded overflow
  push-bounded x r y = elim (Bool-cases (ltb (length r) 23)) [
    | inl e ↦
        let short : length r < 23 = ground (arith, e) in
        let k : length (x ∷ r) - 24 ≡ (length ((x ∷ r) ++ (y ∷ []))) - 24 =
          omega (arith, length-append r (y ∷ [])) in
        rw (last_n-whole 23 r (omega arith)) (
          push-fits (x ∷ r) (length (x ∷ r) - 24) y (omega arith) ∙ (λ i. (
            x ∷ (sym (last_n-whole 23 (r ++ (y ∷ [])) (omega (arith, length-append r (y ∷ []))))) i,
            k i,
          )))
    | inr e ↦
        let long : 23 ≤ length r = ground (arith, e) in
        let k : length (x ∷ r) - 24 + 1 ≡ (length ((x ∷ r) ++ (y ∷ []))) - 24 =
          omega (arith, length-append r (y ∷ [])) in
        push-full x (last_n 23 r) (length (x ∷ r) - 24) y (length-last_n 23 r long)
        ∙ (λ i. (x ∷ (sym (last_n-snoc 23 r y (omega arith) long)) i, k i))
  ]

  last_of-snoc : (xs : List A) (y : A) → last_of (xs ++ (y ∷ [])) ≡ some y
  unfolding last_of
  last_of-snoc [] y = refl
  last_of-snoc (x ∷ []) y = refl
  last_of-snoc (x ∷ z ∷ xs) y = last_of-snoc (z ∷ xs) y

  bounded-snoc :
      (x : A) (r : List A) (y : A)
      → (d : List A) × (bounded ((x ∷ r) ++ (y ∷ [])) ≡ (x ∷ d) ++ (y ∷ []))
  unfolding bounded
  bounded-snoc x r y = elim (Bool-cases (ltb (length r) 23)) [
    | inl e ↦ (
      r,
      ap (λ l. x ∷ l)
          (last_n-whole 23 (r ++ (y ∷ [])) (ground (arith, e, length-append r (y ∷ [])))),
    )
    | inr e ↦ (
      drop 1 (last_n 23 r),
      ap (λ l. x ∷ l) (last_n-snoc 23 r y (omega arith) (ground (arith, e))),
    )
  ]

  pub last_of-bounded :
      (x : A) (r : List A) (y : A) → last_of (bounded ((x ∷ r) ++ (y ∷ []))) ≡ some y
  last_of-bounded x r y = let (d, e) = bounded-snoc x r y in rw e (last_of-snoc (x ∷ d) y)

  -- The observations that are kept and those that are counted as dropped are all of them.
  pub length-bounded : (xs : List A) → length (bounded xs) + overflow xs ≡ length xs
  unfolding bounded overflow
  length-bounded [] = omega arith
  length-bounded (x ∷ xs) = elim (Bool-cases (ltb (length xs) 23)) [
    | inl e ↦ rw (last_n-whole 23 xs (ground (arith, e))) (ground (arith, e))
    | inr e ↦ ground (arith, e, length-last_n 23 xs)
  ]

  pub length-bounded-le : (xs : List A) → length (bounded xs) ≤ max_observations
  unfolding bounded
  length-bounded-le [] = omega arith
  length-bounded-le (x ∷ xs) = elim (Bool-cases (ltb (length xs) 23)) [
    | inl e ↦ rw (last_n-whole 23 xs (ground (arith, e))) (ground (arith, e))
    | inr e ↦ ground (arith, e, length-last_n 23 xs)
  ]
