-- ===== src/Scanning/Order/Rounds.antt =====
-- The order in which versions and variants take turns holds every tag as often as it was given.
use docker_ls.Prelude.{ℕ, zero, suc, ◌+◌, ◌≤◌, ◌≡◌, refl, List, [], ◌∷◌, ◌++◌, Bool, true, arith}
use docker_ls.Prelude.{leb, count, length, drop, Bool-cases, inl, inr, count-le-length}
use docker_ls.Scanning.Criteria.{Candidate}
use docker_ls.Scanning.Order.{at_index, at_depth, rounds, total_length, round_robin}

-- How many candidates of all lists a predicate selects.
abbrev pub lists_count : (Candidate → Bool) → List (List Candidate) → ℕ
lists_count p [] = 0
lists_count p (l ∷ ls) = count p l + lists_count p ls

-- The same, of what a depth leaves.
abbrev left_count : (Candidate → Bool) → ℕ → List (List Candidate) → ℕ
left_count p depth [] = 0
left_count p depth (l ∷ ls) = count p (drop depth l) + left_count p depth ls

module _ (p : Candidate → Bool) where
  pub count-append : (xs ys : List Candidate) → count p (xs ++ ys) ≡ count p xs + count p ys
  count-append [] ys = omega arith
  count-append (x ∷ xs) ys = omega (arith, count-append xs ys)

  count-at_index :
      (l : List Candidate) (depth : ℕ)
      → count p (at_index l depth) + count p (drop (suc depth) l) ≡ count p (drop depth l)
  count-at_index [] zero = refl
  count-at_index [] (suc depth) = refl
  count-at_index (x ∷ l) zero = omega arith
  count-at_index (x ∷ l) (suc depth) = count-at_index l depth

  count-at_depth :
      (depth : ℕ) (ls : List (List Candidate))
      → count p (at_depth depth ls) + left_count p (suc depth) ls ≡ left_count p depth ls
  unfolding at_depth
  count-at_depth depth [] = refl
  count-at_depth depth (l ∷ ls) = omega (
    arith,
    count-append (at_index l depth) (at_depth depth ls),
    count-at_index l depth,
    count-at_depth depth ls,
  )

abbrev any_candidate : Candidate → Bool
any_candidate c = true

count-any : (l : List Candidate) → count any_candidate l ≡ length l
count-any [] = refl
count-any (x ∷ l) = omega (arith, count-any l)

length-drop :
    (depth : ℕ) (l : List Candidate) → length l ≤ depth → count any_candidate (drop depth l) ≡ 0
length-drop zero [] h = refl
length-drop zero (x ∷ l) h = absurd (omega arith)
length-drop (suc depth) [] h = refl
length-drop (suc depth) (x ∷ l) h = length-drop depth l (omega arith)

left_none :
    (depth : ℕ) (ls : List (List Candidate))
    → total_length ls ≤ depth
    → left_count any_candidate depth ls ≡ 0
left_none depth [] h = refl
left_none depth (l ∷ ls) h =
    omega (arith, length-drop depth l (omega arith), left_none depth ls (omega arith))

left-le :
    (p : Candidate → Bool) (depth : ℕ) (ls : List (List Candidate))
    → left_count p depth ls ≤ left_count any_candidate depth ls
left-le p depth [] = omega arith
left-le p depth (l ∷ ls) =
    omega (arith, count-le-length p (drop depth l), count-any (drop depth l), left-le p depth ls)

-- With a round for each candidate, the loop ends by its test, and it has placed what was left.
pub count-rounds :
    (p : Candidate → Bool) (fuel depth total : ℕ) (out : List Candidate)
    (ls : List (List Candidate))
    → total_length ls ≤ total
    → total ≤ depth + fuel
    → length out + left_count any_candidate depth ls ≡ total
    → count p (rounds fuel depth total out ls) ≡ count p out + left_count p depth ls
unfolding rounds
count-rounds p zero depth total out ls h f e =
    omega (arith, left_none depth ls (omega arith), left-le p depth ls)
count-rounds p (suc fuel) depth total out ls h f e = elim (Bool-cases (leb total (length out))) [
  | inl done ↦ rw done (ground (arith, left-le p depth ls))
  | inr more ↦ rw more (
      omega (
        arith,
        count-rounds p fuel (suc depth) total (out ++ at_depth depth ls) ls h (omega arith) (
            omega (
              arith,
              count-append any_candidate out (at_depth depth ls),
              count-any (out ++ at_depth depth ls),
              count-any out,
              count-at_depth any_candidate depth ls,
            )),
        count-append p out (at_depth depth ls),
        count-at_depth p depth ls,
      ))
]

left-at_zero :
    (p : Candidate → Bool) (ls : List (List Candidate)) → left_count p 0 ls ≡ lists_count p ls
left-at_zero p [] = refl
left-at_zero p (l ∷ ls) = omega (arith, left-at_zero p ls)

total_length-eq : (ls : List (List Candidate)) → total_length ls ≡ lists_count any_candidate ls
total_length-eq [] = refl
total_length-eq (l ∷ ls) = omega (arith, total_length-eq ls, count-any l)

pub count-round_robin :
    (p : Candidate → Bool) (ls : List (List Candidate))
    → count p (round_robin ls) ≡ lists_count p ls
unfolding round_robin
count-round_robin p ls = omega (
  arith,
  count-rounds p (total_length ls) 0 (total_length ls) [] ls (omega arith) (omega arith)
      (omega (arith, left-at_zero any_candidate ls, total_length-eq ls)),
  left-at_zero p ls,
)
