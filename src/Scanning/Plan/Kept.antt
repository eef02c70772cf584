-- ===== src/Scanning/Plan/Kept.antt =====
-- The tags that are kept by their identity are those that were chosen.
use docker_ls.Prelude.{
  ℕ, ◌+◌, ◌≤◌, ◌≡◌, refl, List, [], ◌∷◌, Bool, true, false, ◌&&◌, ◌||◌, not, arith,
}
use docker_ls.Prelude.{◌==◌, any, count, filter}
use docker_ls.Scanning.Criteria.{Candidate}
use docker_ls.Scanning.Plan.{object_in}

abbrev pub has_object : ℕ → Candidate → Bool
has_object n c = n == c.object

-- No two tags of a listing are the same object.
abbrev pub Distinct : List Candidate → Type 0
Distinct cs = (n : ℕ) → count (has_object n) cs ≤ 1

pub count-split :
    (p q : Candidate → Bool) (cs : List Candidate)
    → count p (filter q cs) + count p (filter (λ c. not (q c)) cs) ≡ count p cs
count-split p q [] = refl
count-split p q (c ∷ cs) = ground (arith, count-split p q cs)

count-or :
    (p q r : Candidate → Bool) (cs : List Candidate)
    → ((c : Candidate) → q c ≡ true → r c ≡ false)
    → count p (filter (λ c. q c || r c) cs) ≡ count p (filter q cs) + count p (filter r cs)
count-or p q r [] h = refl
count-or p q r (c ∷ cs) h = ground (arith, count-or p q r cs h, h c)

count-and :
    (p q : Candidate → Bool) (cs : List Candidate)
    → count p (filter q cs) ≡ count (λ c. p c && q c) cs
count-and p q [] = refl
count-and p q (c ∷ cs) = ground (arith, count-and p q cs)

count-both :
    (p q : Candidate → Bool) (cs : List Candidate)
    → count (λ c. p c && q c) cs + count (λ c. not (p c) && q c) cs ≡ count q cs
count-both p q [] = refl
count-both p q (c ∷ cs) = ground (arith, count-both p q cs)

-- What is not listed is not met.
object_in-zero :
    (n : ℕ) (ks : List Candidate)
    → count (has_object n) ks ≡ 0
    → any (λ k. k.object == n) ks ≡ false
object_in-zero n [] h = refl
object_in-zero n (k ∷ ks) h = ground (arith, object_in-zero n ks)

count-none : (p : Candidate → Bool) (cs : List Candidate) → count p (filter (object_in []) cs) ≡ 0
count-none p [] = refl
count-none p (c ∷ cs) = count-none p cs

-- The tags of distinct objects that are kept by their identity are those that were chosen.
module _ (tags : List Candidate) (distinct : Distinct tags) where
  count-one :
      (p : Candidate → Bool) (k : Candidate)
      → ((q : Candidate → Bool) → count q (k ∷ []) ≤ count q tags)
      → count p (filter (has_object k.object) tags) ≡ count p (k ∷ [])
  count-one p k h = ground (
    arith,
    count-and p (has_object k.object) tags,
    count-both p (has_object k.object) tags,
    distinct k.object,
    h (λ c. p c && has_object k.object c),
    h (λ c. not (p c) && has_object k.object c),
  )

  apart :
      (k : Candidate) (ks : List Candidate)
      → ((q : Candidate → Bool) → count q (k ∷ ks) ≤ count q tags)
      → (c : Candidate) → has_object k.object c ≡ true
      → object_in ks c ≡ false
  apart k ks h c e =
      let same : k.object ≡ c.object = ground arith in
      let few : count (has_object k.object) ks ≡ 0 =
        ground (arith, h (has_object k.object), distinct k.object) in
      rw (← same) (object_in-zero k.object ks few)

  pub count-object_in :
      (p : Candidate → Bool) (ks : List Candidate)
      → ((q : Candidate → Bool) → count q ks ≤ count q tags)
      → count p (filter (object_in ks) tags) ≡ count p ks
  count-object_in p [] h = count-none p tags
  count-object_in p (k ∷ ks) h = omega (
    arith,
    count-or p (has_object k.object) (object_in ks) tags (apart k ks h),
    count-one p k (λ q. omega (arith, h q)),
    count-object_in p ks (λ q. omega (arith, h q)),
  )
