-- ===== src/Resilience/Limiter/Laws.antt =====
-- How much a limiter lets through, and that it lets a waiting caller through.
use docker_ls.Prelude.{
  ℕ, ◌+◌, ◌*◌, ◌-◌, ◌≤◌, ◌<◌, ◌≡◌, refl, ap, List, [], ◌∷◌, Option, some, true, false, leb,
  Bool-cases, inl, inr, arith,
}
use mathlib.Core.Path.{subst₃}
use native.Mathlib.Nat.{le_of_mul-le-mul_right, mul-le-mul_left, mul-le-mul_right}
use docker_ls.Prelude.{◌∙◌, ◌↔◌}
use docker_ls.Resilience.Limiter.{
  Limiter, Fraction, new_limiter, granted, refused, grants, refill, wait_of, attempt, attempts,
  sleep,
}

pub record IsValid (l : Limiter) : Type 0 where
  pub rated : 1 ≤ l.rate
  pub paced : 1 ≤ l.period
  pub filled : l.parts ≤ l.capacity * l.period

pub new_limiter-IsValid :
    (rate period now : ℕ) (burst : Option ℕ) (l : Limiter)
    → new_limiter rate period burst now ≡ some l
    → IsValid l
unfolding new_limiter
new_limiter-IsValid rate period now burst l h = ground arith

pub attempt-IsValid : (now : ℕ) (l : Limiter) → IsValid l → IsValid (attempt now l).1
unfolding attempt
attempt-IsValid now l v = ground arith

-- The times do not go back, and the last of them is the end.
abbrev pub Runs : ℕ → List ℕ → ℕ → Type 0
Runs start [] end = start ≤ end
Runs start (now ∷ later) end = (start ≤ now) × Runs now later end

-- One attempt pays for what it is granted out of what it had and what was refilled.
attempt_budget :
    (now : ℕ) (l : Limiter)
    → l.updated ≤ now
    → grants (attempt now l).0 * l.period + (attempt now l).1.parts
      ≤ l.parts + (now - l.updated) * l.rate
unfolding attempt
attempt_budget now l h = ground arith

attempt_keeps :
    (now : ℕ) (l : Limiter)
    → ((attempt now l).1.capacity ≡ l.capacity)
      × ((attempt now l).1.rate ≡ l.rate)
      × ((attempt now l).1.period ≡ l.period)
      × ((attempt now l).1.updated ≡ now)
unfolding attempt
attempt_keeps now l = ground arith

Runs-le : (start end : ℕ) (times : List ℕ) → Runs start times end → start ≤ end
Runs-le start end [] h = h
Runs-le start end (now ∷ later) (h, hs) = omega (arith, Runs-le now end later hs)

split_product : (a b r : ℕ) → (a + b) * r ≡ a * r + b * r
split_product a b r = omega arith

-- Two budgets one after the other.
budget_join :
    (g m period had kept left start now end rate : ℕ)
    → start ≤ now
    → now ≤ end
    → g * period + kept ≤ had + (now - start) * rate
    → m * period + left ≤ kept + (end - now) * rate
    → (g + m) * period + left ≤ had + (end - start) * rate
budget_join g m period had kept left start now end rate h k first second =
    let whole : end - start ≡ (now - start) + (end - now) = omega arith in
    rw (whole, split_product g m period, split_product (now - start) (end - now) rate) (omega arith)

attempts_budget :
    (times : List ℕ) (end : ℕ) (l : Limiter)
    → Runs l.updated times end
    → (attempts times l).0 * l.period + (attempts times l).1.parts
      ≤ l.parts + (end - l.updated) * l.rate
unfolding attempts
attempts_budget [] end l h = omega arith
attempts_budget (now ∷ later) end l (h, hs) =
    let (_, rate, period, updated) = attempt_keeps now l in
    let l' = (attempt now l).1 in
    let rest : (attempts later l').0 * l'.period + (attempts later l').1.parts
        ≤ l'.parts + (end - l'.updated) * l'.rate =
      attempts_budget later end l' (rw updated hs) in
    budget_join (grants (attempt now l).0) (attempts later l').0 l.period l.parts l'.parts
      (attempts later l').1.parts l.updated now end l.rate h (Runs-le now end later hs)
      (attempt_budget now l h)
      (subst₃
        (λ p r u.
          (attempts later l').0 * p + (attempts later l').1.parts ≤ l'.parts + (end - u) * r)
        period rate updated rest)

refill_filled : (now : ℕ) (l : Limiter) → (refill now l).parts ≤ l.capacity * l.period
unfolding refill
refill_filled now l = omega arith

-- The first attempt pays for what it is granted out of a bucket that the refill has capped.
first_budget :
    (now : ℕ) (l : Limiter)
    → grants (attempt now l).0 * l.period + (attempt now l).1.parts ≤ l.capacity * l.period
unfolding attempt
first_budget now l = ground (arith, refill_filled now l)

-- Whatever state the bucket is in, and however long nobody came: of any calls, the operations granted
-- from the first of them to a time are at most the burst and what the rate allows in the ticks between.
pub attempts_bounded :
    (now : ℕ) (later : List ℕ) (end : ℕ) (l : Limiter)
    → Runs now later end
    → (attempts (now ∷ later) l).0 * l.period ≤ l.capacity * l.period + (end - now) * l.rate
unfolding attempts
attempts_bounded now later end l h =
    let l' = (attempt now l).1 in
    let (_, rate, period, updated) = attempt_keeps now l in
    let rest : (attempts later l').0 * l.period + (attempts later l').1.parts
        ≤ l'.parts + (end - now) * l.rate =
      subst₃
        (λ p r u.
          (attempts later l').0 * p + (attempts later l').1.parts ≤ l'.parts + (end - u) * r)
        period rate updated (attempts_budget later end l' (rw updated h)) in
    rw (split_product (grants (attempt now l).0) (attempts later l').0 l.period)
      (omega (arith, first_budget now l, rest))

one_token : (capacity period : ℕ) → 1 ≤ capacity → period ≤ capacity * period
one_token capacity period h = grind arith

-- The wait, in parts of a token
waited :
    (ticks missing period rate : ℕ)
    → 1 ≤ period
    → (missing * period ≤ ticks * (period * rate)) ↔ (missing ≤ ticks * rate)
waited ticks missing period rate h =
    let same : ticks * (period * rate) ≡ ticks * rate * period = omega arith in
    rw same (λ e. le_of_mul-le-mul_right e h, mul-le-mul_right period)

module _ (now : ℕ) (l : Limiter) where
  attempt_full : leb l.period (refill now l).parts ≡ true → (attempt now l).0 ≡ granted
  unfolding attempt refill
  attempt_full e = rw e refl

  attempt_short :
      leb l.period (refill now l).parts ≡ false
      → attempt now l ≡ (refused (wait_of (refill now l)), refill now l)
  unfolding attempt refill
  attempt_short e = rw e refl

-- A refused caller leaves less than a token, and is told the wait for what is missing.
attempt-refused :
    (now : ℕ) (wait : Fraction) (l : Limiter)
    → (attempt now l).0 ≡ refused wait
    → ((attempt now l).1 ≡ refill now l)
      × (wait ≡ wait_of (refill now l))
      × ((refill now l).parts < l.period)
unfolding attempt
attempt-refused now wait l h = elim (Bool-cases (leb l.period (refill now l).parts)) [
  | inl e ↦ absurd (cc (h, attempt_full now l e))
  | inr e ↦
      let answer = attempt_short now l e in
      let first : (attempt now l).0 ≡ refused (wait_of (refill now l)) = ap (λ r. r.0) answer in
      (ap (λ r. r.1) answer, cc (h, first), ground (arith, e))
]

granted_iff :
    (later : ℕ) (l : Limiter)
    → 1 ≤ l.capacity
    → l.parts < l.period
    → ((attempt later l).0 ≡ granted) ↔ (l.period - l.parts ≤ (later - l.updated) * l.rate)
unfolding attempt refill
granted_iff later l c h = (
  λ e. ground (arith, one_token l.capacity l.period c, e),
  λ e. ground (arith, one_token l.capacity l.period c, e),
)

-- The jitter only lengthens a sleep.
sleep-le :
    (jitter wait : Fraction) (ticks : ℕ)
    → 1 ≤ jitter.under
    → (sleep jitter wait).over ≤ ticks * (sleep jitter wait).under
    → wait.over ≤ ticks * wait.under
unfolding sleep
sleep-le jitter wait ticks u e =
    let unit : ℕ = 10 * jitter.under in
    let longer : wait.over * unit ≤ wait.over * (unit + jitter.over) =
      mul-le-mul_left wait.over (omega arith) in
    let same : ticks * (wait.under * unit) ≡ ticks * wait.under * unit = omega arith in
    le_of_mul-le-mul_right {k = unit} (omega (arith, longer, e, same)) (omega arith)

module _ (now later : ℕ) (wait : Fraction) (l : Limiter) (v : IsValid l)
    (some_burst : 1 ≤ l.capacity) (order : now ≤ later)
    (told : (attempt now l).0 ≡ refused wait) where
  granted_after_wait :
      ((attempt later (attempt now l).1).0 ≡ granted) ↔ (wait.over ≤ (later - now) * wait.under)
  unfolding wait_of refill
  granted_after_wait =
      let (state, wait_is, short) = attempt-refused now wait l told in
      let missing = l.period - (refill now l).parts in
      let (back, forth) = waited (later - now) missing l.period l.rate v.paced in
      let (comes, goes) = granted_iff later (refill now l) some_burst short in
      rw (state, wait_is) (λ e. forth (comes e), λ e. goes (back e))

  -- A refused caller that comes back, with no other caller in between and a capacity of one token at
  -- least, is granted exactly where the wait that it was told has passed; and so it is after the sleep
  -- that any jitter makes of that wait.
  pub attempt_after_wait :
      (((attempt later (attempt now l).1).0 ≡ granted) ↔ (wait.over ≤ (later - now) * wait.under))
      × ((jitter : Fraction)
          → 1 ≤ jitter.under
          → (sleep jitter wait).over ≤ (later - now) * (sleep jitter wait).under
          → (attempt later (attempt now l).1).0 ≡ granted)
  attempt_after_wait = (
    granted_after_wait,
    λ jitter u e. granted_after_wait.1 (sleep-le jitter wait (later - now) u e),
  )

refused_of_zero :
    (now : ℕ) (l : Limiter) → IsValid l → l.capacity ≡ 0 → grants (attempt now l).0 ≡ 0
unfolding attempt
refused_of_zero now l v c = ground arith

-- With a burst of 0 no attempt is ever granted: `acquire` does not return.
pub attempts_burst_zero :
    (times : List ℕ) (l : Limiter) → IsValid l → l.capacity ≡ 0 → (attempts times l).0 ≡ 0
unfolding attempts
attempts_burst_zero [] l v c = refl
attempts_burst_zero (now ∷ later) l v c = omega (
  arith,
  refused_of_zero now l v c,
  attempts_burst_zero later (attempt now l).1 (attempt-IsValid now l v)
      ((attempt_keeps now l).0 ∙ c),
)
