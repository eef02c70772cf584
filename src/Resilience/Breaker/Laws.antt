-- ===== src/Resilience/Breaker/Laws.antt =====
-- When the breaker is open, told from the history of calls.
use docker_ls.Prelude.{ℕ, suc, ◌-◌, ◌≤◌, ◌<◌, ◌≡◌, ◌↔◌, List, [], ◌∷◌, true, false, none}
use docker_ls.Prelude.{arith}
use docker_ls.Resilience.Breaker.{
  CircuitBreaker, new_breaker, is_open, check, Event, success, failure, record_event, after,
}

-- The failures since the last success.
abbrev pub streak : List Event → ℕ
streak [] = 0
streak (success ∷ past) = 0
streak (failure now ∷ past) = suc (streak past)

-- When the last call was recorded, if it failed.
abbrev pub last_failure : List Event → ℕ
last_failure [] = 0
last_failure (success ∷ past) = 0
last_failure (failure now ∷ past) = now

module _ (threshold cooldown : ℕ) (tripping : 1 ≤ threshold) where
  abbrev state : List Event → CircuitBreaker
  state history = after history (new_breaker threshold cooldown)

  record Follows (history : List Event) : Type 0 where
    limits : ((state history).threshold ≡ threshold) × ((state history).cooldown ≡ cooldown)
    counted : (state history).failures ≡ streak history
    stamped : threshold ≤ streak history → (state history).opened_at ≡ last_failure history

  after-Follows : (history : List Event) → Follows history
  unfolding after record_event new_breaker
  after-Follows [] = ground arith
  after-Follows (success ∷ past) = ground (arith, after-Follows past)
  after-Follows (failure now ∷ past) = ground (arith, after-Follows past)

  -- With a threshold of 1 or more, whatever the history of calls: the breaker is open exactly while
  -- the failures since the last success have reached the threshold and the cooldown since the last
  -- of them is not over; and `check` raises exactly then.
  pub is_open_iff :
      (history : List Event) (now : ℕ)
      → ((is_open now (state history) ≡ true)
          ↔ ((threshold ≤ streak history) × (now - last_failure history < cooldown)))
        × ((check now (state history) ≡ none) ↔ (is_open now (state history) ≡ false))
  unfolding check
  is_open_iff history now = (
    (λ h. ground (arith, after-Follows history), λ h. ground (arith, after-Follows history)),
    (λ h. ground arith, λ h. ground arith),
  )
