-- ===== src/Scoring/Tier.antt =====
-- dockerls/domain/value_objects/security_tier.py. Scores are tenths of a point.
pub mod Laws
use docker_ls.Prelude.{ℕ, ◌-◌, List, [], ◌∷◌, Bool, true, false, ltb, leb, if◌then◌else◌}
use docker_ls.Evidence.Scan.{ScanResult, critical_count, fixable_critical_count}

-- From the best to the worst.
pub data Tier : Type 0 where
  a b c d e f : Tier

-- `TIER_ORDER.index`
abbrev pub tier_index : Tier → ℕ
tier_index a = 0
tier_index b = 1
tier_index c = 2
tier_index d = 3
tier_index e = 4
tier_index f = 5

-- `TIER_BANDS`
abbrev tier_bands : List (ℕ × Tier)
tier_bands = (900, a) ∷ (750, b) ∷ (600, c) ∷ (400, d) ∷ (200, e) ∷ []

first_band : ℕ → List (ℕ × Tier) → Tier
first_band score [] = f
first_band score ((floor, tier) ∷ bands) =
    let rest = first_band score bands in if leb floor score then tier else rest

-- `tier_for_score`
unfoldable pub tier_for_score : ℕ → Tier
unfolding first_band
tier_for_score score = first_band score tier_bands

-- `max(x, y, key=TIER_ORDER.index)`: the first of the two where the keys are equal.
abbrev pub worse_tier : Tier → Tier → Tier
worse_tier x y = if ltb (tier_index x) (tier_index y) then y else x

-- `unfixable_critical_count`: every fixable CRITICAL is a CRITICAL, so the difference is no less
-- than 0.
unfoldable pub unfixable_critical_count : ScanResult → ℕ
unfixable_critical_count s = critical_count s - fixable_critical_count s

-- `SecurityTier._classify`
unfoldable pub classify : ScanResult → ℕ → Tier
unfolding tier_for_score unfixable_critical_count
classify s score =
    let tier = tier_for_score score in
    if ltb 0 (unfixable_critical_count s) then worse_tier tier c else tier

-- `tier in PRODUCTION_READY_TIERS`
abbrev pub is_production_tier : Tier → Bool
is_production_tier a = true
is_production_tier b = true
is_production_tier _ = false

-- `SecurityTier.production_ready`
unfoldable pub tier_production_ready : ScanResult → ℕ → Bool → Bool
unfolding classify
tier_production_ready s score is_eol =
    if is_eol then false else is_production_tier (classify s score)
