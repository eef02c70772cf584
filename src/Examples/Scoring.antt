-- ===== src/Examples/Scoring.antt =====
-- The scores and the tiers of the image of the examples.
use docker_ls.Prelude.{ℕ, ◌+◌, ◌≤◌, ◌≡◌, ◌⊎◌, inl, refl, [], ◌∷◌, true, false, some, arith}
use docker_ls.Prelude.Float.{nan}
use docker_ls.Evidence.Tristate.{Tristate}
use docker_ls.Evidence.Vulnerability.{Vulnerability}
use docker_ls.Evidence.Vulnerability.{critical}
use docker_ls.Evidence.Image.{DockerImage, age_days}
use docker_ls.Scoring.Score.{calculate, unrounded, age_penalty}
use docker_ls.Scoring.Score.Rounding.{IsNear}
use docker_ls.Scoring.Score.Order.{with_finding, high_outweighs_bonus, calculate-with_finding}
use docker_ls.Hardening.Facts.{HardeningFacts}
use docker_ls.Hardening.Factors.{hardening_value}
use docker_ls.Hardening.Surface.{surface_value}
use docker_ls.Hardening.Order.{scores_mono}
use docker_ls.Examples.Data.{openssl, zlib, scan_of, noon, python_slim}

abbrev signed_slim : DockerImage
signed_slim = record python_slim { is_signed = true }

high_outweighs_bonus_example :
    ((calculate noon signed_slim (with_finding openssl (scan_of (zlib ∷ []))) false true + 9
        ≤ calculate noon python_slim (scan_of (zlib ∷ [])) false false)
      ⊎ (calculate noon signed_slim (with_finding openssl (scan_of (zlib ∷ []))) false true ≡ 0))
    × ((x y : ℕ)
        → IsNear
            (unrounded noon signed_slim (with_finding openssl (scan_of (zlib ∷ []))) false true)
            x
        → IsNear (unrounded noon python_slim (scan_of (zlib ∷ [])) false false) y
        → (x + 9 ≤ y) ⊎ (x ≡ 0))
unfolding age_penalty age_days
high_outweighs_bonus_example =
    high_outweighs_bonus openssl (scan_of (zlib ∷ [])) (60000, refl, omega arith)
      ((1000, refl, omega arith), tt) noon python_slim signed_slim false false true (inl refl) refl

calculate-with_finding_example :
    calculate noon python_slim (with_finding zlib (scan_of (openssl ∷ []))) false false
    ≤ calculate noon python_slim (scan_of (openssl ∷ [])) false false
calculate-with_finding_example =
    calculate-with_finding zlib (scan_of (openssl ∷ [])) (1000, refl, omega arith)
      ((60000, refl, omega arith), tt) noon python_slim false false

abbrev strange : Vulnerability
strange = record zlib { epss_score = nan }

abbrev unfixable : Vulnerability
unfixable = record zlib { severity = critical }

abbrev slim_facts : HardeningFacts
slim_facts = record {
  runs_as_non_root = Tristate.false;
  has_shell = Tristate.true;
  has_package_manager = Tristate.true;
  has_debug_tools = Tristate.unknown;
  has_setuid = Tristate.unknown;
  package_count = some 105;
  exposed_ports = 80 ∷ [];
  has_healthcheck = Tristate.false;
  entrypoint = [];
  cmd = [];
  config_verified = true;
}

-- The same image with a user, fewer packages, and neither a shell nor a package manager
abbrev distroless_facts : HardeningFacts
distroless_facts = record slim_facts {
  runs_as_non_root = Tristate.true;
  has_shell = Tristate.false;
  has_package_manager = Tristate.false;
  package_count = some 20;
}

scores_mono_example :
    (hardening_value slim_facts ≤ hardening_value distroless_facts)
    × (surface_value distroless_facts ≤ surface_value slim_facts)
scores_mono_example = scores_mono slim_facts distroless_facts (record {
  user = record { both = refl; holds = λ h. refl };
  shell = record { both = refl; holds = λ h. refl };
  manager = record { both = refl; holds = λ h. refl };
  tools = record { both = refl; holds = λ h. h };
  setuid = record { both = refl; holds = λ h. h };
  packages = omega arith;
  ports = refl;
  healthcheck = record { both = refl; holds = λ h. h };
  entry = (refl, refl);
  inspected = refl;
})
