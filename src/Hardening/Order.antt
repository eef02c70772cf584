-- ===== src/Hardening/Order.antt =====
-- How the scores compare two images of which the same facts are known.
use docker_ls.Prelude.{ℕ, ◌*◌, ◌≤◌, ◌≡◌, refl, ap, List, [], ◌∷◌, true, Option, none, some}
use docker_ls.Prelude.{arith, ltb, inl, inr, Bool-cases}
use docker_ls.Evidence.Tristate.{Tristate, is_known, is_true}
use docker_ls.Hardening.Facts.{HardeningFacts, Factor, available, earned_total, percentage}
use docker_ls.Hardening.Factors.{
  from_tristate, negate, privileged_ports_factor, minimal_packages, package_credit,
  entrypoint_factor, score_factors, hardening_value,
}
use docker_ls.Hardening.Surface.{
  from_presence, root_default, package_volume, surface_items, surface_value,
}
use docker_ls.Hardening.Laws.{round_div_mono}

-- The factor g weighs what f weighs, is determined where f is, and earns no less.
pub record EarnsMore (f g : Factor) : Type 0 where
  pub weighs : f.weight ≡ g.weight
  pub known : f.determined ≡ g.determined
  pub earns : f.earned ≤ g.earned

abbrev AllEarnMore : List Factor → List Factor → Type 0
AllEarnMore [] [] = Unit
AllEarnMore (f ∷ fs) (g ∷ gs) = EarnsMore f g × AllEarnMore fs gs
AllEarnMore _ _ = ⊥

available-eq : (fs gs : List Factor) → AllEarnMore fs gs → available fs ≡ available gs
available-eq [] [] h = refl
available-eq [] (g ∷ gs) h = absurd h
available-eq (f ∷ fs) [] h = absurd h
available-eq (f ∷ fs) (g ∷ gs) (h, hs) = ground (arith, available-eq fs gs hs)

earned_total_mono : (fs gs : List Factor) → AllEarnMore fs gs → earned_total fs ≤ earned_total gs
earned_total_mono [] [] h = omega arith
earned_total_mono [] (g ∷ gs) h = absurd h
earned_total_mono (f ∷ fs) [] h = absurd h
earned_total_mono (f ∷ fs) (g ∷ gs) (h, hs) = ground (arith, earned_total_mono fs gs hs)

percentage_mono : (fs gs : List Factor) → AllEarnMore fs gs → percentage fs ≤ percentage gs
unfolding percentage
percentage_mono fs gs h = elim (Bool-cases (ltb 0 (available gs))) [
  | inl e ↦ rw (available-eq fs gs h) (
      ground (
        arith,
        earned_total_mono fs gs h,
        round_div_mono (1000 * earned_total fs) (1000 * earned_total gs) (available gs),
      ))
  | inr e ↦ rw (available-eq fs gs h) (ground arith)
]

-- Both are known or neither is, and what holds of the first holds of the second.
pub record Gains (s t : Tristate) : Type 0 where
  pub both : is_known s ≡ is_known t
  pub holds : is_true s ≡ true → is_true t ≡ true

-- The second count is known where the first is, and is not larger.
abbrev pub Shrinks : Option ℕ → Option ℕ → Type 0
Shrinks none none = Unit
Shrinks (some m) (some n) = n ≤ m
Shrinks _ _ = ⊥

-- Of f and g the same is known, and g has every property of f that counts for an image and no other
-- that counts against it. Ports, entry points and the inspected configuration are the same.
pub record Hardens (f g : HardeningFacts) : Type 0 where
  pub user : Gains f.runs_as_non_root g.runs_as_non_root
  pub shell : Gains g.has_shell f.has_shell
  pub manager : Gains g.has_package_manager f.has_package_manager
  pub tools : Gains g.has_debug_tools f.has_debug_tools
  pub setuid : Gains g.has_setuid f.has_setuid
  pub packages : Shrinks f.package_count g.package_count
  pub ports : f.exposed_ports ≡ g.exposed_ports
  pub healthcheck : Gains f.has_healthcheck g.has_healthcheck
  pub entry : (f.entrypoint ≡ g.entrypoint) × (f.cmd ≡ g.cmd)
  pub inspected : f.config_verified ≡ g.config_verified

alike : (a b : Factor) → a ≡ b → EarnsMore a b
alike a b e = record {
  weighs = ap (λ x. x.weight) e;
  known = ap (λ x. x.determined) e;
  earns = ground (arith, ap (λ x. x.earned) e);
}

gain : (w : ℕ) (s t : Tristate) → Gains s t → EarnsMore (from_tristate w s) (from_tristate w t)
unfolding from_tristate
gain w s t h = ground arith

loss :
    (w : ℕ) (s t : Tristate)
    → Gains t s
    → EarnsMore (from_tristate w (negate s)) (from_tristate w (negate t))
unfolding from_tristate
loss w s t h = ground arith

presence : (w : ℕ) (s t : Tristate) → Gains s t → EarnsMore (from_presence w s) (from_presence w t)
unfolding from_presence
presence w s t h = ground arith

fewer_packages :
    (m n : Option ℕ) → Shrinks m n → EarnsMore (minimal_packages m) (minimal_packages n)
unfolding minimal_packages package_credit
fewer_packages none none h = ground arith
fewer_packages none (some n) h = absurd h
fewer_packages (some m) none h = absurd h
fewer_packages (some m) (some n) h = ground arith

smaller_volume : (m n : Option ℕ) → Shrinks m n → EarnsMore (package_volume n) (package_volume m)
unfolding package_volume
smaller_volume none none h = ground arith
smaller_volume none (some n) h = absurd h
smaller_volume (some m) none h = absurd h
smaller_volume (some m) (some n) h = ground arith

module _ (f g : HardeningFacts) (h : Hardens f g) where
  equal_ports : privileged_ports_factor f ≡ privileged_ports_factor g
  unfolding privileged_ports_factor
  equal_ports = rw (h.ports, h.inspected)

  equal_entry : entrypoint_factor f ≡ entrypoint_factor g
  unfolding entrypoint_factor
  equal_entry = rw (h.entry.0, h.entry.1, h.inspected)

  root_user : EarnsMore (root_default g) (root_default f)
  unfolding root_default
  root_user = ground (arith, h.user)

  factors_earn_more : AllEarnMore (score_factors f) (score_factors g)
  unfolding score_factors
  factors_earn_more = (
    gain 25000 _ _ h.user,
    (
      loss 15000 _ _ h.shell,
      (
        loss 12000 _ _ h.manager,
        (
          loss 8000 _ _ h.tools,
          (
            loss 10000 _ _ h.setuid,
            (
              alike _ _ equal_ports,
              (
                fewer_packages _ _ h.packages,
                (alike _ _ equal_entry, (gain 5000 _ _ h.healthcheck, tt)),
              ),
            ),
          ),
        ),
      ),
    ),
  )

  items_earn_more : AllEarnMore (surface_items g) (surface_items f)
  unfolding surface_items
  items_earn_more = (
    presence 25000 _ _ h.manager,
    (
      presence 20000 _ _ h.shell,
      (
        presence 15000 _ _ h.tools,
        (presence 15000 _ _ h.setuid, (root_user, (smaller_volume _ _ h.packages, tt))),
      ),
    ),
  )

  -- Of two images of which the same facts are known, with the same ports, entry point and
  -- configuration, the one with better facts has no lower hardening score and no higher attack
  -- surface score.
  pub scores_mono : (hardening_value f ≤ hardening_value g) × (surface_value g ≤ surface_value f)
  unfolding hardening_value surface_value
  scores_mono = (
    percentage_mono (score_factors f) (score_factors g) factors_earn_more,
    percentage_mono (surface_items g) (surface_items f) items_earn_more,
  )
