-- ===== src/Network/Guard.antt =====
-- `HostGuard` of dockerls/infrastructure/network/host_guard.py. What `_resolve` returned enters with
-- each request, since a name may resolve differently every time.
pub mod Laws
use docker_ls.Prelude.{List, [], ◌∷◌, Option, none, some, is_empty, if◌then◌else◌}
use docker_ls.Prelude.Text.{Text, text_eq}
use docker_ls.Network.Address.{Address, Library}
use docker_ls.Network.Policy.{
  NetworkPolicy, NetworkDecision, allowed_by_allowlist, blocked_unresolvable, decide_addresses,
  hostname_of, is_allowlisted,
}

pub record HostGuard : Type 0 where
  pub policy : NetworkPolicy
  pub decisions : List (Text × NetworkDecision)

unfoldable pub new_guard : NetworkPolicy → HostGuard
new_guard policy = record { policy = policy; decisions = [] }

-- `self._decisions.get(host)`
unfoldable pub cached : Text → List (Text × NetworkDecision) → Option NetworkDecision
cached host [] = none
cached host ((h, d) ∷ rest) = if text_eq h host then some d else cached host rest

module _ (lib : Library) where
  -- The decision that `decide` makes for a host that it has not met.
  unfoldable pub fresh_decision : NetworkPolicy → Text → List Address → NetworkDecision
  fresh_decision policy host answer =
      if is_allowlisted policy host
      then allowed_by_allowlist
      else if is_empty (hostname_of host)
      then blocked_unresolvable
      else decide_addresses lib policy answer

  -- `decide`
  unfoldable pub decide : Text → List Address → HostGuard → NetworkDecision × HostGuard
  decide host answer g = elim (cached host g.decisions) [
    | some d ↦ (d, g)
    | none ↦
        let d = fresh_decision g.policy host answer in
        (d, record g { decisions = (host, d) ∷ g.decisions })
  ]

  -- The guard after requests for hosts, each with what the name resolved to, the latest first.
  unfoldable pub after_requests : List (Text × List Address) → HostGuard → HostGuard
  after_requests [] g = g
  after_requests ((host, answer) ∷ earlier) g = (decide host answer (after_requests earlier g)).1
