-- ===== src/Proxy/Acquired.antt =====
-- internal/server/branch_endpoints.go: every answer of `acquirePrimaryBranchRoute`.
use neon_selfhost.Prelude.{
  ◌≡◌, refl, Text, true, false, Option, none, some, ok, Bool-cases, inl, inr, arith,
}
use neon_selfhost.Endpoint.Route.{RouteState}
use neon_selfhost.Proxy.Routing.{BranchRoute}
use neon_selfhost.Proxy.World.{Host, Settings, Proxy}
use neon_selfhost.Proxy.Publish.{acquire_primary_branch_route, resolved}
use neon_selfhost.Proxy.Apart.{IsRouted, branch_route-IsRouted}

module _ {D : Type 0} (c : Settings) (h : Host D) (name tenant timeline : Text) (w : Proxy D) where
  -- What an answer shows.
  pub data IsAcquired (o : Option BranchRoute) : Type 0 where
    without_primary : c.has_primary ≡ false → o ≡ none → IsAcquired o
    from_primary :
        (r : RouteState)
        → c.has_primary ≡ true
        → (h.route w.host).1 ≡ some r
        → IsRouted name tenant timeline r o
        → IsAcquired o

  resolved-IsAcquired :
      (o : Option BranchRoute) (x : D × Option RouteState)
      → c.has_primary ≡ true
      → (h.route w.host).1 ≡ x.1
      → (resolved c h name tenant timeline w x).1 ≡ ok o
      → IsAcquired o
  resolved-IsAcquired o (d, none) on given e = absurd (ground arith)
  resolved-IsAcquired o (d, some r) on given e =
      from_primary r on given (branch_route-IsRouted name tenant timeline r o e)

  -- Where acquirePrimaryBranchRoute gives an answer, either there is no manager of the primary
  -- endpoint and the answer is a compute of the branch itself, or that manager has given a route
  -- state in which it is in no transition, not blocked and has an applied selection with both
  -- ids, and does not reserve the branch. In the second case, if the answer is the primary
  -- compute, that runs, is ready and serves the ids of the branch, and the password of the route
  -- is its own; if the answer is a compute of the branch itself, the primary compute does not
  -- serve the ids of the branch and is not selected under its name.
  pub acquire-IsAcquired :
      (o : Option BranchRoute)
      → (acquire_primary_branch_route c h name tenant timeline w).1 ≡ ok o
      → IsAcquired o
  unfolding acquire_primary_branch_route
  acquire-IsAcquired o e = elim (Bool-cases c.has_primary) [
    | inl on ↦ resolved-IsAcquired o (h.route w.host) on refl (rw on at e)
    | inr off ↦ without_primary off (ground arith)
  ]
