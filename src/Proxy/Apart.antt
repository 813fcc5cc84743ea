-- ===== src/Proxy/Apart.antt =====
-- internal/server/branch_endpoints.go and primary_endpoint.go: a branch is sent to the primary
-- compute only where that serves its timeline, and gets a compute of its own only where it does not.
use neon_selfhost.Prelude.{
  Result-cases, inl, inr, ℕ, ◌<◌, ◌≡◌, refl, Text, Bool, true, false, if_split, Option, none, some,
  List, [], ◌∷◌, Result, ok, err, is_ok, is_empty, text_eq_iff, text_eq_refl, ◌||◌, not, arith,
}
use mathlib.Core.Path.{subst}
use neon_selfhost.Prelude.Trim.{trim_space}
use neon_selfhost.Prelude.Case.{equal_fold, folded}
use neon_selfhost.Prelude.Map.{Map, lookup, contains}
use neon_selfhost.Endpoint.Selection.{Selection, ReadFault, load_endpoint_selection}
use neon_selfhost.Endpoint.Manager.{
  PrimaryManager, RuntimeStatus, is_blank, reserved, reserved_branches, or_zero, has_applied_path,
}
use neon_selfhost.Endpoint.World.{Runtime, Desk, EndpointError, Errors}
use neon_selfhost.Endpoint.Connection.{current_selection}
use neon_selfhost.Endpoint.Route.{
  RouteState, primary_route_state, routed, route_loaded, route_after,
}
use neon_selfhost.Proxy.Routing.{
  NoRoute, BranchRoute, same_name, any_same, normal_id, is_primary_backed, applied_route,
  branch_route,
}

-- What holds of the state of the primary endpoint where a branch gets an answer.
pub record IsRouted (name tenant timeline : Text) (r : RouteState) (o : Option BranchRoute)
    : Type 0 where
  pub settled : (r.transitioning ≡ false) × (r.blocked ≡ false) × (r.applied ≡ true)
  pub not_reserved : any_same name r.reserved_names ≡ false
  pub ids :
      (is_empty (normal_id r.endpoint.tenant_id) ≡ false)
      × (is_empty (normal_id r.endpoint.timeline_id) ≡ false)
  pub to_the_primary :
      (b : BranchRoute)
      → o ≡ some b
      → (is_primary_backed tenant timeline r.endpoint ≡ true)
        × (r.endpoint.status.running ≡ true)
        × (r.endpoint.status.ready ≡ true)
        × (b.password ≡ trim_space r.endpoint.conn.password)
  pub to_its_own :
      o ≡ none
      → (is_primary_backed tenant timeline r.endpoint ≡ false)
        × (same_name r.endpoint.branch name ≡ false)

module _ (name tenant timeline : Text) (r : RouteState) where
  abbrev Routes : Result NoRoute (Option BranchRoute) → Type 0
  Routes (err e) = Unit
  Routes (ok o) = IsRouted name tenant timeline r o

  applied_route-Routes :
      (r.transitioning ≡ false) × (r.blocked ≡ false) × (r.applied ≡ true)
      → any_same name r.reserved_names ≡ false
      → Routes (applied_route name tenant timeline r.endpoint)
  applied_route-Routes settled free =
      let st = r.endpoint in
      if_split Routes (is_empty (normal_id st.tenant_id) || is_empty (normal_id st.timeline_id)) _ _
        (λ _. tt)
        (λ known.
          if_split Routes (is_primary_backed tenant timeline st) _ _
            (λ backed.
              if_split Routes (not st.status.running || not st.status.ready) _ _ (λ _. tt)
                (λ live.
                  if_split Routes
                    (is_blank st.conn.database
                      || is_blank st.conn.user
                      || is_blank st.conn.password)
                    _ _ (λ _. tt)
                    (λ _. record {
                      settled = settled;
                      not_reserved = free;
                      ids = (ground arith, ground arith);
                      to_the_primary = λ b e. (backed, ground arith, ground arith, password_of b e);
                      to_its_own = λ e. absurd (ground arith);
                    })))
            (λ apart.
              if_split Routes (same_name st.branch name) _ _ (λ _. tt)
                (λ elsewhere. record {
                  settled = settled;
                  not_reserved = free;
                  ids = (ground arith, ground arith);
                  to_the_primary = λ b e. absurd (ground arith);
                  to_its_own = λ _. (apart, elsewhere);
                })))
    where
      password_of :
          (b : BranchRoute)
          → ◌≡◌ {A = Option BranchRoute}
              (some (record {
                database = trim_space r.endpoint.conn.database;
                user = trim_space r.endpoint.conn.user;
                password = trim_space r.endpoint.conn.password;
              }))
              (some b)
          → b.password ≡ trim_space r.endpoint.conn.password
      password_of b e = ground arith

  routes : Routes (branch_route name tenant timeline r)
  unfolding branch_route
  routes =
      if_split Routes r.transitioning _ _ (λ _. tt)
        (λ quiet.
          if_split Routes r.blocked _ _ (λ _. tt)
            (λ free.
              if_split Routes (any_same name r.reserved_names) _ _ (λ _. tt)
                (λ mine.
                  if_split Routes (not r.applied) _ _ (λ _. tt)
                    (λ applied. applied_route-Routes (quiet, free, ground arith) mine))))

  -- Where acquirePrimaryBranchRoute gives an answer, the primary endpoint is in no transition,
  -- not blocked and has an applied selection with both ids, and the branch is not reserved. If
  -- the answer is the primary compute, that runs, is ready and serves the ids of the branch, and
  -- the password of the route is its own. If the answer is a compute of the branch itself, the
  -- primary compute does not serve the ids of the branch and is not selected under its name.
  pub branch_route-IsRouted :
      (o : Option BranchRoute)
      → branch_route name tenant timeline r ≡ ok o
      → IsRouted name tenant timeline r o
  branch_route-IsRouted o h = of_result (branch_route name tenant timeline r) routes h
    where
      of_result :
          (x : Result NoRoute (Option BranchRoute))
          → Routes x
          → x ≡ ok o
          → IsRouted name tenant timeline r o
      of_result (ok p) i e =
          let same : p ≡ o = cc in subst (IsRouted name tenant timeline r) (same) i
      of_result (err e) i h = absurd (ground arith)

-- A reserved branch is refused, by the state that the manager of the primary endpoint gives.
same_name_self : (name : Text) → same_name name name ≡ true
unfolding equal_fold
same_name_self name = text_eq_refl (folded (trim_space name))

any_same_of_contains :
    (name : Text) (rs : List Text) → contains name rs ≡ true → any_same name rs ≡ true
unfolding contains any_same
any_same_of_contains name [] h = absurd (ground arith)
any_same_of_contains name (r ∷ rs) h =
    ground (arith, text_eq_iff r name, any_same_of_contains name rs, same_name_self name)

contains_reserved :
    (name : Text) (rs : Map ℕ)
    → 0 < or_zero 0 (lookup name rs)
    → contains name (reserved_branches rs) ≡ true
unfolding contains reserved_branches lookup
contains_reserved name [] h = absurd (omega arith)
contains_reserved name ((k, n) ∷ rs) h =
    ground (arith, text_eq_iff k name, contains_reserved name rs)

module _ {D : Type 0} (rt : Runtime D) (m : PrimaryManager) where
  abbrev Lists : Desk D × Result Errors RouteState → Type 0
  Lists (v, err es) = Unit
  Lists (v, ok r) = r.reserved_names ≡ reserved_branches m.reservations

  route_after-Lists :
      (st : RuntimeStatus) (s : Selection) (applied : Bool) (x : Desk D × Result EndpointError Bool)
      → Lists (route_after rt m st s applied x)
  route_after-Lists st s applied (v, err e) = tt
  route_after-Lists st s applied (v, ok adopted) = refl

  route_loaded-Lists :
      (st : RuntimeStatus) (w : Desk D) (o : Result ReadFault (Option Selection))
      → w.manager ≡ m
      → Lists (route_loaded rt st (w, o))
  route_loaded-Lists st w (err e) same = tt
  route_loaded-Lists st w (ok o) same = rw same (route_after-Lists st _ _ _)

  routed-Lists : (w : Desk D) (o : Option RuntimeStatus) → w.manager ≡ m → Lists (routed rt w o)
  routed-Lists w none same = tt
  routed-Lists w (some st) same =
      if_split (λ x. Lists (route_loaded rt st x)) (has_applied_path w.manager) _ _
        (λ _.
          route_loaded-Lists st (record w { runtime = (rt.applied_file w.runtime).0 })
            (load_endpoint_selection (rt.applied_file w.runtime).1) same)
        (λ _. route_loaded-Lists st w (ok (some (current_selection w.manager))) same)

module _ {D : Type 0} (rt : Runtime D) (w : Desk D) where
  state-Lists : Lists rt w.manager (primary_route_state rt w)
  unfolding primary_route_state
  state-Lists =
      routed-Lists rt w.manager (record w { runtime = (rt.status w.runtime).0 })
        (rt.status w.runtime).1 refl

  -- While the manager of the primary endpoint holds a reservation of a branch, the route state
  -- that it gives leads to no route for that branch, neither to the primary compute nor to one
  -- of its own.
  pub reserved_branch_has_no_route :
      (v : Desk D) (r : RouteState) (name tenant timeline : Text)
      → primary_route_state rt w ≡ (v, ok r)
      → 0 < reserved name w.manager
      → is_ok (branch_route name tenant timeline r) ≡ false
  reserved_branch_has_no_route v r name tenant timeline h held = refused (
      rw (subst (Lists rt w.manager) (h) state-Lists) (
        any_same_of_contains name (reserved_branches w.manager.reservations)
          (contains_reserved name w.manager.reservations held)))
    where
      refused :
          any_same name r.reserved_names ≡ true
          → is_ok (branch_route name tenant timeline r) ≡ false
      refused e = elim (Result-cases (branch_route name tenant timeline r)) [
        | inl (o, got) ↦
            absurd
              (ground (arith, (branch_route-IsRouted name tenant timeline r o got).not_reserved))
        | inr (e', got) ↦ rw got refl
      ]
