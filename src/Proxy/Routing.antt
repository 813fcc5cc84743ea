-- ===== src/Proxy/Routing.antt =====
-- internal/server/branch_endpoints.go: `acquirePrimaryBranchRoute`, which sends a branch to the
-- primary compute, lets it have one of its own, or refuses.
use neon_selfhost.Prelude.{
  Text, Bool, false, Option, none, some, List, [], ◌∷◌, Result, ok, err, is_empty, text_eq, ◌&&◌,
  ◌||◌, not, if◌then◌else◌,
}
use neon_selfhost.Prelude.Trim.{trim_space}
use neon_selfhost.Prelude.Case.{to_lower, equal_fold}
use neon_selfhost.Endpoint.Manager.{EndpointState, is_blank}
use neon_selfhost.Endpoint.Route.{RouteState}

-- Why there is no route; every one wraps ErrPrimaryEndpointUnavailable.
pub data NoRoute : Type 0 where
  unresolved in_transition to_reconcile reserved_for_transition unverified incomplete mismatched :
      NoRoute
  compute_not_ready credentials_incomplete : NoRoute

-- The address is that of the primary backend.
pub record BranchRoute : Type 0 where
  pub database : Text
  pub user : Text
  pub password : Text

abbrev pub same_name : Text → Text → Bool
same_name s t = equal_fold (trim_space s) (trim_space t)

unfoldable pub any_same : Text → List Text → Bool
any_same name [] = false
any_same name (r ∷ rs) = same_name r name || any_same name rs

abbrev pub normal_id : Text → Text
normal_id s = to_lower (trim_space s)

abbrev pub is_primary_backed : Text → Text → EndpointState → Bool
is_primary_backed tenant timeline st =
    text_eq (normal_id st.tenant_id) (normal_id tenant)
    && text_eq (normal_id st.timeline_id) (normal_id timeline)

abbrev pub to_primary : EndpointState → Result NoRoute (Option BranchRoute)
to_primary st =
    if not st.status.running || not st.status.ready
    then err NoRoute.compute_not_ready
    else if is_blank st.conn.database || is_blank st.conn.user || is_blank st.conn.password
    then err NoRoute.credentials_incomplete
    else ok (
        some (record {
          database = trim_space st.conn.database;
          user = trim_space st.conn.user;
          password = trim_space st.conn.password;
        }))

abbrev pub applied_route : Text → Text → Text → EndpointState → Result NoRoute (Option BranchRoute)
applied_route name tenant timeline st =
    if is_empty (normal_id st.tenant_id) || is_empty (normal_id st.timeline_id)
    then err NoRoute.incomplete
    else if is_primary_backed tenant timeline st
    then to_primary st
    else if same_name st.branch name
    then err NoRoute.mismatched
    else ok none

-- `none` where the branch is not backed by the primary compute
unfoldable pub branch_route : Text → Text → Text → RouteState → Result NoRoute (Option BranchRoute)
unfolding any_same
branch_route name tenant timeline r =
    if r.transitioning
    then err NoRoute.in_transition
    else if r.blocked
    then err NoRoute.to_reconcile
    else if any_same name r.reserved_names
    then err NoRoute.reserved_for_transition
    else if not r.applied
    then err NoRoute.unverified
    else applied_route name tenant timeline r.endpoint
