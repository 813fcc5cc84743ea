-- ===== src/Endpoint/Route.antt =====
-- internal/server/primary_endpoint.go: `primaryRouteState`, what the routes of the branches are told
-- of the primary endpoint.
use neon_selfhost.Prelude.{
  Text, Bool, true, false, Option, none, some, List, [], ◌∷◌, Result, ok, err, ◌&&◌, not,
  if◌then◌else◌,
}
use neon_selfhost.Endpoint.Selection.{Selection, ReadFault, endpoint_selections_match}
use neon_selfhost.Endpoint.Manager.{
  RuntimeStatus, EndpointState, PrimaryManager, is_blank, has_applied_path, reserved_branches,
}
use neon_selfhost.Endpoint.World.{Runtime, Desk, EndpointError, Errors}
use neon_selfhost.Endpoint.Connection.{
  current_selection, adopted_selection, may_adopt, shown_state, read_applied,
  adopt_applied_selection,
}

pub record RouteState : Type 0 where
  pub endpoint : EndpointState
  pub applied : Bool
  pub transitioning : Bool
  pub blocked : Bool
  pub reserved_names : List Text

abbrev pub empty_selection : Selection
empty_selection = record {
  generation = [];
  branch = [];
  tenant_id = [];
  timeline_id = [];
  password = [];
}

abbrev pub or_nothing : Option Selection → Selection × Bool
or_nothing none = (empty_selection, false)
or_nothing (some s) = (s, true)

module _ {D : Type 0} (rt : Runtime D) where
  -- at an empty path the attachment of the manager counts as applied
  abbrev pub applied_or_current : Desk D → Desk D × Result ReadFault (Option Selection)
  applied_or_current w =
      if has_applied_path w.manager
      then read_applied rt w
      else (w, ok (some (current_selection w.manager)))

  abbrev pub counts_as_applied : PrimaryManager → Bool → Bool
  counts_as_applied m found =
      if has_applied_path m
      then found
      else not (is_blank m.attachment.tenant_id) && not (is_blank m.attachment.timeline_id)

  -- `m` is the manager as it was read before the adoption was tried
  abbrev pub route_after :
      PrimaryManager
      → RuntimeStatus
      → Selection
      → Bool
      → Desk D × Result EndpointError Bool
      → Desk D × Result Errors RouteState
  route_after m st s applied (w, err e) = (w, err (e ∷ []))
  route_after m st s applied (w, ok adopted) =
      let current = if adopted then adopted_selection s else current_selection m in
      (
        w,
        ok (record {
          endpoint = shown_state m.conn (adopted_selection s) st;
          applied = applied && endpoint_selections_match s current;
          transitioning = m.transitioning;
          blocked = m.route_blocked;
          reserved_names = reserved_branches m.reservations;
        }),
      )

  abbrev pub route_of :
      RuntimeStatus → Selection → Bool → Desk D → Desk D × Result Errors RouteState
  route_of st s applied w =
      route_after w.manager st s applied (
        if applied && may_adopt st w.manager then adopt_applied_selection rt s w else (w, ok false))

  abbrev pub route_loaded :
      RuntimeStatus
      → Desk D × Result ReadFault (Option Selection)
      → Desk D × Result Errors RouteState
  route_loaded st (w, err e) = (w, err (EndpointError.applied_failed ∷ []))
  route_loaded st (w, ok o) =
      let (s, found) = or_nothing o in route_of st s (counts_as_applied w.manager found) w

  abbrev pub routed : Desk D → Option RuntimeStatus → Desk D × Result Errors RouteState
  routed w none = (w, err (EndpointError.status_failed ∷ []))
  routed w (some st) = route_loaded st (applied_or_current w)

  unfoldable pub primary_route_state : Desk D → Desk D × Result Errors RouteState
  unfolding adopt_applied_selection reserved_branches
  primary_route_state w = let (d, r) = rt.status w.runtime in routed (record w { runtime = d }) r
