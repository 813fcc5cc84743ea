-- ===== src/Endpoint/Connection.antt =====
-- internal/server/primary_endpoint.go: `Connection`, `primaryRouteState`, and the adoption of what
-- the compute has applied by a manager that has no attachment. A method's reads of the manager
-- under its mutex and its work are one step here.
use neon_selfhost.Prelude.{
  Text, codes, Bool, true, false, Option, none, some, [], ◌∷◌, Result, ok, err, ◌||◌, ◌&&◌, not,
  if◌then◌else◌,
}
use neon_selfhost.Prelude.Trim.{trim_space}
use neon_selfhost.Prelude.Map.{put}
use neon_selfhost.Endpoint.Selection.{
  Selection, ReadFault, WriteFault, load_endpoint_selection, endpoint_selections_match,
}
use neon_selfhost.Endpoint.Manager.{
  ConnectionInfo, RuntimeStatus, EndpointState, PrimaryAttachment, PrimaryManager, is_blank,
  or_default, main_branch_name, password_at, has_applied_path,
}
use neon_selfhost.Endpoint.World.{Runtime, Desk, EndpointError, Errors, write_selection}

abbrev pub trimmed_attachment : Selection → PrimaryAttachment
trimmed_attachment s = record {
  tenant_id = trim_space s.tenant_id;
  timeline_id = trim_space s.timeline_id;
}

-- `branch`, `attachment` and `generation` of the manager, as a selection without a password
abbrev pub current_selection : PrimaryManager → Selection
current_selection m = record {
  generation = m.generation;
  branch = m.branch;
  tenant_id = m.attachment.tenant_id;
  timeline_id = m.attachment.timeline_id;
  password = [];
}

-- Either id keeps the manager from adopting.
abbrev pub is_unattached : PrimaryManager → Bool
is_unattached m = is_blank m.attachment.tenant_id && is_blank m.attachment.timeline_id

abbrev pub branch_to_adopt : Selection → Text
branch_to_adopt s = or_default (is_blank s.branch) main_branch_name (trim_space s.branch)

abbrev pub password_to_adopt : Selection → PrimaryManager → Text
password_to_adopt s m =
    or_default (is_blank (password_at (branch_to_adopt s) m)) m.conn.password
      (password_at (branch_to_adopt s) m)

abbrev pub taking : Text → Text → Selection → PrimaryManager → PrimaryManager
taking branch password s m = record m {
  branch = branch;
  attachment = trimmed_attachment s;
  attachments = put branch (trimmed_attachment s) m.attachments;
  passwords = put branch password m.passwords;
  conn = record (m.conn) { password = password };
  generation = trim_space s.generation;
}

-- The manager is looked at again after the write.
abbrev pub taken :
    {D : Type 0}
    → Selection
    → Text
    → Desk D × Option WriteFault
    → Desk D × Result EndpointError Bool
taken s password (w, some f) = (w, err (EndpointError.not_adopted f))
taken s password (w, none) =
    if is_unattached w.manager
    then (record w { manager = taking (branch_to_adopt s) password s w.manager }, ok true)
    else (w, ok false)

abbrev pub unready : Text → Text → RuntimeStatus → RuntimeStatus
unready state message st = record st { ready = false; state = state; message = message }

abbrev pub shown_state : ConnectionInfo → Selection → RuntimeStatus → EndpointState
shown_state conn s st = record {
  status = record st { state = trim_space st.state; message = trim_space st.message };
  branch = s.branch;
  conn = conn;
  tenant_id = s.tenant_id;
  timeline_id = s.timeline_id;
}

-- what the caller shows of the applied selection after it was adopted
abbrev pub adopted_selection : Selection → Selection
adopted_selection s = record {
  generation = trim_space s.generation;
  branch = trim_space s.branch;
  tenant_id = trim_space s.tenant_id;
  timeline_id = trim_space s.timeline_id;
  password = [];
}

abbrev pub unless_matching : Selection → Selection → RuntimeStatus → RuntimeStatus
unless_matching applied current st =
    if endpoint_selections_match applied current
    then st
    else unready (codes "unverified") (codes "applied primary attachment is unverified") st

abbrev pub may_adopt : RuntimeStatus → PrimaryManager → Bool
may_adopt st m = st.running && st.ready && is_unattached m

module _ {D : Type 0} (rt : Runtime D) where
  unfoldable pub adopt_applied_selection : Selection → Desk D → Desk D × Result EndpointError Bool
  unfolding write_selection
  adopt_applied_selection s w =
      if is_blank s.tenant_id || is_blank s.timeline_id
      then (w, ok false)
      else if not (is_unattached w.manager)
      then (w, ok false)
      else (let password = password_to_adopt s w.manager in
          taken s password
            (write_selection rt (record s { branch = branch_to_adopt s; password = password }) w))

  -- after the adoption was tried: `conn` and `current` were read before it
  abbrev pub shown_after :
      ConnectionInfo
      → Selection
      → RuntimeStatus
      → Selection
      → Desk D × Result EndpointError Bool
      → Desk D × Result Errors EndpointState
  shown_after conn current st s (w, err e) = (w, err (e ∷ []))
  shown_after conn current st s (w, ok adopted) =
      let c = if adopted then adopted_selection s else current in
      (w, ok (shown_state conn c (unless_matching s c st)))

  abbrev pub verified :
      RuntimeStatus
      → Desk D
      → Result ReadFault (Option Selection)
      → Desk D × Result Errors EndpointState
  verified st w (err e) = (w, err (EndpointError.applied_failed ∷ []))
  verified st w (ok none) = (
    w,
    ok (
        shown_state w.manager.conn (current_selection w.manager)
          (unready (codes "unverified") (codes "applied primary attachment is unverified") st)),
  )
  verified st w (ok (some s)) =
      shown_after w.manager.conn (current_selection w.manager) st s
        (if may_adopt st w.manager then adopt_applied_selection s w else (w, ok false))

  abbrev pub read_applied : Desk D → Desk D × Result ReadFault (Option Selection)
  read_applied w =
      let (d, file) = rt.applied_file w.runtime in
      (record w { runtime = d }, load_endpoint_selection file)

  abbrev pub connected : Desk D → Option RuntimeStatus → Desk D × Result Errors EndpointState
  connected w none = (w, err (EndpointError.status_failed ∷ []))
  connected w (some st) =
      let show =
        λ (st : RuntimeStatus). shown_state w.manager.conn (current_selection w.manager) st in
      if w.manager.transitioning
      then (
        w,
        ok (
            show (
              unready (codes "switching") (codes "primary attachment transition is in progress")
                st)),
      )
      else if w.manager.route_blocked
      then (
        w,
        ok (
            show (
              unready (codes "unverified")
                (codes "primary attachment state requires reconciliation") st)),
      )
      else if has_applied_path w.manager
      then (let (v, r) = read_applied w in verified st v r)
      else (w, ok (show st))

  unfoldable pub connection : Desk D → Desk D × Result Errors EndpointState
  unfolding adopt_applied_selection
  connection w = let (d, r) = rt.status w.runtime in connected (record w { runtime = d }) r
