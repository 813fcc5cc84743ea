-- ===== src/Endpoint/Closed.antt =====
-- internal/server/primary_endpoint.go: `Connection` opens no transition and ends none.
use neon_selfhost.Prelude.{
  ◌≡◌, refl, Text, Bool, if_split, Option, none, some, Result, ok, err, ◌||◌, not,
}
use neon_selfhost.Endpoint.Selection.{Selection, ReadFault, WriteFault, load_endpoint_selection}
use neon_selfhost.Endpoint.Manager.{RuntimeStatus, EndpointState, is_blank, has_applied_path}
use neon_selfhost.Endpoint.World.{Runtime, Desk, EndpointError, Errors, write_selection}
use neon_selfhost.Endpoint.Connection.{
  is_unattached, branch_to_adopt, password_to_adopt, taken, adopt_applied_selection, shown_after,
  may_adopt, verified, connected, connection,
}
use neon_selfhost.Endpoint.Steps.{write_split}

module _ {D : Type 0} (rt : Runtime D) where
  -- the flag of the manager of `w` is still there
  abbrev KeepsFlag : Desk D → {A : Type 0} → Desk D × A → Type 0
  KeepsFlag w out = out.0.manager.transitioning ≡ w.manager.transitioning

  module _ (w : Desk D) where
    taken-KeepsFlag :
        (s : Selection) (password : Text) (r : Desk D × Option WriteFault)
        → KeepsFlag w r
        → KeepsFlag w (taken s password r)
    taken-KeepsFlag s password (v, some f) h = h
    taken-KeepsFlag s password (v, none) h =
        if_split (KeepsFlag w) (is_unattached v.manager) _ _ (λ _. h) (λ _. h)

    adopt-KeepsFlag : (s : Selection) → KeepsFlag w (adopt_applied_selection rt s w)
    unfolding adopt_applied_selection
    adopt-KeepsFlag s =
        let P : Desk D × Result EndpointError Bool → Type 0 = λ x. KeepsFlag w x in
        let password = password_to_adopt s w.manager in
        let next = record s { branch = branch_to_adopt s; password = password } in
        if_split P (is_blank s.tenant_id || is_blank s.timeline_id) _ _ (λ _. refl)
          (λ _.
            if_split P (not (is_unattached w.manager)) _ _ (λ _. refl)
              (λ _.
                taken-KeepsFlag s password (write_selection rt next w)
                  (write_split rt next w (KeepsFlag w) (λ d f. refl) (λ d. refl))))

    shown_after-KeepsFlag :
        (conn : _) (current : Selection) (st : RuntimeStatus) (s : Selection)
        (x : Desk D × Result EndpointError Bool)
        → KeepsFlag w x
        → KeepsFlag w (shown_after rt conn current st s x)
    shown_after-KeepsFlag conn current st s (v, err e) h = h
    shown_after-KeepsFlag conn current st s (v, ok adopted) h = h

  verified-KeepsFlag :
      (st : RuntimeStatus) (w : Desk D) (r : Result ReadFault (Option Selection))
      → KeepsFlag w (verified rt st w r)
  verified-KeepsFlag st w (err e) = refl
  verified-KeepsFlag st w (ok none) = refl
  verified-KeepsFlag st w (ok (some s)) = shown_after-KeepsFlag w _ _ st s _ (
      if_split (λ (x : Desk D × Result EndpointError Bool). KeepsFlag w x) (may_adopt st w.manager)
        _ _ (λ _. adopt-KeepsFlag w s) (λ _. refl))

  connected-KeepsFlag : (w : Desk D) (o : Option RuntimeStatus) → KeepsFlag w (connected rt w o)
  connected-KeepsFlag w none = refl
  connected-KeepsFlag w (some st) =
      let P : Desk D × Result Errors EndpointState → Type 0 = λ x. KeepsFlag w x in
      if_split P w.manager.transitioning _ _ (λ _. refl)
        (λ _.
          if_split P w.manager.route_blocked _ _ (λ _. refl)
            (λ _.
              if_split P (has_applied_path w.manager) _ _
                (λ _.
                  let a = rt.applied_file w.runtime in
                  verified-KeepsFlag st (record w { runtime = a.0 }) (load_endpoint_selection a.1))
                (λ _. refl)))

  pub connection-KeepsFlag :
      (w : Desk D) → (connection rt w).0.manager.transitioning ≡ w.manager.transitioning
  unfolding connection
  connection-KeepsFlag w =
      connected-KeepsFlag (record w { runtime = (rt.status w.runtime).0 }) (rt.status w.runtime).1
