-- ===== src/Endpoint/Honest.antt =====
-- internal/server/primary_endpoint.go: `Connection` says that the endpoint is ready only where that
-- is known, and leaves an attached manager alone.
use neon_selfhost.Prelude.{
  ap, ◌≡◌, refl, Text, Bool, true, false, if_split, Option, none, some, [], Result, ok, err,
  if◌then◌else◌, arith,
}
use mathlib.Core.Path.{subst}
use neon_selfhost.Endpoint.Selection.{
  Selection, ReadFault, load_endpoint_selection, endpoint_selections_match,
}
use neon_selfhost.Endpoint.Manager.{RuntimeStatus, EndpointState, has_applied_path}
use neon_selfhost.Endpoint.World.{Runtime, Desk, EndpointError, Errors}
use neon_selfhost.Endpoint.Connection.{
  current_selection, adopted_selection, is_unattached, may_adopt, shown_state, unless_matching,
  connection, connected, verified, shown_after, adopt_applied_selection,
}

-- the selection that an answer shows, of the generation `g`
abbrev pub shown_selection : Text → EndpointState → Selection
shown_selection g st = record {
  generation = g;
  branch = st.branch;
  tenant_id = st.tenant_id;
  timeline_id = st.timeline_id;
  password = [];
}

module _ {D : Type 0} (rt : Runtime D) where
  -- The file of the compute holds what the answer shows.
  pub record IsApplied (w : Desk D) (st : EndpointState) : Type 0 where
    pub selection : Selection
    pub generation : Text
    pub read :
        load_endpoint_selection (rt.applied_file (rt.status w.runtime).0).1 ≡ ok (some selection)
    pub same : endpoint_selections_match selection (shown_selection generation st) ≡ true
    pub of_manager :
        is_unattached w.manager ≡ false
        → shown_selection generation st ≡ current_selection w.manager

  pub record IsReady (w : Desk D) (st : EndpointState) : Type 0 where
    pub status : RuntimeStatus
    pub answered : (rt.status w.runtime).1 ≡ some status
    pub live : (status.ready ≡ true) × (status.running ≡ st.status.running)
    pub no_transition : w.manager.transitioning ≡ false
    pub not_blocked : w.manager.route_blocked ≡ false
    pub applied : has_applied_path w.manager ≡ true → IsApplied w st

  abbrev Honest : Desk D → Desk D × Result Errors EndpointState → Type 0
  Honest w (v, err es) = Unit
  Honest w (v, ok st) = st.status.ready ≡ true → IsReady w st

  module _ (w : Desk D) (st : RuntimeStatus) (answered : (rt.status w.runtime).1 ≡ some st)
      (quiet : w.manager.transitioning ≡ false) (open' : w.manager.route_blocked ≡ false) where
    matching :
        (s c : Selection) (v : Desk D)
        → load_endpoint_selection (rt.applied_file (rt.status w.runtime).0).1 ≡ ok (some s)
        → c.password ≡ []
        → (is_unattached w.manager ≡ false → c ≡ current_selection w.manager)
        → Honest w (v, ok (shown_state w.manager.conn c (unless_matching s c st)))
    matching s c v read bare mine =
        if_split (λ r. Honest w (v, ok (shown_state w.manager.conn c r)))
          (endpoint_selections_match s c) _ _
          (λ same ready. record {
            status = st;
            answered = answered;
            live = (ready, refl);
            no_transition = quiet;
            not_blocked = open';
            applied = λ _. record {
              selection = s;
              generation = c.generation;
              read = read;
              same = unfold endpoint_selections_match in same;
              of_manager = λ attached. shown_current c (bare) (mine attached);
            };
          })
          (λ _ h. absurd (ground arith))
      where
        shown_current :
            (c : Selection)
            → c.password ≡ []
            → c ≡ current_selection w.manager
            → shown_selection c.generation (shown_state w.manager.conn c st)
              ≡ current_selection w.manager
        shown_current c b e = ground (arith, b, e)

    shown_after-Honest :
        (s : Selection) (x : Desk D × Result EndpointError Bool)
        → load_endpoint_selection (rt.applied_file (rt.status w.runtime).0).1 ≡ ok (some s)
        → (is_unattached w.manager ≡ false → x.1 ≡ ok false)
        → Honest w (shown_after rt w.manager.conn (current_selection w.manager) st s x)
    shown_after-Honest s (v, err e) read kept = tt
    shown_after-Honest s (v, ok true) read kept =
        matching s (adopted_selection s) v read refl (λ h. absurd (ground (arith, kept h)))
    shown_after-Honest s (v, ok false) read kept =
        matching s (current_selection w.manager) v read refl (λ _. refl)

    kept_attached :
        (s : Selection) (v : Desk D)
        → is_unattached w.manager ≡ false
        → (if may_adopt st w.manager then adopt_applied_selection rt s v else (v, ok false))
          ≡ (v, ok false)
    kept_attached s v attached = rw (attached_stays attached) refl
      where
        attached_stays : is_unattached w.manager ≡ false → may_adopt st w.manager ≡ false
        attached_stays h = ground arith

    verified-Honest :
        (r : Result ReadFault (Option Selection))
        → load_endpoint_selection (rt.applied_file (rt.status w.runtime).0).1 ≡ r
        → Honest w
            (verified rt st (record w { runtime = (rt.applied_file (rt.status w.runtime).0).0 }) r)
    verified-Honest (err e) read = tt
    verified-Honest (ok none) read = λ h. absurd (ground arith)
    verified-Honest (ok (some s)) read =
        shown_after-Honest s _ read (λ attached. ap (λ p. p.1) (kept_attached s _ attached))

  connected-Honest :
      (w : Desk D) (o : Option RuntimeStatus)
      → (rt.status w.runtime).1 ≡ o
      → Honest w (connected rt (record w { runtime = (rt.status w.runtime).0 }) o)
  connected-Honest w none answered = tt
  connected-Honest w (some st) answered =
      if_split (Honest w) w.manager.transitioning _ _ (λ _ h. absurd (ground arith))
        (λ quiet.
          if_split (Honest w) w.manager.route_blocked _ _ (λ _ h. absurd (ground arith))
            (λ free.
              if_split (Honest w) (has_applied_path w.manager) _ _
                (λ _. verified-Honest w st answered quiet free _ refl)
                (λ bare ready. record {
                  status = st;
                  answered = answered;
                  live = (ready, refl);
                  no_transition = quiet;
                  not_blocked = free;
                  applied = λ path. absurd (ground arith);
                })))

  -- What an attached manager keeps.
  abbrev Keeps : Desk D → {A : Type 0} → Desk D × A → Type 0
  Keeps w out = (out.0.manager ≡ w.manager) × (out.0.file ≡ w.file)

  verified-Keeps :
      (st : RuntimeStatus) (w : Desk D) (r : Result ReadFault (Option Selection))
      → is_unattached w.manager ≡ false
      → Keeps w (verified rt st w r)
  verified-Keeps st w (err e) h = (refl, refl)
  verified-Keeps st w (ok none) h = (refl, refl)
  verified-Keeps st w (ok (some s)) h = rw (attached_stays) (refl, refl)
    where
      attached_stays : may_adopt st w.manager ≡ false
      attached_stays = ground (arith, h)

  connected-Keeps :
      (w : Desk D) (o : Option RuntimeStatus)
      → is_unattached w.manager ≡ false
      → Keeps w (connected rt w o)
  connected-Keeps w none h = (refl, refl)
  connected-Keeps w (some st) h =
      let P : Desk D × Result Errors EndpointState → Type 0 = λ x. Keeps w x in
      if_split P w.manager.transitioning _ _ (λ _. (refl, refl))
        (λ _.
          if_split P w.manager.route_blocked _ _ (λ _. (refl, refl))
            (λ _.
              if_split P (has_applied_path w.manager) _ _
                (λ _.
                  let a = rt.applied_file w.runtime in
                  verified-Keeps st (record w { runtime = a.0 }) (load_endpoint_selection a.1) h)
                (λ _. (refl, refl))))

  -- Connection answers that the endpoint is ready only where the runtime said so, no transition
  -- is open, the route is not blocked and, if there is a selection path, the file of the compute
  -- holds a selection that matches the branch and the ids of the answer, which are those of the
  -- manager if it is attached. It never changes an attached manager or the selection file of
  -- one.
  pub connection-IsHonest :
      (w : Desk D)
      → ((st : EndpointState) → (connection rt w).1 ≡ ok st → st.status.ready ≡ true → IsReady w st)
        × (is_unattached w.manager ≡ false
            → ((connection rt w).0.manager ≡ w.manager) × ((connection rt w).0.file ≡ w.file))
  unfolding connection
  connection-IsHonest w = (
    honest,
    λ attached.
        connected-Keeps (record w { runtime = (rt.status w.runtime).0 }) (rt.status w.runtime).1
          attached,
  )
    where
      of_result :
          (x : Desk D × Result Errors EndpointState)
          → Honest w x
          → (st : EndpointState) → x.1 ≡ ok st
          → st.status.ready ≡ true
          → IsReady w st
      of_result (v, ok s) h st e ready =
          let same : s ≡ st = cc in subst (λ s. s.status.ready ≡ true → IsReady w s) (same) h ready
      of_result (v, err es) h st e ready = absurd (ground arith)

      honest :
          (st : EndpointState) → (connection rt w).1 ≡ ok st → st.status.ready ≡ true → IsReady w st
      honest =
          of_result
            (connected rt (record w { runtime = (rt.status w.runtime).0 }) (rt.status w.runtime).1)
            (connected-Honest w (rt.status w.runtime).1 refl)
