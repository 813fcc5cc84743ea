-- ===== src/Proxy/Client.antt =====
-- internal/server/branch_endpoints.go: one client of a published branch, from its acceptance to its
-- end, and what `List`, a restart and `Close` do to all branches.
use neon_selfhost.Prelude.{
  Text, Bool, true, false, Option, none, some, List, [], ◌∷◌, ◌++◌, Result, ok, err, not,
  if◌then◌else◌,
}
use neon_selfhost.Prelude.Int.{ℤ}
use neon_selfhost.Prelude.Map.{Map}
use neon_selfhost.Branch.Types.{Branch}
use neon_selfhost.Branch.Store.{list_active}
use neon_selfhost.Proxy.Routing.{NoRoute, BranchRoute}
use neon_selfhost.Proxy.World.{
  Compute, Host, Settings, ProxyError, Proxy, is_published, record_error, clear_error,
  start_listener, try_increment_active,
}
use neon_selfhost.Proxy.Publish.{
  ProxyState, Job, then_run, ◌>>=◌, ◌>>◌, all_done, active_branch, lacks_credentials,
  acquire_primary_branch_route, endpoint_connection,
}
use neon_selfhost.Proxy.Backend.{
  answered_by, ensure_compute_running, inspect_compute, stop_compute, remove_compute,
}

module _ {D : Type 0} (c : Settings) (h : Host D) where
  abbrev pub admitted : Text → Proxy D × Bool → Proxy D × Bool
  admitted name (w, true) = (w, true)
  admitted name (w, false) = (record_error name ProxyError.too_many_connections w, false)

  -- a client beyond the limit is turned away
  unfoldable pub admit_client : Text → Proxy D → Proxy D × Bool
  unfolding try_increment_active
  admit_client name w = admitted name (try_increment_active c name w)

  -- whether the backend is the primary one; otherwise it is that of the branch, and it runs
  abbrev pub backed :
      Text
      → Branch
      → Proxy D × Result NoRoute (Option BranchRoute)
      → Proxy D × Result ProxyError Bool
  backed name b (w, err e) = (w, err (ProxyError.no_route e))
  backed name b (w, ok (some r)) = (w, ok true)
  backed name b (w, ok none) =
      then_run (λ _ v. (v, ok false))
        (ensure_compute_running c h name b.tenant_id b.timeline_id b.password w)

  abbrev pub find_backend : Text → Branch → Job D Bool
  find_backend name b w =
      if not (is_published b)
      then (w, err ProxyError.not_published)
      else if lacks_credentials b.tenant_id b.timeline_id b.password
      then (w, err ProxyError.credentials_missing)
      else backed name b (acquire_primary_branch_route c h name b.tenant_id b.timeline_id w)

  abbrev pub dial_backend : Text → Bool → Job D Unit
  dial_backend name primary w =
      answered_by ProxyError.dial_failed w
        (if primary then h.dial_primary w.host else h.dial name w.host)

  abbrev pub noted : Text → Proxy D × Result ProxyError Unit → Proxy D × Bool
  noted name (w, ok _) = (clear_error name w, true)
  noted name (w, err e) = (record_error name e w, false)

  -- handleClientConnection between the two changes of the count; `true` where bytes are copied
  unfoldable pub connect_client : Text → Proxy D → Proxy D × Bool
  unfolding acquire_primary_branch_route ensure_compute_running
  connect_client name w =
      noted name
        ((do b ← active_branch name; primary ← find_backend name b; dial_backend name primary) w)

  abbrev pub listed_rest :
      ProxyState
      → Proxy D × Result ProxyError (List ProxyState)
      → Proxy D × Result ProxyError (List ProxyState)
  listed_rest st (w, ok sts) = (w, ok (st ∷ sts))
  listed_rest st (w, err e) = (w, err e)

  -- the branches come in the order of their names, in which `List` sorts its answer
  unfoldable pub list_endpoints : List Branch → Job D (List ProxyState)
  unfolding endpoint_connection
  list_endpoints [] w = (w, ok [])
  list_endpoints (b ∷ bs) w =
      let rest = λ (v : Proxy D). list_endpoints bs v in
      if is_published b
      then then_run (λ st v. listed_rest st (rest v)) (endpoint_connection c h b.name w)
      else rest w

  unfoldable pub list_published : Job D (List ProxyState)
  unfolding list_endpoints
  list_published w = list_endpoints (list_active w.store) w

  abbrev pub relistened : Text → Proxy D × Bool → Proxy D
  relistened name (w, true) = clear_error name w
  relistened name (w, false) = record_error name ProxyError.listener_failed w

  unfoldable pub restore_listeners : List Branch → Proxy D → Proxy D
  unfolding start_listener
  restore_listeners [] w = w
  restore_listeners (b ∷ bs) w =
      restore_listeners bs (
        if is_published b then relistened b.name (start_listener h b.name b.endpoint_port w) else w)

  unfoldable pub restore_published_listeners : Proxy D → Proxy D
  unfolding restore_listeners
  restore_published_listeners w = restore_listeners (list_active w.store) w

  abbrev pub all_hung_up : Map ℤ → D → D
  all_hung_up [] d = d
  all_hung_up ((name, p) ∷ ls) d = all_hung_up ls (h.hang_up p d)

  abbrev pub shut_down : Text → Option Compute → Job D Unit
  shut_down name none = all_done
  shut_down name (some k) = do stop_compute c h name; remove_compute c h name

  abbrev pub errors_of : Result ProxyError Unit → List ProxyError
  errors_of (ok _) = []
  errors_of (err e) = e ∷ []

  abbrev pub with_errors :
      List ProxyError → (Proxy D → Proxy D × List ProxyError) → Proxy D → Proxy D × List ProxyError
  with_errors es rest w = let (v, fs) = rest w in (v, es ++ fs)

  -- an error of one branch does not keep the others from being stopped
  unfoldable pub stop_all : List Branch → Proxy D → Proxy D × List ProxyError
  stop_all [] w = (w, [])
  stop_all (b ∷ bs) w =
      let rest = stop_all bs in
      if b.endpoint_published
      then (let (v, r) = (inspect_compute c h b.name >>= λ k. shut_down b.name k) w in
          with_errors (errors_of r) rest v)
      else rest w

  -- the close of a listener is not seen to fail here
  unfoldable pub close_controller : Proxy D → Proxy D × List ProxyError
  unfolding stop_all
  close_controller w = stop_all (list_active w.store) (record w {
    listeners = [];
    active_conns = [];
    idle_timers = [];
    last_errors = [];
    host = all_hung_up w.listeners w.host;
  })
