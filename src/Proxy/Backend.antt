-- ===== src/Proxy/Backend.antt =====
-- internal/server/branch_endpoints.go: the compute of a branch, from the container that is made or
-- started for it to the stop when it is idle or must give way to the primary compute.
use neon_selfhost.Prelude.{
  ℕ, zero, suc, ◌+◌, ◌/◌, Text, Bool, true, false, Option, none, some, Result, ok, err, ltb,
  text_eq, ◌==◌, if◌then◌else◌,
}
use neon_selfhost.Prelude.Int.{pos}
use neon_selfhost.Prelude.Trim.{trim_space}
use neon_selfhost.Branch.Types.{Branch, Error, not_found}
use neon_selfhost.Branch.Store.{get_active}
use neon_selfhost.Endpoint.Manager.{is_blank}
use neon_selfhost.Proxy.World.{
  Compute, Inspected, Host, Settings, ProxyError, Proxy, is_published, count_of, record_error,
  without_timer, stop_listener,
}
use neon_selfhost.Proxy.Publish.{
  ProxyState, Job, then_run, ◌>>=◌, ◌>>◌, refuse, all_done, active_branch, save_selection,
  set_stored_endpoint, endpoint_connection,
}

abbrev pub answered_by :
    {D : Type 0} → ProxyError → Proxy D → D × Bool → Proxy D × Result ProxyError Unit
answered_by e w (d, true) = (record w { host = d }, ok tt)
answered_by e w (d, false) = (record w { host = d }, err e)

abbrev pub seen :
    {D : Type 0} → Proxy D → D × Inspected → Proxy D × Result ProxyError (Option Compute)
seen w (d, Inspected.not_inspected) = (record w { host = d }, err ProxyError.inspect_failed)
seen w (d, Inspected.gone) = (record w { host = d }, ok none)
seen w (d, Inspected.exists k) = (record w { host = d }, ok (some k))

-- the polls of a wait: one for each sleep within the timeout, one at once and one past it
abbrev pub backend_interval : ℕ
backend_interval = 500

abbrev pub drain_interval : ℕ
drain_interval = 50

abbrev pub backend_rounds : ℕ → ℕ
backend_rounds timeout = suc (timeout / backend_interval + 1)

abbrev pub drain_rounds : ℕ → ℕ
drain_rounds timeout = suc (timeout / drain_interval + 1)

module _ {D : Type 0} (c : Settings) (h : Host D) where
  abbrev pub inspect_compute : Text → Job D (Option Compute)
  inspect_compute name w = seen w (h.inspect name w.host)

  abbrev pub create_compute : Text → Job D Unit
  create_compute name w = answered_by ProxyError.create_failed w (h.create name w.host)

  abbrev pub start_compute : Text → Job D Unit
  start_compute name w = answered_by ProxyError.start_failed w (h.start name w.host)

  abbrev pub stop_compute : Text → Job D Unit
  stop_compute name w = answered_by ProxyError.stop_failed w (h.stop name w.host)

  abbrev pub remove_compute : Text → Job D Unit
  remove_compute name w = answered_by ProxyError.remove_failed w (h.remove name w.host)

  -- a container of another image is replaced, unless it runs
  abbrev pub reconcile_compute_image : Text → Option Compute → Job D (Option Compute)
  reconcile_compute_image name none w = (w, ok none)
  reconcile_compute_image name (some k) w =
      if text_eq (trim_space k.image) (trim_space c.compute_image)
      then (w, ok (some k))
      else if k.running
      then (w, err ProxyError.stale_image)
      else then_run (λ _ v. (v, ok none)) (remove_compute name w)

  abbrev pub dialled : (D → D × Result ProxyError Unit) → D × Bool → D × Result ProxyError Unit
  dialled again (d, true) = (d, ok tt)
  dialled again (d, false) = again (h.sleep backend_interval d)

  unfoldable pub wait_for_backend_from : ℕ → ℕ → Text → D → D × Result ProxyError Unit
  wait_for_backend_from zero deadline name d = (d, err ProxyError.rounds_over)
  wait_for_backend_from (suc n) deadline name d =
      let again = wait_for_backend_from n deadline name in
      if ltb deadline (h.now d)
      then (d, err ProxyError.startup_timed_out)
      else dialled again (h.dial name d)

  abbrev pub hosted : Proxy D → D × Result ProxyError Unit → Proxy D × Result ProxyError Unit
  hosted w (d, r) = (record w { host = d }, r)

  unfoldable pub wait_for_backend : Text → Job D Unit
  unfolding wait_for_backend_from
  wait_for_backend name w = hosted w (
      wait_for_backend_from (backend_rounds c.startup_timeout) (h.now w.host + c.startup_timeout)
        name w.host)

  abbrev pub made_running : Text → Option Compute → Job D Unit
  made_running name none = do create_compute name; start_compute name
  made_running name (some k) = if k.running then all_done else start_compute name

  unfoldable pub ensure_compute_running : Text → Text → Text → Text → Job D Unit
  unfolding save_selection wait_for_backend
  ensure_compute_running name tenant timeline password = do
    save_selection c h name tenant timeline password
    found ← inspect_compute name
    kept ← reconcile_compute_image name found
    made_running name kept
    wait_for_backend name

  -- Unpublish: a stop that fails is passed over
  abbrev pub removed : Text → Option Compute → Job D Unit
  removed name none w = (w, ok tt)
  removed name (some k) w = remove_compute name (record w { host = (h.stop name w.host).0 })

  abbrev pub removed_then_set : Text → Option Compute → Job D Unit
  removed_then_set name found = do
    removed name found
    b ← set_stored_endpoint c h name false (pos 0)
    all_done

  abbrev pub unpublish_found : Text → Branch → Job D Unit
  unpublish_found name b w =
      if b.endpoint_published
      then then_run (removed_then_set name) (inspect_compute name (stop_listener h name w))
      else (w, ok tt)

  unfoldable pub unpublish : Text → Job D ProxyState
  unfolding stop_listener set_stored_endpoint endpoint_connection
  unpublish name w =
      if is_blank name
      then (w, err (ProxyError.store_failed not_found))
      else (active_branch (trim_space name)
            >>= (λ b. unpublish_found (trim_space name) b)
            >> endpoint_connection c h name)
          w

  abbrev pub restarted : Text → Option Compute → Job D Unit
  restarted name none = all_done
  restarted name (some k) =
      if k.running
      then (do stop_compute name; start_compute name; wait_for_backend name)
      else all_done

  abbrev pub refresh_found : Text → Text → Text → Text → Branch → Job D Unit
  refresh_found name tenant timeline password b =
      if is_published b
      then (do
        save_selection c h name tenant timeline password
        found ← inspect_compute name
        restarted name found)
      else all_done

  unfoldable pub refresh : Text → Text → Text → Text → Job D Unit
  unfolding save_selection wait_for_backend
  refresh name tenant timeline password =
      if is_blank name
      then refuse (ProxyError.store_failed not_found)
      else (active_branch (trim_space name) >>= λ b.
          refresh_found (trim_space name) tenant timeline password b)

  -- `others` is what the other goroutines do to the controller during each sleep
  unfoldable pub drained_from : ℕ → ℕ → Text → (ℕ → Proxy D → Proxy D) → Job D Unit
  drained_from zero deadline name others w = (w, err ProxyError.rounds_over)
  drained_from (suc n) deadline name others w =
      let again = drained_from n deadline name others in
      if count_of name w == 0
      then (w, ok tt)
      else if ltb deadline (h.now w.host)
      then (w, err ProxyError.still_active)
      else again (others n (record w { host = h.sleep drain_interval w.host }))

  abbrev pub given_way : Text → Option Compute → Job D Unit
  given_way name none = all_done
  given_way name (some k) =
      if k.running then (do stop_compute name; remove_compute name) else remove_compute name

  abbrev pub prepared : Text → Job D Unit
  prepared name w = (inspect_compute name >>= λ found. given_way name found) (without_timer name w)

  unfoldable pub prepare_primary_switch : Text → (ℕ → Proxy D → Proxy D) → Job D Unit
  unfolding drained_from
  prepare_primary_switch name others w =
      if is_blank name
      then (w, err (ProxyError.store_failed not_found))
      else then_run (λ _ v. prepared (trim_space name) v)
          (drained_from (drain_rounds c.drain_timeout) (h.now w.host + c.drain_timeout)
            (trim_space name) others w)

  abbrev pub idle_stopped : Text → Proxy D → D × Bool → Proxy D
  idle_stopped name w (d, true) = record w { host = d }
  idle_stopped name w (d, false) = record_error name ProxyError.stop_failed (record w { host = d })

  abbrev pub idle_seen : Text → Proxy D → D × Inspected → Proxy D
  idle_seen name w (d, Inspected.not_inspected) =
      record_error name ProxyError.inspect_failed (record w { host = d })
  idle_seen name w (d, Inspected.gone) = record w { host = d }
  idle_seen name w (d, Inspected.exists k) =
      if k.running
      then idle_stopped name (record w { host = d }) (h.stop name d)
      else record w { host = d }

  abbrev pub idle_branch : Text → Proxy D → Result Error Branch → Proxy D
  idle_branch name w (err e) = w
  idle_branch name w (ok b) =
      if b.endpoint_published then idle_seen name w (h.inspect name w.host) else w

  -- the timer of an idle branch runs out
  unfoldable pub stop_branch_compute_for_idle : Text → Proxy D → Proxy D
  stop_branch_compute_for_idle name w =
      let v = without_timer name w in
      if ltb 0 (count_of name w) then v else idle_branch name v (get_active name v.store)
