-- ===== src/Proxy/Kept.antt =====
-- internal/server/branch_endpoints.go: `Publish` and `Unpublish` keep the ports of the store apart.
use neon_selfhost.Prelude.{
  ap, Bool-cases, inl, inr, ◌+◌, ◌≤◌, ◌≡◌, refl, ◌∙◌, Text, Bool, true, false, Option, none, some,
  Result, ok, err, if_split, arith,
}
use neon_selfhost.Prelude.Int.{ℤ, pos}
use neon_selfhost.Prelude.Trim.{trim_space}
use neon_selfhost.Branch.Types.{Branch, Error}
use neon_selfhost.Branch.Store.{Store, get_active, set_endpoint}
use neon_selfhost.Branch.Store.Endpoints.{set_endpoint-EndpointSet}
use neon_selfhost.Endpoint.Manager.{is_blank}
use neon_selfhost.Proxy.World.{
  Compute, Inspected, Host, Settings, ProxyError, Proxy, is_published,
  allocate_port_and_start_listener, stop_listener, start_listener,
}
use neon_selfhost.Proxy.Publish.{
  ProxyState, Job, then_run, ◌>>◌, all_done, of_store, active_branch, listened, stored_endpoint,
  lacks_credentials, save_selection, set_stored_endpoint, endpoint_connection, start_at, unlistened,
  or_unlistened, publish_new, publish_saved, publish_listening, publish_again, publish_found,
  publish,
}
use neon_selfhost.Proxy.Backend.{
  answered_by, seen, inspect_compute, removed, removed_then_set, unpublish_found, unpublish,
}
use neon_selfhost.Proxy.Ports.{
  ArePortsApart, IsFree, set-ArePortsApart, start_listener-Listens, allocate_port-IsAllocated,
  allocate_port-store,
}
use neon_selfhost.Proxy.Same.{
  Same, endpoint_connection-Same, carried, save_selection-Same, stop_listener-Same, then_run_split,
}

module _ {D : Type 0} (c : Settings) (h : Host D) where
  abbrev Apart : {A : Type 0} → Proxy D × A → Type 0
  Apart out = ArePortsApart out.0.store.branches

  Apart-of-Same :
      {A : Type 0} (w : Proxy D) (out : Proxy D × A)
      → Same w.store out
      → ArePortsApart w.store.branches
      → Apart out
  Apart-of-Same w out s a = rw s a

  stored_endpoint-store :
      (w : Proxy D) (r : Store × Result Error Branch) → Same r.0 (stored_endpoint w r)
  stored_endpoint-store w (s, ok b) = refl
  stored_endpoint-store w (s, err e) = refl

  unlistened-Same :
      {A : Type 0} (name : Text) (x : Proxy D × Result ProxyError A)
      → Same x.0.store (unlistened c h name x)
  unlistened-Same name (v, ok a) = refl
  unlistened-Same name (v, err e) = stop_listener-Same c h name v

  -- the endpoint of a branch is set to a free port, or to none
  set-Apart :
      (name : Text) (published : Bool) (port : ℤ) (w : Proxy D)
      → (published ≡ true → IsFree port w.store.branches)
      → ArePortsApart w.store.branches
      → Apart (set_stored_endpoint c h name published port w)
  unfolding set_stored_endpoint
  set-Apart name published port w free apart =
      let io = (h.store_io w.host).1 in
      let r = set_endpoint io name published port w.store in
      rw (stored_endpoint-store (record w { host = (h.store_io w.host).0 }) r) (
        set-ArePortsApart (trim_space name) published port w.store.branches r.0.branches
          (set_endpoint-EndpointSet io name published port w.store) free apart)

  abbrev KeepsApart : Proxy D × Result ProxyError Unit → Type 0
  KeepsApart x = ArePortsApart x.0.store.branches

  all_done-Apart :
      (x : Proxy D × Result ProxyError Branch)
      → ArePortsApart x.0.store.branches
      → KeepsApart (then_run (λ _. all_done) x)
  all_done-Apart (v, ok b) a = a
  all_done-Apart (v, err e) a = a

  -- a new endpoint takes a port that was free, and nothing between the two changes the store
  module _ (name tenant timeline password : Text) (w : Proxy D)
      (apart : ArePortsApart w.store.branches) where
    listening-Apart :
        (v : Proxy D) (port : ℤ)
        → v.store ≡ w.store
        → IsFree port w.store.branches
        → KeepsApart (publish_listening c h name tenant timeline password port v)
    listening-Apart v port vs free =
        let save : Proxy D × Result ProxyError Unit =
          or_unlistened c h name (save_selection c h name tenant timeline password) v in
        let saved : Same w.store save =
          unlistened-Same name (save_selection c h name tenant timeline password v)
          ∙ save_selection-Same c h name tenant timeline password v
          ∙ vs in
        then_run_split c h KeepsApart (λ _. publish_saved c h name port) save
          (λ u e eq. rw (carried c h save u (err e) eq saved) apart)
          (λ u a eq.
            let us : u.store ≡ w.store = carried c h save u (ok a) eq saved in
            let x = set_stored_endpoint c h name true port u in
            all_done-Apart (unlistened c h name x) (
              rw (unlistened-Same name x)
                (set-Apart name true port u (λ _. rw us free) (rw us apart))))

    publish_new-Apart :
        c.port_start ≤ c.port_end + 1 → KeepsApart (publish_new c h name tenant timeline password w)
    publish_new-Apart range =
        let x = allocate_port_and_start_listener h c name w in
        let kept : Same w.store x = allocate_port-store h c name w range in
        then_run_split c h KeepsApart (publish_listening c h name tenant timeline password) x
          (λ v e eq. rw (carried c h x v (err e) eq kept) apart)
          (λ v port eq.
            listening-Apart v port (carried c h x v (ok port) eq kept)
              (allocate_port-IsAllocated h c name w port apart.distinct range (ap (λ p. p.1) eq)).0)

    listened-Same : (s : Store) (x : Proxy D × Bool) → Same s x → Same s (listened x)
    listened-Same s (v, true) e = e
    listened-Same s (v, false) e = e

    publish_again-Apart :
        (port : ℤ) → KeepsApart (publish_again c h name tenant timeline password port w)
    publish_again-Apart port =
        let x : Proxy D × Result ProxyError Unit = start_at c h name port w in
        let kept : Same w.store x =
          listened-Same w.store (start_listener h name port w)
            (start_listener-Listens h name port w).store in
        then_run_split c h KeepsApart (λ _. save_selection c h name tenant timeline password) x
          (λ v e eq. rw (carried c h x v (err e) eq kept) apart)
          (λ v a eq.
            rw
              (
                save_selection-Same c h name tenant timeline password v,
                carried c h x v (ok a) eq kept,
              )
              apart)

    publish_found-Apart :
        (b : Branch)
        → c.port_start ≤ c.port_end + 1
        → KeepsApart (publish_found c h name tenant timeline password b w)
    publish_found-Apart b range = elim (Bool-cases (is_published b)) [
      | inl on ↦ rw on (publish_again-Apart b.endpoint_port)
      | inr off ↦ rw off (publish_new-Apart range)
    ]

  abbrev AnswersApart : Proxy D × Result ProxyError ProxyState → Type 0
  AnswersApart x = ArePortsApart x.0.store.branches

  -- the answer of a method is that of `Connection`
  answered-Apart :
      (name : Text) (x : Proxy D × Result ProxyError Unit)
      → KeepsApart x
      → ArePortsApart (then_run (λ _. endpoint_connection c h name) x).0.store.branches
  answered-Apart name (v, ok a) k = rw (endpoint_connection-Same c h name v) k
  answered-Apart name (v, err e) k = k

  found-Apart :
      (k : Text) (f : Branch → Job D Unit) (w : Proxy D)
      → ArePortsApart w.store.branches
      → ((b : Branch) → KeepsApart (f b w))
      → KeepsApart (then_run f (active_branch k w))
  found-Apart k f w apart rest = of_result (get_active k w.store)
    where
      of_result : (r : Result Error Branch) → KeepsApart (then_run f (of_store w r))
      of_result (ok b) = rest b
      of_result (err e) = apart

  -- Where the port range is in order and no two active branches of the store are published on
  -- one port, this is still so after Publish, whatever the network, the disks and Docker answer.
  pub publish-ArePortsApart :
      (name tenant timeline password : Text) (w : Proxy D)
      → c.port_start ≤ c.port_end + 1
      → ArePortsApart w.store.branches
      → ArePortsApart (publish c h name tenant timeline password w).0.store.branches
  unfolding publish
  publish-ArePortsApart name tenant timeline password w range apart =
      let k = trim_space name in
      if_split AnswersApart (is_blank name) _ _ (λ _. apart)
        (λ _.
          if_split AnswersApart (lacks_credentials tenant timeline password) _ _ (λ _. apart)
            (λ _.
              answered-Apart name
                (then_run (publish_found c h k tenant timeline password) (active_branch k w))
                (found-Apart k (publish_found c h k tenant timeline password) w apart
                  (λ b. publish_found-Apart k tenant timeline password w apart b range))))

  -- Unpublish sets no port
  seen-Same : (w : Proxy D) (d : D) (k : Inspected) → Same w.store (seen w (d, k))
  seen-Same w d Inspected.not_inspected = refl
  seen-Same w d Inspected.gone = refl
  seen-Same w d (Inspected.exists k) = refl

  answered_by-Same :
      (e : ProxyError) (w : Proxy D) (r : D × Bool) → Same w.store (answered_by e w r)
  answered_by-Same e w (d, true) = refl
  answered_by-Same e w (d, false) = refl

  removed-Same :
      (name : Text) (o : Option Compute) (w : Proxy D) → Same w.store (removed c h name o w)
  removed-Same name none w = refl
  removed-Same name (some k) w =
      let v : Proxy D = record w { host = (h.stop name w.host).0 } in
      answered_by-Same ProxyError.remove_failed v (h.remove name v.host)

  unpublish_found-Apart :
      (name : Text) (b : Branch) (w : Proxy D)
      → ArePortsApart w.store.branches
      → KeepsApart (unpublish_found c h name b w)
  unpublish_found-Apart name b w apart =
      if_split KeepsApart b.endpoint_published _ _
        (λ _.
          let s = stop_listener h name w in
          let x : Proxy D × Result ProxyError (Option Compute) = inspect_compute c h name s in
          let i = h.inspect name s.host in
          let kept : Same w.store x = seen-Same s i.0 i.1 ∙ stop_listener-Same c h name w in
          then_run_split c h KeepsApart (removed_then_set c h name) x
            (λ v e eq. rw (carried c h x v (err e) eq kept) apart)
            (λ v o eq.
              let r = removed c h name o v in
              let rs : Same w.store r = removed-Same name o v ∙ carried c h x v (ok o) eq kept in
              then_run_split c h KeepsApart
                (λ _. set_stored_endpoint c h name false (pos 0) >> all_done) r
                (λ u e equ. rw (carried c h r u (err e) equ rs) apart)
                (λ u a equ. all_done-Apart (set_stored_endpoint c h name false (pos 0) u) (
                  set-Apart name false (pos 0) u (λ off. absurd (ground arith))
                    (rw (carried c h r u (ok a) equ rs) apart)))))
        (λ _. apart)

  pub unpublish-ArePortsApart :
      (name : Text) (w : Proxy D)
      → ArePortsApart w.store.branches
      → ArePortsApart (unpublish c h name w).0.store.branches
  unfolding unpublish
  unpublish-ArePortsApart name w apart =
      let k = trim_space name in
      if_split AnswersApart (is_blank name) _ _ (λ _. apart)
        (λ _.
          answered-Apart name (then_run (unpublish_found c h k) (active_branch k w)) (
            found-Apart k (unpublish_found c h k) w apart (λ b. unpublish_found-Apart k b w apart)))
