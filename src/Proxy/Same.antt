-- ===== src/Proxy/Same.antt =====
-- internal/server/branch_endpoints.go: the parts of the methods that do not touch the store.
use neon_selfhost.Prelude.{
  ap, Bool-cases, inl, inr, ◌≡◌, refl, ◌∙◌, sym, Text, Option, none, some, Result, ok, err, is_some,
  not, if_split, arith,
}
use neon_selfhost.Prelude.Trim.{trim_space}
use neon_selfhost.Prelude.Map.{lookup}
use neon_selfhost.Branch.Types.{Branch, Error}
use neon_selfhost.Branch.Store.{Store, get_active}
use neon_selfhost.Endpoint.Selection.{SelectionFile, WriteFault, write_endpoint_selection}
use neon_selfhost.Endpoint.Manager.{is_blank}
use neon_selfhost.Proxy.Routing.{NoRoute, BranchRoute}
use neon_selfhost.Proxy.World.{Host, Settings, ProxyError, Proxy, is_published, stop_listener}
use neon_selfhost.Proxy.Publish.{
  ProxyState, Job, then_run, of_store, active_branch, filed, file_at, branch_selection,
  selection_name, lacks_credentials, save_selection, acquire_primary_branch_route, with_route,
  shown_endpoint, state_of, endpoint_connection,
}

abbrev pub Same : {D A : Type 0} → Store → Proxy D × A → Type 0
Same s out = out.0.store ≡ s

module _ {D : Type 0} (c : Settings) (h : Host D) where
  filed-Same :
      (name : Text) (w : Proxy D) (r : SelectionFile × Option WriteFault)
      → Same w.store (filed name w r)
  filed-Same name w (f, none) = refl
  filed-Same name w (f, some e) = refl

  pub save_selection-Same :
      (name tenant timeline password : Text) (w : Proxy D)
      → Same w.store (save_selection c h name tenant timeline password w)
  unfolding save_selection
  save_selection-Same name tenant timeline password w =
      if_split (λ (x : Proxy D × Result ProxyError Unit). Same w.store x)
        (lacks_credentials tenant timeline password) _ _ (λ _. refl)
        (λ _.
          filed-Same name (record w { host = (h.selection_io w.host).0 })
            (write_endpoint_selection selection_name (h.selection_io w.host).1
              (branch_selection name tenant timeline password) (file_at name w)))

  pub stop_listener-Same : (name : Text) (w : Proxy D) → (stop_listener h name w).store ≡ w.store
  unfolding stop_listener
  stop_listener-Same name w = ground arith

  acquire-Same :
      (name tenant timeline : Text) (w : Proxy D)
      → Same w.store (acquire_primary_branch_route c h name tenant timeline w)
  unfolding acquire_primary_branch_route
  acquire-Same name tenant timeline w = ground arith

  with_route-Same :
      (name : Text) (st : ProxyState) (w : Proxy D)
      (x : Proxy D × Result NoRoute (Option BranchRoute))
      → x.0.store ≡ w.store
      → Same w.store (with_route c h name st x)
  with_route-Same name st w (v, err e) s = s
  with_route-Same name st w (v, ok (some r)) s = s
  with_route-Same name st w (v, ok none) s = s

  shown-Same : (name : Text) (b : Branch) (w : Proxy D) → Same w.store (shown_endpoint c h name b w)
  shown-Same name b w =
      let S : Proxy D × Result ProxyError ProxyState → Type 0 = λ x. Same w.store x in
      if_split S (not (is_published b)) _ _ (λ _. refl)
        (λ _.
          if_split S (not (is_some (lookup name w.listeners))) _ _ (λ _. refl)
            (λ _.
              with_route-Same name (state_of c h name b w) w _
                (acquire-Same name b.tenant_id b.timeline_id w)))

  -- a rule to split a job on the outcome of its first part
  pub then_run_split :
      {A B : Type 0} (Q : Proxy D × Result ProxyError B → Type 0) (f : A → Job D B)
      (x : Proxy D × Result ProxyError A)
      → ((v : Proxy D) (e : ProxyError) → x ≡ (v, err e) → Q (v, err e))
      → ((v : Proxy D) (a : A) → x ≡ (v, ok a) → Q (f a v))
      → Q (then_run f x)
  then_run_split Q f (v, ok a) bad good = good v a refl
  then_run_split Q f (v, err e) bad good = bad v e refl

  of_store-Same : (w : Proxy D) (r : Result Error Branch) → Same w.store (of_store w r)
  of_store-Same w (ok b) = refl
  of_store-Same w (err e) = refl

  pub endpoint_connection-Same :
      (name : Text) (w : Proxy D) → Same w.store (endpoint_connection c h name w)
  unfolding endpoint_connection
  endpoint_connection-Same name w = elim (Bool-cases (is_blank name)) [
    | inl blank ↦ rw blank refl
    | inr given ↦ rw given (
        then_run_split (λ x. Same w.store x) (shown_endpoint c h (trim_space name))
          (active_branch (trim_space name) w)
          (λ v e eq.
            sym (ap (λ p. p.0.store) eq) ∙ of_store-Same w (get_active (trim_space name) w.store))
          (λ v b eq.
            shown-Same (trim_space name) b v
            ∙ sym (ap (λ p. p.0.store) eq)
            ∙ of_store-Same w (get_active (trim_space name) w.store)))
  ]

  pub carried :
      {A : Type 0} {s : Store} (x : Proxy D × Result ProxyError A) (v : Proxy D)
      (r : Result ProxyError A)
      → x ≡ (v, r)
      → Same s x
      → v.store ≡ s
  carried x v r eq e = sym (ap (λ p. p.0.store) eq) ∙ e
