-- ===== src/Proxy/Publish.antt =====
-- internal/server/branch_endpoints.go: `Publish`, `Unpublish`, `Connection`, `List` and the listeners
-- that a restart restores.
use neon_selfhost.Prelude.{
  ℕ, Text, codes, Bool, true, false, Option, none, some, [], Result, ok, err, is_some, ltb, text_eq,
  ◌&&◌, ◌||◌, not, if◌then◌else◌,
}
use neon_selfhost.Prelude.Int.{ℤ}
use neon_selfhost.Prelude.Trim.{trim_space}
use neon_selfhost.Prelude.Map.{lookup, put}
use neon_selfhost.Branch.Types.{Branch, Error, not_found}
use neon_selfhost.Branch.Store.{Store, get_active, set_endpoint}
use neon_selfhost.Endpoint.Selection.{
  Selection, SelectionFile, WriteFault, write_endpoint_selection,
}
use neon_selfhost.Endpoint.Manager.{is_blank}
use neon_selfhost.Endpoint.Route.{RouteState}
use neon_selfhost.Proxy.Routing.{NoRoute, BranchRoute, branch_route}
use neon_selfhost.Proxy.World.{
  Compute, Inspected, Host, Settings, ProxyError, Proxy, is_published, count_of, start_listener,
  stop_listener, allocate_port_and_start_listener,
}

pub record ProxyState : Type 0 where
  pub branch : Text
  pub published : Bool
  pub status : Text
  pub port : ℤ
  pub database : Text
  pub user : Text
  pub password : Text
  pub tenant_id : Text
  pub timeline_id : Text
  pub active_connections : ℕ
  pub last_error : Option ProxyError

abbrev pub Job : Type 0 → Type 0 → Type 0
Job D A = Proxy D → Proxy D × Result ProxyError A

abbrev pub then_run :
    {D A B : Type 0} → (A → Job D B) → Proxy D × Result ProxyError A → Proxy D × Result ProxyError B
then_run f (w, ok a) = f a w
then_run f (w, err e) = (w, err e)

infixl 5 ◌>>=◌ ◌>>◌
abbrev pub ◌>>=◌ : {D A B : Type 0} → Job D A → (A → Job D B) → Job D B
(x >>= f) w = then_run f (x w)

abbrev pub ◌>>◌ : {D A B : Type 0} → Job D A → Job D B → Job D B
x >> y = x >>= λ _. y

abbrev pub all_done : {D : Type 0} → Job D Unit
all_done w = (w, ok tt)

abbrev pub refuse : {D A : Type 0} → ProxyError → Job D A
refuse e w = (w, err e)

-- the name under the data directory of the computes; it is never blank
abbrev pub selection_name : Text
selection_name = codes "endpoint-selection.json"

abbrev pub file_or_none : Option SelectionFile → SelectionFile
file_or_none none = SelectionFile.no_file
file_or_none (some f) = f

abbrev pub file_at : {D : Type 0} → Text → Proxy D → SelectionFile
file_at name w = file_or_none (lookup name w.files)

abbrev pub lacks_credentials : Text → Text → Text → Bool
lacks_credentials tenant timeline password =
    is_blank tenant || is_blank timeline || is_blank password

abbrev pub branch_selection : Text → Text → Text → Text → Selection
branch_selection name tenant timeline password = record {
  generation = [];
  branch = name;
  tenant_id = trim_space tenant;
  timeline_id = trim_space timeline;
  password = trim_space password;
}

abbrev pub filed :
    {D : Type 0}
    → Text
    → Proxy D
    → SelectionFile × Option WriteFault
    → Proxy D × Result ProxyError Unit
filed name w (file, none) = (record w { files = put name file w.files }, ok tt)
filed name w (file, some f) = (w, err (ProxyError.not_saved f))

abbrev pub of_store :
    {D : Type 0} → Proxy D → Result Error Branch → Proxy D × Result ProxyError Branch
of_store w (ok b) = (w, ok b)
of_store w (err e) = (w, err (ProxyError.store_failed e))

-- `c.store.GetActive`
abbrev pub active_branch : {D : Type 0} → Text → Job D Branch
active_branch name w = of_store w (get_active name w.store)

abbrev pub listened : {D : Type 0} → Proxy D × Bool → Proxy D × Result ProxyError Unit
listened (w, true) = (w, ok tt)
listened (w, false) = (w, err ProxyError.listener_failed)

abbrev pub stored_endpoint :
    {D : Type 0} → Proxy D → Store × Result Error Branch → Proxy D × Result ProxyError Branch
stored_endpoint w (s, ok b) = (record w { store = s }, ok b)
stored_endpoint w (s, err e) = (record w { store = s }, err (ProxyError.store_failed e))

module _ {D : Type 0} (c : Settings) (h : Host D) where
  unfoldable pub save_selection : Text → Text → Text → Text → Job D Unit
  unfolding write_endpoint_selection
  save_selection name tenant timeline password w =
      if lacks_credentials tenant timeline password
      then (w, err ProxyError.credentials_missing)
      else (let (d, io) = h.selection_io w.host in
          filed name (record w { host = d })
            (write_endpoint_selection selection_name io
              (branch_selection name tenant timeline password) (file_at name w)))

  unfoldable pub set_stored_endpoint : Text → Bool → ℤ → Job D Branch
  set_stored_endpoint name published port w =
      let (d, io) = h.store_io w.host in
      stored_endpoint (record w { host = d }) (set_endpoint io name published port w.store)

  -- the route of a branch, where there is a manager of the primary endpoint
  abbrev pub resolved :
      Text
      → Text
      → Text
      → Proxy D
      → D × Option RouteState
      → Proxy D × Result NoRoute (Option BranchRoute)
  resolved name tenant timeline w (d, none) = (record w { host = d }, err NoRoute.unresolved)
  resolved name tenant timeline w (d, some r) =
      (record w { host = d }, branch_route name tenant timeline r)

  unfoldable pub acquire_primary_branch_route :
      Text → Text → Text → Proxy D → Proxy D × Result NoRoute (Option BranchRoute)
  unfolding branch_route
  acquire_primary_branch_route name tenant timeline w =
      if c.has_primary then resolved name tenant timeline w (h.route w.host) else (w, ok none)

  abbrev pub or_unavailable : Option ProxyError → Option ProxyError
  or_unavailable none = some ProxyError.not_listening
  or_unavailable (some e) = some e

  abbrev pub state_of : Text → Branch → Proxy D → ProxyState
  state_of name b w = record {
    branch = b.name;
    published = b.endpoint_published;
    status = codes "unpublished";
    port = b.endpoint_port;
    database = c.database;
    user = c.user;
    password = b.password;
    tenant_id = b.tenant_id;
    timeline_id = b.timeline_id;
    active_connections = count_of name w;
    last_error = lookup name w.last_errors;
  }

  abbrev pub active_or : Text → ℕ → Text
  active_or status n =
      if ltb 0 n && text_eq status (codes "running") then codes "active" else status

  abbrev pub container_status : Compute → Text
  container_status k =
      if k.running
      then codes "running"
      else if is_blank k.status
      then codes "stopped"
      else trim_space k.status

  abbrev pub with_container : ProxyState → Inspected → ProxyState
  with_container st Inspected.not_inspected = record st {
    status = codes "error";
    last_error = some ProxyError.inspect_failed;
  }
  with_container st Inspected.gone = record st { status = codes "stopped" }
  with_container st (Inspected.exists k) = record st {
    status = active_or (container_status k) st.active_connections;
  }

  abbrev pub inspected : Text → ProxyState → Proxy D → Proxy D × Result ProxyError ProxyState
  inspected name st w =
      let (d, k) = h.inspect name w.host in (record w { host = d }, ok (with_container st k))

  abbrev pub with_route :
      Text
      → ProxyState
      → Proxy D × Result NoRoute (Option BranchRoute)
      → Proxy D × Result ProxyError ProxyState
  with_route name st (w, err e) =
      (w, ok (record st { status = codes "error"; last_error = some (ProxyError.no_route e) }))
  with_route name st (w, ok (some r)) = (
    w,
    ok (record st {
      status = active_or (codes "running") st.active_connections;
      database = r.database;
      user = r.user;
      password = r.password;
      last_error = none;
    }),
  )
  with_route name st (w, ok none) = inspected name st w

  abbrev pub shown_endpoint : Text → Branch → Proxy D → Proxy D × Result ProxyError ProxyState
  shown_endpoint name b w =
      let st = state_of name b w in
      if not (is_published b)
      then (w, ok st)
      else if not (is_some (lookup name w.listeners))
      then (w, ok (record st { status = codes "error"; last_error = or_unavailable st.last_error }))
      else with_route name st (acquire_primary_branch_route name b.tenant_id b.timeline_id w)

  unfoldable pub endpoint_connection : Text → Job D ProxyState
  unfolding acquire_primary_branch_route
  endpoint_connection name =
      if is_blank name
      then refuse (ProxyError.store_failed not_found)
      else active_branch (trim_space name) >>= λ b. shown_endpoint (trim_space name) b

  abbrev pub start_at : Text → ℤ → Job D Unit
  start_at name port w = listened (start_listener h name port w)

  abbrev pub unlistened :
      {A : Type 0} → Text → Proxy D × Result ProxyError A → Proxy D × Result ProxyError A
  unlistened name (v, ok a) = (v, ok a)
  unlistened name (v, err e) = (stop_listener h name v, err e)

  -- a new endpoint that cannot be completed loses its listener
  abbrev pub or_unlistened : {A : Type 0} → Text → Job D A → Job D A
  or_unlistened name job w = unlistened name (job w)

  abbrev pub publish_saved : Text → ℤ → Job D Unit
  publish_saved name port = or_unlistened name (set_stored_endpoint name true port) >> all_done

  abbrev pub publish_listening : Text → Text → Text → Text → ℤ → Job D Unit
  publish_listening name tenant timeline password port = do
    or_unlistened name (save_selection name tenant timeline password)
    publish_saved name port

  abbrev pub publish_new : Text → Text → Text → Text → Job D Unit
  publish_new name tenant timeline password = do
    port ← allocate_port_and_start_listener h c name
    publish_listening name tenant timeline password port

  abbrev pub publish_again : Text → Text → Text → Text → ℤ → Job D Unit
  publish_again name tenant timeline password port = do
    start_at name port
    save_selection name tenant timeline password

  abbrev pub publish_found : Text → Text → Text → Text → Branch → Job D Unit
  publish_found name tenant timeline password b =
      if is_published b
      then publish_again name tenant timeline password b.endpoint_port
      else publish_new name tenant timeline password

  unfoldable pub publish : Text → Text → Text → Text → Job D ProxyState
  unfolding save_selection set_stored_endpoint endpoint_connection
  publish name tenant timeline password w =
      if is_blank name
      then (w, err (ProxyError.store_failed not_found))
      else if lacks_credentials tenant timeline password
      then (w, err ProxyError.credentials_missing)
      else (active_branch (trim_space name)
            >>= (λ b. publish_found (trim_space name) tenant timeline password b)
            >> endpoint_connection name)
          w
