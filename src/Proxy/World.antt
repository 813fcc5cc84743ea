-- ===== src/Proxy/World.antt =====
-- internal/server/branch_endpoints.go: the controller's state, the outside world as it sees it, and
-- its listeners, counts, timers and errors. Each access runs under the controller's mutex.
use neon_selfhost.Prelude.{
  ℕ, zero, suc, ◌+◌, ◌-◌, Text, Bool, true, false, Option, none, some, List, [], ◌∷◌, Result, ok,
  err, leb, ltb, ◌&&◌, ◌||◌, not, if◌then◌else◌,
}
use neon_selfhost.Prelude.Int.{ℤ, pos, ltbℤ}
use neon_selfhost.Prelude.Map.{Map, lookup, put, erase}
use neon_selfhost.Branch.Types.{Branch, Error}
use neon_selfhost.Branch.File.{FileIo}
use neon_selfhost.Branch.Store.{Store, list_active}
use neon_selfhost.Endpoint.Selection.{SelectionFile, WriteIo, WriteFault}
use neon_selfhost.Endpoint.Manager.{or_zero}
use neon_selfhost.Endpoint.Route.{RouteState}
use neon_selfhost.Proxy.Routing.{NoRoute}

-- A container as Docker shows it.
pub record Compute : Type 0 where
  pub running : Bool
  pub status : Text
  pub image : Text

pub data Inspected : Type 0 where
  not_inspected gone : Inspected
  exists : Compute → Inspected

-- The network, Docker, the disks, the clock and the manager of the primary endpoint. A container is
-- called by the branch that it serves. `route` is `AcquirePrimaryRouteState`.
pub record Host (D : Type 0) : Type 0 where
  pub listen : ℤ → D → D × Bool
  pub hang_up : ℤ → D → D
  pub inspect : Text → D → D × Inspected
  pub create : Text → D → D × Bool
  pub start : Text → D → D × Bool
  pub stop : Text → D → D × Bool
  pub remove : Text → D → D × Bool
  pub dial : Text → D → D × Bool
  pub dial_primary : D → D × Bool
  pub route : D → D × Option RouteState
  pub selection_io : D → D × WriteIo
  pub store_io : D → D × FileIo
  pub now : D → ℕ
  pub sleep : ℕ → D → D

-- What the constructor has checked: `1 ≤ port_start`, `port_start ≤ port_end`, `port_end ≤ 65535`,
-- and the rest is positive.
pub record Settings : Type 0 where
  pub port_start : ℕ
  pub port_end : ℕ
  pub max_active : ℕ
  pub has_primary : Bool
  pub compute_image : Text
  pub advertised_host : Text
  pub database : Text
  pub user : Text
  pub startup_timeout : ℕ
  pub drain_timeout : ℕ

pub data ProxyError : Type 0 where
  store_failed : Error → ProxyError
  no_route : NoRoute → ProxyError
  not_saved : WriteFault → ProxyError
  credentials_missing ports_exhausted no_port_bound listener_failed too_many_connections :
      ProxyError
  not_published not_listening inspect_failed create_failed start_failed stop_failed : ProxyError
  remove_failed stale_image startup_timed_out still_active rounds_over dial_failed : ProxyError

pub record Proxy (D : Type 0) : Type 0 where
  pub store : Store
  pub files : Map SelectionFile
  pub listeners : Map ℤ
  pub active_conns : Map ℕ
  pub idle_timers : Map (Unit {0})
  pub last_errors : Map ProxyError
  pub host : D

abbrev pub same_port : ℤ → ℤ → Bool
same_port p q = not (ltbℤ p q) && not (ltbℤ q p)

-- `b.EndpointPublished && b.EndpointPort > 0`
abbrev pub is_published : Branch → Bool
is_published b = b.endpoint_published && ltbℤ (pos 0) b.endpoint_port

unfoldable pub published_ports : List Branch → List ℤ
published_ports [] = []
published_ports (b ∷ bs) =
    let rest = published_ports bs in if is_published b then b.endpoint_port ∷ rest else rest

abbrev pub used_ports : Store → List ℤ
used_ports s = published_ports (list_active s)

unfoldable pub is_used : ℤ → List ℤ → Bool
is_used p [] = false
is_used p (q ∷ qs) = same_port q p || is_used p qs

module _ {D : Type 0} where
  abbrev pub count_of : Text → Proxy D → ℕ
  count_of name w = or_zero 0 (lookup name w.active_conns)

  abbrev pub record_error : Text → ProxyError → Proxy D → Proxy D
  record_error name e w = record w { last_errors = put name e w.last_errors }

  abbrev pub clear_error : Text → Proxy D → Proxy D
  clear_error name w = record w { last_errors = erase name w.last_errors }

  abbrev pub without_timer : Text → Proxy D → Proxy D
  without_timer name w = record w { idle_timers = erase name w.idle_timers }

  unfoldable pub try_increment_active : Settings → Text → Proxy D → Proxy D × Bool
  try_increment_active c name w =
      let v = without_timer name w in
      if ltb 0 c.max_active && leb c.max_active (count_of name v)
      then (v, false)
      else (record v { active_conns = put name (count_of name v + 1) v.active_conns }, true)

  -- the last connection of a branch sets the timer that stops its compute
  unfoldable pub decrement_active : Text → Proxy D → Proxy D
  decrement_active name w =
      if ltb 1 (count_of name w)
      then record w { active_conns = put name (count_of name w - 1) w.active_conns }
      else record w {
        active_conns = erase name w.active_conns;
        idle_timers = put name tt w.idle_timers;
      }

module _ {D : Type 0} (h : Host D) where
  abbrev pub listening : Text → ℤ → Proxy D → D × Bool → Proxy D × Bool
  listening name port w (d, false) = (record w { host = d }, false)
  listening name port w (d, true) =
      (record w { listeners = put name port w.listeners; host = d }, true)

  abbrev pub listen_at : Text → ℤ → Proxy D → Proxy D × Bool
  listen_at name port w = listening name port w (h.listen port w.host)

  abbrev pub replaced : Text → ℤ → Proxy D → Option ℤ → Proxy D × Bool
  replaced name port w none = listen_at name port w
  replaced name port w (some p) =
      if same_port p port
      then (w, true)
      else listen_at name port
          (record w { listeners = erase name w.listeners; host = h.hang_up p w.host })

  unfoldable pub start_listener : Text → ℤ → Proxy D → Proxy D × Bool
  start_listener name port w = replaced name port w (lookup name w.listeners)

  abbrev pub forgotten : Text → Proxy D → Proxy D
  forgotten name w = record w {
    listeners = erase name w.listeners;
    active_conns = erase name w.active_conns;
    idle_timers = erase name w.idle_timers;
    last_errors = erase name w.last_errors;
  }

  abbrev pub hung_up : Option ℤ → Proxy D → Proxy D
  hung_up none w = w
  hung_up (some p) w = record w { host = h.hang_up p w.host }

  unfoldable pub stop_listener : Text → Proxy D → Proxy D
  stop_listener name w = hung_up (lookup name w.listeners) (forgotten name w)

  abbrev pub bound :
      (Bool → Proxy D → Proxy D × Result ProxyError ℤ)
      → ℕ
      → Proxy D × Bool
      → Proxy D × Result ProxyError ℤ
  bound again port (w, true) = (w, ok (pos port))
  bound again port (w, false) = again true w

  -- the loop over the range; `used` is read before it, `bind_failed` is `lastBindErr != nil`
  unfoldable pub allocate_from :
      ℕ → ℕ → Text → List ℤ → Bool → Proxy D → Proxy D × Result ProxyError ℤ
  allocate_from zero port name used bind_failed w =
      (w, err (if bind_failed then ProxyError.no_port_bound else ProxyError.ports_exhausted))
  allocate_from (suc n) port name used bind_failed w =
      let again = allocate_from n (port + 1) name used in
      if is_used (pos port) used
      then again bind_failed w
      else bound again port (start_listener name (pos port) w)

  unfoldable pub allocate_port_and_start_listener :
      Settings → Text → Proxy D → Proxy D × Result ProxyError ℤ
  unfolding allocate_from start_listener is_used published_ports list_active
  allocate_port_and_start_listener c name w =
      allocate_from (c.port_end + 1 - c.port_start) c.port_start name (used_ports w.store) false w
