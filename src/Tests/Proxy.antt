-- ===== src/Tests/Proxy.antt =====
-- internal/server/branch_endpoints.go: the controller of published branches at work.
use neon_selfhost.Prelude.{
  ℕ, ◌+◌, ◌≤◌, ◌≡◌, refl, Text, codes, true, false, none, some, [], ◌∷◌, text_eq, text_eq_iff, sym,
  ◌∙◌, arith,
}
use neon_selfhost.Prelude.Int.{ℤ, pos}
use neon_selfhost.Prelude.Trim.{trim_space}
use neon_selfhost.Prelude.Case.{to_lower, folded, equal_fold}
use neon_selfhost.Prelude.Map.{lookup, put, erase, keys, contains, Distinct}
use neon_selfhost.Branch.Types.{Branch, main, zero_branch, active}
use neon_selfhost.Branch.Snapshot.{collect}
use neon_selfhost.Prelude.Sort.{sort}
use neon_selfhost.Branch.File.{healthy}
use neon_selfhost.Branch.Store.{Store, new_store}
use neon_selfhost.Endpoint.Selection.{all_succeed}
use neon_selfhost.Endpoint.World.{status_of}
use neon_selfhost.Endpoint.Route.{RouteState}
use neon_selfhost.Proxy.Names.{
  sanitize_endpoint_branch_name, IsSlug, sanitize_endpoint_branch_name-IsSlug,
}
use neon_selfhost.Proxy.Routing.{BranchRoute, branch_route, same_name}
use neon_selfhost.Proxy.World.{
  Inspected, Host, Settings, Proxy, allocate_port_and_start_listener, try_increment_active,
  decrement_active, stop_listener,
}
use neon_selfhost.Proxy.Publish.{publish, acquire_primary_branch_route}
use neon_selfhost.Proxy.Backend.{wait_for_backend}
use neon_selfhost.Proxy.Counts.{
  Hall, HallStep, HallReach, IsCounted, HallReach-IsCounted, occurrences,
}
use neon_selfhost.Proxy.Acquired.{IsAcquired, acquire-IsAcquired}
use neon_selfhost.Prelude.Unicode.{wide_lower, merged}
use neon_selfhost.Proxy.Ports.{ArePortsApart, IsFree, allocate_port-IsAllocated}
use neon_selfhost.Proxy.Kept.{publish-ArePortsApart}
use neon_selfhost.Proxy.Waiting.{HostTicks, is_rounds_over, wait_for_backend-Ends}

slug_of_name : sanitize_endpoint_branch_name (codes " Feat/Ünit 1 ") ≡ codes "feat--nit-1"
unfolding sanitize_endpoint_branch_name to_lower trim_space wide_lower
slug_of_name = refl

sanitize_endpoint_branch_name-IsSlug_example :
    IsSlug (sanitize_endpoint_branch_name (codes " Feat/Ünit 1 "))
sanitize_endpoint_branch_name-IsSlug_example =
    sanitize_endpoint_branch_name-IsSlug (codes " Feat/Ünit 1 ")

-- A host on which every call succeeds and no container exists; its state is the clock.
abbrev calm : Host ℕ
calm = record {
  listen = λ p d. (d, true);
  hang_up = λ p d. d;
  inspect = λ n d. (d, Inspected.gone);
  create = λ n d. (d, true);
  start = λ n d. (d, true);
  stop = λ n d. (d, true);
  remove = λ n d. (d, true);
  dial = λ n d. (d, true);
  dial_primary = λ d. (d, true);
  route = λ d. (d, none);
  selection_io = λ d. (d, all_succeed);
  store_io = λ d. (d, healthy);
  now = λ d. d;
  sleep = λ ms d. d + ms;
}

calm-HostTicks : HostTicks calm
calm-HostTicks = record { dial = λ n d. omega arith; sleep = λ ms d. omega arith }

abbrev settings : Settings
settings = record {
  port_start = 56000;
  port_end = 56001;
  max_active = 2;
  has_primary = false;
  compute_image = codes "compute:dev";
  advertised_host = codes "127.0.0.1";
  database = codes "postgres";
  user = codes "postgres";
  startup_timeout = 60000;
  drain_timeout = 5000;
}

-- `dev` is published on the first port of the range.
abbrev dev : Branch
dev = record zero_branch {
  name = codes "dev";
  parent = codes "main";
  endpoint_published = true;
  endpoint_port = pos 56000;
}

abbrev one_published : Store
one_published = record (new_store 5) {
  branches = (main, record zero_branch { name = main }) ∷ (codes "dev", dev) ∷ [];
}

abbrev quiet : Proxy ℕ
quiet = record {
  store = one_published;
  files = [];
  listeners = (codes "dev", pos 56000) ∷ [];
  active_conns = [];
  idle_timers = [];
  last_errors = [];
  host = 0;
}

names-Distinct : Distinct (keys one_published.branches)
unfolding contains text_eq
names-Distinct = (refl, (refl, tt))

only_dev :
    (k : Text) (b : Branch)
    → active k one_published.branches ≡ some b
    → b.endpoint_published ≡ true
    → k ≡ codes "dev"
unfolding active lookup
only_dev k b h p = ground (arith, text_eq_iff (codes "dev") k, text_eq_iff main k)

ports_apart : ArePortsApart one_published.branches
ports_apart = record {
  distinct = names-Distinct;
  apart = λ j k b d hb hd pb pd e.
      only_dev j b hb (ground arith) ∙ sym (only_dev k d hd (ground arith));
}

publish-ArePortsApart_example :
    ArePortsApart
      (publish settings calm
        (codes "main ")
        (codes "t1")
        (codes "l1")
        (codes "pw")
        quiet).0.store.branches
publish-ArePortsApart_example =
    publish-ArePortsApart settings calm (codes "main ") (codes "t1") (codes "l1") (codes "pw") quiet
      (omega arith) ports_apart

allocate_port-IsAllocated_example :
    IsFree (pos 56001) one_published.branches
    × (lookup main (allocate_port_and_start_listener calm settings main quiet).0.listeners
        ≡ some (pos 56001))
    × ((n : ℕ) × (◌≡◌ {A = ℤ} (pos 56001) (pos n)) × (56000 ≤ n) × (n ≤ 56001))
unfolding allocate_port_and_start_listener collect sort text_eq
allocate_port-IsAllocated_example =
    allocate_port-IsAllocated calm settings main quiet (pos 56001) names-Distinct (omega arith) refl

wait_for_backend-Ends_example : is_rounds_over (wait_for_backend settings calm main quiet).1 ≡ false
wait_for_backend-Ends_example = wait_for_backend-Ends settings calm calm-HostTicks main quiet

-- two clients of `dev`, and the second leaves
abbrev empty_hall : Hall ℕ
empty_hall = record { proxy = quiet; clients = [] }

empty_hall-IsCounted : IsCounted settings empty_hall
unfolding occurrences lookup
empty_hall-IsCounted = record { counted = λ k. refl; limited = λ k l. omega arith }

abbrev with_client : Hall ℕ → Hall ℕ
with_client s = record {
  proxy = (try_increment_active settings (codes "dev") s.proxy).0;
  clients = codes "dev" ∷ s.clients;
}

HallReach-IsCounted_example : IsCounted settings (with_client (with_client empty_hall))
unfolding try_increment_active lookup text_eq put
HallReach-IsCounted_example = HallReach-IsCounted settings empty_hall-IsCounted (
    HallReach.and_then (HallReach.and_then HallReach.begin (HallStep.come (codes "dev") refl))
      (HallStep.come (codes "dev") refl))

-- A branch that is on the primary compute.
abbrev primary_state : RouteState
primary_state = record {
  endpoint = record {
    status = status_of true;
    branch = codes "main";
    conn = record {
      host = codes "db";
      port = pos 5432;
      database = codes "postgres";
      user = codes "neon";
      password = codes "secret";
    };
    tenant_id = codes "T1";
    timeline_id = codes "l1";
  };
  applied = true;
  transitioning = false;
  blocked = false;
  reserved_names = [];
}

abbrev to_main : BranchRoute
to_main = record { database = codes "postgres"; user = codes "neon"; password = codes "secret" }

-- A host whose primary endpoint is in that state.
abbrev with_primary : Host ℕ
with_primary = record calm { route = λ d. (d, some primary_state) }

abbrev with_manager : Settings
with_manager = record settings { has_primary = true }

acquire-IsAcquired_example :
    IsAcquired with_manager with_primary
      (codes "main")
      (codes "t1")
      (codes "l1")
      quiet
      (some to_main)
unfolding acquire_primary_branch_route branch_route to_lower trim_space text_eq
acquire-IsAcquired_example =
    acquire-IsAcquired with_manager with_primary (codes "main") (codes "t1") (codes "l1") quiet
      (some to_main) refl

-- Names are compared by the simple folding of Unicode.
folds_beyond_ascii : same_name (codes " Été") (codes "éTÉ ") ≡ true
unfolding equal_fold folded wide_lower merged trim_space text_eq
folds_beyond_ascii = refl

-- A client of `dev` stays while its branch is unpublished. When it leaves, after another has come,
-- none is counted.
undercounted :
    let unpublished =
      stop_listener calm (codes "dev") (try_increment_active settings (codes "dev") quiet).0 in
    lookup
      (codes "dev")
      (decrement_active
        (codes "dev")
        (try_increment_active settings (codes "dev") unpublished).0).active_conns
    ≡ none
unfolding try_increment_active decrement_active stop_listener lookup put erase text_eq
undercounted = refl
