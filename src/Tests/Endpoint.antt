-- ===== src/Tests/Endpoint.antt =====
-- internal/server/primary_endpoint.go: the manager at work on small runtimes.
use neon_selfhost.Prelude.{
  ℕ, ◌+◌, ◌≡◌, refl, codes, Bool, true, false, some, List, [], ◌∷◌, ok, ltb, text_eq, arith,
}
use neon_selfhost.Prelude.Int.{pos}
use neon_selfhost.Prelude.Trim.{trim_space}
use neon_selfhost.Prelude.Case.{equal_fold}
use neon_selfhost.Prelude.Map.{contains, lookup}
use neon_selfhost.Endpoint.Selection.{
  Selection, SelectionFile, all_succeed, load_endpoint_selection, endpoint_selections_match,
}
use neon_selfhost.Endpoint.Manager.{
  ConnectionInfo, EndpointState, PrimaryManager, reserved, reserved_branches,
  finish_route_transition,
}
use neon_selfhost.Endpoint.World.{Runtime, Desk, status_of}
use neon_selfhost.Endpoint.Wait.{wait_for_applied_primary}
use neon_selfhost.Endpoint.Waiting.{Ticks, is_over, wait-Ends}
use neon_selfhost.Endpoint.Connection.{connection, is_unattached}
use neon_selfhost.Endpoint.Transition.{switch_to_branch, start_primary, entered}
use neon_selfhost.Endpoint.Switching.{SwitchEnd, IsSwitched, switch_to_branch-ends}
use neon_selfhost.Endpoint.Starting.{StartEnd, start_primary-ends}
use neon_selfhost.Endpoint.Reservations.{RouteOp, run_routes, count_routes, reserved_branches-run}
use neon_selfhost.Endpoint.Honest.{IsReady, connection-IsHonest}
use neon_selfhost.Endpoint.Live.{Heeds, switch_to_branch-Heeds}

-- A compute that applies the selection at once, unless its disk is full.
record Bench : Type 0 where
  on : Bool
  applied : SelectionFile
  clock : ℕ
  disk_full : Bool

abbrev bench : Runtime Bench
bench = record {
  status = λ d. (d, some (status_of d.on));
  start = λ file d. (record d { on = true; applied = file }, true);
  stop = λ d. (record d { on = false }, true);
  applied_file = λ d. (d, d.applied);
  random_generation = λ d. (d, some (codes "0a1b"));
  write_io = λ d. (d, record all_succeed { rename = not_full d.disk_full });
  now = λ d. d.clock;
  sleep = λ d. record d { clock = d.clock + 200 };
}
  where
    not_full : Bool → Bool
    not_full true = false
    not_full false = true

-- the same with a disk that always has room
abbrev roomy_bench : Runtime Bench
roomy_bench = record bench { write_io = λ d. (d, all_succeed) }

roomy_bench-Heeds : Heeds roomy_bench
roomy_bench-Heeds = record {
  generation = λ d. (codes "0a1b", refl);
  status = λ d. (status_of d.on, refl);
  stop = λ d. refl;
  write_io = λ d. refl;
  start = λ s d. refl;
  serves = λ s d. (status_of true, refl, refl, refl, refl);
}

bench-Ticks : Ticks bench
bench-Ticks = record {
  status = λ d. omega arith;
  applied_file = λ d. omega arith;
  sleep = λ d. omega arith;
}

abbrev conn : ConnectionInfo
conn = record {
  host = codes "db";
  port = pos 5432;
  database = codes "postgres";
  user = codes "neon";
  password = codes "secret";
}

abbrev manager : PrimaryManager
manager = record {
  conn = conn;
  branch = codes "main";
  attachment = record { tenant_id = codes "t1"; timeline_id = codes "l1" };
  attachments = (codes "dev", record { tenant_id = codes "t1"; timeline_id = codes "l2" }) ∷ [];
  passwords = (codes "main", codes "secret") ∷ [];
  generation = codes "09";
  transitioning = false;
  route_blocked = false;
  reservations = (codes "main", 1) ∷ [];
  selection_path = codes "/data/primary.json";
}

abbrev idle_desk : Bool → Desk Bench
idle_desk full = record {
  manager = manager;
  file = SelectionFile.no_file;
  runtime = record { on = false; applied = SelectionFile.no_file; clock = 0; disk_full = full };
}

switch_to_branch-ends_example :
    SwitchEnd bench
      (codes " dev ")
      (idle_desk true)
      (switch_to_branch bench (codes " dev ") (idle_desk true))
switch_to_branch-ends_example = switch_to_branch-ends bench (codes " dev ") (idle_desk true)

start_primary-ends_example :
    StartEnd bench (idle_desk false) (start_primary bench (idle_desk false))
start_primary-ends_example = start_primary-ends bench (idle_desk false)

switch_to_branch-Heeds_example :
    (v : Desk Bench) × IsSwitched roomy_bench
      (trim_space (codes " dev "))
      (entered roomy_bench (idle_desk false))
      v
    × (switch_to_branch roomy_bench (codes " dev ") (idle_desk false)
        ≡ connection roomy_bench (record v { manager = finish_route_transition true v.manager }))
unfolding trim_space
switch_to_branch-Heeds_example =
    switch_to_branch-Heeds roomy_bench roomy_bench-Heeds (codes " dev ") (idle_desk false) refl refl

wait-Ends_example :
    is_over
      (wait_for_applied_primary bench true
        (record {
          generation = [];
          branch = codes "dev";
          tenant_id = codes "t1";
          timeline_id = codes "l2";
          password = [];
        })
        (idle_desk false).runtime).1
    ≡ false
wait-Ends_example = wait-Ends bench true _ bench-Ticks (idle_desk false).runtime

connection-IsHonest_example :
    ((st : EndpointState)
      → (connection bench (idle_desk false)).1 ≡ ok st
      → st.status.ready ≡ true
      → IsReady bench (idle_desk false) st)
    × (is_unattached manager ≡ false
        → ((connection bench (idle_desk false)).0.manager ≡ manager)
          × ((connection bench (idle_desk false)).0.file ≡ SelectionFile.no_file))
connection-IsHonest_example = connection-IsHonest bench (idle_desk false)

abbrev route_ops : List RouteOp
route_ops = RouteOp.reserve (codes "main ") ∷ RouteOp.release (codes "main") ∷ []

reserved_branches-run_example :
    (reserved (codes "main") (run_routes route_ops manager)
      ≡ count_routes (codes "main") route_ops (reserved (codes "main") manager))
    × (contains (codes "main") (reserved_branches (run_routes route_ops manager).reservations)
        ≡ ltb 0 (count_routes (codes "main") route_ops (reserved (codes "main") manager)))
unfolding contains
reserved_branches-run_example = reserved_branches-run (codes "main") route_ops manager (refl, tt)

switched_to_dev :
    let out = switch_to_branch roomy_bench (codes " dev ") (idle_desk false) in
    (out.0.manager.branch ≡ codes "dev") × (out.0.manager.route_blocked ≡ false)
unfolding switch_to_branch trim_space load_endpoint_selection endpoint_selections_match text_eq
    equal_fold lookup
switched_to_dev = (refl, refl)

-- a full disk: the old selection stays, and the route is not blocked
disk_full_keeps_main :
    let out = switch_to_branch bench (codes "dev") (idle_desk true) in
    (out.0.manager.branch ≡ codes "main")
    × (out.0.manager.route_blocked ≡ false)
    × (out.0.file ≡ SelectionFile.no_file)
unfolding switch_to_branch trim_space equal_fold
disk_full_keeps_main = (refl, refl, refl)

-- the file of a failed switch to `dev`, which could not be taken back
abbrev stale : Selection
stale = record {
  generation = codes "0a1b";
  branch = codes "dev";
  tenant_id = codes "t1";
  timeline_id = codes "l2";
  password = codes "neon";
}

abbrev blocked_desk : Desk Bench
blocked_desk = record (idle_desk true) {
  manager = finish_route_transition false manager;
  file = SelectionFile.selects stale;
}

-- a further switch on the full disk opens the route again, and the file is not the manager's
stale_file_unblocked :
    let out = switch_to_branch bench (codes "qa") blocked_desk in
    (out.0.manager.route_blocked ≡ false)
    × (out.0.manager.branch ≡ codes "main")
    × (out.0.file ≡ SelectionFile.selects stale)
unfolding switch_to_branch trim_space equal_fold
stale_file_unblocked = (refl, refl, refl)
