-- ===== src/Endpoint/World.antt =====
-- internal/server/primary_endpoint.go: what the manager works on. The runtime (Docker or the one in
-- memory), the clock, the random source and the file that the compute writes are a state `D` with
-- the functions of `Runtime`; each call is answered with success or failure.
use neon_selfhost.Prelude.{ℕ, ◌+◌, Text, codes, Bool, true, false, Option, some, List, []}
use neon_selfhost.Endpoint.Selection.{
  Selection, SelectionFile, WriteIo, WriteFault, all_succeed, write_endpoint_selection,
}
use neon_selfhost.Endpoint.Manager.{RuntimeStatus, PrimaryManager}

-- `start` sees the selection file, as the compute does; `applied_file` is the file in which the
-- compute says what it has applied; `now` is the clock in milliseconds.
pub record Runtime (D : Type 0) : Type 0 where
  pub status : D → D × Option RuntimeStatus
  pub start : SelectionFile → D → D × Bool
  pub stop : D → D × Bool
  pub applied_file : D → D × SelectionFile
  pub random_generation : D → D × Option Text
  pub write_io : D → D × WriteIo
  pub now : D → ℕ
  pub sleep : D → D

pub record Desk (D : Type 0) : Type 0 where
  pub manager : PrimaryManager
  pub file : SelectionFile
  pub runtime : D

-- the sleep between two polls
abbrev pub poll_interval : ℕ
poll_interval = 200

-- `rounds_over` is no error of the source.
pub data WaitError : Type 0 where
  start_refused status_unknown applied_unknown timed_out rounds_over : WaitError
  unhealthy : Text → WaitError

pub data EndpointError : Type 0 where
  branch_name_required no_generation status_failed applied_failed stop_failed : EndpointError
  stop_after_failed restart_failed : EndpointError
  not_persisted not_restored not_adopted : WriteFault → EndpointError
  not_started not_verified : WaitError → EndpointError

-- `errors.Join` of one error or more
abbrev pub Errors : Type 0
Errors = List EndpointError

module _ {D : Type 0} (rt : Runtime D) where
  abbrev pub wrote :
      Desk D → D × WriteIo → SelectionFile × Option WriteFault → Desk D × Option WriteFault
  wrote w (d, io) (file, r) = (record w { file = file; runtime = d }, r)

  -- the write at the manager's path
  unfoldable pub write_selection : Selection → Desk D → Desk D × Option WriteFault
  unfolding write_endpoint_selection
  write_selection s w =
      let (d, io) = rt.write_io w.runtime in
      wrote w (d, io) (write_endpoint_selection w.manager.selection_path io s w.file)

abbrev pub status_of : Bool → RuntimeStatus
status_of true = record { running = true; ready = true; state = codes "running"; message = [] }
status_of false = record { running = false; ready = false; state = codes "stopped"; message = [] }

-- The runtime in memory: whether it runs. It has no applied file, every call succeeds, and the
-- state counts the milliseconds that the manager has slept.
pub record InMemory : Type 0 where
  pub on : Bool
  pub slept : ℕ

abbrev pub in_memory_runtime : Text → Runtime InMemory
in_memory_runtime generation = record {
  status = λ d. (d, some (status_of d.on));
  start = λ file d. (record d { on = true }, true);
  stop = λ d. (record d { on = false }, true);
  applied_file = λ d. (d, SelectionFile.no_file);
  random_generation = λ d. (d, some generation);
  write_io = λ d. (d, all_succeed);
  now = λ d. d.slept;
  sleep = λ d. record d { slept = d.slept + poll_interval };
}
