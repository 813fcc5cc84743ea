-- ===== src/Tests/OperationLog.antt =====
-- internal/server/operations.go: a table with an interrupted operation, a manager with an end that
-- waits for the table, one in the middle of an operation, and the operations run on them.
use neon_selfhost.Prelude.{
  ℕ, ◌-◌, ◌≡◌, refl, Text, codes, true, false, Option, none, some, List, [], ◌∷◌, ok, arith, length,
  take, drop,
}
use mathlib.Core.List.{map}
use neon_selfhost.Prelude.Int.{pos}
use neon_selfhost.Operations.Types.{Entry, Status, running, succeeded, failed, is_running}
use neon_selfhost.Operations.Table.{Row, sqlite, row_of, upsert, upsert_row}
use neon_selfhost.Operations.Manager.{
  Manager, new_operation_manager, start, finish, trim_entries, flush_pending, persist_entry,
  persist_attempts, try_upsert,
}
use neon_selfhost.Operations.Trim.{IsTrimmed, trim_entries-IsTrimmed, active_ids}
use neon_selfhost.Operations.Exclusion.{IsConsistent}
use neon_selfhost.Operations.Exclusion.Start.{Started, start-Started}
use neon_selfhost.Operations.Exclusion.Finish.{Finished, finish-Finished}
use neon_selfhost.Operations.Exclusion.Durable.{IsCaughtUp, start-IsCaughtUp}
use neon_selfhost.Operations.Restart.{IsOrdered}
use neon_selfhost.Operations.Listing.{query, list_memory, select, plain, first_page}
use neon_selfhost.Operations.Run.{Attempt, attempts, run}
use neon_selfhost.Operations.Ordered.{restart-run-IsConsistent}
use neon_selfhost.Operations.Run.Reports.{IsHonest, run-IsHonest}

abbrev kind : Text
kind = codes "branch.create"

abbrev entry : ℕ → Status → Option ℕ → Entry
entry n s at = record {
  id = n;
  kind = kind;
  status = s;
  message = [];
  started_at = 10;
  finished_at = at;
}

abbrev log : List Entry
log = entry 1 succeeded (some 11) ∷ entry 2 failed (some 12) ∷ entry 3 succeeded (some 13) ∷ []

-- the end of operation 3 did not reach the table
abbrev rows : List Row
rows =
    row_of (entry 1 succeeded (some 11))
    ∷ row_of (entry 2 failed (some 12))
    ∷ row_of (entry 3 running none)
    ∷ []

abbrev idle : Manager
idle = record {
  entries = log;
  max_entries = 3;
  next_id = 3;
  busy = false;
  store = sqlite rows;
  degraded = true;
  pending = entry 3 succeeded (some 13) ∷ [];
  answers = false ∷ true ∷ [];
}

idle-IsConsistent : IsConsistent none idle
unfolding active_ids is_running
idle-IsConsistent = record {
  log = record {
    active = refl;
    ascending = ((omega arith, (omega arith, tt)), ((omega arith, tt), (tt, tt)));
    bounded = (omega arith, (omega arith, (omega arith, tt)));
  };
  short = omega arith;
  positive = omega arith;
  flag = refl;
  pending_ascending = (tt, tt);
  pending_bounded = (omega arith, tt);
}

abbrev busy : Manager
busy = record idle {
  entries = entry 2 failed (some 12) ∷ entry 3 succeeded (some 13) ∷ entry 4 running none ∷ [];
  next_id = 4;
  busy = true;
  pending = [];
}

busy-IsConsistent : IsConsistent (some 4) busy
unfolding active_ids is_running
busy-IsConsistent = record {
  log = record {
    active = refl;
    ascending = ((omega arith, (omega arith, tt)), ((omega arith, tt), (tt, tt)));
    bounded = (omega arith, (omega arith, (omega arith, tt)));
  };
  short = omega arith;
  positive = omega arith;
  flag = refl;
  pending_ascending = tt;
  pending_bounded = tt;
}

abbrev others : List Attempt
others =
    record { kind = kind; now = 21; rejected_at = 22 }
    ∷ record { kind = kind; now = 23; rejected_at = 24 }
    ∷ []

run-IsHonest_example :
    IsHonest idle (some (codes "timeout")) (run kind 20 20 others (some (codes "timeout")) 30 idle)
run-IsHonest_example =
    run-IsHonest kind 20 20 others (some (codes "timeout")) 30 idle idle-IsConsistent (omega arith)

finish-Finished_example : Finished 30 4 succeeded [] (finish 4 succeeded [] 30 busy)
finish-Finished_example =
    finish-Finished 30 4 succeeded [] busy (unfold is_running in refl) busy-IsConsistent

start-Started_example : Started idle (start kind 20 idle)
start-Started_example = start-Started kind 20 idle idle-IsConsistent (omega arith)

-- the table refuses the first write and takes the second
begins : (start kind 20 idle).1 ≡ ok 4
unfolding start flush_pending persist_entry persist_attempts try_upsert upsert upsert_row row_of
    trim_entries
begins = refl

start-IsCaughtUp_example : IsCaughtUp kind 20 4 idle (start kind 20 idle).0
start-IsCaughtUp_example = start-IsCaughtUp kind 20 4 idle idle-IsConsistent (omega arith) begins

rows-IsOrdered : IsOrdered (sqlite rows)
unfolding row_of
rows-IsOrdered = ((omega arith, (omega arith, tt)), ((omega arith, tt), (tt, tt)))

trim_entries-IsTrimmed_example :
    IsTrimmed 2 busy.entries (trim_entries (record busy { max_entries = 2 })).entries
trim_entries-IsTrimmed_example = trim_entries-IsTrimmed (record busy { max_entries = 2 })

first_page_example :
    (query (plain (pos 2) none []) (map row_of log)
      ≡ drop (length (select (plain (pos 2) none []) log) - 2) (select (plain (pos 2) none []) log))
    × (list_memory (plain (pos 2) none []) log ≡ take 2 (select (plain (pos 2) none []) log))
first_page_example = first_page (pos 2) none [] log

restart-run-IsConsistent_example :
    IsConsistent none
      (new_operation_manager true true 40 2 (run kind 20 20 others none 30 idle).0.store [])
    × IsConsistent none
        (new_operation_manager true true 40 2 (attempts others (start kind 20 idle).0).store [])
restart-run-IsConsistent_example =
    restart-run-IsConsistent kind 20 20 others none 30 idle true true 40 2 [] rows-IsOrdered
