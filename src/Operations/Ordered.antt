-- ===== src/Operations/Ordered.antt =====
-- internal/server/operations.go: the table stays in the order of its ids, so that a restart at any
-- time finds a table that can be read.
pub mod Writes
use neon_selfhost.Prelude.{
  ℕ, zero, suc, ◌<◌, ◌≡◌, Text, Bool, true, false, Bool-cases, inl, inr, Option, none, some, List,
  [], ◌∷◌, Result, ok, err, arith, ltb, ◌==◌, if◌then◌else◌,
}
use neon_selfhost.Operations.Types.{
  Entry, Status, succeeded, failed, OpError, in_progress, persistence, missing,
}
use neon_selfhost.Operations.Table.{
  Row, OpStore, noop, unavailable, sqlite, row_of, upsert_row, upsert,
}
use neon_selfhost.Operations.Manager.{
  Manager, new_operation_manager, persist_attempts, persist_entry, try_upsert, drop_pending,
  flush_pending, trim_entries, start, begun, flushed, reject, finish, finished, ended,
}
use neon_selfhost.Operations.Restart.{
  RowsAbove, RowsAscending, IsOrdered, new_operation_manager-IsConsistent,
}
use neon_selfhost.Operations.Exclusion.{IsConsistent, logged}
use neon_selfhost.Operations.Exclusion.Durable.{first_entry}
use neon_selfhost.Operations.Run.{
  Attempt, attempted, attempt, attempts, after_failure, after_success, complete, launched, run,
}
use neon_selfhost.Operations.Ordered.Writes.{
  persist_entry-IsOrdered, flush_pending-IsOrdered, flushed-IsOrdered,
}

if-IsOrdered :
    {A : Type 0} (c : Bool) (x y : Manager × A)
    → IsOrdered x.0.store
    → IsOrdered y.0.store
    → IsOrdered (if c then x else y).0.store
if-IsOrdered true x y hx hy = hx
if-IsOrdered false x y hx hy = hy

start-IsOrdered :
    (kind : Text) (now : ℕ) (m : Manager) → IsOrdered m.store → IsOrdered (start kind now m).0.store
unfolding start
start-IsOrdered kind now m h =
    if-IsOrdered m.busy _ _ h (
      flushed-IsOrdered kind now (flush_pending m.pending m)
        (flush_pending-IsOrdered m.pending m h))

reject-IsOrdered :
    (kind message : Text) (now : ℕ) (m : Manager)
    → IsOrdered m.store
    → IsOrdered (reject kind message now m).store
unfolding reject trim_entries
reject-IsOrdered kind message now m h = persist_entry-IsOrdered _ _ h

ended-IsOrdered :
    (e : Entry) (r : Manager × Bool) → IsOrdered r.0.store → IsOrdered (ended e r).0.store
ended-IsOrdered e (m, true) h = h
ended-IsOrdered e (m, false) h = h

finished-IsOrdered :
    (m : Manager) (r : Option (List Entry × Entry))
    → IsOrdered m.store
    → IsOrdered (finished m r).0.store
finished-IsOrdered m none h = h
finished-IsOrdered m (some (es, e)) h =
    let n = record m { entries = es } in
    ended-IsOrdered e (persist_entry e n) (persist_entry-IsOrdered e n h)

finish-IsOrdered :
    (id : ℕ) (status : Status) (message : Text) (now : ℕ) (m : Manager)
    → IsOrdered m.store
    → IsOrdered (finish id status message now m).0.store
unfolding finish
finish-IsOrdered id status message now m h = finished-IsOrdered m _ h

attempted-IsOrdered :
    (kind : Text) (at : ℕ) (r : Manager × Result OpError ℕ)
    → IsOrdered r.0.store
    → IsOrdered (attempted kind at r).store
attempted-IsOrdered kind at (m, ok id) h = h
attempted-IsOrdered kind at (m, err in_progress) h = reject-IsOrdered kind _ at m h
attempted-IsOrdered kind at (m, err persistence) h = h
attempted-IsOrdered kind at (m, err missing) h = h

attempts-IsOrdered :
    (others : List Attempt) (m : Manager) → IsOrdered m.store → IsOrdered (attempts others m).store
unfolding attempts attempt
attempts-IsOrdered [] m h = h
attempts-IsOrdered (a ∷ more) m h =
    attempts-IsOrdered more _
      (attempted-IsOrdered a.kind a.rejected_at _ (start-IsOrdered a.kind a.now m h))

after_success-IsOrdered :
    (r : Manager × Option OpError) → IsOrdered r.0.store → IsOrdered (after_success r).0.store
after_success-IsOrdered (m, none) h = h
after_success-IsOrdered (m, some e) h = h

after_failure-IsOrdered :
    (message : Text) (r : Manager × Option OpError)
    → IsOrdered r.0.store
    → IsOrdered (after_failure message r).0.store
after_failure-IsOrdered message (m, none) h = h
after_failure-IsOrdered message (m, some e) h = h

complete-IsOrdered :
    (id : ℕ) (outcome : Option Text) (now : ℕ) (m : Manager)
    → IsOrdered m.store
    → IsOrdered (complete id outcome now m).0.store
complete-IsOrdered id none now m h =
    after_success-IsOrdered (finish id succeeded [] now m)
      (finish-IsOrdered id succeeded [] now m h)
complete-IsOrdered id (some message) now m h =
    after_failure-IsOrdered message (finish id failed message now m)
      (finish-IsOrdered id failed message now m h)

launched-IsOrdered :
    (kind : Text) (at : ℕ) (others : List Attempt) (outcome : Option Text) (now : ℕ)
    (r : Manager × Result OpError ℕ)
    → IsOrdered r.0.store
    → IsOrdered (launched kind at others outcome now r).0.store
launched-IsOrdered kind at others outcome now (m, ok id) h =
    complete-IsOrdered id outcome now (attempts others m) (attempts-IsOrdered others m h)
launched-IsOrdered kind at others outcome now (m, err e) h =
    attempted-IsOrdered kind at (m, err e) h

-- On a table in the order of its ids, a manager that is made from what Run leaves behind, or
-- from what a crash in the middle of Run leaves behind, runs nothing and is consistent, whether
-- or not the table can be read then.
pub restart-run-IsConsistent :
    (kind : Text) (started_at rejected_at : ℕ) (others : List Attempt) (outcome : Option Text)
    (finished_at : ℕ) (m : Manager) (update_ok query_ok : Bool) (now limit : ℕ)
    (answers : List Bool)
    → IsOrdered m.store
    → let left = (run kind started_at rejected_at others outcome finished_at m).0.store in
      let crashed = (attempts others (start kind started_at m).0).store in
      IsConsistent none (new_operation_manager update_ok query_ok now limit left answers)
      × IsConsistent none (new_operation_manager update_ok query_ok now limit crashed answers)
unfolding run
restart-run-IsConsistent kind started_at rejected_at others outcome finished_at m update_ok query_ok
      now limit answers h =
    let s = start-IsOrdered kind started_at m h in
    (
      new_operation_manager-IsConsistent update_ok query_ok now limit _ answers (
          launched-IsOrdered kind rejected_at others outcome finished_at (start kind started_at m)
            s),
      new_operation_manager-IsConsistent update_ok query_ok now limit _ answers
          (attempts-IsOrdered others (start kind started_at m).0 s),
    )
