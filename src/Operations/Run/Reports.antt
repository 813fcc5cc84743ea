-- ===== src/Operations/Run/Reports.antt =====
-- Every `Run` leaves the manager idle and reports what happened.
use neon_selfhost.Prelude.{
  false, ℕ, ◌+◌, ◌<◌, ◌≡◌, refl, Text, Option, none, some, List, [], ◌∷◌, Result, ok, err, arith,
  length, ◌∙◌,
}
use neon_selfhost.Operations.Types.{
  succeeded, failed, is_running, OpError, in_progress, persistence, missing, u64_mod,
}
use neon_selfhost.Operations.Manager.{Manager, start, reject, finish, trim_entries}
use neon_selfhost.Operations.Persist.{persist_entry-SameLog}
use neon_selfhost.Operations.Exclusion.{IsConsistent, logged, next_id_of-eq}
use neon_selfhost.Operations.Exclusion.Start.{
  Started, started, refused, next_id-start-le, start-Started, start_excludes, reject-IsConsistent,
}
use neon_selfhost.Operations.Exclusion.Finish.{
  Finished, recorded, waiting, finish-Finished, finish-IsConsistent,
}
use neon_selfhost.Operations.Refusals.{Refuses, Later, Later-refl, Later-trans, Later-Refuses}
use neon_selfhost.Operations.Refusals.Methods.{
  start-Later, start-Refuses, reject-Later, finish-Refuses,
}
use neon_selfhost.Operations.Run.{
  Attempt, attempt, attempted, attempts, in_progress_message, run, launched, complete,
  after_success, after_failure, RunError, not_started, function_failed, function_and_finish_failed,
  finish_failed,
}

next_id-reject :
    (kind message : Text) (now : ℕ) (m : Manager)
    → m.next_id + 1 < u64_mod
    → (reject kind message now m).next_id ≡ m.next_id + 1
unfolding reject trim_entries
next_id-reject kind message now m room =
    (persist_entry-SameLog _ (logged _ m)).0.next_id ∙ next_id_of-eq m room

-- An attempt during an operation is refused, logged, and takes one id.
attempt-refused :
    (a : Attempt) (id : ℕ) (m : Manager)
    → IsConsistent (some id) m
    → attempt a m ≡ reject a.kind in_progress_message a.rejected_at m
unfolding attempt
attempt-refused a id m c = rw (start_excludes a.kind a.now id m c)

-- However many attempts come, the operation goes on running.
pub attempts-IsConsistent :
    (others : List Attempt) (id : ℕ) (m : Manager)
    → IsConsistent (some id) m
    → m.next_id + length others < u64_mod
    → IsConsistent (some id) (attempts others m)
unfolding attempts
attempts-IsConsistent [] id m c room = c
attempts-IsConsistent (a ∷ more) id m c room =
    let n = reject a.kind in_progress_message a.rejected_at m in
    let step : attempt a m ≡ n = attempt-refused a id m c in
    let grown : n.next_id ≡ m.next_id + 1 =
      next_id-reject a.kind in_progress_message a.rejected_at m (omega arith) in
    rw step (
      attempts-IsConsistent more id n
        (reject-IsConsistent a.kind in_progress_message a.rejected_at (some id) m c (omega arith))
        (omega arith))

attempt-Later : (a : Attempt) (m : Manager) → Later m (attempt a m)
unfolding attempt
attempt-Later a m =
    attempted-Later a.kind a.rejected_at m (start a.kind a.now m) (start-Later a.kind a.now m)
  where
    attempted-Later :
        (kind : Text) (at : ℕ) (m : Manager) (r : Manager × Result OpError ℕ)
        → Later m r.0
        → Later m (attempted kind at r)
    attempted-Later kind at m (n, ok id) f = f
    attempted-Later kind at m (n, err in_progress) f =
        Later-trans m n (reject kind in_progress_message at n) f
          (reject-Later kind in_progress_message at n)
    attempted-Later kind at m (n, err persistence) f = f
    attempted-Later kind at m (n, err missing) f = f

attempts-Later : (others : List Attempt) (m : Manager) → Later m (attempts others m)
unfolding attempts
attempts-Later [] m = Later-refl m
attempts-Later (a ∷ more) m =
    Later-trans m (attempt a m) (attempts more (attempt a m)) (attempt-Later a m)
      (attempts-Later more (attempt a m))

-- What `Run` on the manager `m` may report about a function with the given outcome. A report
-- about the table is made only where the table refuses.
pub data Reports (m : Manager) : Option Text → Option RunError → Type 0 where
  table_down :
      {outcome : Option Text} → Refuses m → Reports m outcome (some (not_started persistence))
  done : Reports m none none
  unrecorded : Refuses m → Reports m none (some (finish_failed persistence))
  gave_up : (message : Text) → Reports m (some message) (some (function_failed message))
  gave_up_unrecorded :
      (message : Text)
      → Refuses m
      → Reports m (some message) (some (function_and_finish_failed message persistence))

success-Reports :
    (m : Manager) (now id : ℕ) (out : Manager × Option OpError)
    → (out.1 ≡ some persistence → Refuses m)
    → Finished now id succeeded [] out
    → Reports m none (after_success out).1
success-Reports m now id (n, e) f (recorded d x h s) = rw h done
success-Reports m now id (n, e) f (waiting d x h s) = rw h (unrecorded (f h))

failure-Reports :
    (m : Manager) (now id : ℕ) (message : Text) (out : Manager × Option OpError)
    → (out.1 ≡ some persistence → Refuses m)
    → Finished now id failed message out
    → Reports m (some message) (after_failure message out).1
failure-Reports m now id message (n, e) f (recorded d x h s) = rw h (gave_up message)
failure-Reports m now id message (n, e) f (waiting d x h s) =
    rw h (gave_up_unrecorded message (f h))

after_success-state : (r : Manager × Option OpError) → (after_success r).0 ≡ r.0
after_success-state (m, none) = refl
after_success-state (m, some e) = refl

after_failure-state :
    (message : Text) (r : Manager × Option OpError) → (after_failure message r).0 ≡ r.0
after_failure-state message (m, none) = refl
after_failure-state message (m, some e) = refl

-- What a `Run` has to show: an idle manager, and a true report.
pub record IsHonest (m : Manager) (outcome : Option Text) (out : Manager × Option RunError)
    : Type 0 where
  pub idle : IsConsistent none out.0
  pub report : Reports m outcome out.1

-- `Run` from `m`, of which `n` is what the start and the attempts of others leave.
module _ (m n : Manager) (f : Later m n) (id : ℕ) (c : IsConsistent (some id) n) (now : ℕ) where
  complete-IsHonest : (outcome : Option Text) → IsHonest m outcome (complete id outcome now n)
  complete-IsHonest none =
      let off : is_running succeeded ≡ false = unfold is_running in refl in
      record {
        idle =
            rw (after_success-state (finish id succeeded [] now n))
              (finish-IsConsistent now id succeeded [] n off c);
        report =
            success-Reports m now id (finish id succeeded [] now n)
              (λ h. Later-Refuses m n f (finish-Refuses id succeeded [] now n h))
              (finish-Finished now id succeeded [] n off c);
      }
  complete-IsHonest (some message) =
      let off : is_running failed ≡ false = unfold is_running in refl in
      record {
        idle =
            rw (after_failure-state message (finish id failed message now n))
              (finish-IsConsistent now id failed message n off c);
        report =
            failure-Reports m now id message (finish id failed message now n)
              (λ h. Later-Refuses m n f (finish-Refuses id failed message now n h))
              (finish-Finished now id failed message n off c);
      }

launched-IsHonest :
    (kind : Text) (at : ℕ) (others : List Attempt) (outcome : Option Text) (now : ℕ) (m : Manager)
    (r : Manager × Result OpError ℕ)
    → Later m r.0
    → (r.1 ≡ err persistence → Refuses m)
    → Started m r
    → r.0.next_id + length others < u64_mod
    → IsHonest m outcome (launched kind at others outcome now r)
launched-IsHonest kind at others outcome now m (n, ok id) f g (started id' h lt c) room =
    let same : id' ≡ id = cc in
    complete-IsHonest m (attempts others n)
      (Later-trans m n (attempts others n) f (attempts-Later others n)) id
      (attempts-IsConsistent others id n (rw same at c) room) now outcome
launched-IsHonest kind at others outcome now m (n, err e) f g (started id' h lt c) room =
    absurd (cc)
launched-IsHonest kind at others outcome now m (n, ok id) f g (refused h c) room = absurd (cc)
launched-IsHonest kind at others outcome now m (n, err e) f g (refused h c) room =
    let same : e ≡ persistence = cc in rw same (record { idle = c; report = table_down (g h) })

-- From an idle manager whose ids have room, with any attempts of other goroutines in between,
-- Run leaves an idle manager and reports the error of its function and nothing else, unless the
-- store is closed or its table answers two writes in a row with an error; only then may Run
-- report a failure to start or to record the end. Its own entry is never missing.
pub run-IsHonest :
    (kind : Text) (started_at rejected_at : ℕ) (others : List Attempt) (outcome : Option Text)
    (finished_at : ℕ) (m : Manager)
    → IsConsistent none m
    → m.next_id + 1 + length others < u64_mod
    → IsHonest m outcome (run kind started_at rejected_at others outcome finished_at m)
unfolding run
run-IsHonest kind started_at rejected_at others outcome finished_at m c room =
    launched-IsHonest kind rejected_at others outcome finished_at m (start kind started_at m)
      (start-Later kind started_at m) (start-Refuses kind started_at m)
      (start-Started kind started_at m c (omega arith))
      (omega (arith, next_id-start-le kind started_at m))
