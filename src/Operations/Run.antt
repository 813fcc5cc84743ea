-- ===== src/Operations/Run.antt =====
-- internal/server/operations.go, `Run`: an operation from its start to its end, with the attempts
-- of other goroutines that come in between, while the function runs outside the mutex.
pub mod Reports
use neon_selfhost.Prelude.{ℕ, Text, codes, Bool, Option, none, some, List, [], ◌∷◌, Result, ok, err}
use neon_selfhost.Operations.Types.{
  Status, succeeded, failed, OpError, in_progress, persistence, missing,
}
use neon_selfhost.Operations.Manager.{Manager, start, reject, finish}

-- `ErrOperationInProgress.Error()`
abbrev pub in_progress_message : Text
in_progress_message = codes "another operation is in progress"

-- The error of `Run`: that of `start`, that of the function with or without that of `finish` as
-- its compensation, or that of `finish` after the function succeeded.
pub data RunError : Type 0 where
  not_started : OpError → RunError
  function_failed : Text → RunError
  function_and_finish_failed : Text → OpError → RunError
  finish_failed : OpError → RunError

-- A call of `start` by another goroutine, and the log entry where it is refused.
pub record Attempt : Type 0 where
  pub kind : Text
  pub now : ℕ
  pub rejected_at : ℕ

abbrev pub attempted : Text → ℕ → Manager × Result OpError ℕ → Manager
attempted kind at (m, ok id) = m
attempted kind at (m, err in_progress) = reject kind in_progress_message at m
attempted kind at (m, err persistence) = m
attempted kind at (m, err missing) = m

unfoldable pub attempt : Attempt → Manager → Manager
attempt a m = attempted a.kind a.rejected_at (start a.kind a.now m)

unfoldable pub attempts : List Attempt → Manager → Manager
unfolding attempt
attempts [] m = m
attempts (a ∷ more) m = attempts more (attempt a m)

abbrev pub after_failure : Text → Manager × Option OpError → Manager × Option RunError
after_failure message (m, none) = (m, some (function_failed message))
after_failure message (m, some e) = (m, some (function_and_finish_failed message e))

abbrev pub after_success : Manager × Option OpError → Manager × Option RunError
after_success (m, none) = (m, none)
after_success (m, some e) = (m, some (finish_failed e))

-- The end of `Run`: `outcome` is the error of the function.
abbrev pub complete : ℕ → Option Text → ℕ → Manager → Manager × Option RunError
complete id none now m = after_success (finish id succeeded [] now m)
complete id (some message) now m = after_failure message (finish id failed message now m)

abbrev pub launched :
    Text
    → ℕ
    → List Attempt
    → Option Text
    → ℕ
    → Manager × Result OpError ℕ
    → Manager × Option RunError
launched kind at others outcome now (m, ok id) = complete id outcome now (attempts others m)
launched kind at others outcome now (m, err e) =
    (attempted kind at (m, err e), some (not_started e))

-- `started_at` is the clock of `start`, `rejected_at` that of `reject`, `finished_at` that of `finish`.
unfoldable pub run :
    Text → ℕ → ℕ → List Attempt → Option Text → ℕ → Manager → Manager × Option RunError
unfolding attempts
run kind started_at rejected_at others outcome finished_at m =
    launched kind rejected_at others outcome finished_at (start kind started_at m)
