-- ===== src/Operations/Types.antt =====
-- internal/server/operations.go: entries, statuses and the limits.
use neon_selfhost.Prelude.{ℕ, Text, codes, Bool, true, false, Option, text_eq, ◌^◌}

-- A status is a string; the log writes four, and a table may hold others.
pub data Status : Type 0 where
  running succeeded failed rejected : Status
  other : Text → Status

unfoldable pub status_eq : Status → Status → Bool
unfolding text_eq
status_eq running running = true
status_eq succeeded succeeded = true
status_eq failed failed = true
status_eq rejected rejected = true
status_eq (other s) (other t) = text_eq s t
status_eq _ _ = false

unfoldable pub is_running : Status → Bool
is_running running = true
is_running _ = false

-- `operationEntry`; `id` is a uint64
pub record Entry : Type 0 where
  pub id : ℕ
  pub kind : Text
  pub status : Status
  pub message : Text
  pub started_at : ℕ
  pub finished_at : Option ℕ

abbrev pub default_operation_log_limit : ℕ
default_operation_log_limit = 200

abbrev pub operation_persist_attempts : ℕ
operation_persist_attempts = 2

abbrev pub interrupted_message : Text
interrupted_message = codes "operation interrupted by controller restart"

abbrev pub u64_mod : ℕ
u64_mod = 2 ^ 64

-- `missing` is the error of a `finish` that found no entry; it wraps ErrOperationPersistence, as
-- `persistence` does.
pub data OpError : Type 0 where
  in_progress persistence missing : OpError
