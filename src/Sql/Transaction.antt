-- ===== src/Sql/Transaction.antt =====
-- internal/server/sql_execution.go, `executeTransaction`: the rows of a result, their limits, and
-- the commit. What the driver answers is an argument: `Answers`.
pub mod Pages
pub mod Commit
use neon_selfhost.Prelude.{
  ℕ, ◌+◌, Text, codes, Bool, true, false, Option, none, some, List, [], ◌∷◌, ◌++◌, Result, ok, err,
  length, take, ltb, leb, ◌||◌, ◌&&◌, not, if◌then◌else◌, is_empty,
}
use neon_selfhost.Prelude.Trim.{trim_space}

-- A value of a result row. A time is its text in RFC 3339, a scalar its text under `%v`.
pub data Cell : Type 0 where
  null : Cell
  bytes : Text → Cell
  text : Text → Cell
  time : Text → Cell
  scalar : Text → Cell

-- The bytes of `…`
abbrev pub ellipsis : Text
ellipsis = 0xe2 ∷ 0x80 ∷ 0xa6 ∷ []

unfoldable pub clip : ℕ → Text → Text
clip max_cell s =
    if ltb 0 max_cell && ltb max_cell (length s) then take max_cell s ++ ellipsis else s

-- `normalizeSQLResultValue`: bytes become a string
unfoldable pub normalize : ℕ → Cell → Cell
unfolding clip
normalize max_cell null = null
normalize max_cell (bytes s) = text (clip max_cell s)
normalize max_cell (text s) = text (clip max_cell s)
normalize max_cell (time s) = text s
normalize max_cell (scalar s) = scalar s

-- `len(fmt.Sprintf("%v", value))`; nil prints as `<nil>`
abbrev pub printed_length : Cell → ℕ
printed_length null = 5
printed_length (bytes s) = length s
printed_length (text s) = length s
printed_length (time s) = length s
printed_length (scalar s) = length s

unfoldable pub normalize_row : ℕ → List Cell → List Cell
unfolding normalize
normalize_row max_cell [] = []
normalize_row max_cell (c ∷ cs) = normalize max_cell c ∷ normalize_row max_cell cs

unfoldable pub row_bytes : List Cell → ℕ
row_bytes [] = 0
row_bytes (c ∷ cs) = printed_length c + row_bytes cs

-- One `rows.Next()`: a row, or an error of `rows.Values()`.
pub data RowRead : Type 0 where
  values : List Cell → RowRead
  scan_error : Text → RowRead

pub record Limits : Type 0 where
  pub max_rows : ℕ
  pub max_bytes : ℕ
  pub max_cell : ℕ

-- An error of the driver: a message of the server, a deadline or a cancellation, or another.
pub data DriverError : Type 0 where
  pg_error : Text → Text → ℕ → DriverError
  deadline canceled : DriverError
  commit_rollback : DriverError
  other_error : Text → DriverError

pub data SqlError : Type 0 where
  execution : Text → Text → ℕ → SqlError
  context_error : DriverError → SqlError
  write_truncated : SqlError
  commit_failed : DriverError → SqlError
  commit_outcome_unknown : DriverError → SqlError

unfoldable pub map_sql_execution_error : DriverError → SqlError
unfolding trim_space
map_sql_execution_error (pg_error message code position) =
    execution (trim_space message) (trim_space code) position
map_sql_execution_error deadline = context_error deadline
map_sql_execution_error canceled = context_error canceled
map_sql_execution_error commit_rollback =
    execution (codes "commit unexpectedly resulted in rollback") [] 0
map_sql_execution_error (other_error message) = execution (trim_space message) [] 0

unfoldable pub classify_sql_commit_error : DriverError → SqlError
classify_sql_commit_error commit_rollback = commit_failed commit_rollback
classify_sql_commit_error (pg_error message code position) =
    commit_failed (pg_error message code position)
classify_sql_commit_error deadline = commit_outcome_unknown deadline
classify_sql_commit_error canceled = commit_outcome_unknown canceled
classify_sql_commit_error (other_error message) = commit_outcome_unknown (other_error message)

-- What the loop over the rows yields: the rows kept, and whether it was cut short.
pub record Page : Type 0 where
  pub rows : List (List Cell)
  pub truncated : Bool

unfoldable pub read_rows : Limits → List RowRead → List (List Cell) → ℕ → Result SqlError Page
unfolding normalize_row row_bytes
read_rows lim [] out used = ok (record { rows = out; truncated = false })
read_rows lim (scan_error message ∷ more) out used = err (execution (trim_space message) [] 0)
read_rows lim (values vs ∷ more) out used =
    let row = normalize_row lim.max_cell vs in
    let rest = read_rows lim more (out ++ row ∷ []) (used + row_bytes row) in
    if leb lim.max_rows (length out) || ltb lim.max_bytes (used + row_bytes row)
    then ok (record { rows = out; truncated = true })
    else rest

-- The driver's answers: to `Query`, the rows, `rows.Err()`, `ctx.Err()`, the command tag, `Commit`.
pub record Answers : Type 0 where
  pub query_error : Option DriverError
  pub rows : List RowRead
  pub rows_error : Option DriverError
  pub context_error : Option DriverError
  pub command_tag : Text
  pub commit_error : Option DriverError

pub record Execution : Type 0 where
  pub rows : List (List Cell)
  pub truncated : Bool
  pub command_tag : Text
  pub read_only : Bool

-- What happened: the result, and whether `Commit` was called. `Rollback` is deferred, so it is
-- called after every return.
abbrev pub Ran : Type 0
Ran = Result SqlError Execution × Bool

abbrev pub tag_or_query : Text → Text
tag_or_query tag = if is_empty tag then codes "QUERY" else tag

abbrev pub result_of : Bool → Answers → Page → Execution
result_of read_only a page = record {
  rows = page.rows;
  truncated = page.truncated;
  command_tag = tag_or_query a.command_tag;
  read_only = read_only;
}

abbrev pub committed : Answers → Page → Option DriverError → Ran
committed a page none = (ok (result_of false a page), true)
committed a page (some e) = (err (classify_sql_commit_error e), true)

abbrev pub ended : Bool → Answers → Page → Ran
ended true a page = (ok (result_of true a page), false)
ended false a page =
    if page.truncated then (err write_truncated, false) else committed a page a.commit_error

abbrev pub checked_context : Bool → Answers → Page → Option DriverError → Ran
checked_context read_only a page none = ended read_only a page
checked_context read_only a page (some e) = (err (SqlError.context_error e), false)

abbrev pub checked_rows : Bool → Answers → Page → Option DriverError → Ran
checked_rows read_only a page none = checked_context read_only a page a.context_error
checked_rows read_only a page (some e) = (err (map_sql_execution_error e), false)

abbrev pub paged : Bool → Answers → Result SqlError Page → Ran
paged read_only a (ok page) = checked_rows read_only a page a.rows_error
paged read_only a (err e) = (err e, false)

abbrev pub queried : Limits → Bool → Answers → Option DriverError → Ran
queried lim read_only a none = paged read_only a (read_rows lim a.rows [] 0)
queried lim read_only a (some e) = (err (map_sql_execution_error e), false)

unfoldable pub execute_transaction : Limits → Bool → Answers → Ran
execute_transaction lim read_only a = queried lim read_only a a.query_error
