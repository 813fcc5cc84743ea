-- ===== src/Sql/Transaction/Commit.antt =====
-- When a transaction is committed, and what the caller then knows.
use neon_selfhost.Prelude.{
  ◌≡◌, ◌↔◌, refl, Bool, true, false, Option, none, some, [], Result, ok, err, Result-cases, inl,
  inr, arith,
}
use neon_selfhost.Sql.Transaction.{
  Limits, Ran, paged, map_sql_execution_error, SqlError, Page, Answers, Execution, DriverError,
  read_rows, execute_transaction,
}
use neon_selfhost.Sql.Transaction.Pages.{IsPage, read_rows-IsPage, shown, total_bytes}

module _ (lim : Limits) (a : Answers) where
  abbrev queried_with : Result SqlError Page → Option DriverError → Ran
  queried_with r none = paged false a r
  queried_with r (some e) = (err (map_sql_execution_error e), false)

  -- A read-only execution never calls Commit.
  pub read_only_never_commits : (execute_transaction lim true a).1 ≡ false
  unfolding execute_transaction
  read_only_never_commits = ground arith

  -- the same, for any result of the loop over the rows
  committing :
      (r : Result SqlError Page)
      → ((queried_with r a.query_error).1 ≡ true) ↔ (
          (page : Page) × (a.query_error ≡ none)
          × (r ≡ ok page)
          × (a.rows_error ≡ none)
          × (a.context_error ≡ none)
          × (page.truncated ≡ false))
  committing (ok page) = (
    λ h. (page, ground arith, refl, ground arith, ground arith, ground arith),
    λ (p, q, same, rows, context, whole). ground arith,
  )
  committing (err e) = (λ h. ground arith, λ h. ground arith)

  -- Commit is called exactly for an execution that is not read-only and whose query, rows and
  -- context had no error and whose rows were all read.
  pub commit_iff :
      (read_only : Bool)
      → ((execute_transaction lim read_only a).1 ≡ true) ↔ (
          (read_only ≡ false)
          × ((page : Page) × (a.query_error ≡ none)
              × (read_rows lim a.rows [] 0 ≡ ok page)
              × (a.rows_error ≡ none)
              × (a.context_error ≡ none)
              × (page.truncated ≡ false)))
  unfolding execute_transaction
  commit_iff true = (λ h. absurd (ground arith), λ (off, _). absurd (ground arith))
  commit_iff false =
      let c = committing (read_rows lim a.rows [] 0) in (λ h. (refl, c.0 h), λ (_, rest). c.1 rest)

  -- A write that reports success was committed, the driver confirmed it, and its result is not
  -- truncated.
  pub write_success_committed :
      (e : Execution)
      → (execute_transaction lim false a).0 ≡ ok e
      → ((execute_transaction lim false a).1 ≡ true)
        × (a.commit_error ≡ none)
        × (e.truncated ≡ false)
  unfolding execute_transaction
  write_success_committed e h = ground arith

  -- The rows of a successful execution, read-only or not, keep the limits on rows and bytes;
  -- they are the first rows that the driver gave, and all of them unless the result says
  -- otherwise.
  pub execution_within_limits :
      (read_only : Bool) (e : Execution)
      → (execute_transaction lim read_only a).0 ≡ ok e
      → IsPage lim (shown lim.max_cell a.rows) (record { rows = e.rows; truncated = e.truncated })
  unfolding execute_transaction
  execution_within_limits read_only e h = elim (Result-cases (read_rows lim a.rows [] 0)) [
    | inl (page, read) ↦
        let same : record { rows = e.rows; truncated = e.truncated } ≡ page = ground arith in
        rw same (
          read_rows-IsPage lim a.rows [] page (omega arith) (unfold total_bytes in omega arith)
            (unfold total_bytes in read))
    | inr (x, bad) ↦ absurd (ground arith)
  ]
