-- ===== src/Library/Table.antt =====
-- internal/server/sql_query_library.go: `sqliteSQLQueryLibraryStore`. A table with an AUTOINCREMENT
-- key is the list of its rows in the order of the key and the last key that it has given; every
-- call of the driver succeeds or not. A time is stored as a text that is read back as the same time.
use neon_selfhost.Prelude.{
  ℕ, suc, Text, Bool, true, false, not, ◌&&◌, ◌||◌, Option, none, some, List, [], ◌∷◌, ◌++◌, Result,
  ok, err, take, drop, ◌==◌, if◌then◌else◌, map,
}
use mathlib.Core.List.{reverse}
use neon_selfhost.Prelude.Int.{ℤ, pos, negsuc}
use neon_selfhost.Library.{
  SavedQuery, LoggedRun, LibraryFilter, LibraryError, query_not_found, store_failed, in_scope,
  page_limit, page_offset, run_time,
}
use neon_selfhost.Library.Memory.{
  updated_query, saved_branch, saved_database, run_id, run_branch, run_database, retention_of,
}

pub record Tables : Type 0 where
  pub retention : ℕ
  pub last_saved : ℕ
  pub last_history : ℕ
  pub saved_rows : List SavedQuery
  pub history_rows : List LoggedRun

-- A commit that is answered with an error may have been made.
pub data CommitAnswer : Type 0 where
  commit_made commit_refused commit_lost : CommitAnswer

-- Which calls of the driver succeed; `affected` is that of LastInsertId and RowsAffected.
pub record DriverAnswers : Type 0 where
  pub begun : Bool
  pub executed : Bool
  pub affected : Bool
  pub read : Bool
  pub pruned : Bool
  pub commit : CommitAnswer

-- `INSERT INTO sql_saved_queries`
abbrev inserted_saved : ℕ → SavedQuery → Tables → Tables
inserted_saved n made t = record t { last_saved = n; saved_rows = t.saved_rows ++ made ∷ [] }

unfoldable pub table_create_saved :
    DriverAnswers → ℕ → SavedQuery → Tables → Tables × Result LibraryError SavedQuery
table_create_saved d now q t =
    let n = suc t.last_saved in
    let made = record q { id = n; created_at = now; updated_at = now } in
    if not d.executed
    then (t, err store_failed)
    else (inserted_saved n made t, if d.affected then ok made else err store_failed)

-- `UPDATE sql_saved_queries SET … WHERE id = ?`
unfoldable pub update_rows : ℕ → ℕ → Option Text → Option Text → List SavedQuery → List SavedQuery
update_rows now id name sql [] = []
update_rows now id name sql (q ∷ qs) =
    let rest = update_rows now id name sql qs in
    if q.id == id then updated_query now name sql q ∷ rest else q ∷ rest

-- `SELECT … WHERE id = ?`
unfoldable pub row_with : ℕ → List SavedQuery → Option SavedQuery
row_with id [] = none
row_with id (q ∷ qs) = let rest = row_with id qs in if q.id == id then some q else rest

abbrev found_row : Option SavedQuery → Result LibraryError SavedQuery
found_row none = err query_not_found
found_row (some q) = ok q

unfoldable pub get_saved : DriverAnswers → ℕ → List SavedQuery → Result LibraryError SavedQuery
unfolding row_with
get_saved d id rows = if d.read then found_row (row_with id rows) else err store_failed

-- the number of rows that the statement matches is 0
unfoldable pub no_row : ℕ → List SavedQuery → Bool
no_row id [] = true
no_row id (q ∷ qs) = not (q.id == id) && no_row id qs

unfoldable pub table_update_saved :
    DriverAnswers
    → ℕ
    → ℕ
    → Option Text
    → Option Text
    → Tables
    → Tables × Result LibraryError SavedQuery
unfolding update_rows get_saved no_row
table_update_saved d now id name sql t =
    let rows = update_rows now id name sql t.saved_rows in
    if not d.executed then (t, err store_failed) else (
      record t { saved_rows = rows },
      if not d.affected
          then err store_failed
          else if no_row id t.saved_rows
          then err query_not_found
          else get_saved d id rows,
    )

-- `DELETE FROM sql_saved_queries WHERE id = ?`
unfoldable pub delete_rows : ℕ → List SavedQuery → List SavedQuery
delete_rows id [] = []
delete_rows id (q ∷ qs) = let rest = delete_rows id qs in if q.id == id then rest else q ∷ rest

unfoldable pub table_delete_saved : DriverAnswers → ℕ → Tables → Tables × Result LibraryError Unit
unfolding delete_rows no_row
table_delete_saved d id t = if not d.executed then (t, err store_failed) else (
  record t { saved_rows = delete_rows id t.saved_rows },
  if not d.affected
      then err store_failed
      else if no_row id t.saved_rows
      then err query_not_found
      else ok tt,
)

-- `normalizeSQLQueryLibraryFilter`
unfoldable pub normalize_filter : LibraryFilter → LibraryFilter
normalize_filter f = record f {
  limit = pos (page_limit f.limit);
  offset = pos (page_offset f.offset);
}

-- what a bound of LIMIT or OFFSET stands for where it is not negative
abbrev page_bound : ℤ → ℕ
page_bound (pos n) = n
page_bound (negsuc n) = 0

module _ {A : Type 0} (branch_of database_of : A → Text) where
  -- `WHERE branch = ? AND database_name = ?`
  unfoldable pub where_scope : LibraryFilter → List A → List A
  unfolding in_scope
  where_scope f [] = []
  where_scope f (x ∷ xs) =
      let rest = where_scope f xs in
      if in_scope f (branch_of x) (database_of x) then x ∷ rest else rest

  -- `ORDER BY id DESC LIMIT ? OFFSET ?`
  unfoldable pub select_page : LibraryFilter → List A → List A
  unfolding where_scope
  select_page f rows =
      take (page_bound f.limit) (drop (page_bound f.offset) (reverse (where_scope f rows)))

unfoldable pub table_list_saved :
    DriverAnswers → LibraryFilter → Tables → Result LibraryError (List SavedQuery)
unfolding select_page normalize_filter
table_list_saved d f t =
    if d.read
    then ok (select_page saved_branch saved_database (normalize_filter f) t.saved_rows)
    else err store_failed

-- `SELECT id FROM sql_execution_history ORDER BY id DESC LIMIT ?`
unfoldable pub newest_ids : ℕ → List LoggedRun → List ℕ
newest_ids limit rows = take limit (map run_id (reverse rows))

unfoldable pub is_among : ℕ → List ℕ → Bool
is_among n [] = false
is_among n (i ∷ is) = i == n || is_among n is

-- `DELETE … WHERE id NOT IN (…)`
unfoldable pub kept_rows : List ℕ → List LoggedRun → List LoggedRun
unfolding is_among
kept_rows is [] = []
kept_rows is (e ∷ es) = let rest = kept_rows is es in if is_among e.id is then e ∷ rest else rest

unfoldable pub prune_history : ℕ → List LoggedRun → List LoggedRun
unfolding newest_ids kept_rows
prune_history limit rows = kept_rows (newest_ids limit rows) rows

abbrev pub table_after_commit :
    Tables → Tables → LoggedRun → CommitAnswer → Tables × Result LibraryError LoggedRun
table_after_commit before after e commit_made = (after, ok e)
table_after_commit before after e commit_refused = (before, err store_failed)
table_after_commit before after e commit_lost = (after, err store_failed)

unfoldable pub table_add_history :
    DriverAnswers → ℕ → LoggedRun → Tables → Tables × Result LibraryError LoggedRun
unfolding prune_history
table_add_history d now e t =
    let n = suc t.last_history in
    let made = record e { id = n; executed_at = run_time now e.executed_at } in
    let rows = prune_history t.retention (t.history_rows ++ made ∷ []) in
    if d.begun && d.executed && d.affected && d.pruned
    then table_after_commit t (record t { last_history = n; history_rows = rows }) made d.commit
    else (t, err store_failed)

unfoldable pub table_list_history :
    DriverAnswers → LibraryFilter → Tables → Result LibraryError (List LoggedRun)
unfolding select_page normalize_filter
table_list_history d f t =
    if d.read
    then ok (select_page run_branch run_database (normalize_filter f) t.history_rows)
    else err store_failed

-- a new database, of which the tables are empty
unfoldable pub new_tables : ℤ → Tables
new_tables limit = record {
  retention = retention_of limit;
  last_saved = 0;
  last_history = 0;
  saved_rows = [];
  history_rows = [];
}

-- `init` on a database that is there, where it succeeds: the history is pruned to the limit that is
-- given now
unfoldable pub reopened : ℤ → Tables → Tables
unfolding prune_history
reopened limit t =
    let n = retention_of limit in
    record t { retention = n; history_rows = prune_history n t.history_rows }
