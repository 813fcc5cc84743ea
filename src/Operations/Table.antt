-- ===== src/Operations/Table.antt =====
-- internal/server/operations.go: the operation stores. The SQLite table is the list of its rows in
-- the order of their ids; each statement is answered with success or failure.
use neon_selfhost.Prelude.{
  ℕ, Text, Bool, true, false, Option, none, some, List, [], ◌∷◌, ltb, ◌==◌, if◌then◌else◌, length,
  drop, ◌-◌,
}
use neon_selfhost.Operations.Types.{Entry, Status, failed, is_running, interrupted_message}

-- `started_at` is `none` where its text is no timestamp; such a row is skipped when it is read.
pub record Row : Type 0 where
  pub id : ℕ
  pub kind : Text
  pub status : Status
  pub message : Text
  pub started_at : Option ℕ
  pub finished_at : Option ℕ

pub data OpStore : Type 0 where
  noop unavailable : OpStore
  sqlite : List Row → OpStore

unfoldable pub row_of : Entry → Row
row_of e = record {
  id = e.id;
  kind = e.kind;
  status = e.status;
  message = e.message;
  started_at = some e.started_at;
  finished_at = e.finished_at;
}

-- `INSERT … ON CONFLICT(id) DO UPDATE`
unfoldable pub upsert_row : Row → List Row → List Row
upsert_row r [] = r ∷ []
upsert_row r (q ∷ rows) =
    if r.id == q.id then r ∷ rows else if ltb r.id q.id then r ∷ q ∷ rows else q ∷ upsert_row r rows

-- `Upsert` of the three stores; the second result says whether the error is nil.
unfoldable pub upsert : Bool → Entry → OpStore → OpStore × Bool
unfolding row_of upsert_row
upsert answer e noop = (noop, true)
upsert answer e unavailable = (unavailable, false)
upsert answer e (sqlite rows) =
    if answer then (sqlite (upsert_row (row_of e) rows), true) else (sqlite rows, false)

-- `UPDATE operations SET … WHERE status = 'running'`
unfoldable pub interrupt : ℕ → Row → Row
unfolding is_running
interrupt now r =
    if is_running r.status
    then record r { status = failed; message = interrupted_message; finished_at = some now }
    else r

unfoldable pub interrupt_all : ℕ → List Row → List Row
unfolding interrupt
interrupt_all now [] = []
interrupt_all now (r ∷ rows) = interrupt now r ∷ interrupt_all now rows

abbrev pub entry_at : Row → ℕ → Entry
entry_at r t = record {
  id = r.id;
  kind = r.kind;
  status = r.status;
  message = r.message;
  started_at = t;
  finished_at = r.finished_at;
}

abbrev pub read : Row → Option ℕ → List Entry → List Entry
read r none rest = rest
read r (some t) rest = entry_at r t ∷ rest

-- the loop over the rows
unfoldable pub entries_of : List Row → List Entry
entries_of [] = []
entries_of (r ∷ rows) = read r r.started_at (entries_of rows)

-- the largest id, of the skipped rows too
unfoldable pub max_id : ℕ → List Row → ℕ
max_id m [] = m
max_id m (r ∷ rows) = max_id (if ltb m r.id then r.id else m) rows

-- `entries[len(entries)-maxEntries:]` where there are more
unfoldable pub keep_last : ℕ → List Entry → List Entry
keep_last limit es = if ltb limit (length es) then drop (length es - limit) es else es

abbrev pub Loaded : Type 0
Loaded = List Entry × ℕ

-- `Load`: `none` is an error, after which the table is as the first statement left it.
unfoldable pub load : Bool → Bool → ℕ → ℕ → OpStore → OpStore × Option Loaded
unfolding interrupt_all entries_of max_id keep_last
load update_ok query_ok now max_entries noop = (noop, some ([], 0))
load update_ok query_ok now max_entries unavailable = (unavailable, none)
load update_ok query_ok now max_entries (sqlite rows) =
    let rows' = interrupt_all now rows in
    let es = entries_of rows' in
    let kept = if ltb 0 max_entries then keep_last max_entries es else es in
    if update_ok
    then (if query_ok then (sqlite rows', some (kept, max_id 0 rows')) else (sqlite rows', none))
    else (sqlite rows, none)
