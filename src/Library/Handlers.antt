-- ===== src/Library/Handlers.antt =====
-- internal/server/sql_query_library.go: `sqlQueryLibrary`, which notes that its store has failed, and
-- the handlers of the routes, for a body that is decoded.
use neon_selfhost.Prelude.{
  ℕ, Text, Bool, true, false, not, ◌&&◌, ◌||◌, Option, List, [], ◌∷◌, Result, ok, err,
  if◌then◌else◌, is_some,
}
use neon_selfhost.Branch.Types.{Branch, Error, not_found}
use neon_selfhost.Branch.Store.{Store, get_active}
use neon_selfhost.Library.{
  SavedQuery, LoggedRun, LibraryFilter, LibraryError, query_not_found, store_failed,
}
use neon_selfhost.Library.Memory.{Memory}
use neon_selfhost.Library.Table.{Tables, DriverAnswers}
use neon_selfhost.Library.Requests.{
  StoreRequest, StoreAnswer, create_query, update_query, delete_query, list_queries, add_execution,
  list_executions, one_query, deleted, queries, one_execution, executions, memory_step, table_step,
}
use neon_selfhost.Library.Checks.{
  CheckError, CreateRequest, ListParameters, nothing_to_update, normalize_saved_query,
  normalize_update, parse_filter, parse_id,
}

-- `unavailableSQLQueryLibraryStore` is `no_store`.
pub data LibraryStore : Type 0 where
  memory_store : Memory → LibraryStore
  table_store : Tables → LibraryStore
  no_store : LibraryStore

pub record SqlLibrary : Type 0 where
  pub store : LibraryStore
  pub bad : Bool

-- What a call meets: the clock, the driver, and whether its context has ended by the answer.
pub record Caller : Type 0 where
  pub now : ℕ
  pub driver : DriverAnswers
  pub is_gone : Bool

abbrev pub all_failed : StoreRequest → StoreAnswer
all_failed (create_query q) = one_query (err store_failed)
all_failed (update_query id name sql) = one_query (err store_failed)
all_failed (delete_query id) = deleted (err store_failed)
all_failed (list_queries f) = queries (err store_failed)
all_failed (add_execution e) = one_execution (err store_failed)
all_failed (list_executions f) = executions (err store_failed)

abbrev pub in_memory : Memory × StoreAnswer → LibraryStore × StoreAnswer
in_memory (m, a) = (memory_store m, a)

abbrev pub in_tables : Tables × StoreAnswer → LibraryStore × StoreAnswer
in_tables (t, a) = (table_store t, a)

unfoldable pub store_step : Caller → StoreRequest → LibraryStore → LibraryStore × StoreAnswer
unfolding memory_step table_step
store_step c r (memory_store m) = in_memory (memory_step c.now r m)
store_step c r (table_store t) = in_tables (table_step c.driver c.now r t)
store_step c r no_store = (no_store, all_failed r)

abbrev pub has_failed : {A : Type 0} → Result LibraryError A → Bool
has_failed (ok a) = false
has_failed (err query_not_found) = false
has_failed (err store_failed) = true

-- `markRequestResult` forgives a request whose context has ended; `markResult`, for the history of
-- what ran, does not.
unfoldable pub marks : Bool → StoreAnswer → Bool
marks is_gone (one_query r) = has_failed r && not is_gone
marks is_gone (deleted r) = has_failed r && not is_gone
marks is_gone (queries r) = has_failed r && not is_gone
marks is_gone (one_execution r) = has_failed r
marks is_gone (executions r) = has_failed r && not is_gone

abbrev pub marked : Bool → SqlLibrary → LibraryStore × StoreAnswer → SqlLibrary × StoreAnswer
marked is_gone l (s, a) = (record { store = s; bad = l.bad || marks is_gone a }, a)

unfoldable pub library_step : Caller → StoreRequest → SqlLibrary → SqlLibrary × StoreAnswer
unfolding store_step marks
library_step c r l = marked c.is_gone l (store_step c r l.store)

pub data Reply : Type 0 where
  query_created : SavedQuery → Reply
  query_updated : SavedQuery → Reply
  no_content : Reply
  query_list : List SavedQuery → Reply
  execution_list : List LoggedRun → Reply
  bad_request : CheckError → Reply
  branch_missing : Reply
  query_missing : Reply
  library_unavailable : Reply
  internal_error : Reply

-- `writeSQLQueryLibraryError`
abbrev pub library_error : LibraryError → Reply
library_error query_not_found = query_missing
library_error store_failed = library_unavailable

abbrev pub reply_with : {A : Type 0} → (A → Reply) → Result LibraryError A → Reply
reply_with f (ok a) = f a
reply_with f (err e) = library_error e

-- the answer to a request, as the reply of the route that makes it
abbrev pub reply_of : (SavedQuery → Reply) → StoreAnswer → Reply
reply_of f (one_query r) = reply_with f r
reply_of f (deleted r) = reply_with (λ _. no_content) r
reply_of f (queries r) = reply_with query_list r
reply_of f (one_execution r) = reply_with (λ _. no_content) r
reply_of f (executions r) = reply_with execution_list r

abbrev pub reply_from : (SavedQuery → Reply) → SqlLibrary × StoreAnswer → SqlLibrary × Reply
reply_from f (l, a) = (l, reply_of f a)

abbrev pub branch_error : Error → Reply
branch_error not_found = branch_missing
branch_error e = internal_error

module _ (c : Caller) where
  abbrev pub created_for : SavedQuery → SqlLibrary → Result Error Branch → SqlLibrary × Reply
  created_for q l (ok b) = reply_from query_created (library_step c (create_query q) l)
  created_for q l (err e) = (l, branch_error e)

  abbrev pub checked_create : Store → SqlLibrary → Result CheckError SavedQuery → SqlLibrary × Reply
  checked_create s l (err e) = (l, bad_request e)
  checked_create s l (ok q) = created_for q l (get_active q.branch s)

  unfoldable pub handle_create : Store → CreateRequest → SqlLibrary → SqlLibrary × Reply
  unfolding normalize_saved_query get_active library_step
  handle_create s r l = checked_create s l (normalize_saved_query r)

  abbrev pub checked_update :
      ℕ → SqlLibrary → Result CheckError (Option Text × Option Text) → SqlLibrary × Reply
  checked_update id l (err e) = (l, bad_request e)
  checked_update id l (ok (name, sql)) =
      reply_from query_updated (library_step c (update_query id name sql) l)

  abbrev pub identified_update :
      Option Text → Option Text → SqlLibrary → Result CheckError ℕ → SqlLibrary × Reply
  identified_update name sql l (err e) = (l, bad_request e)
  identified_update name sql l (ok id) =
      if not (is_some name) && not (is_some sql)
      then (l, bad_request nothing_to_update)
      else checked_update id l (normalize_update name sql)

  unfoldable pub handle_update : Text → Option Text → Option Text → SqlLibrary → SqlLibrary × Reply
  unfolding parse_id normalize_update library_step
  handle_update raw name sql l = identified_update name sql l (parse_id raw)

  abbrev pub identified_delete : SqlLibrary → Result CheckError ℕ → SqlLibrary × Reply
  identified_delete l (err e) = (l, bad_request e)
  identified_delete l (ok id) = reply_from query_updated (library_step c (delete_query id) l)

  unfoldable pub handle_delete : Text → SqlLibrary → SqlLibrary × Reply
  unfolding parse_id library_step
  handle_delete raw l = identified_delete l (parse_id raw)

  abbrev pub checked_list :
      (LibraryFilter → StoreRequest)
      → SqlLibrary
      → Result CheckError LibraryFilter
      → SqlLibrary × Reply
  checked_list request l (err e) = (l, bad_request e)
  checked_list request l (ok f) = reply_from query_updated (library_step c (request f) l)

  unfoldable pub handle_list : ListParameters → SqlLibrary → SqlLibrary × Reply
  unfolding parse_filter library_step
  handle_list p l = checked_list list_queries l (parse_filter p)

  unfoldable pub handle_history : ListParameters → SqlLibrary → SqlLibrary × Reply
  unfolding parse_filter library_step
  handle_history p l = checked_list list_executions l (parse_filter p)

-- `recordSQLExecutionHistory`
unfoldable pub record_execution : Caller → LoggedRun → SqlLibrary → SqlLibrary
unfolding library_step
record_execution c e l = (library_step c (add_execution e) l).0

-- a request of a client, or a run of SQL that is recorded
pub data LibraryCall : Type 0 where
  post : Store → CreateRequest → LibraryCall
  patch : Text → Option Text → Option Text → LibraryCall
  remove : Text → LibraryCall
  get_list : ListParameters → LibraryCall
  get_history : ListParameters → LibraryCall
  ran : LoggedRun → LibraryCall

unfoldable pub call_step : Caller → LibraryCall → SqlLibrary → SqlLibrary
unfolding handle_create handle_update handle_delete handle_list handle_history record_execution
call_step c (post s r) l = (handle_create c s r l).0
call_step c (patch raw name sql) l = (handle_update c raw name sql l).0
call_step c (remove raw) l = (handle_delete c raw l).0
call_step c (get_list p) l = (handle_list c p l).0
call_step c (get_history p) l = (handle_history c p l).0
call_step c (ran e) l = record_execution c e l

unfoldable pub library_after : List (Caller × LibraryCall) → SqlLibrary → SqlLibrary
unfolding call_step
library_after [] l = l
library_after ((c, x) ∷ calls) l = library_after calls (call_step c x l)
