-- ===== src/Library/Calls.antt =====
-- internal/server/sql_query_library.go: sequences of requests to the routes, over any of the stores.
use neon_selfhost.Prelude.{
  ℕ, sym, Text, not, ◌&&◌, if_split, is_some, Option, List, [], ◌∷◌, All-append, Result, ok, err,
}
use mathlib.Core.Path.{subst}
use neon_selfhost.Branch.Types.{Branch, Error}
use neon_selfhost.Branch.Store.{Store, get_active}
use neon_selfhost.Library.{SavedQuery, LoggedRun}
use neon_selfhost.Library.Table.{
  Tables, DriverAnswers, table_create_saved, table_update_saved, table_delete_saved,
  table_add_history, table_after_commit, CommitAnswer, commit_made, commit_refused, commit_lost,
}
use neon_selfhost.Library.Requests.{
  StoreRequest, create_query, update_query, delete_query, list_queries, add_execution,
  list_executions, table_step,
}
use neon_selfhost.Library.Checks.{CheckError, normalize_saved_query, normalize_update, parse_id}
use neon_selfhost.Library.Handlers.{
  LibraryStore, memory_store, table_store, no_store, SqlLibrary, Caller, store_step, library_step,
  LibraryCall, post, patch, remove, get_list, get_history, ran, call_step, library_after,
  handle_create, handle_update, handle_delete, record_execution, checked_create, created_for,
  checked_update, identified_update, identified_delete,
}
use neon_selfhost.Library.Paged.{lists_within_limits}
use neon_selfhost.Library.Savable.{
  IsSavable, AreSavable, Checked, IsUpdate, normalize_saved_query-Checked,
  normalize_update-IsUpdate,
}
use neon_selfhost.Library.Curated.{
  IsCurated, IsAllowed, memory_step-IsCurated, update_rows-AreSavable, delete_rows-AreSavable,
}

table_after_commit-AreSavable :
    (before after : Tables) (e : LoggedRun) (c : CommitAnswer)
    → AreSavable before.saved_rows
    → AreSavable after.saved_rows
    → AreSavable (table_after_commit before after e c).0.saved_rows
table_after_commit-AreSavable before after e commit_made k j = j
table_after_commit-AreSavable before after e commit_refused k j = k
table_after_commit-AreSavable before after e commit_lost k j = j

table_step-IsCurated :
    (d : DriverAnswers) (now : ℕ) (r : StoreRequest) (t : Tables)
    → IsAllowed r
    → AreSavable t.saved_rows
    → AreSavable (table_step d now r t).0.saved_rows
unfolding table_step table_create_saved table_update_saved table_delete_saved table_add_history
table_step-IsCurated d now (create_query q) t a k =
    if_split (λ (x : Tables × Result _ SavedQuery). AreSavable x.0.saved_rows) (not d.executed) _ _
      (λ _. k) (λ _. All-append IsSavable t.saved_rows (_ ∷ []) k (a, tt))
table_step-IsCurated d now (update_query id name sql) t a k =
    if_split (λ (x : Tables × Result _ SavedQuery). AreSavable x.0.saved_rows) (not d.executed) _ _
      (λ _. k) (λ _. update_rows-AreSavable now id name sql a.0 a.1 t.saved_rows k)
table_step-IsCurated d now (delete_query id) t a k =
    if_split (λ (x : Tables × Result _ Unit). AreSavable x.0.saved_rows) (not d.executed) _ _
      (λ _. k) (λ _. delete_rows-AreSavable id t.saved_rows k)
table_step-IsCurated d now (list_queries f) t a k = k
table_step-IsCurated d now (add_execution e) t a k =
    if_split (λ (x : Tables × Result _ LoggedRun). AreSavable x.0.saved_rows)
      (d.begun && d.executed && d.affected && d.pruned) _ _
      (λ _. table_after_commit-AreSavable t _ _ d.commit k k) (λ _. k)
table_step-IsCurated d now (list_executions f) t a k = k

store_step-IsCurated :
    (c : Caller) (r : StoreRequest) (s : LibraryStore)
    → IsAllowed r
    → IsCurated s
    → IsCurated (store_step c r s).0
unfolding store_step
store_step-IsCurated c r (memory_store m) a k = memory_step-IsCurated c.now r m a k
store_step-IsCurated c r (table_store t) a k = table_step-IsCurated c.driver c.now r t a k
store_step-IsCurated c r no_store a k = k

library_step-IsCurated :
    (c : Caller) (r : StoreRequest) (l : SqlLibrary)
    → IsAllowed r
    → IsCurated l.store
    → IsCurated (library_step c r l).0.store
unfolding library_step
library_step-IsCurated c r l a k = store_step-IsCurated c r l.store a k

module _ (c : Caller) (l : SqlLibrary) (k : IsCurated l.store) where
  created_for-IsCurated :
      (q : SavedQuery) (b : Result Error Branch)
      → IsSavable q
      → IsCurated (created_for c q l b).0.store
  created_for-IsCurated q (ok b) a = library_step-IsCurated c (create_query q) l a k
  created_for-IsCurated q (err e) a = k

  checked_create-IsCurated :
      (s : Store) (r : Result CheckError SavedQuery)
      → Checked r
      → IsCurated (checked_create c s l r).0.store
  checked_create-IsCurated s (ok q) a = created_for-IsCurated q (get_active q.branch s) a
  checked_create-IsCurated s (err e) a = k

  checked_update-IsCurated :
      (id : ℕ) (r : Result CheckError (Option Text × Option Text))
      → IsUpdate r
      → IsCurated (checked_update c id l r).0.store
  checked_update-IsCurated id (ok (name, sql)) a =
      library_step-IsCurated c (update_query id name sql) l a k
  checked_update-IsCurated id (err e) a = k

  identified_update-IsCurated :
      (name sql : Option Text) (r : Result CheckError ℕ)
      → IsCurated (identified_update c name sql l r).0.store
  identified_update-IsCurated name sql (ok id) =
      if_split (λ (x : SqlLibrary × _). IsCurated x.0.store)
        (not (is_some name) && not (is_some sql)) _ _ (λ _. k)
        (λ _.
          checked_update-IsCurated id (normalize_update name sql)
            (normalize_update-IsUpdate name sql))
  identified_update-IsCurated name sql (err e) = k

  identified_delete-IsCurated :
      (r : Result CheckError ℕ) → IsCurated (identified_delete c l r).0.store
  identified_delete-IsCurated (ok id) = library_step-IsCurated c (delete_query id) l tt k
  identified_delete-IsCurated (err e) = k

  call_step-IsCurated : (x : LibraryCall) → IsCurated (call_step c x l).store
  unfolding call_step handle_create handle_update handle_delete record_execution
  call_step-IsCurated (post s r) =
      checked_create-IsCurated s (normalize_saved_query r) (normalize_saved_query-Checked r)
  call_step-IsCurated (patch raw name sql) = identified_update-IsCurated name sql (parse_id raw)
  call_step-IsCurated (remove raw) = identified_delete-IsCurated (parse_id raw)
  call_step-IsCurated (get_list p) = subst IsCurated (sym (lists_within_limits c p l).0.1) k
  call_step-IsCurated (get_history p) = subst IsCurated (sym (lists_within_limits c p l).1.1) k
  call_step-IsCurated (ran e) = library_step-IsCurated c (add_execution e) l tt k

-- Whatever requests come, in whatever order, and whatever the driver answers, every saved query
-- has a name, a text that is not blank and has at most 64 KiB, a branch, and a database name
-- that passes the check, if those that are there at the start have.
pub library_after-IsCurated :
    (calls : List (Caller × LibraryCall)) (l : SqlLibrary)
    → IsCurated l.store
    → IsCurated (library_after calls l).store
unfolding library_after
library_after-IsCurated [] l k = k
library_after-IsCurated ((c, x) ∷ calls) l k =
    library_after-IsCurated calls (call_step c x l) (call_step-IsCurated c l k x)
