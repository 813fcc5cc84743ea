-- ===== src/Library/Kept.antt =====
-- internal/server/sql_query_library.go: the tables of the SQLite store whatever the driver answers
-- and however often the store is opened.
use neon_selfhost.Prelude.{
  ℕ, suc, ◌-◌, ◌≤◌, refl, Text, not, ◌&&◌, if_split, Option, List, [], ◌∷◌, ◌++◌, length,
  length-drop, Result, arith,
}
use neon_selfhost.Library.{SavedQuery, LoggedRun, run_time}
use neon_selfhost.Library.Memory.{retained, retention_of, saved_id, run_id}
use neon_selfhost.Library.Table.{
  Tables, DriverAnswers, commit_made, commit_refused, commit_lost, prune_history,
  table_create_saved, table_update_saved, table_delete_saved, table_add_history, reopened,
  CommitAnswer, table_after_commit,
}
use neon_selfhost.Library.Requests.{
  StoreRequest, create_query, update_query, delete_query, list_queries, add_execution,
  list_executions, table_step, LibraryEvent, called, opened_with, tables_after,
}
use neon_selfhost.Library.Ordered.{IsAscending, AtMost}
use neon_selfhost.Library.Rows.{
  update_rows-IsAscending, AtMost-update_rows, delete_rows-IsAscending, AtMost-delete_rows,
}
use neon_selfhost.Library.Prune.{prune_history-retained}
use neon_selfhost.Library.Same.{retained-Ordered, appended}

abbrev pub HasSavedKeys : Tables → Type 0
HasSavedKeys t = IsAscending saved_id t.saved_rows × AtMost saved_id t.last_saved t.saved_rows

abbrev pub HasHistoryKeys : Tables → Type 0
HasHistoryKeys t = IsAscending run_id t.history_rows × AtMost run_id t.last_history t.history_rows

abbrev pub IsKept : Tables → Type 0
IsKept t = (HasSavedKeys t × HasHistoryKeys t) × (length t.history_rows ≤ t.retention)

length-retained : (limit : ℕ) (es : List LoggedRun) → length (retained limit es) ≤ limit
unfolding retained
length-retained limit es = ground (arith, length-drop (length es - limit) es)

-- what is pruned keeps its order, and is within the limit
pruned :
    (limit n : ℕ) (es : List LoggedRun)
    → IsAscending run_id es × AtMost run_id n es
    → (IsAscending run_id (prune_history limit es) × AtMost run_id n (prune_history limit es))
      × (length (prune_history limit es) ≤ limit)
pruned limit n es o =
    rw (prune_history-retained limit es o.0)
      (retained-Ordered limit n es o, length-retained limit es)

create-IsKept :
    (d : DriverAnswers) (now : ℕ) (q : SavedQuery) (t : Tables)
    → IsKept t
    → IsKept (table_create_saved d now q t).0
unfolding table_create_saved
create-IsKept d now q t k =
    if_split (λ (x : Tables × Result _ SavedQuery). IsKept x.0) (not d.executed) _ _ (λ _. k)
      (λ _. ((appended saved_id t.last_saved t.saved_rows _ refl k.0.0, k.0.1), k.1))

update-IsKept :
    (d : DriverAnswers) (now id : ℕ) (name sql : Option Text) (t : Tables)
    → IsKept t
    → IsKept (table_update_saved d now id name sql t).0
unfolding table_update_saved
update-IsKept d now id name sql t k =
    if_split (λ (x : Tables × Result _ SavedQuery). IsKept x.0) (not d.executed) _ _ (λ _. k)
      (λ _. (
        (
          (
            update_rows-IsAscending now id name sql t.saved_rows k.0.0.0,
            AtMost-update_rows t.last_saved now id name sql t.saved_rows k.0.0.1,
          ),
          k.0.1,
        ),
        k.1,
      ))

delete-IsKept :
    (d : DriverAnswers) (id : ℕ) (t : Tables) → IsKept t → IsKept (table_delete_saved d id t).0
unfolding table_delete_saved
delete-IsKept d id t k =
    if_split (λ (x : Tables × Result _ Unit). IsKept x.0) (not d.executed) _ _ (λ _. k)
      (λ _. (
        (
          (
            delete_rows-IsAscending id t.saved_rows k.0.0.0,
            AtMost-delete_rows t.last_saved id t.saved_rows k.0.0.1,
          ),
          k.0.1,
        ),
        k.1,
      ))

table_after_commit-IsKept :
    (before after : Tables) (e : LoggedRun) (c : CommitAnswer)
    → IsKept before
    → IsKept after
    → IsKept (table_after_commit before after e c).0
table_after_commit-IsKept before after e commit_made k j = j
table_after_commit-IsKept before after e commit_refused k j = k
table_after_commit-IsKept before after e commit_lost k j = j

add-IsKept :
    (d : DriverAnswers) (now : ℕ) (e : LoggedRun) (t : Tables)
    → IsKept t
    → IsKept (table_add_history d now e t).0
unfolding table_add_history
add-IsKept d now e t k =
    let made = record e { id = suc t.last_history; executed_at = run_time now e.executed_at } in
    let longer = appended run_id t.last_history t.history_rows made refl k.0.1 in
    let (order, short) =
      pruned t.retention (suc t.last_history) (t.history_rows ++ made ∷ []) longer in
    if_split (λ (x : Tables × Result _ LoggedRun). IsKept x.0)
      (d.begun && d.executed && d.affected && d.pruned) _ _
      (λ _. table_after_commit-IsKept t _ made d.commit k ((k.0.0, order), short)) (λ _. k)

step-IsKept :
    (d : DriverAnswers) (now : ℕ) (r : StoreRequest) (t : Tables)
    → IsKept t
    → IsKept (table_step d now r t).0
unfolding table_step
step-IsKept d now (create_query q) t k = create-IsKept d now q t k
step-IsKept d now (update_query id name sql) t k = update-IsKept d now id name sql t k
step-IsKept d now (delete_query id) t k = delete-IsKept d id t k
step-IsKept d now (list_queries f) t k = k
step-IsKept d now (add_execution e) t k = add-IsKept d now e t k
step-IsKept d now (list_executions f) t k = k

-- Whatever the driver answers and however often the store is opened, the rows of both tables
-- stay in the order of their ids, each at most the last one given, and the history stays within
-- the limit that the store was last opened with.
pub tables_after-IsKept :
    (es : List LibraryEvent) (t : Tables) → IsKept t → IsKept (tables_after es t)
unfolding tables_after reopened
tables_after-IsKept [] t k = k
tables_after-IsKept (called d now r ∷ es) t k =
    tables_after-IsKept es (table_step d now r t).0 (step-IsKept d now r t k)
tables_after-IsKept (opened_with limit ∷ es) t k =
    let (order, short) = pruned (retention_of limit) t.last_history t.history_rows k.0.1 in
    tables_after-IsKept es (reopened limit t) ((k.0.0, order), short)
