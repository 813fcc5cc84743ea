-- ===== src/Library/Requests.antt =====
-- internal/server/sql_query_library.go: the interface `sqlQueryLibraryStore`, a call as a value, and
-- the two stores that answer it. Each call comes with what the clock shows.
use neon_selfhost.Prelude.{ℕ, Text, true, Option, List, [], ◌∷◌, Result, ok}
use neon_selfhost.Prelude.Int.{ℤ}
use neon_selfhost.Library.{SavedQuery, LoggedRun, LibraryFilter, LibraryError}
use neon_selfhost.Library.Memory.{
  Memory, create_saved, update_saved, delete_saved, list_saved, add_history, list_history,
}
use neon_selfhost.Library.Table.{
  Tables, DriverAnswers, commit_made, table_create_saved, table_update_saved, table_delete_saved,
  table_list_saved, table_add_history, table_list_history, reopened,
}

pub data StoreRequest : Type 0 where
  create_query : SavedQuery → StoreRequest
  update_query : ℕ → Option Text → Option Text → StoreRequest
  delete_query : ℕ → StoreRequest
  list_queries : LibraryFilter → StoreRequest
  add_execution : LoggedRun → StoreRequest
  list_executions : LibraryFilter → StoreRequest

pub data StoreAnswer : Type 0 where
  one_query : Result LibraryError SavedQuery → StoreAnswer
  deleted : Result LibraryError Unit → StoreAnswer
  queries : Result LibraryError (List SavedQuery) → StoreAnswer
  one_execution : Result LibraryError LoggedRun → StoreAnswer
  executions : Result LibraryError (List LoggedRun) → StoreAnswer

abbrev pub then_answer : {S A : Type 0} → (A → StoreAnswer) → S × A → S × StoreAnswer
then_answer f (s, a) = (s, f a)

unfoldable pub memory_step : ℕ → StoreRequest → Memory → Memory × StoreAnswer
unfolding create_saved update_saved delete_saved list_saved add_history list_history
memory_step now (create_query q) m = then_answer (λ x. one_query (ok x)) (create_saved now q m)
memory_step now (update_query id name sql) m =
    then_answer one_query (update_saved now id name sql m)
memory_step now (delete_query id) m = then_answer deleted (delete_saved id m)
memory_step now (list_queries f) m = (m, queries (ok (list_saved f m)))
memory_step now (add_execution e) m = then_answer (λ x. one_execution (ok x)) (add_history now e m)
memory_step now (list_executions f) m = (m, executions (ok (list_history f m)))

unfoldable pub table_step : DriverAnswers → ℕ → StoreRequest → Tables → Tables × StoreAnswer
unfolding table_create_saved table_update_saved table_delete_saved table_list_saved
    table_add_history table_list_history
table_step d now (create_query q) t = then_answer one_query (table_create_saved d now q t)
table_step d now (update_query id name sql) t =
    then_answer one_query (table_update_saved d now id name sql t)
table_step d now (delete_query id) t = then_answer deleted (table_delete_saved d id t)
table_step d now (list_queries f) t = (t, queries (table_list_saved d f t))
table_step d now (add_execution e) t = then_answer one_execution (table_add_history d now e t)
table_step d now (list_executions f) t = (t, executions (table_list_history d f t))

abbrev pub all_well : DriverAnswers
all_well = record {
  begun = true;
  executed = true;
  affected = true;
  read = true;
  pruned = true;
  commit = commit_made;
}

module _ {S : Type 0} (step : ℕ → StoreRequest → S → S × StoreAnswer) where
  unfoldable pub state_after : List (ℕ × StoreRequest) → S → S
  state_after [] s = s
  state_after ((now, r) ∷ rs) s = state_after rs (step now r s).0

  unfoldable pub answers : List (ℕ × StoreRequest) → S → List StoreAnswer
  answers [] s = []
  answers ((now, r) ∷ rs) s = let out = step now r s in out.1 ∷ answers rs out.0

-- a request to the SQLite store, or a restart of the program that opens the store again
pub data LibraryEvent : Type 0 where
  called : DriverAnswers → ℕ → StoreRequest → LibraryEvent
  opened_with : ℤ → LibraryEvent

unfoldable pub tables_after : List LibraryEvent → Tables → Tables
unfolding table_step reopened
tables_after [] t = t
tables_after (called d now r ∷ es) t = tables_after es (table_step d now r t).0
tables_after (opened_with limit ∷ es) t = tables_after es (reopened limit t)
