-- ===== src/Library/Curated.antt =====
-- internal/server/sql_query_library.go: the saved queries whatever clients do.
use neon_selfhost.Prelude.{ℕ, Text, if_split, Option, none, some, List, [], ◌∷◌, All-append, ◌==◌}
use neon_selfhost.Library.{SavedQuery}
use neon_selfhost.Library.Memory.{
  Memory, update_first, kept_before, update_saved, updated_memory, delete_first, kept_query,
  delete_saved, deleted_memory, create_saved, add_history,
}
use neon_selfhost.Library.Table.{update_rows, delete_rows}
use neon_selfhost.Library.Requests.{
  StoreRequest, create_query, update_query, delete_query, list_queries, add_execution,
  list_executions, memory_step,
}
use neon_selfhost.Library.Handlers.{LibraryStore, memory_store, table_store, no_store}
use neon_selfhost.Library.Savable.{
  IsSavable, AreSavable, IsNewName, IsNewText, updated_query-IsSavable,
}

abbrev pub saved_in : LibraryStore → List SavedQuery
saved_in (memory_store m) = m.saved
saved_in (table_store t) = t.saved_rows
saved_in no_store = []

abbrev pub IsCurated : LibraryStore → Type 0
IsCurated s = AreSavable (saved_in s)

abbrev Updated : Option (List SavedQuery × SavedQuery) → Type 0
Updated none = Unit
Updated (some (qs, q)) = AreSavable qs

module _ (now id : ℕ) (name sql : Option Text) (n : IsNewName name) (s : IsNewText sql) where
  kept_before-Updated :
      (q : SavedQuery) (o : Option (List SavedQuery × SavedQuery))
      → IsSavable q
      → Updated o
      → Updated (kept_before q o)
  kept_before-Updated q none k u = tt
  kept_before-Updated q (some (qs, p)) k u = (k, u)

  update_first-Updated :
      (qs : List SavedQuery) → AreSavable qs → Updated (update_first now id name sql qs)
  unfolding update_first
  update_first-Updated [] k = tt
  update_first-Updated (q ∷ qs) k =
      let rest = update_first-Updated qs k.1 in
      if_split Updated (q.id == id) _ _
        (λ _. (updated_query-IsSavable now id name sql q n s k.0, k.1))
        (λ _. kept_before-Updated q (update_first now id name sql qs) k.0 rest)

  updated_memory-IsCurated :
      (m : Memory) (o : Option (List SavedQuery × SavedQuery))
      → AreSavable m.saved
      → Updated o
      → AreSavable (updated_memory m o).0.saved
  updated_memory-IsCurated m none k u = k
  updated_memory-IsCurated m (some (qs, q)) k u = u

  pub update_rows-AreSavable :
      (qs : List SavedQuery) → AreSavable qs → AreSavable (update_rows now id name sql qs)
  unfolding update_rows
  update_rows-AreSavable [] k = tt
  update_rows-AreSavable (q ∷ qs) k =
      let rest = update_rows-AreSavable qs k.1 in
      if_split AreSavable (q.id == id) _ _
        (λ _. (updated_query-IsSavable now id name sql q n s k.0, rest)) (λ _. (k.0, rest))

abbrev Deleted : Option (List SavedQuery) → Type 0
Deleted none = Unit
Deleted (some qs) = AreSavable qs

kept_query-Deleted :
    (q : SavedQuery) (o : Option (List SavedQuery))
    → IsSavable q
    → Deleted o
    → Deleted (kept_query q o)
kept_query-Deleted q none k u = tt
kept_query-Deleted q (some qs) k u = (k, u)

delete_first-Deleted :
    (id : ℕ) (qs : List SavedQuery) → AreSavable qs → Deleted (delete_first id qs)
unfolding delete_first
delete_first-Deleted id [] k = tt
delete_first-Deleted id (q ∷ qs) k =
    let rest = delete_first-Deleted id qs k.1 in
    if_split Deleted (q.id == id) _ _ (λ _. k.1)
      (λ _. kept_query-Deleted q (delete_first id qs) k.0 rest)

deleted_memory-IsCurated :
    (m : Memory) (o : Option (List SavedQuery))
    → AreSavable m.saved
    → Deleted o
    → AreSavable (deleted_memory m o).0.saved
deleted_memory-IsCurated m none k u = k
deleted_memory-IsCurated m (some qs) k u = u

pub delete_rows-AreSavable :
    (id : ℕ) (qs : List SavedQuery) → AreSavable qs → AreSavable (delete_rows id qs)
unfolding delete_rows
delete_rows-AreSavable id [] k = tt
delete_rows-AreSavable id (q ∷ qs) k =
    let rest = delete_rows-AreSavable id qs k.1 in
    if_split AreSavable (q.id == id) _ _ (λ _. rest) (λ _. (k.0, rest))

-- a request that the handlers make
abbrev pub IsAllowed : StoreRequest → Type 0
IsAllowed (create_query q) = IsSavable q
IsAllowed (update_query id name sql) = IsNewName name × IsNewText sql
IsAllowed r = Unit

pub memory_step-IsCurated :
    (now : ℕ) (r : StoreRequest) (m : Memory)
    → IsAllowed r
    → AreSavable m.saved
    → AreSavable (memory_step now r m).0.saved
unfolding memory_step create_saved update_saved delete_saved add_history
memory_step-IsCurated now (create_query q) m a k = All-append IsSavable m.saved (_ ∷ []) k (a, tt)
memory_step-IsCurated now (update_query id name sql) m a k =
    updated_memory-IsCurated now id name sql a.0 a.1 m (update_first now id name sql m.saved) k
      (update_first-Updated now id name sql a.0 a.1 m.saved k)
memory_step-IsCurated now (delete_query id) m a k =
    deleted_memory-IsCurated m (delete_first id m.saved) k (delete_first-Deleted id m.saved k)
memory_step-IsCurated now (list_queries f) m a k = k
memory_step-IsCurated now (add_execution e) m a k = k
memory_step-IsCurated now (list_executions f) m a k = k
