-- ===== src/Library/Same.antt =====
-- internal/server/sql_query_library.go: the SQLite store as an implementation of the store in memory.
use neon_selfhost.Prelude.{
  ℕ, suc, ◌-◌, ◌≤◌, ◌≡◌, refl, ap, sym, Text, Bool-cases, inl, inr, if_split, Option, List, [], ◌∷◌,
  ◌++◌, length, ltb, All-append, ok, arith,
}
use neon_selfhost.Prelude.Int.{ℤ}
use neon_selfhost.Library.{LoggedRun, run_time}
use neon_selfhost.Library.Memory.{
  Memory, new_memory, create_saved, update_saved, delete_saved, list_saved, add_history,
  list_history, retained, saved_id, saved_branch, saved_database, run_id, run_branch, run_database,
}
use neon_selfhost.Library.Table.{
  Tables, new_tables, no_row, get_saved, table_create_saved, table_update_saved, table_delete_saved,
  table_list_saved, table_add_history, table_list_history,
}
use neon_selfhost.Library.Requests.{
  StoreRequest, StoreAnswer, create_query, update_query, delete_query, list_queries, add_execution,
  list_executions, queries, executions, memory_step, table_step, all_well, answers, state_after,
}
use neon_selfhost.Library.Ordered.{
  IsAscending, AtMost, AtMost-mono, AtMost-drop, drop-IsAscending, append-IsAscending,
  page-select_page,
}
use neon_selfhost.Library.Rows.{
  update_first-none, update_first-some, update_rows-none, update_rows-IsAscending,
  AtMost-update_rows, delete_first-none, delete_first-some, delete_rows-none,
  delete_rows-IsAscending, AtMost-delete_rows,
}
use neon_selfhost.Library.Prune.{prune_history-retained}

-- the tables that hold what the memory holds
abbrev pub tables_of : Memory → Tables
tables_of m = record {
  retention = m.retention;
  last_saved = m.next_saved;
  last_history = m.next_history;
  saved_rows = m.saved;
  history_rows = m.history;
}

abbrev pub IsOrdered : Memory → Type 0
IsOrdered m =
    (IsAscending saved_id m.saved × AtMost saved_id m.next_saved m.saved)
    × (IsAscending run_id m.history × AtMost run_id m.next_history m.history)

-- an answer of the memory and that of the tables, which still hold the same
abbrev Agree : Memory × StoreAnswer → Tables × StoreAnswer → Type 0
Agree a b = (b ≡ (tables_of a.0, a.1)) × IsOrdered a.0

update-Agree :
    (now id : ℕ) (name sql : Option Text) (m : Memory)
    → IsOrdered m
    → Agree
        (memory_step now (update_query id name sql) m)
        (table_step all_well now (update_query id name sql) (tables_of m))
unfolding memory_step table_step update_saved table_update_saved get_saved
update-Agree now id name sql m o = elim (Bool-cases (no_row id m.saved)) [
  | inl gone ↦
      let same = update_rows-none now id name sql m.saved gone in
      let none_found = update_first-none now id name sql m.saved gone in
      rw (same, none_found, gone) (refl, o)
  | inr there ↦
      let (next, found, read, _) = update_first-some now id name sql m.saved o.0.0 there in
      rw (found, read, there)
        (
          refl,
          (
            (
              update_rows-IsAscending now id name sql m.saved o.0.0,
              AtMost-update_rows m.next_saved now id name sql m.saved o.0.1,
            ),
            o.1,
          ),
        )
]

delete-Agree :
    (now id : ℕ) (m : Memory)
    → IsOrdered m
    → Agree
        (memory_step now (delete_query id) m)
        (table_step all_well now (delete_query id) (tables_of m))
unfolding memory_step table_step delete_saved table_delete_saved
delete-Agree now id m o = elim (Bool-cases (no_row id m.saved)) [
  | inl gone ↦
      rw (delete_rows-none id m.saved gone, delete_first-none id m.saved gone, gone) (refl, o)
  | inr there ↦
      rw (delete_first-some id m.saved o.0.0 there, there)
        (
          refl,
          (
            (
              delete_rows-IsAscending id m.saved o.0.0,
              AtMost-delete_rows m.next_saved id m.saved o.0.1,
            ),
            o.1,
          ),
        )
]

pub retained-Ordered :
    (limit n : ℕ) (es : List LoggedRun)
    → IsAscending run_id es × AtMost run_id n es
    → IsAscending run_id (retained limit es) × AtMost run_id n (retained limit es)
unfolding retained
retained-Ordered limit n es o =
    if_split (λ xs. IsAscending run_id xs × AtMost run_id n xs) (ltb limit (length es)) _ _
      (λ _. (
        drop-IsAscending run_id (length es - limit) es o.0,
        AtMost-drop run_id n (length es - limit) es o.1,
      ))
      (λ _. o)

-- a new entry at the end, with the next id
pub appended :
    {A : Type 0} (id_of : A → ℕ) (n : ℕ) (xs : List A) (x : A)
    → id_of x ≡ suc n
    → IsAscending id_of xs × AtMost id_of n xs
    → IsAscending id_of (xs ++ x ∷ []) × AtMost id_of (suc n) (xs ++ x ∷ [])
appended id_of n xs x e (s, a) = (
  append-IsAscending id_of n xs x (omega (arith, e)) a s,
  All-append (λ y. id_of y ≤ suc n) xs (x ∷ []) (AtMost-mono id_of n (suc n) xs (omega arith) a)
      (omega (arith, e), tt),
)

step-Agree :
    (now : ℕ) (r : StoreRequest) (m : Memory)
    → IsOrdered m
    → Agree (memory_step now r m) (table_step all_well now r (tables_of m))
unfolding memory_step table_step create_saved table_create_saved add_history table_add_history
    table_list_saved list_saved table_list_history list_history
step-Agree now (create_query q) m o =
    (refl, (appended saved_id m.next_saved m.saved _ refl o.0, o.1))
step-Agree now (update_query id name sql) m o = update-Agree now id name sql m o
step-Agree now (delete_query id) m o = delete-Agree now id m o
step-Agree now (list_queries f) m o = (
  ap (λ qs. (tables_of m, queries (ok qs)))
      (sym (page-select_page saved_id saved_branch saved_database f m.saved o.0.0)),
  o,
)
step-Agree now (add_execution e) m o =
    let made = record e { id = suc m.next_history; executed_at = run_time now e.executed_at } in
    let longer = appended run_id m.next_history m.history made refl o.1 in
    (
      rw (prune_history-retained m.retention (m.history ++ made ∷ []) longer.0) refl,
      (o.0, retained-Ordered m.retention (suc m.next_history) (m.history ++ made ∷ []) longer),
    )
step-Agree now (list_executions f) m o = (
  ap (λ es. (tables_of m, executions (ok es)))
      (sym (page-select_page run_id run_branch run_database f m.history o.1.0)),
  o,
)

run-Agree :
    (rs : List (ℕ × StoreRequest)) (m : Memory)
    → IsOrdered m
    → (answers (table_step all_well) rs (tables_of m) ≡ answers memory_step rs m)
      × (state_after (table_step all_well) rs (tables_of m)
          ≡ tables_of (state_after memory_step rs m))
unfolding answers state_after
run-Agree [] m o = (refl, refl)
run-Agree ((now, r) ∷ rs) m o =
    let (same, next) = step-Agree now r m o in
    let rest = run-Agree rs (memory_step now r m).0 next in
    rw same (ap (◌∷◌ (memory_step now r m).1) rest.0, rest.1)

-- On calls of the driver that all succeed, the SQLite store that starts with empty tables
-- answers every sequence of requests as the store in memory does, and its tables then hold what
-- the memory holds.
pub stores_agree :
    (limit : ℤ) (rs : List (ℕ × StoreRequest))
    → (answers (table_step all_well) rs (new_tables limit)
        ≡ answers memory_step rs (new_memory limit))
      × (state_after (table_step all_well) rs (new_tables limit)
          ≡ tables_of (state_after memory_step rs (new_memory limit)))
unfolding new_tables new_memory
stores_agree limit rs = run-Agree rs (new_memory limit) ((tt, tt), (tt, tt))
