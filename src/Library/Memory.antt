-- ===== src/Library/Memory.antt =====
-- internal/server/sql_query_library.go: `memorySQLQueryLibraryStore`. The entries go from the
-- oldest to the newest. A limit that a request asks for is at most 1000 and an offset is cut to the
-- length, so that their sum does not overflow.
use neon_selfhost.Prelude.{
  ℕ, zero, suc, ◌+◌, ◌-◌, Text, Option, none, some, List, [], ◌∷◌, ◌++◌, Result, ok, err, length,
  take, drop, ltb, ◌==◌, if◌then◌else◌,
}
use neon_selfhost.Prelude.Int.{ℤ, pos, negsuc}
use neon_selfhost.Library.{
  SavedQuery, LoggedRun, LibraryFilter, LibraryError, query_not_found, in_scope, page_limit,
  page_offset, changed, run_time,
}

pub record Memory : Type 0 where
  pub retention : ℕ
  pub next_saved : ℕ
  pub next_history : ℕ
  pub saved : List SavedQuery
  pub history : List LoggedRun

-- `sqlLibraryPageBounds`
abbrev pub at_least : ℕ → ℕ → ℕ
at_least most n = if ltb most n then most else n

unfoldable pub page_bounds : ℕ → LibraryFilter → ℕ × ℕ
page_bounds len f =
    let start = at_least len (page_offset f.offset) in
    (start, at_least len (start + page_limit f.limit))

module _ {A : Type 0} where
  unfoldable pub page : List A → LibraryFilter → List A
  unfolding page_bounds
  page xs f =
      let bounds = page_bounds (length xs) f in take (bounds.1 - bounds.0) (drop bounds.0 xs)

  module _ (branch_of database_of : A → Text) where
    unfoldable pub filtered : LibraryFilter → List A → List A
    unfolding in_scope
    filtered f [] = []
    filtered f (x ∷ xs) =
        let rest = filtered f xs in
        if in_scope f (branch_of x) (database_of x) then x ∷ rest else rest

  -- `sort.Slice` by the ids, the highest first
  module _ (id_of : A → ℕ) where
    unfoldable pub insert_newer : A → List A → List A
    insert_newer x [] = x ∷ []
    insert_newer x (y ∷ ys) =
        let rest = insert_newer x ys in if ltb (id_of x) (id_of y) then y ∷ rest else x ∷ y ∷ ys

    unfoldable pub newest_first : List A → List A
    unfolding insert_newer
    newest_first [] = []
    newest_first (x ∷ xs) = insert_newer x (newest_first xs)

abbrev pub retention_of : ℤ → ℕ
retention_of (pos zero) = 200
retention_of (pos (suc n)) = suc n
retention_of (negsuc n) = 200

unfoldable pub new_memory : ℤ → Memory
new_memory limit = record {
  retention = retention_of limit;
  next_saved = 0;
  next_history = 0;
  saved = [];
  history = [];
}

unfoldable pub create_saved : ℕ → SavedQuery → Memory → Memory × SavedQuery
create_saved now q m =
    let n = suc m.next_saved in
    let made = record q { id = n; created_at = now; updated_at = now } in
    (record m { next_saved = n; saved = m.saved ++ made ∷ [] }, made)

abbrev pub updated_query : ℕ → Option Text → Option Text → SavedQuery → SavedQuery
updated_query now name sql q = record q {
  name = changed name q.name;
  sql = changed sql q.sql;
  updated_at = now;
}

abbrev pub kept_before :
    SavedQuery → Option (List SavedQuery × SavedQuery) → Option (List SavedQuery × SavedQuery)
kept_before q none = none
kept_before q (some (qs, found)) = some (q ∷ qs, found)

unfoldable pub update_first :
    ℕ → ℕ → Option Text → Option Text → List SavedQuery → Option (List SavedQuery × SavedQuery)
update_first now id name sql [] = none
update_first now id name sql (q ∷ qs) =
    let rest = update_first now id name sql qs in
    let next = updated_query now name sql q in
    if q.id == id then some (next ∷ qs, next) else kept_before q rest

abbrev pub updated_memory :
    Memory → Option (List SavedQuery × SavedQuery) → Memory × Result LibraryError SavedQuery
updated_memory m none = (m, err query_not_found)
updated_memory m (some (qs, q)) = (record m { saved = qs }, ok q)

unfoldable pub update_saved :
    ℕ → ℕ → Option Text → Option Text → Memory → Memory × Result LibraryError SavedQuery
unfolding update_first
update_saved now id name sql m = updated_memory m (update_first now id name sql m.saved)

abbrev pub kept_query : SavedQuery → Option (List SavedQuery) → Option (List SavedQuery)
kept_query q none = none
kept_query q (some qs) = some (q ∷ qs)

unfoldable pub delete_first : ℕ → List SavedQuery → Option (List SavedQuery)
delete_first id [] = none
delete_first id (q ∷ qs) =
    let rest = delete_first id qs in if q.id == id then some qs else kept_query q rest

abbrev pub deleted_memory : Memory → Option (List SavedQuery) → Memory × Result LibraryError Unit
deleted_memory m none = (m, err query_not_found)
deleted_memory m (some qs) = (record m { saved = qs }, ok tt)

unfoldable pub delete_saved : ℕ → Memory → Memory × Result LibraryError Unit
unfolding delete_first
delete_saved id m = deleted_memory m (delete_first id m.saved)

abbrev pub saved_id : SavedQuery → ℕ
saved_id q = q.id

abbrev pub saved_branch : SavedQuery → Text
saved_branch q = q.branch

abbrev pub saved_database : SavedQuery → Text
saved_database q = q.database

abbrev pub run_id : LoggedRun → ℕ
run_id e = e.id

abbrev pub run_branch : LoggedRun → Text
run_branch e = e.branch

abbrev pub run_database : LoggedRun → Text
run_database e = e.database

unfoldable pub list_saved : LibraryFilter → Memory → List SavedQuery
unfolding page newest_first filtered
list_saved f m = page (newest_first saved_id (filtered saved_branch saved_database f m.saved)) f

unfoldable pub retained : ℕ → List LoggedRun → List LoggedRun
retained limit es = if ltb limit (length es) then drop (length es - limit) es else es

unfoldable pub add_history : ℕ → LoggedRun → Memory → Memory × LoggedRun
unfolding retained
add_history now e m =
    let n = suc m.next_history in
    let made = record e { id = n; executed_at = run_time now e.executed_at } in
    (record m { next_history = n; history = retained m.retention (m.history ++ made ∷ []) }, made)

unfoldable pub list_history : LibraryFilter → Memory → List LoggedRun
unfolding page newest_first filtered
list_history f m = page (newest_first run_id (filtered run_branch run_database f m.history)) f
