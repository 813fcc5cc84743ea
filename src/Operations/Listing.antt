-- ===== src/Operations/Listing.antt =====
-- internal/server/operations.go, `ListFiltered` and the `Query` of the SQLite store.
use neon_selfhost.Prelude.{
  ℕ, zero, suc, ◌-◌, ◌≡◌, refl, ap, ◌∙◌, Text, text_eq, Bool, true, Option, none, some, List, [],
  ◌∷◌, arith, length, take, drop, leb, if◌then◌else◌, is_empty, ◌&&◌,
}
use mathlib.Core.List.{reverse, reverse-reverse, map}
use neon_selfhost.Prelude.Reverse.{take-reverse, map-reverse, map-take}
use neon_selfhost.Prelude.Int.{ℤ, pos, negsuc}
use neon_selfhost.Operations.Types.{Entry, Status, status_eq, default_operation_log_limit}
use neon_selfhost.Operations.Table.{Row, OpStore, noop, unavailable, sqlite, row_of, entries_of}
use neon_selfhost.Operations.Manager.{Manager}

-- `operationQueryFilter`; `none` and the empty text stand for no condition
pub record Filter : Type 0 where
  pub limit : ℤ
  pub offset : ℤ
  pub status : Option Status
  pub kind : Text

abbrev pub status_passes : Option Status → Status → Bool
status_passes none s = true
status_passes (some t) s = status_eq s t

abbrev pub kind_passes : Text → Text → Bool
kind_passes f k = if is_empty f then true else text_eq k f

abbrev pub limit_of : ℤ → ℕ
limit_of (pos zero) = default_operation_log_limit
limit_of (pos (suc n)) = suc n
limit_of (negsuc n) = default_operation_log_limit

abbrev pub offset_of : ℤ → ℕ
offset_of (pos n) = n
offset_of (negsuc n) = 0

unfoldable pub matches : Filter → Entry → Bool
unfolding status_eq text_eq
matches f e = status_passes f.status e.status && kind_passes f.kind e.kind

-- the loop over the entries in memory
unfoldable pub select : Filter → List Entry → List Entry
unfolding matches
select f [] = []
select f (e ∷ es) = if matches f e then e ∷ select f es else select f es

-- the page of the list in memory: it counts from the oldest entry
unfoldable pub list_memory : Filter → List Entry → List Entry
unfolding select
list_memory f es =
    let found = select f es in
    let offset = offset_of f.offset in
    if leb (length found) offset then [] else take (limit_of f.limit) (drop offset found)

-- `WHERE status = ? AND type = ?`
unfoldable pub select_rows : Filter → List Row → List Row
unfolding status_eq text_eq
select_rows f [] = []
select_rows f (r ∷ rows) =
    if status_passes f.status r.status && kind_passes f.kind r.kind
    then r ∷ select_rows f rows
    else select_rows f rows

-- `ORDER BY id DESC LIMIT ? OFFSET ?`, the loop over the rows, and the reversal of the page
unfoldable pub query : Filter → List Row → List Entry
unfolding select_rows entries_of
query f rows =
    let newest_first = reverse (select_rows f rows) in
    reverse (entries_of (take (limit_of f.limit) (drop (offset_of f.offset) newest_first)))

abbrev pub listed : Filter → Bool → Manager → OpStore → Manager × List Entry
listed f answer m noop = (m, list_memory f m.entries)
listed f answer m unavailable = (m, list_memory f m.entries)
listed f answer m (sqlite rows) =
    if answer then (m, query f rows) else (record m { degraded = true }, list_memory f m.entries)

-- `ListFiltered`; `answer` says whether the query succeeds
unfoldable pub list_filtered : Filter → Bool → Manager → Manager × List Entry
unfolding list_memory query
list_filtered f answer m = listed f answer m m.store

entries_of-map : (es : List Entry) → entries_of (map row_of es) ≡ es
unfolding entries_of row_of
entries_of-map [] = refl
entries_of-map (e ∷ es) = ap (◌∷◌ e) (entries_of-map es)

select_rows-map :
    (f : Filter) (es : List Entry) → select_rows f (map row_of es) ≡ map row_of (select f es)
unfolding select_rows row_of select
select_rows-map f [] = refl
select_rows-map f (e ∷ es) = ground (arith, select_rows-map f es)

whole_page : (n : ℕ) (es : List Entry) → (if leb (length es) 0 then [] else take n es) ≡ take n es
whole_page zero [] = refl
whole_page (suc n) [] = refl
whole_page n (e ∷ es) = ground arith

abbrev pub plain : ℤ → Option Status → Text → Filter
plain limit status kind = record { limit = limit; offset = pos 0; status = status; kind = kind }

-- On a table that holds the log, the first page of the query is the newest matching entries, in
-- the order of the log; the first page of the list in memory, to which a failed query falls
-- back, is the oldest ones.
pub first_page :
    (limit : ℤ) (status : Option Status) (kind : Text) (es : List Entry)
    → let f = plain limit status kind in
      let found = select f es in
      (query f (map row_of es) ≡ drop (length found - limit_of limit) found)
      × (list_memory f es ≡ take (limit_of limit) found)
unfolding query list_memory
first_page limit status kind es =
    let f = plain limit status kind in
    let found = select f es in
    let n = limit_of limit in
    (
      rw
          (
            select_rows-map f es,
            map-reverse row_of found,
            map-take row_of n (reverse found),
            entries_of-map,
          )
          (ap reverse (take-reverse n found) ∙ reverse-reverse (drop (length found - n) found)),
      whole_page n found,
    )
