-- ===== src/Library/Paged.antt =====
-- internal/server/sql_query_library.go: the lists that the routes reply with.
use neon_selfhost.Prelude.{
  ℕ, zero, suc, ◌≤◌, ◌≡◌, refl, Text, Option, none, some, List, length, length-take, take, drop,
  Result, ok, err, if_split, arith, is_empty, ◌>>=◌,
}
use neon_selfhost.Prelude.Int.{ℤ, pos, negsuc}
use neon_selfhost.Prelude.Trim.{trim_space}
use neon_selfhost.Config.Parse.{atoi}
use neon_selfhost.Library.{LibraryFilter, page_limit, page_offset, store_failed, query_not_found}
use neon_selfhost.Library.Memory.{page, list_saved, list_history}
use neon_selfhost.Library.Table.{
  select_page, normalize_filter, table_list_saved, table_list_history,
}
use neon_selfhost.Library.Requests.{
  StoreRequest, StoreAnswer, list_queries, list_executions, queries, executions, memory_step,
  table_step, one_query, one_execution, deleted,
}
use neon_selfhost.Library.Checks.{
  CheckError, ListParameters, or_bad_limit, limit_parameter, parse_filter, offset_parameter,
  database_parameter,
}
use neon_selfhost.Library.Handlers.{
  LibraryStore, memory_store, table_store, no_store, SqlLibrary, Caller, store_step, library_step,
  Reply, query_list, execution_list, query_updated, checked_list, reply_of, handle_list,
  handle_history,
}
use neon_selfhost.Library.Ordered.{page_lem}

abbrev KeepsLimit : Result CheckError ℤ → Type 0
KeepsLimit (ok n) = page_limit n ≤ 1000
KeepsLimit (err e) = Unit

or_bad_limit-KeepsLimit : (o : Option ℤ) → KeepsLimit (or_bad_limit o)
or_bad_limit-KeepsLimit none = tt
or_bad_limit-KeepsLimit (some (pos zero)) = ground arith
or_bad_limit-KeepsLimit (some (pos (suc n))) = ground arith
or_bad_limit-KeepsLimit (some (negsuc n)) = ground arith

limit_parameter-KeepsLimit : (raw : Text) → KeepsLimit (limit_parameter raw)
unfolding limit_parameter
limit_parameter-KeepsLimit raw =
    if_split KeepsLimit (is_empty (trim_space raw)) _ _ (λ _. omega arith)
      (λ _. or_bad_limit-KeepsLimit (atoi (trim_space raw)))

abbrev IsPaged : Result CheckError LibraryFilter → Type 0
IsPaged (ok f) = page_limit f.limit ≤ 1000
IsPaged (err e) = Unit

module _ (branch database : Text) where
  and_offset :
      (limit : ℤ) (o : Result CheckError ℤ)
      → page_limit limit ≤ 1000
      → IsPaged (
          o >>= λ offset.
          ok (record { branch = branch; database = database; limit = limit; offset = offset }))
  and_offset limit (ok n) h = h
  and_offset limit (err e) h = tt

  and_limit :
      (l o : Result CheckError ℤ)
      → KeepsLimit l
      → IsPaged (
          l >>= λ limit. o >>= λ offset.
          ok (record { branch = branch; database = database; limit = limit; offset = offset }))
  and_limit (ok n) o h = and_offset n o h
  and_limit (err e) o h = tt

and_database :
    (branch : Text) (d : Result CheckError Text) (l o : Result CheckError ℤ)
    → KeepsLimit l
    → IsPaged (
        d >>= λ database. l >>= λ limit. o >>= λ offset.
        ok (record { branch = branch; database = database; limit = limit; offset = offset }))
and_database branch (ok d) l o h = and_limit branch d l o h
and_database branch (err e) l o h = tt

parse_filter-IsPaged : (p : ListParameters) → IsPaged (parse_filter p)
unfolding parse_filter
parse_filter-IsPaged p =
    and_database (trim_space p.branch) (database_parameter p.database) (limit_parameter p.limit)
      (offset_parameter p.offset) (limit_parameter-KeepsLimit p.limit)

module _ {A : Type 0} where
  take_at_most : (n : ℕ) (xs : List A) → length (take n xs) ≤ n
  take_at_most n xs = omega (arith, length-take n xs)

  length-page : (xs : List A) (f : LibraryFilter) → length (page xs f) ≤ page_limit f.limit
  length-page xs f =
      rw (page_lem f xs) (take_at_most (page_limit f.limit) (drop (page_offset f.offset) xs))

-- an answer or a reply with at most `n` entries
abbrev AnswersAtMost : ℕ → StoreAnswer → Type 0
AnswersAtMost n (queries (ok qs)) = length qs ≤ n
AnswersAtMost n (executions (ok es)) = length es ≤ n
AnswersAtMost n a = Unit

abbrev pub RepliesAtMost : ℕ → Reply → Type 0
RepliesAtMost n (query_list qs) = length qs ≤ n
RepliesAtMost n (execution_list es) = length es ≤ n
RepliesAtMost n r = Unit

-- what a list of the store answers, and that the store is as it was
abbrev Listed : LibraryFilter → LibraryStore → LibraryStore × StoreAnswer → Type 0
Listed f s out = AnswersAtMost (page_limit f.limit) out.1 × (out.0 ≡ s)

list-Listed :
    (c : Caller) (f : LibraryFilter) (s : LibraryStore)
    → Listed f s (store_step c (list_queries f) s)
unfolding store_step memory_step table_step list_saved table_list_saved select_page normalize_filter
list-Listed c f (memory_store m) = (length-page _ f, refl)
list-Listed c f (table_store t) = (
  if_split (λ x. AnswersAtMost (page_limit f.limit) (queries x)) c.driver.read _ _
      (λ _. take_at_most (page_limit f.limit) _) (λ _. tt),
  refl,
)
list-Listed c f no_store = (tt, refl)

history-Listed :
    (c : Caller) (f : LibraryFilter) (s : LibraryStore)
    → Listed f s (store_step c (list_executions f) s)
unfolding store_step memory_step table_step list_history table_list_history select_page
    normalize_filter
history-Listed c f (memory_store m) = (length-page _ f, refl)
history-Listed c f (table_store t) = (
  if_split (λ x. AnswersAtMost (page_limit f.limit) (executions x)) c.driver.read _ _
      (λ _. take_at_most (page_limit f.limit) _) (λ _. tt),
  refl,
)
history-Listed c f no_store = (tt, refl)

abbrev pub RepliesPaged : LibraryStore → SqlLibrary × Reply → Type 0
RepliesPaged s out = RepliesAtMost 1000 out.1 × (out.0.store ≡ s)

module _ (c : Caller) (l : SqlLibrary) (f : LibraryFilter) (h : page_limit f.limit ≤ 1000) where
  answer-AtMost :
      (a : StoreAnswer)
      → AnswersAtMost (page_limit f.limit) a
      → RepliesAtMost 1000 (reply_of query_updated a)
  answer-AtMost (one_query (ok q)) g = tt
  answer-AtMost (one_query (err query_not_found)) g = tt
  answer-AtMost (one_query (err store_failed)) g = tt
  answer-AtMost (deleted (ok x)) g = tt
  answer-AtMost (deleted (err query_not_found)) g = tt
  answer-AtMost (deleted (err store_failed)) g = tt
  answer-AtMost (queries (ok qs)) g = omega (arith, g, h)
  answer-AtMost (queries (err query_not_found)) g = tt
  answer-AtMost (queries (err store_failed)) g = tt
  answer-AtMost (one_execution (ok e)) g = tt
  answer-AtMost (one_execution (err query_not_found)) g = tt
  answer-AtMost (one_execution (err store_failed)) g = tt
  answer-AtMost (executions (ok es)) g = omega (arith, g, h)
  answer-AtMost (executions (err query_not_found)) g = tt
  answer-AtMost (executions (err store_failed)) g = tt

checked_list-Paged :
    (c : Caller) (request : LibraryFilter → StoreRequest) (l : SqlLibrary)
    (listed : (f : LibraryFilter) → Listed f l.store (store_step c (request f) l.store))
    (r : Result CheckError LibraryFilter)
    → IsPaged r
    → RepliesPaged l.store (checked_list c request l r)
unfolding library_step
checked_list-Paged c request l listed (err e) h = (tt, refl)
checked_list-Paged c request l listed (ok f) h =
    let g = listed f in (answer-AtMost c l f h (store_step c (request f) l.store).1 g.0, g.1)

-- A route that lists replies with at most 1000 entries, whatever the parameters, the store and
-- the driver are, and leaves the store as it was.
pub lists_within_limits :
    (c : Caller) (p : ListParameters) (l : SqlLibrary)
    → RepliesPaged l.store (handle_list c p l) × RepliesPaged l.store (handle_history c p l)
unfolding handle_list handle_history
lists_within_limits c p l = (
  checked_list-Paged c list_queries l (λ f. list-Listed c f l.store) (parse_filter p)
      (parse_filter-IsPaged p),
  checked_list-Paged c list_executions l (λ f. history-Listed c f l.store) (parse_filter p)
      (parse_filter-IsPaged p),
)
