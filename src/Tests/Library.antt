-- ===== src/Tests/Library.antt =====
-- internal/server/sql_query_library.go at concrete inputs.
use neon_selfhost.Prelude.{
  ℕ, ◌≡◌, refl, codes, map, true, false, none, some, List, [], ◌∷◌, ok, err, arith,
}
use neon_selfhost.Prelude.Int.{pos}
use neon_selfhost.Prelude.Trim.{trim_space}
use neon_selfhost.Branch.Store.{new_store}
use neon_selfhost.Sql.Validate.{utf8}
use neon_selfhost.Library.{SavedQuery, LoggedRun, LibraryFilter, query_not_found}
use neon_selfhost.Library.Memory.{new_memory}
use neon_selfhost.Library.Table.{DriverAnswers, commit_lost, new_tables}
use neon_selfhost.Library.Requests.{
  StoreRequest, create_query, update_query, delete_query, list_queries, add_execution,
  list_executions, memory_step, table_step, all_well, answers, state_after, LibraryEvent, called,
  opened_with, tables_after, deleted, one_query,
}
use neon_selfhost.Library.Checks.{ListParameters}
use neon_selfhost.Library.Handlers.{
  SqlLibrary, Caller, LibraryCall, memory_store, table_store, post, patch, remove, ran, handle_list,
  handle_history, library_after,
}
use neon_selfhost.Library.Same.{stores_agree, tables_of}
use neon_selfhost.Library.Kept.{IsKept, tables_after-IsKept}
use neon_selfhost.Library.Paged.{RepliesPaged, lists_within_limits}
use neon_selfhost.Library.Calls.{library_after-IsCurated}
use neon_selfhost.Library.Curated.{IsCurated, saved_in}

abbrev count_users : SavedQuery
count_users = record {
  id = 0;
  name = codes "users";
  sql = codes "select count(*) from users";
  branch = codes "main";
  database = codes "postgres";
  created_at = 0;
  updated_at = 0;
}

abbrev a_run : LoggedRun
a_run = record {
  id = 0;
  title = codes "users";
  sql = codes "select 1";
  branch = codes "main";
  database = codes "postgres";
  read_only = true;
  status = codes "succeeded";
  command_tag = codes "SELECT 1";
  duration_ms = pos 3;
  error_code = [];
  executed_at = 0;
}

abbrev everything : LibraryFilter
everything = record { branch = []; database = []; limit = pos 100; offset = pos 0 }

-- Two queries are saved, the first is renamed, the second deleted twice; two runs with a limit of one.
abbrev busy : List (ℕ × StoreRequest)
busy =
    (1, create_query count_users)
    ∷ (2, create_query count_users)
    ∷ (3, update_query 1 (some (codes "all users")) none)
    ∷ (4, delete_query 2)
    ∷ (5, delete_query 2)
    ∷ (6, add_execution a_run)
    ∷ (7, add_execution a_run)
    ∷ (8, list_queries everything)
    ∷ (9, list_executions everything)
    ∷ []

deleted_twice :
    answers memory_step
      ((1, create_query count_users) ∷ (2, delete_query 1) ∷ (3, delete_query 1) ∷ [])
      (new_memory (pos 1))
    ≡ one_query (ok (record count_users { id = 1; created_at = 1; updated_at = 1 }))
      ∷ deleted (ok tt)
      ∷ deleted (err query_not_found)
      ∷ []
unfolding answers memory_step new_memory
deleted_twice = refl

stores_agree_example :
    (answers (table_step all_well) busy (new_tables (pos 1))
      ≡ answers memory_step busy (new_memory (pos 1)))
    × (state_after (table_step all_well) busy (new_tables (pos 1))
        ≡ tables_of (state_after memory_step busy (new_memory (pos 1))))
stores_agree_example = stores_agree (pos 1) busy

-- a commit that is made but answered with an error
abbrev unlucky : DriverAnswers
unlucky = record all_well { commit = commit_lost }

abbrev restarts : List LibraryEvent
restarts =
    called all_well 1 (add_execution a_run)
    ∷ called unlucky 2 (add_execution a_run)
    ∷ opened_with (pos 1)
    ∷ called all_well 3 (add_execution a_run)
    ∷ []

tables_after-IsKept_example : IsKept (tables_after restarts (new_tables (pos 2)))
tables_after-IsKept_example =
    tables_after-IsKept restarts (new_tables (pos 2))
      (unfold new_tables in (((tt, tt), (tt, tt)), omega arith))

abbrev visitor : Caller
visitor = record { now = 5; driver = all_well; is_gone = false }

abbrev first_ten : ListParameters
first_ten = record {
  branch = codes " main ";
  database = utf8 (codes "postgres");
  limit = codes "10";
  offset = [];
}

abbrev filled : SqlLibrary
filled = record {
  store = table_store (state_after (table_step all_well) busy (new_tables (pos 1)));
  bad = false;
}

lists_within_limits_example :
    RepliesPaged filled.store (handle_list visitor first_ten filled)
    × RepliesPaged filled.store (handle_history visitor first_ten filled)
lists_within_limits_example = lists_within_limits visitor first_ten filled

abbrev empty_library : SqlLibrary
empty_library = record { store = memory_store (new_memory (pos 200)); bad = false }

-- A blank name is refused, a query is saved for a trimmed branch and given a new text.
abbrev clients : List (Caller × LibraryCall)
clients =
    (
      visitor,
      post (new_store 5) (record {
        name = codes " ";
        sql = codes "select 1";
        branch = codes "main";
        database = codes "postgres";
      }),
    )
    ∷ (
      visitor,
      post (new_store 5) (record {
        name = codes "one";
        sql = codes "select 1";
        branch = codes " main";
        database = codes "postgres";
      }),
    )
    ∷ (visitor, patch (codes "1") none (some (codes "select 2")))
    ∷ (visitor, ran a_run)
    ∷ (visitor, remove (codes "7"))
    ∷ []

saved_texts :
    map (λ q. q.sql) (saved_in (library_after clients empty_library).store) ≡ codes "select 2" ∷ []
unfolding library_after new_memory new_store trim_space
saved_texts = refl

library_after-IsCurated_example : IsCurated (library_after clients empty_library).store
library_after-IsCurated_example =
    library_after-IsCurated clients empty_library (unfold new_memory in tt)
