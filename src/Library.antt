-- ===== src/Library.antt =====
-- internal/server/sql_query_library.go: the SQL texts that users keep and the history of what ran.
pub mod Memory
pub mod Table
pub mod Requests
pub mod Ordered
pub mod Rows
pub mod Prune
pub mod Same
pub mod Kept
pub mod Checks
pub mod Handlers
pub mod Paged
pub mod Savable
pub mod Curated
pub mod Calls
-- A `time.Time` in UTC is a number, where 0 is the zero time.
use neon_selfhost.Prelude.{
  ℕ, zero, suc, Text, text_eq, Bool, true, false, Option, none, some, List, [], ◌∷◌, ◌&&◌, not,
  is_empty, if◌then◌else◌,
}
use neon_selfhost.Prelude.Int.{ℤ, pos, negsuc}

-- `savedSQLQuery`
pub record SavedQuery : Type 0 where
  pub id : ℕ
  pub name : Text
  pub sql : Text
  pub branch : Text
  pub database : Text
  pub created_at : ℕ
  pub updated_at : ℕ

-- `sqlExecutionHistory`
pub record LoggedRun : Type 0 where
  pub id : ℕ
  pub title : Text
  pub sql : Text
  pub branch : Text
  pub database : Text
  pub read_only : Bool
  pub status : Text
  pub command_tag : Text
  pub duration_ms : ℤ
  pub error_code : Text
  pub executed_at : ℕ

-- `sqlQueryLibraryFilter`; an empty text stands for no condition
pub record LibraryFilter : Type 0 where
  pub branch : Text
  pub database : Text
  pub limit : ℤ
  pub offset : ℤ

-- `errSQLSavedQueryNotFound`, and an error of the database
pub data LibraryError : Type 0 where
  query_not_found store_failed : LibraryError

abbrev pub text_passes : Text → Text → Bool
text_passes wanted t = if is_empty wanted then true else text_eq t wanted

unfoldable pub in_scope : LibraryFilter → Text → Text → Bool
unfolding text_eq
in_scope f b d = text_passes f.branch b && text_passes f.database d

abbrev pub page_limit : ℤ → ℕ
page_limit (pos zero) = 100
page_limit (pos (suc n)) = suc n
page_limit (negsuc n) = 100

abbrev pub page_offset : ℤ → ℕ
page_offset (pos n) = n
page_offset (negsuc n) = 0

-- a field that an update changes
abbrev pub changed : Option Text → Text → Text
changed none t = t
changed (some u) t = u

abbrev pub run_time : ℕ → ℕ → ℕ
run_time now zero = now
run_time now (suc t) = suc t
