-- ===== src/Library/Checks.antt =====
-- internal/server/sql_query_library.go: what a request may hold. JSON texts are valid UTF-8; the
-- database of a list of parameters may be bytes that are not.
use neon_selfhost.Prelude.{
  ℕ, zero, suc, Text, ◌||◌, Option, none, some, [], Result, ok, err, ◌>>=◌, ltb, is_empty,
  if◌then◌else◌,
}
use neon_selfhost.Prelude.Int.{ℤ, pos, negsuc, ltbℤ}
use neon_selfhost.Prelude.Trim.{trim_space}
use neon_selfhost.Config.Parse.{atoi}
use neon_selfhost.Sql.Validate.{
  max_query_bytes, byte_length, DatabaseName, utf8, invalid, NameError, validate_sql_database_name,
}
use neon_selfhost.Library.{SavedQuery, LibraryFilter}

pub data CheckError : Type 0 where
  name_required : CheckError
  sql_required : CheckError
  sql_too_long : CheckError
  branch_required : CheckError
  database_required : CheckError
  bad_database : NameError → CheckError
  nothing_to_update : CheckError
  bad_limit : CheckError
  bad_offset : CheckError
  bad_id : CheckError

-- `createSavedSQLQueryRequest`
pub record CreateRequest : Type 0 where
  pub name : Text
  pub sql : Text
  pub branch : Text
  pub database : Text

abbrev pub new_query : Text → Text → Text → Text → SavedQuery
new_query name sql branch database = record {
  id = 0;
  name = name;
  sql = sql;
  branch = branch;
  database = database;
  created_at = 0;
  updated_at = 0;
}

abbrev pub or_bad_database : {A : Type 0} → A → Option NameError → Result CheckError A
or_bad_database a none = ok a
or_bad_database a (some e) = err (bad_database e)

-- `normalizeSavedSQLQuery`
unfoldable pub normalize_saved_query : CreateRequest → Result CheckError SavedQuery
unfolding trim_space byte_length validate_sql_database_name
normalize_saved_query r =
    let name = trim_space r.name in
    let branch = trim_space r.branch in
    if is_empty name
    then err name_required
    else if is_empty (trim_space r.sql)
    then err sql_required
    else if ltb max_query_bytes (byte_length r.sql)
    then err sql_too_long
    else if is_empty branch
    then err branch_required
    else if is_empty r.database
    then err database_required
    else or_bad_database (new_query name r.sql branch r.database)
        (validate_sql_database_name (utf8 r.database))

-- the two halves of `normalizeSavedSQLQueryUpdate`
unfoldable pub normalize_name : Option Text → Result CheckError (Option Text)
unfolding trim_space
normalize_name none = ok none
normalize_name (some name) =
    let trimmed = trim_space name in
    if is_empty trimmed then err name_required else ok (some trimmed)

unfoldable pub normalize_sql : Option Text → Result CheckError (Option Text)
unfolding trim_space byte_length
normalize_sql none = ok none
normalize_sql (some sql) =
    if is_empty (trim_space sql)
    then err sql_required
    else if ltb max_query_bytes (byte_length sql)
    then err sql_too_long
    else ok (some sql)

unfoldable pub normalize_update :
    Option Text → Option Text → Result CheckError (Option Text × Option Text)
unfolding normalize_name normalize_sql
normalize_update name sql = normalize_name name >>= λ n. normalize_sql sql >>= λ s. ok (n, s)

-- the parameters `branch`, `database`, `limit` and `offset` of a URL
pub record ListParameters : Type 0 where
  pub branch : Text
  pub database : DatabaseName
  pub limit : Text
  pub offset : Text

abbrev pub or_bad_limit : Option ℤ → Result CheckError ℤ
or_bad_limit none = err bad_limit
or_bad_limit (some n) = if ltbℤ n (pos 1) || ltbℤ (pos 1000) n then err bad_limit else ok n

unfoldable pub limit_parameter : Text → Result CheckError ℤ
unfolding trim_space atoi
limit_parameter raw =
    let trimmed = trim_space raw in
    if is_empty trimmed then ok (pos 100) else or_bad_limit (atoi trimmed)

abbrev pub or_bad_offset : Option ℤ → Result CheckError ℤ
or_bad_offset none = err bad_offset
or_bad_offset (some n) = if ltbℤ n (pos 0) then err bad_offset else ok n

unfoldable pub offset_parameter : Text → Result CheckError ℤ
unfolding trim_space atoi
offset_parameter raw =
    let trimmed = trim_space raw in
    if is_empty trimmed then ok (pos 0) else or_bad_offset (atoi trimmed)

-- a name that passes the check is valid UTF-8, or empty
abbrev pub name_text : DatabaseName → Text
name_text (utf8 name) = name
name_text (invalid n) = []

unfoldable pub database_parameter : DatabaseName → Result CheckError Text
unfolding validate_sql_database_name
database_parameter d = or_bad_database (name_text d) (validate_sql_database_name d)

-- `parseSQLQueryLibraryFilter`
unfoldable pub parse_filter : ListParameters → Result CheckError LibraryFilter
unfolding database_parameter limit_parameter offset_parameter trim_space
parse_filter p = database_parameter p.database >>= λ database. limit_parameter p.limit >>= λ limit.
    offset_parameter p.offset >>= λ offset.
    ok
      (record { branch = trim_space p.branch; database = database; limit = limit; offset = offset })

abbrev pub or_bad_id : Option ℤ → Result CheckError ℕ
or_bad_id none = err bad_id
or_bad_id (some (pos zero)) = err bad_id
or_bad_id (some (pos (suc n))) = ok (suc n)
or_bad_id (some (negsuc n)) = err bad_id

-- `parseSQLQueryLibraryID`
unfoldable pub parse_id : Text → Result CheckError ℕ
unfolding trim_space atoi
parse_id raw = or_bad_id (atoi (trim_space raw))
