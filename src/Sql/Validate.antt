-- ===== src/Sql/Validate.antt =====
-- internal/server/sql_execution.go: the checks of a query and of a database name.
use neon_selfhost.Prelude.{
  ℕ, ◌+◌, ◌*◌, ◌≤◌, ◌≡◌, ◌↔◌, Text, Bool, false, Option, none, some, [], ◌∷◌, Result, ok, err,
  length, ltb, leb, ◌==◌, ◌&&◌, ◌||◌, if◌then◌else◌, is_empty, arith,
}
use neon_selfhost.Sql.Lexer.{LexError, unterminated, count_sql_statements}

abbrev pub max_query_bytes : ℕ
max_query_bytes = 64 * 1024

pub data QueryError : Type 0 where
  too_long : QueryError
  unterminated_query : QueryError
  empty_query : QueryError
  several_statements : QueryError

abbrev counted : Result LexError ℕ → Option QueryError
counted (err unterminated) = some unterminated_query
counted (ok n) =
    if n == 0 then some empty_query else if ltb 1 n then some several_statements else none

-- `validateSingleStatementQuery`; `none` is a nil error
unfoldable pub validate_single_statement_query : Text → Option QueryError
validate_single_statement_query query =
    if ltb max_query_bytes (length query)
    then some too_long
    else counted (count_sql_statements query)

counted-none : (r : Result LexError ℕ) → (counted r ≡ none) ↔ (r ≡ ok 1)
counted-none (ok n) = ground arith
counted-none (err unterminated) = ground arith

-- The guard passes exactly the queries of at most 64 KiB that hold one statement.
pub validate-eq-none_iff :
    (query : Text)
    → (validate_single_statement_query query ≡ none)
      ↔ ((length query ≤ max_query_bytes) × (count_sql_statements query ≡ ok 1))
unfolding validate_single_statement_query
validate-eq-none_iff query =
    let c = counted-none (count_sql_statements query) in
    (λ h. (ground arith, c.0 (ground arith)), λ (fits, one). ground (arith, c.1 one))

-- A database name is valid UTF-8, a list of code points, or bytes that are not, of which only the
-- number is looked at.
pub data DatabaseName : Type 0 where
  utf8 : Text → DatabaseName
  invalid : ℕ → DatabaseName

unfoldable pub utf8_width : ℕ → ℕ
utf8_width c = if ltb c 0x80 then 1 else if ltb c 0x800 then 2 else if ltb c 0x10000 then 3 else 4

unfoldable pub byte_length : Text → ℕ
unfolding utf8_width
byte_length [] = 0
byte_length (c ∷ s) = utf8_width c + byte_length s

-- `unicode.IsControl`
unfoldable pub is_control : ℕ → Bool
is_control c = ltb c 0x20 || (leb 0x7f c && ltb c 0xa0)

unfoldable pub has_control : Text → Bool
unfolding is_control
has_control [] = false
has_control (c ∷ s) = c == 0 || is_control c || has_control s

pub data NameError : Type 0 where
  name_too_long not_utf8 control_character : NameError

unfoldable pub validate_sql_database_name : DatabaseName → Option NameError
unfolding byte_length has_control
validate_sql_database_name (utf8 name) =
    if is_empty name
    then none
    else if ltb 63 (byte_length name)
    then some name_too_long
    else if has_control name
    then some control_character
    else none
validate_sql_database_name (invalid n) =
    if n == 0 then none else if ltb 63 n then some name_too_long else some not_utf8
