-- ===== src/Tests/SqlGuard.antt =====
-- internal/server/sql_execution.go: queries with strings, comments and dollar quotes, and the
-- execution of a write.
use neon_selfhost.Prelude.{◌≡◌, refl, ◌↔◌, codes, true, false, none, List, [], ◌∷◌, ok}
use neon_selfhost.Sql.Lexer.{
  count_sql_statements, parse_dollar_delimiter, find_tag, all_tag_bytes, is_tag_byte,
}
use neon_selfhost.Sql.Lexer.Lexemes.{
  Lexeme, other, semicolon, line, block, single_quoted, double_quoted, dollar_quoted, AreLexemes,
  byte, doubled, escaped, render, pieces_text, statements,
}
use neon_selfhost.Sql.Lexer.Counts.{count_sql_statements-render}
use neon_selfhost.Sql.Transaction.{
  Limits, Answers, Page, Execution, RowRead, values, text, bytes, null, read_rows,
  execute_transaction, normalize_row, row_bytes, normalize, clip,
}
use neon_selfhost.Sql.Transaction.Pages.{IsPage, shown}
use neon_selfhost.Sql.Transaction.Commit.{commit_iff, execution_within_limits}

-- `x';';"a""b" -- ;` and behind the end of the line `/*;*/$q$;$q$;y`
abbrev lexemes : List Lexeme
lexemes =
    other b'x'
    ∷ single_quoted (byte b';' ∷ doubled ∷ escaped b';' ∷ [])
    ∷ semicolon
    ∷ double_quoted (byte b'a' ∷ doubled ∷ byte b'b' ∷ [])
    ∷ line (codes " ;")
    ∷ block (codes ";")
    ∷ dollar_quoted (codes "q") (codes ";")
    ∷ semicolon
    ∷ other b'y'
    ∷ []

are_lexemes : AreLexemes lexemes
unfolding render parse_dollar_delimiter find_tag all_tag_bytes is_tag_byte
are_lexemes = (
  record {
    no_single = refl;
    no_double = refl;
    no_semicolon = refl;
    no_line = refl;
    no_block = refl;
    no_dollar = refl;
  },
  (
    (((refl, refl), (tt, (tt, tt))), refl),
    (
      tt,
      (
        ((refl, (tt, (refl, tt))), refl),
        (
          (refl, (refl, tt)),
          (
            (refl, tt),
            (
              (refl, (refl, tt)),
              (
                tt,
                (
                  record {
                    no_single = refl;
                    no_double = refl;
                    no_semicolon = refl;
                    no_line = refl;
                    no_block = refl;
                    no_dollar = refl;
                  },
                  tt,
                ),
              ),
            ),
          ),
        ),
      ),
    ),
  ),
)

query_is_read : count_sql_statements (render lexemes) ≡ ok 3
unfolding count_sql_statements render pieces_text
query_is_read = refl

count_sql_statements-render_example :
    count_sql_statements (render lexemes) ≡ ok (statements false lexemes)
count_sql_statements-render_example = count_sql_statements-render lexemes are_lexemes

abbrev limits : Limits
limits = record { max_rows = 2; max_bytes = 100; max_cell = 4 }

abbrev reads : List RowRead
reads = values (text (codes "abcdef") ∷ null ∷ []) ∷ values (bytes (codes "g") ∷ null ∷ []) ∷ []

abbrev answers : Answers
answers = record {
  query_error = none;
  rows = reads;
  rows_error = none;
  context_error = none;
  command_tag = codes "UPDATE 2";
  commit_error = none;
}

commit_iff_example : ((execute_transaction limits false answers).1 ≡ true) ↔ (
    (false ≡ false)
    × ((page : Page) × (answers.query_error ≡ none)
        × (read_rows limits answers.rows [] 0 ≡ ok page)
        × (answers.rows_error ≡ none)
        × (answers.context_error ≡ none)
        × (page.truncated ≡ false)))
commit_iff_example = commit_iff limits answers false

abbrev page_of : List RowRead → Execution
page_of rs = record {
  rows = shown limits.max_cell rs;
  truncated = false;
  command_tag = codes "UPDATE 2";
  read_only = false;
}

written : (execute_transaction limits false answers).0 ≡ ok (page_of reads)
unfolding execute_transaction read_rows normalize_row normalize clip row_bytes shown
written = refl

execution_within_limits_example :
    IsPage limits
      (shown limits.max_cell reads)
      (record { rows = (page_of reads).rows; truncated = (page_of reads).truncated })
execution_within_limits_example =
    execution_within_limits limits answers false (page_of reads) written
