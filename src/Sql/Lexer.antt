-- ===== src/Sql/Lexer.antt =====
-- internal/server/sql_execution.go, `countSQLStatements` and `parseDollarDelimiter`. The loop walks
-- the bytes of the query; where the source moves its index on by k more bytes, the state says
-- that the next k bytes are skipped.
pub mod Lexemes
pub mod Pieces
pub mod Counts
use neon_selfhost.Prelude.{
  ℕ, zero, suc, ◌+◌, ◌-◌, Text, Bool, true, false, List, [], ◌∷◌, ◌++◌, Result, ok, err, length,
  leb, ◌==◌, ◌&&◌, ◌||◌, not, if◌then◌else◌, is_empty, has_prefix,
}
use neon_selfhost.Prelude.Trim.{is_space}

-- The flags of the source; at most one of them is set, and `plain` is none.
pub data Mode : Type 0 where
  plain single double line_comment block_comment : Mode
  dollar : Text → Mode

pub record LexState : Type 0 where
  pub count : ℕ
  pub has_token : Bool
  pub mode : Mode
  pub skip : ℕ

-- `i+1 < len(query) && query[i+1] == c`
abbrev pub next_is : ℕ → Text → Bool
next_is c [] = false
next_is c (d ∷ rest) = d == c

unfoldable pub is_tag_byte : ℕ → Bool
is_tag_byte c =
    c == b'_'
    || (leb b'0' c && leb c b'9')
    || (leb b'A' c && leb c b'Z')
    || (leb b'a' c && leb c b'z')

unfoldable pub all_tag_bytes : Text → Bool
unfolding is_tag_byte
all_tag_bytes [] = true
all_tag_bytes (c ∷ s) = is_tag_byte c && all_tag_bytes s

-- The loop of `parseDollarDelimiter`; `tag` is what stands between the first `$` and here.
unfoldable pub find_tag : Text → Text → Text
unfolding all_tag_bytes
find_tag tag [] = []
find_tag tag (c ∷ rest) =
    let more = find_tag (tag ++ c ∷ []) rest in
    if c == b'$'
    then (if all_tag_bytes tag then b'$' ∷ tag ++ b'$' ∷ [] else [])
    else if c == b'\n' || c == b'\r'
    then []
    else more

-- The text begins with `$`; the empty text means that no delimiter begins here.
unfoldable pub parse_dollar_delimiter : Text → Text
unfolding find_tag
parse_dollar_delimiter [] = []
parse_dollar_delimiter (c ∷ rest) = if c == b'$' then find_tag [] rest else []

abbrev pub jump : ℕ → LexState → LexState
jump k s = record s { skip = k }

in_plain : ℕ → Text → LexState → LexState
in_plain c rest s =
    let delimiter = if c == b'$' then parse_dollar_delimiter (c ∷ rest) else [] in
    if c == b'-' && next_is b'-' rest
    then record s { mode = line_comment; skip = 1 }
    else if c == b'/' && next_is b'*' rest
    then record s { mode = block_comment; skip = 1 }
    else if c == b'\''
    then record s { has_token = true; mode = single }
    else if c == b'"'
    then record s { has_token = true; mode = double }
    else if not (is_empty delimiter)
    then record s { has_token = true; mode = dollar delimiter; skip = length delimiter - 1 }
    else if c == b';'
    then (if s.has_token then record s { count = s.count + 1; has_token = false } else s)
    else if not (is_space c)
    then record s { has_token = true }
    else s

in_quote : ℕ → ℕ → Text → LexState → LexState
in_quote q c rest s =
    if c == q then (if next_is q rest then jump 1 s else record s { mode = plain }) else s

-- One round of the loop at the byte `c`, before the bytes `rest`.
unfoldable pub lex_step : Mode → ℕ → Text → LexState → LexState
unfolding in_plain in_quote parse_dollar_delimiter is_space
lex_step plain c rest s = in_plain c rest s
lex_step line_comment c rest s = if c == b'\n' then record s { mode = plain } else s
lex_step block_comment c rest s =
    if c == b'*' && next_is b'/' rest then record s { mode = plain; skip = 1 } else s
lex_step (dollar d) c rest s =
    if has_prefix (c ∷ rest) d then record s { mode = plain; skip = length d - 1 } else s
lex_step single c rest s =
    if c == b'\\' && not (is_empty rest) then jump 1 s else in_quote b'\'' c rest s
lex_step double c rest s = in_quote b'"' c rest s

abbrev pub advance : ℕ → ℕ → Text → LexState → LexState
advance zero c rest s = lex_step s.mode c rest s
advance (suc k) c rest s = record s { skip = k }

unfoldable pub lex : Text → LexState → LexState
unfolding lex_step
lex [] s = s
lex (c ∷ rest) s = lex rest (advance s.skip c rest s)

-- What is left open at the end of the query.
abbrev pub is_unterminated : Mode → Bool
is_unterminated plain = false
is_unterminated line_comment = false
is_unterminated single = true
is_unterminated double = true
is_unterminated block_comment = true
is_unterminated (dollar d) = true

pub data LexError : Type 0 where
  unterminated : LexError

abbrev pub lex_start : LexState
lex_start = record { count = 0; has_token = false; mode = plain; skip = 0 }

abbrev pub lex_result : LexState → Result LexError ℕ
lex_result s =
    if is_unterminated s.mode
    then err unterminated
    else ok (if s.has_token then s.count + 1 else s.count)

unfoldable pub count_sql_statements : Text → Result LexError ℕ
unfolding lex
count_sql_statements query = lex_result (lex query lex_start)
