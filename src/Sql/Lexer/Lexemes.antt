-- ===== src/Sql/Lexer/Lexemes.antt =====
-- A description of query text that does not mention the scanner: lexemes, the text of each, and
-- the number of statements in a list of lexemes.
use neon_selfhost.Prelude.{
  ℕ, ◌+◌, ◌≡◌, Text, Bool, true, false, List, [], ◌∷◌, ◌++◌, ◌==◌, ◌&&◌, ◌||◌, not, if◌then◌else◌,
  is_empty, has_prefix,
}
use neon_selfhost.Prelude.Trim.{is_space}
use neon_selfhost.Sql.Lexer.{next_is, all_tag_bytes, parse_dollar_delimiter}

-- What stands in a string: a byte, a doubled quote, or a backslash with the byte behind it.
pub data Piece : Type 0 where
  byte : ℕ → Piece
  doubled : Piece
  escaped : ℕ → Piece

pub data Lexeme : Type 0 where
  other : ℕ → Lexeme
  semicolon : Lexeme
  line : Text → Lexeme
  block : Text → Lexeme
  single_quoted : List Piece → Lexeme
  double_quoted : List Piece → Lexeme
  dollar_quoted : Text → Text → Lexeme

abbrev pub piece_text : ℕ → Piece → Text
piece_text q (byte c) = c ∷ []
piece_text q doubled = q ∷ q ∷ []
piece_text q (escaped c) = b'\\' ∷ c ∷ []

unfoldable pub pieces_text : ℕ → List Piece → Text
pieces_text q [] = []
pieces_text q (p ∷ ps) = piece_text q p ++ pieces_text q ps

abbrev pub delimiter_of : Text → Text
delimiter_of tag = b'$' ∷ (tag ++ b'$' ∷ [])

-- The text of a lexeme, before the rest of the query.
abbrev pub write : Lexeme → Text → Text
write (other c) rest = c ∷ rest
write semicolon rest = b';' ∷ rest
write (line body) rest = b'-' ∷ b'-' ∷ (body ++ b'\n' ∷ rest)
write (block body) rest = b'/' ∷ b'*' ∷ (body ++ b'*' ∷ b'/' ∷ rest)
write (single_quoted ps) rest = b'\'' ∷ (pieces_text b'\'' ps ++ b'\'' ∷ rest)
write (double_quoted ps) rest = b'"' ∷ (pieces_text b'"' ps ++ b'"' ∷ rest)
write (dollar_quoted tag body) rest = b'$' ∷ (tag ++ b'$' ∷ (body ++ (delimiter_of tag ++ rest)))

unfoldable pub render : List Lexeme → Text
render [] = []
render (l ∷ ls) = write l (render ls)

-- A byte of its own: it opens no string, comment or dollar quote in front of `rest`.
pub record IsPlain (c : ℕ) (rest : Text) : Type 0 where
  pub no_single : (c == b'\'') ≡ false
  pub no_double : (c == b'"') ≡ false
  pub no_semicolon : (c == b';') ≡ false
  pub no_line : (c == b'-' && next_is b'-' rest) ≡ false
  pub no_block : (c == b'/' && next_is b'*' rest) ≡ false
  pub no_dollar : is_empty (if c == b'$' then parse_dollar_delimiter (c ∷ rest) else []) ≡ true

abbrev pub Lacks : ℕ → Text → Type 0
Lacks d [] = Unit
Lacks d (c ∷ s) = ((c == d) ≡ false) × Lacks d s

-- No `*/` begins in the body of a block comment.
abbrev pub IsBlockBody : Text → Type 0
IsBlockBody [] = Unit
IsBlockBody (c ∷ s) = ((c == b'*' && next_is b'/' (s ++ b'*' ∷ b'/' ∷ [])) ≡ false) × IsBlockBody s

-- The delimiter does not begin in the body of a dollar quote.
abbrev pub IsDollarBody : Text → Text → Type 0
IsDollarBody d [] = Unit
IsDollarBody d (c ∷ s) = (has_prefix (c ∷ (s ++ d)) d ≡ false) × IsDollarBody d s

-- In single quotes a backslash takes the byte behind it; in double quotes it is a byte.
abbrev pub IsSinglePiece : Piece → Type 0
IsSinglePiece (byte c) = ((c == b'\'') ≡ false) × ((c == b'\\') ≡ false)
IsSinglePiece doubled = Unit
IsSinglePiece (escaped c) = Unit

abbrev pub IsDoublePiece : Piece → Type 0
IsDoublePiece (byte c) = (c == b'"') ≡ false
IsDoublePiece doubled = Unit
IsDoublePiece (escaped c) = ⊥

abbrev pub AllPieces : (Piece → Type 0) → List Piece → Type 0
AllPieces P [] = Unit
AllPieces P (p ∷ ps) = P p × AllPieces P ps

abbrev pub IsLexeme : Lexeme → Text → Type 0
IsLexeme (other c) rest = IsPlain c rest
IsLexeme semicolon rest = Unit
IsLexeme (line body) rest = Lacks b'\n' body
IsLexeme (block body) rest = IsBlockBody body
IsLexeme (single_quoted ps) rest = AllPieces IsSinglePiece ps × (next_is b'\'' rest ≡ false)
IsLexeme (double_quoted ps) rest = AllPieces IsDoublePiece ps × (next_is b'"' rest ≡ false)
IsLexeme (dollar_quoted tag body) rest =
    (all_tag_bytes tag ≡ true) × IsDollarBody (delimiter_of tag) body

-- Each lexeme is what its text shows, given the text behind it.
abbrev pub AreLexemes : List Lexeme → Type 0
AreLexemes [] = Unit
AreLexemes (l ∷ ls) = IsLexeme l (render ls) × AreLexemes ls

-- Spaces and comments are no part of a statement.
abbrev pub is_token : Lexeme → Bool
is_token (other c) = not (is_space c)
is_token semicolon = false
is_token (line body) = false
is_token (block body) = false
is_token (single_quoted ps) = true
is_token (double_quoted ps) = true
is_token (dollar_quoted tag body) = true

-- The stretches between semicolons that hold a token; `begun` says whether the first one does
-- already.
unfoldable pub statements : Bool → List Lexeme → ℕ
statements begun [] = if begun then 1 else 0
statements begun (semicolon ∷ ls) = (if begun then 1 else 0) + statements false ls
statements begun (l ∷ ls) = statements (begun || is_token l) ls
