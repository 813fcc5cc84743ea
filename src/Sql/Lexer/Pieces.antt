-- ===== src/Sql/Lexer/Pieces.antt =====
-- The scanner inside comments, strings and dollar quotes: it stops where the lexeme ends.
use neon_selfhost.Prelude.{
  ℕ, suc, ◌-◌, ◌≤◌, ◌≡◌, refl, ap, ◌∙◌, Text, Bool, true, false, List, [], ◌∷◌, ◌++◌, ◌==◌, ◌&&◌,
  ◌||◌, has_prefix, arith, length, length-append,
}
use mathlib.Core.List.{append_assoc, append-nil}
use neon_selfhost.Sql.Lexer.{
  Mode, plain, single, double, line_comment, block_comment, dollar, LexState, next_is, is_tag_byte,
  all_tag_bytes, find_tag, parse_dollar_delimiter, lex,
}
use neon_selfhost.Sql.Lexer.Lexemes.{
  Piece, byte, doubled, escaped, pieces_text, delimiter_of, Lacks, IsBlockBody, IsDollarBody,
  IsSinglePiece, IsDoublePiece, AllPieces,
}

abbrev pub within : Mode → ℕ → Bool → ℕ → LexState
within mode n t k = record { count = n; has_token = t; mode = mode; skip = k }

module _ (n : ℕ) (t : Bool) where
  pub lex_skip :
      (mode : Mode) (s rest : Text)
      → lex (s ++ rest) (within mode n t (length s)) ≡ lex rest (within mode n t 0)
  unfolding lex
  lex_skip mode [] rest = refl
  lex_skip mode (c ∷ s) rest = lex_skip mode s rest

  pub lex-line :
      (body rest : Text)
      → Lacks b'\n' body
      → lex (body ++ b'\n' ∷ rest) (within line_comment n t 0) ≡ lex rest (within plain n t 0)
  unfolding lex
  lex-line [] rest h = refl
  lex-line (c ∷ body) rest h = rw (h.0, lex) (lex-line body rest h.1)

  next-of-body : (d e : ℕ) (s r q : Text) → next_is d (s ++ e ∷ r) ≡ next_is d (s ++ e ∷ q)
  next-of-body d e [] r q = refl
  next-of-body d e (c ∷ s) r q = refl

  pub lex-block :
      (body rest : Text)
      → IsBlockBody body
      → lex (body ++ b'*' ∷ b'/' ∷ rest) (within block_comment n t 0)
        ≡ lex rest (within plain n t 0)
  unfolding lex
  lex-block [] rest h = refl
  lex-block (c ∷ body) rest h =
      let open_still : (c == b'*' && next_is b'/' (body ++ b'*' ∷ b'/' ∷ rest)) ≡ false =
        rw (next-of-body b'/' b'*' body (b'/' ∷ rest) (b'/' ∷ [])) h.0 in
      rw (open_still, lex) (lex-block body rest h.1)

  -- the closing quote is not doubled
  pub lex-single :
      (ps : List Piece) (rest : Text)
      → AllPieces IsSinglePiece ps
      → next_is b'\'' rest ≡ false
      → lex (pieces_text b'\'' ps ++ b'\'' ∷ rest) (within single n t 0)
        ≡ lex rest (within plain n t 0)
  unfolding lex pieces_text
  lex-single [] rest h last = rw (last, lex) refl
  lex-single (byte c ∷ ps) rest h last = rw (h.0.0, h.0.1, lex) (lex-single ps rest h.1 last)
  lex-single (doubled ∷ ps) rest h last = lex-single ps rest h.1 last
  lex-single (escaped c ∷ ps) rest h last = lex-single ps rest h.1 last

  pub lex-double :
      (ps : List Piece) (rest : Text)
      → AllPieces IsDoublePiece ps
      → next_is b'"' rest ≡ false
      → lex (pieces_text b'"' ps ++ b'"' ∷ rest) (within double n t 0)
        ≡ lex rest (within plain n t 0)
  unfolding lex pieces_text
  lex-double [] rest h last = rw (last, lex) refl
  lex-double (byte c ∷ ps) rest h last = rw (h.0, lex) (lex-double ps rest h.1 last)
  lex-double (doubled ∷ ps) rest h last = lex-double ps rest h.1 last
  lex-double (escaped c ∷ ps) rest h last = absurd h.0

-- A prefix test looks no further than the prefix is long.
has_prefix-append :
    (s rest d : Text) → length d ≤ length s → has_prefix (s ++ rest) d ≡ has_prefix s d
has_prefix-append s rest [] h = refl
has_prefix-append [] rest (c ∷ d) h = absurd (omega arith)
has_prefix-append (e ∷ s) rest (c ∷ d) h = rw (has_prefix-append s rest d (omega arith))

has_prefix_self : (d rest : Text) → has_prefix (d ++ rest) d ≡ true
has_prefix_self [] rest = refl
has_prefix_self (c ∷ d) rest = rw (has_prefix_self d rest) (ground arith)

tag_byte_plain :
    (c : ℕ) → is_tag_byte c ≡ true → ((c == b'$') ≡ false) × ((c == b'\n' || c == b'\r') ≡ false)
unfolding is_tag_byte
tag_byte_plain c h = ground arith

find_tag-tag :
    (acc tag rest : Text)
    → all_tag_bytes tag ≡ true
    → all_tag_bytes (acc ++ tag) ≡ true
    → find_tag acc (tag ++ b'$' ∷ rest) ≡ delimiter_of (acc ++ tag)
unfolding find_tag
find_tag-tag acc [] rest h g =
    let tag_only : all_tag_bytes acc ≡ true = rw append-nil at g in rw (append-nil, tag_only) refl
find_tag-tag acc (c ∷ tag) rest h g =
    let head : is_tag_byte c ≡ true = unfold all_tag_bytes in ground arith in
    let more : all_tag_bytes tag ≡ true = unfold all_tag_bytes in ground arith in
    let others = tag_byte_plain c head in
    let shifted : (acc ++ c ∷ []) ++ tag ≡ acc ++ c ∷ tag = append_assoc acc (c ∷ []) tag in
    rw (others.0, others.1)
      (find_tag-tag (acc ++ c ∷ []) tag rest more (rw shifted g) ∙ ap delimiter_of shifted)

-- A tag of tag bytes between dollars is a delimiter.
pub parse_dollar_delimiter-tag :
    (tag rest : Text)
    → all_tag_bytes tag ≡ true
    → parse_dollar_delimiter (b'$' ∷ (tag ++ b'$' ∷ rest)) ≡ delimiter_of tag
unfolding parse_dollar_delimiter
parse_dollar_delimiter-tag tag rest h = find_tag-tag [] tag rest h h

pub suc-sub-one : (k : ℕ) → suc k - 1 ≡ k
suc-sub-one k = omega arith

module _ (n : ℕ) (t : Bool) (tag : Text) where
  abbrev delim : Text
  delim = delimiter_of tag

  -- the delimiter at the end of a dollar quote
  lex-delimiter :
      (rest : Text)
      → lex (delim ++ rest) (within (dollar delim) n t 0) ≡ lex rest (within plain n t 0)
  unfolding lex
  lex-delimiter rest =
      let here : has_prefix (delim ++ rest) delim ≡ true = has_prefix_self delim rest in
      rw (here, lex, suc-sub-one) (lex_skip n t plain (tag ++ b'$' ∷ []) rest)

  pub lex-dollar :
      (body rest : Text)
      → IsDollarBody delim body
      → lex (body ++ (delim ++ rest)) (within (dollar delim) n t 0) ≡ lex rest (within plain n t 0)
  unfolding lex
  lex-dollar [] rest h = lex-delimiter rest
  lex-dollar (c ∷ body) rest h =
      let room : length delim ≤ length (c ∷ (body ++ delim)) =
        omega (arith, length-append body delim) in
      let not_yet : has_prefix (c ∷ (body ++ (delim ++ rest))) delim ≡ false =
        rw (← append_assoc body delim rest)
          (has_prefix-append (c ∷ (body ++ delim)) rest delim room ∙ h.0) in
      rw (not_yet, lex) (lex-dollar body rest h.1)
