-- ===== src/Sql/Lexer/Counts.antt =====
-- `countSQLStatements` counts the statements of every query that is made of lexemes.
use neon_selfhost.Prelude.{
  ℕ, ◌+◌, ◌≡◌, refl, ap, ◌∙◌, Text, Bool, true, false, Bool-cases, inl, inr, List, [], ◌∷◌, ◌++◌,
  ok, ◌||◌, not, if◌then◌else◌, arith,
}
use mathlib.Core.List.{append_assoc}
use native.Mathlib.Nat.{zero-add}
use neon_selfhost.Prelude.Trim.{is_space}
use neon_selfhost.Sql.Lexer.{
  plain, dollar, LexState, parse_dollar_delimiter, lex_step, lex, lex_result, count_sql_statements,
}
use neon_selfhost.Sql.Lexer.Lexemes.{
  Lexeme, other, semicolon, line, block, single_quoted, double_quoted, dollar_quoted, write, render,
  delimiter_of, IsPlain, IsLexeme, AreLexemes, is_token, statements,
}
use neon_selfhost.Sql.Lexer.Pieces.{
  within, lex_skip, lex-line, lex-block, lex-single, lex-double, lex-dollar,
  parse_dollar_delimiter-tag, suc-sub-one,
}

abbrev at : ℕ → Bool → LexState
at n t = within plain n t 0

-- What a lexeme does to the count and to the flag `hasToken`.
abbrev count_after : Lexeme → ℕ → Bool → ℕ
count_after semicolon n t = if t then n + 1 else n
count_after l n t = n

abbrev token_after : Lexeme → Bool → Bool
token_after semicolon t = false
token_after l t = t || is_token l

or_false : (t : Bool) → t ≡ (t || false)
or_false true = refl
or_false false = refl

or_true : (t : Bool) → true ≡ (t || true)
or_true true = refl
or_true false = refl

module _ (n : ℕ) (t : Bool) (rest : Text) where
  plain_step :
      (c : ℕ) → IsPlain c rest → lex_step plain c rest (at n t) ≡ at n (t || not (is_space c))
  unfolding lex_step
  plain_step c h = elim (Bool-cases (is_space c)) [
    | inl blank ↦
        rw (h.no_line, h.no_block, h.no_single, h.no_double, h.no_dollar, h.no_semicolon, blank)
          (ap (at n) (or_false t))
    | inr visible ↦
        rw (h.no_line, h.no_block, h.no_single, h.no_double, h.no_dollar, h.no_semicolon, visible)
          (ap (at n) (or_true t))
  ]

  lex-other :
      (c : ℕ) → IsPlain c rest → lex (c ∷ rest) (at n t) ≡ lex rest (at n (t || not (is_space c)))
  unfolding lex
  lex-other c h = ap (lex rest) (plain_step c h)

  lex-semicolon : lex (b';' ∷ rest) (at n t) ≡ lex rest (at (if t then n + 1 else n) false)
  unfolding lex
  lex-semicolon = ap (lex rest) (semicolon_step t)
    where
      semicolon_step :
          (u : Bool)
          → (if u then record (at n u) { count = n + 1; has_token = false } else at n u)
            ≡ at (if u then n + 1 else n) false
      semicolon_step true = refl
      semicolon_step false = refl

  lex-dollar_quoted :
      (tag body : Text)
      → IsLexeme (dollar_quoted tag body) rest
      → lex (write (dollar_quoted tag body) rest) (at n t) ≡ lex rest (at n true)
  unfolding lex
  lex-dollar_quoted tag body h =
      let after = body ++ (delimiter_of tag ++ rest) in
      let d : parse_dollar_delimiter (b'$' ∷ (tag ++ b'$' ∷ after)) ≡ delimiter_of tag =
        parse_dollar_delimiter-tag tag after h.0 in
      let shift : (tag ++ b'$' ∷ []) ++ after ≡ tag ++ b'$' ∷ after =
        append_assoc tag (b'$' ∷ []) after in
      let skipped = lex_skip n true (dollar (delimiter_of tag)) (tag ++ b'$' ∷ []) after in
      rw (d, lex, suc-sub-one) ((rw shift at skipped) ∙ lex-dollar n true tag body rest h.1)

  -- The scanner reads one lexeme from outside all quotes and comments, and is outside again.
  lex-write :
      (l : Lexeme)
      → IsLexeme l rest
      → lex (write l rest) (at n t) ≡ lex rest (at (count_after l n t) (token_after l t))
  unfolding lex
  lex-write (other c) h = lex-other c h
  lex-write semicolon h = lex-semicolon
  lex-write (line body) h = lex-line n t body rest h ∙ ap (λ u. lex rest (at n u)) (or_false t)
  lex-write (block body) h = lex-block n t body rest h ∙ ap (λ u. lex rest (at n u)) (or_false t)
  lex-write (single_quoted ps) (h, last) =
      lex-single n true ps rest h last ∙ ap (λ u. lex rest (at n u)) (or_true t)
  lex-write (double_quoted ps) (h, last) =
      lex-double n true ps rest h last ∙ ap (λ u. lex rest (at n u)) (or_true t)
  lex-write (dollar_quoted tag body) h =
      lex-dollar_quoted tag body h ∙ ap (λ u. lex rest (at n u)) (or_true t)

statements_after :
    (l : Lexeme) (ls : List Lexeme) (n : ℕ) (t : Bool)
    → count_after l n t + statements (token_after l t) ls ≡ n + statements t (l ∷ ls)
unfolding statements
statements_after semicolon ls n t = ground arith
statements_after (other c) ls n t = refl
statements_after (line body) ls n t = refl
statements_after (block body) ls n t = refl
statements_after (single_quoted ps) ls n t = refl
statements_after (double_quoted ps) ls n t = refl
statements_after (dollar_quoted tag body) ls n t = refl

lex_result-render :
    (ls : List Lexeme) (n : ℕ) (t : Bool)
    → AreLexemes ls
    → lex_result (lex (render ls) (at n t)) ≡ ok (n + statements t ls)
unfolding render
lex_result-render [] n t h = unfold lex statements in ground arith
lex_result-render (l ∷ ls) n t (h, hs) = rw (lex-write n t (render ls) l h) (
    lex_result-render ls (count_after l n t) (token_after l t) hs
    ∙ ap (λ k. ok k) (statements_after l ls n t))

-- A query that is made of complete lexemes is scanned to its end, and the count is the number of
-- stretches between semicolons that hold more than spaces and comments.
pub count_sql_statements-render :
    (ls : List Lexeme) → AreLexemes ls → count_sql_statements (render ls) ≡ ok (statements false ls)
unfolding count_sql_statements
count_sql_statements-render ls h = lex_result-render ls 0 false h ∙ ap (λ k. ok k) (zero-add _)
