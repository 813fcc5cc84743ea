-- ===== src/Prelude/Case.antt =====
-- `strings.ToLower` and `strings.EqualFold`.
use neon_selfhost.Prelude.Tests.{if◌then◌else◌, leb, ltb, ◌==◌}
use neon_selfhost.Prelude.Strings.{Text, text_eq}
use neon_selfhost.Prelude.Unicode.{wide_lower, merged}
use Prim.Native.Nat.{ℕ, ◌+◌}
use mathlib.Core.Bool.{Bool, ◌&&◌}
use mathlib.Core.List.{[], ◌∷◌}

abbrev pub ascii_lower : ℕ → ℕ
ascii_lower c = if leb b'A' c && leb c b'Z' then c + 32 else c

-- the dotted capital I has its lower case in ASCII
abbrev pub lower : ℕ → ℕ
lower c = if ltb c 0x80 then ascii_lower c else if c == 0x130 then b'i' else wide_lower c

unfoldable pub to_lower : Text → Text
to_lower [] = []
to_lower (c ∷ s) = lower c ∷ to_lower s

-- one code point for all that `unicode.SimpleFold` puts together; the dotted capital I is alone
abbrev pub fold : ℕ → ℕ
fold c = if ltb c 0x80 then ascii_lower c else if c == 0x130 then c else merged (wide_lower c)

unfoldable pub folded : Text → Text
folded [] = []
folded (c ∷ s) = fold c ∷ folded s

unfoldable pub equal_fold : Text → Text → Bool
unfolding folded text_eq
equal_fold s t = text_eq (folded s) (folded t)
