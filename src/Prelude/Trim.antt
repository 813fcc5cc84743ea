-- ===== src/Prelude/Trim.antt =====
-- `strings.TrimSpace` and `unicode.IsSpace` of the Go standard library.
use neon_selfhost.Prelude.Tests.{leb, ◌==◌, if◌then◌else◌}
use neon_selfhost.Prelude.Strings.{Text}
use Prim.Native.Nat.{ℕ}
use mathlib.Core.Path.{◌≡◌, refl}
use mathlib.Core.Bool.{Bool, true, false, ◌&&◌, ◌||◌}
use mathlib.Core.List.{[], ◌∷◌}
use native.Mathlib.Omega.{arith}

-- `unicode.IsSpace`: the Latin-1 spaces, then the table White_Space
unfoldable pub is_space : ℕ → Bool
is_space c =
    (leb 9 c && leb c 13)
    || c == 32
    || c == 0x85
    || c == 0xa0
    || c == 0x1680
    || (leb 0x2000 c && leb c 0x200a)
    || c == 0x2028
    || c == 0x2029
    || c == 0x202f
    || c == 0x205f
    || c == 0x3000

pub trim_left : Text → Text
trim_left [] = []
trim_left (c ∷ s) = if is_space c then trim_left s else c ∷ s

abbrev keep : ℕ → Text → Text
keep c [] = if is_space c then [] else c ∷ []
keep c (d ∷ s) = c ∷ d ∷ s

pub trim_right : Text → Text
trim_right [] = []
trim_right (c ∷ s) = keep c (trim_right s)

unfoldable pub trim_space : Text → Text
unfolding trim_left trim_right is_space
trim_space s = trim_right (trim_left s)

keep-trim_right : (c : ℕ) (t : Text) → trim_right t ≡ t → trim_right (keep c t) ≡ keep c t
unfolding trim_right
keep-trim_right c [] h = ground arith
keep-trim_right c (d ∷ t) h = rw h

trim_right_idem : (s : Text) → trim_right (trim_right s) ≡ trim_right s
unfolding trim_right
trim_right_idem [] = refl
trim_right_idem (c ∷ s) = keep-trim_right c (trim_right s) (trim_right_idem s)

-- a text that does not begin with a space
abbrev starts_well : Text → Bool
starts_well [] = true
starts_well (c ∷ s) = if is_space c then false else true

trim_left_fix : (s : Text) → starts_well s ≡ true → trim_left s ≡ s
unfolding trim_left
trim_left_fix [] h = refl
trim_left_fix (c ∷ s) h = ground arith

trim_left-starts_well : (s : Text) → starts_well (trim_left s) ≡ true
unfolding trim_left
trim_left-starts_well [] = refl
trim_left-starts_well (c ∷ s) = ground (arith, trim_left-starts_well s)

keep-starts_well : (c : ℕ) (t : Text) → is_space c ≡ false → starts_well (keep c t) ≡ true
keep-starts_well c [] h = rw h (rw h refl)
keep-starts_well c (d ∷ t) h = rw h

trim_right-starts_well : (s : Text) → starts_well s ≡ true → starts_well (trim_right s) ≡ true
unfolding trim_right
trim_right-starts_well [] h = refl
trim_right-starts_well (c ∷ s) h = keep-starts_well c (trim_right s) (ground arith)

pub trim_space_idem : (s : Text) → trim_space (trim_space s) ≡ trim_space s
unfolding trim_space
trim_space_idem s =
    rw
      (trim_left_fix (trim_right (trim_left s))
        (trim_right-starts_well (trim_left s) (trim_left-starts_well s)))
      (trim_right_idem (trim_left s))
