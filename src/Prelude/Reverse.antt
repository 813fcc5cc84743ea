-- ===== src/Prelude/Reverse.antt =====
-- Reversed lists, and the parts that `take` and `drop` make of a list.
use neon_selfhost.Prelude.Tests.{leb, Bool-cases}
use neon_selfhost.Prelude.Lists.{length, take, drop, length-append, length-drop}
use Prim.Native.Nat.{ℕ, zero, suc, ◌-◌, ◌≤◌}
use mathlib.Core.Path.{◌≡◌, refl, ap, ◌∙◌, sym}
use mathlib.Core.Logic.{inl, inr}
use mathlib.Core.Bool.{true}
use mathlib.Core.List.{List, [], ◌∷◌, ◌++◌, reverse, reverse-append, map, map-append}
use native.Mathlib.Omega.{arith}

pub length-reverse {ℓ} : {A : Type ℓ} (xs : List A) → length (reverse xs) ≡ length xs
length-reverse [] = refl
length-reverse (x ∷ xs) =
    rw (reverse-append (x ∷ []) xs)
      (omega (arith, length-append (reverse xs) (x ∷ []), length-reverse xs))

pub take_all {ℓ} : {A : Type ℓ} (n : ℕ) (xs : List A) → length xs ≤ n → take n xs ≡ xs
take_all zero [] h = refl
take_all zero (x ∷ xs) h = absurd (omega arith)
take_all (suc n) [] h = refl
take_all (suc n) (x ∷ xs) h = ap (◌∷◌ x) (take_all n xs (omega arith))

take-append {ℓ} : {A : Type ℓ} (n : ℕ) (xs ys : List A) → length xs ≡ n → take n (xs ++ ys) ≡ xs
take-append zero [] ys h = refl
take-append zero (x ∷ xs) ys h = absurd (omega arith)
take-append (suc n) [] ys h = absurd (omega arith)
take-append (suc n) (x ∷ xs) ys h = ap (◌∷◌ x) (take-append n xs ys (omega arith))

pub take-append-drop {ℓ} : {A : Type ℓ} (n : ℕ) (xs : List A) → take n xs ++ drop n xs ≡ xs
take-append-drop zero xs = refl
take-append-drop (suc n) [] = refl
take-append-drop (suc n) (x ∷ xs) = rw (take-append-drop n xs)

leb-sub : (n k : ℕ) → leb n k ≡ true → k - (k - n) ≡ n
leb-sub n k h = ground arith

drop-none {ℓ} : {A : Type ℓ} (k : ℕ) (xs : List A) → k ≡ 0 → drop k xs ≡ xs
drop-none zero xs h = refl
drop-none (suc k) xs h = absurd (omega arith)

-- The first `n` of the reversed list are the last `n` of the list, reversed.
pub take-reverse {ℓ} :
    {A : Type ℓ} (n : ℕ) (xs : List A) → take n (reverse xs) ≡ reverse (drop (length xs - n) xs)
take-reverse n xs =
    let k = length xs - n in
    let halves : reverse xs ≡ reverse (drop k xs) ++ reverse (take k xs) =
      sym (ap reverse (take-append-drop k xs)) ∙ reverse-append (take k xs) (drop k xs) in
    elim (Bool-cases (leb n (length xs))) [
      | inl enough ↦ rw halves (
          take-append n (reverse (drop k xs)) (reverse (take k xs))
            (length-reverse (drop k xs) ∙ length-drop k xs ∙ leb-sub n (length xs) enough))
      | inr short ↦
          take_all n (reverse xs) (rw (length-reverse xs) (ground arith))
          ∙ ap reverse (sym (drop-none k xs (ground arith)))
    ]

module _ {A B : Type 0} (f : A → B) where
  pub map-reverse : (xs : List A) → reverse (map f xs) ≡ map f (reverse xs)
  map-reverse [] = refl
  map-reverse (x ∷ xs) =
      reverse-append (f x ∷ []) (map f xs)
      ∙ ap (λ ys. ys ++ f x ∷ []) (map-reverse xs)
      ∙ sym (map-append f (reverse xs) (x ∷ []))
      ∙ ap (map f) (sym (reverse-append (x ∷ []) xs))

  pub map-take : (n : ℕ) (xs : List A) → take n (map f xs) ≡ map f (take n xs)
  map-take zero xs = refl
  map-take (suc n) [] = refl
  map-take (suc n) (x ∷ xs) = ap (◌∷◌ (f x)) (map-take n xs)

  pub map-drop : (n : ℕ) (xs : List A) → drop n (map f xs) ≡ map f (drop n xs)
  map-drop zero xs = refl
  map-drop (suc n) [] = refl
  map-drop (suc n) (x ∷ xs) = map-drop n xs
