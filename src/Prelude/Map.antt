-- ===== src/Prelude/Map.antt =====
-- A Go map with string keys as an association list. A new key goes to the end, a known key keeps
-- its place; what the program computes does not depend on that order.
use neon_selfhost.Prelude.Tests.{if◌then◌else◌, is_some}
use neon_selfhost.Prelude.Strings.{Text, text_eq, text_eq_iff, text_eq_refl}
use mathlib.Core.Path.{◌≡◌, refl}
use mathlib.Core.Bool.{Bool, false, ◌||◌}
use mathlib.Core.Option.{Option, none, some}
use mathlib.Core.List.{List, [], ◌∷◌, ◌++◌}
use native.Mathlib.Omega.{arith}

abbrev pub Map {ℓ} : Type ℓ → Type ℓ
Map V = List (Text × V)

unfoldable pub contains : Text → List Text → Bool
contains k [] = false
contains k (j ∷ ks) = text_eq j k || contains k ks

abbrev pub Distinct : List Text → Type 0
Distinct [] = Unit
Distinct (k ∷ ks) = (contains k ks ≡ false) × Distinct ks

pub contains-append :
    (k : Text) (ks js : List Text) → contains k (ks ++ js) ≡ (contains k ks || contains k js)
unfolding contains
contains-append k [] js = refl
contains-append k (j ∷ ks) js = ground (arith, contains-append k ks js)

module _ {V : Type 0} where
  abbrev pub keys : Map V → List Text
  keys [] = []
  keys ((k, v) ∷ m) = k ∷ keys m

  unfoldable pub lookup : Text → Map V → Option V
  lookup k [] = none
  lookup k ((j, v) ∷ m) = if text_eq j k then some v else lookup k m

  -- `m[k] = v`
  unfoldable pub put : Text → V → Map V → Map V
  put k v [] = (k, v) ∷ []
  put k v ((j, w) ∷ m) = if text_eq j k then (j, v) ∷ m else (j, w) ∷ put k v m

  -- `delete(m, k)`
  unfoldable pub erase : Text → Map V → Map V
  erase k [] = []
  erase k ((j, v) ∷ m) = let rest = erase k m in if text_eq j k then rest else (j, v) ∷ rest

  pub lookup-put :
      (k j : Text) (v : V) (m : Map V)
      → lookup j (put k v m) ≡ (if text_eq k j then some v else lookup j m)
  unfolding lookup put
  lookup-put k j v [] = refl
  lookup-put k j v ((i, w) ∷ m) =
      ground (arith, text_eq_iff k j, text_eq_iff i k, text_eq_iff i j, lookup-put k j v m)

  pub lookup-put_self : (k : Text) (v : V) (m : Map V) → lookup k (put k v m) ≡ some v
  lookup-put_self k v m = rw (lookup-put, text_eq_refl)

  pub lookup-erase :
      (k j : Text) (m : Map V) → lookup j (erase k m) ≡ (if text_eq k j then none else lookup j m)
  unfolding lookup erase
  lookup-erase k j [] = ground arith
  lookup-erase k j ((i, w) ∷ m) =
      ground (arith, text_eq_iff k j, text_eq_iff i k, text_eq_iff i j, lookup-erase k j m)

  pub contains-keys : (k : Text) (m : Map V) → contains k (keys m) ≡ is_some (lookup k m)
  unfolding contains lookup
  contains-keys k [] = refl
  contains-keys k ((j, v) ∷ m) = ground (arith, contains-keys k m)

  pub contains-keys-put :
      (k j : Text) (v : V) (m : Map V)
      → contains j (keys (put k v m)) ≡ (text_eq k j || contains j (keys m))
  contains-keys-put k j v m =
      ground (arith, contains-keys j (put k v m), contains-keys j m, lookup-put k j v m)

  pub keys-put-Distinct :
      (k : Text) (v : V) (m : Map V) → Distinct (keys m) → Distinct (keys (put k v m))
  unfolding put
  keys-put-Distinct k v [] d = unfold contains in (refl, tt)
  keys-put-Distinct k v ((i, w) ∷ m) d =
      ground (
        arith,
        keys-put-Distinct k v m,
        contains-keys-put k i v m,
        text_eq_iff i k,
        text_eq_iff k i,
      )

  -- a new key goes to the end
  pub put_absent :
      (k : Text) (v : V) (m : Map V) → contains k (keys m) ≡ false → put k v m ≡ m ++ (k, v) ∷ []
  unfolding put contains
  put_absent k v [] h = refl
  put_absent k v ((j, w) ∷ m) h = ground (arith, put_absent k v m)
