-- ===== src/Prelude/Sort.antt =====
-- `sort.Strings` on the keys of a map: an insertion sort, and the facts that fix its result.
use neon_selfhost.Prelude.Tests.{if◌then◌else◌}
use neon_selfhost.Prelude.Strings.{
  Text, text_eq, text_eq_iff, text_eq_refl, text_eq_sym, text_leb, text_leb_total, text_leb_antisym,
  text_leb_trans,
}
use neon_selfhost.Prelude.Map.{contains, Distinct}
use mathlib.Core.Path.{◌≡◌, refl}
use mathlib.Core.Bool.{true, false, ◌||◌}
use mathlib.Core.List.{List, [], ◌∷◌}
use native.Mathlib.Omega.{arith}

pub insert : Text → List Text → List Text
insert k [] = k ∷ []
insert k (j ∷ ks) = if text_leb k j then k ∷ j ∷ ks else j ∷ insert k ks

unfoldable pub sort : List Text → List Text
unfolding insert text_leb
sort [] = []
sort (k ∷ ks) = insert k (sort ks)

-- every key of the list is at least `k`
abbrev pub Bounds : Text → List Text → Type 0
Bounds k [] = Unit
Bounds k (j ∷ ks) = (text_leb k j ≡ true) × Bounds k ks

abbrev pub IsSorted : List Text → Type 0
IsSorted [] = Unit
IsSorted (k ∷ ks) = Bounds k ks × IsSorted ks

contains-insert :
    (j k : Text) (ks : List Text) → contains j (insert k ks) ≡ (text_eq k j || contains j ks)
unfolding insert contains
contains-insert j k [] = refl
contains-insert j k (i ∷ ks) = ground (arith, contains-insert j k ks)

pub contains-sort : (j : Text) (ks : List Text) → contains j (sort ks) ≡ contains j ks
unfolding sort contains
contains-sort j [] = refl
contains-sort j (k ∷ ks) = ground (arith, contains-insert j k (sort ks), contains-sort j ks)

insert-Distinct :
    (k : Text) (ks : List Text) → contains k ks ≡ false → Distinct ks → Distinct (insert k ks)
unfolding insert contains
insert-Distinct k [] h d = (refl, tt)
insert-Distinct k (j ∷ ks) h d =
    ground (arith, insert-Distinct k ks, contains-insert j k ks, text_eq_sym j k)

pub sort-Distinct : (ks : List Text) → Distinct ks → Distinct (sort ks)
unfolding sort
sort-Distinct [] d = tt
sort-Distinct (k ∷ ks) d =
    insert-Distinct k (sort ks) (ground (arith, contains-sort k ks)) (sort-Distinct ks d.1)

Bounds-insert :
    (i k : Text) (ks : List Text) → text_leb i k ≡ true → Bounds i ks → Bounds i (insert k ks)
unfolding insert
Bounds-insert i k [] h b = (h, tt)
Bounds-insert i k (j ∷ ks) h b = ground (arith, Bounds-insert i k ks)

Bounds-mono : (i k : Text) (ks : List Text) → text_leb i k ≡ true → Bounds k ks → Bounds i ks
Bounds-mono i k [] h b = tt
Bounds-mono i k (j ∷ ks) h b = (text_leb_trans i k j h b.0, Bounds-mono i k ks h b.1)

insert-IsSorted : (k : Text) (ks : List Text) → IsSorted ks → IsSorted (insert k ks)
unfolding insert
insert-IsSorted k [] s = (tt, tt)
insert-IsSorted k (j ∷ ks) s =
    ground
      (arith, insert-IsSorted k ks, Bounds-insert j k ks, Bounds-mono k j ks, text_leb_total k j)

pub sort-IsSorted : (ks : List Text) → IsSorted (sort ks)
unfolding sort
sort-IsSorted [] = tt
sort-IsSorted (k ∷ ks) = insert-IsSorted k (sort ks) (sort-IsSorted ks)

Bounds-contains :
    (i k : Text) (ks : List Text) → Bounds i ks → contains k ks ≡ true → text_leb i k ≡ true
unfolding contains
Bounds-contains i k [] b h = ground arith
Bounds-contains i k (j ∷ ks) b h = ground (arith, Bounds-contains i k ks, text_eq_iff j k)

head-le :
    (i j : Text) (ks : List Text) → Bounds j ks → contains i (j ∷ ks) ≡ true → text_leb j i ≡ true
unfolding contains
head-le i j ks b h = ground (arith, Bounds-contains j i ks, text_eq_iff j i, text_leb_total i j)

contains-tail :
    (i k : Text) (ks js : List Text)
    → contains i ks ≡ false
    → contains i js ≡ false
    → contains k (i ∷ ks) ≡ contains k (i ∷ js)
    → contains k ks ≡ contains k js
unfolding contains
contains-tail i k ks js h g e = ground (arith, text_eq_iff i k)

-- A sorted list without repetition is determined by its members.
pub sorted_ext :
    (ks js : List Text)
    → Distinct ks
    → Distinct js
    → IsSorted ks
    → IsSorted js
    → ((k : Text) → contains k ks ≡ contains k js)
    → ks ≡ js
unfolding contains
sorted_ext [] [] _ _ _ _ _ = refl
sorted_ext [] (j ∷ js) _ _ _ _ e = ground (arith, e j, text_eq_refl j)
sorted_ext (k ∷ ks) [] _ _ _ _ e = ground (arith, e k, text_eq_refl k)
sorted_ext (k ∷ ks) (j ∷ js) dk dj sk sj e =
    let here : contains j (k ∷ ks) ≡ true = ground (arith, e j, text_eq_refl j) in
    let there : contains k (j ∷ js) ≡ true = ground (arith, e k, text_eq_refl k) in
    let same : k ≡ j =
      text_leb_antisym k j (head-le j k ks sk.0 here) (head-le k j js sj.0 there) in
    let e' : (i : Text) → contains i (k ∷ ks) ≡ contains i (k ∷ js) =
      λ i. rw same (rw same at (e i)) in
    let tails : ks ≡ js =
      sorted_ext ks js dk.1 dj.1 sk.1 sj.1
        (λ i. contains-tail k i ks js dk.0 (rw same dj.0) (e' i)) in
    ground arith
