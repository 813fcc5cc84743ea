-- ===== src/Endpoint/Reservations.antt =====
-- internal/server/primary_endpoint.go: the reservations of the primary route, counted by branch.
use neon_selfhost.Prelude.{
  ℕ, ◌+◌, ◌-◌, ◌≡◌, refl, Text, Bool, false, List, [], ◌∷◌, ltb, text_eq, text_eq_iff, is_empty,
  ◌&&◌, not, if◌then◌else◌, arith,
}
use neon_selfhost.Prelude.Trim.{trim_space}
use neon_selfhost.Prelude.Map.{
  Map, lookup, erase, keys, contains, Distinct, lookup-put, lookup-erase, keys-put-Distinct,
}
use neon_selfhost.Endpoint.Manager.{
  PrimaryManager, reserved, or_zero, reserve_primary_route, release_primary_route,
  reserved_branches,
}

pub data RouteOp : Type 0 where
  reserve release : Text → RouteOp

abbrev pub run_routes : List RouteOp → PrimaryManager → PrimaryManager
run_routes [] m = m
run_routes (RouteOp.reserve b ∷ ops) m = run_routes ops (reserve_primary_route b m)
run_routes (RouteOp.release b ∷ ops) m = run_routes ops (release_primary_route b m)

-- Whether an operation on `b` is about the branch `k`.
abbrev pub is_about : Text → Text → Bool
is_about k b = not (is_empty (trim_space b)) && text_eq (trim_space b) k

-- The count of one branch by itself: a release of nothing changes nothing.
abbrev pub count_routes : Text → List RouteOp → ℕ → ℕ
count_routes k [] n = n
count_routes k (RouteOp.reserve b ∷ ops) n = count_routes k ops (if is_about k b then n + 1 else n)
count_routes k (RouteOp.release b ∷ ops) n = count_routes k ops (if is_about k b then n - 1 else n)

reserved-reserve :
    (k b : Text) (m : PrimaryManager)
    → reserved k (reserve_primary_route b m)
      ≡ (if is_about k b then reserved k m + 1 else reserved k m)
unfolding reserve_primary_route
reserved-reserve k b m = ground (
  arith,
  text_eq_iff (trim_space b) k,
  lookup-put (trim_space b) k (reserved (trim_space b) m + 1) m.reservations,
)

reserved-release :
    (k b : Text) (m : PrimaryManager)
    → reserved k (release_primary_route b m)
      ≡ (if is_about k b then reserved k m - 1 else reserved k m)
unfolding release_primary_route
reserved-release k b m = ground (
  arith,
  text_eq_iff (trim_space b) k,
  lookup-put (trim_space b) k (reserved (trim_space b) m - 1) m.reservations,
  lookup-erase (trim_space b) k m.reservations,
)

run_routes-counts :
    (k : Text) (ops : List RouteOp) (m : PrimaryManager)
    → reserved k (run_routes ops m) ≡ count_routes k ops (reserved k m)
run_routes-counts k [] m = refl
run_routes-counts k (RouteOp.reserve b ∷ ops) m =
    rw (run_routes-counts k ops (reserve_primary_route b m), reserved-reserve k b m) refl
run_routes-counts k (RouteOp.release b ∷ ops) m =
    rw (run_routes-counts k ops (release_primary_route b m), reserved-release k b m) refl

-- The keys stay distinct, so that a branch is listed exactly where its count is not zero.
contains-reserved_branches-absent :
    (k : Text) (r : Map ℕ) → contains k (keys r) ≡ false → contains k (reserved_branches r) ≡ false
unfolding contains reserved_branches
contains-reserved_branches-absent k [] h = refl
contains-reserved_branches-absent k ((j, n) ∷ r) h =
    ground (arith, contains-reserved_branches-absent k r)

contains-reserved_branches :
    (k : Text) (r : Map ℕ)
    → Distinct (keys r)
    → contains k (reserved_branches r) ≡ ltb 0 (or_zero 0 (lookup k r))
unfolding contains reserved_branches lookup
contains-reserved_branches k [] d = refl
contains-reserved_branches k ((j, n) ∷ r) d =
    ground (
      arith,
      text_eq_iff j k,
      contains-reserved_branches k r,
      contains-reserved_branches-absent k r,
    )

keys-erase-contains :
    (k j : Text) (r : Map ℕ) → contains j (keys r) ≡ false → contains j (keys (erase k r)) ≡ false
unfolding contains erase
keys-erase-contains k j [] h = refl
keys-erase-contains k j ((i, n) ∷ r) h = ground (arith, keys-erase-contains k j r)

keys-erase-Distinct : (k : Text) (r : Map ℕ) → Distinct (keys r) → Distinct (keys (erase k r))
unfolding erase
keys-erase-Distinct k [] d = tt
keys-erase-Distinct k ((j, n) ∷ r) d =
    ground (arith, keys-erase-Distinct k r, keys-erase-contains k j r)

run_routes-Distinct :
    (ops : List RouteOp) (m : PrimaryManager)
    → Distinct (keys m.reservations)
    → Distinct (keys (run_routes ops m).reservations)
unfolding reserve_primary_route release_primary_route
run_routes-Distinct [] m d = d
run_routes-Distinct (RouteOp.reserve b ∷ ops) m d =
    run_routes-Distinct ops (reserve_primary_route b m) (
      ground
        (arith, keys-put-Distinct (trim_space b) (reserved (trim_space b) m + 1) m.reservations))
run_routes-Distinct (RouteOp.release b ∷ ops) m d =
    run_routes-Distinct ops (release_primary_route b m) (
      ground (
        arith,
        keys-put-Distinct (trim_space b) (reserved (trim_space b) m - 1) m.reservations,
        keys-erase-Distinct (trim_space b) m.reservations,
      ))

-- Where the keys of the reservations are distinct, any sequence of ReservePrimaryRoute and
-- ReleasePrimaryRoute leaves each branch with the count that its own operations give, a release
-- of nothing changing nothing and names being trimmed; and a branch is listed as reserved
-- exactly where that count is not zero.
pub reserved_branches-run :
    (k : Text) (ops : List RouteOp) (m : PrimaryManager)
    → Distinct (keys m.reservations)
    → (reserved k (run_routes ops m) ≡ count_routes k ops (reserved k m))
      × (contains k (reserved_branches (run_routes ops m).reservations)
          ≡ ltb 0 (count_routes k ops (reserved k m)))
reserved_branches-run k ops m d = (
  run_routes-counts k ops m,
  rw
      (
        contains-reserved_branches k (run_routes ops m).reservations (run_routes-Distinct ops m d),
        run_routes-counts k ops m,
      )
      refl,
)
