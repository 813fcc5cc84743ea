-- ===== src/Branch/Snapshot.antt =====
-- internal/branch/store.go, `snapshotFromMap`: the branches of a map in the order of their names.
use neon_selfhost.Prelude.{Text, ◌≡◌, refl, List, [], ◌∷◌}
use neon_selfhost.Prelude.Map.{Map, keys, lookup, contains-keys, Distinct}
use neon_selfhost.Prelude.Sort.{sort, contains-sort, sort-Distinct, sort-IsSorted, sorted_ext}
use neon_selfhost.Branch.Types.{Branch, index}

-- The loop over the sorted names.
unfoldable pub collect : Map Branch → List Text → List Branch
unfolding index
collect m [] = []
collect m (name ∷ names) = index m name ∷ collect m names

unfoldable pub snapshot : Map Branch → List Branch
unfolding collect sort
snapshot m = collect m (sort (keys m))

collect_ext :
    (m n : Map Branch) (names : List Text)
    → ((k : Text) → lookup k m ≡ lookup k n)
    → collect m names ≡ collect n names
unfolding collect
collect_ext m n [] e = refl
collect_ext m n (name ∷ names) e = rw (e name, collect_ext m n names e)

-- Two branch maps with the same entries, in whatever order, have the same snapshot.
pub snapshot_order_free :
    (m n : Map Branch)
    → Distinct (keys m)
    → Distinct (keys n)
    → ((k : Text) → lookup k m ≡ lookup k n)
    → snapshot m ≡ snapshot n
unfolding snapshot
snapshot_order_free m n dm dn e =
    let names : sort (keys m) ≡ sort (keys n) =
      sorted_ext (sort (keys m)) (sort (keys n)) (sort-Distinct (keys m) dm)
        (sort-Distinct (keys n) dn) (sort-IsSorted (keys m)) (sort-IsSorted (keys n))
        (λ k. rw (contains-sort, contains-sort, contains-keys, contains-keys, e k)) in
    rw names (collect_ext m n (sort (keys n)) e)
