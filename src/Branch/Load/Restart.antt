-- ===== src/Branch/Load/Restart.antt =====
-- A restart reads back the map that the store had: proofs about `branchMapFromSnapshot`.
use neon_selfhost.Prelude.{
  Text, true, false, none, some, List, [], ◌∷◌, ◌++◌, ok, ap, sym, ◌∙◌, ◌≡◌, refl, is_empty,
  is_some, text_eq, text_eq_iff, text_eq_refl, text_eq_sym, if◌then◌else◌, arith, Bool-cases, inl,
  inr, All,
}
use mathlib.Core.List.{append_assoc, append-nil}
use neon_selfhost.Prelude.Trim.{trim_space}
use neon_selfhost.Prelude.Map.{
  Map, lookup, put, keys, contains, Distinct, put_absent, contains-keys, contains-append,
}
use neon_selfhost.Prelude.Sort.{sort, contains-sort, sort-Distinct}
use neon_selfhost.Branch.Types.{Branch, main, index}
use neon_selfhost.Branch.Snapshot.{snapshot, collect}
use neon_selfhost.Branch.Store.{parent_or_main}
use neon_selfhost.Branch.Store.WellFormed.{IsWellFormed, IsEntry, HasParent}
use neon_selfhost.Branch.Load.{gather, link_parents, branch_map_from_snapshot}

-- The entries of `m` under the names, in their order.
pairs : Map Branch → List Text → Map Branch
pairs m [] = []
pairs m (k ∷ ks) = (k, index m k) ∷ pairs m ks

keys-pairs : (m : Map Branch) (ks : List Text) → keys (pairs m ks) ≡ ks
unfolding pairs
keys-pairs m [] = refl
keys-pairs m (k ∷ ks) = ap (◌∷◌ k) (keys-pairs m ks)

lookup-pairs :
    (m : Map Branch) (ks : List Text) (j : Text)
    → lookup j (pairs m ks) ≡ (if contains j ks then some (index m j) else none)
unfolding pairs lookup contains
lookup-pairs m [] j = refl
lookup-pairs m (k ∷ ks) j = ground (arith, lookup-pairs m ks j, text_eq_iff k j)

-- sorted and indexed again, a map has the entries that it had
lookup-pairs-sort : (m : Map Branch) (j : Text) → lookup j (pairs m (sort (keys m))) ≡ lookup j m
unfolding index
lookup-pairs-sort m j =
    ground (arith, lookup-pairs m (sort (keys m)) j, contains-sort j (keys m), contains-keys j m)

abbrev Known : Map Branch → List Text → Type 0
Known m = All (λ k. contains k (keys m) ≡ true)

Known-of-contains :
    (m : Map Branch) (ks : List Text)
    → ((k : Text) → contains k ks ≡ true → contains k (keys m) ≡ true)
    → Known m ks
unfolding contains
Known-of-contains m [] h = tt
Known-of-contains m (k ∷ ks) h =
    (h k (ground (arith, text_eq_refl k)), Known-of-contains m ks (λ j e. h j (ground arith)))

keys-append : (m n : Map Branch) → keys (m ++ n) ≡ keys m ++ keys n
keys-append [] n = refl
keys-append ((k, b) ∷ m) n = ap (◌∷◌ k) (keys-append m n)

-- One round of the first loop, for a branch that passes its checks.
gather_step :
    (b : Branch) (bs : List Branch) (acc : Map Branch)
    → trim_space b.name ≡ b.name
    → is_empty b.name ≡ false
    → contains b.name (keys acc) ≡ false
    → gather (b ∷ bs) acc ≡ gather bs (acc ++ (b.name, b) ∷ [])
unfolding gather
gather_step b bs acc trimmed nonempty absent =
    let same : record b { name = trim_space b.name } ≡ b =
      ap (λ n. record b { name = n }) trimmed in
    let stored : put (trim_space b.name) (record b { name = trim_space b.name }) acc
        ≡ acc ++ (b.name, b) ∷ [] =
      rw (same, trimmed) (put_absent b.name b acc absent) in
    let fresh : is_some (lookup (trim_space b.name) acc) ≡ false =
      rw (trimmed, ← contains-keys) absent in
    let blank : is_empty (trim_space b.name) ≡ false = rw trimmed nonempty in
    rw (blank, fresh, stored)

absent-append :
    (acc : Map Branch) (k : Text) (b : Branch) (ks : List Text)
    → contains k ks ≡ false
    → All (λ j. contains j (keys acc) ≡ false) ks
    → All (λ j. contains j (keys (acc ++ (k, b) ∷ [])) ≡ false) ks
unfolding contains
absent-append acc k b [] fresh h = tt
absent-append acc k b (j ∷ ks) fresh (hj, h) = (
  ground (
    arith,
    keys-append acc ((k, b) ∷ []),
    contains-append j (keys acc) (k ∷ []),
    text_eq_sym j k,
  ),
  absent-append acc k b ks (ground arith) h,
)

module _ (m : Map Branch) (w : IsWellFormed m) where
  entry_at : (k : Text) → contains k (keys m) ≡ true → IsEntry m k (index m k)
  unfolding index
  entry_at k h = w.entries k (index m k) (ground (arith, contains-keys k m))

  gather-collect :
      (ks : List Text) (acc : Map Branch)
      → Known m ks
      → Distinct ks
      → All (λ k. contains k (keys acc) ≡ false) ks
      → gather (collect m ks) acc ≡ ok (acc ++ pairs m ks)
  unfolding collect pairs
  gather-collect [] acc _ _ _ = unfold gather in rw append-nil
  gather-collect (k ∷ ks) acc (here, known) (fresh, d) (absent, others) =
      let e = entry_at k here in
      let b = index m k in
      gather_step b (collect m ks) acc (rw e.named e.trimmed) (rw e.named e.nonempty)
        (rw e.named absent)
      ∙ rw e.named (
          gather-collect ks (acc ++ (k, b) ∷ []) known d (absent-append acc k b ks fresh others)
          ∙ rw append_assoc refl)

  -- The second loop changes nothing in a map whose parents are known.
  link_parents-pairs :
      (ks : List Text) (n : Map Branch)
      → ((j : Text) → lookup j n ≡ lookup j m)
      → Known m ks
      → link_parents (pairs m ks) n ≡ ok n
  unfolding link_parents pairs parent_or_main
  link_parents-pairs [] n same _ = refl
  link_parents-pairs (k ∷ ks) n same (here, known) = elim (Bool-cases (text_eq k main)) [
    | inl is_main ↦ rw is_main (link_parents-pairs ks n same known)
    | inr other ↦
        let p = (entry_at k here).parent other in
        let named : is_empty (trim_space (index m k).parent) ≡ false = rw p.trimmed p.nonempty in
        let there : is_some (lookup (trim_space (index m k).parent) n) ≡ true =
          rw (p.trimmed, same (index m k).parent, ← contains-keys) p.known in
        rw (other, named, there) (link_parents-pairs ks n same known)
  ]

  -- The map that a restart builds from the snapshot of `m`.
  reread : Map Branch
  reread = pairs m (sort (keys m))

from_gather :
    (l : List Branch) (n : Map Branch) (b : Branch)
    → gather l [] ≡ ok n
    → lookup main n ≡ some b
    → b.deleted ≡ false
    → branch_map_from_snapshot l ≡ link_parents n n
unfolding branch_map_from_snapshot
from_gather [] n b g h live = absurd (unfold gather lookup in ground arith)
from_gather (a ∷ l) n b g h live = rw (g, h, live)

empty-absent : (ks : List Text) → All (λ k. contains k (keys {V = Branch} []) ≡ false) ks
unfolding contains
empty-absent [] = tt
empty-absent (k ∷ ks) = (refl, empty-absent ks)

HasParent-ext :
    (m n : Map Branch) (b : Branch)
    → ((k : Text) → lookup k n ≡ lookup k m)
    → HasParent m b
    → HasParent n b
HasParent-ext m n b same h = record {
  trimmed = h.trimmed;
  nonempty = h.nonempty;
  known =
      ground (arith, same b.parent, contains-keys b.parent m, contains-keys b.parent n, h.known);
}

IsWellFormed-ext :
    (m n : Map Branch)
    → Distinct (keys n)
    → ((k : Text) → lookup k n ≡ lookup k m)
    → IsWellFormed m
    → IsWellFormed n
IsWellFormed-ext m n d same w = record {
  distinct = d;
  entries = λ k b h.
      let e = w.entries k b (sym (same k) ∙ h) in
      record {
        named = e.named;
        trimmed = e.trimmed;
        nonempty = e.nonempty;
        parent = λ p. HasParent-ext m n b same (e.parent p);
        dated = e.dated;
        endpoint = e.endpoint;
      };
  has_main = (w.has_main.0, same main ∙ w.has_main.1, w.has_main.2);
}

-- The snapshot of a well-formed branch map is accepted, and gives a well-formed map with the
-- same branch under every name.
pub branch_map_from_snapshot-snapshot :
    (m : Map Branch)
    → IsWellFormed m
    → (n : Map Branch) × (branch_map_from_snapshot (snapshot m) ≡ ok n)
      × ((k : Text) → lookup k n ≡ lookup k m)
      × IsWellFormed n
unfolding reread
branch_map_from_snapshot-snapshot m w =
    let names = sort (keys m) in
    let n = reread m w in
    let same : (k : Text) → lookup k n ≡ lookup k m = lookup-pairs-sort m in
    let d : Distinct names = sort-Distinct (keys m) w.distinct in
    let known : Known m names =
      Known-of-contains m names (λ k h. ground (arith, contains-sort k (keys m))) in
    let gathered : gather (snapshot m) [] ≡ ok n =
      unfold snapshot in gather-collect m w names [] known d (empty-absent names) in
    let loaded : branch_map_from_snapshot (snapshot m) ≡ ok n =
      from_gather (snapshot m) n w.has_main.0 gathered (same main ∙ w.has_main.1) w.has_main.2
      ∙ link_parents-pairs m w names n same known in
    (n, loaded, same, IsWellFormed-ext m n (rw keys-pairs d) same w)
