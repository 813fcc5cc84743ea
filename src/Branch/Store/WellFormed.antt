-- ===== src/Branch/Store/WellFormed.antt =====
-- The shape of a branch map that the store keeps: what a restart checks, and more.
use neon_selfhost.Prelude.{
  ℕ, Text, ◌≡◌, refl, true, false, some, text_eq, text_eq_iff, text_eq_refl, is_empty, is_some,
  if◌then◌else◌, arith, Bool-cases, inl, inr,
}
use neon_selfhost.Prelude.Int.{pos}
use neon_selfhost.Prelude.Trim.{trim_space}
use neon_selfhost.Prelude.Map.{
  Map, keys, lookup, put, lookup-put, contains, contains-keys-put, keys-put-Distinct, Distinct,
}
use neon_selfhost.Branch.Types.{Branch, main, in_port_range, default_branch_map, main_branch}

-- A branch other than `main` has a parent that the map knows.
pub record HasParent (m : Map Branch) (b : Branch) : Type 0 where
  pub trimmed : trim_space b.parent ≡ b.parent
  pub nonempty : is_empty b.parent ≡ false
  pub known : contains b.parent (keys m) ≡ true

-- A published endpoint has a port, an unpublished one has port 0.
abbrev pub EndpointFits : Branch → Type 0
EndpointFits b =
    if b.endpoint_published then in_port_range b.endpoint_port ≡ true else b.endpoint_port ≡ pos 0

pub record IsEntry (m : Map Branch) (k : Text) (b : Branch) : Type 0 where
  pub named : b.name ≡ k
  pub trimmed : trim_space k ≡ k
  pub nonempty : is_empty k ≡ false
  pub parent : text_eq k main ≡ false → HasParent m b
  pub dated : is_some b.deleted_at ≡ b.deleted
  pub endpoint : EndpointFits b

pub record IsWellFormed (m : Map Branch) : Type 0 where
  pub distinct : Distinct (keys m)
  pub entries : (k : Text) (b : Branch) → lookup k m ≡ some b → IsEntry m k b
  pub has_main : (b : Branch) × (lookup main m ≡ some b) × (b.deleted ≡ false)

HasParent-put : (m : Map Branch) (k : Text) (v b : Branch) → HasParent m b → HasParent (put k v m) b
HasParent-put m k v b h = record {
  trimmed = h.trimmed;
  nonempty = h.nonempty;
  known = ground (arith, h.known, contains-keys-put k b.parent v m);
}

IsEntry-put : (m : Map Branch) (k j : Text) (v b : Branch) → IsEntry m j b → IsEntry (put k v m) j b
IsEntry-put m k j v b e = record {
  named = e.named;
  trimmed = e.trimmed;
  nonempty = e.nonempty;
  parent = λ h. HasParent-put m k v b (e.parent h);
  dated = e.dated;
  endpoint = e.endpoint;
}

-- Writing an entry that fits keeps the map well-formed, as long as `main` is not deleted by it.
module _ (m : Map Branch) (k : Text) (v : Branch) (w : IsWellFormed m) (e : IsEntry m k v) where
  entries-put : (j : Text) (b : Branch) → lookup j (put k v m) ≡ some b → IsEntry m j b
  entries-put j b h = elim (Bool-cases (text_eq k j)) [
    | inl same ↦
        let vb : v ≡ b = ground (arith, lookup-put k j v m) in
        let kj : k ≡ j = (text_eq_iff k j).0 same in rw (← kj, ← vb) e
    | inr other ↦ w.entries j b (ground (arith, lookup-put k j v m))
  ]

  main-put :
      (text_eq k main ≡ true → v.deleted ≡ false)
      → (b : Branch) × (lookup main (put k v m) ≡ some b) × (b.deleted ≡ false)
  main-put live = elim (Bool-cases (text_eq k main)) [
    | inl same ↦ (v, ground (arith, lookup-put k main v m), live same)
    | inr other ↦ (w.has_main.0, ground (arith, lookup-put k main v m, w.has_main.1), w.has_main.2)
  ]

  pub put-IsWellFormed : (text_eq k main ≡ true → v.deleted ≡ false) → IsWellFormed (put k v m)
  put-IsWellFormed live = record {
    distinct = keys-put-Distinct k v m w.distinct;
    entries = λ j b h. IsEntry-put m k j v b (entries-put j b h);
    has_main = main-put live;
  }

main_entry : (now : ℕ) → IsEntry (default_branch_map now) main (main_branch now)
unfolding trim_space
main_entry now = record {
  named = refl;
  trimmed = refl;
  nonempty = refl;
  parent = λ h. absurd (ground (arith, text_eq_refl main));
  dated = refl;
  endpoint = refl;
}

default_entry :
    (now : ℕ) (k : Text) (b : Branch)
    → lookup k (default_branch_map now) ≡ some b
    → IsEntry (default_branch_map now) k b
unfolding default_branch_map lookup
default_entry now k b h = elim (Bool-cases (text_eq main k)) [
  | inl same ↦
      let e : main_branch now ≡ b = ground arith in
      rw (← (text_eq_iff main k).0 same, ← e) (main_entry now)
  | inr other ↦ absurd (ground arith)
]

-- The map of a new store.
pub default_branch_map-IsWellFormed : (now : ℕ) → IsWellFormed (default_branch_map now)
unfolding default_branch_map lookup contains
default_branch_map-IsWellFormed now = record {
  distinct = (refl, tt);
  entries = default_entry now;
  has_main = (main_branch now, ground (arith, text_eq_refl main), refl);
}
