-- ===== src/Branch/Store/Endpoints.antt =====
-- internal/branch/store.go: what `SetEndpoint` writes, and that `ListActive` leaves no branch out, for
-- the ports of published branches.
use neon_selfhost.Prelude.{
  Bool-cases, inl, inr, Text, ◌≡◌, refl, ◌∙◌, Bool, true, Option, none, some, List, [], ◌∷◌, Result,
  All, is_empty, text_eq, text_eq_iff, ◌&&◌, not, if_split, if◌then◌else◌, arith,
}
use neon_selfhost.Prelude.Int.{ℤ, pos}
use neon_selfhost.Prelude.Trim.{trim_space}
use neon_selfhost.Prelude.Map.{Map, put, keys, contains, Distinct}
use neon_selfhost.Prelude.Sort.{sort, contains-sort}
use neon_selfhost.Branch.Types.{Branch, Error, active, index, in_port_range}
use neon_selfhost.Branch.Snapshot.{collect}
use neon_selfhost.Branch.File.{FileIo}
use neon_selfhost.Branch.Store.{Store, active_names, list_active, set_endpoint, updated}
use neon_selfhost.Branch.Store.Reads.{contains-active_names}
use neon_selfhost.Branch.Store.Invariant.{Wrote, failed, stored, store_branch-Wrote}

abbrev pub with_endpoint : Bool → ℤ → Branch → Branch
with_endpoint published port b = record b {
  endpoint_published = published;
  endpoint_port = if published then port else pos 0;
}

-- The branches are the old ones, or the entry of an active branch has the new endpoint.
pub data EndpointSet (k : Text) (published : Bool) (port : ℤ) (m n : Map Branch) : Type 0 where
  same : n ≡ m → EndpointSet k published port m n
  set :
      (b : Branch)
      → active k m ≡ some b
      → n ≡ put k (with_endpoint published port b) m
      → EndpointSet k published port m n

module _ (io : FileIo) (s : Store) (k : Text) (published : Bool) (port : ℤ) where
  abbrev Sets : Store × Result Error Branch → Type 0
  Sets out = EndpointSet k published port s.branches out.0.branches

  wrote-Sets :
      (b : Branch) (out : Store × Result Error Branch)
      → active k s.branches ≡ some b
      → Wrote s k (with_endpoint published port b) out
      → Sets out
  wrote-Sets b out here (failed e eq) = same (rw eq refl)
  wrote-Sets b out here (stored t eq put_eq p d) = set b here (rw eq put_eq)

  updated-Sets :
      (o : Option Branch)
      → active k s.branches ≡ o
      → Sets (updated io k (with_endpoint published port) o s)
  updated-Sets none here = same refl
  updated-Sets (some b) here =
      wrote-Sets b _ here (store_branch-Wrote io k (with_endpoint published port b) s)

pub set_endpoint-EndpointSet :
    (io : FileIo) (name : Text) (published : Bool) (port : ℤ) (s : Store)
    → EndpointSet
        (trim_space name)
        published
        port
        s.branches
        (set_endpoint io name published port s).0.branches
unfolding set_endpoint
set_endpoint-EndpointSet io name published port s =
    let k = trim_space name in
    if_split (Sets io s k published port) (is_empty k) _ _ (λ _. same refl)
      (λ _.
        if_split (Sets io s k published port) (published && not (in_port_range port)) _ _
          (λ _. same refl) (λ _. updated-Sets io s k published port (active k s.branches) refl))

module _ (P : Branch → Type 0) where
  collect-All :
      (m : Map Branch) (ks : List Text) (j : Text)
      → contains j ks ≡ true
      → All P (collect m ks)
      → P (index m j)
  unfolding collect contains
  collect-All m [] j h a = absurd (ground arith)
  collect-All m (k ∷ ks) j h a = elim (Bool-cases (text_eq k j)) [
    | inl eq ↦ rw (← (text_eq_iff k j).0 eq) a.0
    | inr ne ↦ collect-All m ks j (ground arith) a.1
  ]

  pub list_active-All :
      (s : Store) (j : Text) (b : Branch)
      → Distinct (keys s.branches)
      → active j s.branches ≡ some b
      → All P (list_active s)
      → P b
  unfolding list_active
  list_active-All s j b d here a =
      let listed : contains j (sort (active_names s.branches)) ≡ true =
        contains-sort j (active_names s.branches)
        ∙ contains-active_names j s.branches d
        ∙ rw here refl in
      let at : index s.branches j ≡ b = unfold index active in ground arith in
      rw (← at) (collect-All s.branches (sort (active_names s.branches)) j listed a)
