-- ===== src/Branch/Store/Reads.antt =====
-- `GetActive`, `ListActive` and `Create` of the store, against the map that they read.
use neon_selfhost.Prelude.{
  ℕ, Text, ◌≡◌, refl, sym, ◌∙◌, Bool, true, false, Option, none, some, if◌then◌else◌, text_eq, List,
  [], ◌∷◌, ok, is_ok, is_empty, is_some, text_eq_iff, text_eq_refl, ◌&&◌, not, arith,
}
use mathlib.Core.Path.{ap₂}
use neon_selfhost.Prelude.Trim.{trim_space}
use neon_selfhost.Prelude.Map.{Map, lookup, keys, contains, contains-keys, Distinct}
use neon_selfhost.Prelude.Sort.{sort, IsSorted, sort-IsSorted, sort-Distinct, contains-sort}
use neon_selfhost.Branch.Types.{Branch, main, active, index}
use neon_selfhost.Branch.Snapshot.{collect}
use neon_selfhost.Branch.File.{FileIo}
use neon_selfhost.Branch.Store.{
  Store, active_names, list_active, get_active, create, create_locked, parent_or_main, store_branch,
}
use neon_selfhost.Branch.Store.Invariant.{IsSafe, run-IsSafe}
use neon_selfhost.Branch.Store.Ops.{Call, run}

get_active-lookup :
    (k : Text) (s : Store) (b : Branch)
    → trim_space k ≡ k
    → is_empty k ≡ false
    → lookup k s.branches ≡ some b
    → b.deleted ≡ false
    → get_active k s ≡ ok b
unfolding get_active
get_active-lookup k s b trimmed nonempty here live = rw (trimmed, nonempty, here, live)

-- After any sequence of writing operations on a safe store, the branch main is there, active and
-- under its own name.
pub main_stays_active :
    (s : Store) (cs : List Call)
    → IsSafe s
    → (b : Branch) × (get_active main (run s cs) ≡ ok b) × (b.name ≡ main)
main_stays_active s cs h =
    let w = (run-IsSafe cs s h).shape in
    let (b, here, live) = w.has_main in
    let e = w.entries main b here in
    (b, get_active-lookup main (run s cs) b e.trimmed e.nonempty here live, e.named)

pub contains-active_names :
    (k : Text) (m : Map Branch)
    → Distinct (keys m)
    → contains k (active_names m) ≡ is_some (active k m)
unfolding active_names active lookup contains
contains-active_names k [] d = refl
contains-active_names k ((j, b) ∷ m) d =
    ground (arith, contains-active_names k m, text_eq_iff j k, contains-keys k m)

active_names-sub :
    (k : Text) (m : Map Branch) → contains k (keys m) ≡ false → contains k (active_names m) ≡ false
unfolding active_names contains
active_names-sub k [] h = refl
active_names-sub k ((j, b) ∷ m) h = ground (arith, active_names-sub k m)

active_names-Distinct : (m : Map Branch) → Distinct (keys m) → Distinct (active_names m)
unfolding active_names
active_names-Distinct [] d = tt
active_names-Distinct ((j, b) ∷ m) d = ground (arith, active_names-Distinct m, active_names-sub j m)

abbrev pub names_of : List Branch → List Text
names_of [] = []
names_of (b ∷ bs) = b.name ∷ names_of bs

-- the first branch of a list under a name
pub find_branch : Text → List Branch → Option Branch
find_branch k [] = none
find_branch k (b ∷ bs) = if text_eq b.name k then some b else find_branch k bs

active-index :
    (k : Text) (m : Map Branch) → is_some (active k m) ≡ true → active k m ≡ some (index m k)
unfolding active index
active-index k m h = ground arith

module _ (s : Store) (safe : IsSafe s) where
  named_by_key : (k : Text) → is_some (active k s.branches) ≡ true → (index s.branches k).name ≡ k
  named_by_key k h =
      (safe.shape.entries k (index s.branches k) (unfold active index in ground (arith, h))).named

  find_branch-collect :
      (j : Text) (ks : List Text)
      → ((k : Text) → contains k ks ≡ true → is_some (active k s.branches) ≡ true)
      → find_branch j (collect s.branches ks)
        ≡ (if contains j ks then active j s.branches else none)
  unfolding collect find_branch contains
  find_branch-collect j [] h = refl
  find_branch-collect j (k ∷ ks) h =
      let live = h k (unfold contains in rw (text_eq_refl k) refl) in
      let rest = find_branch-collect j ks (λ i e. h i (unfold contains in ground arith)) in
      rw (named_by_key k live)
        (ground (arith, rest, text_eq_iff k j, active-index k s.branches live))

  names-collect :
      (ks : List Text)
      → ((k : Text) → contains k ks ≡ true → is_some (active k s.branches) ≡ true)
      → names_of (collect s.branches ks) ≡ ks
  unfolding collect
  names-collect [] h = refl
  names-collect (k ∷ ks) h =
      let here : contains k (k ∷ ks) ≡ true = unfold contains in rw (text_eq_refl k) refl in
      let named : (index s.branches k).name ≡ k =
        (safe.shape.entries k (index s.branches k)
          (unfold active index in ground (arith, h k here))).named in
      ap₂ ◌∷◌ named (names-collect ks (λ j e. h j (unfold contains in ground arith)))

  -- In a safe store the list of active branches holds exactly the branches that are not deleted,
  -- each as the store has it, in the order of their names, each once.
  pub list_active-exact :
      ((k : Text) → find_branch k (list_active s) ≡ active k s.branches)
      × IsSorted (names_of (list_active s))
      × Distinct (names_of (list_active s))
  unfolding list_active
  list_active-exact =
      let d = safe.shape.distinct in
      let ks = active_names s.branches in
      let member : (k : Text) → contains k (sort ks) ≡ is_some (active k s.branches) =
        λ k. contains-sort k ks ∙ contains-active_names k s.branches d in
      let live : (k : Text) → contains k (sort ks) ≡ true → is_some (active k s.branches) ≡ true =
        λ k h. sym (member k) ∙ h in
      let named : names_of (collect s.branches (sort ks)) ≡ sort ks =
        names-collect (sort ks) live in
      (
        λ k.
            find_branch-collect k (sort ks) live
            ∙ found_if_active k (contains k (sort ks)) (member k),
        rw named (sort-IsSorted ks),
        rw named (sort-Distinct ks (active_names-Distinct s.branches d)),
      )
    where
      found_if_active :
          (k : Text) (b : Bool)
          → b ≡ is_some (active k s.branches)
          → (if b then active k s.branches else none) ≡ active k s.branches
      found_if_active k b e = ground arith

-- In a store that is not persistent, create succeeds exactly if the name is not blank, the
-- parent is active and the name is not active.
pub create-is_ok_iff :
    (io : FileIo) (now : ℕ) (name parent : Text) (s : Store)
    → s.persistent ≡ false
    → is_ok (create io now name parent s).1 ≡ (
        not (is_empty (trim_space name))
        && is_some (active (parent_or_main parent) s.branches)
        && not (is_some (active (trim_space name) s.branches)))
unfolding create create_locked store_branch
create-is_ok_iff io now name parent s h = ground arith
