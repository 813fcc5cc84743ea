-- ===== src/Branch/Load.antt =====
-- internal/branch/persistence.go: the map that a snapshot gives, and the store that opens a file.
pub mod Restart
pub mod Open
use neon_selfhost.Prelude.{
  ℕ, Text, Bool, true, false, Option, none, some, List, [], ◌∷◌, Result, ok, err, ◌>>=◌, is_empty,
  is_some, text_eq, if◌then◌else◌, ◌||◌,
}
use neon_selfhost.Prelude.Trim.{trim_space}
use neon_selfhost.Prelude.Map.{Map, lookup, put}
use neon_selfhost.Branch.Types.{Branch, Fault, main, default_branch_map}
use neon_selfhost.Branch.Snapshot.{snapshot}
use neon_selfhost.Branch.Store.{Store, parent_or_main}
use neon_selfhost.Branch.File.{
  StateFile, FileIo, LoadError, persist_state_file, load_persisted_state, dir_required,
  persist_initial, snapshot_empty, blank_name, duplicate_branch, main_required, main_deleted,
  unknown_parent,
}

-- The first loop: trimmed names, none blank, none twice.
gather : List Branch → Map Branch → Result LoadError (Map Branch)
gather [] m = ok m
gather (b ∷ bs) m =
    let name = trim_space b.name in
    let rest = gather bs (put name (record b { name = name }) m) in
    if is_empty name
    then err blank_name
    else if is_some (lookup name m)
    then err duplicate_branch
    else rest

abbrev check_main : Option Branch → Map Branch → Result LoadError (Map Branch)
check_main none m = err main_required
check_main (some b) m = if b.deleted then err main_deleted else ok m

-- What the second loop writes for one branch: a blank parent becomes `main`.
abbrev with_parent : Text → Branch → Map Branch → Map Branch
with_parent name b m =
    if is_empty (trim_space b.parent) then put name (record b { parent = main }) m else m

-- The second loop, over the entries of the map.
link_parents : List (Text × Branch) → Map Branch → Result LoadError (Map Branch)
link_parents [] m = ok m
link_parents ((name, b) ∷ rest) m =
    let next = if text_eq name main then m else with_parent name b m in
    let linked = link_parents rest next in
    if text_eq name main || is_some (lookup (parent_or_main b.parent) next)
    then linked
    else err unknown_parent

unfoldable pub branch_map_from_snapshot : List Branch → Result LoadError (Map Branch)
unfolding gather link_parents
branch_map_from_snapshot [] = err snapshot_empty
branch_map_from_snapshot (b ∷ bs) = do
  m ← gather (b ∷ bs) []
  checked ← check_main (lookup main m) m
  link_parents checked checked

abbrev pub opened : Map Branch → StateFile → Store
opened m file = record { branches = m; persistent = true; file = file; close_fn = none }

-- the branches of a first start are written at once
abbrev initial : Map Branch → StateFile × Option Fault → Result LoadError Store
initial m (file, none) = ok (opened m file)
initial m (file, some f) = err (persist_initial f)

abbrev opened_from : FileIo → ℕ → StateFile → Option (List Branch) → Result LoadError Store
opened_from io now file none =
    let m = default_branch_map now in initial m (persist_state_file io (snapshot m) file)
opened_from io now file (some l) = do m ← branch_map_from_snapshot l; ok (opened m file)

-- `NewPersistentStoreWithClock`
unfoldable pub new_persistent_store : FileIo → ℕ → Text → StateFile → Result LoadError Store
unfolding branch_map_from_snapshot
new_persistent_store io now data_dir file =
    if is_empty (trim_space data_dir)
    then err dir_required
    else (do l ← load_persisted_state file; opened_from io now file l)
