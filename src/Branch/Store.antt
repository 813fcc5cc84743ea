-- ===== src/Branch/Store.antt =====
-- internal/branch/store.go: the store and its operations. Each runs under the store's mutex, so an
-- operation is one step from store to store. `io` is what the file system answers during the
-- step, `now` what the clock gives if it is read.
pub mod Ops
pub mod WellFormed
pub mod Outcome
pub mod Invariant
pub mod Effect
pub mod Reads
pub mod Endpoints
use neon_selfhost.Prelude.{
  ℕ, Text, Bool, true, false, Option, none, some, List, [], ◌∷◌, Result, ok, err, is_empty, text_eq,
  ◌&&◌, ◌||◌, not, if◌then◌else◌,
}
use neon_selfhost.Prelude.Int.{ℤ, pos}
use neon_selfhost.Prelude.Trim.{trim_space}
use neon_selfhost.Prelude.Map.{Map, keys, lookup, put}
use neon_selfhost.Prelude.Sort.{sort}
use neon_selfhost.Branch.Types.{
  Branch, Fault, Error, already_exists, not_found, invalid_name, parent_missing, protected, main,
  zero_branch, classify_persist_error, default_branch_map, active, in_port_range,
}
use neon_selfhost.Branch.Snapshot.{snapshot, collect}
use neon_selfhost.Branch.File.{StateFile, absent, FileIo, persist_state_file}

-- `persistent` says whether the field `persist` is set, `close_fn` what `closeFn` will return.
pub record Store : Type 0 where
  pub branches : Map Branch
  pub persistent : Bool
  pub file : StateFile
  pub close_fn : Option Fault

unfoldable pub new_store : ℕ → Store
unfolding default_branch_map
new_store now = record {
  branches = default_branch_map now;
  persistent = false;
  file = absent;
  close_fn = none;
}

-- A second `Close` finds the function that returns nil.
unfoldable pub close : Store → Store × Option Fault
close s = (record s { close_fn = none }, s.close_fn)

pub active_names : Map Branch → List Text
active_names [] = []
active_names ((name, b) ∷ m) = if b.deleted then active_names m else name ∷ active_names m

unfoldable pub list_active : Store → List Branch
unfolding active_names
list_active s = collect s.branches (sort (active_names s.branches))

abbrev pub found : Option Branch → Result Error Branch
found none = err not_found
found (some b) = ok b

unfoldable pub get_active : Text → Store → Result Error Branch
unfolding active
get_active name s =
    let name' = trim_space name in
    if is_empty name' then err not_found else found (active name' s.branches)

abbrev swapped : Map Branch → Store → StateFile × Option Fault → Store × Option Fault
swapped next s (file, none) = (record s { file = file; branches = next }, none)
swapped next s (file, some f) = (record s { file = file }, some f)

unfoldable pub persist_and_swap : FileIo → Map Branch → Store → Store × Option Fault
persist_and_swap io next s =
    if s.persistent
    then swapped next s (persist_state_file io (snapshot next) s.file)
    else (record s { branches = next }, none)

abbrev replied : Branch → Store × Option Fault → Store × Result Error Branch
replied b (s, none) = (s, ok b)
replied b (s, some f) = (s, err (classify_persist_error f))

-- The end of every write: clone the map, set the entry, persist, swap.
unfoldable pub store_branch : FileIo → Text → Branch → Store → Store × Result Error Branch
unfolding persist_and_swap
store_branch io name b s = replied b (persist_and_swap io (put name b s.branches) s)

-- An update of an active branch.
abbrev pub updated :
    FileIo → Text → (Branch → Branch) → Option Branch → Store → Store × Result Error Branch
updated io name change none s = (s, err not_found)
updated io name change (some b) s = store_branch io name (change b) s

unfoldable pub set_attachment : FileIo → Text → Text → Text → Store → Store × Result Error Branch
set_attachment io name tenant_id timeline_id s =
    let name' = trim_space name in
    let tenant = trim_space tenant_id in
    let timeline = trim_space timeline_id in
    if is_empty name'
    then (s, err not_found)
    else if is_empty tenant || is_empty timeline
    then (s, err invalid_name)
    else updated io name' (λ b. record b { tenant_id = tenant; timeline_id = timeline })
        (active name' s.branches) s

pub set_password : FileIo → Text → Text → Store → Store × Result Error Branch
set_password io name password s =
    let name' = trim_space name in
    let password' = trim_space password in
    if is_empty name'
    then (s, err not_found)
    else if is_empty password'
    then (s, err invalid_name)
    else updated io name' (λ b. record b { password = password' }) (active name' s.branches) s

pub set_endpoint : FileIo → Text → Bool → ℤ → Store → Store × Result Error Branch
set_endpoint io name published port s =
    let name' = trim_space name in
    let port' = if published then port else pos 0 in
    if is_empty name'
    then (s, err not_found)
    else if published && not (in_port_range port)
    then (s, err invalid_name)
    else updated io name' (λ b. record b { endpoint_published = published; endpoint_port = port' })
        (active name' s.branches) s

-- `if parent == "" { parent = "main" }`
unfoldable pub parent_or_main : Text → Text
parent_or_main parent = let p = trim_space parent in if is_empty p then main else p

abbrev is_active : Option Branch → Bool
is_active none = false
is_active (some b) = true

unfoldable pub create_locked :
    FileIo → ℕ → Text → Text → Text → Text → Text → Store → Store × Result Error Branch
create_locked io now name parent tenant_id timeline_id password s =
    let name' = trim_space name in
    let parent' = parent_or_main parent in
    let created = record zero_branch {
      name = name';
      parent = parent';
      created_at = now;
      tenant_id = tenant_id;
      timeline_id = timeline_id;
      password = password;
    } in
    if is_empty name'
    then (s, err invalid_name)
    else if not (is_active (active parent' s.branches))
    then (s, err parent_missing)
    else if is_active (active name' s.branches)
    then (s, err already_exists)
    else store_branch io name' created s

unfoldable pub create : FileIo → ℕ → Text → Text → Store → Store × Result Error Branch
create io now name parent s = create_locked io now name parent [] [] [] s

pub create_with_password : FileIo → ℕ → Text → Text → Text → Store → Store × Result Error Branch
create_with_password io now name parent password s =
    let password' = trim_space password in
    if is_empty password'
    then (s, err invalid_name)
    else create_locked io now name parent [] [] password' s

pub create_with_attachment :
    FileIo → ℕ → Text → Text → Text → Text → Store → Store × Result Error Branch
create_with_attachment io now name parent tenant_id timeline_id s =
    let tenant = trim_space tenant_id in
    let timeline = trim_space timeline_id in
    if is_empty tenant || is_empty timeline
    then (s, err invalid_name)
    else create_locked io now name parent tenant timeline [] s

pub create_with_attachment_and_password :
    FileIo → ℕ → Text → Text → Text → Text → Text → Store → Store × Result Error Branch
create_with_attachment_and_password io now name parent tenant_id timeline_id password s =
    let tenant = trim_space tenant_id in
    let timeline = trim_space timeline_id in
    let password' = trim_space password in
    if is_empty tenant || is_empty timeline || is_empty password'
    then (s, err invalid_name)
    else create_locked io now name parent tenant timeline password' s

abbrev deleted_at : FileIo → ℕ → Text → Option Branch → Store → Store × Result Error Branch
deleted_at io now name none s = (s, err not_found)
deleted_at io now name (some b) s =
    if b.deleted
    then (s, ok b)
    else store_branch io name (record b { deleted = true; deleted_at = some now }) s

pub soft_delete : FileIo → ℕ → Text → Store → Store × Result Error Branch
soft_delete io now name s =
    let name' = trim_space name in
    if is_empty name'
    then (s, err not_found)
    else if text_eq name' main
    then (s, err protected)
    else deleted_at io now name' (lookup name' s.branches) s
