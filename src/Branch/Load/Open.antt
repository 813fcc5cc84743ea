-- ===== src/Branch/Load/Open.antt =====
-- Opening a state file: the first start, and a restart after any run.
use neon_selfhost.Prelude.{
  ℕ, Text, true, false, Option, none, some, List, ok, ◌≡◌, refl, sym, ap, arith, is_empty,
}
use neon_selfhost.Prelude.Trim.{trim_space}
use neon_selfhost.Prelude.Map.{Map, lookup}
use neon_selfhost.Branch.Types.{Branch, Fault, default_branch_map}
use neon_selfhost.Branch.Snapshot.{snapshot, snapshot_order_free}
use neon_selfhost.Branch.File.{
  StateFile, absent, holds, FileIo, persist_state_file, persist_state_file-writes,
  load_persisted_state,
}
use neon_selfhost.Branch.Store.{Store}
use neon_selfhost.Branch.Store.Ops.{Call, run}
use neon_selfhost.Branch.Store.WellFormed.{IsWellFormed, default_branch_map-IsWellFormed}
use neon_selfhost.Branch.Store.Invariant.{IsSafe, run-IsSafe, run-persistent}
use neon_selfhost.Branch.Load.{branch_map_from_snapshot, opened, initial, new_persistent_store}
use neon_selfhost.Branch.Load.Restart.{branch_map_from_snapshot-snapshot}

initial-IsSafe :
    (m : Map Branch) (r : StateFile × Option Fault) (s : Store)
    → IsWellFormed m
    → (r.1 ≡ none → r.0 ≡ holds (snapshot m))
    → initial m r ≡ ok s
    → IsSafe s × (s.persistent ≡ true)
initial-IsSafe m (file, none) s w writes h =
    let e : opened m file ≡ s = cc in
    rw (← e) (record { shape = w; durable = λ _. writes refl }, refl)
initial-IsSafe m (file, some f) s w writes h = absurd (cc)

-- Where there is no state file yet, a store that opens is safe and persistent: the default
-- branches are in the file.
pub first_start-IsSafe :
    (io : FileIo) (now : ℕ) (data_dir : Text) (s : Store)
    → new_persistent_store io now data_dir absent ≡ ok s
    → IsSafe s × (s.persistent ≡ true)
unfolding new_persistent_store load_persisted_state
first_start-IsSafe io now data_dir s h =
    let m = default_branch_map now in
    initial-IsSafe m (persist_state_file io (snapshot m) absent) s
      (default_branch_map-IsWellFormed now) (persist_state_file-writes io (snapshot m) absent)
      (ground arith)

-- What a store and its successor after a restart have in common.
pub record IsRestartOf (s t : Store) : Type 0 where
  pub same : (k : Text) → lookup k t.branches ≡ lookup k s.branches
  pub same_file : t.file ≡ s.file
  pub safe : IsSafe t

reopened :
    (io : FileIo) (now : ℕ) (data_dir : Text) (l : List Branch) (n : Map Branch)
    → is_empty (trim_space data_dir) ≡ false
    → branch_map_from_snapshot l ≡ ok n
    → new_persistent_store io now data_dir (holds l) ≡ ok (opened n (holds l))
unfolding new_persistent_store load_persisted_state
reopened io now data_dir l n named loaded = rw (named, loaded)

-- From a safe persistent store with a data directory that is not blank, after any sequence of
-- writing operations with any answers of the file system, opening the file it leaves succeeds,
-- and gives a safe store with the same file and the same branches under every name.
pub restart-run :
    (io : FileIo) (now : ℕ) (data_dir : Text) (s : Store) (cs : List Call)
    → is_empty (trim_space data_dir) ≡ false
    → IsSafe s
    → s.persistent ≡ true
    → (t : Store) × (new_persistent_store io now data_dir (run s cs).file ≡ ok t)
      × IsRestartOf (run s cs) t
restart-run io now data_dir s cs named safe on =
    let s' = run s cs in
    let safe' : IsSafe s' = run-IsSafe cs s safe in
    let m = s'.branches in
    let (n, loaded, same, w) = branch_map_from_snapshot-snapshot m safe'.shape in
    let file : s'.file ≡ holds (snapshot m) = safe'.durable (run-persistent cs s safe on) in
    let snap : snapshot m ≡ snapshot n =
      snapshot_order_free m n safe'.shape.distinct w.distinct (λ k. sym (same k)) in
    (
      opened n (holds (snapshot m)),
      rw file (reopened io now data_dir (snapshot m) n named loaded),
      record {
        same = same;
        same_file = sym file;
        safe = record { shape = w; durable = λ _. ap holds snap };
      },
    )
