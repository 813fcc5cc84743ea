-- ===== src/Tests/BranchStore.antt =====
-- internal/branch: a store on disk, its first start, writes that work and that fail, a restart.
use neon_selfhost.Prelude.{
  Text, codes, ◌≡◌, refl, true, some, List, [], ◌∷◌, ok, err, is_ok, is_some, is_empty, text_eq,
  text_eq_iff, not, ◌&&◌, arith,
}
use neon_selfhost.Prelude.Int.{pos}
use neon_selfhost.Prelude.Map.{Map, lookup, contains, Distinct}
use neon_selfhost.Prelude.Sort.{IsSorted}
use neon_selfhost.Prelude.Trim.{trim_space}
use neon_selfhost.Branch.Types.{
  Branch, enospc, main, main_branch, default_branch_map, active, no_space, classify_persist_error,
}
use neon_selfhost.Branch.Snapshot.{snapshot, snapshot_order_free}
use neon_selfhost.Branch.File.{
  absent, holds, FileIo, healthy, persist_state_file, load_persisted_state,
}
use neon_selfhost.Branch.Store.{
  Store, new_store, create, list_active, get_active, parent_or_main, create_locked, store_branch,
  persist_and_swap,
}
use neon_selfhost.Branch.Store.Ops.{Op, Call, apply, run}
use neon_selfhost.Branch.Store.WellFormed.{IsWellFormed, default_branch_map-IsWellFormed}
use neon_selfhost.Branch.Store.Invariant.{IsSafe, apply-IsSafe, apply_error_keeps_store}
use neon_selfhost.Branch.Store.Effect.{WritesOne, target, apply-WritesOne}
use neon_selfhost.Branch.Store.Reads.{
  names_of, find_branch, list_active-exact, create-is_ok_iff, main_stays_active,
}
use neon_selfhost.Branch.Load.{new_persistent_store, opened, branch_map_from_snapshot}
use neon_selfhost.Branch.Load.Restart.{branch_map_from_snapshot-snapshot}
use neon_selfhost.Branch.Load.Open.{IsRestartOf, first_start-IsSafe, restart-run}

abbrev dir : Text
dir = codes "/data"

abbrev store : Store
store = opened (default_branch_map 5) (holds (snapshot (default_branch_map 5)))

first_start : new_persistent_store healthy 5 dir absent ≡ ok store
unfolding new_persistent_store load_persisted_state persist_state_file trim_space
first_start = refl

store-IsSafe : IsSafe store × (store.persistent ≡ true)
store-IsSafe = first_start-IsSafe healthy 5 dir store first_start

abbrev full_disk : FileIo
full_disk = record healthy { write = some enospc }

abbrev dev : Op
dev = Op.create (codes " dev ") (codes "")

abbrev script : List Call
script =
    record { op = dev; io = healthy; now = 6 }
    ∷ record { op = Op.set_endpoint (codes "dev") true (pos 56000); io = healthy; now = 7 }
    ∷ record { op = Op.create (codes "lost") (codes "dev"); io = full_disk; now = 8 }
    ∷ record { op = Op.soft_delete (codes "main"); io = healthy; now = 9 }
    ∷ []

restart-run_example :
    (t : Store) × (new_persistent_store healthy 10 dir (run store script).file ≡ ok t)
    × IsRestartOf (run store script) t
restart-run_example =
    restart-run healthy 10 dir store script (unfold trim_space in refl) store-IsSafe.0 refl

apply-IsSafe_example : IsSafe (apply dev healthy 6 store).0
apply-IsSafe_example = apply-IsSafe dev healthy 6 store store-IsSafe.0

disk_is_full : (apply dev full_disk 6 store).1 ≡ err (no_space enospc)
unfolding apply create trim_space create_locked store_branch persist_and_swap persist_state_file
    active default_branch_map text_eq parent_or_main classify_persist_error
disk_is_full = refl

apply_error_keeps_store_example : (apply dev full_disk 6 store).0 ≡ store
apply_error_keeps_store_example =
    apply_error_keeps_store dev full_disk 6 store (no_space enospc) store-IsSafe.0 disk_is_full

apply-WritesOne_example : WritesOne store (target dev) (apply dev healthy 6 store)
apply-WritesOne_example = apply-WritesOne healthy store dev 6

list_active-exact_example :
    ((k : Text) → find_branch k (list_active store) ≡ active k store.branches)
    × IsSorted (names_of (list_active store))
    × Distinct (names_of (list_active store))
list_active-exact_example = list_active-exact store store-IsSafe.0

create-is_ok_iff_example : is_ok (create healthy 6 (codes "dev") (codes "") (new_store 5)).1 ≡ (
    not (is_empty (trim_space (codes "dev")))
    && is_some (active (parent_or_main (codes "")) (new_store 5).branches)
    && not (is_some (active (trim_space (codes "dev")) (new_store 5).branches)))
create-is_ok_iff_example =
    create-is_ok_iff healthy 6 (codes "dev") (codes "") (new_store 5) (unfold new_store in refl)

main_stays_active_example :
    (b : Branch) × (get_active main (run store script) ≡ ok b) × (b.name ≡ main)
main_stays_active_example = main_stays_active store script store-IsSafe.0

abbrev two : Map Branch
two =
    (main, main_branch 5)
    ∷ (codes "dev", record (main_branch 6) { name = codes "dev"; parent = main })
    ∷ []

abbrev two_swapped : Map Branch
two_swapped =
    (codes "dev", record (main_branch 6) { name = codes "dev"; parent = main })
    ∷ (main, main_branch 5)
    ∷ []

snapshot_order_free_example : snapshot two ≡ snapshot two_swapped
unfolding contains lookup text_eq
snapshot_order_free_example =
    snapshot_order_free two two_swapped (refl, (refl, tt)) (refl, (refl, tt))
      (λ k. ground (arith, text_eq_iff k main, text_eq_iff k (codes "dev")))

branch_map_from_snapshot-snapshot_example :
    (n : Map Branch) × (branch_map_from_snapshot (snapshot (default_branch_map 5)) ≡ ok n)
    × ((k : Text) → lookup k n ≡ lookup k (default_branch_map 5))
    × IsWellFormed n
branch_map_from_snapshot-snapshot_example =
    branch_map_from_snapshot-snapshot (default_branch_map 5) (default_branch_map-IsWellFormed 5)
