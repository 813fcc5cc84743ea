-- ===== src/Tests/Attachments.antt =====
-- internal/server/branch_attachment.go: a pageserver that lists its timelines, a chain of branches,
-- and a disk that is full when the child is recorded.
use neon_selfhost.Prelude.{
  ℕ, ◌+◌, ◌≡◌, refl, Text, codes, Bool, true, false, some, List, [], ◌∷◌, ok, err, text_eq,
}
use neon_selfhost.Prelude.Trim.{trim_space}
use neon_selfhost.Prelude.Map.{put, contains}
use neon_selfhost.Branch.Types.{
  enospc, no_space, main, default_branch_map, active, classify_persist_error,
}
use neon_selfhost.Branch.Snapshot.{snapshot}
use neon_selfhost.Branch.File.{FileIo, healthy, holds, persist_state_file, load_persisted_state}
use neon_selfhost.Branch.Load.{new_persistent_store, opened}
use neon_selfhost.Branch.Load.Open.{first_start-IsSafe}
use neon_selfhost.Branch.Store.{
  Store, get_active, set_attachment, store_branch, persist_and_swap, create, create_locked,
  parent_or_main,
}
use neon_selfhost.Branch.Store.Ops.{Op, apply}
use neon_selfhost.Branch.Store.Invariant.{IsSafe, apply-IsSafe}
use neon_selfhost.Attachment.World.{Attachment, Server, World, kept_ids, give, compensated, deleted}
use neon_selfhost.Attachment.Resolve.{
  resolve, resolve_reset, resolve_restore, resolve_locked, attach_root, ensure_main_attachment,
  list_tenants, list_timelines, first_or_new_tenant, first_or_new_timeline, create_timeline,
  record_attachment, attach_child,
}
use neon_selfhost.Attachment.Safe.{IsResolved, resolver-IsResolved}
use neon_selfhost.Attachment.Undo.{IsUndone, attach_child-undone}
use neon_selfhost.Attachment.Again.{resolve_again}
use neon_selfhost.Attachment.Recorded.{trimmed}

-- The timelines of the one tenant, and the number of ids that were drawn.
record Fake : Type 0 where
  timelines : List Text
  drawn : ℕ

without : Text → List Text → List Text
without id [] = []
without id (i ∷ is) = let rest = without id is in if_same (text_eq i id) i rest
  where
    if_same : Bool → Text → List Text → List Text
    if_same true i rest = rest
    if_same false i rest = i ∷ rest

abbrev fake : Server Fake
fake = record {
  tenants = λ p. (p, some (codes " t " ∷ []));
  put_tenant = λ t p. (p, true);
  timelines = λ t p. (p, some p.timelines);
  post_timeline = λ t id a l p. (record p { timelines = id ∷ p.timelines }, true);
  delete = λ t id p. (record p { timelines = without id p.timelines }, true);
  lsn_at = λ t id at p. (p, some (codes "present", codes "0/16"));
  random_id = λ p. (record p { drawn = p.drawn + 1 }, some ((97 + p.drawn) ∷ []));
}

abbrev store : Store
store = opened (default_branch_map 5) (holds (snapshot (default_branch_map 5)))

store-IsSafe : IsSafe store
store-IsSafe =
    (first_start-IsSafe healthy 5 (codes "/data") store
      (unfold new_persistent_store load_persisted_state persist_state_file trim_space in refl)).0

-- `main` and a child of it
abbrev family : Store
family = (apply (Op.create (codes "dev") (codes "main")) healthy 6 store).0

abbrev world : World Fake
world = record { store = family; server = record { timelines = []; drawn = 0 }; disk = [] }

resolver-IsResolved_example :
    IsResolved world (resolve fake (codes "dev") world)
    × IsResolved world (resolve_reset fake (codes "dev") world)
    × IsResolved world (resolve_restore fake (codes "dev") 9 world)
resolver-IsResolved_example =
    resolver-IsResolved fake (codes "dev") 9 world
      (apply-IsSafe (Op.create (codes "dev") (codes "main")) healthy 6 store store-IsSafe)

abbrev alone : World Fake
alone = record world { store = store }

abbrev first : Attachment
first = record { tenant_id = codes "t"; timeline_id = codes "a" }

attaches_main : (resolve fake main alone).1 ≡ ok first
unfolding resolve resolve_locked attach_root ensure_main_attachment list_tenants list_timelines
    first_or_new_tenant first_or_new_timeline create_timeline record_attachment kept_ids trim_space
    contains get_active active set_attachment store_branch persist_and_swap persist_state_file
    default_branch_map text_eq
attaches_main = refl

resolve_again_example :
    (a : Attachment) × (resolve fake main (resolve fake main alone).0
      ≡ ((resolve fake main alone).0, ok a))
    × (trimmed a ≡ trimmed first)
resolve_again_example = resolve_again fake main first alone attaches_main

abbrev full_disk : FileIo
full_disk = record healthy { write = some enospc }

-- `dev` cannot be recorded under the timeline that is made for it
abbrev full : World Fake
full = record {
  store = family;
  server = record { timelines = codes "a" ∷ []; drawn = 1 };
  disk = full_disk ∷ [];
}

abbrev drawn_again : Fake
drawn_again = record { timelines = codes "a" ∷ []; drawn = 2 }

taken_back :
    IsUndone fake first
      (codes "b")
      full.server
      drawn_again
      (record drawn_again { timelines = codes "b" ∷ codes "a" ∷ [] })
unfolding trim_space without text_eq
taken_back = record {
  drawn = refl;
  made = refl;
  unmade = refl;
  named_tenant = refl;
  named_id = refl;
}

not_recorded :
    (set_attachment full_disk (codes "dev") (codes "t") (codes "b") family).1
    ≡ err (no_space enospc)
unfolding set_attachment store_branch persist_and_swap persist_state_file default_branch_map text_eq
    trim_space active apply create create_locked parent_or_main classify_persist_error put
not_recorded = refl

attach_child-undone_example :
    attach_child fake (codes "dev") (give first) full
    ≡ (record full { server = drawn_again; disk = [] }, err (compensated (no_space enospc) deleted))
attach_child-undone_example =
    attach_child-undone fake first (codes "b") full.server drawn_again
      (record drawn_again { timelines = codes "b" ∷ codes "a" ∷ [] }) taken_back (codes "dev") full
      (no_space enospc)
      (apply-IsSafe (Op.create (codes "dev") (codes "main")) healthy 6 store store-IsSafe) refl
      not_recorded
