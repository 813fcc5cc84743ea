-- ===== src/Attachment/Resolve.antt =====
-- internal/server/branch_attachment.go: the client of the pageserver and the resolver that gives a
-- branch a timeline. Each method runs under the resolver's mutex.
use neon_selfhost.Prelude.{
  ℕ, zero, suc, Text, codes, Bool, true, false, List, [], ◌∷◌, Result, ok, err, is_empty, text_eq,
  length, ◌||◌, if◌then◌else◌,
}
use neon_selfhost.Prelude.Case.{to_lower}
use neon_selfhost.Prelude.Trim.{trim_space}
use neon_selfhost.Prelude.Map.{keys, contains}
use neon_selfhost.Branch.Types.{Branch, Error, not_found, protected, main}
use neon_selfhost.Branch.Store.{Store, get_active, set_attachment}
use neon_selfhost.Attachment.World.{
  Attachment, Cleanup, deleted, no_ids, delete_failed, AttachError, store_error, unavailable,
  history_unavailable, out_of_rounds, cycle, compensated, Server, World, Step, then_with, ◌>>=◌,
  ◌>>◌, give, answered, done_if, kept_ids, optional, has_attachment, attachment_of, next_io,
  later_io,
}

abbrev pub is_root : Text → Branch → Bool
is_root name b = text_eq name main || is_empty (trim_space b.parent)

-- One round for each branch of the store and one more, in which a visited branch is met.
abbrev pub rounds : {P : Type 0} → World P → ℕ
rounds w = suc (length (keys w.store.branches))

module _ {P : Type 0} (server : Server P) where
  unfoldable pub list_tenants : Step P (List Text)
  list_tenants w = then_with (λ ids. give (kept_ids ids)) (answered w (server.tenants w.server))

  unfoldable pub list_timelines : Text → Step P (List Text)
  list_timelines tenant w =
      then_with (λ ids. give (kept_ids ids)) (answered w (server.timelines tenant w.server))

  abbrev pub random_hex_id : Step P Text
  random_hex_id w = answered w (server.random_id w.server)

  abbrev pub create_tenant : Text → Step P Unit
  create_tenant tenant w = done_if w (server.put_tenant tenant w.server)

  -- a blank ancestor or LSN is left out of the request
  unfoldable pub create_timeline : Text → Text → Text → Text → Step P Unit
  create_timeline tenant id ancestor lsn w =
      done_if w (server.post_timeline tenant id (optional ancestor) (optional lsn) w.server)

  unfoldable pub first_or_new_tenant : List Text → Step P Text
  unfolding create_tenant
  first_or_new_tenant (id ∷ ids) = give id
  first_or_new_tenant [] = do id ← random_hex_id; create_tenant id; give id

  -- the flag says that the timeline is new
  unfoldable pub first_or_new_timeline : Text → List Text → Step P (Attachment × Bool)
  first_or_new_timeline tenant (id ∷ ids) =
      give (record { tenant_id = tenant; timeline_id = id }, false)
  first_or_new_timeline tenant [] = do
    id ← random_hex_id
    create_timeline tenant id [] []
    give (record { tenant_id = tenant; timeline_id = id }, true)

  unfoldable pub ensure_main_attachment : Step P (Attachment × Bool)
  ensure_main_attachment = do
    tenants ← list_tenants
    tenant ← first_or_new_tenant tenants
    timelines ← list_timelines tenant
    first_or_new_timeline tenant timelines

  abbrev pub cleaned : World P → P × Bool → World P × Cleanup
  cleaned w (p, false) = (record w { server = p }, delete_failed)
  cleaned w (p, true) = (record w { server = p }, deleted)

  unfoldable pub delete_timeline_error : Attachment → World P → World P × Cleanup
  delete_timeline_error a w =
      let tenant = trim_space a.tenant_id in
      let timeline = trim_space a.timeline_id in
      if is_empty tenant || is_empty timeline
      then (w, no_ids)
      else cleaned w (server.delete tenant timeline w.server)

  abbrev pub compensating : Error → World P × Cleanup → World P × Result AttachError Attachment
  compensating e (w, c) = (w, err (compensated e c))

  abbrev pub stored :
      Attachment
      → Bool
      → World P
      → Store × Result Error Branch
      → World P × Result AttachError Attachment
  stored a created w (s, ok b) = (record w { store = s; disk = later_io w.disk }, ok a)
  stored a created w (s, err e) =
      let w' = record w { store = s; disk = later_io w.disk } in
      if created then compensating e (delete_timeline_error a w') else (w', err (store_error e))

  -- `SetAttachment`, and the deletion of a new timeline where it fails
  unfoldable pub record_attachment : Text → Attachment → Bool → Step P Attachment
  record_attachment name a created w =
      stored a created w (set_attachment (next_io w.disk) name a.tenant_id a.timeline_id w.store)

  unfoldable pub attach_root : Text → Step P Attachment
  attach_root name = do (a, created) ← ensure_main_attachment; record_attachment name a created

  -- a timeline that branches off the parent's
  unfoldable pub branch_off : Attachment → Text → Step P Attachment
  branch_off parent lsn = do
    id ← random_hex_id
    create_timeline parent.tenant_id id parent.timeline_id lsn
    give (record { tenant_id = parent.tenant_id; timeline_id = id })

  unfoldable pub attach_child : Text → Step P Attachment → Step P Attachment
  attach_child name of_parent = do
    parent ← of_parent
    a ← branch_off parent []
    record_attachment name a true

  abbrev pub resolve_found :
      (Text → Step P Attachment)
      → Text
      → World P
      → Result Error Branch
      → World P × Result AttachError Attachment
  resolve_found again name w (err e) = (w, err (store_error e))
  resolve_found again name w (ok b) =
      if has_attachment b
      then (w, ok (attachment_of b))
      else if is_root name b
      then attach_root name w
      else attach_child name (again (trim_space b.parent)) w

  -- `visiting` is the set of the branches that wait for the attachment of an ancestor.
  unfoldable pub resolve_locked : ℕ → Text → List Text → Step P Attachment
  resolve_locked zero name visiting w = (w, err out_of_rounds)
  resolve_locked (suc n) name visiting w =
      if contains name visiting
      then (w, err (cycle name))
      else resolve_found (λ parent. resolve_locked n parent (name ∷ visiting)) name w
          (get_active name w.store)

  unfoldable pub resolve : Text → Step P Attachment
  unfolding resolve_locked trim_space
  resolve name w =
      let name' = trim_space name in
      if is_empty name'
      then (w, err (store_error not_found))
      else resolve_locked (rounds w) name' [] w

  abbrev pub reset_found :
      Text → World P → Result Error Branch → World P × Result AttachError Attachment
  reset_found name w (err e) = (w, err (store_error e))
  reset_found name w (ok b) =
      if is_root name b
      then (w, err (store_error protected))
      else (do parent ← resolve_locked (rounds w) (trim_space b.parent) []; branch_off parent []) w

  -- `ResolveReset`: a new timeline off the parent's; the store keeps the old attachment.
  unfoldable pub resolve_reset : Text → Step P Attachment
  unfolding resolve_locked trim_space
  resolve_reset name w =
      let name' = trim_space name in
      if is_empty name'
      then (w, err (store_error not_found))
      else reset_found name' w (get_active name' w.store)

  abbrev pub lsn_by_timestamp : Attachment → ℕ → Step P (Text × Text)
  lsn_by_timestamp a at w =
      then_with (λ (kind, lsn). give (trim_space kind, trim_space lsn))
        (answered w (server.lsn_at a.tenant_id a.timeline_id at w.server))

  unfoldable pub restore_from : Attachment → Text × Text → Step P (Attachment × Text)
  unfolding trim_space
  restore_from source (kind, lsn) w =
      let k = to_lower (trim_space kind) in
      if text_eq k (codes "present") || text_eq k (codes "future")
      then (if is_empty (trim_space lsn)
          then (w, err unavailable)
          else (do a ← branch_off source lsn; give (a, lsn)) w)
      else if text_eq k (codes "past") || text_eq k (codes "nodata")
      then (w, err history_unavailable)
      else (w, err unavailable)

  -- `ResolveRestore`: a new timeline off the source's, at the LSN of a time.
  unfoldable pub resolve_restore : Text → ℕ → Step P (Attachment × Text)
  unfolding resolve restore_from
  resolve_restore name at = do
    source ← resolve name
    found ← lsn_by_timestamp source at
    restore_from source found
