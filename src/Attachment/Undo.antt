-- ===== src/Attachment/Undo.antt =====
-- internal/server/branch_attachment.go: a new timeline whose branch cannot be recorded is deleted.
use neon_selfhost.Prelude.{◌≡◌, refl, Text, true, false, none, some, [], Result, ok, err, is_empty}
use neon_selfhost.Prelude.Trim.{trim_space}
use neon_selfhost.Branch.Types.{Branch, Error}
use neon_selfhost.Branch.Store.{Store, set_attachment}
use neon_selfhost.Branch.Store.Ops.{Op, apply}
use neon_selfhost.Branch.Store.Invariant.{IsSafe, apply_error_keeps_store}
use neon_selfhost.Attachment.World.{
  Attachment, compensated, deleted, Server, World, give, optional, next_io, later_io,
}
use neon_selfhost.Attachment.Resolve
use neon_selfhost.Attachment.Resolve.{
  attach_child, branch_off, create_timeline, record_attachment, delete_timeline_error,
}

-- The server makes a timeline under a fresh id, and a deletion takes it back.
pub record IsUndone {P : Type 0} (server : Server P) (parent : Attachment) (id : Text) (p q r : P)
    : Type 0 where
  pub drawn : server.random_id p ≡ (q, some id)
  pub made :
      server.post_timeline parent.tenant_id id (optional parent.timeline_id) none q ≡ (r, true)
  pub unmade : server.delete (trim_space parent.tenant_id) (trim_space id) r ≡ (q, true)
  pub named_tenant : is_empty (trim_space parent.tenant_id) ≡ false
  pub named_id : is_empty (trim_space id) ≡ false

module _ {P : Type 0} (server : Server P) (parent : Attachment) (id : Text) (p q r : P)
    (u : IsUndone server parent id p q r) where
  abbrev made_at : Attachment
  made_at = record { tenant_id = parent.tenant_id; timeline_id = id }

  delete-made :
      (w : World P)
      → w.server ≡ r
      → delete_timeline_error server made_at w ≡ (record w { server = q }, deleted)
  unfolding delete_timeline_error
  delete-made w h = rw (u.named_tenant, u.named_id, h, u.unmade) refl

  branch_off-made :
      (w : World P)
      → w.server ≡ p
      → branch_off server parent [] w ≡ (record w { server = r }, ok made_at)
  unfolding branch_off create_timeline trim_space
  branch_off-made w h = rw (h, u.drawn, u.made) refl

  stored-undone :
      (w : World P) (e : Error) (x : Store × Result Error Branch)
      → w.server ≡ r
      → x.0 ≡ w.store
      → x.1 ≡ err e
      → Resolve.stored server made_at true w x
        ≡ (record w { server = q; disk = later_io w.disk }, err (compensated e deleted))
  stored-undone w e (s, ok b) h kept refused = absurd (cc)
  stored-undone w e (s, err d) h kept refused =
      let same : d ≡ e = cc in
      rw (delete-made (record w { store = s; disk = later_io w.disk }) h, kept, same) refl

  record-undone :
      (name : Text) (w : World P) (e : Error)
      → IsSafe w.store
      → w.server ≡ r
      → (set_attachment (next_io w.disk) name parent.tenant_id id w.store).1 ≡ err e
      → record_attachment server name made_at true w
        ≡ (record w { server = q; disk = later_io w.disk }, err (compensated e deleted))
  unfolding record_attachment apply
  record-undone name w e safe h refused =
      stored-undone w e (set_attachment (next_io w.disk) name parent.tenant_id id w.store) h
        (apply_error_keeps_store (Op.set_attachment name parent.tenant_id id) (next_io w.disk) 0
          w.store e safe refused)
        refused

  -- Where a pageserver makes a timeline and its deletion takes it back, a child whose ids a safe
  -- store refuses to record leaves no timeline behind and the store as it was, and the error is
  -- that of the store with a deletion that succeeded.
  pub attach_child-undone :
      (name : Text) (w : World P) (e : Error)
      → IsSafe w.store
      → w.server ≡ p
      → (set_attachment (next_io w.disk) name parent.tenant_id id w.store).1 ≡ err e
      → attach_child server name (give parent) w
        ≡ (record w { server = q; disk = later_io w.disk }, err (compensated e deleted))
  unfolding attach_child
  attach_child-undone name w e safe h refused =
      rw (branch_off-made w h) (record-undone name (record w { server = r }) e safe refl refused)
