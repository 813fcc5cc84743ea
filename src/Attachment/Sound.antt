-- ===== src/Attachment/Sound.antt =====
-- internal/server/branch_attachment.go: what every method of the resolver keeps, whatever the
-- pageserver and the file system answer.
use neon_selfhost.Prelude.{
  ℕ, zero, suc, ◌<◌, ◌≡◌, refl, Text, true, Bool-cases, inl, inr, List, [], ◌∷◌, Result, ok, err,
  is_empty, arith,
}
use neon_selfhost.Prelude.Trim.{trim_space, trim_space_idem}
use neon_selfhost.Prelude.Map.{keys, contains, contains-keys}
use neon_selfhost.Branch.Types.{Branch, Error, active, not_found, protected}
use neon_selfhost.Branch.Store.{Store, get_active}
use neon_selfhost.Attachment.World.{
  Attachment, store_error, unavailable, history_unavailable, Server, World, Step, has_attachment,
  attachment_of,
}
use neon_selfhost.Attachment.Resolve.{
  resolve_locked, resolve_found, attach_root, attach_child, resolve, rounds, is_root, resolve_reset,
  reset_found, resolve_restore, restore_from,
}
use neon_selfhost.Attachment.Rounds.{fresh, fresh-nil, fresh_fewer}
use neon_selfhost.Attachment.Steps.{
  IsSound, given, failed, then_with-IsSound, if-IsSound, answered-IsSound, branch_off-IsSound,
  ensure_main_attachment-IsSound, record_attachment-IsSound,
}

module _ {P : Type 0} (server : Server P) where
  attach_root-IsSound : (name : Text) (w : World P) → IsSound w (attach_root server name w)
  unfolding attach_root
  attach_root-IsSound name w =
      then_with-IsSound _ w _ (ensure_main_attachment-IsSound server w)
        (λ (a, created) v. record_attachment-IsSound server name a created v)

  attach_child-IsSound :
      (name : Text) (of_parent : Step P Attachment) (w : World P)
      → IsSound w (of_parent w)
      → IsSound w (attach_child server name of_parent w)
  unfolding attach_child
  attach_child-IsSound name of_parent w h = then_with-IsSound _ w _ h (λ parent v.
      then_with-IsSound _ v _ (branch_off-IsSound server parent [] v)
        (λ a u. record_attachment-IsSound server name a true u))

  get_active-known :
      (name : Text) (s : Store) (b : Branch)
      → trim_space name ≡ name
      → get_active name s ≡ ok b
      → contains name (keys s.branches) ≡ true
  unfolding get_active active
  get_active-known name s b t h = ground (arith, contains-keys name s.branches)

  resolve_found-IsSound :
      (again : Text → Step P Attachment) (name : Text) (w : World P) (r : Result Error Branch)
      → ((b : Branch) → r ≡ ok b → IsSound w (again (trim_space b.parent) w))
      → IsSound w (resolve_found server again name w r)
  resolve_found-IsSound again name w (err e) h = failed w _ refl
  resolve_found-IsSound again name w (ok b) h =
      if-IsSound (has_attachment b) w _ _ (given w (attachment_of b)) (
        if-IsSound (is_root name b) w _ _ (attach_root-IsSound name w)
          (attach_child-IsSound name (again (trim_space b.parent)) w (h b refl)))

  resolve_locked-IsSound :
      (n : ℕ) (name : Text) (visiting : List Text) (w : World P)
      → trim_space name ≡ name
      → fresh visiting (keys w.store.branches) < n
      → IsSound w (resolve_locked server n name visiting w)
  unfolding resolve_locked
  resolve_locked-IsSound zero name visiting w t h = absurd (omega arith)
  resolve_locked-IsSound (suc n) name visiting w t h = elim (Bool-cases (contains name visiting)) [
    | inl seen ↦ rw seen (failed w _ refl)
    | inr new ↦ rw new (
        resolve_found-IsSound (λ parent. resolve_locked server n parent (name ∷ visiting)) name w
          (get_active name w.store)
          (λ b got.
            resolve_locked-IsSound n (trim_space b.parent) (name ∷ visiting) w
              (trim_space_idem b.parent)
              (omega (
                arith,
                fresh_fewer name visiting (keys w.store.branches)
                    (get_active-known name w.store b t got) new,
              ))))
  ]

  rounds_suffice :
      (name : Text) (w : World P)
      → trim_space name ≡ name
      → IsSound w (resolve_locked server (rounds w) name [] w)
  rounds_suffice name w t =
      resolve_locked-IsSound (rounds w) name [] w t
        (omega (arith, fresh-nil (keys w.store.branches)))

  pub resolve-IsSound : (name : Text) (w : World P) → IsSound w (resolve server name w)
  unfolding resolve
  resolve-IsSound name w =
      if-IsSound (is_empty (trim_space name)) w _ _ (failed w (store_error not_found) refl)
        (rounds_suffice (trim_space name) w (trim_space_idem name))

  reset_found-IsSound :
      (name : Text) (w : World P) (r : Result Error Branch)
      → IsSound w (reset_found server name w r)
  reset_found-IsSound name w (err e) = failed w _ refl
  reset_found-IsSound name w (ok b) =
      if-IsSound (is_root name b) w _ _ (failed w (store_error protected) refl) (
        then_with-IsSound _ w _ (rounds_suffice (trim_space b.parent) w (trim_space_idem b.parent))
          (λ parent v. branch_off-IsSound server parent [] v))

  pub resolve_reset-IsSound : (name : Text) (w : World P) → IsSound w (resolve_reset server name w)
  unfolding resolve_reset
  resolve_reset-IsSound name w =
      if-IsSound (is_empty (trim_space name)) w _ _ (failed w (store_error not_found) refl)
        (reset_found-IsSound (trim_space name) w (get_active (trim_space name) w.store))

  restore_from-IsSound :
      (source : Attachment) (kind lsn : Text) (w : World P)
      → IsSound w (restore_from server source (kind, lsn) w)
  unfolding restore_from
  restore_from-IsSound source kind lsn w =
      if-IsSound _ w _ _
        (if-IsSound (is_empty (trim_space lsn)) w _ _ (failed w unavailable refl) (
          then_with-IsSound _ w _ (branch_off-IsSound server source lsn w)
            (λ a v. given v (a, lsn))))
        (if-IsSound _ w _ _ (failed w history_unavailable refl) (failed w unavailable refl))

  pub resolve_restore-IsSound :
      (name : Text) (at : ℕ) (w : World P) → IsSound w (resolve_restore server name at w)
  unfolding resolve_restore
  resolve_restore-IsSound name at w = then_with-IsSound _ w _ (resolve-IsSound name w) (λ source v.
      then_with-IsSound _ v _
        (then_with-IsSound _ v _
          (answered-IsSound v (server.lsn_at source.tenant_id source.timeline_id at v.server))
          (λ (kind, lsn) u. given u (trim_space kind, trim_space lsn)))
        (λ (kind, lsn) u. restore_from-IsSound source kind lsn u))
