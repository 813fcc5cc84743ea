-- ===== src/Attachment/Again.antt =====
-- internal/server/branch_attachment.go: a branch that was resolved is attached.
use neon_selfhost.Prelude.{
  ℕ, suc, length, ◌∷◌, ◌≡◌, refl, ap, Text, Bool, true, false, Bool-cases, inl, inr, [], Result, ok,
  err, if◌then◌else◌, is_empty, arith,
}
use neon_selfhost.Prelude.Trim.{trim_space, trim_space_idem}
use neon_selfhost.Prelude.Map.{keys, contains}
use neon_selfhost.Branch.Types.{Branch, Error}
use neon_selfhost.Branch.Store.{Store, get_active}
use neon_selfhost.Attachment.World.{
  Attachment, AttachError, Server, World, Step, then_with, has_attachment, attachment_of, next_io,
  later_io, Cleanup, store_error,
}
use neon_selfhost.Attachment.Resolve
use neon_selfhost.Attachment.Resolve.{
  resolve, resolve_locked, resolve_found, attach_root, attach_child, record_attachment, is_root,
  rounds, ensure_main_attachment, branch_off, compensating, delete_timeline_error,
}
use neon_selfhost.Attachment.Recorded.{trimmed, IsAttached, set_attachment-IsAttached}

-- What a method returns is attached to the branch.
record Attaches {P : Type 0} (name : Text) (out : World P × Result AttachError Attachment)
    : Type 0 where
  at : (a : Attachment) → out.1 ≡ ok a → IsAttached name a out.0.store

module _ {P : Type 0} (name : Text) where
  refuses : (w : World P) (e : AttachError) → Attaches name (w, err e)
  refuses w e = record { at = λ a h. absurd (cc) }

  then_with-Attaches :
      {A : Type 0} (f : A → Step P Attachment) (x : World P × Result AttachError A)
      → ((a : A) (v : World P) → Attaches name (f a v))
      → Attaches name (then_with f x)
  then_with-Attaches f (w, ok a) h = h a w
  then_with-Attaches f (w, err e) h = refuses w e

  if-Attaches :
      (c : Bool) (x y : World P × Result AttachError Attachment)
      → (c ≡ true → Attaches name x)
      → Attaches name y
      → Attaches name (if c then x else y)
  if-Attaches true x y hx hy = hx refl
  if-Attaches false x y hx hy = hy

module _ {P : Type 0} (server : Server P) (name : Text) where
  compensating-Attaches :
      (e : Error) (x : World P × Cleanup) → Attaches name (compensating server e x)
  compensating-Attaches e (w, c) = refuses name w _

  stored-Attaches :
      (a : Attachment) (created : Bool) (w : World P) (r : Store × Result Error Branch)
      → ((b : Branch) → r.1 ≡ ok b → IsAttached name a r.0)
      → Attaches name (Resolve.stored server a created w r)
  stored-Attaches a created w (s, ok b) h = record {
    at = λ c eq. let same : a ≡ c = cc in rw (← same) (h b refl);
  }
  stored-Attaches a true w (s, err e) h =
      compensating-Attaches e
        (delete_timeline_error server a (record w { store = s; disk = later_io w.disk }))
  stored-Attaches a false w (s, err e) h = refuses name _ (store_error e)

  module _ (trim : trim_space name ≡ name) where
    record_attachment-Attaches :
        (a : Attachment) (created : Bool) (w : World P)
        → Attaches name (record_attachment server name a created w)
    unfolding record_attachment
    record_attachment-Attaches a created w =
        stored-Attaches a created w _
          (set_attachment-IsAttached (next_io w.disk) name a w.store trim)

    attach_root-Attaches : (w : World P) → Attaches name (attach_root server name w)
    unfolding attach_root
    attach_root-Attaches w =
        then_with-Attaches name _ (ensure_main_attachment server w)
          (λ (a, created) v. record_attachment-Attaches a created v)

    attach_child-Attaches :
        (of_parent : Step P Attachment) (w : World P)
        → Attaches name (attach_child server name of_parent w)
    unfolding attach_child
    attach_child-Attaches of_parent w = then_with-Attaches name _ (of_parent w) (λ parent v.
        then_with-Attaches name _ (branch_off server parent [] v)
          (λ a u. record_attachment-Attaches a true u))

    resolve_found-Attaches :
        (again : Text → Step P Attachment) (w : World P) (r : Result Error Branch)
        → get_active name w.store ≡ r
        → Attaches name (resolve_found server again name w r)
    resolve_found-Attaches again w (err e) h = refuses name w (store_error e)
    resolve_found-Attaches again w (ok b) h =
        if-Attaches name (has_attachment b) _ _
          (λ on. record {
            at = λ a eq.
                let same : attachment_of b ≡ a = cc in
                record { branch = b; found = h; attached = on; same = ap trimmed same };
          })
          (if-Attaches name (is_root name b) _ _ (λ _. attach_root-Attaches w)
            (attach_child-Attaches (again (trim_space b.parent)) w))

  -- one more step of the walk, at a branch with ids
  resolve_locked-attached :
      (n : ℕ) (b : Branch) (w : World P)
      → get_active name w.store ≡ ok b
      → has_attachment b ≡ true
      → resolve_locked server (suc n) name [] w ≡ (w, ok (attachment_of b))
  unfolding resolve_locked contains
  resolve_locked-attached n b w found on = rw (found, on) refl

module _ {P : Type 0} (server : Server P) (name : Text) (a : Attachment) (w : World P) where
  resolve-IsAttached :
      (resolve server name w).1 ≡ ok a
      → IsAttached (trim_space name) a (resolve server name w).0.store
        × (is_empty (trim_space name) ≡ false)
  unfolding resolve resolve_locked contains
  resolve-IsAttached h = elim (Bool-cases (is_empty (trim_space name))) [
    | inl blank ↦ absurd (ground arith)
    | inr named ↦
        let again : Text → Step P Attachment = λ parent.
          resolve_locked server (length (keys w.store.branches)) parent (trim_space name ∷ []) in
        let r = get_active (trim_space name) w.store in
        let step : resolve server name w ≡ resolve_found server again (trim_space name) w r =
          rw named refl in
        (
          rw step (
              (resolve_found-Attaches server (trim_space name) (trim_space_idem name) again w r
                  refl).at
                a (rw step at h)),
          named,
        )
  ]

  resolve-attached :
      (b : Branch) (v : World P)
      → is_empty (trim_space name) ≡ false
      → get_active (trim_space name) v.store ≡ ok b
      → has_attachment b ≡ true
      → resolve server name v ≡ (v, ok (attachment_of b))
  unfolding resolve
  resolve-attached b v named found on = rw named (
      resolve_locked-attached server (trim_space name) (length (keys v.store.branches)) b v found
        on)

  -- After a Resolve that succeeded, resolving the branch again sends no request and writes
  -- nothing, and gives the same ids up to surrounding space.
  pub resolve_again :
      (resolve server name w).1 ≡ ok a
      → (a' : Attachment) × (resolve server name (resolve server name w).0
          ≡ ((resolve server name w).0, ok a'))
        × (trimmed a' ≡ trimmed a)
  resolve_again h =
      let v = (resolve server name w).0 in
      let (i, named) = resolve-IsAttached h in
      (attachment_of i.branch, resolve-attached i.branch v named i.found i.attached, i.same)
