-- ===== src/Attachment/Steps.antt =====
-- internal/server/branch_attachment.go: what every request and every write of the resolver keeps,
-- whatever the pageserver and the file system answer.
use neon_selfhost.Prelude.{
  ◌≡◌, refl, Text, Bool, true, false, Option, none, some, List, [], ◌∷◌, Result, ok, err,
  if◌then◌else◌, arith,
}
use neon_selfhost.Branch.Types.{Branch, Error}
use neon_selfhost.Branch.File.{FileIo}
use neon_selfhost.Branch.Store.{Store, set_attachment}
use neon_selfhost.Attachment.World.{
  Attachment, AttachError, out_of_rounds, Server, World, Step, then_with, answered, done_if, give,
  kept_ids, next_io, later_io,
}
use neon_selfhost.Attachment.Resolve.{
  record_attachment, stored, delete_timeline_error, ensure_main_attachment, list_tenants,
  list_timelines, first_or_new_tenant, first_or_new_timeline, create_timeline, branch_off,
}

-- A store from which `SetAttachment` leads to the other, by any number of calls.
pub data Reaches : Store → Store → Type 0 where
  stay : (s : Store) → Reaches s s
  attach :
      (io : FileIo) (name tenant timeline : Text) (s u : Store)
      → Reaches (set_attachment io name tenant timeline s).0 u
      → Reaches s u

Reaches-trans : (s t u : Store) → Reaches s t → Reaches t u → Reaches s u
Reaches-trans s t u (stay _) q = q
Reaches-trans s t u (attach io name tenant timeline _ _ p) q =
    attach io name tenant timeline s u (Reaches-trans _ t u p q)

abbrev pub is_out : AttachError → Bool
is_out out_of_rounds = true
is_out _ = false

abbrev pub runs_out : {A : Type 0} → Result AttachError A → Bool
runs_out (ok a) = false
runs_out (err e) = is_out e

-- The method comes to an end, and has only called `SetAttachment` on the store.
pub record IsSound {P A : Type 0} (w : World P) (out : World P × Result AttachError A)
    : Type 0 where
  pub ends : runs_out out.1 ≡ false
  pub reaches : Reaches w.store out.0.store

module _ {P : Type 0} where
  here :
      {A : Type 0} (w : World P) (r : Result AttachError A) → runs_out r ≡ false → IsSound w (w, r)
  here w r h = record { ends = h; reaches = stay w.store }

  pub given : {A : Type 0} (w : World P) (a : A) → IsSound w (w, ok a)
  given w a = here w (ok a) refl

  pub failed :
      {A : Type 0} (w : World P) (e : AttachError) → is_out e ≡ false → IsSound {A = A} w (w, err e)
  failed w e h = record { ends = h; reaches = stay w.store }

  pub then_with-IsSound :
      {A B : Type 0} (f : A → Step P B) (w : World P) (x : World P × Result AttachError A)
      → IsSound w x
      → ((a : A) (v : World P) → IsSound v (f a v))
      → IsSound w (then_with f x)
  then_with-IsSound f w (v, ok a) h k = record {
    ends = (k a v).ends;
    reaches = Reaches-trans w.store v.store _ h.reaches (k a v).reaches;
  }
  then_with-IsSound f w (v, err e) h k = record { ends = h.ends; reaches = h.reaches }

  pub if-IsSound :
      {A : Type 0} (c : Bool) (w : World P) (x y : World P × Result AttachError A)
      → IsSound w x
      → IsSound w y
      → IsSound w (if c then x else y)
  if-IsSound true w x y hx hy = hx
  if-IsSound false w x y hx hy = hy

  pub answered-IsSound : {A : Type 0} (w : World P) (r : P × Option A) → IsSound w (answered w r)
  answered-IsSound w (p, none) = record { ends = refl; reaches = stay w.store }
  answered-IsSound w (p, some a) = record { ends = refl; reaches = stay w.store }

  done_if-IsSound : (w : World P) (r : P × Bool) → IsSound w (done_if w r)
  done_if-IsSound w (p, true) = record { ends = refl; reaches = stay w.store }
  done_if-IsSound w (p, false) = record { ends = refl; reaches = stay w.store }

module _ {P : Type 0} (server : Server P) where
  list_tenants-IsSound : (w : World P) → IsSound w (list_tenants server w)
  unfolding list_tenants
  list_tenants-IsSound w =
      then_with-IsSound _ w _ (answered-IsSound w (server.tenants w.server))
        (λ ids v. given v (kept_ids ids))

  list_timelines-IsSound :
      (tenant : Text) (w : World P) → IsSound w (list_timelines server tenant w)
  unfolding list_timelines
  list_timelines-IsSound tenant w =
      then_with-IsSound _ w _ (answered-IsSound w (server.timelines tenant w.server))
        (λ ids v. given v (kept_ids ids))

  create_timeline-IsSound :
      (tenant id ancestor lsn : Text) (w : World P)
      → IsSound w (create_timeline server tenant id ancestor lsn w)
  unfolding create_timeline
  create_timeline-IsSound tenant id ancestor lsn w = done_if-IsSound w _

  -- an id is drawn, something is created under it, and a result given
  created-IsSound :
      {A : Type 0} (w : World P) (create : Text → Step P Unit) (result : Text → A)
      → ((id : Text) (v : World P) → IsSound v (create id v))
      → IsSound w (
          then_with
            (λ id v. then_with (λ _. give (result id)) (create id v))
            (answered w (server.random_id w.server)))
  created-IsSound w create result h =
      then_with-IsSound _ w _ (answered-IsSound w (server.random_id w.server))
        (λ id v. then_with-IsSound _ v _ (h id v) (λ _ u. given u (result id)))

  first_or_new_tenant-IsSound :
      (ids : List Text) (w : World P) → IsSound w (first_or_new_tenant server ids w)
  unfolding first_or_new_tenant
  first_or_new_tenant-IsSound (id ∷ ids) w = here w _ refl
  first_or_new_tenant-IsSound [] w =
      created-IsSound w _ (λ id. id) (λ id v. done_if-IsSound v (server.put_tenant id v.server))

  first_or_new_timeline-IsSound :
      (tenant : Text) (ids : List Text) (w : World P)
      → IsSound w (first_or_new_timeline server tenant ids w)
  unfolding first_or_new_timeline
  first_or_new_timeline-IsSound tenant (id ∷ ids) w = here w _ refl
  first_or_new_timeline-IsSound tenant [] w =
      created-IsSound w _ _ (λ id. create_timeline-IsSound tenant id [] [])

  pub branch_off-IsSound :
      (parent : Attachment) (lsn : Text) (w : World P) → IsSound w (branch_off server parent lsn w)
  unfolding branch_off
  branch_off-IsSound parent lsn w =
      created-IsSound w _ _
        (λ id. create_timeline-IsSound parent.tenant_id id parent.timeline_id lsn)

  pub ensure_main_attachment-IsSound : (w : World P) → IsSound w (ensure_main_attachment server w)
  unfolding ensure_main_attachment
  ensure_main_attachment-IsSound w = then_with-IsSound _ w _ (list_tenants-IsSound w) (λ ids v.
      then_with-IsSound _ v _ (first_or_new_tenant-IsSound ids v) (λ tenant u.
        then_with-IsSound _ u _ (list_timelines-IsSound tenant u)
          (λ found t. first_or_new_timeline-IsSound tenant found t)))

  delete_timeline_error-store :
      (a : Attachment) (w : World P) → (delete_timeline_error server a w).0.store ≡ w.store
  unfolding delete_timeline_error
  delete_timeline_error-store a w = ground arith

  stored-IsSound :
      (a : Attachment) (created : Bool) (w : World P) (r : Store × Result Error Branch)
      → Reaches w.store r.0
      → IsSound w (stored server a created w r)
  stored-IsSound a created w (s, ok b) h = record { ends = refl; reaches = h }
  stored-IsSound a true w (s, err e) h = record {
    ends = refl;
    reaches = rw (delete_timeline_error-store a (record w { store = s; disk = later_io w.disk })) h;
  }
  stored-IsSound a false w (s, err e) h = record { ends = refl; reaches = h }

  pub record_attachment-IsSound :
      (name : Text) (a : Attachment) (created : Bool) (w : World P)
      → IsSound w (record_attachment server name a created w)
  unfolding record_attachment
  record_attachment-IsSound name a created w =
      stored-IsSound a created w _
        (attach (next_io w.disk) name a.tenant_id a.timeline_id w.store _ (stay _))
