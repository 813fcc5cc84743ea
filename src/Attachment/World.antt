-- ===== src/Attachment/World.antt =====
-- internal/server/branch_attachment.go: the pageserver as the resolver sees it, the errors, and the
-- steps that a method of the resolver is made of. The server and the source of random ids are a
-- state `P` with the functions of `Server`; each request is answered with success or failure.
use neon_selfhost.Prelude.{
  ℕ, Text, Bool, true, false, Option, none, some, List, [], ◌∷◌, Result, ok, err, is_empty, ◌&&◌,
  not, if◌then◌else◌,
}
use neon_selfhost.Prelude.Trim.{trim_space}
use neon_selfhost.Branch.Types.{Branch, Error}
use neon_selfhost.Branch.File.{FileIo, healthy}
use neon_selfhost.Branch.Store.{Store}

pub record Attachment : Type 0 where
  pub tenant_id : Text
  pub timeline_id : Text

-- The compensation of a failed write: `no_ids` and `delete_failed` are errors of the deletion.
pub data Cleanup : Type 0 where
  deleted no_ids delete_failed : Cleanup

-- `unavailable` and `cycle` wrap ErrPrimaryEndpointUnavailable; `compensated` is the error of the
-- store with what became of the new timeline. `out_of_rounds` is no error of the source.
pub data AttachError : Type 0 where
  store_error : Error → AttachError
  unavailable history_unavailable out_of_rounds : AttachError
  cycle : Text → AttachError
  compensated : Error → Cleanup → AttachError

-- The pageserver behind its HTTP interface. An id of a list is as the server wrote it.
pub record Server (P : Type 0) : Type 0 where
  pub tenants : P → P × Option (List Text)
  pub put_tenant : Text → P → P × Bool
  pub timelines : Text → P → P × Option (List Text)
  pub post_timeline : Text → Text → Option Text → Option Text → P → P × Bool
  pub delete : Text → Text → P → P × Bool
  pub lsn_at : Text → Text → ℕ → P → P × Option (Text × Text)
  pub random_id : P → P × Option Text

-- What the resolver works on; `disk` is what the file system will answer to the writes of the
-- store to come, in order, and past its end they succeed.
pub record World (P : Type 0) : Type 0 where
  pub store : Store
  pub server : P
  pub disk : List FileIo

abbrev pub Step : Type 0 → Type 0 → Type 0
Step P A = World P → World P × Result AttachError A

abbrev pub then_with :
    {P A B : Type 0}
    → (A → Step P B)
    → World P × Result AttachError A
    → World P × Result AttachError B
then_with f (w, ok a) = f a w
then_with f (w, err e) = (w, err e)

infixl 5 ◌>>=◌ ◌>>◌
abbrev pub ◌>>=◌ : {P A B : Type 0} → Step P A → (A → Step P B) → Step P B
(x >>= f) w = then_with f (x w)

abbrev pub ◌>>◌ : {P A B : Type 0} → Step P A → Step P B → Step P B
x >> y = x >>= λ _. y

abbrev pub give : {P A : Type 0} → A → Step P A
give a w = (w, ok a)

abbrev pub fail : {P A : Type 0} → AttachError → Step P A
fail e w = (w, err e)

abbrev pub answered : {P A : Type 0} → World P → P × Option A → World P × Result AttachError A
answered w (p, none) = (record w { server = p }, err unavailable)
answered w (p, some a) = (record w { server = p }, ok a)

abbrev pub done_if : {P : Type 0} → World P → P × Bool → World P × Result AttachError Unit
done_if w (p, false) = (record w { server = p }, err unavailable)
done_if w (p, true) = (record w { server = p }, ok tt)

-- the loop over the ids of a list: trimmed, blank ones left out
unfoldable pub kept_ids : List Text → List Text
unfolding trim_space
kept_ids [] = []
kept_ids (id ∷ ids) =
    let rest = kept_ids ids in if is_empty (trim_space id) then rest else trim_space id ∷ rest

abbrev pub optional : Text → Option Text
optional s = if is_empty (trim_space s) then none else some (trim_space s)

abbrev pub has_attachment : Branch → Bool
has_attachment b =
    not (is_empty (trim_space b.tenant_id)) && not (is_empty (trim_space b.timeline_id))

abbrev pub attachment_of : Branch → Attachment
attachment_of b = record { tenant_id = b.tenant_id; timeline_id = b.timeline_id }

abbrev pub next_io : List FileIo → FileIo
next_io [] = healthy
next_io (io ∷ rest) = io

abbrev pub later_io : List FileIo → List FileIo
later_io [] = []
later_io (io ∷ rest) = rest
