-- ===== src/Attachment/Recorded.antt =====
-- internal/server/branch_attachment.go: `SetAttachment` where it succeeds.
use neon_selfhost.Prelude.{
  ◌≡◌, refl, Text, text_eq_refl, true, false, Bool-cases, inl, inr, Option, none, some, Result, ok,
  is_empty, ◌||◌, arith,
}
use neon_selfhost.Prelude.Trim.{trim_space, trim_space_idem}
use neon_selfhost.Prelude.Map.{Map, put, lookup-put}
use neon_selfhost.Branch.Types.{Branch, Error, active}
use neon_selfhost.Branch.File.{FileIo}
use neon_selfhost.Branch.Store.{Store, set_attachment, get_active, updated}
use neon_selfhost.Branch.Store.Invariant.{Wrote, failed, stored, store_branch-Wrote}
use neon_selfhost.Attachment.World.{Attachment, has_attachment, attachment_of}

abbrev pub trimmed : Attachment → Attachment
trimmed a = record { tenant_id = trim_space a.tenant_id; timeline_id = trim_space a.timeline_id }

-- The store holds the branch with the ids of the attachment.
pub record IsAttached (name : Text) (a : Attachment) (s : Store) : Type 0 where
  pub branch : Branch
  pub found : get_active name s ≡ ok branch
  pub attached : has_attachment branch ≡ true
  pub same : trimmed (attachment_of branch) ≡ trimmed a

active-not-deleted :
    (k : Text) (m : Map Branch) (b : Branch) → active k m ≡ some b → b.deleted ≡ false
unfolding active
active-not-deleted k m b h = ground arith

get_active-put :
    (k : Text) (c : Branch) (m : Map Branch) (t : Store)
    → trim_space k ≡ k
    → is_empty k ≡ false
    → c.deleted ≡ false
    → t.branches ≡ put k c m
    → get_active k t ≡ ok c
unfolding get_active active
get_active-put k c m t trim named live put_eq =
    rw (trim, named, put_eq, lookup-put, text_eq_refl, live) refl

-- The ids of an attachment are not blank.
abbrev HasIds : Attachment → Type 0
HasIds a =
    (is_empty (trim_space a.tenant_id) ≡ false) × (is_empty (trim_space a.timeline_id) ≡ false)

module _ (io : FileIo) (name : Text) (a : Attachment) (s : Store)
    (trim : trim_space name ≡ name) where
  abbrev with_ids : Branch → Branch
  with_ids b = record b {
    tenant_id = trim_space a.tenant_id;
    timeline_id = trim_space a.timeline_id;
  }

  Wrote-IsAttached :
      (b c : Branch) (out : Store × Result Error Branch)
      → is_empty name ≡ false
      → HasIds a
      → b.deleted ≡ false
      → Wrote s name (with_ids b) out
      → out.1 ≡ ok c
      → IsAttached name a out.0
  Wrote-IsAttached b c out named ids live (failed e eq) h = absurd (cc)
  Wrote-IsAttached b c out named ids live (stored t eq put_eq p d) h = rw eq (record {
    branch = with_ids b;
    found = get_active-put name (with_ids b) s.branches t trim named live put_eq;
    attached = rw (trim_space_idem, trim_space_idem, ids.0, ids.1) refl;
    same = rw (trim_space_idem, trim_space_idem) refl;
  })

  updated-IsAttached :
      (c : Branch) (r : Option Branch)
      → is_empty name ≡ false
      → HasIds a
      → ((b : Branch) → r ≡ some b → b.deleted ≡ false)
      → (updated io name with_ids r s).1 ≡ ok c
      → IsAttached name a (updated io name with_ids r s).0
  updated-IsAttached c none named ids live h = absurd (cc)
  updated-IsAttached c (some b) named ids live h =
      Wrote-IsAttached b c _ named ids (live b refl) (store_branch-Wrote io name (with_ids b) s) h

  pub set_attachment-IsAttached :
      (c : Branch)
      → (set_attachment io name a.tenant_id a.timeline_id s).1 ≡ ok c
      → IsAttached name a (set_attachment io name a.tenant_id a.timeline_id s).0
  unfolding set_attachment
  set_attachment-IsAttached c h = elim (Bool-cases (is_empty name)) [
    | inl blank ↦ absurd (ground arith)
    | inr named ↦
        elim (Bool-cases
          (is_empty (trim_space a.tenant_id) || is_empty (trim_space a.timeline_id))) [
            | inl none_given ↦ absurd (ground arith)
            | inr given ↦
                let step : set_attachment io name a.tenant_id a.timeline_id s
                    ≡ updated io name with_ids (active name s.branches) s =
                  rw (trim, named, given) refl in
                rw step (
                  updated-IsAttached c (active name s.branches) named (ground arith, ground arith)
                    (active-not-deleted name s.branches) (rw step at h))
          ]
  ]
