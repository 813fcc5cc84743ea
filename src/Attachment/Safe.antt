-- ===== src/Attachment/Safe.antt =====
-- internal/server/branch_attachment.go: the branch store behind the resolver stays safe, and no field
-- but the two ids changes.
use neon_selfhost.Prelude.{
  ℕ, ◌≡◌, ◌≢◌, refl, ap, ◌∙◌, sym, Text, text_eq, text_eq_iff, Bool, true, false, Bool-cases, inl,
  inr, Option, none, some, [], Result, err, if◌then◌else◌, is_empty, ◌||◌, arith,
}
use neon_selfhost.Prelude.Trim.{trim_space}
use neon_selfhost.Prelude.Map.{Map, lookup, lookup-put}
use neon_selfhost.Branch.Types.{Branch, Error, active}
use neon_selfhost.Branch.File.{FileIo}
use neon_selfhost.Branch.Store.{Store, set_attachment, updated}
use neon_selfhost.Branch.Store.Ops.{Op, apply}
use neon_selfhost.Branch.Store.Invariant.{
  IsSafe, Wrote, failed, stored, apply-IsSafe, store_branch-Wrote,
}
use neon_selfhost.Attachment.World.{AttachError, out_of_rounds, Server, World}
use neon_selfhost.Attachment.Resolve.{resolve, resolve_reset, resolve_restore}
use neon_selfhost.Attachment.Steps.{Reaches, stay, attach, IsSound, runs_out}
use neon_selfhost.Attachment.Sound.{resolve-IsSound, resolve_reset-IsSound, resolve_restore-IsSound}

-- A branch apart from its ids.
abbrev pub without_ids : Option Branch → Option Branch
without_ids none = none
without_ids (some b) = some (record b { tenant_id = []; timeline_id = [] })

abbrev pub IsSameButIds : Store → Store → Type 0
IsSameButIds s t =
    (k : Text) → without_ids (lookup k t.branches) ≡ without_ids (lookup k s.branches)

active-lookup : (k : Text) (m : Map Branch) (b : Branch) → active k m ≡ some b → lookup k m ≡ some b
unfolding active
active-lookup k m b h = ground arith

Wrote-IsSameButIds :
    (s : Store) (k : Text) (b c : Branch) (out : Store × Result Error Branch)
    → lookup k s.branches ≡ some b
    → without_ids (some c) ≡ without_ids (some b)
    → Wrote s k c out
    → IsSameButIds s out.0
Wrote-IsSameButIds s k b c out h same (failed e eq) j = rw eq refl
Wrote-IsSameButIds s k b c out h same (stored t eq put_eq p d) j = elim (Bool-cases (text_eq k j)) [
  | inl hit ↦
      let e : k ≡ j = (text_eq_iff k j).0 hit in rw (eq, put_eq, lookup-put, hit, ← e, h) same
  | inr miss ↦ rw (eq, put_eq, lookup-put, miss) refl
]

updated-IsSameButIds :
    (io : FileIo) (k t l : Text) (s : Store) (r : Option Branch)
    → ((b : Branch) → r ≡ some b → lookup k s.branches ≡ some b)
    → IsSameButIds s (updated io k (λ b. record b { tenant_id = t; timeline_id = l }) r s).0
updated-IsSameButIds io k t l s none h j = refl
updated-IsSameButIds io k t l s (some b) h j =
    let c = record b { tenant_id = t; timeline_id = l } in
    Wrote-IsSameButIds s k b c _ (h b refl) refl (store_branch-Wrote io k c s) j

if-IsSameButIds :
    (c : Bool) (s : Store) (x y : Store × Result Error Branch)
    → IsSameButIds s x.0
    → IsSameButIds s y.0
    → IsSameButIds s (if c then x else y).0
if-IsSameButIds true s x y hx hy = hx
if-IsSameButIds false s x y hx hy = hy

set_attachment-IsSameButIds :
    (io : FileIo) (name t l : Text) (s : Store) → IsSameButIds s (set_attachment io name t l s).0
unfolding set_attachment
set_attachment-IsSameButIds io name t l s =
    let name' = trim_space name in
    let tenant = trim_space t in
    let timeline = trim_space l in
    if-IsSameButIds (is_empty name') s _ _ (λ k. refl)
      (if-IsSameButIds (is_empty tenant || is_empty timeline) s _ _ (λ k. refl)
        (updated-IsSameButIds io name' tenant timeline s (active name' s.branches)
          (active-lookup name' s.branches)))

Reaches-IsSameButIds : (s t : Store) → Reaches s t → IsSameButIds s t
Reaches-IsSameButIds s t (stay _) j = refl
Reaches-IsSameButIds s t (attach io name tenant timeline _ _ p) j =
    Reaches-IsSameButIds _ t p j ∙ set_attachment-IsSameButIds io name tenant timeline s j

Reaches-IsSafe : (s t : Store) → Reaches s t → IsSafe s → IsSafe t
unfolding apply
Reaches-IsSafe s t (stay _) h = h
Reaches-IsSafe s t (attach io name tenant timeline _ _ p) h =
    Reaches-IsSafe _ t p (apply-IsSafe (Op.set_attachment name tenant timeline) io 0 s h)

-- What a method of the resolver leaves behind.
pub record IsResolved {P A : Type 0} (w : World P) (out : World P × Result AttachError A)
    : Type 0 where
  pub ends : out.1 ≢ err out_of_rounds
  pub safe : IsSafe out.0.store
  pub others : IsSameButIds w.store out.0.store

IsSound-IsResolved :
    {P A : Type 0} (w : World P) (out : World P × Result AttachError A)
    → IsSafe w.store
    → IsSound w out
    → IsResolved w out
IsSound-IsResolved w out h s = record {
  ends = λ e. let bad : true ≡ false = sym (ap runs_out e) ∙ s.ends in absurd (cc);
  safe = Reaches-IsSafe w.store out.0.store s.reaches h;
  others = Reaches-IsSameButIds w.store out.0.store s.reaches;
}

-- Whatever the pageserver and the file system answer, Resolve, ResolveReset and ResolveRestore
-- on a safe store come to an end within the rounds given, although parents may form a cycle; the
-- store stays safe, and no branch changes but in its two ids.
pub resolver-IsResolved :
    {P : Type 0} (server : Server P) (name : Text) (at : ℕ) (w : World P)
    → IsSafe w.store
    → IsResolved w (resolve server name w)
      × IsResolved w (resolve_reset server name w)
      × IsResolved w (resolve_restore server name at w)
resolver-IsResolved server name at w h = (
  IsSound-IsResolved w _ h (resolve-IsSound server name w),
  IsSound-IsResolved w _ h (resolve_reset-IsSound server name w),
  IsSound-IsResolved w _ h (resolve_restore-IsSound server name at w),
)
