-- ===== src/Branch/Store/Effect.antt =====
-- What a successful operation of the store writes, and what it leaves alone.
use neon_selfhost.Prelude.{
  ℕ, Text, ◌≡◌, refl, Bool, true, false, Option, none, some, [], Result, ok, err, is_empty, text_eq,
  text_eq_iff, ◌||◌, ◌&&◌, not, if◌then◌else◌, arith,
}
use neon_selfhost.Prelude.Trim.{trim_space}
use neon_selfhost.Prelude.Map.{lookup, lookup-put}
use neon_selfhost.Branch.Types.{Branch, Error, not_found, main, active, in_port_range}
use neon_selfhost.Branch.File.{FileIo}
use neon_selfhost.Branch.Store
use neon_selfhost.Branch.Store.{
  Store, store_branch, updated, deleted_at, create_locked, parent_or_main, is_active,
}
use neon_selfhost.Branch.Store.Ops.{Op, apply}
use neon_selfhost.Branch.Store.Invariant.{Wrote, failed, stored, store_branch-Wrote}

-- The branch that an operation is about.
pub target : Op → Text
target (Op.set_attachment name t l) = trim_space name
target (Op.set_password name p) = trim_space name
target (Op.set_endpoint name published port) = trim_space name
target (Op.create name parent) = trim_space name
target (Op.create_with_password name parent p) = trim_space name
target (Op.create_with_attachment name parent t l) = trim_space name
target (Op.create_with_attachment_and_password name parent t l p) = trim_space name
target (Op.soft_delete name) = trim_space name

-- A success has put the returned branch at `k` and nothing else.
pub record WritesOne (s : Store) (k : Text) (out : Store × Result Error Branch) : Type 0 where
  pub at :
      (b : Branch)
      → out.1 ≡ ok b
      → (j : Text) → lookup j out.0.branches ≡ (if text_eq k j then some b else lookup j s.branches)

WritesOne-err : (s t : Store) (k : Text) (e : Error) → WritesOne s k (t, err e)
WritesOne-err s t k e = record { at = λ b h. absurd (cc) }

WritesOne-if :
    {s : Store} {k : Text} (c : Bool) (x y : Store × Result Error Branch)
    → WritesOne s k x
    → WritesOne s k y
    → WritesOne s k (if c then x else y)
WritesOne-if true x y hx hy = hx
WritesOne-if false x y hx hy = hy

Wrote-WritesOne :
    (s : Store) (k : Text) (b : Branch) (out : Store × Result Error Branch)
    → Wrote s k b out
    → WritesOne s k out
Wrote-WritesOne s k b out (failed e eq) = rw eq (WritesOne-err s s k e)
Wrote-WritesOne s k b out (stored t eq put_eq p d) = record {
  at = λ c h j. let bc : b ≡ c = cc in rw (eq, put_eq, lookup-put, bc);
}

module _ (io : FileIo) (s : Store) where
  store_branch-WritesOne : (k : Text) (b : Branch) → WritesOne s k (store_branch io k b s)
  store_branch-WritesOne k b = Wrote-WritesOne s k b _ (store_branch-Wrote io k b s)

  updated-WritesOne :
      (k : Text) (change : Branch → Branch) (o : Option Branch)
      → WritesOne s k (updated io k change o s)
  updated-WritesOne k change none = WritesOne-err s s k not_found
  updated-WritesOne k change (some b) = store_branch-WritesOne k (change b)

  deleted_at-WritesOne :
      (now : ℕ) (k : Text) (o : Option Branch)
      → lookup k s.branches ≡ o
      → WritesOne s k (deleted_at io now k o s)
  deleted_at-WritesOne now k none h = WritesOne-err s s k not_found
  deleted_at-WritesOne now k (some b) h =
      WritesOne-if b.deleted _ _ (record { at = λ c e j. ground (arith, text_eq_iff k j) })
        (store_branch-WritesOne k _)

  create_locked-WritesOne :
      (now : ℕ) (name parent t l p : Text)
      → WritesOne s (trim_space name) (create_locked io now name parent t l p s)
  unfolding create_locked
  create_locked-WritesOne now name parent t l p =
      WritesOne-if (is_empty (trim_space name)) _ _ (WritesOne-err s s _ _) (
        WritesOne-if (not (is_active (active (parent_or_main parent) s.branches))) _ _
          (WritesOne-err s s _ _)
          (WritesOne-if (is_active (active (trim_space name) s.branches)) _ _
            (WritesOne-err s s _ _) (store_branch-WritesOne (trim_space name) _)))

  -- A writing operation that succeeds leaves the branch that it returns under the name that it
  -- is about, and every other name as it was.
  pub apply-WritesOne : (op : Op) (now : ℕ) → WritesOne s (target op) (apply op io now s)
  unfolding apply target Store.set_attachment Store.set_password Store.set_endpoint Store.create
      Store.create_with_password Store.create_with_attachment
      Store.create_with_attachment_and_password Store.soft_delete
  apply-WritesOne (Op.set_attachment name t l) now =
      WritesOne-if (is_empty (trim_space name)) _ _ (WritesOne-err s s _ _) (
        WritesOne-if (is_empty (trim_space t) || is_empty (trim_space l)) _ _
          (WritesOne-err s s _ _) (updated-WritesOne (trim_space name) _ _))
  apply-WritesOne (Op.set_password name p) now =
      WritesOne-if (is_empty (trim_space name)) _ _ (WritesOne-err s s _ _) (
        WritesOne-if (is_empty (trim_space p)) _ _ (WritesOne-err s s _ _)
          (updated-WritesOne (trim_space name) _ _))
  apply-WritesOne (Op.set_endpoint name published port) now =
      WritesOne-if (is_empty (trim_space name)) _ _ (WritesOne-err s s _ _) (
        WritesOne-if (published && not (in_port_range port)) _ _ (WritesOne-err s s _ _)
          (updated-WritesOne (trim_space name) _ _))
  apply-WritesOne (Op.create name parent) now = create_locked-WritesOne now name parent [] [] []
  apply-WritesOne (Op.create_with_password name parent p) now =
      WritesOne-if (is_empty (trim_space p)) _ _ (WritesOne-err s s _ _)
        (create_locked-WritesOne now name parent [] [] (trim_space p))
  apply-WritesOne (Op.create_with_attachment name parent t l) now =
      WritesOne-if (is_empty (trim_space t) || is_empty (trim_space l)) _ _ (WritesOne-err s s _ _)
        (create_locked-WritesOne now name parent (trim_space t) (trim_space l) [])
  apply-WritesOne (Op.create_with_attachment_and_password name parent t l p) now =
      WritesOne-if (is_empty (trim_space t) || is_empty (trim_space l) || is_empty (trim_space p)) _
        _ (WritesOne-err s s _ _)
        (create_locked-WritesOne now name parent (trim_space t) (trim_space l) (trim_space p))
  apply-WritesOne (Op.soft_delete name) now =
      WritesOne-if (is_empty (trim_space name)) _ _ (WritesOne-err s s _ _) (
        WritesOne-if (text_eq (trim_space name) main) _ _ (WritesOne-err s s _ _)
          (deleted_at-WritesOne now (trim_space name) _ refl))
