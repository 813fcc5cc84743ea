-- ===== src/Branch/Store/Ops.antt =====
-- internal/branch/store.go: a call of any writing operation, and a run of calls. The mutex makes
-- the calls of all goroutines one sequence.
use neon_selfhost.Prelude.{ℕ, Text, Bool, List, [], ◌∷◌, Result}
use neon_selfhost.Prelude.Int.{ℤ}
use neon_selfhost.Branch.Types.{Branch, Error}
use neon_selfhost.Branch.File.{FileIo}
use neon_selfhost.Branch.Store
use neon_selfhost.Branch.Store.{Store}

pub data Op : Type 0 where
  set_attachment : Text → Text → Text → Op
  set_password : Text → Text → Op
  set_endpoint : Text → Bool → ℤ → Op
  create : Text → Text → Op
  create_with_password : Text → Text → Text → Op
  create_with_attachment : Text → Text → Text → Text → Op
  create_with_attachment_and_password : Text → Text → Text → Text → Text → Op
  soft_delete : Text → Op

-- One call: the operation, the answers of the file system and the clock.
pub record Call : Type 0 where
  pub op : Op
  pub io : FileIo
  pub now : ℕ

unfoldable pub apply : Op → FileIo → ℕ → Store → Store × Result Error Branch
apply (set_attachment name t l) io now s = Store.set_attachment io name t l s
apply (set_password name p) io now s = Store.set_password io name p s
apply (set_endpoint name published port) io now s = Store.set_endpoint io name published port s
apply (create name parent) io now s = Store.create io now name parent s
apply (create_with_password name parent p) io now s =
    Store.create_with_password io now name parent p s
apply (create_with_attachment name parent t l) io now s =
    Store.create_with_attachment io now name parent t l s
apply (create_with_attachment_and_password name parent t l p) io now s =
    Store.create_with_attachment_and_password io now name parent t l p s
apply (soft_delete name) io now s = Store.soft_delete io now name s

unfoldable pub run : Store → List Call → Store
unfolding apply
run s [] = s
run s (c ∷ cs) = run (apply c.op c.io c.now s).0 cs
