-- ===== src/Branch/Types.antt =====
-- internal/branch/store.go: the branch record, the errors and the default branch map.
-- A `time.Time` in UTC is a number, a string a list of code points.
use neon_selfhost.Prelude.{
  ℕ, Text, codes, Bool, false, Option, none, some, [], ◌∷◌, ◌&&◌, not, if◌then◌else◌,
}
use neon_selfhost.Prelude.Int.{ℤ, pos, ltbℤ}
use neon_selfhost.Prelude.Map.{Map, lookup}

pub record Branch : Type 0 where
  pub name : Text
  pub parent : Text
  pub created_at : ℕ
  pub deleted : Bool
  pub deleted_at : Option ℕ
  pub tenant_id : Text
  pub timeline_id : Text
  pub password : Text
  pub endpoint_published : Bool
  pub endpoint_port : ℤ

-- An error of the file system; only `ENOSPC` is told apart.
pub data Fault : Type 0 where
  enospc other_fault : Fault

-- `persist_failed` and `no_space` wrap the error that `persist` returned.
pub data Error : Type 0 where
  already_exists not_found invalid_name parent_missing protected : Error
  persist_failed : Fault → Error
  no_space : Fault → Error

unfoldable pub classify_persist_error : Fault → Error
classify_persist_error enospc = no_space enospc
classify_persist_error other_fault = persist_failed other_fault

abbrev pub main : Text
main = codes "main"

-- `Branch{}`, which a Go map yields for a missing key
abbrev pub zero_branch : Branch
zero_branch = record {
  name = [];
  parent = [];
  created_at = 0;
  deleted = false;
  deleted_at = none;
  tenant_id = [];
  timeline_id = [];
  password = [];
  endpoint_published = false;
  endpoint_port = pos 0;
}

abbrev pub main_branch : ℕ → Branch
main_branch now = record zero_branch { name = main; created_at = now }

unfoldable pub default_branch_map : ℕ → Map Branch
default_branch_map now = (main, main_branch now) ∷ []

abbrev pub value_of : Option Branch → Branch
value_of none = zero_branch
value_of (some b) = b

-- `branches[name]`
unfoldable pub index : Map Branch → Text → Branch
unfolding lookup
index m name = value_of (lookup name m)

abbrev pub unless_deleted : Option Branch → Option Branch
unless_deleted none = none
unless_deleted (some b) = if b.deleted then none else some b

-- `branch, exists := s.branches[name]; !exists || branch.Deleted` is the `none` case
unfoldable pub active : Text → Map Branch → Option Branch
unfolding lookup
active name m = unless_deleted (lookup name m)

-- `port < 1 || port > 65535`, negated
unfoldable pub in_port_range : ℤ → Bool
in_port_range port = not (ltbℤ port (pos 1)) && not (ltbℤ (pos 65535) port)
