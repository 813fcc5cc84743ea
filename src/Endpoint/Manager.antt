-- ===== src/Endpoint/Manager.antt =====
-- internal/server/primary_endpoint.go: the state of the manager, and its methods that touch
-- neither the runtime nor a file.
use neon_selfhost.Prelude.{
  ℕ, ◌+◌, ◌-◌, Text, codes, Bool, true, false, Option, none, some, List, [], ◌∷◌, Result, ok, err,
  is_empty, leb, ltb, ◌||◌, ◌&&◌, not, if◌then◌else◌,
}
use neon_selfhost.Prelude.Int.{ℤ, pos}
use neon_selfhost.Prelude.Trim.{trim_space}
use neon_selfhost.Prelude.Case.{equal_fold}
use neon_selfhost.Prelude.Map.{Map, lookup, put, erase}
use neon_selfhost.Endpoint.Selection.{Selection, SelectionFile, ReadFault, load_endpoint_selection}

pub record ConnectionInfo : Type 0 where
  pub host : Text
  pub port : ℤ
  pub database : Text
  pub user : Text
  pub password : Text

pub record RuntimeStatus : Type 0 where
  pub running : Bool
  pub ready : Bool
  pub state : Text
  pub message : Text

pub record EndpointState : Type 0 where
  pub status : RuntimeStatus
  pub branch : Text
  pub conn : ConnectionInfo
  pub tenant_id : Text
  pub timeline_id : Text

-- Go's zero value is the attachment with two empty ids.
pub record PrimaryAttachment : Type 0 where
  pub tenant_id : Text
  pub timeline_id : Text

pub record PrimaryManager : Type 0 where
  pub conn : ConnectionInfo
  pub branch : Text
  pub attachment : PrimaryAttachment
  pub attachments : Map PrimaryAttachment
  pub passwords : Map Text
  pub generation : Text
  pub transitioning : Bool
  pub route_blocked : Bool
  pub reservations : Map ℕ
  pub selection_path : Text

abbrev pub is_blank : Text → Bool
is_blank s = is_empty (trim_space s)

-- `m[k]` with the zero value for a missing key
abbrev pub or_zero : {A : Type 0} → A → Option A → A
or_zero zero none = zero
or_zero zero (some a) = a

abbrev pub no_attachment : PrimaryAttachment
no_attachment = record { tenant_id = []; timeline_id = [] }

abbrev pub attachment_at : Text → PrimaryManager → PrimaryAttachment
attachment_at branch m = or_zero no_attachment (lookup branch m.attachments)

abbrev pub password_at : Text → PrimaryManager → Text
password_at branch m = or_zero [] (lookup branch m.passwords)

-- The path of the applied selection is empty exactly where that of the selection is blank.
abbrev pub has_applied_path : PrimaryManager → Bool
has_applied_path m = not (is_blank m.selection_path)

unfoldable pub primary_runtime_was_active : RuntimeStatus → Bool
primary_runtime_was_active st = st.running || equal_fold (trim_space st.state) (codes "restarting")

abbrev pub default_host : Text
default_host = codes "127.0.0.1"

abbrev pub default_database : Text
default_database = codes "postgres"

abbrev pub default_user : Text
default_user = codes "postgres"

abbrev pub or_default : Bool → Text → Text → Text
or_default absent default given = if absent then default else given

abbrev pub is_zero : ℤ → Bool
is_zero (pos n) = leb n 0
is_zero _ = false

abbrev pub with_password : ConnectionInfo → ConnectionInfo
with_password c = record c { password = or_default (is_empty c.password) c.user c.password }

unfoldable pub with_defaults : ConnectionInfo → ConnectionInfo
with_defaults c = with_password (record {
  host = or_default (is_blank c.host) default_host c.host;
  port = if is_zero c.port then pos 5432 else c.port;
  database = or_default (is_blank c.database) default_database c.database;
  user = or_default (is_blank c.user) default_user c.user;
  password = c.password;
})

abbrev pub main_branch_name : Text
main_branch_name = codes "main"

abbrev pub bare_manager : ConnectionInfo → Text → PrimaryManager
bare_manager c path = record {
  conn = c;
  branch = main_branch_name;
  attachment = no_attachment;
  attachments = [];
  passwords = (main_branch_name, c.password) ∷ [];
  generation = [];
  transitioning = false;
  route_blocked = false;
  reservations = [];
  selection_path = trim_space path;
}

abbrev pub selecting_branch : Selection → PrimaryManager → PrimaryManager
selecting_branch s m = record m {
  branch = or_default (is_blank s.branch) m.branch (trim_space s.branch);
}

abbrev pub attached_to : PrimaryAttachment → PrimaryManager → PrimaryManager
attached_to a m = record m { attachment = a; attachments = put m.branch a m.attachments }

abbrev pub selecting_attachment : Selection → PrimaryManager → PrimaryManager
selecting_attachment s m =
    if not (is_blank s.tenant_id) && not (is_blank s.timeline_id)
    then attached_to
        (record { tenant_id = trim_space s.tenant_id; timeline_id = trim_space s.timeline_id }) m
    else m

abbrev pub selecting_password : Selection → PrimaryManager → PrimaryManager
selecting_password s m = if is_blank s.password then m else record m {
  passwords = put m.branch (trim_space s.password) m.passwords;
  conn = record (m.conn) { password = trim_space s.password };
}

abbrev pub selecting_generation : Selection → PrimaryManager → PrimaryManager
selecting_generation s m = record m { generation = trim_space s.generation }

abbrev pub selected_by : Result ReadFault (Option Selection) → PrimaryManager → PrimaryManager
selected_by (err e) m = m
selected_by (ok none) m = m
selected_by (ok (some s)) m =
    selecting_password s (selecting_generation s (selecting_attachment s (selecting_branch s m)))

-- at a blank path there is no selection to load
abbrev pub selection_at : Text → SelectionFile → Result ReadFault (Option Selection)
selection_at path file = if is_blank path then ok none else load_endpoint_selection file

unfoldable pub new_primary_endpoint_manager : ConnectionInfo → Text → SelectionFile → PrimaryManager
unfolding with_defaults load_endpoint_selection
new_primary_endpoint_manager c path file =
    selected_by (selection_at path file) (bare_manager (with_defaults c) path)

pub data SettingError : Type 0 where
  branch_required ids_required password_required : SettingError

unfoldable pub set_branch_attachment :
    Text → Text → Text → PrimaryManager → PrimaryManager × Option SettingError
set_branch_attachment branch tenant timeline m =
    if is_blank branch
    then (m, some SettingError.branch_required)
    else if is_blank tenant || is_blank timeline
    then (m, some SettingError.ids_required)
    else (
      record m {
        attachments =
            put (trim_space branch)
              (record { tenant_id = trim_space tenant; timeline_id = trim_space timeline })
              m.attachments;
      },
      none,
    )

unfoldable pub set_branch_password :
    Text → Text → PrimaryManager → PrimaryManager × Option SettingError
set_branch_password branch password m =
    if is_blank branch
    then (m, some SettingError.branch_required)
    else if is_blank password
    then (m, some SettingError.password_required)
    else (record m { passwords = put (trim_space branch) (trim_space password) m.passwords }, none)

-- The reservations of a branch: how many operations hold its route.
abbrev pub reserved : Text → PrimaryManager → ℕ
reserved branch m = or_zero 0 (lookup branch m.reservations)

unfoldable pub reserve_primary_route : Text → PrimaryManager → PrimaryManager
reserve_primary_route branch m =
    let k = trim_space branch in
    if is_empty k then m else record m { reservations = put k (reserved k m + 1) m.reservations }

unfoldable pub release_primary_route : Text → PrimaryManager → PrimaryManager
release_primary_route branch m =
    let k = trim_space branch in
    if is_empty k
    then m
    else if leb (reserved k m) 1
    then record m { reservations = erase k m.reservations }
    else record m { reservations = put k (reserved k m - 1) m.reservations }

unfoldable pub reserved_branches : Map ℕ → List Text
reserved_branches [] = []
reserved_branches ((k, n) ∷ rest) =
    let others = reserved_branches rest in if ltb 0 n then k ∷ others else others

abbrev pub begin_route_transition : PrimaryManager → PrimaryManager
begin_route_transition m = record m { transitioning = true }

abbrev pub finish_route_transition : Bool → PrimaryManager → PrimaryManager
finish_route_transition stable m = record m { transitioning = false; route_blocked = not stable }
