-- ===== src/Proxy/Options.antt =====
-- internal/server/branch_endpoints.go: the checks and defaults of `NewDockerBranchEndpointController`.
-- The data directory, the names of volume and network and the logger are passed on to Docker.
use neon_selfhost.Prelude.{
  ℕ, ◌≤◌, ◌<◌, ◌≡◌, Text, codes, Bool, false, Option, none, some, Result, ok, err, ◌||◌, ◌++◌, not,
  if_split, if◌then◌else◌, arith,
}
use neon_selfhost.Prelude.Int.{ℤ, pos, pos_part, ltbℤ}
use mathlib.Core.Path.{subst}
use neon_selfhost.Prelude.Trim.{trim_space}
use neon_selfhost.Endpoint.Manager.{is_blank, default_database, default_user, default_host, is_zero}
use neon_selfhost.Proxy.World.{Settings}

-- `primary_routes` says whether there is a primary endpoint, and whether it exposes its routes.
pub record Options : Type 0 where
  pub has_store : Bool
  pub compose_project : Text
  pub advertised_host : Text
  pub bind_host : Text
  pub port_start : ℤ
  pub port_end : ℤ
  pub database : Text
  pub user : Text
  pub primary_routes : Option Bool
  pub primary_backend_host : Text
  pub primary_backend_port : ℤ
  pub compute_image : Text
  pub compute_volume : Text
  pub compute_network : Text
  pub compute_data_dir : Text
  pub pg_version : ℤ
  pub startup_timeout : ℤ
  pub idle_timeout : ℤ
  pub max_active : ℤ

-- The rest of the constructor's values, which only Docker and the network see.
pub record Container : Type 0 where
  pub compose_project : Text
  pub bind_host : Text
  pub volume : Text
  pub network : Text
  pub data_dir : Text
  pub pg_version : ℕ
  pub idle_timeout : ℕ

pub data OptionError : Type 0 where
  store_required bad_port_range bad_backend_address no_route_state data_dir_required : OptionError

abbrev pub or_text : Text → Text → Text
or_text default s = if is_blank s then default else trim_space s

abbrev pub or_port : ℤ → ℤ → ℤ
or_port default p = if is_zero p then default else p

-- `if n <= 0 { n = default }`
abbrev pub or_positive : ℕ → ℤ → ℕ
or_positive default n = if ltbℤ (pos 0) n then pos_part n else default

abbrev pub port_start_of : Options → ℤ
port_start_of o = or_port (pos 56000) o.port_start

abbrev pub port_end_of : Options → ℤ
port_end_of o = or_port (pos 56049) o.port_end

abbrev pub is_bad_range : ℤ → ℤ → Bool
is_bad_range lo hi = ltbℤ lo (pos 1) || ltbℤ hi lo || ltbℤ (pos 65535) hi

abbrev pub is_bad_backend : Options → Bool
is_bad_backend o =
    is_blank o.primary_backend_host
    || ltbℤ o.primary_backend_port (pos 1)
    || ltbℤ (pos 65535) o.primary_backend_port

abbrev pub primary_error : Options → Option Bool → Option OptionError
primary_error o none = none
primary_error o (some exposes) =
    if is_bad_backend o
    then some OptionError.bad_backend_address
    else if exposes
    then none
    else some OptionError.no_route_state

abbrev pub has_routes : Option Bool → Bool
has_routes none = false
has_routes (some b) = b

abbrev pub project_of : Options → Text
project_of o = or_text (codes "neon-selfhost") o.compose_project

abbrev pub settings_of : Options → Settings
settings_of o = record {
  port_start = pos_part (port_start_of o);
  port_end = pos_part (port_end_of o);
  max_active = or_positive 32 o.max_active;
  has_primary = has_routes o.primary_routes;
  compute_image = or_text (codes "neon-selfhost/compute:dev") o.compute_image;
  advertised_host = or_text default_host o.advertised_host;
  database = or_text default_database o.database;
  user = or_text default_user o.user;
  startup_timeout = or_positive 60000 o.startup_timeout;
  drain_timeout = 5000;
}

-- defaultPageserverPGVersion is 16
abbrev pub container_of : Options → Container
container_of o = record {
  compose_project = project_of o;
  bind_host = or_text (codes "127.0.0.1") o.bind_host;
  volume = or_text (project_of o ++ codes "_compute_state") o.compute_volume;
  network = or_text (project_of o ++ codes "_neon_internal") o.compute_network;
  data_dir = trim_space o.compute_data_dir;
  pg_version = or_positive 16 o.pg_version;
  idle_timeout = or_positive 600000 o.idle_timeout;
}

abbrev pub with_data_dir : Options → Option OptionError → Result OptionError (Settings × Container)
with_data_dir o (some e) = err e
with_data_dir o none =
    if is_blank o.compute_data_dir
    then err OptionError.data_dir_required
    else ok (settings_of o, container_of o)

unfoldable pub new_settings : Options → Result OptionError (Settings × Container)
new_settings o =
    if not o.has_store
    then err OptionError.store_required
    else if is_bad_range (port_start_of o) (port_end_of o)
    then err OptionError.bad_port_range
    else with_data_dir o (primary_error o o.primary_routes)

-- What the controller relies on.
pub record IsFit (c : Settings) : Type 0 where
  pub low : 1 ≤ c.port_start
  pub ordered : c.port_start ≤ c.port_end
  pub high : c.port_end ≤ 65535
  pub some_clients : 0 < c.max_active

abbrev Fits : Result OptionError (Settings × Container) → Type 0
Fits (ok (c, k)) = IsFit c
Fits (err e) = Unit

ordered_range :
    (lo hi : ℤ)
    → is_bad_range lo hi ≡ false
    → (1 ≤ pos_part lo) × (pos_part lo ≤ pos_part hi) × (pos_part hi ≤ 65535)
ordered_range lo hi h = ground arith

or_positive_lem : (default : ℕ) (n : ℤ) → 0 < default → 0 < or_positive default n
or_positive_lem default n h = ground arith

settings_of-IsFit :
    (o : Options) → is_bad_range (port_start_of o) (port_end_of o) ≡ false → IsFit (settings_of o)
settings_of-IsFit o h =
    let (low, ordered, high) = ordered_range (port_start_of o) (port_end_of o) h in
    record {
      low = low;
      ordered = ordered;
      high = high;
      some_clients = or_positive_lem 32 o.max_active (omega arith);
    }

with_data_dir-Fits :
    (o : Options) (e : Option OptionError) → IsFit (settings_of o) → Fits (with_data_dir o e)
with_data_dir-Fits o (some e) h = tt
with_data_dir-Fits o none h = if_split Fits (is_blank o.compute_data_dir) _ _ (λ _. tt) (λ _. h)

fits : (o : Options) → Fits (new_settings o)
unfolding new_settings
fits o =
    if_split Fits (not o.has_store) _ _ (λ _. tt)
      (λ _.
        if_split Fits (is_bad_range (port_start_of o) (port_end_of o)) _ _ (λ _. tt)
          (λ good.
            with_data_dir-Fits o (primary_error o o.primary_routes) (settings_of-IsFit o good)))

pub new_settings-IsFit :
    (o : Options) (c : Settings) (k : Container) → new_settings o ≡ ok (c, k) → IsFit c
new_settings-IsFit o c k h = subst Fits h (fits o)
