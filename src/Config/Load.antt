-- ===== src/Config/Load.antt =====
-- internal/config/config.go, `Load`. The reading of a duration (`time.ParseDuration`, in nanoseconds)
-- and the test of an IP address are arguments.
use neon_selfhost.Prelude.{
  ℕ, Text, codes, Bool, Option, none, some, [], ◌∷◌, Result, ok, err, ◌>>=◌, ◌>>◌, is_empty, ◌&&◌,
  ◌||◌, not, if◌then◌else◌, text_eq,
}
use neon_selfhost.Prelude.Int.{ℤ, pos, ltbℤ}
use neon_selfhost.Prelude.Trim.{trim_space}
use neon_selfhost.Prelude.Case.{to_lower}
use neon_selfhost.Prelude.Map.{Map}
use neon_selfhost.Config.Parse.{
  Env, ConfigError, invalid, required, ports_order, getenv, trimmed_or, number_or,
  trimmed_number_or, port_or, bounded, parse_optional_bool_env, is_loopback_http_host,
}
use neon_selfhost.Config.Generations.{generations_env, parse_pageserver_valid_generations}

pub data EndpointMode : Type 0 where
  memory docker : EndpointMode

-- The settings of the primary endpoint.
pub record Primary : Type 0 where
  pub mode : EndpointMode
  pub service : Text
  pub host : Text
  pub port : ℤ
  pub database : Text
  pub user : Text
  pub password : Text
  pub backend_host : Text
  pub backend_port : ℤ

-- The settings of the branch endpoints.
pub record Branches : Type 0 where
  pub bind_host : Text
  pub port_start : ℤ
  pub port_end : ℤ
  pub idle_stop : ℤ
  pub max_conns : ℤ
  pub compute_image : Text
  pub history_limit : ℤ

pub record Config : Type 0 where
  pub http_host : Text
  pub http_port : ℤ
  pub basic_auth_user : Text
  pub basic_auth_password : Text
  pub controller_data_dir : Text
  pub compute_data_dir : Text
  pub primary : Primary
  pub docker_socket_path : Text
  pub docker_compose_project : Text
  pub pageserver_api : Text
  pub pageserver_pg_version : ℤ
  pub pageserver_valid_generations : Map ℕ
  pub branches : Branches

abbrev pub mode_named : Text → Result ConfigError EndpointMode
mode_named s =
    if text_eq s (codes "memory")
    then ok memory
    else if text_eq s (codes "docker")
    then ok docker
    else err (invalid (codes "PRIMARY_ENDPOINT_MODE"))

abbrev pub mode_or_memory : Text → Result ConfigError EndpointMode
mode_or_memory s = mode_named (if is_empty s then codes "memory" else s)

abbrev pub user_password : EndpointMode → Text → Text → Result ConfigError Text
user_password docker user [] = err (required (codes "PRIMARY_ENDPOINT_PASSWORD"))
user_password memory user [] = ok user
user_password mode user (c ∷ s) = ok (c ∷ s)

abbrev pub ordered_ports : ℤ → ℤ → Result ConfigError Unit
ordered_ports first last = if ltbℤ last first then err ports_order else ok tt

abbrev pub ten_minutes : ℤ
ten_minutes = pos 600000000000

abbrev pub insecure_env : Text
insecure_env = codes "ALLOW_INSECURE_HTTP_BIND"

-- Basic authentication is a user and a password or neither; without it the host is `safe`.
abbrev pub checked_auth : Bool → Text → Text → Result ConfigError Unit
checked_auth safe user password =
    if not (is_empty user) && is_empty password
    then err (required (codes "BASIC_AUTH_PASSWORD"))
    else if is_empty user && not (is_empty password)
    then err (required (codes "BASIC_AUTH_USER"))
    else if not safe && is_empty user
    then err (required (codes "BASIC_AUTH_USER"))
    else ok tt

abbrev pub host_or_local : Text → Text
host_or_local host = if is_empty host then codes "127.0.0.1" else host

-- `HTTP_HOST` is not trimmed
abbrev pub http_host_of : Env → Text
http_host_of env = host_or_local (getenv env (codes "HTTP_HOST"))

-- A duration of the environment, which must be positive.
unfoldable pub duration_or : Env → (Text → Option ℤ) → Text → ℤ → Result ConfigError ℤ
unfolding trim_space
duration_or env duration name other =
    let v = trim_space (getenv env name) in
    if is_empty v then ok other else bounded name (pos 1) none (duration v)

module _ (env : Env) where
  -- from `PRIMARY_ENDPOINT_MODE` to the port of the backend
  unfoldable pub load_primary : Result ConfigError Primary
  unfolding number_or to_lower trim_space
  load_primary = do
    mode ← mode_or_memory (to_lower (trim_space (getenv env (codes "PRIMARY_ENDPOINT_MODE"))))
    port ← port_or env (codes "PRIMARY_ENDPOINT_PORT") (pos 5432)
    password ←
        user_password mode (trimmed_or env (codes "PRIMARY_ENDPOINT_USER") (codes "cloud_admin"))
          (getenv env (codes "PRIMARY_ENDPOINT_PASSWORD"))
    backend_port ← port_or env (codes "PRIMARY_ENDPOINT_BACKEND_PORT") port
    ok (record {
      mode = mode;
      service = trimmed_or env (codes "PRIMARY_ENDPOINT_SERVICE") (codes "compute");
      host = trimmed_or env (codes "PRIMARY_ENDPOINT_HOST") (codes "127.0.0.1");
      port = port;
      database = trimmed_or env (codes "PRIMARY_ENDPOINT_DATABASE") (codes "postgres");
      user = trimmed_or env (codes "PRIMARY_ENDPOINT_USER") (codes "cloud_admin");
      password = password;
      backend_host =
          trimmed_or env (codes "PRIMARY_ENDPOINT_BACKEND_HOST")
            (trimmed_or env (codes "PRIMARY_ENDPOINT_SERVICE") (codes "compute"));
      backend_port = backend_port;
    })

  -- from `BRANCH_ENDPOINT_BIND_HOST` to the limit of the SQL history
  unfoldable pub load_branches : (Text → Option ℤ) → Result ConfigError Branches
  unfolding number_or trimmed_number_or trim_space
  load_branches duration = do
    first ← port_or env (codes "BRANCH_ENDPOINT_PORT_START") (pos 56000)
    last ← port_or env (codes "BRANCH_ENDPOINT_PORT_END") (pos 56049)
    ordered_ports first last
    idle ← duration_or env duration (codes "BRANCH_ENDPOINT_IDLE_TIMEOUT") ten_minutes
    conns ← trimmed_number_or env (codes "BRANCH_ENDPOINT_MAX_CONNECTIONS") (pos 1) none (pos 32)
    limit ←
        trimmed_number_or env (codes "SQL_HISTORY_RETENTION_LIMIT") (pos 1) (some (pos 100000))
          (pos 200)
    ok (record {
      bind_host = trimmed_or env (codes "BRANCH_ENDPOINT_BIND_HOST") (codes "127.0.0.1");
      port_start = first;
      port_end = last;
      idle_stop = idle;
      max_conns = conns;
      compute_image =
          trimmed_or env (codes "BRANCH_ENDPOINT_COMPUTE_IMAGE")
            (codes "neon-selfhost/compute:dev");
      history_limit = limit;
    })

  unfoldable pub load : (Text → Option ℤ) → (Text → Bool) → Result ConfigError Config
  unfolding load_primary load_branches number_or is_loopback_http_host parse_optional_bool_env
      trim_space parse_pageserver_valid_generations
  load duration is_loopback_ip = do
    port ← port_or env (codes "PORT") (pos 8080)
    insecure ← parse_optional_bool_env env insecure_env
    primary ← load_primary
    version ← number_or env (codes "PAGESERVER_PG_VERSION") (pos 1) none (pos 16)
    generations ← parse_pageserver_valid_generations (getenv env generations_env)
    branches ← load_branches duration
    checked_auth (insecure || is_loopback_http_host is_loopback_ip (http_host_of env))
        (trim_space (getenv env (codes "BASIC_AUTH_USER")))
        (getenv env (codes "BASIC_AUTH_PASSWORD"))
    ok (record {
      http_host = http_host_of env;
      http_port = port;
      basic_auth_user = trim_space (getenv env (codes "BASIC_AUTH_USER"));
      basic_auth_password = getenv env (codes "BASIC_AUTH_PASSWORD");
      controller_data_dir = trim_space (getenv env (codes "CONTROLLER_DATA_DIR"));
      compute_data_dir = trim_space (getenv env (codes "COMPUTE_DATA_DIR"));
      primary = primary;
      docker_socket_path =
          trimmed_or env (codes "DOCKER_SOCKET_PATH") (codes "/var/run/docker.sock");
      docker_compose_project =
          trimmed_or env (codes "DOCKER_COMPOSE_PROJECT") (codes "neon-selfhost");
      pageserver_api = trimmed_or env (codes "PAGESERVER_API") (codes "http://pageserver:9898");
      pageserver_pg_version = version;
      pageserver_valid_generations = generations;
      branches = branches;
    })
