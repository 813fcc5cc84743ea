-- ===== src/Tests/Configuration.antt =====
-- internal/config/config.go: an environment with a few variables, for the Docker mode.
use neon_selfhost.Prelude.{
  ℕ, Text, ◌∷◌, ◌≡◌, refl, codes, false, none, some, [], ok, err, text_eq, if◌then◌else◌,
}
use neon_selfhost.Prelude.Int.{pos}
use neon_selfhost.Prelude.Trim.{trim_space}
use neon_selfhost.Prelude.Case.{to_lower, equal_fold, folded}
use neon_selfhost.Prelude.Map.{Map, lookup, put}
use neon_selfhost.Config.Parse.{
  Env, number_or, trimmed_number_or, parse_optional_bool_env, atoi, digits_value,
  is_loopback_http_host, without_brackets, has_suffix,
}
use neon_selfhost.Config.Generations.{
  parse_pageserver_valid_generations, add_entries, add_entry, split_on, cut, is_tenant_shard,
  all_hex, parse_uint32,
}
use neon_selfhost.Config.Tenants.{AreGenerations, entries_in, parse_generations-AreGenerations}
use neon_selfhost.Config.Parse.{required}
use neon_selfhost.Config.Load.{
  Config, docker, load, load_primary, load_branches, duration_or, ten_minutes,
}
use neon_selfhost.Config.Valid.{IsValid, load-IsValid}

abbrev env : Env
env name =
    if text_eq name (codes "PORT")
    then some (codes "8081")
    else if text_eq name (codes "HTTP_HOST")
    then some (codes "0.0.0.0")
    else if text_eq name (codes "BASIC_AUTH_USER")
    then some (codes " ann ")
    else if text_eq name (codes "BASIC_AUTH_PASSWORD")
    then some (codes "secret")
    else if text_eq name (codes "PRIMARY_ENDPOINT_MODE")
    then some (codes "Docker")
    else if text_eq name (codes "PRIMARY_ENDPOINT_PASSWORD")
    then some (codes "pw")
    else none

abbrev config : Config
config = record {
  http_host = codes "0.0.0.0";
  http_port = pos 8081;
  basic_auth_user = codes "ann";
  basic_auth_password = codes "secret";
  controller_data_dir = [];
  compute_data_dir = [];
  primary = record {
    mode = docker;
    service = codes "compute";
    host = codes "127.0.0.1";
    port = pos 5432;
    database = codes "postgres";
    user = codes "cloud_admin";
    password = codes "pw";
    backend_host = codes "compute";
    backend_port = pos 5432;
  };
  docker_socket_path = codes "/var/run/docker.sock";
  docker_compose_project = codes "neon-selfhost";
  pageserver_api = codes "http://pageserver:9898";
  pageserver_pg_version = pos 16;
  pageserver_valid_generations = [];
  branches = record {
    bind_host = codes "127.0.0.1";
    port_start = pos 56000;
    port_end = pos 56049;
    idle_stop = ten_minutes;
    max_conns = pos 32;
    compute_image = codes "neon-selfhost/compute:dev";
    history_limit = pos 200;
  };
}

loads : load env (λ s. none) (λ s. false) ≡ ok config
unfolding load load_primary load_branches number_or trimmed_number_or duration_or
    parse_optional_bool_env parse_pageserver_valid_generations atoi digits_value
    is_loopback_http_host without_brackets has_suffix equal_fold folded to_lower trim_space text_eq
loads = refl

load-IsValid_example : IsValid env (λ s. false) config
load-IsValid_example = load-IsValid env (λ s. none) (λ s. false) config loads

abbrev open_env : Env
open_env name = if text_eq name (codes "HTTP_HOST") then some (codes "0.0.0.0") else none

-- without a user the host that everyone can reach is refused
refuses_open : load open_env (λ s. none) (λ s. false) ≡ err (required (codes "BASIC_AUTH_USER"))
unfolding load load_primary load_branches number_or trimmed_number_or duration_or
    parse_optional_bool_env parse_pageserver_valid_generations atoi digits_value
    is_loopback_http_host without_brackets has_suffix equal_fold folded to_lower trim_space text_eq
refuses_open = refl

abbrev tenants : Text
tenants =
    codes "0123456789abcdef0123456789ABCDEF-0001 : 7, 00000000000000000000000000000000:4294967295"

abbrev generations : Map ℕ
generations =
    (codes "0123456789abcdef0123456789abcdef-0001", 7)
    ∷ (codes "00000000000000000000000000000000", 4294967295)
    ∷ []

accepted : parse_pageserver_valid_generations tenants ≡ ok generations
unfolding parse_pageserver_valid_generations add_entries add_entry split_on cut is_tenant_shard
    all_hex parse_uint32 digits_value to_lower trim_space text_eq lookup put
accepted = refl

parse_generations-AreGenerations_example : AreGenerations (entries_in tenants) generations
parse_generations-AreGenerations_example =
    parse_generations-AreGenerations tenants generations accepted
