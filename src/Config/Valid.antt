-- ===== src/Config/Valid.antt =====
-- internal/config/config.go, `Load`: a configuration that loads can be used, and is not open to others by
-- accident.
use neon_selfhost.Prelude.{
  ◌≡◌, refl, Text, codes, Bool, false, Option, none, ok, is_empty, not, ◌&&◌, ◌||◌, arith,
}
use neon_selfhost.Prelude.Int.{ℤ, pos}
use neon_selfhost.Prelude.Trim.{trim_space}
use neon_selfhost.Config.Parse.{
  Env, getenv, number_or, port_or, parse_optional_bool_env, is_loopback_http_host,
}
use neon_selfhost.Config.Generations.{generations_env, parse_pageserver_valid_generations}
use neon_selfhost.Config.Load.{
  Config, load_primary, load_branches, insecure_env, checked_auth, http_host_of, load,
}
use neon_selfhost.Config.Bounds.{
  Gives, Gives-ok, Gives-err, Gives-self, Gives-bind, if-Gives, IsWithin, IsFrom, in_bounds-IsFrom,
  port_or-Gives, number_or-Gives, IsPrimary, IsBranches, load_primary-Gives, load_branches-Gives,
}

-- `safe` says that the host may do without authentication.
record IsGuarded (safe : Bool) (user password : Text) : Type 0 where
  both : is_empty user ≡ is_empty password
  needed : safe ≡ false → is_empty user ≡ false

checked_auth-Gives :
    (safe : Bool) (user password : Text)
    → Gives (λ _. IsGuarded safe user password) (checked_auth safe user password)
checked_auth-Gives safe user password =
    if-Gives _ (not (is_empty user) && is_empty password) _ _ (Gives-err _ _) (λ one.
      if-Gives _ (is_empty user && not (is_empty password)) _ _ (Gives-err _ _) (λ other.
        if-Gives _ (not safe && is_empty user) _ _ (Gives-err _ _)
          (λ guarded. Gives-ok _ tt (record { both = ground arith; needed = λ s. ground arith }))))

-- A configuration of the environment.
pub record IsValid (env : Env) (is_loopback_ip : Text → Bool) (c : Config) : Type 0 where
  pub http_port : IsWithin 1 65535 c.http_port
  pub primary : IsPrimary c.primary
  pub pg_version : IsFrom 1 c.pageserver_pg_version
  pub branches : IsBranches c.branches
  pub auth : is_empty c.basic_auth_user ≡ is_empty c.basic_auth_password
  pub closed :
      parse_optional_bool_env env insecure_env ≡ ok false
      → is_loopback_http_host is_loopback_ip c.http_host ≡ false
      → is_empty c.basic_auth_user ≡ false

load-Gives :
    (env : Env) (duration : Text → Option ℤ) (is_loopback_ip : Text → Bool)
    → Gives (IsValid env is_loopback_ip) (load env duration is_loopback_ip)
unfolding load
load-Gives env duration is_loopback_ip =
    Gives-bind (port_or env (codes "PORT") (pos 8080)) _
      (port_or-Gives env _ (pos 8080) (8080, refl, omega arith, omega arith))
      (λ port p.
        Gives-bind (parse_optional_bool_env env insecure_env) _ (Gives-self _) (λ insecure i.
          Gives-bind (load_primary env) _ (load_primary-Gives env) (λ primary q.
            Gives-bind (number_or env (codes "PAGESERVER_PG_VERSION") (pos 1) none (pos 16)) _
              (number_or-Gives env _ (pos 1) none (pos 16) _ in_bounds-IsFrom
                (16, refl, omega arith))
              (λ version v.
                Gives-bind (parse_pageserver_valid_generations (getenv env generations_env)) _
                  (Gives-self _)
                  (λ generations _.
                    Gives-bind (load_branches env duration) _ (load_branches-Gives env duration)
                      (λ branches b.
                        Gives-bind
                          (checked_auth
                            (insecure || is_loopback_http_host is_loopback_ip (http_host_of env))
                            (trim_space (getenv env (codes "BASIC_AUTH_USER")))
                            (getenv env (codes "BASIC_AUTH_PASSWORD")))
                          _ (checked_auth-Gives _ _ _)
                          (λ _ g. Gives-ok (IsValid env is_loopback_ip) _ (record {
                            http_port = p;
                            primary = q;
                            pg_version = v;
                            branches = b;
                            auth = g.both;
                            closed = λ off out. g.needed (rw out (ground arith));
                          }))))))))

-- A configuration that loads has ports and limits within their bounds, an ordered range of
-- ports, a password for the primary endpoint, and a user with a password or neither; unless the
-- environment allows it, a host that is not loopback has a user.
pub load-IsValid :
    (env : Env) (duration : Text → Option ℤ) (is_loopback_ip : Text → Bool) (c : Config)
    → load env duration is_loopback_ip ≡ ok c
    → IsValid env is_loopback_ip c
load-IsValid env duration is_loopback_ip c h = (load-Gives env duration is_loopback_ip).at c h
