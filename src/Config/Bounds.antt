-- ===== src/Config/Bounds.antt =====
-- internal/config/config.go: what every configuration that loads has.
use neon_selfhost.Prelude.{
  ℕ, ◌≤◌, ◌≡◌, refl, Text, codes, Bool, true, false, Bool-cases, inl, inr, Option, none, some, [],
  ◌∷◌, Result, ok, err, ◌>>=◌, is_empty, if◌then◌else◌, arith,
}
use neon_selfhost.Prelude.Int.{ℤ, pos, negsuc, ltbℤ}
use neon_selfhost.Prelude.Trim.{trim_space}
use neon_selfhost.Prelude.Case.{to_lower}
use neon_selfhost.Config.Parse.{
  Env, ConfigError, getenv, trimmed_or, bounded, in_bounds, number_or, trimmed_number_or, port_or,
}
use neon_selfhost.Config.Load.{
  EndpointMode, memory, docker, Primary, Branches, mode_or_memory, user_password, load_primary,
  ordered_ports, ten_minutes, duration_or, load_branches,
}

-- What holds of every result.
pub record Gives {A : Type 0} (Q : A → Type 0) (r : Result ConfigError A) : Type 0 where
  pub at : (a : A) → r ≡ ok a → Q a

pub Gives-ok : {A : Type 0} (Q : A → Type 0) (a : A) → Q a → Gives Q (ok a)
Gives-ok Q a q = record { at = λ b h. let same : a ≡ b = cc in rw (← same) q }

pub Gives-err : {A : Type 0} (Q : A → Type 0) (e : ConfigError) → Gives Q (err e)
Gives-err Q e = record { at = λ b h. absurd (cc) }

pub Gives-self : {A : Type 0} (r : Result ConfigError A) → Gives (λ a. r ≡ ok a) r
Gives-self r = record { at = λ a h. h }

pub Gives-bind :
    {A B : Type 0} {Q : A → Type 0} {S : B → Type 0} (r : Result ConfigError A)
    (f : A → Result ConfigError B)
    → Gives Q r
    → ((a : A) → Q a → Gives S (f a))
    → Gives S (r >>= f)
Gives-bind (ok a) f g h = h a (g.at a refl)
Gives-bind (err e) f g h = Gives-err _ e

abbrev pub IsFrom : ℕ → ℤ → Type 0
IsFrom low n = (k : ℕ) × (n ≡ pos k) × (low ≤ k)

abbrev pub IsWithin : ℕ → ℕ → ℤ → Type 0
IsWithin low high n = (k : ℕ) × (n ≡ pos k) × (low ≤ k) × (k ≤ high)

in_bounds-IsWithin :
    (high : ℕ) (n : ℤ) → in_bounds (pos 1) (some (pos high)) n ≡ true → IsWithin 1 high n
in_bounds-IsWithin high (pos k) h = (k, refl, ground arith, ground arith)
in_bounds-IsWithin high (negsuc k) h = absurd (ground arith)

pub in_bounds-IsFrom : (n : ℤ) → in_bounds (pos 1) none n ≡ true → IsFrom 1 n
in_bounds-IsFrom (pos k) h = (k, refl, ground arith)
in_bounds-IsFrom (negsuc k) h = absurd (ground arith)

bounded-Gives :
    (name : Text) (low : ℤ) (high : Option ℤ) (Q : ℤ → Type 0) (r : Option ℤ)
    → ((n : ℤ) → in_bounds low high n ≡ true → Q n)
    → Gives Q (bounded name low high r)
bounded-Gives name low high Q none h = Gives-err Q _
bounded-Gives name low high Q (some n) h = elim (Bool-cases (in_bounds low high n)) [
  | inl fits ↦ rw fits (Gives-ok Q n (h n fits))
  | inr off ↦ rw off (Gives-err Q _)
]

pub if-Gives :
    {A : Type 0} (Q : A → Type 0) (c : Bool) (x y : Result ConfigError A)
    → Gives Q x
    → (c ≡ false → Gives Q y)
    → Gives Q (if c then x else y)
if-Gives Q true x y hx hy = hx
if-Gives Q false x y hx hy = hy refl

module _ (env : Env) (name : Text) (low : ℤ) (high : Option ℤ) (other : ℤ) (Q : ℤ → Type 0)
    (fits : (n : ℤ) → in_bounds low high n ≡ true → Q n) (q : Q other) where
  pub number_or-Gives : Gives Q (number_or env name low high other)
  unfolding number_or
  number_or-Gives =
      if-Gives Q (is_empty (getenv env name)) _ _ (Gives-ok Q other q)
        (λ _. bounded-Gives name low high Q _ fits)

  trimmed_number_or-Gives : Gives Q (trimmed_number_or env name low high other)
  unfolding trimmed_number_or
  trimmed_number_or-Gives =
      if-Gives Q (is_empty (trim_space (getenv env name))) _ _ (Gives-ok Q other q)
        (λ _. bounded-Gives name low high Q _ fits)

pub port_or-Gives :
    (env : Env) (name : Text) (other : ℤ)
    → IsWithin 1 65535 other
    → Gives (IsWithin 1 65535) (port_or env name other)
port_or-Gives env name other q =
    number_or-Gives env name (pos 1) (some (pos 65535)) other _ (in_bounds-IsWithin 65535) q

duration_or-Gives :
    (env : Env) (duration : Text → Option ℤ) (name : Text) (other : ℤ)
    → IsFrom 1 other
    → Gives (IsFrom 1) (duration_or env duration name other)
unfolding duration_or
duration_or-Gives env duration name other q =
    if-Gives _ (is_empty (trim_space (getenv env name))) _ _ (Gives-ok _ other q) (λ _.
      bounded-Gives name (pos 1) none _ (duration (trim_space (getenv env name))) in_bounds-IsFrom)

-- A primary endpoint has ports, and a password that is not empty.
pub record IsPrimary (p : Primary) : Type 0 where
  pub port : IsWithin 1 65535 p.port
  pub backend_port : IsWithin 1 65535 p.backend_port
  pub password : is_empty p.password ≡ false

pub record IsBranches (b : Branches) : Type 0 where
  pub port_start : IsWithin 1 65535 b.port_start
  pub port_end : IsWithin 1 65535 b.port_end
  pub ordered : ltbℤ b.port_end b.port_start ≡ false
  pub idle_stop : IsFrom 1 b.idle_stop
  pub max_conns : IsFrom 1 b.max_conns
  pub history_limit : IsWithin 1 100000 b.history_limit

user_password-Gives :
    (mode : EndpointMode) (user s : Text)
    → is_empty user ≡ false
    → Gives (λ p. is_empty p ≡ false) (user_password mode user s)
user_password-Gives docker user [] h = Gives-err _ _
user_password-Gives memory user [] h = Gives-ok _ user h
user_password-Gives docker user (c ∷ s) h = Gives-ok _ (c ∷ s) refl
user_password-Gives memory user (c ∷ s) h = Gives-ok _ (c ∷ s) refl

trimmed_or-named :
    (env : Env) (name other : Text)
    → is_empty other ≡ false
    → is_empty (trimmed_or env name other) ≡ false
trimmed_or-named env name other h = ground arith

pub load_primary-Gives : (env : Env) → Gives IsPrimary (load_primary env)
unfolding load_primary
load_primary-Gives env =
    let user = trimmed_or env (codes "PRIMARY_ENDPOINT_USER") (codes "cloud_admin") in
    Gives-bind (mode_or_memory (to_lower (trim_space (getenv env (codes "PRIMARY_ENDPOINT_MODE")))))
      _ (Gives-self _)
      (λ mode _.
        Gives-bind (port_or env (codes "PRIMARY_ENDPOINT_PORT") (pos 5432)) _
          (port_or-Gives env _ (pos 5432) (5432, refl, omega arith, omega arith))
          (λ port p.
            Gives-bind (user_password mode user (getenv env (codes "PRIMARY_ENDPOINT_PASSWORD"))) _
              (user_password-Gives mode user _
                (trimmed_or-named env (codes "PRIMARY_ENDPOINT_USER") (codes "cloud_admin") refl))
              (λ password w.
                Gives-bind (port_or env (codes "PRIMARY_ENDPOINT_BACKEND_PORT") port) _
                  (port_or-Gives env _ port p)
                  (λ backend b.
                    Gives-ok IsPrimary _ (record { port = p; backend_port = b; password = w })))))

ordered_ports-Gives :
    (first last : ℤ) → Gives (λ u. ltbℤ last first ≡ false) (ordered_ports first last)
ordered_ports-Gives first last =
    if-Gives _ (ltbℤ last first) _ _ (Gives-err _ _) (λ h. Gives-ok _ tt h)

pub load_branches-Gives :
    (env : Env) (duration : Text → Option ℤ) → Gives IsBranches (load_branches env duration)
unfolding load_branches
load_branches-Gives env duration =
    Gives-bind (port_or env (codes "BRANCH_ENDPOINT_PORT_START") (pos 56000)) _
      (port_or-Gives env _ (pos 56000) (56000, refl, omega arith, omega arith))
      (λ first f.
        Gives-bind (port_or env (codes "BRANCH_ENDPOINT_PORT_END") (pos 56049)) _
          (port_or-Gives env _ (pos 56049) (56049, refl, omega arith, omega arith))
          (λ last l.
            Gives-bind (ordered_ports first last) _ (ordered_ports-Gives first last) (λ _ o.
              Gives-bind
                (duration_or env duration (codes "BRANCH_ENDPOINT_IDLE_TIMEOUT") ten_minutes) _
                (duration_or-Gives env duration _ ten_minutes (600000000000, refl, omega arith))
                (λ idle i.
                  Gives-bind
                    (trimmed_number_or env (codes "BRANCH_ENDPOINT_MAX_CONNECTIONS") (pos 1) none
                      (pos 32))
                    _
                    (trimmed_number_or-Gives env _ (pos 1) none (pos 32) _ in_bounds-IsFrom
                      (32, refl, omega arith))
                    (λ conns c.
                      Gives-bind
                        (trimmed_number_or env (codes "SQL_HISTORY_RETENTION_LIMIT") (pos 1)
                          (some (pos 100000)) (pos 200))
                        _
                        (trimmed_number_or-Gives env _ (pos 1) (some (pos 100000)) (pos 200) _
                          (in_bounds-IsWithin 100000) (200, refl, omega arith, omega arith))
                        (λ limit h. Gives-ok IsBranches _ (record {
                          port_start = f;
                          port_end = l;
                          ordered = o;
                          idle_stop = i;
                          max_conns = c;
                          history_limit = h;
                        })))))))
