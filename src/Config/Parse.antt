-- ===== src/Config/Parse.antt =====
-- internal/config/config.go: the variables of the environment and the values they hold. `Atoi`,
-- `ParseUint` and `ParseBool` are those of Go's `strconv`.
use neon_selfhost.Prelude.{
  ℕ, zero, suc, ◌+◌, ◌*◌, ◌-◌, ◌^◌, Text, codes, Bool, true, false, Option, none, some, List, [],
  ◌∷◌, Result, ok, err, is_empty, text_eq, length, take, drop, ltb, leb, ◌==◌, ◌&&◌, not,
  if◌then◌else◌, has_prefix,
}
use neon_selfhost.Prelude.Int.{ℤ, pos, negsuc, ltbℤ}
use neon_selfhost.Prelude.Trim.{trim_space}
use neon_selfhost.Prelude.Case.{equal_fold}
use neon_selfhost.Prelude.Map.{contains}

-- `os.LookupEnv`
abbrev pub Env : Type 0
Env = Text → Option Text

-- Each error names its variable; `ports_order` is the one about two of them.
pub data ConfigError : Type 0 where
  invalid required : Text → ConfigError
  duplicate : Text → ConfigError
  ports_order : ConfigError

abbrev pub or_empty : Option Text → Text
or_empty none = []
or_empty (some s) = s

-- `os.Getenv`
abbrev pub getenv : Env → Text → Text
getenv env name = or_empty (env name)

-- a trimmed value, or what stands for a blank one
abbrev pub trimmed_or : Env → Text → Text → Text
trimmed_or env name other = let v = trim_space (getenv env name) in if is_empty v then other else v

abbrev pub is_digit : ℕ → Bool
is_digit c = leb b'0' c && leb c b'9'

unfoldable pub digits_value : ℕ → Text → Option ℕ
digits_value n [] = some n
digits_value n (c ∷ s) =
    let rest = digits_value (n * 10 + (c - b'0')) s in if is_digit c then rest else none

abbrev pub unsigned : Text → Option ℕ
unsigned s = if is_empty s then none else digits_value 0 s

abbrev pub positive : Option ℕ → Option ℤ
positive none = none
positive (some n) = if ltb n (2 ^ 63) then some (pos n) else none

abbrev pub negative : Option ℕ → Option ℤ
negative none = none
negative (some zero) = some (pos 0)
negative (some (suc n)) = if ltb n (2 ^ 63) then some (negsuc n) else none

unfoldable pub atoi : Text → Option ℤ
unfolding digits_value
atoi [] = none
atoi (c ∷ s) =
    if c == b'-'
    then negative (unsigned s)
    else if c == b'+'
    then positive (unsigned s)
    else positive (unsigned (c ∷ s))

-- a number that is at least `low`, and at most `high` where there is one
abbrev pub at_most : Option ℤ → ℤ → Bool
at_most none n = true
at_most (some high) n = not (ltbℤ high n)

abbrev pub in_bounds : ℤ → Option ℤ → ℤ → Bool
in_bounds low high n = not (ltbℤ n low) && at_most high n

abbrev pub bounded : Text → ℤ → Option ℤ → Option ℤ → Result ConfigError ℤ
bounded name low high none = err (invalid name)
bounded name low high (some n) = if in_bounds low high n then ok n else err (invalid name)

-- A number of the environment; an absent or empty variable gives the default.
unfoldable pub number_or : Env → Text → ℤ → Option ℤ → ℤ → Result ConfigError ℤ
unfolding atoi
number_or env name low high other =
    let v = getenv env name in if is_empty v then ok other else bounded name low high (atoi v)

-- the same, for a variable that is trimmed first
unfoldable pub trimmed_number_or : Env → Text → ℤ → Option ℤ → ℤ → Result ConfigError ℤ
unfolding atoi trim_space
trimmed_number_or env name low high other =
    let v = trim_space (getenv env name) in
    if is_empty v then ok other else bounded name low high (atoi v)

abbrev pub port_or : Env → Text → ℤ → Result ConfigError ℤ
port_or env name other = number_or env name (pos 1) (some (pos 65535)) other

abbrev true_words : List Text
true_words = codes "1" ∷ codes "t" ∷ codes "T" ∷ codes "TRUE" ∷ codes "true" ∷ codes "True" ∷ []

abbrev false_words : List Text
false_words = codes "0" ∷ codes "f" ∷ codes "F" ∷ codes "FALSE" ∷ codes "false" ∷ codes "False" ∷ []

-- `strconv.ParseBool`
unfoldable pub parse_bool : Text → Option Bool
unfolding text_eq contains
parse_bool s =
    if contains s true_words then some true else if contains s false_words then some false else none

abbrev pub known_bool : Text → Option Bool → Result ConfigError Bool
known_bool name none = err (invalid name)
known_bool name (some b) = ok b

unfoldable pub parse_optional_bool_env : Env → Text → Result ConfigError Bool
unfolding parse_bool trim_space
parse_optional_bool_env env name =
    let v = trim_space (getenv env name) in
    if is_empty v then ok false else known_bool name (parse_bool v)

unfoldable pub has_suffix : Text → ℕ → Bool
has_suffix [] c = false
has_suffix (d ∷ []) c = d == c
has_suffix (d ∷ e ∷ s) c = has_suffix (e ∷ s) c

-- Without the brackets of an address of version 6.
unfoldable pub without_brackets : Text → Text
unfolding has_suffix
without_brackets s =
    if has_prefix s (codes "[") && has_suffix s b']' && ltb 2 (length s)
    then take (length s - 2) (drop 1 s)
    else s

-- `net.ParseIP` and `IsLoopback` are `is_loopback_ip`.
unfoldable pub is_loopback_http_host : (Text → Bool) → Text → Bool
unfolding without_brackets trim_space equal_fold
is_loopback_http_host is_loopback_ip host =
    let trimmed = trim_space host in
    let bare = without_brackets trimmed in
    if is_empty trimmed
    then true
    else if equal_fold bare (codes "localhost")
    then true
    else is_loopback_ip bare
