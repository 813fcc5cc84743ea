-- ===== src/Config/Generations.antt =====
-- internal/config/config.go, `parsePageserverValidGenerations`.
use neon_selfhost.Prelude.{
  ℕ, ◌^◌, Text, codes, Bool, true, Option, none, some, List, [], ◌∷◌, Result, ok, err, ◌>>=◌,
  is_empty, is_some, length, take, drop, ltb, leb, ◌==◌, ◌&&◌, ◌||◌, not, if◌then◌else◌, text_eq,
}
use neon_selfhost.Prelude.Trim.{trim_space}
use neon_selfhost.Prelude.Case.{to_lower}
use neon_selfhost.Prelude.Map.{Map, lookup, put}
use neon_selfhost.Config.Parse.{ConfigError, invalid, duplicate, is_digit, unsigned, digits_value}

abbrev glued : ℕ → List Text → List Text
glued c [] = (c ∷ []) ∷ []
glued c (s ∷ rest) = (c ∷ s) ∷ rest

-- `strings.Split` at a byte
unfoldable pub split_on : ℕ → Text → List Text
split_on c [] = [] ∷ []
split_on c (d ∷ s) = let rest = split_on c s in if d == c then [] ∷ rest else glued d rest

abbrev longer : ℕ → Text × Option Text → Text × Option Text
longer c (before, after) = (c ∷ before, after)

-- `strings.Cut` at a byte; `none` where it is missing
unfoldable pub cut : ℕ → Text → Text × Option Text
cut c [] = ([], none)
cut c (d ∷ s) = let rest = cut c s in if d == c then ([], some s) else longer d rest

unfoldable pub all_hex : Text → Bool
all_hex [] = true
all_hex (c ∷ s) =
    (is_digit c || (leb b'a' c && leb c b'f') || (leb b'A' c && leb c b'F')) && all_hex s

-- 32 digits, and `-` with 4 more or nothing
unfoldable pub is_tenant_shard : Text → Bool
unfolding all_hex
is_tenant_shard s =
    all_hex (take 32 s)
    && (length s == 32
        || (length s == 37 && text_eq (take 1 (drop 32 s)) (codes "-") && all_hex (drop 33 s)))

abbrev pub generations_env : Text
generations_env = codes "PAGESERVER_VALID_TENANT_GENERATIONS"

abbrev pub bounded_generation : Option ℕ → Option ℕ
bounded_generation none = none
bounded_generation (some n) = if ltb n (2 ^ 32) then some n else none

-- `strconv.ParseUint(s, 10, 32)`
unfoldable pub parse_uint32 : Text → Option ℕ
unfolding digits_value
parse_uint32 s = bounded_generation (unsigned s)

abbrev pub added : Text → Map ℕ → Option ℕ → Result ConfigError (Map ℕ)
added tenant m none = err (invalid generations_env)
added tenant m (some n) =
    if is_some (lookup tenant m) then err (duplicate generations_env) else ok (put tenant n m)

abbrev pub cut_entry : Text → Option Text → Map ℕ → Result ConfigError (Map ℕ)
cut_entry tenant none m = err (invalid generations_env)
cut_entry tenant (some raw) m =
    let generation = trim_space raw in
    if is_some (cut b':' generation).1 || not (is_tenant_shard tenant)
    then err (invalid generations_env)
    else added tenant m (parse_uint32 generation)

-- One round of the loop.
unfoldable pub add_entry : Text → Map ℕ → Result ConfigError (Map ℕ)
unfolding cut is_tenant_shard parse_uint32 to_lower trim_space
add_entry raw m =
    let (tenant, generation) = cut b':' (trim_space raw) in
    cut_entry (to_lower (trim_space tenant)) generation m

unfoldable pub add_entries : List Text → Map ℕ → Result ConfigError (Map ℕ)
unfolding add_entry
add_entries [] m = ok m
add_entries (raw ∷ more) m = do next ← add_entry raw m; add_entries more next

unfoldable pub parse_pageserver_valid_generations : Text → Result ConfigError (Map ℕ)
unfolding add_entries split_on trim_space
parse_pageserver_valid_generations raw =
    if is_empty (trim_space raw) then ok [] else add_entries (split_on b',' raw) []
