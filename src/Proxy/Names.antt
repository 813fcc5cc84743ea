-- ===== src/Proxy/Names.antt =====
-- internal/server/branch_endpoints.go: the slug of a branch in the names of files and containers.
use neon_selfhost.Prelude.{
  ℕ, zero, suc, ◌≤◌, ◌≡◌, refl, Text, codes, Bool, true, Bool-cases, inl, inr, [], ◌∷◌, All,
  is_empty, length, length-take, take, ltb, leb, ◌==◌, ◌&&◌, ◌||◌, if_split, if◌then◌else◌, arith,
}
use neon_selfhost.Prelude.Trim.{trim_space}
use neon_selfhost.Prelude.Case.{to_lower}

unfoldable pub is_slug_rune : ℕ → Bool
is_slug_rune c = (leb b'a' c && leb c b'z') || (leb b'0' c && leb c b'9') || c == b'-' || c == b'_'

unfoldable pub slugged : Text → Text
unfolding is_slug_rune
slugged [] = []
slugged (c ∷ s) = (if is_slug_rune c then c else b'-') ∷ slugged s

-- `strings.Trim(s, "-")`
unfoldable pub trim_dashes_left : Text → Text
trim_dashes_left [] = []
trim_dashes_left (c ∷ s) = if c == b'-' then trim_dashes_left s else c ∷ s

abbrev keep_rune : ℕ → Text → Text
keep_rune c [] = if c == b'-' then [] else c ∷ []
keep_rune c (d ∷ s) = c ∷ d ∷ s

unfoldable pub trim_dashes_right : Text → Text
trim_dashes_right [] = []
trim_dashes_right (c ∷ s) = keep_rune c (trim_dashes_right s)

-- the slug has one byte for each rune
abbrev pub cut : Text → Text
cut v = if ltb 48 (length v) then take 48 v else v

abbrev pub or_branch : Text → Text
or_branch v = if is_empty v then codes "branch" else cut v

unfoldable pub sanitize_endpoint_branch_name : Text → Text
unfolding slugged trim_dashes_left trim_dashes_right
sanitize_endpoint_branch_name name =
    if is_empty (to_lower (trim_space name))
    then codes "main"
    else or_branch (trim_dashes_right (trim_dashes_left (slugged (to_lower (trim_space name)))))

abbrev pub IsSlugRune : ℕ → Type 0
IsSlugRune c = is_slug_rune c ≡ true

slugged-All : (s : Text) → All IsSlugRune (slugged s)
unfolding slugged is_slug_rune
slugged-All [] = tt
slugged-All (c ∷ s) =
    (elim (Bool-cases (is_slug_rune c)) [ inl y ↦ rw y y | inr n ↦ rw n refl ], slugged-All s)

trim_dashes_left-All : (s : Text) → All IsSlugRune s → All IsSlugRune (trim_dashes_left s)
unfolding trim_dashes_left
trim_dashes_left-All [] h = tt
trim_dashes_left-All (c ∷ s) h =
    if_split (All IsSlugRune) (c == b'-') _ _ (λ _. trim_dashes_left-All s h.1) (λ _. h)

keep_rune-All :
    (c : ℕ) (s : Text) → IsSlugRune c → All IsSlugRune s → All IsSlugRune (keep_rune c s)
keep_rune-All c [] h k = if_split (All IsSlugRune) (c == b'-') _ _ (λ _. tt) (λ _. (h, tt))
keep_rune-All c (d ∷ s) h k = (h, k)

trim_dashes_right-All : (s : Text) → All IsSlugRune s → All IsSlugRune (trim_dashes_right s)
unfolding trim_dashes_right
trim_dashes_right-All [] h = tt
trim_dashes_right-All (c ∷ s) h =
    keep_rune-All c (trim_dashes_right s) h.0 (trim_dashes_right-All s h.1)

take-All : (n : ℕ) (s : Text) → All IsSlugRune s → All IsSlugRune (take n s)
take-All zero s h = tt
take-All (suc n) [] h = tt
take-All (suc n) (c ∷ s) h = (h.0, take-All n s h.1)

pub record IsSlug (s : Text) : Type 0 where
  pub runes : All IsSlugRune s
  pub nonempty : 1 ≤ length s
  pub short : length s ≤ 48

cut-IsSlug : (v : Text) → All IsSlugRune v → 1 ≤ length v → IsSlug (cut v)
cut-IsSlug v h n =
    if_split IsSlug (ltb 48 (length v)) _ _
      (λ long. record {
        runes = take-All 48 v h;
        nonempty = ground (arith, length-take 48 v);
        short = ground (arith, length-take 48 v);
      })
      (λ fits. record { runes = h; nonempty = n; short = ground arith })

or_branch-IsSlug : (v : Text) → All IsSlugRune v → IsSlug (or_branch v)
unfolding is_slug_rune
or_branch-IsSlug [] h = record {
  runes = (refl, (refl, (refl, (refl, (refl, (refl, tt))))));
  nonempty = omega arith;
  short = omega arith;
}
or_branch-IsSlug (c ∷ v) h = cut-IsSlug (c ∷ v) h (omega arith)

-- The slug of any branch name has between 1 and 48 characters, each a lower-case letter of
-- ASCII, a digit, a dash or an underscore.
pub sanitize_endpoint_branch_name-IsSlug :
    (name : Text) → IsSlug (sanitize_endpoint_branch_name name)
unfolding sanitize_endpoint_branch_name
sanitize_endpoint_branch_name-IsSlug name =
    if_split IsSlug (is_empty (to_lower (trim_space name))) _ _ (λ _. main-IsSlug)
      (λ _. or_branch-IsSlug _ (
        trim_dashes_right-All _
          (trim_dashes_left-All _ (slugged-All (to_lower (trim_space name))))))
  where
    main-IsSlug : IsSlug (codes "main")
    main-IsSlug = record {
      runes = unfold is_slug_rune in (refl, (refl, (refl, (refl, tt))));
      nonempty = omega arith;
      short = omega arith;
    }
