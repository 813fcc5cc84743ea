-- ===== src/Library/Prune.antt =====
-- internal/server/sql_query_library.go: `pruneSQLExecutionHistory`, and the cut of the history in
-- memory.
use neon_selfhost.Prelude.{
  ℕ, zero, suc, ◌-◌, ◌≡◌, refl, ap, ◌∙◌, sym, true, false, ◌||◌, Bool-cases, inl, inr, List, [],
  ◌∷◌, ◌++◌, length, drop, ltb, ◌==◌, All, arith, map,
}
use mathlib.Core.List.{reverse, reverse-append, map-append}
use neon_selfhost.Prelude.Reverse.{take-reverse, map-take}
use neon_selfhost.Library.{LoggedRun}
use neon_selfhost.Library.Memory.{run_id, retained}
use neon_selfhost.Library.Table.{newest_ids, is_among, kept_rows, prune_history}
use neon_selfhost.Library.Ordered.{Above, Above-drop, IsAscending}

is_among-append : (n i : ℕ) (is : List ℕ) → is_among n (is ++ i ∷ []) ≡ (i == n || is_among n is)
unfolding is_among
is_among-append n i [] = ground arith
is_among-append n i (j ∷ is) = ground (arith, is_among-append n i is)

is_among-reverse :
    (n : ℕ) (es : List LoggedRun)
    → is_among n (map run_id (reverse es)) ≡ is_among n (map run_id es)
is_among-reverse n [] = refl
is_among-reverse n (e ∷ es) =
    rw (reverse-append (e ∷ []) es, map-append run_id (reverse es) (e ∷ []))
      (is_among-append n e.id (map run_id (reverse es))
        ∙ ap (λ b. (e.id == n) || b) (is_among-reverse n es)
        ∙ unfold is_among in refl)

Above-is_among :
    (n : ℕ) (es : List LoggedRun) → Above run_id n es → is_among n (map run_id es) ≡ false
unfolding is_among
Above-is_among n [] a = refl
Above-is_among n (e ∷ es) a = ground (arith, Above-is_among n es a.1, a.0)

abbrev AllAmong : List ℕ → List LoggedRun → Type 0
AllAmong is es = All (λ e. is_among e.id is ≡ true) es

kept_rows-AllAmong : (is : List ℕ) (es : List LoggedRun) → AllAmong is es → kept_rows is es ≡ es
unfolding kept_rows
kept_rows-AllAmong is [] a = refl
kept_rows-AllAmong is (e ∷ es) a = ground (arith, kept_rows-AllAmong is es a.1, a.0)

module _ (is js : List ℕ) (h : (n : ℕ) → is_among n is ≡ true → is_among n js ≡ true) where
  AllAmong-mono : (es : List LoggedRun) → AllAmong is es → AllAmong js es
  AllAmong-mono [] a = tt
  AllAmong-mono (e ∷ es) a = (h e.id a.0, AllAmong-mono es a.1)

own_ids-AllAmong : (es : List LoggedRun) → AllAmong (map run_id es) es
unfolding is_among
own_ids-AllAmong [] = tt
own_ids-AllAmong (e ∷ es) = (
  ground arith,
  AllAmong-mono (map run_id es) (map run_id (e ∷ es)) (λ n h. ground arith) es
      (own_ids-AllAmong es),
)

kept_rows-drop :
    (k : ℕ) (es : List LoggedRun)
    → IsAscending run_id es
    → kept_rows (map run_id (reverse (drop k es))) es ≡ drop k es
unfolding kept_rows
kept_rows-drop zero es s = kept_rows-AllAmong (map run_id (reverse es)) es (
    AllAmong-mono (map run_id es) (map run_id (reverse es)) (λ n h. is_among-reverse n es ∙ h) es
      (own_ids-AllAmong es))
kept_rows-drop (suc k) [] s = refl
kept_rows-drop (suc k) (e ∷ es) s =
    rw
      (is_among-reverse e.id (drop k es)
        ∙ Above-is_among e.id (drop k es) (Above-drop run_id e.id k es s.0))
      (kept_rows-drop k es s.1)

newest_ids_lem :
    (limit : ℕ) (es : List LoggedRun)
    → newest_ids limit es ≡ map run_id (reverse (drop (length es - limit) es))
unfolding newest_ids
newest_ids_lem limit es =
    map-take run_id limit (reverse es) ∙ ap (map run_id) (take-reverse limit es)

retained_lem : (limit : ℕ) (es : List LoggedRun) → retained limit es ≡ drop (length es - limit) es
unfolding retained
retained_lem limit es = elim (Bool-cases (ltb limit (length es))) [
  | inl long ↦ rw long refl
  | inr short ↦ rw short (ap (λ k. drop k es) {x = 0} (ground arith))
]

-- The pruned table holds the newest rows, as the memory does.
pub prune_history-retained :
    (limit : ℕ) (es : List LoggedRun)
    → IsAscending run_id es
    → prune_history limit es ≡ retained limit es
unfolding prune_history
prune_history-retained limit es s =
    ap (λ is. kept_rows is es) (newest_ids_lem limit es)
    ∙ kept_rows-drop (length es - limit) es s
    ∙ sym (retained_lem limit es)
