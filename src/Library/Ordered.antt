-- ===== src/Library/Ordered.antt =====
-- internal/server/sql_query_library.go: lists in the order of their ids, and what the two stores
-- do to them.
use neon_selfhost.Prelude.{
  ℕ, zero, suc, ◌+◌, ◌-◌, ◌<◌, ◌≤◌, ◌≡◌, refl, ap, ◌∙◌, sym, Text, Bool-cases, inl, inr, if_split,
  List, [], ◌∷◌, ◌++◌, length, take, drop, length-drop, ltb, All, arith,
}
use mathlib.Core.List.{reverse, reverse-append}
use neon_selfhost.Prelude.Reverse.{take_all}
use neon_selfhost.Library.{LibraryFilter, in_scope, page_limit, page_offset}
use neon_selfhost.Library.Memory.{filtered, insert_newer, newest_first, page, page_bounds, at_least}
use neon_selfhost.Library.Table.{where_scope, select_page, normalize_filter}

module _ {A : Type 0} (id_of : A → ℕ) where
  abbrev pub Above : ℕ → List A → Type 0
  Above n xs = All (λ x. n < id_of x) xs

  abbrev pub IsAscending : List A → Type 0
  IsAscending [] = Unit
  IsAscending (x ∷ xs) = Above (id_of x) xs × IsAscending xs

  abbrev pub AtMost : ℕ → List A → Type 0
  AtMost n xs = All (λ x. id_of x ≤ n) xs

  pub AtMost-mono : (n m : ℕ) (xs : List A) → n ≤ m → AtMost n xs → AtMost m xs
  AtMost-mono n m [] h a = tt
  AtMost-mono n m (x ∷ xs) h a = (omega (arith, a.0), AtMost-mono n m xs h a.1)

  pub Above-drop : (n k : ℕ) (xs : List A) → Above n xs → Above n (drop k xs)
  Above-drop n zero xs a = a
  Above-drop n (suc k) [] a = tt
  Above-drop n (suc k) (x ∷ xs) a = Above-drop n k xs a.1

  pub drop-IsAscending : (k : ℕ) (xs : List A) → IsAscending xs → IsAscending (drop k xs)
  drop-IsAscending zero xs s = s
  drop-IsAscending (suc k) [] s = tt
  drop-IsAscending (suc k) (x ∷ xs) s = drop-IsAscending k xs s.1

  pub AtMost-drop : (n k : ℕ) (xs : List A) → AtMost n xs → AtMost n (drop k xs)
  AtMost-drop n zero xs a = a
  AtMost-drop n (suc k) [] a = tt
  AtMost-drop n (suc k) (x ∷ xs) a = AtMost-drop n k xs a.1

  Above-append : (n : ℕ) (xs : List A) (y : A) → Above n xs → n < id_of y → Above n (xs ++ y ∷ [])
  Above-append n [] y a h = (h, tt)
  Above-append n (x ∷ xs) y a h = (a.0, Above-append n xs y a.1 h)

  -- a new id goes to the end
  pub append-IsAscending :
      (n : ℕ) (xs : List A) (y : A)
      → n < id_of y
      → AtMost n xs
      → IsAscending xs
      → IsAscending (xs ++ y ∷ [])
  append-IsAscending n [] y h a s = (tt, tt)
  append-IsAscending n (x ∷ xs) y h a s =
      (Above-append (id_of x) xs y s.0 (omega (arith, a.0)), append-IsAscending n xs y h a.1 s.1)

  Above-reverse : (n : ℕ) (xs : List A) → Above n xs → Above n (reverse xs)
  Above-reverse n [] a = tt
  Above-reverse n (x ∷ xs) a =
      rw (reverse-append (x ∷ []) xs) (Above-append n (reverse xs) x (Above-reverse n xs a.1) a.0)

  insert_newer-last :
      (x : A) (ys : List A) → Above (id_of x) ys → insert_newer id_of x ys ≡ ys ++ x ∷ []
  unfolding insert_newer
  insert_newer-last x [] a = refl
  insert_newer-last x (y ∷ ys) a = ground (arith, insert_newer-last x ys a.1, a.0)

  -- to sort the newest first is to reverse
  pub newest_first-reverse : (xs : List A) → IsAscending xs → newest_first id_of xs ≡ reverse xs
  unfolding newest_first
  newest_first-reverse [] s = refl
  newest_first-reverse (x ∷ xs) s =
      ap (insert_newer id_of x) (newest_first-reverse xs s.1)
      ∙ insert_newer-last x (reverse xs) (Above-reverse (id_of x) xs s.0)
      ∙ sym (reverse-append (x ∷ []) xs)

module _ {A : Type 0} where
  drop_over : (n : ℕ) (xs : List A) → length xs ≤ n → drop n xs ≡ []
  drop_over zero [] h = refl
  drop_over zero (x ∷ xs) h = absurd (omega arith)
  drop_over (suc n) [] h = refl
  drop_over (suc n) (x ∷ xs) h = drop_over n xs (omega arith)

  drop-at_least : (n : ℕ) (xs : List A) → drop (at_least (length xs) n) xs ≡ drop n xs
  drop-at_least n xs = elim (Bool-cases (ltb (length xs) n)) [
    | inl over ↦
        rw over (drop_over (length xs) xs (omega arith) ∙ sym (drop_over n xs (ground arith)))
    | inr within ↦ rw within refl
  ]

  -- a page that ends at the end of the list is as good as one that would go on
  take-cut :
      (s n : ℕ) (xs : List A)
      → take (at_least (length xs) (s + n) - s) (drop s xs) ≡ take n (drop s xs)
  take-cut s n xs = elim (Bool-cases (ltb (length xs) (s + n))) [
    | inl over ↦ rw over (
        take_all (length xs - s) (drop s xs) (omega (arith, length-drop s xs))
        ∙ sym (take_all n (drop s xs) (ground (arith, length-drop s xs))))
    | inr within ↦ rw within (ap (λ k. take k (drop s xs)) (omega arith))
  ]

  -- the bounds of a page in memory are LIMIT and OFFSET
  pub page_lem :
      (f : LibraryFilter) (xs : List A)
      → page xs f ≡ take (page_limit f.limit) (drop (page_offset f.offset) xs)
  unfolding page page_bounds
  page_lem f xs =
      take-cut (at_least (length xs) (page_offset f.offset)) (page_limit f.limit) xs
      ∙ ap (take (page_limit f.limit)) (drop-at_least (page_offset f.offset) xs)

module _ {A : Type 0} (id_of : A → ℕ) (branch_of database_of : A → Text) (f : LibraryFilter) where
  filtered-where_scope :
      (xs : List A) → filtered branch_of database_of f xs ≡ where_scope branch_of database_of f xs
  unfolding filtered where_scope
  filtered-where_scope [] = refl
  filtered-where_scope (x ∷ xs) = ground (arith, filtered-where_scope xs)

  where_scope-normalize :
      (xs : List A)
      → where_scope branch_of database_of f xs
        ≡ where_scope branch_of database_of (normalize_filter f) xs
  unfolding where_scope in_scope normalize_filter
  where_scope-normalize [] = refl
  where_scope-normalize (x ∷ xs) = ground (arith, where_scope-normalize xs)

  Above-filtered :
      (n : ℕ) (xs : List A) → Above id_of n xs → Above id_of n (filtered branch_of database_of f xs)
  unfolding filtered
  Above-filtered n [] a = tt
  Above-filtered n (x ∷ xs) a =
      let rest = Above-filtered n xs a.1 in
      if_split (Above id_of n) (in_scope f (branch_of x) (database_of x)) _ _ (λ _. (a.0, rest))
        (λ _. rest)

  filtered-IsAscending :
      (xs : List A) → IsAscending id_of xs → IsAscending id_of (filtered branch_of database_of f xs)
  unfolding filtered
  filtered-IsAscending [] s = tt
  filtered-IsAscending (x ∷ xs) s =
      let rest = filtered-IsAscending xs s.1 in
      if_split (IsAscending id_of) (in_scope f (branch_of x) (database_of x)) _ _
        (λ _. (Above-filtered (id_of x) xs s.0, rest)) (λ _. rest)

  -- On rows in the order of their ids the page that is made in memory is the one of the query.
  pub page-select_page :
      (xs : List A)
      → IsAscending id_of xs
      → page (newest_first id_of (filtered branch_of database_of f xs)) f
        ≡ select_page branch_of database_of (normalize_filter f) xs
  unfolding select_page normalize_filter
  page-select_page xs s =
      page_lem f (newest_first id_of (filtered branch_of database_of f xs))
      ∙ ap (λ ys. take (page_limit f.limit) (drop (page_offset f.offset) ys))
          (newest_first-reverse id_of (filtered branch_of database_of f xs)
              (filtered-IsAscending xs s)
            ∙ ap reverse (filtered-where_scope xs ∙ where_scope-normalize xs))
