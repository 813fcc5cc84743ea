-- ===== src/Library/Rows.antt =====
-- internal/server/sql_query_library.go: what the statements of the SQLite store do to rows in the
-- order of their ids, and what the loops of the store in memory do.
use neon_selfhost.Prelude.{
  ℕ, ◌≡◌, refl, Text, true, false, Bool-cases, inl, inr, if_split, Option, none, some, List, [],
  ◌∷◌, ◌==◌, arith,
}
use neon_selfhost.Library.{SavedQuery}
use neon_selfhost.Library.Memory.{updated_query, update_first, delete_first, saved_id}
use neon_selfhost.Library.Table.{update_rows, row_with, no_row, delete_rows}
use neon_selfhost.Library.Ordered.{Above, IsAscending, AtMost}

-- no row has an id below those of all rows
Above-no_row : (id : ℕ) (qs : List SavedQuery) → Above saved_id id qs → no_row id qs ≡ true
unfolding no_row
Above-no_row id [] a = refl
Above-no_row id (q ∷ qs) a = ground (arith, Above-no_row id qs a.1, a.0)

module _ (now id : ℕ) (name sql : Option Text) where
  pub update_rows-none :
      (qs : List SavedQuery) → no_row id qs ≡ true → update_rows now id name sql qs ≡ qs
  unfolding update_rows no_row
  update_rows-none [] h = refl
  update_rows-none (q ∷ qs) h = ground (arith, update_rows-none qs)

  -- The loop finds a row exactly if the statement matches one.
  pub update_first-none :
      (qs : List SavedQuery) → no_row id qs ≡ true → update_first now id name sql qs ≡ none
  unfolding update_first no_row
  update_first-none [] h = refl
  update_first-none (q ∷ qs) h = ground (arith, update_first-none qs)

  pub update_first-some :
      (qs : List SavedQuery)
      → IsAscending saved_id qs
      → no_row id qs ≡ false
      → (next : SavedQuery) × (update_first now id name sql qs
          ≡ some (update_rows now id name sql qs, next))
        × (row_with id (update_rows now id name sql qs) ≡ some next)
        × (saved_id next ≡ id)
  unfolding update_first update_rows row_with no_row
  update_first-some [] s h = ground arith
  update_first-some (q ∷ qs) s h = elim (Bool-cases (q.id == id)) [
    | inl here ↦ (
      updated_query now name sql q,
      ground (arith, update_rows-none qs, Above-no_row id qs, s.0),
      ground arith,
      ground arith,
    )
    | inr there ↦
        let (next, found, read, same) = update_first-some qs s.1 (ground arith) in
        (next, ground (arith, found), ground (arith, read), same)
  ]

pub delete_rows-none :
    (id : ℕ) (qs : List SavedQuery) → no_row id qs ≡ true → delete_rows id qs ≡ qs
unfolding delete_rows no_row
delete_rows-none id [] h = refl
delete_rows-none id (q ∷ qs) h = ground (arith, delete_rows-none id qs)

pub delete_first-none :
    (id : ℕ) (qs : List SavedQuery) → no_row id qs ≡ true → delete_first id qs ≡ none
unfolding delete_first no_row
delete_first-none id [] h = refl
delete_first-none id (q ∷ qs) h = ground (arith, delete_first-none id qs)

pub delete_first-some :
    (id : ℕ) (qs : List SavedQuery)
    → IsAscending saved_id qs
    → no_row id qs ≡ false
    → delete_first id qs ≡ some (delete_rows id qs)
unfolding delete_first delete_rows no_row
delete_first-some id [] s h = ground arith
delete_first-some id (q ∷ qs) s h =
    ground (arith, delete_first-some id qs s.1, delete_rows-none id qs, Above-no_row id qs)

module _ (n now id : ℕ) (name sql : Option Text) where
  Above-update_rows :
      (qs : List SavedQuery)
      → Above saved_id n qs
      → Above saved_id n (update_rows now id name sql qs)
  unfolding update_rows
  Above-update_rows [] a = tt
  Above-update_rows (q ∷ qs) a =
      if_split (Above saved_id n) (q.id == id) _ _ (λ _. (a.0, Above-update_rows qs a.1))
        (λ _. (a.0, Above-update_rows qs a.1))

  pub AtMost-update_rows :
      (qs : List SavedQuery)
      → AtMost saved_id n qs
      → AtMost saved_id n (update_rows now id name sql qs)
  unfolding update_rows
  AtMost-update_rows [] a = tt
  AtMost-update_rows (q ∷ qs) a =
      if_split (AtMost saved_id n) (q.id == id) _ _ (λ _. (a.0, AtMost-update_rows qs a.1))
        (λ _. (a.0, AtMost-update_rows qs a.1))

Above-delete_rows :
    (n id : ℕ) (qs : List SavedQuery) → Above saved_id n qs → Above saved_id n (delete_rows id qs)
unfolding delete_rows
Above-delete_rows n id [] a = tt
Above-delete_rows n id (q ∷ qs) a =
    if_split (Above saved_id n) (q.id == id) _ _ (λ _. Above-delete_rows n id qs a.1)
      (λ _. (a.0, Above-delete_rows n id qs a.1))

pub AtMost-delete_rows :
    (n id : ℕ) (qs : List SavedQuery) → AtMost saved_id n qs → AtMost saved_id n (delete_rows id qs)
unfolding delete_rows
AtMost-delete_rows n id [] a = tt
AtMost-delete_rows n id (q ∷ qs) a =
    if_split (AtMost saved_id n) (q.id == id) _ _ (λ _. AtMost-delete_rows n id qs a.1)
      (λ _. (a.0, AtMost-delete_rows n id qs a.1))

pub update_rows-IsAscending :
    (now id : ℕ) (name sql : Option Text) (qs : List SavedQuery)
    → IsAscending saved_id qs
    → IsAscending saved_id (update_rows now id name sql qs)
unfolding update_rows
update_rows-IsAscending now id name sql [] s = tt
update_rows-IsAscending now id name sql (q ∷ qs) s =
    let rest = update_rows-IsAscending now id name sql qs s.1 in
    let above = Above-update_rows q.id now id name sql qs s.0 in
    if_split (IsAscending saved_id) (q.id == id) _ _ (λ _. (above, rest)) (λ _. (above, rest))

pub delete_rows-IsAscending :
    (id : ℕ) (qs : List SavedQuery)
    → IsAscending saved_id qs
    → IsAscending saved_id (delete_rows id qs)
unfolding delete_rows
delete_rows-IsAscending id [] s = tt
delete_rows-IsAscending id (q ∷ qs) s =
    let rest = delete_rows-IsAscending id qs s.1 in
    if_split (IsAscending saved_id) (q.id == id) _ _ (λ _. rest)
      (λ _. (Above-delete_rows q.id id qs s.0, rest))
