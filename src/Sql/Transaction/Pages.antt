-- ===== src/Sql/Transaction/Pages.antt =====
-- The rows of a result keep the limits, and are the first rows that the driver gave.
use neon_selfhost.Prelude.{
  ℕ, ◌+◌, ◌≤◌, ◌≡◌, refl, true, false, Bool-cases, inl, inr, List, [], ◌∷◌, ◌++◌, ok, length,
  length-append, arith, ltb, leb, ◌||◌,
}
use mathlib.Core.List.{append_assoc}
use neon_selfhost.Sql.Transaction.{
  Cell, RowRead, values, scan_error, Limits, Page, read_rows, normalize_row, row_bytes,
}

-- The bytes of the rows, as they are printed.
unfoldable pub total_bytes : List (List Cell) → ℕ
total_bytes [] = 0
total_bytes (r ∷ rs) = row_bytes r + total_bytes rs

total_bytes-append :
    (rs ss : List (List Cell)) → total_bytes (rs ++ ss) ≡ total_bytes rs + total_bytes ss
unfolding total_bytes
total_bytes-append [] ss = omega arith
total_bytes-append (r ∷ rs) ss = omega (arith, total_bytes-append rs ss)

-- The rows that the driver gave, as they would be shown.
unfoldable pub shown : ℕ → List RowRead → List (List Cell)
shown max_cell [] = []
shown max_cell (values vs ∷ more) = normalize_row max_cell vs ∷ shown max_cell more
shown max_cell (scan_error m ∷ more) = shown max_cell more

-- The page is within the limits. It begins like what the driver gave, and is all of it exactly
-- if it is not marked as truncated.
pub record IsPage (lim : Limits) (given : List (List Cell)) (page : Page) : Type 0 where
  pub rows_fit : length page.rows ≤ lim.max_rows
  pub bytes_fit : total_bytes page.rows ≤ lim.max_bytes
  pub rest : List (List Cell)
  pub prefix : page.rows ++ rest ≡ given
  pub complete : page.truncated ≡ false → rest ≡ []
  pub cut : page.truncated ≡ true → 1 ≤ length rest

pub read_rows-IsPage :
    (lim : Limits) (reads : List RowRead) (out : List (List Cell)) (page : Page)
    → length out ≤ lim.max_rows
    → total_bytes out ≤ lim.max_bytes
    → read_rows lim reads out (total_bytes out) ≡ ok page
    → IsPage lim (out ++ shown lim.max_cell reads) page
unfolding read_rows shown
read_rows-IsPage lim [] out page fits bytes h =
    let e : record { rows = out; truncated = false } ≡ page = cc in
    rw (← e) (record {
      rows_fit = fits;
      bytes_fit = bytes;
      rest = [];
      prefix = refl;
      complete = λ _. refl;
      cut = λ t. cc;
    })
read_rows-IsPage lim (scan_error message ∷ more) out page fits bytes h = absurd (cc)
read_rows-IsPage lim (values vs ∷ more) out page fits bytes h =
    let row = normalize_row lim.max_cell vs in
    let full =
      leb lim.max_rows (length out) || ltb lim.max_bytes (total_bytes out + row_bytes row) in
    elim (Bool-cases full) [
      | inl cut ↦
          let e : record { rows = out; truncated = true } ≡ page = ground arith in
          rw (← e) (record {
            rows_fit = fits;
            bytes_fit = bytes;
            rest = row ∷ shown lim.max_cell more;
            prefix = refl;
            complete = λ t. absurd (cc);
            cut = λ _. omega arith;
          })
      | inr room ↦
          let next = out ++ row ∷ [] in
          let used : total_bytes next ≡ total_bytes out + row_bytes row =
            unfold total_bytes in omega (arith, total_bytes-append out (row ∷ [])) in
          let h' : read_rows lim more next (total_bytes next) ≡ ok page = rw used (ground arith) in
          rw (append_assoc out (row ∷ []) (shown lim.max_cell more)) at (
            read_rows-IsPage lim more next page (ground (arith, length-append out (row ∷ [])))
              (ground (arith, used)) h')
    ]
