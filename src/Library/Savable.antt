-- ===== src/Library/Savable.antt =====
-- internal/server/sql_query_library.go: a saved query as the checks of a request want it.
use neon_selfhost.Prelude.{
  ℕ, ◌≡◌, refl, Text, false, if_split, is_empty, Option, none, some, List, All, Result, ok, err,
  ◌>>=◌, ltb,
}
use neon_selfhost.Prelude.Trim.{trim_space}
use neon_selfhost.Sql.Validate.{
  max_query_bytes, byte_length, utf8, NameError, validate_sql_database_name,
}
use neon_selfhost.Library.{SavedQuery}
use neon_selfhost.Library.Memory.{updated_query}
use neon_selfhost.Library.Checks.{
  CheckError, CreateRequest, normalize_saved_query, or_bad_database, new_query, normalize_name,
  normalize_sql, normalize_update,
}

abbrev pub IsText : Text → Type 0
IsText sql = (is_empty (trim_space sql) ≡ false) × (ltb max_query_bytes (byte_length sql) ≡ false)

-- A query that the checks let through.
abbrev pub IsSavable : SavedQuery → Type 0
IsSavable q =
    (is_empty q.name ≡ false)
    × IsText q.sql
    × (is_empty q.branch ≡ false)
    × (is_empty q.database ≡ false)
    × (validate_sql_database_name (utf8 q.database) ≡ none)

abbrev pub AreSavable : List SavedQuery → Type 0
AreSavable qs = All IsSavable qs

abbrev pub Checked : Result CheckError SavedQuery → Type 0
Checked (ok q) = IsSavable q
Checked (err e) = Unit

named :
    (name sql branch database : Text) (e : Option NameError)
    → validate_sql_database_name (utf8 database) ≡ e
    → is_empty name ≡ false
    → IsText sql
    → is_empty branch ≡ false
    → is_empty database ≡ false
    → Checked (or_bad_database (new_query name sql branch database) e)
named name sql branch database none v n s b d = (n, s, b, d, v)
named name sql branch database (some e) v n s b d = tt

pub normalize_saved_query-Checked : (r : CreateRequest) → Checked (normalize_saved_query r)
unfolding normalize_saved_query
normalize_saved_query-Checked r =
    if_split Checked (is_empty (trim_space r.name)) _ _ (λ _. tt)
      (λ n.
        if_split Checked (is_empty (trim_space r.sql)) _ _ (λ _. tt)
          (λ s.
            if_split Checked (ltb max_query_bytes (byte_length r.sql)) _ _ (λ _. tt)
              (λ z.
                if_split Checked (is_empty (trim_space r.branch)) _ _ (λ _. tt)
                  (λ b.
                    if_split Checked (is_empty r.database) _ _ (λ _. tt)
                      (λ d.
                        named (trim_space r.name) r.sql (trim_space r.branch) r.database
                          (validate_sql_database_name (utf8 r.database)) refl n (s, z) b d)))))

abbrev pub IsNewName : Option Text → Type 0
IsNewName none = Unit
IsNewName (some name) = is_empty name ≡ false

abbrev pub IsNewText : Option Text → Type 0
IsNewText none = Unit
IsNewText (some sql) = IsText sql

abbrev pub IsUpdate : Result CheckError (Option Text × Option Text) → Type 0
IsUpdate (ok (name, sql)) = IsNewName name × IsNewText sql
IsUpdate (err e) = Unit

abbrev Good : (Option Text → Type 0) → Result CheckError (Option Text) → Type 0
Good P (ok t) = P t
Good P (err e) = Unit

normalize_name-Good : (name : Option Text) → Good IsNewName (normalize_name name)
unfolding normalize_name
normalize_name-Good none = tt
normalize_name-Good (some name) =
    if_split (Good IsNewName) (is_empty (trim_space name)) _ _ (λ _. tt) (λ n. n)

normalize_sql-Good : (sql : Option Text) → Good IsNewText (normalize_sql sql)
unfolding normalize_sql
normalize_sql-Good none = tt
normalize_sql-Good (some sql) =
    if_split (Good IsNewText) (is_empty (trim_space sql)) _ _ (λ _. tt)
      (λ s.
        if_split (Good IsNewText) (ltb max_query_bytes (byte_length sql)) _ _ (λ _. tt)
          (λ z. (s, z)))

both-IsUpdate :
    (n s : Result CheckError (Option Text))
    → Good IsNewName n
    → Good IsNewText s
    → IsUpdate (n >>= λ name. s >>= λ sql. ok (name, sql))
both-IsUpdate (ok n) (ok s) g h = (g, h)
both-IsUpdate (ok n) (err e) g h = tt
both-IsUpdate (err e) s g h = tt

pub normalize_update-IsUpdate : (name sql : Option Text) → IsUpdate (normalize_update name sql)
unfolding normalize_update
normalize_update-IsUpdate name sql =
    both-IsUpdate (normalize_name name) (normalize_sql sql) (normalize_name-Good name)
      (normalize_sql-Good sql)

module _ (now id : ℕ) where
  pub updated_query-IsSavable :
      (name sql : Option Text) (q : SavedQuery)
      → IsNewName name
      → IsNewText sql
      → IsSavable q
      → IsSavable (updated_query now name sql q)
  updated_query-IsSavable none none q n s k = k
  updated_query-IsSavable none (some sql) q n s k = (k.0, s, k.2, k.3, k.4)
  updated_query-IsSavable (some name) none q n s k = (n, k.1, k.2, k.3, k.4)
  updated_query-IsSavable (some name) (some sql) q n s k = (n, s, k.2, k.3, k.4)
