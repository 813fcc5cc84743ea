-- ===== src/Operations/Trim.antt =====
-- internal/server/operations.go, `trimEntriesLocked`: the log stays short, and no running entry
-- and no order is lost.
use neon_selfhost.Prelude.{
  ℕ, zero, suc, ◌+◌, ◌≤◌, ◌<◌, ◌≡◌, refl, ap, ◌∙◌, true, false, Option, none, some, Bool-cases, inl,
  inr, List, [], ◌∷◌, ◌++◌, arith, All, length, ltb, if◌then◌else◌,
}
use neon_selfhost.Operations.Types.{Entry, is_running}
use neon_selfhost.Operations.Manager.{
  Manager, remove_first_done, trim_rounds, trim_entries, behind, shorter,
}

-- The ids of the running entries.
unfoldable pub active_ids : List Entry → List ℕ
unfolding is_running
active_ids [] = []
active_ids (e ∷ es) = if is_running e.status then e.id ∷ active_ids es else active_ids es

pub active_ids-append :
    (es ds : List Entry) → active_ids (es ++ ds) ≡ active_ids es ++ active_ids ds
unfolding active_ids
active_ids-append [] ds = refl
active_ids-append (e ∷ es) ds = ground (arith, active_ids-append es ds)

-- Strictly ascending ids, and ids up to a bound.
abbrev pub Above : ℕ → List Entry → Type 0
Above n = All (λ e. n < e.id)

abbrev pub UpTo : ℕ → List Entry → Type 0
UpTo n = All (λ e. e.id ≤ n)

abbrev pub Ascending : List Entry → Type 0
Ascending [] = Unit
Ascending (e ∷ es) = Above e.id es × Ascending es

pub UpTo-mono : (n k : ℕ) (es : List Entry) → n ≤ k → UpTo n es → UpTo k es
UpTo-mono n k [] h u = tt
UpTo-mono n k (e ∷ es) h u = (omega arith, UpTo-mono n k es h u.1)

Above-append :
    (n : ℕ) (es : List Entry) (e : Entry) → Above n es → n < e.id → Above n (es ++ e ∷ [])
Above-append n [] e a h = (h, tt)
Above-append n (d ∷ es) e a h = (a.0, Above-append n es e a.1 h)

-- A new entry with an id above all others.
pub Ascending-append :
    (n : ℕ) (es : List Entry) (e : Entry)
    → Ascending es
    → UpTo n es
    → n < e.id
    → Ascending (es ++ e ∷ [])
Ascending-append n [] e a u h = (tt, tt)
Ascending-append n (d ∷ es) e a u h =
    (Above-append d.id es e a.0 (omega arith), Ascending-append n es e a.1 u.1 h)

pub UpTo-append :
    (n : ℕ) (es : List Entry) (e : Entry) → UpTo n es → e.id ≤ n → UpTo n (es ++ e ∷ [])
UpTo-append n [] e u h = (h, tt)
UpTo-append n (d ∷ es) e u h = (u.0, UpTo-append n es e u.1 h)

-- What a removal keeps.
pub record IsShortening (es ds : List Entry) : Type 0 where
  pub active : active_ids ds ≡ active_ids es
  pub above : (n : ℕ) → Above n es → Above n ds
  pub up_to : (n : ℕ) → UpTo n es → UpTo n ds
  pub ascending : Ascending es → Ascending ds

IsShortening-refl : (es : List Entry) → IsShortening es es
IsShortening-refl es = record {
  active = refl;
  above = λ n a. a;
  up_to = λ n u. u;
  ascending = λ a. a;
}

IsShortening-trans :
    (es ds cs : List Entry) → IsShortening es ds → IsShortening ds cs → IsShortening es cs
IsShortening-trans es ds cs p q = record {
  active = q.active ∙ p.active;
  above = λ n a. q.above n (p.above n a);
  up_to = λ n u. q.up_to n (p.up_to n u);
  ascending = λ a. q.ascending (p.ascending a);
}

IsShortening-cons :
    (e : Entry) (es ds : List Entry) → IsShortening es ds → IsShortening (e ∷ es) (e ∷ ds)
IsShortening-cons e es ds p = record {
  active = unfold active_ids in rw p.active;
  above = λ n a. (a.0, p.above n a.1);
  up_to = λ n u. (u.0, p.up_to n u.1);
  ascending = λ a. (p.above e.id a.0, p.ascending a.1);
}

IsShortening-drop :
    (e : Entry) (es : List Entry) → is_running e.status ≡ false → IsShortening (e ∷ es) es
IsShortening-drop e es done = record {
  active = unfold active_ids in rw done;
  above = λ n a. a.1;
  up_to = λ n u. u.1;
  ascending = λ a. a.1;
}

-- A round that finds nothing to remove sees only running entries; another takes one entry out.
data Removal (es : List Entry) (r : Option (List Entry)) : Type 0 where
  all_running : r ≡ none → length (active_ids es) ≡ length es → Removal es r
  removed :
      (ds : List Entry)
      → r ≡ some ds
      → length ds + 1 ≡ length es
      → IsShortening es ds
      → Removal es r

behind-Removal :
    (e : Entry) (es : List Entry) (r : Option (List Entry))
    → is_running e.status ≡ true
    → Removal es r
    → Removal (e ∷ es) (behind e r)
behind-Removal e es r on (all_running h l) =
    rw h (all_running refl (unfold active_ids in rw on (ap suc l)))
behind-Removal e es r on (removed ds h l s) =
    rw h (removed (e ∷ ds) refl (omega arith) (IsShortening-cons e es ds s))

remove_first_done-Removal : (es : List Entry) → Removal es (remove_first_done es)
unfolding remove_first_done
remove_first_done-Removal [] = all_running refl (unfold active_ids in refl)
remove_first_done-Removal (e ∷ es) = elim (Bool-cases (is_running e.status)) [
  | inl on ↦ rw on (behind-Removal e es (remove_first_done es) on (remove_first_done-Removal es))
  | inr done ↦ rw done (removed es refl (omega arith) (IsShortening-drop e es done))
]

-- What `trimEntriesLocked` returns on a log that begins with `es`.
pub record IsTrimmed (limit : ℕ) (es ds : List Entry) : Type 0 where
  pub kept : IsShortening es ds
  pub short : length (active_ids es) ≤ limit → length ds ≤ limit

shorter-IsTrimmed :
    (limit : ℕ) (again : List Entry → List Entry) (es : List Entry) (r : Option (List Entry))
    → Removal es r
    → ((ds : List Entry) → length ds + 1 ≡ length es → IsTrimmed limit ds (again ds))
    → IsTrimmed limit es (shorter limit again es r)
shorter-IsTrimmed limit again es r (all_running h l) ih =
    rw h (record { kept = IsShortening-refl es; short = λ s. omega arith })
shorter-IsTrimmed limit again es r (removed ds h l s) ih =
    let t = ih ds l in
    rw h (record {
      kept = IsShortening-trans es ds (again ds) s t.kept;
      short = λ b. t.short (rw s.active b);
    })

trim_rounds-IsTrimmed :
    (n limit : ℕ) (es : List Entry) → length es ≤ n → IsTrimmed limit es (trim_rounds n limit es)
unfolding trim_rounds
trim_rounds-IsTrimmed zero limit es h = record {
  kept = IsShortening-refl es;
  short = λ _. omega arith;
}
trim_rounds-IsTrimmed (suc n) limit es h = elim (Bool-cases (ltb limit (length es))) [
  | inl long ↦ rw long (
      shorter-IsTrimmed limit (trim_rounds n limit) es (remove_first_done es)
        (remove_first_done-Removal es) (λ ds l. trim_rounds-IsTrimmed n limit ds (omega arith)))
  | inr fits ↦ rw fits (record { kept = IsShortening-refl es; short = λ _. ground arith })
]

-- Trimming keeps every running entry and the order of the log; with at most as many running
-- entries as the limit allows, the limit is met.
pub trim_entries-IsTrimmed :
    (m : Manager) → IsTrimmed m.max_entries m.entries (trim_entries m).entries
unfolding trim_entries
trim_entries-IsTrimmed m =
    trim_rounds-IsTrimmed (length m.entries) m.max_entries m.entries (omega arith)
