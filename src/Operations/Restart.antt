-- ===== src/Operations/Restart.antt =====
-- internal/server/operations.go, `Load` and `newOperationManager`: after a restart nothing runs.
use neon_selfhost.Prelude.{
  ℕ, zero, suc, ◌-◌, ◌≤◌, ◌<◌, ◌≡◌, refl, Bool, true, false, none, some, Bool-cases, Option-cases,
  inl, inr, List, [], ◌∷◌, arith, All, length, length-drop, drop, ltb, if◌then◌else◌,
}
use neon_selfhost.Operations.Types.{Entry, is_running}
use neon_selfhost.Operations.Table.{
  Row, OpStore, noop, unavailable, sqlite, interrupt, interrupt_all, entries_of, max_id, keep_last,
  load,
}
use neon_selfhost.Operations.Manager.{new_operation_manager, loaded_manager, limit_or_default}
use neon_selfhost.Operations.Trim.{active_ids, Ascending, Above, UpTo}
use neon_selfhost.Operations.Exclusion.{IsConsistent, IsGoodLog}

-- The primary key orders the rows.
abbrev pub RowsAbove : ℕ → List Row → Type 0
RowsAbove n = All (λ r. n < r.id)

abbrev pub RowsAscending : List Row → Type 0
RowsAscending [] = Unit
RowsAscending (r ∷ rows) = RowsAbove r.id rows × RowsAscending rows

interrupt-id : (now : ℕ) (r : Row) → (interrupt now r).id ≡ r.id
unfolding interrupt
interrupt-id now r = ground arith

interrupt-idle : (now : ℕ) (r : Row) → is_running (interrupt now r).status ≡ false
unfolding interrupt
interrupt-idle now r = ground arith

module _ (now : ℕ) where
  interrupt_all-RowsAbove :
      (n : ℕ) (rows : List Row) → RowsAbove n rows → RowsAbove n (interrupt_all now rows)
  unfolding interrupt_all
  interrupt_all-RowsAbove n [] a = tt
  interrupt_all-RowsAbove n (r ∷ rows) a =
      (rw (interrupt-id now r) a.0, interrupt_all-RowsAbove n rows a.1)

  interrupt_all-RowsAscending :
      (rows : List Row) → RowsAscending rows → RowsAscending (interrupt_all now rows)
  unfolding interrupt_all
  interrupt_all-RowsAscending [] a = tt
  interrupt_all-RowsAscending (r ∷ rows) a = (
    rw (interrupt-id now r) (interrupt_all-RowsAbove r.id rows a.0),
    interrupt_all-RowsAscending rows a.1,
  )

entries_of-Above : (n : ℕ) (rows : List Row) → RowsAbove n rows → Above n (entries_of rows)
unfolding entries_of
entries_of-Above n [] a = tt
entries_of-Above n (r ∷ rows) a = ground (arith, entries_of-Above n rows)

entries_of-Ascending : (rows : List Row) → RowsAscending rows → Ascending (entries_of rows)
unfolding entries_of
entries_of-Ascending [] a = tt
entries_of-Ascending (r ∷ rows) a =
    ground (arith, entries_of-Ascending rows, entries_of-Above r.id rows)

max_id-le : (m : ℕ) (rows : List Row) → m ≤ max_id m rows
unfolding max_id
max_id-le m [] = omega arith
max_id-le m (r ∷ rows) = ground (arith, max_id-le (if ltb m r.id then r.id else m) rows)

entries_of-UpTo : (m : ℕ) (rows : List Row) → UpTo (max_id m rows) (entries_of rows)
unfolding entries_of max_id
entries_of-UpTo m [] = tt
entries_of-UpTo m (r ∷ rows) =
    let k = if ltb m r.id then r.id else m in
    let low : r.id ≤ max_id k rows = ground (arith, max_id-le k rows) in
    elim (Option-cases r.started_at) [
      | inl bad ↦ rw bad (entries_of-UpTo k rows)
      | inr (t, good) ↦ rw good (low, entries_of-UpTo k rows)
    ]

active_ids-interrupt_all :
    (now : ℕ) (rows : List Row) → active_ids (entries_of (interrupt_all now rows)) ≡ []
unfolding active_ids entries_of interrupt_all
active_ids-interrupt_all now [] = refl
active_ids-interrupt_all now (r ∷ rows) =
    ground (arith, interrupt-idle now r, active_ids-interrupt_all now rows)

-- The last entries of a log without a running entry.
abbrev IsIdleLog : ℕ → List Entry → Type 0
IsIdleLog last es = IsGoodLog [] last es

drop-IsIdleLog : (n last : ℕ) (es : List Entry) → IsIdleLog last es → IsIdleLog last (drop n es)
drop-IsIdleLog zero last es g = g
drop-IsIdleLog (suc n) last [] g = g
drop-IsIdleLog (suc n) last (e ∷ es) g = drop-IsIdleLog n last es (record {
  active = unfold active_ids in ground (arith, g.active);
  ascending = g.ascending.1;
  bounded = g.bounded.1;
})

keep_last-IsIdleLog :
    (n last : ℕ) (es : List Entry) → IsIdleLog last es → IsIdleLog last (keep_last n es)
unfolding keep_last
keep_last-IsIdleLog n last es g = elim (Bool-cases (ltb n (length es))) [
  | inl long ↦ rw long (drop-IsIdleLog (length es - n) last es g)
  | inr fits ↦ rw fits g
]

length-keep_last-le : (n : ℕ) (es : List Entry) → length (keep_last n es) ≤ n
unfolding keep_last
length-keep_last-le n es = ground (arith, length-drop (length es - n) es)

loaded-IsConsistent :
    (n : ℕ) (answers : List Bool) (s : OpStore) (es : List Entry) (last : ℕ)
    → 1 ≤ n
    → IsIdleLog last es
    → IsConsistent none (loaded_manager n answers (s, some (es, last)))
loaded-IsConsistent n answers s es last h g = record {
  log = keep_last-IsIdleLog n last es g;
  short = length-keep_last-le n es;
  positive = h;
  flag = refl;
  pending_ascending = tt;
  pending_bounded = tt;
}

failed-IsConsistent :
    (n : ℕ) (answers : List Bool) (s : OpStore)
    → 1 ≤ n
    → IsConsistent none (loaded_manager n answers (s, none))
failed-IsConsistent n answers s h = record {
  log = record { active = unfold active_ids in refl; ascending = tt; bounded = tt };
  short = omega arith;
  positive = h;
  flag = refl;
  pending_ascending = tt;
  pending_bounded = tt;
}

-- A table whose rows are in the order of their ids; other stores have no rows.
abbrev pub IsOrdered : OpStore → Type 0
IsOrdered noop = Unit
IsOrdered unavailable = Unit
IsOrdered (sqlite rows) = RowsAscending rows

rows_log :
    (now : ℕ) (rows : List Row)
    → RowsAscending rows
    → IsIdleLog (max_id 0 (interrupt_all now rows)) (entries_of (interrupt_all now rows))
rows_log now rows a = record {
  active = active_ids-interrupt_all now rows;
  ascending =
      entries_of-Ascending (interrupt_all now rows) (interrupt_all-RowsAscending now rows a);
  bounded = entries_of-UpTo 0 (interrupt_all now rows);
}

kept-IsIdleLog :
    (n last : ℕ) (es : List Entry)
    → IsIdleLog last es
    → IsIdleLog last (if ltb 0 n then keep_last n es else es)
kept-IsIdleLog n last es g = elim (Bool-cases (ltb 0 n)) [
  | inl some_limit ↦ rw some_limit (keep_last-IsIdleLog n last es g)
  | inr no_limit ↦ rw no_limit g
]

load-IsConsistent :
    (update_ok query_ok : Bool) (now n : ℕ) (s : OpStore) (answers : List Bool)
    → 1 ≤ n
    → IsOrdered s
    → IsConsistent none (loaded_manager n answers (load update_ok query_ok now n s))
unfolding load
load-IsConsistent update_ok query_ok now n noop answers h o =
    loaded-IsConsistent n answers noop [] 0 h
      (record { active = unfold active_ids in refl; ascending = tt; bounded = tt })
load-IsConsistent update_ok query_ok now n unavailable answers h o =
    failed-IsConsistent n answers unavailable h
load-IsConsistent true true now n (sqlite rows) answers h o =
    let rows' = interrupt_all now rows in
    let g = kept-IsIdleLog n (max_id 0 rows') (entries_of rows') (rows_log now rows o) in
    loaded-IsConsistent n answers (sqlite rows') _ (max_id 0 rows') h g
load-IsConsistent true false now n (sqlite rows) answers h o =
    failed-IsConsistent n answers (sqlite (interrupt_all now rows)) h
load-IsConsistent false query_ok now n (sqlite rows) answers h o =
    failed-IsConsistent n answers (sqlite rows) h

-- Whatever an ordered table holds, and whether or not it can be read, a new manager runs
-- nothing, its log is in order and within its limit, and its next ids are above all that it has
-- loaded.
pub new_operation_manager-IsConsistent :
    (update_ok query_ok : Bool) (now max_entries : ℕ) (s : OpStore) (answers : List Bool)
    → IsOrdered s
    → IsConsistent none (new_operation_manager update_ok query_ok now max_entries s answers)
unfolding new_operation_manager
new_operation_manager-IsConsistent update_ok query_ok now max_entries s answers o =
    load-IsConsistent update_ok query_ok now (limit_or_default max_entries) s answers (ground arith)
      o
