-- ===== src/Operations/Ordered/Writes.antt =====
-- internal/server/operations.go: each write of an entry keeps the table in the order of its ids.
use neon_selfhost.Prelude.{
  ℕ, zero, suc, ◌<◌, ◌≡◌, Text, Bool, true, false, Bool-cases, inl, inr, List, [], ◌∷◌, arith, ltb,
  ◌==◌,
}
use neon_selfhost.Operations.Types.{Entry}
use neon_selfhost.Operations.Table.{
  Row, OpStore, noop, unavailable, sqlite, row_of, upsert_row, upsert,
}
use neon_selfhost.Operations.Manager.{
  Manager, persist_attempts, persist_entry, try_upsert, drop_pending, flush_pending, trim_entries,
  begun, flushed,
}
use neon_selfhost.Operations.Restart.{RowsAbove, RowsAscending, IsOrdered}
use neon_selfhost.Operations.Exclusion.{logged}
use neon_selfhost.Operations.Exclusion.Durable.{first_entry}

module _ (r : Row) where
  upsert_row-Above :
      (n : ℕ) (rows : List Row) → n < r.id → RowsAbove n rows → RowsAbove n (upsert_row r rows)
  unfolding upsert_row
  upsert_row-Above n [] h a = (h, tt)
  upsert_row-Above n (q ∷ rows) h a = elim (Bool-cases (r.id == q.id)) [
    | inl same ↦ rw same (h, a.1)
    | inr other ↦ elim (Bool-cases (ltb r.id q.id)) [
      | inl before ↦ rw (other, before) (h, a)
      | inr behind ↦ rw (other, behind) (a.0, upsert_row-Above n rows h a.1)
    ]
  ]

  above_trans : (n k : ℕ) (rows : List Row) → n < k → RowsAbove k rows → RowsAbove n rows
  above_trans n k [] h a = tt
  above_trans n k (q ∷ rows) h a = (omega arith, above_trans n k rows h a.1)

  above_same : (n k : ℕ) (rows : List Row) → n ≡ k → RowsAbove k rows → RowsAbove n rows
  above_same n k rows e a = rw e a

  upsert_row-Ascending : (rows : List Row) → RowsAscending rows → RowsAscending (upsert_row r rows)
  unfolding upsert_row
  upsert_row-Ascending [] a = (tt, tt)
  upsert_row-Ascending (q ∷ rows) a = elim (Bool-cases (r.id == q.id)) [
    | inl same ↦ rw same (above_same r.id q.id rows (ground arith) a.0, a.1)
    | inr other ↦ elim (Bool-cases (ltb r.id q.id)) [
      | inl before ↦
          let lt : r.id < q.id = ground arith in
          rw (other, before) ((lt, above_trans r.id q.id rows lt a.0), a)
      | inr behind ↦
          rw (other, behind)
            (upsert_row-Above q.id rows (ground arith) a.0, upsert_row-Ascending rows a.1)
    ]
  ]

upsert-IsOrdered :
    (answer : Bool) (e : Entry) (s : OpStore) → IsOrdered s → IsOrdered (upsert answer e s).0
unfolding upsert
upsert-IsOrdered answer e noop h = tt
upsert-IsOrdered answer e unavailable h = tt
upsert-IsOrdered true e (sqlite rows) h = upsert_row-Ascending (row_of e) rows h
upsert-IsOrdered false e (sqlite rows) h = h

persist_attempts-IsOrdered :
    (n : ℕ) (e : Entry) (m : Manager)
    → IsOrdered m.store
    → IsOrdered (persist_attempts n e m).0.store
unfolding persist_attempts try_upsert
persist_attempts-IsOrdered zero e m h = h
persist_attempts-IsOrdered (suc n) e m h =
    let next = upsert-IsOrdered _ e m.store h in
    elim (Bool-cases (try_upsert e m).1) [
      | inl done ↦ rw done next
      | inr again ↦ rw again (persist_attempts-IsOrdered n e (try_upsert e m).0 next)
    ]

pub persist_entry-IsOrdered :
    (e : Entry) (m : Manager) → IsOrdered m.store → IsOrdered (persist_entry e m).0.store
unfolding persist_entry
persist_entry-IsOrdered e m h = persist_attempts-IsOrdered _ e m h

pub flush_pending-IsOrdered :
    (es : List Entry) (m : Manager) → IsOrdered m.store → IsOrdered (flush_pending es m).0.store
unfolding flush_pending
flush_pending-IsOrdered [] m h = h
flush_pending-IsOrdered (e ∷ es) m h =
    let next = persist_entry-IsOrdered e m h in
    let n = (persist_entry e m).0 in
    elim (Bool-cases (persist_entry e m).1) [
      | inl done ↦
          rw done
            (flush_pending-IsOrdered es (record n { pending = drop_pending e.id n.pending }) next)
      | inr stuck ↦ rw stuck next
    ]

begun-IsOrdered :
    (m : Manager) (e : Entry) (r : Manager × Bool)
    → IsOrdered r.0.store
    → IsOrdered (begun m e r).0.store
unfolding trim_entries
begun-IsOrdered m e (n, true) h = h
begun-IsOrdered m e (n, false) h = h

pub flushed-IsOrdered :
    (kind : Text) (now : ℕ) (r : Manager × Bool)
    → IsOrdered r.0.store
    → IsOrdered (flushed kind now r).0.store
flushed-IsOrdered kind now (m, true) h =
    let e = first_entry kind now m in
    begun-IsOrdered m e (persist_entry e (logged e m)) (persist_entry-IsOrdered e (logged e m) h)
flushed-IsOrdered kind now (m, false) h = h
