-- ===== src/Operations/Persist.antt =====
-- internal/server/operations.go: what the writes to the table change, and what they store.
use neon_selfhost.Prelude.{
  ℕ, zero, suc, ◌≡◌, ◌≢◌, refl, ◌∙◌, Bool, true, false, Option, none, some, Bool-cases, inl, inr,
  List, [], ◌∷◌, arith, All, ◌==◌, if◌then◌else◌,
}
use neon_selfhost.Operations.Types.{Entry, operation_persist_attempts}
use neon_selfhost.Operations.Table.{
  Row, OpStore, noop, unavailable, sqlite, row_of, upsert_row, upsert,
}
use neon_selfhost.Operations.Manager.{
  Manager, try_upsert, next_answer, persist_attempts, persist_entry, drop_pending, flush_pending,
}
use neon_selfhost.Operations.Trim.{Ascending, Above}

-- The parts of the manager that a write leaves alone.
pub record SameLog (m n : Manager) : Type 0 where
  pub entries : n.entries ≡ m.entries
  pub max_entries : n.max_entries ≡ m.max_entries
  pub next_id : n.next_id ≡ m.next_id
  pub busy : n.busy ≡ m.busy

persist_attempts-SameLog :
    (k : ℕ) (e : Entry) (m : Manager)
    → SameLog m (persist_attempts k e m).0 × ((persist_attempts k e m).0.pending ≡ m.pending)
unfolding persist_attempts try_upsert
persist_attempts-SameLog zero e m = ground arith
persist_attempts-SameLog (suc k) e m =
    ground (arith, persist_attempts-SameLog k e (try_upsert e m).0)

pub persist_entry-SameLog :
    (e : Entry) (m : Manager)
    → SameLog m (persist_entry e m).0 × ((persist_entry e m).0.pending ≡ m.pending)
unfolding persist_entry
persist_entry-SameLog e m = persist_attempts-SameLog operation_persist_attempts e m

abbrev next_flush : Entry → Manager → Manager
next_flush e m = let n = (persist_entry e m).0 in record n { pending = drop_pending e.id n.pending }

pub flush_pending-SameLog : (es : List Entry) (m : Manager) → SameLog m (flush_pending es m).0
unfolding flush_pending
flush_pending-SameLog [] m = ground arith
flush_pending-SameLog (e ∷ es) m =
    ground (arith, persist_entry-SameLog e m, flush_pending-SameLog es (next_flush e m))

unfoldable pub find_row : ℕ → List Row → Option Row
find_row id [] = none
find_row id (r ∷ rows) = if r.id == id then some r else find_row id rows

-- The table holds the entry, as it is. The store of a controller without a table holds nothing
-- and reports success.
unfoldable pub IsStored : Entry → OpStore → Type 0
unfolding find_row
IsStored e noop = Unit
IsStored e unavailable = ⊥
IsStored e (sqlite rows) = find_row e.id rows ≡ some (row_of e)

find_row-upsert_row :
    (id : ℕ) (r : Row) (rows : List Row)
    → find_row id (upsert_row r rows) ≡ (if r.id == id then some r else find_row id rows)
unfolding find_row upsert_row
find_row-upsert_row id r [] = refl
find_row-upsert_row id r (q ∷ rows) = ground (arith, find_row-upsert_row id r rows)

upsert-IsStored :
    (answer : Bool) (e : Entry) (s : OpStore)
    → (upsert answer e s).1 ≡ true
    → IsStored e (upsert answer e s).0
unfolding upsert IsStored
upsert-IsStored answer e noop h = tt
upsert-IsStored answer e unavailable h = ground arith
upsert-IsStored true e (sqlite rows) h =
    unfold row_of in rw (find_row-upsert_row e.id (row_of e) rows) (ground arith)
upsert-IsStored false e (sqlite rows) h = ground arith

upsert_keeps_others :
    (answer : Bool) (e d : Entry) (s : OpStore)
    → e.id ≢ d.id
    → IsStored d s
    → IsStored d (upsert answer e s).0
unfolding upsert IsStored
upsert_keeps_others answer e d noop ne h = tt
upsert_keeps_others answer e d unavailable ne h = h
upsert_keeps_others true e d (sqlite rows) ne h =
    rw (find_row-upsert_row d.id (row_of e) rows) (unfold row_of in ground arith)
upsert_keeps_others false e d (sqlite rows) ne h = h

persist_attempts-IsStored :
    (k : ℕ) (e : Entry) (m : Manager)
    → (persist_attempts k e m).1 ≡ true
    → IsStored e (persist_attempts k e m).0.store
unfolding persist_attempts try_upsert
persist_attempts-IsStored zero e m h = ground arith
persist_attempts-IsStored (suc k) e m h =
    elim (Bool-cases (upsert (next_answer m.answers) e m.store).1) [
      | inl done ↦ rw done (upsert-IsStored (next_answer m.answers) e m.store done)
      | inr bad ↦ rw bad (persist_attempts-IsStored k e (try_upsert e m).0 (ground arith))
    ]

persist_attempts_keeps_others :
    (k : ℕ) (e d : Entry) (m : Manager)
    → e.id ≢ d.id
    → IsStored d m.store
    → IsStored d (persist_attempts k e m).0.store
unfolding persist_attempts try_upsert
persist_attempts_keeps_others zero e d m ne h = h
persist_attempts_keeps_others (suc k) e d m ne h =
    let kept = upsert_keeps_others (next_answer m.answers) e d m.store ne h in
    elim (Bool-cases (upsert (next_answer m.answers) e m.store).1) [
      | inl done ↦ rw done kept
      | inr bad ↦ rw bad (persist_attempts_keeps_others k e d (try_upsert e m).0 ne kept)
    ]

module _ (e : Entry) (m : Manager) where
  -- A write that reports success has stored the entry.
  pub persist_entry-IsStored : (persist_entry e m).1 ≡ true → IsStored e (persist_entry e m).0.store
  unfolding persist_entry
  persist_entry-IsStored h = persist_attempts-IsStored operation_persist_attempts e m h

  -- A write, successful or not, leaves what is stored under other ids.
  pub persist_entry_keeps_others :
      (d : Entry) → e.id ≢ d.id → IsStored d m.store → IsStored d (persist_entry e m).0.store
  unfolding persist_entry
  persist_entry_keeps_others d ne h =
      persist_attempts_keeps_others operation_persist_attempts e d m ne h

drop_pending_absent : (id : ℕ) (es : List Entry) → Above id es → drop_pending id es ≡ es
unfolding drop_pending
drop_pending_absent id [] a = refl
drop_pending_absent id (e ∷ es) a = ground (arith, drop_pending_absent id es)

drop_pending_head : (e : Entry) (es : List Entry) → Above e.id es → drop_pending e.id (e ∷ es) ≡ es
drop_pending_head e es a = unfold drop_pending in ground (arith, drop_pending_absent e.id es)

flush_keeps_below :
    (d : Entry) (es : List Entry) (m : Manager)
    → Above d.id es
    → IsStored d m.store
    → IsStored d (flush_pending es m).0.store
unfolding flush_pending
flush_keeps_below d [] m a h = h
flush_keeps_below d (e ∷ es) m a h =
    let kept = persist_entry_keeps_others e m d (omega arith) h in
    elim (Bool-cases (persist_entry e m).1) [
      | inl done ↦ rw done (flush_keeps_below d es (next_flush e m) a.1 kept)
      | inr bad ↦ rw bad kept
    ]

-- A flush that reports success has stored every pending entry and left none pending.
pub record IsFlushed (es : List Entry) (n : Manager) : Type 0 where
  pub none_left : n.pending ≡ []
  pub all_stored : All (λ e. IsStored e n.store) es

pub flush_pending-IsFlushed :
    (es : List Entry) (m : Manager)
    → Ascending es
    → m.pending ≡ es
    → (flush_pending es m).1 ≡ true
    → IsFlushed es (flush_pending es m).0
unfolding flush_pending
flush_pending-IsFlushed [] m a p h = record { none_left = p; all_stored = tt }
flush_pending-IsFlushed (e ∷ es) m a p h = elim (Bool-cases (persist_entry e m).1) [
  | inl done ↦
      let kept : (persist_entry e m).0.pending ≡ e ∷ es = (persist_entry-SameLog e m).1 ∙ p in
      let left : (next_flush e m).pending ≡ es = rw kept (drop_pending_head e es a.0) in
      let rest = flush_pending-IsFlushed es (next_flush e m) a.1 left (rw done at h) in
      rw done (record {
        none_left = rest.none_left;
        all_stored = (
          flush_keeps_below e es (next_flush e m) a.0 (persist_entry-IsStored e m done),
          rest.all_stored,
        );
      })
  | inr bad ↦ absurd (ground arith)
]
