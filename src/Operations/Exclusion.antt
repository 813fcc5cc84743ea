-- ===== src/Operations/Exclusion.antt =====
-- internal/server/operations.go: at most one operation runs, and its entry is never lost.
pub mod Start
pub mod Finish
pub mod Durable
use neon_selfhost.Prelude.{
  ℕ, zero, suc, ◌+◌, ◌%◌, ◌≤◌, ◌<◌, ◌≡◌, ◌≢◌, refl, ap, ◌∙◌, sym, Text, Bool, true, false, Option,
  none, some, Bool-cases, inl, inr, is_some, List, [], ◌∷◌, ◌++◌, Result, ok, err, arith, All,
  length, length-append, ltb, ◌==◌, if◌then◌else◌,
}
use neon_selfhost.Operations.Types.{
  Entry, Status, running, succeeded, failed, is_running, OpError, in_progress, persistence, missing,
  u64_mod,
}
use neon_selfhost.Operations.Manager.{
  Manager, persist_entry, flush_pending, drop_pending, put_pending, trim_entries, start, begun,
  flushed, reject, next_id_of, finish, finished, finish_entries, after, with_end, ended,
}
use neon_selfhost.Operations.Trim.{
  active_ids, active_ids-append, Ascending, Above, UpTo, UpTo-mono, Ascending-append, UpTo-append,
  IsTrimmed, trim_entries-IsTrimmed,
}
use neon_selfhost.Operations.Persist.{SameLog, persist_entry-SameLog, flush_pending-SameLog}

-- The log of a manager that is running the operations `ids`.
pub record IsGoodLog (ids : List ℕ) (last : ℕ) (es : List Entry) : Type 0 where
  pub active : active_ids es ≡ ids
  pub ascending : Ascending es
  pub bounded : UpTo last es

abbrev pub ids_of : Option ℕ → List ℕ
ids_of none = []
ids_of (some id) = id ∷ []

-- `o` is the operation that runs.
pub record IsConsistent (o : Option ℕ) (m : Manager) : Type 0 where
  pub log : IsGoodLog (ids_of o) m.next_id m.entries
  pub short : length m.entries ≤ m.max_entries
  pub positive : 1 ≤ m.max_entries
  pub flag : m.busy ≡ is_some o
  pub pending_ascending : Ascending m.pending
  pub pending_bounded : UpTo m.next_id m.pending

pub length-ids_of : (o : Option ℕ) → length (ids_of o) ≤ 1
length-ids_of none = omega arith
length-ids_of (some id) = omega arith

IsGoodLog-append :
    (ids : List ℕ) (last : ℕ) (es : List Entry) (e : Entry)
    → e.id ≡ last + 1
    → IsGoodLog ids last es
    → IsGoodLog (ids ++ active_ids (e ∷ [])) (last + 1) (es ++ e ∷ [])
IsGoodLog-append ids last es e h g = record {
  active = rw (active_ids-append, g.active) refl;
  ascending = Ascending-append last es e g.ascending g.bounded (omega arith);
  bounded =
      UpTo-append (last + 1) es e (UpTo-mono last (last + 1) es (omega arith) g.bounded)
        (omega arith);
}

-- One more entry is logged, written and the log trimmed: what `start` and `reject` share.
abbrev pub logged : Entry → Manager → Manager
logged e m = record m { next_id = next_id_of m; entries = m.entries ++ e ∷ [] }

pub next_id_of-eq : (m : Manager) → m.next_id + 1 < u64_mod → next_id_of m ≡ m.next_id + 1
next_id_of-eq m h = omega arith

pub trimmed-IsConsistent :
    (o : Option ℕ) (m n : Manager) (e : Entry) (ids : List ℕ)
    → IsConsistent o m
    → m.next_id + 1 < u64_mod
    → e.id ≡ next_id_of m
    → ids_of o ++ active_ids (e ∷ []) ≡ ids
    → length ids ≤ 1
    → SameLog (logged e m) n
    → IsGoodLog ids n.next_id (trim_entries n).entries
      × (length (trim_entries n).entries ≤ n.max_entries)
trimmed-IsConsistent o m n e ids c room new active few same =
    let g : IsGoodLog ids n.next_id n.entries =
      rw (same.entries, same.next_id, next_id_of-eq m room, ← active)
        (IsGoodLog-append (ids_of o) m.next_id m.entries e (omega arith) c.log) in
    let t = trim_entries-IsTrimmed n in
    (
      record {
        active = t.kept.active ∙ g.active;
        ascending = t.kept.ascending g.ascending;
        bounded = t.kept.up_to n.next_id g.bounded;
      },
      t.short (rw g.active (omega (arith, same.max_entries, c.positive))),
    )

-- The pending entries stay in order while they are flushed.
abbrev pub InOrder : ℕ → List Entry → Type 0
InOrder last es = Ascending es × UpTo last es

drop_pending-Above : (n id : ℕ) (es : List Entry) → Above n es → Above n (drop_pending id es)
unfolding drop_pending
drop_pending-Above n id [] a = tt
drop_pending-Above n id (e ∷ es) a = ground (arith, drop_pending-Above n id es)

drop_pending-UpTo : (n id : ℕ) (es : List Entry) → UpTo n es → UpTo n (drop_pending id es)
unfolding drop_pending
drop_pending-UpTo n id [] a = tt
drop_pending-UpTo n id (e ∷ es) a = ground (arith, drop_pending-UpTo n id es)

drop_pending-Ascending : (id : ℕ) (es : List Entry) → Ascending es → Ascending (drop_pending id es)
unfolding drop_pending
drop_pending-Ascending id [] a = tt
drop_pending-Ascending id (e ∷ es) a =
    ground (arith, drop_pending-Ascending id es, drop_pending-Above e.id id es)

pub drop_pending-InOrder :
    (last id : ℕ) (es : List Entry) → InOrder last es → InOrder last (drop_pending id es)
drop_pending-InOrder last id es h =
    (drop_pending-Ascending id es h.0, drop_pending-UpTo last id es h.1)

put_pending-Above :
    (n : ℕ) (e : Entry) (es : List Entry) → n < e.id → Above n es → Above n (put_pending e es)
unfolding put_pending
put_pending-Above n e [] h a = (h, tt)
put_pending-Above n e (d ∷ ds) h a = ground (arith, put_pending-Above n e ds)

Above-mono : (n k : ℕ) (es : List Entry) → k ≤ n → Above n es → Above k es
Above-mono n k [] h a = tt
Above-mono n k (e ∷ es) h a = (omega arith, Above-mono n k es h a.1)

put_pending-Ascending : (e : Entry) (es : List Entry) → Ascending es → Ascending (put_pending e es)
unfolding put_pending
put_pending-Ascending e [] a = (tt, tt)
put_pending-Ascending e (d ∷ ds) a =
    ground (arith, put_pending-Ascending e ds, put_pending-Above d.id e ds, Above-mono d.id e.id ds)

put_pending-UpTo :
    (n : ℕ) (e : Entry) (es : List Entry) → e.id ≤ n → UpTo n es → UpTo n (put_pending e es)
unfolding put_pending
put_pending-UpTo n e [] h a = (h, tt)
put_pending-UpTo n e (d ∷ ds) h a = ground (arith, put_pending-UpTo n e ds)

pub put_pending-InOrder :
    (last : ℕ) (e : Entry) (es : List Entry)
    → e.id ≤ last
    → InOrder last es
    → InOrder last (put_pending e es)
put_pending-InOrder last e es b h =
    (put_pending-Ascending e es h.0, put_pending-UpTo last e es b h.1)

flush_pending-InOrder :
    (last : ℕ) (es : List Entry) (m : Manager)
    → InOrder last m.pending
    → InOrder last (flush_pending es m).0.pending
unfolding flush_pending
flush_pending-InOrder last [] m h = h
flush_pending-InOrder last (e ∷ es) m h =
    let n = (persist_entry e m).0 in
    let kept : InOrder last n.pending = rw ((persist_entry-SameLog e m).1) h in
    elim (Bool-cases (persist_entry e m).1) [
      | inl done ↦ rw done (
          flush_pending-InOrder last es (record n { pending = drop_pending e.id n.pending })
            (drop_pending-InOrder last e.id n.pending kept))
      | inr bad ↦ rw bad kept
    ]

-- The flush leaves the log alone.
pub flush-IsConsistent :
    (o : Option ℕ) (m : Manager) (es : List Entry)
    → IsConsistent o m
    → IsConsistent o (flush_pending es m).0
flush-IsConsistent o m es c =
    let same = flush_pending-SameLog es m in
    let order = flush_pending-InOrder m.next_id es m (c.pending_ascending, c.pending_bounded) in
    record {
      log = rw (same.entries, same.next_id) c.log;
      short = rw (same.entries, same.max_entries) c.short;
      positive = rw same.max_entries c.positive;
      flag = same.busy ∙ c.flag;
      pending_ascending = order.0;
      pending_bounded = rw same.next_id order.1;
    }
