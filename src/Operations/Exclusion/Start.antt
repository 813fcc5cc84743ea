-- ===== src/Operations/Exclusion/Start.antt =====
-- internal/server/operations.go, `start` and `reject`: the running operation and the fresh ids.
use neon_selfhost.Prelude.{
  ℕ, ◌+◌, ◌≤◌, ◌<◌, ◌≡◌, refl, ◌∙◌, Text, Bool, true, false, Option, none, some, Bool-cases, inl,
  inr, List, [], ◌∷◌, Result, ok, err, arith,
}
use mathlib.Core.List.{append-nil}
use neon_selfhost.Operations.Types.{
  Entry, running, rejected, is_running, OpError, in_progress, persistence, u64_mod,
}
use neon_selfhost.Operations.Manager.{
  Manager, persist_entry, flush_pending, trim_entries, start, begun, flushed, reject, next_id_of,
}
use neon_selfhost.Operations.Trim.{active_ids, UpTo, UpTo-mono}
use neon_selfhost.Operations.Persist.{SameLog, persist_entry-SameLog, flush_pending-SameLog}
use neon_selfhost.Operations.Exclusion.{
  IsConsistent, ids_of, length-ids_of, logged, next_id_of-eq, trimmed-IsConsistent,
  flush-IsConsistent,
}

-- What `start` may return to a caller who finds no operation running.
pub data Started (m : Manager) (out : Manager × Result OpError ℕ) : Type 0 where
  started : (id : ℕ) → out.1 ≡ ok id → m.next_id < id → IsConsistent (some id) out.0 → Started m out
  refused : out.1 ≡ err persistence → IsConsistent none out.0 → Started m out

widened :
    (m n : Manager) (out : Manager × Result OpError ℕ)
    → n.next_id ≡ m.next_id
    → Started n out
    → Started m out
widened m n out e (started id h lt c) = started id h (omega arith) c
widened m n out e (refused h c) = refused h c

-- After one more id the old bounds still hold.
grown :
    (m n : Manager) (e : Entry) (es : List Entry)
    → m.next_id + 1 < u64_mod
    → SameLog (logged e m) n
    → UpTo m.next_id es
    → UpTo n.next_id es
grown m n e es room same u =
    UpTo-mono m.next_id n.next_id es (omega (arith, same.next_id, next_id_of-eq m room)) u

module _ (m : Manager) (e : Entry) (c : IsConsistent none m) (room : m.next_id + 1 < u64_mod)
    (new : e.id ≡ next_id_of m) (on : e.status ≡ running) where
  begun-Started :
      (r : Manager × Bool)
      → SameLog (logged e m) r.0
      → r.0.pending ≡ m.pending
      → Started m (begun m e r)
  unfolding trim_entries
  begun-Started (n, true) same p =
      let t =
        trimmed-IsConsistent none m n e (e.id ∷ []) c room new
          (unfold active_ids is_running in rw on refl) (omega arith) same in
      started e.id refl (omega (arith, next_id_of-eq m room)) (record {
        log = t.0;
        short = t.1;
        positive = rw same.max_entries c.positive;
        flag = refl;
        pending_ascending = rw p c.pending_ascending;
        pending_bounded = rw p (grown m n e m.pending room same c.pending_bounded);
      })
  begun-Started (n, false) same p = refused refl (record {
    log = record {
      active = c.log.active;
      ascending = c.log.ascending;
      bounded = grown m n e m.entries room same c.log.bounded;
    };
    short = rw same.max_entries c.short;
    positive = rw same.max_entries c.positive;
    flag = same.busy ∙ c.flag;
    pending_ascending = rw p c.pending_ascending;
    pending_bounded = rw p (grown m n e m.pending room same c.pending_bounded);
  })

flushed-Started :
    (kind : Text) (now : ℕ) (m : Manager) (r : Manager × Bool)
    → IsConsistent none r.0
    → r.0.next_id ≡ m.next_id
    → m.next_id + 1 < u64_mod
    → Started m (flushed kind now r)
flushed-Started kind now m (n, false) c same room = refused refl c
flushed-Started kind now m (n, true) c same room =
    let e : Entry = record {
      id = next_id_of n;
      kind = kind;
      status = running;
      message = [];
      started_at = now;
      finished_at = none;
    } in
    let p = persist_entry-SameLog e (logged e n) in
    widened m n _ same
      (begun-Started n e c (rw same room) refl refl (persist_entry e (logged e n)) p.0 p.1)

-- Where no operation runs and the ids have room, start begins one under an id that no entry has,
-- or reports that the table failed; the manager stays consistent with that.
pub start-Started :
    (kind : Text) (now : ℕ) (m : Manager)
    → IsConsistent none m
    → m.next_id + 1 < u64_mod
    → Started m (start kind now m)
unfolding start
start-Started kind now m c room = simp c.flag (
    flushed-Started kind now m (flush_pending m.pending m) (flush-IsConsistent none m m.pending c)
      ((flush_pending-SameLog m.pending m).next_id) room)

-- In a manager that is consistent with a running operation, start is refused and changes
-- nothing.
pub start_excludes :
    (kind : Text) (now id : ℕ) (m : Manager)
    → IsConsistent (some id) m
    → start kind now m ≡ (m, err in_progress)
unfolding start
start_excludes kind now id m c = rw c.flag

-- Where the ids have room, logging a rejected attempt keeps the manager consistent with the
-- operation that runs, or with none.
pub reject-IsConsistent :
    (kind message : Text) (now : ℕ) (o : Option ℕ) (m : Manager)
    → IsConsistent o m
    → m.next_id + 1 < u64_mod
    → IsConsistent o (reject kind message now m)
unfolding reject trim_entries
reject-IsConsistent kind message now o m c room =
    let e : Entry = record {
      id = next_id_of m;
      kind = kind;
      status = rejected;
      message = message;
      started_at = now;
      finished_at = some now;
    } in
    let p = persist_entry-SameLog e (logged e m) in
    let n = (persist_entry e (logged e m)).0 in
    let same = p.0 in
    let t =
      trimmed-IsConsistent o m n e (ids_of o) c room refl
        (unfold active_ids is_running in append-nil (ids_of o)) (length-ids_of o) same in
    record {
      log = t.0;
      short = t.1;
      positive = rw same.max_entries c.positive;
      flag = same.busy ∙ c.flag;
      pending_ascending = rw p.1 c.pending_ascending;
      pending_bounded = rw p.1 (grown m n e m.pending room same c.pending_bounded);
    }

next_id-flushed-le :
    (kind : Text) (now : ℕ) (r : Manager × Bool) → (flushed kind now r).0.next_id ≤ r.0.next_id + 1
unfolding trim_entries
next_id-flushed-le kind now (n, false) = omega arith
next_id-flushed-le kind now (n, true) = elim (Bool-cases (persist_entry e (logged e n)).1) [
  | inl done ↦ ground (arith, persist_entry-SameLog e (logged e n))
  | inr bad ↦ ground (arith, persist_entry-SameLog e (logged e n))
]
  where
    e : Entry
    e = record {
      id = next_id_of n;
      kind = kind;
      status = running;
      message = [];
      started_at = now;
      finished_at = none;
    }

-- A start takes at most one id.
pub next_id-start-le :
    (kind : Text) (now : ℕ) (m : Manager) → (start kind now m).0.next_id ≤ m.next_id + 1
unfolding start
next_id-start-le kind now m = ground (
  arith,
  next_id-flushed-le kind now (flush_pending m.pending m),
  flush_pending-SameLog m.pending m,
)
