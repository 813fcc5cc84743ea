-- ===== src/Operations/Refusals/Methods.antt =====
-- internal/server/operations.go: `start`, `reject` and `finish` report the table only where it refuses.
use neon_selfhost.Prelude.{
  ℕ, ◌≡◌, refl, Text, Bool, true, false, Bool-cases, if_split, inl, inr, Option, none, some, List,
  [], ◌∷◌, Result, err, arith,
}
use neon_selfhost.Operations.Types.{Entry, Status, OpError, persistence}
use neon_selfhost.Operations.Exclusion.{logged}
use neon_selfhost.Operations.Exclusion.Durable.{first_entry}
use neon_selfhost.Operations.Manager.{
  Manager, persist_entry, flush_pending, drop_pending, trim_entries, begun, flushed, start, reject,
  ended, finished, finish, finish_entries,
}
use neon_selfhost.Operations.Refusals.{
  Refuses, Later, Later-refl, Later-trans, Later-Refuses, persist_entry-Later,
  persist_entry-Refuses,
}

-- The loop over the pending entries, `start`, `reject` and `finish` only take answers away.
abbrev next_pending : Entry → Manager → Manager
next_pending e m =
    let n = (persist_entry e m).0 in record n { pending = drop_pending e.id n.pending }

flush_pending-Later : (es : List Entry) (m : Manager) → Later m (flush_pending es m).0
unfolding flush_pending
flush_pending-Later [] m = Later-refl m
flush_pending-Later (e ∷ es) m = elim (Bool-cases (persist_entry e m).1) [
  | inl done ↦ rw done (
      Later-trans m (next_pending e m) (flush_pending es (next_pending e m)).0
        (persist_entry-Later e m) (flush_pending-Later es (next_pending e m)))
  | inr bad ↦ rw bad (persist_entry-Later e m)
]

flush_pending-Refuses : (es : List Entry) (m : Manager) → (flush_pending es m).1 ≡ false → Refuses m
unfolding flush_pending
flush_pending-Refuses [] m h = absurd (ground arith)
flush_pending-Refuses (e ∷ es) m h = elim (Bool-cases (persist_entry e m).1) [
  | inl done ↦
      Later-Refuses m (next_pending e m) (persist_entry-Later e m)
        (flush_pending-Refuses es (next_pending e m) (rw done at h))
  | inr bad ↦ persist_entry-Refuses e m bad
]

begun-Later :
    (m n : Manager) (e : Entry) (r : Manager × Bool) → Later m r.0 → Later m (begun n e r).0
unfolding trim_entries
begun-Later m n e (k, true) f = f
begun-Later m n e (k, false) f = f

flushed-Later :
    (kind : Text) (now : ℕ) (m : Manager) (r : Manager × Bool)
    → Later m r.0
    → Later m (flushed kind now r).0
flushed-Later kind now m (n, false) f = f
flushed-Later kind now m (n, true) f =
    let e = first_entry kind now n in
    let k = (persist_entry e (logged e n)).0 in
    begun-Later m n e (persist_entry e (logged e n))
      (Later-trans m (logged e n) k f (persist_entry-Later e (logged e n)))

pub start-Later : (kind : Text) (now : ℕ) (m : Manager) → Later m (start kind now m).0
unfolding start
start-Later kind now m =
    if_split (λ (x : Manager × Result OpError ℕ). Later m x.0) m.busy _ _ (λ _. Later-refl m)
      (λ _. flushed-Later kind now m (flush_pending m.pending m) (flush_pending-Later m.pending m))

begun-Refuses :
    (n : Manager) (e : Entry) (r : Manager × Bool)
    → (r.1 ≡ false → Refuses n)
    → (begun n e r).1 ≡ err persistence
    → Refuses n
unfolding trim_entries
begun-Refuses n e (k, true) f h = absurd (cc)
begun-Refuses n e (k, false) f h = f refl

flushed-Refuses :
    (kind : Text) (now : ℕ) (m : Manager) (r : Manager × Bool)
    → Later m r.0
    → (r.1 ≡ false → Refuses m)
    → (flushed kind now r).1 ≡ err persistence
    → Refuses m
flushed-Refuses kind now m (n, false) f g h = g refl
flushed-Refuses kind now m (n, true) f g h =
    let e = first_entry kind now n in
    Later-Refuses m n f
      (begun-Refuses n e (persist_entry e (logged e n)) (persist_entry-Refuses e (logged e n)) h)

pub start-Refuses :
    (kind : Text) (now : ℕ) (m : Manager) → (start kind now m).1 ≡ err persistence → Refuses m
unfolding start
start-Refuses kind now m h =
    if_split (λ (x : Manager × Result OpError ℕ). x.1 ≡ err persistence → Refuses m) m.busy _ _
      (λ _ e. absurd (cc))
      (λ _.
        flushed-Refuses kind now m (flush_pending m.pending m) (flush_pending-Later m.pending m)
          (flush_pending-Refuses m.pending m))
      h

pub reject-Later :
    (kind message : Text) (now : ℕ) (m : Manager) → Later m (reject kind message now m)
unfolding reject trim_entries
reject-Later kind message now m = persist_entry-Later _ _

ended-Refuses :
    (e : Entry) (m : Manager) (r : Manager × Bool)
    → (r.1 ≡ false → Refuses m)
    → (ended e r).1 ≡ some persistence
    → Refuses m
ended-Refuses e m (n, true) f h = absurd (cc)
ended-Refuses e m (n, false) f h = f refl

finished-Refuses :
    (m : Manager) (r : Option (List Entry × Entry))
    → (finished m r).1 ≡ some persistence
    → Refuses m
finished-Refuses m none h = absurd (cc)
finished-Refuses m (some (es, e)) h =
    ended-Refuses e m (persist_entry e (record m { entries = es })) (persist_entry-Refuses e _) h

-- A finish that reports the table has met a table that refuses.
pub finish-Refuses :
    (id : ℕ) (status : Status) (message : Text) (now : ℕ) (m : Manager)
    → (finish id status message now m).1 ≡ some persistence
    → Refuses m
unfolding finish
finish-Refuses id status message now m h =
    finished-Refuses m (finish_entries now id status message m.entries) h
