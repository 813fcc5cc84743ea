-- ===== src/Operations/Exclusion/Durable.antt =====
-- internal/server/operations.go, `start`: no operation begins before the ends of the earlier ones
-- are in the table.
use neon_selfhost.Prelude.{
  ℕ, ◌+◌, ◌<◌, ◌≡◌, refl, ◌∙◌, Text, Bool, true, false, none, List, [], ◌∷◌, ok, arith, All,
}
use neon_selfhost.Operations.Types.{Entry, running, u64_mod}
use neon_selfhost.Operations.Manager.{
  Manager, persist_entry, flush_pending, trim_entries, start, begun, flushed, next_id_of,
}
use neon_selfhost.Operations.Trim.{UpTo}
use neon_selfhost.Operations.Persist.{
  IsStored, IsFlushed, persist_entry-SameLog, persist_entry-IsStored, persist_entry_keeps_others,
  flush_pending-IsFlushed, flush_pending-SameLog,
}
use neon_selfhost.Operations.Exclusion.{IsConsistent, logged, next_id_of-eq}

-- The entry that `start` logs.
abbrev pub first_entry : Text → ℕ → Manager → Entry
first_entry kind now n = record {
  id = next_id_of n;
  kind = kind;
  status = running;
  message = [];
  started_at = now;
  finished_at = none;
}

-- The pending entries of `m` are in the table of `n`, and the new entry too.
pub record IsCaughtUp (kind : Text) (now id : ℕ) (m n : Manager) : Type 0 where
  pub flushed_all : All (λ e. IsStored e n.store) m.pending
  pub none_left : n.pending ≡ []
  pub begun_stored :
      IsStored
        (record {
          id = id;
          kind = kind;
          status = running;
          message = [];
          started_at = now;
          finished_at = none;
        })
        n.store

keep-All :
    (e : Entry) (m : Manager) (last : ℕ) (es : List Entry)
    → last < e.id
    → UpTo last es
    → All (λ d. IsStored d m.store) es
    → All (λ d. IsStored d (persist_entry e m).0.store) es
keep-All e m last [] h u a = tt
keep-All e m last (d ∷ ds) h u a =
    (persist_entry_keeps_others e m d (omega arith) a.0, keep-All e m last ds h u.1 a.1)

begun-IsCaughtUp :
    (kind : Text) (now id : ℕ) (m n : Manager) (r : Manager × Bool)
    → All (λ d. IsStored d r.0.store) m.pending
    → r.0.pending ≡ []
    → (r.1 ≡ true → IsStored (first_entry kind now n) r.0.store)
    → (begun n (first_entry kind now n) r).1 ≡ ok id
    → IsCaughtUp kind now id m (begun n (first_entry kind now n) r).0
unfolding trim_entries
begun-IsCaughtUp kind now id m n (k, true) all left stored h =
    let same : next_id_of n ≡ id = cc in
    record { flushed_all = all; none_left = left; begun_stored = rw (← same) (stored refl) }
begun-IsCaughtUp kind now id m n (k, false) all left stored h = absurd (cc)

flushed-IsCaughtUp :
    (kind : Text) (now id : ℕ) (m : Manager) (r : Manager × Bool)
    → IsConsistent none m
    → m.next_id + 1 < u64_mod
    → r.0.next_id ≡ m.next_id
    → (r.1 ≡ true → IsFlushed m.pending r.0)
    → (flushed kind now r).1 ≡ ok id
    → IsCaughtUp kind now id m (flushed kind now r).0
flushed-IsCaughtUp kind now id m (n, true) c room same f h =
    let e = first_entry kind now n in
    let done = f refl in
    begun-IsCaughtUp kind now id m n (persist_entry e (logged e n))
      (keep-All e (logged e n) m.next_id m.pending (omega (arith, next_id_of-eq n (rw same room)))
        c.pending_bounded done.all_stored)
      ((persist_entry-SameLog e (logged e n)).1 ∙ done.none_left)
      (persist_entry-IsStored e (logged e n)) h
flushed-IsCaughtUp kind now id m (n, false) c room same f h = absurd (cc)

-- A start that succeeds on an idle manager whose ids have room has written every pending end of
-- an operation and its own entry to the table, and leaves nothing pending.
pub start-IsCaughtUp :
    (kind : Text) (now id : ℕ) (m : Manager)
    → IsConsistent none m
    → m.next_id + 1 < u64_mod
    → (start kind now m).1 ≡ ok id
    → IsCaughtUp kind now id m (start kind now m).0
unfolding start
start-IsCaughtUp kind now id m c room = simp c.flag (
    flushed-IsCaughtUp kind now id m (flush_pending m.pending m) c room
      ((flush_pending-SameLog m.pending m).next_id)
      (flush_pending-IsFlushed m.pending m c.pending_ascending refl))
