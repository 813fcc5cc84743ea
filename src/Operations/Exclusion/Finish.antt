-- ===== src/Operations/Exclusion/Finish.antt =====
-- internal/server/operations.go, `finish` and `Run`: the running operation is always found.
use neon_selfhost.Prelude.{
  ℕ, ◌≤◌, ◌<◌, ◌≡◌, refl, Text, Bool, true, false, Option, none, some, Bool-cases, inl, inr, List,
  [], ◌∷◌, arith, length, ◌==◌, if◌then◌else◌,
}
use neon_selfhost.Operations.Types.{Entry, Status, is_running, OpError, persistence}
use neon_selfhost.Operations.Manager.{
  Manager, persist_entry, finish, finished, finish_entries, after, with_end, ended, put_pending,
}
use neon_selfhost.Operations.Trim.{active_ids, Ascending, Above, UpTo}
use neon_selfhost.Operations.Persist.{
  SameLog, persist_entry-SameLog, persist_entry-IsStored, IsStored,
}
use neon_selfhost.Operations.Exclusion.{
  IsGoodLog, IsConsistent, InOrder, drop_pending-InOrder, put_pending-InOrder,
}

-- The running entry lies above every entry before it.
active-Above : (n id : ℕ) (es : List Entry) → Above n es → active_ids es ≡ id ∷ [] → n < id
unfolding active_ids
active-Above n id [] a h = absurd (cc)
active-Above n id (e ∷ es) a h = ground (arith, active-Above n id es)

-- What `finish` makes of the log of a manager that runs `id`: the entry ends, all else stays.
record IsEnding (now id : ℕ) (status : Status) (message : Text) (es ds : List Entry) (e : Entry)
    : Type 0 where
  idle : active_ids ds ≡ []
  same_length : length ds ≡ length es
  above : (n : ℕ) → Above n es → Above n ds
  up_to : (n : ℕ) → UpTo n es → UpTo n ds
  ascending : Ascending es → Ascending ds
  same_id : e.id ≡ id
  ended_as : e.status ≡ status
  ended_with : e.message ≡ message
  ended_at : e.finished_at ≡ some now

module _ (now id : ℕ) (status : Status) (message : Text) (done : is_running status ≡ false) where
  data Ending (es : List Entry) (r : Option (List Entry × Entry)) : Type 0 where
    found :
        (ds : List Entry) (e : Entry)
        → r ≡ some (ds, e)
        → IsEnding now id status message es ds e
        → Ending es r

  here-Ending :
      (e : Entry) (es : List Entry)
      → e.id ≡ id
      → active_ids es ≡ []
      → Ending (e ∷ es) (some (with_end now status message e ∷ es, with_end now status message e))
  here-Ending e es h idle =
      found (with_end now status message e ∷ es) (with_end now status message e) refl (record {
        idle = unfold active_ids in rw done idle;
        same_length = refl;
        above = λ n a. a;
        up_to = λ n u. u;
        ascending = λ a. a;
        same_id = h;
        ended_as = refl;
        ended_with = refl;
        ended_at = refl;
      })

  after-Ending :
      (e : Entry) (es : List Entry) (r : Option (List Entry × Entry))
      → is_running e.status ≡ false
      → Ending es r
      → Ending (e ∷ es) (after e r)
  after-Ending e es r off (found ds d h x) = rw h (
      found (e ∷ ds) d refl (record {
        idle = unfold active_ids in rw off x.idle;
        same_length = omega (arith, x.same_length);
        above = λ n a. (a.0, x.above n a.1);
        up_to = λ n u. (u.0, x.up_to n u.1);
        ascending = λ a. (x.above e.id a.0, x.ascending a.1);
        same_id = x.same_id;
        ended_as = x.ended_as;
        ended_with = x.ended_with;
        ended_at = x.ended_at;
      }))

  finish_entries-Ending :
      (es : List Entry)
      → Ascending es
      → active_ids es ≡ id ∷ []
      → Ending es (finish_entries now id status message es)
  unfolding finish_entries
  finish_entries-Ending [] a h = absurd (unfold active_ids in cc)
  finish_entries-Ending (e ∷ es) a h = elim (Bool-cases (is_running e.status)) [
    | inl on ↦
        let same : e.id ≡ id = unfold active_ids in ground arith in
        let idle : active_ids es ≡ [] = unfold active_ids in ground arith in
        let hit : (e.id == id) ≡ true = ground arith in rw hit (here-Ending e es same idle)
    | inr off ↦
        let later : active_ids es ≡ id ∷ [] = unfold active_ids in ground arith in
        let below : e.id < id = active-Above e.id id es a.0 later in
        let miss : (e.id == id) ≡ false = ground arith in
        rw miss (after-Ending e es _ off (finish_entries-Ending es a.1 later))
  ]

-- `m.pendingTerminal[id]`
pub find_pending : ℕ → List Entry → Option Entry
find_pending id [] = none
find_pending id (e ∷ es) = if e.id == id then some e else find_pending id es

find_pending-put_pending :
    (e : Entry) (es : List Entry) → find_pending e.id (put_pending e es) ≡ some e
unfolding find_pending put_pending
find_pending-put_pending e [] = ground arith
find_pending-put_pending e (d ∷ ds) = ground (arith, find_pending-put_pending e ds)

-- The entry that ends an operation.
pub record Ends (now id : ℕ) (status : Status) (message : Text) (e : Entry) : Type 0 where
  pub same_id : e.id ≡ id
  pub ended_as : e.status ≡ status
  pub ended_with : e.message ≡ message
  pub ended_at : e.finished_at ≡ some now

-- What `finish` returns for the operation that runs: its last entry is in the table, or the table
-- failed and the entry waits among the pending ones.
pub data Finished (now id : ℕ) (status : Status) (message : Text) (out : Manager × Option OpError)
    : Type 0 where
  recorded :
      (e : Entry)
      → Ends now id status message e
      → out.1 ≡ none
      → IsStored e out.0.store
      → Finished now id status message out
  waiting :
      (e : Entry)
      → Ends now id status message e
      → out.1 ≡ some persistence
      → find_pending id out.0.pending ≡ some e
      → Finished now id status message out

-- Whether the write succeeded or not, the manager is idle and its pending entries are in order.
cleared :
    (e : Entry) (n : Manager) (done : Bool)
    → IsGoodLog [] n.next_id n.entries
    → length n.entries ≤ n.max_entries
    → 1 ≤ n.max_entries
    → InOrder n.next_id n.pending
    → e.id ≤ n.next_id
    → IsConsistent none (ended e (n, done)).0
cleared e n true log short positive order fits =
    let dropped = drop_pending-InOrder n.next_id e.id n.pending order in
    record {
      log = log;
      short = short;
      positive = positive;
      flag = refl;
      pending_ascending = dropped.0;
      pending_bounded = dropped.1;
    }
cleared e n false log short positive order fits =
    let added = put_pending-InOrder n.next_id e n.pending fits order in
    record {
      log = log;
      short = short;
      positive = positive;
      flag = refl;
      pending_ascending = added.0;
      pending_bounded = added.1;
    }

module _ (now id : ℕ) (status : Status) (message : Text) where
  ended-Finished :
      (e : Entry) (r : Manager × Bool)
      → Ends now id status message e
      → (r.1 ≡ true → IsStored e r.0.store)
      → Finished now id status message (ended e r)
  ended-Finished e (n, true) x stored = recorded e x refl (stored refl)
  ended-Finished e (n, false) x stored =
      waiting e x refl (rw (← x.same_id) (find_pending-put_pending e n.pending))

  Ends-of-IsEnding :
      (es ds : List Entry) (e : Entry)
      → IsEnding now id status message es ds e
      → Ends now id status message e
  Ends-of-IsEnding es ds e x = record {
    same_id = x.same_id;
    ended_as = x.ended_as;
    ended_with = x.ended_with;
    ended_at = x.ended_at;
  }

  finished-Finished :
      (m : Manager) (r : Option (List Entry × Entry)) (done : is_running status ≡ false)
      → Ending now id status message done m.entries r
      → Finished now id status message (finished m r)
  finished-Finished m r done (found ds e h x) = rw h (
      ended-Finished e (persist_entry e (record m { entries = ds }))
        (Ends-of-IsEnding m.entries ds e x) (persist_entry-IsStored e (record m { entries = ds })))

  -- In a manager that is consistent with a running operation, finish under a status that is not
  -- running puts the last entry into the table, or reports that the table failed and keeps the
  -- entry pending; it never reports a missing operation.
  pub finish-Finished :
      (m : Manager)
      → is_running status ≡ false
      → IsConsistent (some id) m
      → Finished now id status message (finish id status message now m)
  unfolding finish
  finish-Finished m done c =
      finished-Finished m (finish_entries now id status message m.entries) done
        (finish_entries-Ending now id status message done m.entries c.log.ascending c.log.active)

  -- The bounds that the finished entry meets.
  at-most : (last : ℕ) (es : List Entry) → UpTo last es → active_ids es ≡ id ∷ [] → id ≤ last
  unfolding active_ids
  at-most last [] u h = absurd (cc)
  at-most last (e ∷ es) u h = ground (arith, at-most last es)

  ended-IsConsistent :
      (m : Manager) (ds : List Entry) (e : Entry) (r : Manager × Bool)
      → IsConsistent (some id) m
      → IsEnding now id status message m.entries ds e
      → SameLog (record m { entries = ds }) r.0
      → r.0.pending ≡ m.pending
      → IsConsistent none (ended e r).0
  ended-IsConsistent m ds e (n, done) c x same p =
      let log : IsGoodLog [] n.next_id n.entries =
        rw (same.entries, same.next_id)
          (record {
            active = x.idle;
            ascending = x.ascending c.log.ascending;
            bounded = x.up_to m.next_id c.log.bounded;
          }) in
      let short : length n.entries ≤ n.max_entries =
        rw (same.entries, same.max_entries, x.same_length) c.short in
      let order : InOrder n.next_id n.pending =
        rw (p, same.next_id) (c.pending_ascending, c.pending_bounded) in
      let fits : e.id ≤ n.next_id =
        rw (x.same_id, same.next_id) (at-most m.next_id m.entries c.log.bounded c.log.active) in
      cleared e n done log short (rw same.max_entries c.positive) order fits

  finished-IsConsistent :
      (m : Manager) (r : Option (List Entry × Entry)) (done : is_running status ≡ false)
      → IsConsistent (some id) m
      → Ending now id status message done m.entries r
      → IsConsistent none (finished m r).0
  finished-IsConsistent m r done c (found ds e h x) =
      let p = persist_entry-SameLog e (record m { entries = ds }) in
      rw h (ended-IsConsistent m ds e (persist_entry e (record m { entries = ds })) c x p.0 p.1)

  -- In a manager that is consistent with a running operation, finish under a status that is not
  -- running leaves a manager that is consistent with none.
  pub finish-IsConsistent :
      (m : Manager)
      → is_running status ≡ false
      → IsConsistent (some id) m
      → IsConsistent none (finish id status message now m).0
  unfolding finish
  finish-IsConsistent m done c =
      finished-IsConsistent m (finish_entries now id status message m.entries) done c
        (finish_entries-Ending now id status message done m.entries c.log.ascending c.log.active)
