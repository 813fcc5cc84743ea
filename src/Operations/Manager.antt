-- ===== src/Operations/Manager.antt =====
-- internal/server/operations.go: the operation manager. Each method runs under the mutex, so it is
-- one step. `answers` is what the table will answer to the writes to come, in order; a write past
-- its end succeeds.
use neon_selfhost.Prelude.{
  ℕ, zero, suc, ◌+◌, ◌%◌, Text, Bool, true, false, Option, none, some, List, [], ◌∷◌, ◌++◌, Result,
  ok, err, ltb, ◌==◌, if◌then◌else◌, length,
}
use neon_selfhost.Operations.Types.{
  Entry, Status, running, rejected, is_running, OpError, in_progress, persistence, missing,
  default_operation_log_limit, operation_persist_attempts, u64_mod,
}
use neon_selfhost.Operations.Table.{OpStore, unavailable, Loaded, upsert, load, keep_last}

pub record Manager : Type 0 where
  pub entries : List Entry
  pub max_entries : ℕ
  pub next_id : ℕ
  pub busy : Bool
  pub store : OpStore
  pub degraded : Bool
  pub pending : List Entry
  pub answers : List Bool

abbrev pub limit_or_default : ℕ → ℕ
limit_or_default n = if ltb n 1 then default_operation_log_limit else n

abbrev pub loaded_manager : ℕ → List Bool → OpStore × Option Loaded → Manager
loaded_manager n answers (store, none) = record {
  entries = [];
  max_entries = n;
  next_id = 0;
  busy = false;
  store = unavailable;
  degraded = true;
  pending = [];
  answers = answers;
}
loaded_manager n answers (store, some (es, last)) = record {
  entries = keep_last n es;
  max_entries = n;
  next_id = last;
  busy = false;
  store = store;
  degraded = false;
  pending = [];
  answers = answers;
}

-- `newOperationManager`
unfoldable pub new_operation_manager : Bool → Bool → ℕ → ℕ → OpStore → List Bool → Manager
unfolding load keep_last
new_operation_manager update_ok query_ok now max_entries store answers =
    let n = limit_or_default max_entries in
    loaded_manager n answers (load update_ok query_ok now n store)

-- One `Upsert`; it takes the next answer.
abbrev pub next_answer : List Bool → Bool
next_answer [] = true
next_answer (a ∷ rest) = a

abbrev pub later_answers : List Bool → List Bool
later_answers [] = []
later_answers (a ∷ rest) = rest

abbrev pub tried : Manager → OpStore × Bool → Manager × Bool
tried m (store, done) = (record m { store = store; answers = later_answers m.answers }, done)

unfoldable pub try_upsert : Entry → Manager → Manager × Bool
unfolding upsert
try_upsert e m = tried m (upsert (next_answer m.answers) e m.store)

-- The attempts of `persistEntryLocked`; the flag is true for a nil error.
unfoldable pub persist_attempts : ℕ → Entry → Manager → Manager × Bool
persist_attempts zero e m = (record m { degraded = true }, false)
persist_attempts (suc n) e m =
    let (m', done) = try_upsert e m in
    let again = persist_attempts n e m' in if done then (m', true) else again

unfoldable pub persist_entry : Entry → Manager → Manager × Bool
persist_entry e m = persist_attempts operation_persist_attempts e m

-- `delete(m.pendingTerminal, id)` and `m.pendingTerminal[id] = entry`; the map is kept in the order
-- of the ids, in which it is flushed.
unfoldable pub drop_pending : ℕ → List Entry → List Entry
drop_pending id [] = []
drop_pending id (e ∷ es) = let rest = drop_pending id es in if e.id == id then rest else e ∷ rest

unfoldable pub put_pending : Entry → List Entry → List Entry
put_pending e [] = e ∷ []
put_pending e (d ∷ ds) =
    if e.id == d.id then e ∷ ds else if ltb e.id d.id then e ∷ d ∷ ds else d ∷ put_pending e ds

-- The loop of `flushPendingTerminalLocked` over the sorted entries.
unfoldable pub flush_pending : List Entry → Manager → Manager × Bool
flush_pending [] m = (m, true)
flush_pending (e ∷ es) m =
    let (m', done) = persist_entry e m in
    let rest = flush_pending es (record m' { pending = drop_pending e.id m'.pending }) in
    if done then rest else (m', false)

-- The first entry that is not running is taken out; `none` where there is none.
abbrev pub behind : Entry → Option (List Entry) → Option (List Entry)
behind e none = none
behind e (some es) = some (e ∷ es)

unfoldable pub remove_first_done : List Entry → Option (List Entry)
unfolding is_running
remove_first_done [] = none
remove_first_done (e ∷ es) =
    if is_running e.status then behind e (remove_first_done es) else some es

abbrev pub shorter : ℕ → (List Entry → List Entry) → List Entry → Option (List Entry) → List Entry
shorter limit again es none = es
shorter limit again es (some less) = again less

-- The loop of `trimEntriesLocked`; every round takes an entry out, so as many rounds as there are
-- entries are enough.
unfoldable pub trim_rounds : ℕ → ℕ → List Entry → List Entry
trim_rounds zero limit es = es
trim_rounds (suc n) limit es =
    let next = shorter limit (trim_rounds n limit) es (remove_first_done es) in
    if ltb limit (length es) then next else es

unfoldable pub trim_entries : Manager → Manager
unfolding trim_rounds remove_first_done
trim_entries m = record m { entries = trim_rounds (length m.entries) m.max_entries m.entries }

abbrev pub next_id_of : Manager → ℕ
next_id_of m = (m.next_id + 1) % u64_mod

abbrev pub begun : Manager → Entry → Manager × Bool → Manager × Result OpError ℕ
begun before e (m, false) = (record m { entries = before.entries }, err persistence)
begun before e (m, true) = let t = trim_entries m in (record t { busy = true }, ok e.id)

abbrev pub flushed : Text → ℕ → Manager × Bool → Manager × Result OpError ℕ
flushed kind now (m, false) = (m, err persistence)
flushed kind now (m, true) =
    let e : Entry = record {
      id = next_id_of m;
      kind = kind;
      status = running;
      message = [];
      started_at = now;
      finished_at = none;
    } in
    begun m e (persist_entry e (record m { next_id = next_id_of m; entries = m.entries ++ e ∷ [] }))

unfoldable pub start : Text → ℕ → Manager → Manager × Result OpError ℕ
unfolding trim_entries flush_pending
start kind now m =
    if m.busy then (m, err in_progress) else flushed kind now (flush_pending m.pending m)

unfoldable pub reject : Text → Text → ℕ → Manager → Manager
unfolding trim_entries
reject kind message now m =
    let e : Entry = record {
      id = next_id_of m;
      kind = kind;
      status = rejected;
      message = message;
      started_at = now;
      finished_at = some now;
    } in
    trim_entries
      (persist_entry e (record m { next_id = next_id_of m; entries = m.entries ++ e ∷ [] })).0

-- The entry that `finish` writes, at its first occurrence; `none` where no entry has the id.
abbrev pub with_end : ℕ → Status → Text → Entry → Entry
with_end now status message e = record e {
  status = status;
  message = message;
  finished_at = some now;
}

abbrev pub after : Entry → Option (List Entry × Entry) → Option (List Entry × Entry)
after e none = none
after e (some (es, done)) = some (e ∷ es, done)

unfoldable pub finish_entries : ℕ → ℕ → Status → Text → List Entry → Option (List Entry × Entry)
finish_entries now id status message [] = none
finish_entries now id status message (e ∷ es) =
    if e.id == id
    then some (with_end now status message e ∷ es, with_end now status message e)
    else after e (finish_entries now id status message es)

abbrev pub ended : Entry → Manager × Bool → Manager × Option OpError
ended e (m, false) =
    (record m { pending = put_pending e m.pending; busy = false }, some persistence)
ended e (m, true) = (record m { pending = drop_pending e.id m.pending; busy = false }, none)

abbrev pub finished : Manager → Option (List Entry × Entry) → Manager × Option OpError
finished m none = (record m { busy = false; degraded = true }, some missing)
finished m (some (es, e)) = ended e (persist_entry e (record m { entries = es }))

unfoldable pub finish : ℕ → Status → Text → ℕ → Manager → Manager × Option OpError
unfolding finish_entries
finish id status message now m = finished m (finish_entries now id status message m.entries)

-- `Close`: the store is replaced by one that refuses every write.
unfoldable pub close : Manager → Manager
close m = record m { store = unavailable }
