-- ===== src/Operations/Refusals.antt =====
-- internal/server/operations.go: what a failed write shows of the table.
pub mod Methods
use neon_selfhost.Prelude.{
  ℕ, zero, suc, ◌≡◌, refl, sym, ap, ◌∙◌, Text, Bool, true, false, Bool-cases, if_split, ◌⊎◌, inl,
  inr, Option, none, some, List, [], ◌∷◌, ◌++◌, Result, err, arith,
}
use mathlib.Core.List.{append_assoc}
use neon_selfhost.Operations.Types.{Entry, Status, OpError, persistence, operation_persist_attempts}
use neon_selfhost.Operations.Exclusion.{logged}
use neon_selfhost.Operations.Exclusion.Durable.{first_entry}
use neon_selfhost.Operations.Table.{OpStore, noop, unavailable, sqlite, upsert}
use neon_selfhost.Operations.Manager.{
  Manager, next_answer, later_answers, try_upsert, persist_attempts, persist_entry, flush_pending,
  drop_pending, trim_entries, begun, flushed, start, reject, ended, finished, finish,
  finish_entries,
}

abbrev pub is_closed : OpStore → Bool
is_closed noop = false
is_closed unavailable = true
is_closed (sqlite rows) = false

abbrev pub is_table : OpStore → Bool
is_table noop = false
is_table unavailable = false
is_table (sqlite rows) = true

-- The store refuses every write, or it is a table that will answer two writes in a row with an
-- error.
abbrev pub Refuses : Manager → Type 0
Refuses m =
    (is_closed m.store ≡ true)
    ⊎ ((is_table m.store ≡ true)
        × (before : List Bool) × (after : List Bool) × (m.answers
            ≡ before ++ false ∷ false ∷ after))

-- A later state of a store and its answers.
pub record Follows (qs bs : List Bool) (s t : OpStore) : Type 0 where
  pub before : List Bool
  pub answers : qs ≡ before ++ bs
  pub closed : is_closed t ≡ is_closed s
  pub table : is_table t ≡ is_table s

abbrev pub Later : Manager → Manager → Type 0
Later m n = Follows m.answers n.answers m.store n.store

pub Later-refl : (m : Manager) → Later m m
Later-refl m = record { before = []; answers = refl; closed = refl; table = refl }

Follows-trans :
    (qs bs cs : List Bool) (s t u : OpStore)
    → Follows qs bs s t
    → Follows bs cs t u
    → Follows qs cs s u
Follows-trans qs bs cs s t u f g = record {
  before = f.before ++ g.before;
  answers = f.answers ∙ ap (λ x. f.before ++ x) g.answers ∙ sym (append_assoc f.before g.before cs);
  closed = g.closed ∙ f.closed;
  table = g.table ∙ f.table;
}

pub Later-trans : (m n k : Manager) → Later m n → Later n k → Later m k
Later-trans m n k f g = Follows-trans m.answers n.answers k.answers m.store n.store k.store f g

pub Later-Refuses : (m n : Manager) → Later m n → Refuses n → Refuses m
Later-Refuses m n f (inl c) = inl (sym f.closed ∙ c)
Later-Refuses m n f (inr (t, before, after, e)) = inr (
  sym f.table ∙ t,
  f.before ++ before,
  after,
  f.answers
      ∙ ap (λ x. f.before ++ x) e
      ∙ sym (append_assoc f.before before (false ∷ false ∷ after)),
)

taken_answer : (qs : List Bool) → (before : List Bool) × (qs ≡ before ++ later_answers qs)
taken_answer [] = ([], refl)
taken_answer (a ∷ qs) = (a ∷ [], refl)

upsert-Follows :
    (qs : List Bool) (a : Bool) (e : Entry) (s : OpStore)
    → Follows qs (later_answers qs) s (upsert a e s).0
unfolding upsert
upsert-Follows qs a e noop =
    let (b, h) = taken_answer qs in record { before = b; answers = h; closed = refl; table = refl }
upsert-Follows qs a e unavailable =
    let (b, h) = taken_answer qs in record { before = b; answers = h; closed = refl; table = refl }
upsert-Follows qs true e (sqlite rows) =
    let (b, h) = taken_answer qs in record { before = b; answers = h; closed = refl; table = refl }
upsert-Follows qs false e (sqlite rows) =
    let (b, h) = taken_answer qs in record { before = b; answers = h; closed = refl; table = refl }

try_upsert-Later : (e : Entry) (m : Manager) → Later m (try_upsert e m).0
unfolding try_upsert
try_upsert-Later e m = upsert-Follows m.answers (next_answer m.answers) e m.store

persist_attempts-Later : (k : ℕ) (e : Entry) (m : Manager) → Later m (persist_attempts k e m).0
unfolding persist_attempts
persist_attempts-Later zero e m = Later-refl m
persist_attempts-Later (suc k) e m =
    let next = (try_upsert e m).0 in
    elim (Bool-cases (try_upsert e m).1) [
      | inl done ↦ rw done (try_upsert-Later e m)
      | inr bad ↦ rw bad (
          Later-trans m next (persist_attempts k e next).0 (try_upsert-Later e m)
            (persist_attempts-Later k e next))
    ]

pub persist_entry-Later : (e : Entry) (m : Manager) → Later m (persist_entry e m).0
unfolding persist_entry
persist_entry-Later e m = persist_attempts-Later operation_persist_attempts e m

-- An answer that is an error was given by a table, or by a store that refuses all.
upsert_error :
    (qs : List Bool) (e : Entry) (s : OpStore)
    → (upsert (next_answer qs) e s).1 ≡ false
    → (is_closed s ≡ true) ⊎ ((is_table s ≡ true) × (qs ≡ false ∷ later_answers qs))
unfolding upsert
upsert_error qs e noop h = absurd (ground arith)
upsert_error qs e unavailable h = inl refl
upsert_error [] e (sqlite rows) h = absurd (ground arith)
upsert_error (true ∷ qs) e (sqlite rows) h = absurd (ground arith)
upsert_error (false ∷ qs) e (sqlite rows) h = inr (refl, refl)

try_upsert_error :
    (e : Entry) (m : Manager)
    → (try_upsert e m).1 ≡ false
    → (is_closed m.store ≡ true)
      ⊎ ((is_table m.store ≡ true) × (m.answers ≡ false ∷ (try_upsert e m).0.answers))
unfolding try_upsert
try_upsert_error e m h = upsert_error m.answers e m.store h

-- Two errors in a row.
two_errors :
    (e : Entry) (m : Manager)
    → (try_upsert e m).1 ≡ false
    → (try_upsert e (try_upsert e m).0).1 ≡ false
    → Refuses m
two_errors e m h g = both (try_upsert_error e m h) (try_upsert_error e (try_upsert e m).0 g)
  where
    next : Manager
    next = (try_upsert e m).0

    both :
        (is_closed m.store ≡ true)
          ⊎ ((is_table m.store ≡ true) × (m.answers ≡ false ∷ (try_upsert e m).0.answers))
        → (is_closed (try_upsert e m).0.store ≡ true)
          ⊎ ((is_table (try_upsert e m).0.store ≡ true)
              × ((try_upsert e m).0.answers ≡ false ∷ (try_upsert e (try_upsert e m).0).0.answers))
        → Refuses m
    both (inl c) x = inl c
    both (inr (t, a)) (inl c) = inl (sym (try_upsert-Later e m).closed ∙ c)
    both (inr (t, a)) (inr (t', b)) =
        inr (t, [], (try_upsert e (try_upsert e m).0).0.answers, a ∙ ap (◌∷◌ false) b)

pub persist_entry-Refuses : (e : Entry) (m : Manager) → (persist_entry e m).1 ≡ false → Refuses m
unfolding persist_entry persist_attempts
persist_entry-Refuses e m h = elim (Bool-cases (try_upsert e m).1) [
  | inl done ↦ absurd (ground arith)
  | inr bad ↦ elim (Bool-cases (try_upsert e (try_upsert e m).0).1) [
    | inl done ↦ absurd (ground arith)
    | inr again ↦ two_errors e m bad again
  ]
]
