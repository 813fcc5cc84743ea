-- ===== src/Branch/Store/Invariant.antt =====
-- What every run of the store's operations keeps, whatever the file system answers.
use neon_selfhost.Prelude.{
  ap, ◌∙◌, ℕ, Text, ◌≡◌, refl, Bool, true, false, Option, none, some, List, [], ◌∷◌, Result, ok,
  err, if◌then◌else◌,
}
use neon_selfhost.Prelude.Map.{put}
use neon_selfhost.Branch.Types.{Branch, Fault, Error, classify_persist_error}
use neon_selfhost.Branch.Snapshot.{snapshot}
use neon_selfhost.Branch.File.{
  StateFile, holds, FileIo, persist_state_file, persist_state_file-fails, persist_state_file-writes,
}
use neon_selfhost.Branch.Store.{Store, store_branch, replied, swapped}
use neon_selfhost.Branch.Store.WellFormed.{IsWellFormed, put-IsWellFormed}
use neon_selfhost.Branch.Store.Outcome.{Outcome, Fits, kept, wrote, apply-Outcome}
use neon_selfhost.Branch.Store.Ops.{Op, Call, apply, run}

-- The state file holds the branches of the store.
abbrev pub IsDurable : Store → Type 0
IsDurable s = s.persistent ≡ true → s.file ≡ holds (snapshot s.branches)

-- A write that failed changed nothing; one that succeeded put the entry and returned it.
pub data Wrote (s : Store) (k : Text) (b : Branch) (out : Store × Result Error Branch)
    : Type 0 where
  failed : (e : Error) → out ≡ (s, err e) → Wrote s k b out
  stored :
      (t : Store)
      → out ≡ (t, ok b)
      → t.branches ≡ put k b s.branches
      → t.persistent ≡ s.persistent
      → IsDurable t
      → Wrote s k b out

replied-Wrote :
    (k : Text) (b : Branch) (s : Store) (r : StateFile × Option Fault)
    → ((f : Fault) → r.1 ≡ some f → r.0 ≡ s.file)
    → (r.1 ≡ none → r.0 ≡ holds (snapshot (put k b s.branches)))
    → Wrote s k b (replied b (swapped (put k b s.branches) s r))
replied-Wrote k b s (file, none) fails writes =
    stored (record s { file = file; branches = put k b s.branches }) refl refl refl
      (λ _. writes refl)
replied-Wrote k b s (file, some f) fails writes =
    failed (classify_persist_error f) (rw (fails f refl) refl)

persisted-Wrote :
    (io : FileIo) (k : Text) (b : Branch) (s : Store) (p : Bool)
    → s.persistent ≡ p
    → Wrote s k b (
        replied b (
          if p
          then swapped
              (put k b s.branches)
              s
              (persist_state_file io (snapshot (put k b s.branches)) s.file)
          else (record s { branches = put k b s.branches }, none)))
persisted-Wrote io k b s true h =
    let l = snapshot (put k b s.branches) in
    replied-Wrote k b s (persist_state_file io l s.file) (persist_state_file-fails io l s.file)
      (persist_state_file-writes io l s.file)
persisted-Wrote io k b s false h =
    stored (record s { branches = put k b s.branches }) refl refl refl (λ on. cc)

pub store_branch-Wrote :
    (io : FileIo) (k : Text) (b : Branch) (s : Store) → Wrote s k b (store_branch io k b s)
unfolding store_branch
store_branch-Wrote io k b s = persisted-Wrote io k b s s.persistent refl

-- What a caller of any operation sees: an error and the old store, or the new store.
pub record IsSafe (s : Store) : Type 0 where
  pub shape : IsWellFormed s.branches
  pub durable : IsDurable s

-- A call that returns an error has changed neither the branches nor the state file.
pub data Changed (s : Store) (out : Store × Result Error Branch) : Type 0 where
  same : out.0 ≡ s → Changed s out
  replaced :
      (t : Store) (b : Branch)
      → out ≡ (t, ok b)
      → IsSafe t
      → t.persistent ≡ s.persistent
      → Changed s out

Wrote-Changed :
    (s : Store) (k : Text) (b : Branch) (out : Store × Result Error Branch)
    → IsWellFormed s.branches
    → Fits s k b
    → Wrote s k b out
    → Changed s out
Wrote-Changed s k b out w f (failed e eq) = same (ap (λ r. r.0) eq)
Wrote-Changed s k b out w f (stored t eq wrote_put p d) =
    replaced t b eq
      (record {
        shape = rw wrote_put (put-IsWellFormed s.branches k b w f.entry f.live);
        durable = d;
      })
      p

Outcome-Changed :
    (s : Store) (out : Store × Result Error Branch)
    → IsWellFormed s.branches
    → Outcome s out
    → Changed s out
Outcome-Changed s out w (kept e) = same e
Outcome-Changed s out w (wrote io k b f e) =
    Wrote-Changed s k b out w f (rw e (store_branch-Wrote io k b s))

module _ (op : Op) (io : FileIo) (now : ℕ) (s : Store) where
  apply-Changed : IsSafe s → Changed s (apply op io now s)
  apply-Changed h = Outcome-Changed s _ h.shape (apply-Outcome s h.shape io now op)

  Changed-IsSafe : (out : Store × Result Error Branch) → IsSafe s → Changed s out → IsSafe out.0
  Changed-IsSafe out h (same e) = rw e h
  Changed-IsSafe out h (replaced t b e safe p) = rw e safe

  Changed-error :
      (out : Store × Result Error Branch) (e : Error) → Changed s out → out.1 ≡ err e → out.0 ≡ s
  Changed-error out e (same eq) h = eq
  Changed-error out e (replaced t b eq safe p) h = absurd (cc)

  Changed-persistent :
      (out : Store × Result Error Branch) → Changed s out → out.0.persistent ≡ s.persistent
  Changed-persistent out (same e) = rw e refl
  Changed-persistent out (replaced t b e safe p) = rw e p

  apply-persistent : IsSafe s → (apply op io now s).0.persistent ≡ s.persistent
  apply-persistent h = Changed-persistent (apply op io now s) (apply-Changed h)

  -- Every writing operation of a safe branch store, whatever the file system answers, keeps the
  -- branch map well formed and, in a persistent store, the state file equal to the snapshot of
  -- the branches.
  pub apply-IsSafe : IsSafe s → IsSafe (apply op io now s).0
  apply-IsSafe h = Changed-IsSafe (apply op io now s) h (apply-Changed h)

  -- A writing operation of a safe branch store that returns an error leaves the whole store as
  -- it was, its file included.
  pub apply_error_keeps_store :
      (e : Error) → IsSafe s → (apply op io now s).1 ≡ err e → (apply op io now s).0 ≡ s
  apply_error_keeps_store e h = Changed-error (apply op io now s) e (apply-Changed h)

-- So does a run of calls, in whatever order they come.
pub run-IsSafe : (cs : List Call) (s : Store) → IsSafe s → IsSafe (run s cs)
unfolding run
run-IsSafe [] s h = h
run-IsSafe (c ∷ cs) s h =
    run-IsSafe cs (apply c.op c.io c.now s).0 (apply-IsSafe c.op c.io c.now s h)

pub run-persistent :
    (cs : List Call) (s : Store) → IsSafe s → s.persistent ≡ true → (run s cs).persistent ≡ true
unfolding run
run-persistent [] s h on = on
run-persistent (c ∷ cs) s h on =
    run-persistent cs (apply c.op c.io c.now s).0 (apply-IsSafe c.op c.io c.now s h)
      (apply-persistent c.op c.io c.now s h ∙ on)
