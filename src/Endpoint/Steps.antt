-- ===== src/Endpoint/Steps.antt =====
-- internal/server/primary_endpoint.go: what each call that a transition makes may lead to, as rules
-- that split a proof on its outcome.
use neon_selfhost.Prelude.{
  ◌≡◌, refl, Bool, true, false, Option, none, some, Result, ok, err, if◌then◌else◌,
}
use neon_selfhost.Endpoint.Selection.{
  Selection, SelectionFile, WriteFault, WriteIo, write_endpoint_selection, write_fault, renamed,
}
use neon_selfhost.Endpoint.Manager.{is_blank, has_applied_path}
use neon_selfhost.Endpoint.World.{Runtime, Desk, WaitError, EndpointError, write_selection, wrote}
use neon_selfhost.Endpoint.Wait.{wait_for_applied_primary}
use neon_selfhost.Endpoint.Waiting.{IsConfirmed, wait-IsConfirmed}
use neon_selfhost.Endpoint.Transition.{
  GivenUp, Answer, Act, then_do, unstable, or_unstable, done_or_unstable, after_start, waited,
  start_and_wait,
}

-- The file after a write that succeeded.
abbrev pub saved : {D : Type 0} → Selection → Desk D → SelectionFile
saved s w = if is_blank w.manager.selection_path then w.file else SelectionFile.selects s

module _ {D A B : Type 0} (Q : Answer D GivenUp B → Type 0) (f : A → Act D B) (e : EndpointError)
    (w : Desk D) where
  pub or_unstable_split :
      (r : D × Option A)
      → ((d : D) → Q (record w { runtime = d }, err (unstable e)))
      → ((a : A) → r.1 ≡ some a → Q (f a (record w { runtime = r.0 })))
      → Q (then_do f (or_unstable e w r))
  or_unstable_split (d, none) bad good = bad d
  or_unstable_split (d, some a) bad good = good a refl

module _ {D B : Type 0} (Q : Answer D GivenUp B → Type 0) (f : Unit → Act D B) (e : EndpointError)
    (w : Desk D) where
  pub done_split :
      (r : D × Bool)
      → ((d : D) → Q (record w { runtime = d }, err (unstable e)))
      → ((d : D) → Q (f tt (record w { runtime = d })))
      → Q (then_do f (done_or_unstable e w r))
  done_split (d, false) bad good = bad d
  done_split (d, true) bad good = good d

module _ {D : Type 0} (rt : Runtime D) (s : Selection) (w : Desk D) where
  saved_split :
      (Q : Desk D × Option WriteFault → Type 0) (d : D) (io : WriteIo) (at_blank : Bool)
      (o : Option WriteFault)
      → ((f : WriteFault) → Q (record w { runtime = d }, some f))
      → Q (
        record w { file = if at_blank then w.file else SelectionFile.selects s; runtime = d },
        none,
      )
      → Q (wrote rt w (d, io) (if at_blank then (w.file, none) else renamed s w.file o))
  saved_split Q d io true o bad good = good
  saved_split Q d io false none bad good = good
  saved_split Q d io false (some f) bad good = bad f

  -- A write fails and leaves the file, or leaves the selection there.
  pub write_split :
      (Q : Desk D × Option WriteFault → Type 0)
      → ((d : D) (f : WriteFault) → Q (record w { runtime = d }, some f))
      → ((d : D) → Q (record w { file = saved s w; runtime = d }, none))
      → Q (write_selection rt s w)
  unfolding write_selection write_endpoint_selection
  write_split Q bad good =
      let a = rt.write_io w.runtime in
      saved_split Q a.0 a.1 (is_blank w.manager.selection_path) (write_fault a.1) (bad a.0)
        (good a.0)

  waited_split :
      (Q : Answer D WaitError Unit → Type 0) (r : D × Result WaitError Unit)
      → (r.1 ≡ ok tt → IsConfirmed rt (has_applied_path w.manager) s r.0)
      → ((d : D) (e : WaitError) → Q (record w { runtime = d }, err e))
      → ((d : D)
          → IsConfirmed rt (has_applied_path w.manager) s d
          → Q (record w { runtime = d }, ok tt))
      → Q (waited rt w r)
  waited_split Q (d, ok _) confirmed bad good = good d (confirmed refl)
  waited_split Q (d, err e) confirmed bad good = bad d e

  after_start_split :
      (Q : Answer D WaitError Unit → Type 0) (r : D × Bool)
      → ((d : D) (e : WaitError) → Q (record w { runtime = d }, err e))
      → ((d : D)
          → IsConfirmed rt (has_applied_path w.manager) s d
          → Q (record w { runtime = d }, ok tt))
      → Q (after_start rt s w r)
  after_start_split Q (d, false) bad good = bad d WaitError.start_refused
  after_start_split Q (d, true) bad good =
      waited_split Q (wait_for_applied_primary rt (has_applied_path w.manager) s d)
        (wait-IsConfirmed rt (has_applied_path w.manager) s d) bad good

  -- A start with its wait fails, or ends with a compute that has applied the selection.
  pub start_split :
      (Q : Answer D WaitError Unit → Type 0)
      → ((d : D) (e : WaitError) → Q (record w { runtime = d }, err e))
      → ((d : D)
          → IsConfirmed rt (has_applied_path w.manager) s d
          → Q (record w { runtime = d }, ok tt))
      → Q (start_and_wait rt s w)
  unfolding start_and_wait
  start_split Q bad good = after_start_split Q (rt.start w.file w.runtime) bad good
