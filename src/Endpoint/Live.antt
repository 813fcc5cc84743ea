-- ===== src/Endpoint/Live.antt =====
-- internal/server/primary_endpoint.go: a switch succeeds where the runtime, the file system and the
-- compute do what they are asked.
use neon_selfhost.Prelude.{
  ◌+◌, ◌≡◌, refl, Text, Bool, true, false, Option, none, some, Result, ok, err, is_ok, text_eq_refl,
  ℕ, arith,
}
use neon_selfhost.Prelude.Trim.{trim_space}
use neon_selfhost.Prelude.Case.{equal_fold, folded}
use neon_selfhost.Endpoint.Selection.{
  Selection, SelectionFile, all_succeed, load_endpoint_selection, endpoint_selections_match,
  write_endpoint_selection, write_fault,
}
use neon_selfhost.Endpoint.Manager.{
  RuntimeStatus, is_blank, has_applied_path, primary_runtime_was_active, finish_route_transition,
  attachment_at,
}
use neon_selfhost.Endpoint.World.{Runtime, Desk, WaitError, EndpointError, write_selection}
use neon_selfhost.Endpoint.Wait.{
  polled, wait_rounds_from, wait_for_applied_primary, startup_timeout,
}
use neon_selfhost.Endpoint.Connection.{connection}
use neon_selfhost.Endpoint.Transition.{
  GivenUp, Answer, Act, then_do, ◌>>◌, or_unstable, done_or_unstable, after_start, start_and_wait,
  switch_selected, switch_named, switch_stopped, switch_to_branch, entered, concluded, runtime_stop,
  commit, with_switched, selection_to_switch, previous_selection, or_rolled_back,
}
use neon_selfhost.Endpoint.Switching.{IsSwitched, switch_selected-Ends, Ends}

-- Every call succeeds, and a compute that is started has applied the selection in the file when it
-- is first asked.
pub record Heeds {D : Type 0} (rt : Runtime D) : Type 0 where
  pub generation : (d : D) → (g : Text) × ((rt.random_generation d).1 ≡ some g)
  pub status : (d : D) → (st : RuntimeStatus) × ((rt.status d).1 ≡ some st)
  pub stop : (d : D) → (rt.stop d).1 ≡ true
  pub write_io : (d : D) → (rt.write_io d).1 ≡ all_succeed
  pub start : (s : Selection) (d : D) → (rt.start (SelectionFile.selects s) d).1 ≡ true
  pub serves :
      (s : Selection) (d : D)
      → (st : RuntimeStatus) × ((rt.status (rt.start (SelectionFile.selects s) d).0).1 ≡ some st)
        × (st.running ≡ true)
        × (st.ready ≡ true)
        × ((rt.applied_file (rt.status (rt.start (SelectionFile.selects s) d).0).0).1
            ≡ SelectionFile.selects s)

endpoint_selections_match_self : (s : Selection) → endpoint_selections_match s s ≡ true
unfolding endpoint_selections_match equal_fold
endpoint_selections_match_self s = ground (
  arith,
  text_eq_refl (trim_space s.generation),
  text_eq_refl (folded (trim_space s.branch)),
  text_eq_refl (folded (trim_space s.tenant_id)),
  text_eq_refl (folded (trim_space s.timeline_id)),
)

module _ {D : Type 0} (rt : Runtime D) (heeds : Heeds rt) where
  Succeeds : Answer D GivenUp Unit → Type 0
  Succeeds x = is_ok x.1 ≡ true

  asked-Succeeds :
      {A : Type 0} (f : A → Act D Unit) (e : EndpointError) (w : Desk D) (r : D × Option A) (a : A)
      → r.1 ≡ some a
      → ((d : D) (a : A) → is_ok (f a (record w { runtime = d })).1 ≡ true)
      → is_ok (then_do f (or_unstable e w r)).1 ≡ true
  asked-Succeeds f e w (d, none) a h k = absurd (ground arith)
  asked-Succeeds f e w (d, some b) a h k = k d b

  done-Succeeds :
      (f : Unit {0} → Act D Unit) (e : EndpointError) (w : Desk D) (r : D × Bool)
      → r.1 ≡ true
      → ((d : D) → is_ok (f tt (record w { runtime = d })).1 ≡ true)
      → is_ok (then_do f (done_or_unstable e w r)).1 ≡ true
  done-Succeeds f e w (d, false) h k = absurd (ground arith)
  done-Succeeds f e w (d, true) h k = k d

  -- at a path the file holds the selection afterwards
  write_lem :
      (s : Selection) (w : Desk D)
      → is_blank w.manager.selection_path ≡ false
      → write_selection rt s w
        ≡ (record w { file = SelectionFile.selects s; runtime = (rt.write_io w.runtime).0 }, none)
  unfolding write_selection write_endpoint_selection write_fault
  write_lem s w path = rw (path, heeds.write_io w.runtime) refl

  polled-Succeeds :
      (again : D → D × Result WaitError Unit) (deadline : ℕ) (s : Selection)
      (r : D × Option RuntimeStatus) (st : RuntimeStatus)
      → r.1 ≡ some st
      → st.running ≡ true
      → st.ready ≡ true
      → (rt.applied_file r.0).1 ≡ SelectionFile.selects s
      → is_ok (polled rt true again deadline s r).1 ≡ true
  unfolding load_endpoint_selection
  polled-Succeeds again deadline s (d, none) st h run ready applied = absurd (ground arith)
  polled-Succeeds again deadline s (d, some b) st h run ready applied =
      let same : b ≡ st = cc in
      rw (same, run, ready, applied, endpoint_selections_match_self s) refl

  waited-Succeeds :
      (s : Selection) (d : D)
      → is_ok (wait_for_applied_primary rt true s (rt.start (SelectionFile.selects s) d).0).1 ≡ true
  unfolding wait_for_applied_primary wait_rounds_from
  waited-Succeeds s d =
      let (st, answered, run, ready, applied) = heeds.serves s d in
      polled-Succeeds
        (wait_rounds_from rt true 301
          (rt.now (rt.start (SelectionFile.selects s) d).0 + startup_timeout) s)
        _ s (rt.status (rt.start (SelectionFile.selects s) d).0) st answered run ready applied

  after_start-Succeeds :
      (s : Selection) (w : Desk D) (r : D × Bool)
      → has_applied_path w.manager ≡ true
      → r.1 ≡ true
      → is_ok (wait_for_applied_primary rt true s r.0).1 ≡ true
      → is_ok (after_start rt s w r).1 ≡ true
  after_start-Succeeds s w (d, false) path h k = absurd (ground arith)
  after_start-Succeeds s w (d, true) path h k = rw path k

  start-Succeeds :
      (s : Selection) (w : Desk D) (d : D)
      → has_applied_path w.manager ≡ true
      → is_ok (start_and_wait rt s (record w { file = SelectionFile.selects s; runtime = d })).1
        ≡ true
  unfolding start_and_wait
  start-Succeeds s w d path =
      after_start-Succeeds s (record w { file = SelectionFile.selects s; runtime = d })
        (rt.start (SelectionFile.selects s) d) path (heeds.start s d) (waited-Succeeds s d)

  rolled-Succeeds :
      (f : Unit {0} → Act D Unit) (active : Bool) (s : Selection) (x : Answer D WaitError Unit)
      → is_ok x.1 ≡ true
      → ((v : Desk D) → is_ok (f tt v).1 ≡ true)
      → is_ok (then_do f (or_rolled_back rt active s x)).1 ≡ true
  rolled-Succeeds f active s (v, ok _) h k = k v
  rolled-Succeeds f active s (v, err e) h k = absurd (ground arith)

  module _ (w : Desk D) (branch : Text) (path : is_blank w.manager.selection_path ≡ false) where
    stopped-Succeeds :
        (generation : Text) (st : RuntimeStatus) (d : D)
        → is_ok (switch_stopped rt branch w.manager generation st (record w { runtime = d })).1
          ≡ true
    stopped-Succeeds generation st d =
        let next = selection_to_switch generation branch w.manager in
        rw (write_lem next (record w { runtime = d }) path) (
          rolled-Succeeds (λ _. commit rt (with_switched (attachment_at branch w.manager) next))
            (primary_runtime_was_active st) (previous_selection w.manager) _
            (start-Succeeds next w _ (rw path refl)) (λ v. refl))

    switch_selected-Succeeds : is_ok (switch_selected rt branch w.manager w).1 ≡ true
    unfolding switch_selected
    switch_selected-Succeeds =
        let d = (rt.random_generation w.runtime).0 in
        asked-Succeeds (switch_named rt branch w.manager) EndpointError.no_generation w
          (rt.random_generation w.runtime) (heeds.generation w.runtime).0
          (heeds.generation w.runtime).1
          (λ d generation.
            asked-Succeeds
              (λ st. runtime_stop rt >> switch_stopped rt branch w.manager generation st)
              EndpointError.status_failed (record w { runtime = d }) (rt.status d)
              (heeds.status d).0 (heeds.status d).1
              (λ e st.
                done-Succeeds (λ _. switch_stopped rt branch w.manager generation st)
                  EndpointError.stop_failed (record w { runtime = e }) (rt.stop e) (heeds.stop e)
                  (λ e'. stopped-Succeeds generation st e')))

  concluded-IsSwitched :
      (branch : Text) (w : Desk D) (x : Answer D GivenUp Unit)
      → is_ok x.1 ≡ true
      → Ends rt branch w x
      → (v : Desk D) × IsSwitched rt branch w v
        × (concluded rt x
            ≡ connection rt (record v { manager = finish_route_transition true v.manager }))
  concluded-IsSwitched branch w (v, ok _) h e = (v, e, refl)
  concluded-IsSwitched branch w (v, err g) h e = absurd (ground arith)

  -- Where every call of the runtime and of the file system succeeds, and a started compute has
  -- applied the selection in the file when it is first asked, SwitchToBranch with a name that is
  -- not blank and a selection path does switch, and answers as Connection does.
  pub switch_to_branch-Heeds :
      (name : Text) (w : Desk D)
      → is_blank name ≡ false
      → is_blank w.manager.selection_path ≡ false
      → (v : Desk D) × IsSwitched rt (trim_space name) (entered rt w) v
        × (switch_to_branch rt name w
            ≡ connection rt (record v { manager = finish_route_transition true v.manager }))
  unfolding switch_to_branch
  switch_to_branch-Heeds name w named path = rw named (
      concluded-IsSwitched (trim_space name) (entered rt w) _
        (switch_selected-Succeeds (entered rt w) (trim_space name) path)
        (switch_selected-Ends rt (trim_space name) (entered rt w)))
