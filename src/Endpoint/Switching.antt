-- ===== src/Endpoint/Switching.antt =====
-- internal/server/primary_endpoint.go: where `SwitchToBranch` may end, whatever the runtime, the
-- file system and the compute answer.
use neon_selfhost.Prelude.{
  ◌≡◌, refl, ◌⊎◌, inl, inr, Text, Bool, true, false, if_split, Bool-cases, none, some, [], ◌∷◌,
  Result, ok, err, arith,
}
use neon_selfhost.Prelude.Trim.{trim_space}
use neon_selfhost.Endpoint.Selection.{Selection, SelectionFile}
use neon_selfhost.Endpoint.Manager.{
  RuntimeStatus, EndpointState, is_blank, attachment_at, has_applied_path,
  primary_runtime_was_active, finish_route_transition,
}
use neon_selfhost.Endpoint.World.{Runtime, Desk, WaitError, EndpointError, Errors, write_selection}
use neon_selfhost.Endpoint.Waiting.{IsConfirmed}
use neon_selfhost.Endpoint.Connection.{connection}
use neon_selfhost.Endpoint.Closed.{connection-KeepsFlag}
use neon_selfhost.Endpoint.Transition.{
  GivenUp, Answer, Act, then_do, previous_selection, selection_to_switch, with_switched, entered,
  concluded, verifying, restart_previous, given_up_after, or_restarted, persist_or_restart,
  after_restore, after_stop, or_rolled_back, start_or_roll_back, switch_selected, switch_to_branch,
  commit, ◌>>◌, switch_named, switch_stopped, runtime_stop,
}
use neon_selfhost.Endpoint.Steps.{saved, or_unstable_split, done_split, write_split, start_split}

module _ {D : Type 0} (rt : Runtime D) where
  -- The manager, the file and the compute agree on the branch asked for.
  pub record IsSwitched (branch : Text) (w v : Desk D) : Type 0 where
    pub generation : Text
    pub drawn : (rt.random_generation w.runtime).1 ≡ some generation
    pub manager :
        v.manager
        ≡ with_switched
            (attachment_at branch w.manager)
            (selection_to_switch generation branch w.manager)
            w.manager
    pub file : v.file ≡ saved (selection_to_switch generation branch w.manager) w
    pub confirmed :
        IsConfirmed rt
          (has_applied_path w.manager)
          (selection_to_switch generation branch w.manager)
          v.runtime

  -- The old selection is back: in the file, and applied by the compute if that ran before.
  pub record IsRestored (w v : Desk D) : Type 0 where
    pub status : RuntimeStatus
    pub answered : (rt.status (rt.random_generation w.runtime).0).1 ≡ some status
    pub file : (v.file ≡ w.file) ⊎ (v.file ≡ saved (previous_selection w.manager) w)
    pub confirmed :
        primary_runtime_was_active status ≡ true
        → IsConfirmed rt (has_applied_path w.manager) (previous_selection w.manager) v.runtime

  abbrev pub Ends : Text → Desk D → Answer D GivenUp Unit → Type 0
  Ends branch w (v, ok _) = IsSwitched branch w v
  Ends branch w (v, err g) = (v.manager ≡ w.manager) × (g.stable ≡ true → IsRestored w v)

  -- a method gave up: it is stable only with the old selection back
  abbrev GaveUp : Desk D → Answer D GivenUp Unit → Type 0
  GaveUp w (v, ok _) = ⊥
  GaveUp w (v, err g) = (v.manager ≡ w.manager) × (g.stable ≡ true → IsRestored w v)

  gave_up :
      (branch : Text) (w : Desk D) (f : Unit {0} → Act D Unit) (x : Answer D GivenUp Unit)
      → GaveUp w x
      → Ends branch w (then_do f x)
  gave_up branch w f (v, ok _) h = absurd h
  gave_up branch w f (v, err g) h = h

  module _ (w : Desk D) (st : RuntimeStatus)
      (answered : (rt.status (rt.random_generation w.runtime).0).1 ≡ some st) where
    abbrev previous : Selection
    previous = previous_selection w.manager

    abbrev was_active : Bool
    was_active = primary_runtime_was_active st

    -- the two ways back end with the restart of the compute that ran before
    restart-Ends :
        (es : Errors) (file : SelectionFile) (d : D)
        → (file ≡ w.file) ⊎ (file ≡ saved previous w)
        → GaveUp w (
            given_up_after rt es
              (restart_previous rt was_active previous (record w { file = file; runtime = d })))
    unfolding restart_previous
    restart-Ends es file d old =
        if_split (λ x. GaveUp w (given_up_after rt es x)) was_active _ _
          (λ _.
            start_split rt previous (record w { file = file; runtime = d })
              (λ x. GaveUp w (given_up_after rt es (verifying rt x))) (λ e x. not_verified-Ends e x)
              (λ e yes'. (
                refl,
                λ _. record { status = st; answered = answered; file = old; confirmed = λ _. yes' },
              )))
          (λ idle. (
            refl,
            λ _. record {
              status = st;
              answered = answered;
              file = old;
              confirmed = λ ran. absurd (ground arith);
            },
          ))
      where
        not_verified-Ends :
            (d' : D) (x : WaitError)
            → GaveUp w (
                given_up_after rt es (verifying rt (record w { file = file; runtime = d' }, err x)))
        not_verified-Ends d' WaitError.start_refused = (refl, λ h. absurd (ground arith))
        not_verified-Ends d' WaitError.status_unknown = (refl, λ h. absurd (ground arith))
        not_verified-Ends d' WaitError.applied_unknown = (refl, λ h. absurd (ground arith))
        not_verified-Ends d' WaitError.timed_out = (refl, λ h. absurd (ground arith))
        not_verified-Ends d' WaitError.rounds_over = (refl, λ h. absurd (ground arith))
        not_verified-Ends d' (WaitError.unhealthy m) = (refl, λ h. absurd (ground arith))

    saved_over :
        (s t : Selection) (d : D) → saved s (record w { file = saved t w; runtime = d }) ≡ saved s w
    saved_over s t d = ground arith

    after_restore-Ends :
        (e : WaitError) (done : Bool) (next : Selection) (d : D)
        → GaveUp w (
            after_restore rt was_active previous e done
              (write_selection rt previous (record w { file = saved next w; runtime = d })))
    after_restore-Ends e done next d =
        write_split rt previous (record w { file = saved next w; runtime = d })
          (λ x. GaveUp w (after_restore rt was_active previous e done x))
          (λ d' f. (refl, λ h. absurd (ground arith))) (λ d'. restored done d')
      where
        restored :
            (done : Bool) (d' : D)
            → GaveUp w (
                after_restore rt was_active previous e done (
                  record w {
                    file = saved previous (record w { file = saved next w; runtime = d });
                    runtime = d';
                  },
                  none,
                ))
        restored false d' = (refl, λ h. absurd (ground arith))
        restored true d' =
            restart-Ends (EndpointError.not_started e ∷ []) _ d' (inr (saved_over previous next d))

    after_stop-Ends :
        (e : WaitError) (next : Selection) (d : D) (r : D × Bool)
        → GaveUp w
            (after_stop rt was_active previous e (record w { file = saved next w; runtime = d }) r)
    after_stop-Ends e next d (d', done) = after_restore-Ends e done next d'

    module _ (branch generation : Text)
        (drawn : (rt.random_generation w.runtime).1 ≡ some generation) where
      abbrev next : Selection
      next = selection_to_switch generation branch w.manager

      abbrev committing : Unit {0} → Act D Unit
      committing _ = commit rt (with_switched (attachment_at branch w.manager) next)

      start_or_roll_back-Ends :
          (d : D)
          → Ends branch w (
              then_do committing (
                start_or_roll_back rt was_active previous next
                  (record w { file = saved next w; runtime = d })))
      start_or_roll_back-Ends d =
          start_split rt next (record w { file = saved next w; runtime = d })
            (λ x. Ends branch w (then_do committing (or_rolled_back rt was_active previous x)))
            (λ d' e. gave_up branch w committing _ (after_stop-Ends e next d' (rt.stop d')))
            (λ d' applied. record {
              generation = generation;
              drawn = drawn;
              manager = refl;
              file = refl;
              confirmed = applied;
            })

      abbrev going_on : Unit {0} → Act D Unit
      going_on _ v = then_do committing (start_or_roll_back rt was_active previous next v)

      persist_or_restart-Ends :
          (d : D)
          → Ends branch w (
              then_do going_on
                (persist_or_restart rt was_active previous next (record w { runtime = d })))
      persist_or_restart-Ends d =
          write_split rt next (record w { runtime = d })
            (λ x. Ends branch w (then_do going_on (or_restarted rt was_active previous x)))
            (λ d' f.
              gave_up branch w going_on _
                (restart-Ends (EndpointError.not_persisted f ∷ []) w.file d' (inl refl)))
            (λ d'. start_or_roll_back-Ends d')

  pub switch_selected-Ends :
      (branch : Text) (w : Desk D) → Ends branch w (switch_selected rt branch w.manager w)
  unfolding switch_selected
  switch_selected-Ends branch w =
      or_unstable_split (Ends branch w) (switch_named rt branch w.manager)
        EndpointError.no_generation w (rt.random_generation w.runtime)
        (λ d. (refl, λ h. absurd (ground arith)))
        (λ generation drawn.
          let d = (rt.random_generation w.runtime).0 in
          or_unstable_split (Ends branch w)
            (λ st. runtime_stop rt >> switch_stopped rt branch w.manager generation st)
            EndpointError.status_failed (record w { runtime = d }) (rt.status d)
            (λ e. (refl, λ h. absurd (ground arith)))
            (λ st answered.
              done_split (Ends branch w) (λ _. switch_stopped rt branch w.manager generation st)
                EndpointError.stop_failed (record w { runtime = (rt.status d).0 })
                (rt.stop (rt.status d).0) (λ e. (refl, λ h. absurd (ground arith)))
                (λ e. persist_or_restart-Ends w st answered branch generation drawn e)))

  -- Where a switch may end.
  pub data SwitchEnd (name : Text) (w : Desk D)
      : Desk D × Result Errors EndpointState → Type 0 where
    refused :
        is_blank name ≡ true
        → {out : Desk D × Result Errors EndpointState}
        → out ≡ (w, err (EndpointError.branch_name_required ∷ []))
        → SwitchEnd name w out
    switched :
        (v : Desk D)
        → IsSwitched (trim_space name) (entered rt w) v
        → {out : Desk D × Result Errors EndpointState}
        → out ≡ connection rt (record v { manager = finish_route_transition true v.manager })
        → out.0.manager.transitioning ≡ false
        → SwitchEnd name w out
    restored :
        (v : Desk D) (es : Errors)
        → IsRestored (entered rt w) v
        → {out : Desk D × Result Errors EndpointState}
        → out ≡ (record v { manager = finish_route_transition true w.manager }, err es)
        → out.0.manager.transitioning ≡ false
        → SwitchEnd name w out
    blocked :
        (v : Desk D) (es : Errors)
        → {out : Desk D × Result Errors EndpointState}
        → out ≡ (record v { manager = finish_route_transition false w.manager }, err es)
        → out.0.manager.transitioning ≡ false
        → SwitchEnd name w out

  concluded-SwitchEnd :
      (name : Text) (w : Desk D) (x : Answer D GivenUp Unit)
      → Ends (trim_space name) (entered rt w) x
      → SwitchEnd name w (concluded rt x)
  concluded-SwitchEnd name w (v, ok _) h =
      switched v h refl
        (connection-KeepsFlag rt (record v { manager = finish_route_transition true v.manager }))
  concluded-SwitchEnd name w (v, err g) h = elim (Bool-cases g.stable) [
    | inl s ↦ restored v g.errors (h.1 s) (rw (s, h.0) refl) refl
    | inr u ↦ blocked v g.errors (rw (u, h.0) refl) refl
  ]

  -- SwitchToBranch, whatever the runtime, the file system and the compute answer, ends in one of
  -- four ways. It refuses a blank name and changes nothing; in the other three it leaves no
  -- transition open. Or it has switched: the manager has the branch, its attachment and the
  -- generation that the random source has just given, the selection file holds the same (at a
  -- blank path it is left alone), the last poll found the compute ready with that selection
  -- applied, the route is not blocked, and the answer is that of Connection. Or it fails and the
  -- route is not blocked: the manager is the old one, the file is untouched or holds the old
  -- selection, and a compute that was active before has been polled ready with the old selection
  -- applied. Or it fails with the old manager and the route blocked.
  pub switch_to_branch-ends :
      (name : Text) (w : Desk D) → SwitchEnd name w (switch_to_branch rt name w)
  unfolding switch_to_branch
  switch_to_branch-ends name w =
      if_split (SwitchEnd name w) (is_blank name) _ _ (λ blank. refused blank refl)
        (λ _. concluded-SwitchEnd name w _ (switch_selected-Ends (trim_space name) (entered rt w)))
