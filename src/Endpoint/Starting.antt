-- ===== src/Endpoint/Starting.antt =====
-- internal/server/primary_endpoint.go: where `Start` and `Stop` may end, whatever the runtime, the
-- file system and the compute answer.
use neon_selfhost.Prelude.{
  ◌≡◌, refl, ◌⊎◌, inl, inr, Text, true, false, if_split, some, Result, ok, err,
}
use neon_selfhost.Endpoint.Selection.{Selection}
use neon_selfhost.Endpoint.Manager.{
  RuntimeStatus, EndpointState, has_applied_path, primary_runtime_was_active,
  finish_route_transition,
}
use neon_selfhost.Endpoint.World.{Runtime, Desk, EndpointError, Errors}
use neon_selfhost.Endpoint.Waiting.{IsConfirmed}
use neon_selfhost.Endpoint.Connection.{connection}
use neon_selfhost.Endpoint.Closed.{connection-KeepsFlag}
use neon_selfhost.Endpoint.Transition.{
  GivenUp, Answer, Act, then_do, ◌>>◌, selection_to_start, attachment_to_start, with_started,
  entered, concluded, or_stopped, start_or_stop, persist, written, commit, start_persisted,
  start_named, start_selected, start_primary,
}
use neon_selfhost.Endpoint.Steps.{saved, or_unstable_split, done_split, write_split, start_split}

module _ {D : Type 0} (rt : Runtime D) where
  -- The manager, the file and the compute agree on the branch of the manager.
  pub record IsStarted (w v : Desk D) : Type 0 where
    pub generation : Text
    pub drawn : (rt.random_generation w.runtime).1 ≡ some generation
    pub manager :
        v.manager
        ≡ with_started
            (attachment_to_start w.manager)
            (selection_to_start generation w.manager)
            w.manager
    pub file : v.file ≡ saved (selection_to_start generation w.manager) w
    pub confirmed :
        IsConfirmed rt
          (has_applied_path w.manager)
          (selection_to_start generation w.manager)
          v.runtime

  -- A start that fails keeps the manager, and the file or the selection that it wrote there.
  pub record IsLeft (w v : Desk D) : Type 0 where
    pub manager : v.manager ≡ w.manager
    pub file :
        (v.file ≡ w.file)
        ⊎ ((generation : Text) × ((rt.random_generation w.runtime).1 ≡ some generation)
            × (v.file ≡ saved (selection_to_start generation w.manager) w))

  abbrev Ends : Desk D → Answer D GivenUp Unit → Type 0
  Ends w (v, ok _) = IsStarted w v
  Ends w (v, err g) = IsLeft w v × (g.stable ≡ false)

  untouched : (w : Desk D) (d : D) → IsLeft w (record w { runtime = d })
  untouched w d = record { manager = refl; file = inl refl }

  module _ (w : Desk D) (generation : Text)
      (drawn : (rt.random_generation w.runtime).1 ≡ some generation) where
    abbrev asked : Selection
    asked = selection_to_start generation w.manager

    rewritten : (d : D) → IsLeft w (record w { file = saved asked w; runtime = d })
    rewritten d = record { manager = refl; file = inr (generation, drawn, refl) }

    abbrev committing : Unit {0} → Act D Unit
    committing _ = commit rt (with_started (attachment_to_start w.manager) asked)

    start_or_stop-Ends :
        (d : D)
        → Ends w (
            then_do committing
              (start_or_stop rt asked (record w { file = saved asked w; runtime = d })))
    start_or_stop-Ends d =
        start_split rt asked (record w { file = saved asked w; runtime = d })
          (λ x. Ends w (then_do committing (or_stopped rt x)))
          (λ d' e. (rewritten (rt.stop d').0, refl))
          (λ d' applied. record {
            generation = generation;
            drawn = drawn;
            manager = refl;
            file = refl;
            confirmed = applied;
          })

    start_persisted-Ends :
        (st : RuntimeStatus) (d : D)
        → Ends w (
            start_persisted rt w.manager generation st
              (record w { file = saved asked w; runtime = d }))
    start_persisted-Ends st d =
        let v : Desk D = record w { file = saved asked w; runtime = d } in
        if_split (λ x. Ends w (then_do (λ _. start_or_stop rt asked >> committing tt) x))
          (primary_runtime_was_active st) _ _
          (λ _.
            done_split (Ends w) (λ _. start_or_stop rt asked >> committing tt)
              EndpointError.stop_failed v (rt.stop d) (λ e. (rewritten e, refl))
              (λ e. start_or_stop-Ends e))
          (λ _. start_or_stop-Ends d)

    start_named-Ends :
        (d : D) → Ends w (start_named rt w.manager generation (record w { runtime = d }))
    start_named-Ends d =
        or_unstable_split (Ends w)
          (λ st. persist rt asked >> start_persisted rt w.manager generation st)
          EndpointError.status_failed (record w { runtime = d }) (rt.status d)
          (λ e. (untouched w e, refl))
          (λ st _.
            let e = (rt.status d).0 in
            write_split rt asked (record w { runtime = e })
              (λ x.
                Ends w (then_do (λ _. start_persisted rt w.manager generation st) (written rt x)))
              (λ e' f. (untouched w e', refl)) (λ e'. start_persisted-Ends st e'))

  start_selected-Ends : (w : Desk D) → Ends w (start_selected rt w.manager w)
  unfolding start_selected
  start_selected-Ends w =
      or_unstable_split (Ends w) (start_named rt w.manager) EndpointError.no_generation w
        (rt.random_generation w.runtime) (λ d. (untouched w d, refl))
        (λ generation drawn. start_named-Ends w generation drawn (rt.random_generation w.runtime).0)

  pub data StartEnd (w : Desk D) : Desk D × Result Errors EndpointState → Type 0 where
    started :
        (v : Desk D)
        → IsStarted (entered rt w) v
        → {out : Desk D × Result Errors EndpointState}
        → out ≡ connection rt (record v { manager = finish_route_transition true v.manager })
        → out.0.manager.transitioning ≡ false
        → StartEnd w out
    failed :
        (v : Desk D) (es : Errors)
        → IsLeft (entered rt w) v
        → {out : Desk D × Result Errors EndpointState}
        → out ≡ (record v { manager = finish_route_transition false w.manager }, err es)
        → out.0.manager.transitioning ≡ false
        → StartEnd w out

  concluded-StartEnd :
      (w : Desk D) (x : Answer D GivenUp Unit) → Ends (entered rt w) x → StartEnd w (concluded rt x)
  concluded-StartEnd w (v, ok _) h =
      started v h refl
        (connection-KeepsFlag rt (record v { manager = finish_route_transition true v.manager }))
  concluded-StartEnd w (v, err g) h = failed v g.errors h.0 (rw (h.1, h.0.manager) refl) refl

  -- Start, whatever the runtime, the file system and the compute answer, ends in one of two
  -- ways, neither with a transition open. It has started: the selection of the branch of the
  -- manager is in the file (at a blank path that is left alone) and in the manager under the
  -- generation that the random source has just given, the last poll found the compute ready with
  -- it applied, the route is not blocked, and the answer is that of Connection. Or it fails with
  -- the old manager and the route blocked, and the file is untouched or holds the selection that
  -- Start wrote under that generation.
  pub start_primary-ends : (w : Desk D) → StartEnd w (start_primary rt w)
  unfolding start_primary
  start_primary-ends w = concluded-StartEnd w _ (start_selected-Ends (entered rt w))
