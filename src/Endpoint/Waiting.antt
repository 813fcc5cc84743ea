-- ===== src/Endpoint/Waiting.antt =====
-- internal/server/primary_endpoint.go: `waitForAppliedPrimary` ends, and says yes only to a compute
-- that is ready and has applied the selection.
use neon_selfhost.Prelude.{
  if_split, ap, codes, ℕ, zero, suc, ◌+◌, ◌*◌, ◌≤◌, ◌<◌, ◌≡◌, refl, Bool, true, false, Option, none,
  some, Result, ok, err, ltb, ◌&&◌, if◌then◌else◌, arith,
}
use neon_selfhost.Prelude.Trim.{trim_space}
use neon_selfhost.Prelude.Case.{equal_fold}
use neon_selfhost.Endpoint.Selection.{
  Selection, ReadFault, load_endpoint_selection, endpoint_selections_match,
}
use neon_selfhost.Endpoint.Manager.{RuntimeStatus}
use neon_selfhost.Endpoint.World.{Runtime, WaitError, poll_interval}
use neon_selfhost.Endpoint.Wait.{
  keep_waiting, compared, polled, wait_rounds_from, wait_for_applied_primary, wait_rounds,
  startup_timeout,
}

abbrev pub is_over : Result WaitError Unit → Bool
is_over (err WaitError.rounds_over) = true
is_over _ = false

-- The clock never goes back, and a sleep takes its time.
pub record Ticks {D : Type 0} (rt : Runtime D) : Type 0 where
  pub status : (d : D) → rt.now d ≤ rt.now (rt.status d).0
  pub applied_file : (d : D) → rt.now d ≤ rt.now (rt.applied_file d).0
  pub sleep : (d : D) → rt.now d + poll_interval ≤ rt.now (rt.sleep d)

-- The runtime at the end of a wait that said yes: `before` is its state at the last poll.
pub record IsConfirmed {D : Type 0} (rt : Runtime D) (with_applied : Bool) (expected : Selection)
    (d : D) : Type 0 where
  pub before : D
  pub status : RuntimeStatus
  pub answered : (rt.status before).1 ≡ some status
  pub running : status.running ≡ true
  pub ready : status.ready ≡ true
  pub last :
      d ≡ (if with_applied then (rt.applied_file (rt.status before).0).0 else (rt.status before).0)
  pub applied :
      with_applied ≡ true
      → (a : Selection) × (load_endpoint_selection (rt.applied_file (rt.status before).0).1
          ≡ ok (some a))
        × (endpoint_selections_match a expected ≡ true)

module _ {D : Type 0} (rt : Runtime D) (with_applied : Bool) (expected : Selection) where
  module _ (ticks : Ticks rt) (deadline : ℕ) where
    abbrev Ends : D × Result WaitError Unit → Type 0
    Ends r = is_over r.1 ≡ false

    -- a further poll is made only before the deadline
    keep_waiting-Ends :
        (again : D → D × Result WaitError Unit) (st : RuntimeStatus) (d : D)
        → (ltb deadline (rt.now d) ≡ false → Ends (again (rt.sleep d)))
        → Ends (keep_waiting rt with_applied again deadline st d)
    unfolding keep_waiting
    keep_waiting-Ends again st d h = ground arith

    compared-Ends :
        (again : D → D × Result WaitError Unit) (st : RuntimeStatus) (d : D)
        (r : Result ReadFault (Option Selection))
        → (ltb deadline (rt.now d) ≡ false → Ends (again (rt.sleep d)))
        → Ends (compared rt with_applied again deadline st expected d r)
    compared-Ends again st d (err e) h = refl
    compared-Ends again st d (ok none) h = keep_waiting-Ends again st d h
    compared-Ends again st d (ok (some a)) h =
        if_split Ends (endpoint_selections_match a expected) _ _ (λ _. refl)
          (λ _. keep_waiting-Ends again st d h)

    polled-Ends :
        (again : D → D × Result WaitError Unit) (d : D) (o : Option RuntimeStatus)
        → ((e : D)
            → rt.now d ≤ rt.now e
            → ltb deadline (rt.now e) ≡ false
            → Ends (again (rt.sleep e)))
        → Ends (polled rt with_applied again deadline expected (d, o))
    polled-Ends again d none h = refl
    polled-Ends again d (some st) h =
        let f = rt.applied_file d in
        if_split Ends (st.running && st.ready) _ _
          (λ _.
            if_split Ends with_applied _ _
              (λ _.
                compared-Ends again st f.0 (load_endpoint_selection f.1)
                  (h f.0 (ticks.applied_file d)))
              (λ _. refl))
          (λ _. keep_waiting-Ends again st d (h d (omega arith)))

    -- each poll after the first has slept, and so has come nearer to the deadline
    wait_rounds_from-Ends :
        (n : ℕ) (d : D)
        → deadline < rt.now d + poll_interval * n
        → Ends (wait_rounds_from rt with_applied (suc n) deadline expected d)
    unfolding wait_rounds_from
    wait_rounds_from-Ends zero d late =
        polled-Ends _ (rt.status d).0 (rt.status d).1
          (λ e later early. absurd (ground (arith, ticks.status d)))
    wait_rounds_from-Ends (suc n) d late =
        polled-Ends _ (rt.status d).0 (rt.status d).1 (λ e later early.
          wait_rounds_from-Ends n (rt.sleep e)
            (omega (arith, ticks.sleep e, ticks.status d, later)))

  -- Where the clock does not go back and a sleep takes 200 milliseconds or more,
  -- waitForAppliedPrimary ends by an answer of its own within the 302 polls of the model.
  pub wait-Ends :
      Ticks rt → (d : D) → is_over (wait_for_applied_primary rt with_applied expected d).1 ≡ false
  unfolding wait_for_applied_primary
  wait-Ends ticks d = wait_rounds_from-Ends ticks (rt.now d + startup_timeout) 301 d (omega arith)

  module _ (deadline : ℕ) where
    abbrev Confirms : D × Result WaitError Unit → Type 0
    Confirms r = r.1 ≡ ok tt → IsConfirmed rt with_applied expected r.0

    keep_waiting-Confirms :
        (again : D → D × Result WaitError Unit) (st : RuntimeStatus) (d : D)
        → ((e : D) → Confirms (again e))
        → Confirms (keep_waiting rt with_applied again deadline st d)
    unfolding keep_waiting
    keep_waiting-Confirms again st d h =
        if_split Confirms (equal_fold (trim_space st.state) (codes "unhealthy")) _ _
          (λ _ e. absurd (ground (arith, e)))
          (λ _.
            if_split Confirms (ltb deadline (rt.now d)) _ _ (λ _ e. absurd (ground (arith, e)))
              (λ _. h (rt.sleep d)))

    module _ (again : D → D × Result WaitError Unit) (go_on : (e : D) → Confirms (again e))
        (before d : D) (st : RuntimeStatus) (asked : rt.status before ≡ (d, some st)) where
      compared-Confirms :
          with_applied ≡ true
          → st.running ≡ true
          → st.ready ≡ true
          → (r : Result ReadFault (Option Selection))
          → load_endpoint_selection (rt.applied_file d).1 ≡ r
          → Confirms (compared rt with_applied again deadline st expected (rt.applied_file d).0 r)
      compared-Confirms w run ready (err x) h = λ e. absurd (ground (arith, e))
      compared-Confirms w run ready (ok none) h =
          keep_waiting-Confirms again st (rt.applied_file d).0 go_on
      compared-Confirms w run ready (ok (some a)) h =
          if_split Confirms (endpoint_selections_match a expected) _ _
            (λ same _. record {
              before = before;
              status = st;
              answered = ap (λ p. p.1) asked;
              running = run;
              ready = ready;
              last = rw (w, asked) refl;
              applied = λ _. (a, rw asked h, same);
            })
            (λ _. keep_waiting-Confirms again st (rt.applied_file d).0 go_on)

      status-Confirms : Confirms (polled rt with_applied again deadline expected (d, some st))
      status-Confirms =
          if_split Confirms (st.running && st.ready) _ _
            (λ live.
              if_split Confirms with_applied _ _
                (λ w.
                  compared-Confirms w (ground arith) (ground arith)
                    (load_endpoint_selection (rt.applied_file d).1) refl)
                (λ w _. record {
                  before = before;
                  status = st;
                  answered = ap (λ p. p.1) asked;
                  running = ground arith;
                  ready = ground arith;
                  last = rw (w, asked) refl;
                  applied = λ v. absurd (ground arith);
                }))
            (λ _. keep_waiting-Confirms again st d go_on)

    polled-Confirms :
        (again : D → D × Result WaitError Unit)
        → ((e : D) → Confirms (again e))
        → (before : D) (r : D × Option RuntimeStatus) → rt.status before ≡ r
        → Confirms (polled rt with_applied again deadline expected r)
    polled-Confirms again h before (d, none) asked = λ e. absurd (ground (arith, e))
    polled-Confirms again h before (d, some st) asked = status-Confirms again h before d st asked

    wait_rounds_from-Confirms :
        (n : ℕ) (d : D) → Confirms (wait_rounds_from rt with_applied n deadline expected d)
    unfolding wait_rounds_from
    wait_rounds_from-Confirms zero d = λ e. absurd (ground (arith, e))
    wait_rounds_from-Confirms (suc n) d =
        polled-Confirms (wait_rounds_from rt with_applied n deadline expected)
          (wait_rounds_from-Confirms n) d (rt.status d) refl

  pub wait-IsConfirmed :
      (d : D)
      → (wait_for_applied_primary rt with_applied expected d).1 ≡ ok tt
      → IsConfirmed rt with_applied expected (wait_for_applied_primary rt with_applied expected d).0
  unfolding wait_for_applied_primary
  wait-IsConfirmed d = wait_rounds_from-Confirms (rt.now d + startup_timeout) wait_rounds d
