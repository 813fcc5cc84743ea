-- ===== src/Endpoint/Wait.antt =====
-- internal/server/primary_endpoint.go: `waitForAppliedPrimary`, which polls the runtime until the
-- compute has applied the selection, and the theorem that it ends before its rounds are over.
use neon_selfhost.Prelude.{
  ℕ, zero, suc, ◌+◌, codes, Bool, Option, none, some, Result, ok, err, ltb, ◌&&◌, if◌then◌else◌,
}
use neon_selfhost.Prelude.Trim.{trim_space}
use neon_selfhost.Prelude.Case.{equal_fold}
use neon_selfhost.Endpoint.Selection.{
  Selection, SelectionFile, ReadFault, load_endpoint_selection, endpoint_selections_match,
}
use neon_selfhost.Endpoint.Manager.{RuntimeStatus}
use neon_selfhost.Endpoint.World.{Runtime, WaitError}

-- defaultPrimaryStartupTimeout, in milliseconds
abbrev pub startup_timeout : ℕ
startup_timeout = 60000

-- One poll at once, one after each of the 300 sleeps of the timeout, and one that finds it over.
abbrev pub wait_rounds : ℕ
wait_rounds = 302

module _ {D : Type 0} (rt : Runtime D) (with_applied : Bool) where
  abbrev pub Waited : Type 0
  Waited = D × Result WaitError Unit

  unfoldable pub keep_waiting : (D → Waited) → ℕ → RuntimeStatus → D → Waited
  keep_waiting again deadline st d =
      if equal_fold (trim_space st.state) (codes "unhealthy")
      then (d, err (WaitError.unhealthy (trim_space st.message)))
      else if ltb deadline (rt.now d)
      then (d, err WaitError.timed_out)
      else again (rt.sleep d)

  abbrev pub compared :
      (D → Waited)
      → ℕ
      → RuntimeStatus
      → Selection
      → D
      → Result ReadFault (Option Selection)
      → Waited
  compared again deadline st expected d (err e) = (d, err WaitError.applied_unknown)
  compared again deadline st expected d (ok none) = keep_waiting again deadline st d
  compared again deadline st expected d (ok (some applied)) =
      if endpoint_selections_match applied expected
      then (d, ok tt)
      else keep_waiting again deadline st d

  abbrev pub examined : (D → Waited) → ℕ → RuntimeStatus → Selection → D × SelectionFile → Waited
  examined again deadline st expected (d, file) =
      compared again deadline st expected d (load_endpoint_selection file)

  abbrev pub polled : (D → Waited) → ℕ → Selection → D × Option RuntimeStatus → Waited
  polled again deadline expected (d, none) = (d, err WaitError.status_unknown)
  polled again deadline expected (d, some st) =
      if st.running && st.ready
      then (if with_applied
          then examined again deadline st expected (rt.applied_file d)
          else (d, ok tt))
      else keep_waiting again deadline st d

  unfoldable pub wait_rounds_from : ℕ → ℕ → Selection → D → Waited
  wait_rounds_from zero deadline expected d = (d, err WaitError.rounds_over)
  wait_rounds_from (suc n) deadline expected d =
      polled (wait_rounds_from n deadline expected) deadline expected (rt.status d)

  unfoldable pub wait_for_applied_primary : Selection → D → Waited
  unfolding wait_rounds_from keep_waiting
  wait_for_applied_primary expected d =
      wait_rounds_from wait_rounds (rt.now d + startup_timeout) expected d
