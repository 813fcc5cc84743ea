-- ===== src/Endpoint/Transition.antt =====
-- internal/server/primary_endpoint.go: `Start`, `Stop` and `SwitchToBranch`. Each runs under `opMu`,
-- opens a transition of the route and closes it, as stable or not, before it answers.
use neon_selfhost.Prelude.{
  Text, Bool, true, false, Option, none, some, [], ◌∷◌, ◌++◌, Result, ok, err, is_empty, ◌||◌,
  if◌then◌else◌,
}
use neon_selfhost.Prelude.Trim.{trim_space}
use neon_selfhost.Prelude.Map.{put}
use neon_selfhost.Endpoint.Selection.{Selection, WriteFault}
use neon_selfhost.Endpoint.Manager.{
  RuntimeStatus, EndpointState, PrimaryAttachment, PrimaryManager, is_blank, or_default,
  attachment_at, password_at, has_applied_path, primary_runtime_was_active, begin_route_transition,
  finish_route_transition,
}
use neon_selfhost.Endpoint.World.{Runtime, Desk, WaitError, EndpointError, Errors, write_selection}
use neon_selfhost.Endpoint.Wait.{wait_for_applied_primary}
use neon_selfhost.Endpoint.Connection.{connection}

-- A method that gives up says whether it leaves the route stable.
pub record GivenUp : Type 0 where
  pub stable : Bool
  pub errors : Errors

abbrev pub Answer : Type 0 → Type 0 → Type 0 → Type 0
Answer D E A = Desk D × Result E A

-- A part of a method that may give up.
abbrev pub Act : Type 0 → Type 0 → Type 0
Act D A = Desk D → Answer D GivenUp A

abbrev pub then_do : {D A B : Type 0} → (A → Act D B) → Answer D GivenUp A → Answer D GivenUp B
then_do f (w, ok a) = f a w
then_do f (w, err g) = (w, err g)

infixl 5 ◌>>=◌ ◌>>◌
abbrev pub ◌>>=◌ : {D A B : Type 0} → Act D A → (A → Act D B) → Act D B
(x >>= f) w = then_do f (x w)

abbrev pub ◌>>◌ : {D A B : Type 0} → Act D A → Act D B → Act D B
x >> y = x >>= λ _. y

abbrev pub unstable : EndpointError → GivenUp
unstable e = record { stable = false; errors = e ∷ [] }

abbrev pub or_unstable : {D A : Type 0} → EndpointError → Desk D → D × Option A → Answer D GivenUp A
or_unstable e w (d, none) = (record w { runtime = d }, err (unstable e))
or_unstable e w (d, some a) = (record w { runtime = d }, ok a)

abbrev pub done_or_unstable :
    {D : Type 0} → EndpointError → Desk D → D × Bool → Answer D GivenUp Unit
done_or_unstable e w (d, false) = (record w { runtime = d }, err (unstable e))
done_or_unstable e w (d, true) = (record w { runtime = d }, ok tt)

abbrev pub failed_stop : Bool → Errors
failed_stop true = []
failed_stop false = EndpointError.stop_after_failed ∷ []

abbrev pub attachment_to_start : PrimaryManager → PrimaryAttachment
attachment_to_start m =
    let a = attachment_at m.branch m in
    if is_blank a.tenant_id || is_blank a.timeline_id then m.attachment else a

abbrev pub selection_to_start : Text → PrimaryManager → Selection
selection_to_start generation m = record {
  generation = generation;
  branch = m.branch;
  tenant_id = (attachment_to_start m).tenant_id;
  timeline_id = (attachment_to_start m).timeline_id;
  password =
      or_default (is_blank (password_at m.branch m)) m.conn.password (password_at m.branch m);
}

abbrev pub with_started : PrimaryAttachment → Selection → PrimaryManager → PrimaryManager
with_started a s m = record m {
  attachment = a;
  attachments = put m.branch a m.attachments;
  conn = record (m.conn) { password = s.password };
  generation = s.generation;
}

-- what the manager would go back to
abbrev pub previous_selection : PrimaryManager → Selection
previous_selection m = record {
  generation = m.generation;
  branch = m.branch;
  tenant_id = m.attachment.tenant_id;
  timeline_id = m.attachment.timeline_id;
  password = password_at m.branch m;
}

-- a branch without a password gets the name of the user
abbrev pub password_to_switch : Text → PrimaryManager → Text
password_to_switch branch m =
    or_default (is_blank (password_at branch m)) m.conn.user (password_at branch m)

abbrev pub selection_to_switch : Text → Text → PrimaryManager → Selection
selection_to_switch generation branch m = record {
  generation = generation;
  branch = branch;
  tenant_id = (attachment_at branch m).tenant_id;
  timeline_id = (attachment_at branch m).timeline_id;
  password = password_to_switch branch m;
}

abbrev pub with_user_password : Selection → PrimaryManager → PrimaryManager
with_user_password s m =
    if is_empty s.password
    then record m {
      passwords = put s.branch m.conn.user m.passwords;
      conn = record (m.conn) { password = m.conn.user };
    }
    else record m { conn = record (m.conn) { password = s.password } }

abbrev pub with_switched : PrimaryAttachment → Selection → PrimaryManager → PrimaryManager
with_switched a s m = record (with_user_password s m) {
  branch = s.branch;
  attachment = a;
  generation = s.generation;
}

module _ {D : Type 0} (rt : Runtime D) where
  abbrev pub new_endpoint_selection_generation : Act D Text
  new_endpoint_selection_generation w =
      or_unstable EndpointError.no_generation w (rt.random_generation w.runtime)

  abbrev pub runtime_status : Act D RuntimeStatus
  runtime_status w = or_unstable EndpointError.status_failed w (rt.status w.runtime)

  abbrev pub runtime_stop : Act D Unit
  runtime_stop w = done_or_unstable EndpointError.stop_failed w (rt.stop w.runtime)

  abbrev pub waited : Desk D → D × Result WaitError Unit → Answer D WaitError Unit
  waited w (d, r) = (record w { runtime = d }, r)

  abbrev pub after_start : Selection → Desk D → D × Bool → Answer D WaitError Unit
  after_start s w (d, false) = (record w { runtime = d }, err WaitError.start_refused)
  after_start s w (d, true) =
      waited w (wait_for_applied_primary rt (has_applied_path w.manager) s d)

  -- `runtime.Start` and the wait for the selection
  unfoldable pub start_and_wait : Selection → Desk D → Answer D WaitError Unit
  unfolding wait_for_applied_primary
  start_and_wait s w = after_start s w (rt.start w.file w.runtime)

  abbrev pub written : Desk D × Option WriteFault → Answer D GivenUp Unit
  written (w, none) = (w, ok tt)
  written (w, some f) = (w, err (unstable (EndpointError.not_persisted f)))

  abbrev pub persist : Selection → Act D Unit
  persist s w = written (write_selection rt s w)

  abbrev pub stop_after : WaitError → Desk D → D × Bool → Answer D GivenUp Unit
  stop_after e w (d, done) = (
    record w { runtime = d },
    err (record { stable = false; errors = EndpointError.not_started e ∷ failed_stop done }),
  )

  abbrev pub or_stopped : Answer D WaitError Unit → Answer D GivenUp Unit
  or_stopped (w, ok _) = (w, ok tt)
  or_stopped (w, err e) = stop_after e w (rt.stop w.runtime)

  abbrev pub start_or_stop : Selection → Act D Unit
  start_or_stop s w = or_stopped (start_and_wait s w)

  abbrev pub commit : (PrimaryManager → PrimaryManager) → Act D Unit
  commit change w = (record w { manager = change w.manager }, ok tt)

  abbrev pub stop_if : Bool → Act D Unit
  stop_if c w = if c then runtime_stop w else (w, ok tt)

  -- the selection is in its file: the compute is started with it
  abbrev pub start_persisted : PrimaryManager → Text → RuntimeStatus → Act D Unit
  start_persisted m generation st = do
    stop_if (primary_runtime_was_active st)
    start_or_stop (selection_to_start generation m)
    commit (with_started (attachment_to_start m) (selection_to_start generation m))

  abbrev pub start_named : PrimaryManager → Text → Act D Unit
  start_named m generation = do
    st ← runtime_status
    persist (selection_to_start generation m)
    start_persisted m generation st

  -- Start between the opening of the transition and its end; `m` is the manager as it is read here
  unfoldable pub start_selected : PrimaryManager → Act D Unit
  unfolding write_selection start_and_wait primary_runtime_was_active
  start_selected m = do generation ← new_endpoint_selection_generation; start_named m generation

  abbrev pub verifying : Answer D WaitError Unit → Answer D EndpointError Unit
  verifying (w, ok _) = (w, ok tt)
  verifying (w, err WaitError.start_refused) = (w, err EndpointError.restart_failed)
  verifying (w, err e) = (w, err (EndpointError.not_verified e))

  -- the previous compute runs again, if it did before
  unfoldable pub restart_previous : Bool → Selection → Desk D → Answer D EndpointError Unit
  unfolding start_and_wait
  restart_previous was_active s w =
      if was_active then verifying (start_and_wait s w) else (w, ok tt)

  -- a method gives up with its first errors, and with that of the way back
  abbrev pub given_up_after : Errors → Answer D EndpointError Unit → Answer D GivenUp Unit
  given_up_after es (w, ok _) = (w, err (record { stable = true; errors = es }))
  given_up_after es (w, err e) = (w, err (record { stable = false; errors = es ++ e ∷ [] }))

  abbrev pub or_restarted : Bool → Selection → Desk D × Option WriteFault → Answer D GivenUp Unit
  or_restarted was_active previous (w, none) = (w, ok tt)
  or_restarted was_active previous (w, some f) =
      given_up_after (EndpointError.not_persisted f ∷ []) (restart_previous was_active previous w)

  abbrev pub persist_or_restart : Bool → Selection → Selection → Act D Unit
  persist_or_restart was_active previous next w =
      or_restarted was_active previous (write_selection rt next w)

  abbrev pub after_restore :
      Bool → Selection → WaitError → Bool → Desk D × Option WriteFault → Answer D GivenUp Unit
  after_restore was_active previous e done (w, some f) = (
    w,
    err (record {
      stable = false;
      errors =
          (EndpointError.not_started e ∷ failed_stop done) ++ EndpointError.not_restored f ∷ [];
    }),
  )
  after_restore was_active previous e false (w, none) =
      (w, err (record { stable = false; errors = EndpointError.not_started e ∷ failed_stop false }))
  after_restore was_active previous e true (w, none) =
      given_up_after (EndpointError.not_started e ∷ []) (restart_previous was_active previous w)

  abbrev pub after_stop : Bool → Selection → WaitError → Desk D → D × Bool → Answer D GivenUp Unit
  after_stop was_active previous e w (d, done) =
      after_restore was_active previous e done
        (write_selection rt previous (record w { runtime = d }))

  abbrev pub or_rolled_back : Bool → Selection → Answer D WaitError Unit → Answer D GivenUp Unit
  or_rolled_back was_active previous (w, ok _) = (w, ok tt)
  or_rolled_back was_active previous (w, err e) =
      after_stop was_active previous e w (rt.stop w.runtime)

  abbrev pub start_or_roll_back : Bool → Selection → Selection → Act D Unit
  start_or_roll_back was_active previous next w =
      or_rolled_back was_active previous (start_and_wait next w)

  -- the compute is stopped: the new selection is tried, with the old one to go back to
  abbrev pub switch_stopped : Text → PrimaryManager → Text → RuntimeStatus → Act D Unit
  switch_stopped branch m generation st = do
    persist_or_restart (primary_runtime_was_active st) (previous_selection m)
        (selection_to_switch generation branch m)
    start_or_roll_back (primary_runtime_was_active st) (previous_selection m)
        (selection_to_switch generation branch m)
    commit (with_switched (attachment_at branch m) (selection_to_switch generation branch m))

  abbrev pub switch_named : Text → PrimaryManager → Text → Act D Unit
  switch_named branch m generation = do
    st ← runtime_status
    runtime_stop
    switch_stopped branch m generation st

  -- SwitchToBranch between the opening of the transition and its end
  unfoldable pub switch_selected : Text → PrimaryManager → Act D Unit
  unfolding write_selection start_and_wait restart_previous primary_runtime_was_active
  switch_selected branch m = do
    generation ← new_endpoint_selection_generation
    switch_named branch m generation

  abbrev pub entered : Desk D → Desk D
  entered w = record w { manager = begin_route_transition w.manager }

  -- the transition ends; where the method succeeded, it answers by `Connection`
  abbrev pub concluded : Answer D GivenUp Unit → Answer D Errors EndpointState
  concluded (w, ok _) =
      connection rt (record w { manager = finish_route_transition true w.manager })
  concluded (w, err g) =
      (record w { manager = finish_route_transition g.stable w.manager }, err g.errors)

  unfoldable pub start_primary : Desk D → Answer D Errors EndpointState
  unfolding start_selected connection
  start_primary w = concluded (start_selected (entered w).manager (entered w))

  unfoldable pub stop_primary : Desk D → Answer D Errors EndpointState
  unfolding connection
  stop_primary w = concluded (runtime_stop (entered w))

  unfoldable pub switch_to_branch : Text → Desk D → Answer D Errors EndpointState
  unfolding switch_selected connection
  switch_to_branch name w =
      if is_blank name
      then (w, err (EndpointError.branch_name_required ∷ []))
      else concluded (switch_selected (trim_space name) (entered w).manager (entered w))
