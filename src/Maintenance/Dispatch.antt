-- ===== src/Maintenance/Dispatch.antt =====
-- `Dispatcher.Dispatch` of internal/maintenance/dispatcher.go. `runs` is what becomes of a command.
use silent_devops.Prelude.{
  ℕ, ◌≤◌, ◌<◌, String, ◌≡◌, refl, ap, ◌∙◌, ◌≢◌, ◌⊎◌, inl, inr, Bool, true, false, not, ◌||◌, Option,
  none, some, List, [], ◌∷◌, arith, str_eq, str_eq_iff, ltb, leb, ◌==◌, if◌then◌else◌, Bool-cases,
  Option-cases,
}
use silent_devops.Protocol.{
  JobState, succeeded, failed, cancelled_state, timed_out, rejected, TypedOperation, process_list,
  service_list, service_status, service_start, service_stop, service_restart, journal_read,
  cleanup_preview, UnsafeOperation, arbitrary_command, cleanup_run, reboot, Operation, no_operation,
  safe, unsafe, Job, JobResult,
}
use silent_devops.Jobs.Close.{is_active}
use silent_devops.Maintenance.{
  validate_unit, processes, list_units, UnitAction, status, start, stop, restart, unit_argv,
  service, journal_argv, journal,
}
use silent_devops.Maintenance.Runner.{
  RunError, limit_required, start_failed, exit_failed, cancelled_run, deadline_exceeded, RunResult,
}

abbrev pub reject : Job → JobState → JobResult
reject j state = record {
  job_id = j.id;
  dispatch_id = j.dispatch_id;
  attempt = j.attempt;
  state = state;
  output = [];
  output_truncated = false;
}

-- The state of a job whose command has run.
abbrev pub state_of : Option RunError → JobState
state_of none = succeeded
state_of (some cancelled_run) = cancelled_state
state_of (some deadline_exceeded) = timed_out
state_of (some _) = failed

module _ (decimal : ℕ → String) where
  abbrev pub safe_argv : TypedOperation → Option (List String)
  safe_argv (process_list limit) = some (processes limit)
  safe_argv (service_list limit) = some (list_units limit)
  safe_argv (service_status unit) = some (service status unit)
  safe_argv (service_start unit) = some (service start unit)
  safe_argv (service_stop unit) = some (service stop unit)
  safe_argv (service_restart unit) = some (service restart unit)
  safe_argv (journal_read unit since until limit) = some (journal decimal unit since until limit)
  safe_argv (cleanup_preview paths) = none

  abbrev pub unsafe_argv : Job → UnsafeOperation → Option (List String)
  unsafe_argv j (arbitrary_command command) =
      if str_eq command "" || not j.confirmed then none else some ("/bin/sh" ∷ "-c" ∷ command ∷ [])
  unsafe_argv j (reboot agent confirmation expires) =
      if not (str_eq agent j.agent_id) || str_eq confirmation ""
      then none
      else some ("systemctl" ∷ "reboot" ∷ [])
  unsafe_argv j (cleanup_run preview hash expires) = none

  abbrev pub argv_of : Job → Option (List String)
  argv_of j = elim j.operation [
    | no_operation ↦ none
    | safe operation ↦ safe_argv operation
    | unsafe operation ↦ unsafe_argv j operation
  ]

  module _ (runs : List String → RunResult) where
    abbrev pub finished : Job → RunResult → JobResult
    finished j run = record (reject j (state_of run.error)) {
      output = run.output;
      output_truncated = run.truncated;
    }

    abbrev pub run_argv : Job → List String → JobResult
    run_argv j [] = reject j rejected
    run_argv j (name ∷ args) = finished j (runs (name ∷ args))

    -- `over` says that the context is done before the job begins.
    unfoldable pub dispatcher : Bool → Job → JobResult
    dispatcher over j =
        if over
        then reject j cancelled_state
        else elim (argv_of j) [ none ↦ reject j rejected | some argv ↦ run_argv j argv ]

    state_of-over : (e : Option RunError) → is_active (state_of e) ≡ false
    state_of-over none = refl
    state_of-over (some limit_required) = refl
    state_of-over (some start_failed) = refl
    state_of-over (some exit_failed) = refl
    state_of-over (some cancelled_run) = refl
    state_of-over (some deadline_exceeded) = refl

    run_argv-answers :
        (j : Job) (argv : List String)
        → ((run_argv j argv).job_id ≡ j.id)
          × ((run_argv j argv).dispatch_id ≡ j.dispatch_id)
          × ((run_argv j argv).attempt ≡ j.attempt)
          × (is_active (run_argv j argv).state ≡ false)
    run_argv-answers j [] = (refl, refl, refl, refl)
    run_argv-answers j (name ∷ args) = (refl, refl, refl, state_of-over (runs (name ∷ args)).error)

    -- Whatever the job, and whatever becomes of its command: the result is one for this job, dispatch
    -- and attempt, and its state is final, so that the validator's row of the job is no longer active.
    pub dispatcher_answers :
        (over : Bool) (j : Job)
        → ((dispatcher over j).job_id ≡ j.id)
          × ((dispatcher over j).dispatch_id ≡ j.dispatch_id)
          × ((dispatcher over j).attempt ≡ j.attempt)
          × (is_active (dispatcher over j).state ≡ false)
    unfolding dispatcher
    dispatcher_answers true j = (refl, refl, refl, refl)
    dispatcher_answers false j = elim (Option-cases (argv_of j)) [
      | inl missing ↦ rw (missing, dispatcher) (refl, refl, refl, refl)
      | inr (argv, found) ↦ rw (found, dispatcher) (run_argv-answers j argv)
    ]

    -- A cleanup, be it a preview or a run, that the validator sends is rejected by every agent: the
    -- dispatcher has no case for it.
    pub cleanups_rejected :
        (j : Job) (paths : List String) (preview : String) (hash : List ℕ) (expires : ℕ)
        → (dispatcher false (record j { operation = safe (cleanup_preview paths) })
            ≡ reject j rejected)
          × (dispatcher false (record j { operation = unsafe (cleanup_run preview hash expires) })
              ≡ reject j rejected)
    unfolding dispatcher
    cleanups_rejected j paths preview hash expires = (refl, refl)

  -- The commands that a job may run, and for what.
  pub data Permitted (j : Job) (argv : List String) : Type 0 where
    listing :
        (limit : ℕ)
        → 0 < limit
        → limit ≤ 1000
        → (argv ≡ processes limit) ⊎ (argv ≡ list_units limit)
        → Permitted j argv
    of_unit :
        (action : UnitAction) (unit : String)
        → validate_unit unit ≡ true
        → argv ≡ unit_argv action unit
        → Permitted j argv
    of_journal :
        (unit : String) (since until limit : ℕ)
        → validate_unit unit ≡ true
        → 0 < limit
        → limit ≤ 10_000
        → since < until
        → argv ≡ journal_argv decimal unit since until limit
        → Permitted j argv
    of_shell :
        (command : String)
        → j.operation ≡ unsafe (arbitrary_command command)
        → command ≢ ""
        → j.confirmed ≡ true
        → argv ≡ "/bin/sh" ∷ "-c" ∷ command ∷ []
        → Permitted j argv
    of_reboot :
        (confirmation : String) (expires : ℕ)
        → j.operation ≡ unsafe (reboot j.agent_id confirmation expires)
        → confirmation ≢ ""
        → argv ≡ "systemctl" ∷ "reboot" ∷ []
        → Permitted j argv

  service-Permitted :
      (j : Job) (action : UnitAction) (unit : String) (argv : List String)
      → service action unit ≡ argv
      → argv ≢ []
      → Permitted j argv
  unfolding service
  service-Permitted j action unit argv h some_args = elim (Bool-cases (validate_unit unit)) [
    | inl valid ↦ of_unit action unit valid (ground arith)
    | inr bad ↦ absurd (some_args (ground arith))
  ]

  processes-Permitted :
      (j : Job) (limit : ℕ) (argv : List String)
      → (argv ≡ processes limit) ⊎ (argv ≡ list_units limit)
      → argv ≢ []
      → Permitted j argv
  unfolding processes list_units
  processes-Permitted j limit argv h some_args = elim (Bool-cases (limit == 0 || ltb 1000 limit)) [
    | inl bad ↦ absurd (some_args (ground arith))
    | inr good ↦ listing limit (ground arith) (ground arith) h
  ]

  journal-Permitted :
      (j : Job) (unit : String) (since until limit : ℕ) (argv : List String)
      → journal decimal unit since until limit ≡ argv
      → argv ≢ []
      → Permitted j argv
  unfolding journal
  journal-Permitted j unit since until limit argv h some_args =
      elim (Bool-cases
        (not (validate_unit unit) || ((limit == 0 || ltb 10_000 limit) || leb until since))) [
          | inl bad ↦ absurd (some_args (ground arith))
          | inr good ↦
              of_journal unit since until limit (ground arith) (ground arith) (ground arith)
                (ground arith) (ground arith)
        ]

  safe-Permitted :
      (j : Job) (operation : TypedOperation) (argv : List String)
      → safe_argv operation ≡ some argv
      → argv ≢ []
      → Permitted j argv
  safe-Permitted j (process_list limit) argv h n =
      processes-Permitted j limit argv (inl (ground arith)) n
  safe-Permitted j (service_list limit) argv h n =
      processes-Permitted j limit argv (inr (ground arith)) n
  safe-Permitted j (service_status unit) argv h n =
      service-Permitted j status unit argv (ground arith) n
  safe-Permitted j (service_start unit) argv h n =
      service-Permitted j start unit argv (ground arith) n
  safe-Permitted j (service_stop unit) argv h n =
      service-Permitted j stop unit argv (ground arith) n
  safe-Permitted j (service_restart unit) argv h n =
      service-Permitted j restart unit argv (ground arith) n
  safe-Permitted j (journal_read unit since until limit) argv h n =
      journal-Permitted j unit since until limit argv (ground arith) n
  safe-Permitted j (cleanup_preview paths) argv h n = absurd (ground arith)

  unsafe-Permitted :
      (j : Job) (operation : UnsafeOperation) (argv : List String)
      → j.operation ≡ unsafe operation
      → unsafe_argv j operation ≡ some argv
      → Permitted j argv
  unsafe-Permitted j (arbitrary_command command) argv own h =
      of_shell command own (ground (arith, str_eq_iff command "")) (ground arith) (ground arith)
  unsafe-Permitted j (reboot agent confirmation expires) argv own h =
      let same : agent ≡ j.agent_id = ground (arith, str_eq_iff agent j.agent_id) in
      of_reboot confirmation expires
        (own ∙ ap (λ (a : String). unsafe (reboot a confirmation expires)) same)
        (ground (arith, str_eq_iff confirmation "")) (ground arith)
  unsafe-Permitted j (cleanup_run preview hash expires) argv own h = absurd (ground arith)

  argv-Permitted :
      (j : Job) (operation : Operation) (argv : List String)
      → j.operation ≡ operation
      → argv_of j ≡ some argv
      → argv ≢ []
      → Permitted j argv
  argv-Permitted j no_operation argv own h n = absurd (ground arith)
  argv-Permitted j (safe operation) argv own h n = safe-Permitted j operation argv (ground arith) n
  argv-Permitted j (unsafe operation) argv own h n =
      unsafe-Permitted j operation argv own (ground arith)

  -- A job either runs no command (its result does not depend on what a command would do), or runs
  -- exactly one, which it may: a listing with a limit of at most 1000, an action on a valid unit, the
  -- journal of a valid unit within bounds, a confirmed shell command, or a reboot of its own agent.
  pub dispatcher_commands :
      (over : Bool) (j : Job)
      → ((runs runs' : List String → RunResult) → dispatcher runs over j ≡ dispatcher runs' over j)
        ⊎ ((argv : List String) × Permitted j argv
            × ((runs : List String → RunResult)
                → dispatcher runs over j ≡ finished runs j (runs argv)))
  unfolding dispatcher
  dispatcher_commands true j = inl (λ runs runs'. refl)
  dispatcher_commands false j = elim (Option-cases (argv_of j)) [
    | inl missing ↦ inl (λ runs runs'. rw (missing, dispatcher) refl)
    | inr ([], found) ↦ inl (λ runs runs'. rw (found, dispatcher) refl)
    | inr (name ∷ args, found) ↦ inr (
      name ∷ args,
      argv-Permitted j j.operation (name ∷ args) refl found (λ h. absurd (ground arith)),
      λ runs. rw (found, dispatcher) refl,
    )
  ]
