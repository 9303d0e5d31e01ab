-- ===== src/Maintenance/Tests.antt =====
-- Runs of the dispatcher, and the theorems about it at concrete inputs.
use silent_devops.Prelude.{
  ℕ, String, ◌≡◌, refl, ◌⊎◌, true, false, some, List, [], ◌∷◌, arith, str_eq_iff, ltb, ◌==◌,
  if◌then◌else◌, length, take, ok, err,
}
use silent_devops.Protocol.{role_operator, dispatched, succeeded, service_restart, safe, Job}
use silent_devops.Maintenance.{validate_unit, service}
use silent_devops.Maintenance.Runner.{
  deadline_exceeded, RunResult, write_all, ended, killed, collected, run_process, concat,
  run_process_output,
}
use silent_devops.Maintenance.Dispatch.{finished, dispatcher, Permitted, dispatcher_commands}
use silent_devops.Maintenance.Confirm.{
  RebootManager, invalid_confirmation, confirm, consume, confirm_once,
}

abbrev decimal : ℕ → String
decimal n = if n == 50 then "50" else "0"

abbrev runs : List String → RunResult
runs argv = run_process 4 (ended ((1 ∷ 2 ∷ 3 ∷ []) ∷ (4 ∷ 5 ∷ []) ∷ []) 0 false)

abbrev restart_job : Job
restart_job = record {
  id = "j1";
  actor_id = "u1";
  agent_id = "web-1";
  created = 0;
  deadline = 60;
  role = role_operator;
  reason = "deploy";
  confirmed = false;
  operation = safe (service_restart "nginx.service");
  state = dispatched;
  attempt = 1;
  dispatch_id = "d1";
  idempotency_key = "k";
}

restarted : dispatcher decimal runs false restart_job ≡ record {
  job_id = "j1";
  dispatch_id = "d1";
  attempt = 1;
  state = succeeded;
  output = 1 ∷ 2 ∷ 3 ∷ 4 ∷ [];
  output_truncated = true;
}
unfolding dispatcher service validate_unit run_process collected write_all
restarted = refl

bad_unit : validate_unit "nginx;reboot" ≡ false
unfolding validate_unit
bad_unit = refl

abbrev nginx : String
nginx = "nginx.service"

run_process_output_example :
    ((run_process 4 (ended ((1 ∷ 2 ∷ 3 ∷ []) ∷ (4 ∷ 5 ∷ []) ∷ []) 0 false)).output
      ≡ take 4 (concat ((1 ∷ 2 ∷ 3 ∷ []) ∷ (4 ∷ 5 ∷ []) ∷ [])))
    × ((run_process 4 (ended ((1 ∷ 2 ∷ 3 ∷ []) ∷ (4 ∷ 5 ∷ []) ∷ []) 0 false)).truncated
        ≡ ltb 4 (length (concat ((1 ∷ 2 ∷ 3 ∷ []) ∷ (4 ∷ 5 ∷ []) ∷ []))))
    × ((run_process 4 (killed ((1 ∷ 2 ∷ 3 ∷ []) ∷ (4 ∷ 5 ∷ []) ∷ []) deadline_exceeded)).output
        ≡ take 4 (concat ((1 ∷ 2 ∷ 3 ∷ []) ∷ (4 ∷ 5 ∷ []) ∷ [])))
    × ((run_process 4 (killed ((1 ∷ 2 ∷ 3 ∷ []) ∷ (4 ∷ 5 ∷ []) ∷ []) deadline_exceeded)).truncated
        ≡ ltb 4 (length (concat ((1 ∷ 2 ∷ 3 ∷ []) ∷ (4 ∷ 5 ∷ []) ∷ []))))
run_process_output_example =
    run_process_output 4 ((1 ∷ 2 ∷ 3 ∷ []) ∷ (4 ∷ 5 ∷ []) ∷ []) 0 false deadline_exceeded
      (omega arith) (omega arith, (omega arith, tt))

dispatcher_commands_example :
    ((runs runs' : List String → RunResult)
      → dispatcher decimal runs false restart_job ≡ dispatcher decimal runs' false restart_job)
    ⊎ ((argv : List String) × Permitted decimal restart_job argv
        × ((runs : List String → RunResult)
            → dispatcher decimal runs false restart_job
              ≡ finished decimal runs restart_job (runs argv)))
dispatcher_commands_example = dispatcher_commands decimal false restart_job

abbrev reboots : RebootManager
reboots = record { ttl = 60; tokens = [] }

confirm_once_example :
    let given = confirm reboots (some "t") "web-1" 5 in
    (given.0 ≡ ok "t")
    × (consume given.1 "web-2" "t" 9 ≡ (err invalid_confirmation, given.1))
    × ((consume given.1 "web-1" "t" 9).0 ≡ ok tt)
    × ((consume given.1 "web-1" "t" 1000).0 ≡ err invalid_confirmation)
    × ((anyone : String)
        → (consume (consume given.1 "web-1" "t" 9).1 anyone "t" 1001).0 ≡ err invalid_confirmation)
    × ((anyone : String)
        → (consume (consume given.1 "web-1" "t" 1000).1 anyone "t" 1001).0
          ≡ err invalid_confirmation)
confirm_once_example =
    confirm_once reboots "web-1" "web-2" "t" 5 9 1000 1001 (ground (arith, str_eq_iff "web-1" ""))
      (omega arith) (ground (arith, str_eq_iff "web-1" "web-2")) (omega arith) (omega arith)
