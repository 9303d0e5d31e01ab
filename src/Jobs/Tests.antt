-- ===== src/Jobs/Tests.antt =====
-- Runs of the job handlers, and the theorems about them at concrete inputs.
use silent_devops.Prelude.{
  String, ◌≡◌, refl, ◌⊎◌, true, false, none, some, List, [], ◌∷◌, arith, str_eq, ok, err,
}
use silent_devops.Prelude.Dict.{lookup, remove, insert}
use silent_devops.Protocol.{
  role_admin, Code, default_limits, Hello, dispatched, succeeded, unknown_result, service_restart,
  UnsafeOperation, Operation, Job, JobContext, JobResult, Message,
}
use silent_devops.Registry.{Registry, new, admit, heartbeat}
use silent_devops.Registry.Dispatch.{enqueue, find_session, dispatch, heartbeat-KeepsSessions}
use silent_devops.Registry.Invariant.{Inv, new-Inv}
use silent_devops.Auth.Token.{Claims}
use silent_devops.Jobs.{
  Row, Event, Tables, Server, Faults, Entropy, insert_job, insert_audit, context_fits, record_job,
  Reply, answered, mark_unknown, after_dispatch, dispatch_job, send_job,
}
use silent_devops.Jobs.Submit.{
  draw, prepare_safe, is_there, submit_safe, confirmed_context, prepare_unsafe, submit_unsafe, Call,
  is_confirmed, exec,
}
use silent_devops.Jobs.Promise.{submit_safe_outcome, submit_unsafe_outcome}
use silent_devops.Jobs.Close.{find_row, finish, job_result}
use silent_devops.Jobs.Change.{Request, cancels, reports, serve}
use silent_devops.Jobs.Invariant.{Valid, serve-Valid, serve-keeps}
use silent_devops.Jobs.Results.{Taken, job_result_exact}
use silent_devops.Jobs.Output.{output_chunks, joined, WellEnded, output_chunks_whole}
use silent_devops.Jobs.Delivery.{Sends}
use silent_devops.Jobs.Prepared.{Bounded, Carries, Unready, Consents}
use silent_devops.Registry.Preserve.{admit-Inv}

abbrev admin : Claims
admin = record { subject = "u1"; role = role_admin; issued = 0; expires = 100; nonce = [] }

abbrev context : JobContext
context = record {
  agent_id = "web-1";
  reason = "restart";
  idempotency_key = "k";
  timeout_seconds = 60;
  confirmed = true;
}

abbrev no_faults : Faults
no_faults = record {
  meanwhile = λ r. r;
  begin = false;
  job = false;
  audit = false;
  commit = false;
  mark = false;
}

abbrev entropy : Entropy
entropy = record { id = some "j1"; dispatch = some "d1"; audit = some "e1" }

abbrev tables : Tables
tables = record { jobs = []; audit = []; users = "u1" ∷ []; agents = "web-1" ∷ [] }

-- A registry without agents.
abbrev registry : Registry Message
registry = new 0 none 30

abbrev server : Server
server = record { tables = tables; registry = some registry }

registry-Inv : Inv registry
registry-Inv = new-Inv 0 none 30

-- The agent is offline: the job is recorded, with its audit event, and then of unknown result.
abbrev first_job : Row
first_job = record {
  id = "j1";
  idempotency_key = "k";
  actor_id = "u1";
  agent_id = "web-1";
  kind = "exec";
  state = unknown_result;
  reason = "restart";
  created = 1000;
  deadline = 61_000;
  attempt = 1;
  dispatch_id = "d1";
  output = [];
  output_truncated = false;
}

abbrev first_event : Event
first_event = record {
  id = "e1";
  actor_id = "u1";
  agent_id = "web-1";
  action = "exec";
  reason = "restart";
  occurred = 1000;
  job_id = "j1";
}

abbrev call : Call
call = record {
  claims = some admin;
  server = server;
  faults = no_faults;
  entropy = entropy;
  done = false;
  now = 1_000_000_000;
  later = 1_000_000_000;
  context = some context;
}

abbrev with_first : Tables
with_first = record tables { jobs = first_job ∷ []; audit = first_event ∷ [] }

exec_offline :
    exec call (some "uptime")
    ≡ (answered (err Code.unavailable), record { tables = with_first; registry = some registry })
unfolding exec is_confirmed submit_unsafe prepare_unsafe draw confirmed_context context_fits
    send_job record_job insert_job insert_audit dispatch_job after_dispatch mark_unknown dispatch
    new find_session lookup
exec_offline = refl

-- The agent has come in, and sends a heartbeat while the job is on its way to it.
abbrev greeting : Hello
greeting = record {
  agent_id = "web-1";
  protocol = some (record { minimum = 1; maximum = 2 });
  capabilities = ("exec", 1) ∷ [];
  hostname = "web";
  boot_id = "b";
  limits = some (record default_limits { max_queue_depth = 2 });
}

abbrev online_registry : Registry Message
online_registry = admit registry "web-1" greeting 5

online-Inv : Inv online_registry
online-Inv = admit-Inv registry "web-1" greeting 5 registry-Inv

abbrev reachable : Server
reachable = record { tables = tables; registry = some online_registry }

abbrev beating : Faults
beating = record no_faults { meanwhile = λ r. heartbeat r 0 6 }

abbrev restart : Reply Job × Server
restart =
    submit_safe (some admin) reachable beating entropy false 1_000_000_000 1_000_000_000
      (some context) (service_restart "nginx.service") "service_restart"

abbrev uptime : Reply Job × Server
uptime =
    submit_unsafe (some admin) reachable beating entropy false 1_000_000_000 (some context)
      (UnsafeOperation.arbitrary_command "uptime") "exec" true

submit_unsafe_outcome_example :
    ((code : Code) × Unready (some admin) entropy (some context) (Consents true)
      × (uptime ≡ (answered (err code), reachable)))
    ⊎ ((who : Claims) × (c : JobContext) × (j : Job) × (audit : String) × (some admin ≡ some who)
        × (some context ≡ some c)
        × Consents true who c
        × Carries who c entropy 1_000_000_000 1_000_000_000 j audit
        × (j.operation ≡ Operation.unsafe (UnsafeOperation.arbitrary_command "uptime"))
        × Sends reachable online_registry beating false j "exec" audit uptime)
submit_unsafe_outcome_example =
    submit_unsafe_outcome (some admin) reachable online_registry beating entropy false 1_000_000_000
      (some context) (UnsafeOperation.arbitrary_command "uptime") "exec" true refl online-Inv
      (heartbeat-KeepsSessions online_registry 0 6)

submit_safe_outcome_example :
    ((code : Code) × Unready (some admin) entropy (some context) (λ who c. Bounded c)
      × (restart ≡ (answered (err code), reachable)))
    ⊎ ((who : Claims) × (c : JobContext) × (j : Job) × (audit : String) × (some admin ≡ some who)
        × (some context ≡ some c)
        × Bounded c
        × Carries who c entropy 1_000_000_000 1_000_000_000 j audit
        × (j.operation ≡ Operation.safe (service_restart "nginx.service"))
        × Sends reachable online_registry beating false j "service_restart" audit restart)
submit_safe_outcome_example =
    submit_safe_outcome (some admin) reachable online_registry beating entropy false 1_000_000_000
      1_000_000_000 (some context) (service_restart "nginx.service") "service_restart" refl
      online-Inv (heartbeat-KeepsSessions online_registry 0 6)

-- The job is sent, for 60 seconds.
abbrev restart_job : Job
restart_job = record {
  id = "j1";
  actor_id = "u1";
  agent_id = "web-1";
  created = 1000;
  deadline = 61_000;
  role = role_admin;
  reason = "restart";
  confirmed = true;
  operation = Operation.safe (service_restart "nginx.service");
  state = dispatched;
  attempt = 1;
  dispatch_id = "d1";
  idempotency_key = "k";
}

restart_sent : restart.0 ≡ answered (ok restart_job)
unfolding submit_safe prepare_safe draw context_fits is_there send_job record_job insert_job
    insert_audit dispatch_job after_dispatch dispatch enqueue find_session heartbeat admit new
    lookup insert remove
restart_sent = refl

-- A job that an agent is running, the same key again, its result, and its cancellation.
abbrev running_job : Row
running_job = record first_job { state = dispatched }

abbrev with_running : Tables
with_running = record tables { jobs = running_job ∷ []; audit = first_event ∷ [] }

abbrev busy : Server
busy = record { tables = with_running; registry = some registry }

with_running-Valid : Valid with_running
with_running-Valid = record { distinct = refl; audited = λ id there. ground arith }

abbrev other_draw : Entropy
other_draw = record { id = some "j2"; dispatch = some "d2"; audit = some "e2" }

same_key_refused :
    submit_unsafe
      (some admin)
      busy
      no_faults
      other_draw
      false
      1_000_000_000
      (some context)
      (UnsafeOperation.arbitrary_command "uptime")
      "exec"
      true
    ≡ (answered (err Code.already_exists), busy)
unfolding submit_unsafe prepare_unsafe draw confirmed_context context_fits send_job record_job
    insert_job
same_key_refused = refl

abbrev answer : JobResult
answer = record {
  job_id = "j1";
  dispatch_id = "d1";
  attempt = 1;
  state = succeeded;
  output = 111 ∷ 107 ∷ [];
  output_truncated = false;
}

abbrev requests : List Request
requests =
    reports false "web-1" answer
    ∷ cancels no_faults false 0 (record { job_id = "j1"; reason = "late"; deadline = 5 })
    ∷ reports false "web-2" answer
    ∷ []

serve-Valid_example : Valid (serve busy requests).tables
serve-Valid_example = serve-Valid busy requests with_running-Valid

abbrev done_job : Row
done_job = finish answer running_job

abbrev settled : Server
settled = record busy { tables = record with_running { jobs = done_job ∷ [] } }

serve-keeps_example : find_row (serve settled requests).tables.jobs "j1" ≡ some done_job
serve-keeps_example = serve-keeps settled requests "j1" done_job refl refl

job_result_exact_example :
    Taken with_running "web-1" answer (job_result with_running false "web-1" answer)
    × ((other : String)
        → str_eq "j1" other ≡ false
        → find_row (job_result with_running false "web-1" answer).1.jobs other
          ≡ find_row with_running.jobs other)
job_result_exact_example = job_result_exact with_running "web-1" answer with_running-Valid

output_chunks_whole_example :
    (joined (output_chunks "j1" (111 ∷ 107 ∷ [])) ≡ 111 ∷ 107 ∷ [])
    × WellEnded 0 (output_chunks "j1" (111 ∷ 107 ∷ []))
output_chunks_whole_example = output_chunks_whole "j1" (111 ∷ 107 ∷ [])
