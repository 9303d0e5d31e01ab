-- ===== src/Jobs.antt =====
-- Jobs: internal/server/jobs.go, unsafe.go, cancel.go and output.go, the job results of
-- internal/registry/messages.go, and the tables `jobs` and `audit_events` of
-- internal/store/migrations. A statement that the storage fails to carry out is told by `Faults`.
pub mod Submit
mod Recorded
mod Delivery
mod Prepared
mod Promise
mod Change
pub mod Close
pub mod Invariant
pub mod Results
pub mod Output
mod Tests
use silent_devops.Prelude.{
  ℕ, ◌+◌, ◌*◌, ◌/◌, String, Bool, false, not, ◌&&◌, ◌||◌, Option, none, some, List, [], ◌∷◌, str_eq,
  ltb, leb, if◌then◌else◌, update, exists, Result, ok, err, ◌>>=◌, ◌>>◌, fail_if, or_fail,
}
use silent_devops.Protocol.{
  Code, already_exists, unavailable, JobState, dispatched, unknown_result, Operation, Job,
  JobContext, Message, job,
}
use silent_devops.Auth.Token.{Claims, second}
use silent_devops.Registry.{Registry, new}
use silent_devops.Registry.Dispatch.{Outcome, sent, cancelled, blocked, offline, panicked, dispatch}

-- A row of `jobs`, and of `audit_events` (`job_id` stands in its metadata). Instants are milliseconds.
pub record Row : Type 0 where
  pub id : String
  pub idempotency_key : String
  pub actor_id : String
  pub agent_id : String
  pub kind : String
  pub state : JobState
  pub reason : String
  pub created : ℕ
  pub deadline : ℕ
  pub attempt : ℕ
  pub dispatch_id : String
  pub output : List ℕ
  pub output_truncated : Bool

pub record Event : Type 0 where
  pub id : String
  pub actor_id : String
  pub agent_id : String
  pub action : String
  pub reason : String
  pub occurred : ℕ
  pub job_id : String

-- The tables; `users` and `agents` are the identifiers that the foreign keys refer to.
pub record Tables : Type 0 where
  pub jobs : List Row
  pub audit : List Event
  pub users : List String
  pub agents : List String

pub record Server : Type 0 where
  pub tables : Tables
  pub registry : Option (Registry Message)

-- Which statements of a call the storage fails to carry out, and what other calls do to the registry
-- while this one has found the session of an agent and has not yet sent to it.
pub record Faults : Type 0 where
  pub meanwhile : Registry Message → Registry Message
  pub begin : Bool
  pub job : Bool
  pub audit : Bool
  pub commit : Bool
  pub mark : Bool

-- What a call draws from crypto/rand: three identifiers, or an error.
pub record Entropy : Type 0 where
  pub id : Option String
  pub dispatch : Option String
  pub audit : Option String

abbrev pub has : String → List String → Bool
has x [] = false
has x (y ∷ ys) = str_eq y x || has x ys

-- The primary key and the two unique constraints of `jobs`.
abbrev pub clashes : Row → Row → Bool
clashes new old =
    str_eq old.id new.id
    || (str_eq old.dispatch_id new.dispatch_id
        || (str_eq old.agent_id new.agent_id && str_eq old.idempotency_key new.idempotency_key))

-- INSERT INTO jobs, within the constraints and the foreign keys.
unfoldable pub insert_job : Tables → Row → Option Tables
insert_job t row =
    if exists (clashes row) t.jobs
      || (not (has row.actor_id t.users) || not (has row.agent_id t.agents))
    then none
    else some (record t { jobs = row ∷ t.jobs })

-- INSERT INTO audit_events
unfoldable pub insert_audit : Tables → Event → Option Tables
insert_audit t event =
    if exists (λ (old : Event). str_eq old.id event.id) t.audit
      || (not (has event.actor_id t.users) || not (has event.agent_id t.agents))
    then none
    else some (record t { audit = event ∷ t.audit })

-- UPDATE jobs SET state=? WHERE id=?
abbrev pub set_state : Tables → String → JobState → Tables
set_state t id state = record t {
  jobs = update (λ (row : Row). str_eq row.id id) (λ row. record row { state = state }) t.jobs;
}

-- `request == nil || ...`, the test of a job's context.
unfoldable pub context_fits : Option JobContext → Bool
context_fits none = false
context_fits (some c) =
    (not (str_eq c.agent_id "") && not (str_eq c.reason ""))
    && (not (str_eq c.idempotency_key "")
        && (ltb 0 c.timeout_seconds && leb c.timeout_seconds 3600))

-- The job, its row and its audit event. Instants of the clock are nanoseconds, those of the tables
-- milliseconds; the code reads the clock once for each of the two instants of a job.
abbrev pub to_ms : ℕ → ℕ
to_ms now = now / 1_000_000

abbrev pub new_job : Claims → JobContext → Operation → Bool → String → String → ℕ → ℕ → Job
new_job claims c operation confirmed id dispatch now later = record {
  id = id;
  actor_id = claims.subject;
  agent_id = c.agent_id;
  created = to_ms now;
  deadline = to_ms (later + c.timeout_seconds * second);
  role = claims.role;
  reason = c.reason;
  confirmed = confirmed;
  operation = operation;
  state = dispatched;
  attempt = 1;
  dispatch_id = dispatch;
  idempotency_key = c.idempotency_key;
}

abbrev pub job_row : Job → String → Row
job_row j kind = record {
  id = j.id;
  idempotency_key = j.idempotency_key;
  actor_id = j.actor_id;
  agent_id = j.agent_id;
  kind = kind;
  state = j.state;
  reason = j.reason;
  created = j.created;
  deadline = j.deadline;
  attempt = 1;
  dispatch_id = j.dispatch_id;
  output = [];
  output_truncated = false;
}

abbrev pub job_event : Job → String → String → Event
job_event j kind audit_id = record {
  id = audit_id;
  actor_id = j.actor_id;
  agent_id = j.agent_id;
  action = kind;
  reason = j.reason;
  occurred = j.created;
  job_id = j.id;
}

-- The transaction that both submissions make: the row and the audit event, or nothing.
unfoldable pub record_job : Faults → Tables → Job → String → String → Result Code Tables
unfolding insert_job insert_audit
record_job faults t j kind audit_id = do
  fail_if faults.begin Code.unavailable
  fail_if faults.job Code.already_exists
  with_job ← or_fail (insert_job t (job_row j kind)) Code.already_exists
  fail_if faults.audit Code.unavailable
  with_event ← or_fail (insert_audit with_job (job_event j kind audit_id)) Code.unavailable
  fail_if faults.commit Code.unavailable
  ok with_event

-- What a handler does: it answers, it waits for room in the agent's queue, or the process panics.
pub data Reply {ℓ} (V : Type ℓ) : Type ℓ where
  crashed waiting : Reply V
  answered : Result Code V → Reply V

-- What follows the dispatch of a job. The UPDATE that marks a job as of unknown result is made with
-- the context of the call, and its error is dropped: it fails when the context is done.
unfoldable pub mark_unknown : Tables → String → Bool → Tables
mark_unknown t id fails = if fails then t else set_state t id unknown_result

unfoldable pub after_dispatch :
    Tables → Faults → Bool → Job → Outcome × Registry Message → Reply Job × Server
unfolding mark_unknown
after_dispatch t faults done j (sent, r) =
    (answered (ok j), record { tables = t; registry = some r })
after_dispatch t faults done j (blocked, r) = (waiting, record { tables = t; registry = some r })
after_dispatch t faults done j (panicked, r) = (crashed, record { tables = t; registry = some r })
after_dispatch t faults done j (offline, r) = (
  answered (err Code.unavailable),
  record { tables = mark_unknown t j.id (done || faults.mark); registry = some r },
)
after_dispatch t faults done j (cancelled, r) = (
  answered (err Code.unavailable),
  record { tables = mark_unknown t j.id (done || faults.mark); registry = some r },
)

-- The dispatch; without a registry, the call on the nil pointer panics.
unfoldable pub dispatch_job :
    Tables → Option (Registry Message) → Faults → Bool → Job → Reply Job × Server
unfolding after_dispatch
dispatch_job t none faults done j = (crashed, record { tables = t; registry = none })
dispatch_job t (some r) faults done j =
    after_dispatch t faults done j (dispatch faults.meanwhile r j.agent_id done (Message.job j))

-- The transaction, which is rolled back when a statement of it fails, and the dispatch.
unfoldable pub send_job : Server → Faults → Bool → Job → String → String → Reply Job × Server
unfolding record_job dispatch_job
send_job s faults done j kind audit_id = elim (record_job faults s.tables j kind audit_id) [
  | err code ↦ (answered (err code), s)
  | ok t ↦ dispatch_job t s.registry faults done j
]
