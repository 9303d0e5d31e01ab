-- ===== src/Jobs/Close.antt =====
-- How a job ends: `CancelJob` of internal/server/cancel.go, `StreamJobOutput` of output.go, and the
-- job results of `MessageHandler.Handle` in internal/registry/messages.go.
use silent_devops.Prelude.{
  ℕ, String, Bool, ◌&&◌, ◌||◌, Option, none, some, List, [], ◌∷◌, str_eq, leb, ◌==◌, if◌then◌else◌,
  affected, update, Result, ok, err,
}
use silent_devops.Protocol.{
  Code, JobState, dispatched, running, succeeded, failed, cancelled_state, timed_out, JobResult,
  Message,
}
use silent_devops.Registry.{Registry}
use silent_devops.Registry.Dispatch.{Outcome, sent, cancelled, blocked, offline, panicked, dispatch}
use silent_devops.Jobs.{Row, Tables, Server, Faults, to_ms, Reply, crashed, waiting, answered}

-- SELECT ... FROM jobs WHERE id=?
abbrev pub find_row : List Row → String → Option Row
find_row [] id = none
find_row (row ∷ rows) id = if str_eq row.id id then some row else find_row rows id

-- `state IN (2,3)`
abbrev pub is_active : JobState → Bool
is_active state = state == dispatched || state == running

-- CancelJobRequest, and the fields of a job that `CancelJob` answers with.
pub record CancelRequest : Type 0 where
  pub job_id : String
  pub reason : String
  pub deadline : ℕ

pub record JobView : Type 0 where
  pub id : String
  pub agent_id : String
  pub state : JobState
  pub dispatch_id : String
  pub attempt : ℕ
  pub deadline : ℕ

view : Row → JobState → JobView
view row state = record {
  id = row.id;
  agent_id = row.agent_id;
  state = state;
  dispatch_id = row.dispatch_id;
  attempt = row.attempt;
  deadline = row.deadline;
}

-- The states in which a job is answered as it is.
unfoldable pub is_over : JobState → Bool
is_over state =
    (state == succeeded || state == failed) || (state == cancelled_state || state == timed_out)

-- UPDATE jobs SET state=? WHERE id=? AND state IN (2,3)
abbrev pub cancel_row : Tables → String → Tables
cancel_row t id = record t {
  jobs =
      update (λ (row : Row). str_eq row.id id && is_active row.state)
        (λ row. record row { state = cancelled_state }) t.jobs;
}

unfoldable pub after_cancel :
    Tables → Row → Bool → Outcome × Registry Message → Reply JobView × Server
unfolding view
after_cancel t row fails (sent, r) =
    if fails then (answered (err Code.internal), record { tables = t; registry = some r }) else (
      answered (ok (view row cancelled_state)),
      record { tables = cancel_row t row.id; registry = some r },
    )
after_cancel t row fails (blocked, r) = (waiting, record { tables = t; registry = some r })
after_cancel t row fails (panicked, r) = (crashed, record { tables = t; registry = some r })
after_cancel t row fails (offline, r) =
    (answered (err Code.unavailable), record { tables = t; registry = some r })
after_cancel t row fails (cancelled, r) =
    (answered (err Code.unavailable), record { tables = t; registry = some r })

unfoldable pub send_cancel : Server → Row → Faults → Bool → CancelRequest → Reply JobView × Server
unfolding after_cancel view is_over
send_cancel s row faults done q =
    if is_over row.state then (answered (ok (view row row.state)), s) else elim s.registry [
      | none ↦ (answered (err Code.unavailable), s)
      | some r ↦
          let message = Message.cancel row.id q.reason q.deadline row.dispatch_id in
          after_cancel s.tables row faults.mark
            (dispatch faults.meanwhile r row.agent_id done message)
    ]

-- `faults.begin` is a failing SELECT, `faults.mark` a failing UPDATE.
unfoldable pub cancel_job : Server → Faults → Bool → ℕ → CancelRequest → Reply JobView × Server
unfolding send_cancel
cancel_job s faults done now q =
    if str_eq q.job_id "" || (str_eq q.reason "" || leb q.deadline (to_ms now))
    then (answered (err Code.invalid_argument), s)
    else if faults.begin
    then (answered (err Code.internal), s)
    else elim (find_row s.tables.jobs q.job_id) [
      | none ↦ (answered (err Code.not_found), s)
      | some row ↦ send_cancel s row faults done q
    ]

-- The UPDATE for a result, which is made before its rows are counted.
pub data ResultError : Type 0 where
  storage_failed unknown_or_stale : ResultError

abbrev pub result_matches : String → JobResult → Row → Bool
result_matches agent result row =
    (str_eq row.id result.job_id && str_eq row.agent_id agent)
    && (str_eq row.dispatch_id result.dispatch_id
        && (row.attempt == result.attempt && is_active row.state))

abbrev pub finish : JobResult → Row → Row
finish result row = record row {
  state = result.state;
  output = result.output;
  output_truncated = result.output_truncated;
}

unfoldable pub job_result :
    Tables → Bool → String → JobResult → Result ResultError (Unit {0}) × Tables
job_result t fails agent result = if fails then (err storage_failed, t) else (
  if affected (result_matches agent result) t.jobs == 1 then ok tt else err unknown_or_stale,
  record t { jobs = update (result_matches agent result) (finish result) t.jobs },
)
