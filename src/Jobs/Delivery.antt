-- ===== src/Jobs/Delivery.antt =====
-- How the submission of a job ends, once the job is prepared: `send_job`.
use silent_devops.Prelude.{
  ℕ, ◌≤◌, ◌<◌, String, ◌≡◌, refl, inl, inr, Bool, true, false, ◌||◌, Option, some, [], ◌∷◌, ◌++◌,
  if◌then◌else◌, Result-cases, length, ok, err,
}
use silent_devops.Protocol.{Code, unknown_result, Job, Message}
use silent_devops.Registry.{Session, Registry, put, snapshot}
use silent_devops.Registry.Invariant.{Inv}
use silent_devops.Registry.Dispatch.{
  KeepsSessions, OwnSession, unreachable, gave_up, closed_meanwhile, full, queued,
  dispatch-Delivers,
}
use silent_devops.Jobs.{
  Tables, Server, Faults, set_state, record_job, Reply, crashed, waiting, answered, mark_unknown,
  after_dispatch, dispatch_job, send_job,
}
use silent_devops.Jobs.Recorded.{Recorded, obstacle, record_job-eq-ok, record_job-eq-err}

-- How the submission of a prepared job ends. Nothing has happened, since something stands against the
-- transaction; or the job is recorded, and its agent is offline or the context done, and the job
-- is marked as of unknown result where that statement can be carried out; or the agent's own session
-- is closed, full, or has room, when the message is sent.
pub data Sends (s : Server) (r : Registry Message) (faults : Faults) (done : Bool) (j : Job)
    (kind audit : String) (o : Reply Job × Server) : Type 0 where
  refused :
      (code : Code)
      → obstacle faults s.tables j kind audit ≡ true
      → o ≡ (answered (err code), s)
      → Sends s r faults done j kind audit o
  offline_agent :
      (t : Tables)
      → Recorded s.tables t j kind audit
      → (snapshot r j.agent_id).online ≡ false
      → o ≡ (
        answered (err Code.unavailable),
        record {
          tables = if done || faults.mark then t else set_state t j.id unknown_result;
          registry = some r;
        },
      )
      → Sends s r faults done j kind audit o
  abandoned :
      (t : Tables) (p : ℕ)
      → Recorded s.tables t j kind audit
      → OwnSession r j.agent_id p
      → done ≡ true
      → o ≡ (
        answered (err Code.unavailable),
        record { tables = t; registry = some (faults.meanwhile r) },
      )
      → Sends s r faults done j kind audit o
  crash :
      (t : Tables) (p : ℕ) (session : Session Message)
      → Recorded s.tables t j kind audit
      → OwnSession r j.agent_id p
      → done ≡ false
      → (faults.meanwhile r).sessions p ≡ some session
      → session.closed ≡ true
      → o ≡ (crashed, record { tables = t; registry = some (faults.meanwhile r) })
      → Sends s r faults done j kind audit o
  held_up :
      (t : Tables) (p : ℕ) (session : Session Message)
      → Recorded s.tables t j kind audit
      → OwnSession r j.agent_id p
      → done ≡ false
      → (faults.meanwhile r).sessions p ≡ some session
      → session.closed ≡ false
      → session.capacity ≤ length session.queue
      → o ≡ (waiting, record { tables = t; registry = some (faults.meanwhile r) })
      → Sends s r faults done j kind audit o
  delivered :
      (t : Tables) (p : ℕ) (session : Session Message)
      → Recorded s.tables t j kind audit
      → OwnSession r j.agent_id p
      → done ≡ false
      → (faults.meanwhile r).sessions p ≡ some session
      → session.agent_id ≡ j.agent_id
      → session.closed ≡ false
      → length session.queue < session.capacity
      → o ≡ (
        answered (ok j),
        record {
          tables = t;
          registry = some (record (faults.meanwhile r) {
            sessions =
                put
                  (faults.meanwhile r).sessions
                  p
                  (record session { queue = session.queue ++ Message.job j ∷ [] });
          });
        },
      )
      → Sends s r faults done j kind audit o

after-Sends :
    (s : Server) (r : Registry Message) (registry : Option (Registry Message)) (t : Tables)
    (faults : Faults) (done : Bool) (j : Job) (kind audit : String)
    → registry ≡ some r
    → Recorded s.tables t j kind audit
    → Inv r
    → KeepsSessions r (faults.meanwhile r)
    → Sends s r faults done j kind audit (dispatch_job t registry faults done j)
unfolding dispatch_job after_dispatch mark_unknown
after-Sends s r registry t faults done j kind audit there rec v keeps =
    rw there (elim (dispatch-Delivers r faults.meanwhile j.agent_id done (Message.job j) v keeps) [
      | unreachable off o ↦ offline_agent t rec off (rw o refl)
      | gave_up p own over o ↦ abandoned t p rec own over (rw (o, over) refl)
      | closed_meanwhile p session own goes found shut o ↦
          crash t p session rec own goes found shut (rw o refl)
      | full p session own goes found of opened no_room o ↦
          held_up t p session rec own goes found opened no_room (rw o refl)
      | queued p session own goes found of opened room o ↦
          delivered t p session rec own goes found of opened room (rw o refl)
    ])

pub send_job-Sends :
    (s : Server) (r : Registry Message) (faults : Faults) (done : Bool) (j : Job)
    (kind audit : String)
    → s.registry ≡ some r
    → Inv r
    → KeepsSessions r (faults.meanwhile r)
    → Sends s r faults done j kind audit (send_job s faults done j kind audit)
unfolding send_job
send_job-Sends s r faults done j kind audit there v keeps =
    elim (Result-cases (record_job faults s.tables j kind audit)) [
      | inl (code, e) ↦
          refused code (record_job-eq-err faults s.tables j kind audit code e)
            (rw (e, send_job) refl)
      | inr (t, e) ↦
          rw (e, send_job)
            (after-Sends s r s.registry t faults done j kind audit there
              (record_job-eq-ok faults s.tables t j kind audit e) v keeps)
    ]
