-- ===== src/Jobs/Change.antt =====
-- The requests that change the tables of jobs, in any order, and how each changes them.
use silent_devops.Prelude.{
  ℕ, String, ◌≡◌, refl, ◌⊎◌, inl, inr, Bool, true, false, ◌||◌, Option, none, some, List, [], ◌∷◌,
  str_eq, leb, Bool-cases, Option-cases, Result-cases, update,
}
use silent_devops.Protocol.{
  unknown_result, TypedOperation, UnsafeOperation, Job, JobContext, JobResult, Message,
}
use silent_devops.Registry.{Registry}
use silent_devops.Registry.Dispatch.{Outcome, sent, cancelled, blocked, offline, panicked, dispatch}
use silent_devops.Auth.Token.{Claims}
use silent_devops.Jobs.{
  Row, Tables, Server, Faults, Entropy, set_state, to_ms, record_job, mark_unknown, after_dispatch,
  dispatch_job, send_job,
}
use silent_devops.Jobs.Submit.{prepare_safe, is_there, submit_safe, prepare_unsafe, submit_unsafe}
use silent_devops.Jobs.Close.{
  find_row, CancelRequest, is_over, cancel_row, after_cancel, send_cancel, cancel_job,
  result_matches, finish, job_result,
}
use silent_devops.Jobs.Recorded.{Recorded, record_job-eq-ok}

-- The requests, with what the storage, the entropy, the clock and the context do.
pub data Request : Type 0 where
  submits_safe :
      Option Claims
      → Faults
      → Entropy
      → Bool
      → ℕ
      → ℕ
      → Option JobContext
      → TypedOperation
      → String
      → Request
  submits_unsafe :
      Option Claims
      → Faults
      → Entropy
      → Bool
      → ℕ
      → Option JobContext
      → UnsafeOperation
      → String
      → Bool
      → Request
  cancels : Faults → Bool → ℕ → CancelRequest → Request
  reports : Bool → String → JobResult → Request

unfoldable pub after : Server → Request → Server
after s (submits_safe claims faults entropy done now later context operation kind) =
    (submit_safe claims s faults entropy done now later context operation kind).1
after s (submits_unsafe claims faults entropy done now context operation kind admin_only) =
    (submit_unsafe claims s faults entropy done now context operation kind admin_only).1
after s (cancels faults done now q) = (cancel_job s faults done now q).1
after s (reports fails agent result) = record s {
  tables = (job_result s.tables fails agent result).1;
}

unfoldable pub serve : Server → List Request → Server
serve s [] = s
serve s (q ∷ more) = serve (after s q) more

-- How a request changes the tables.
pub data Change (t t' : Tables) : Type 0 where
  unchanged : t' ≡ t → Change t t'
  recorded : (j : Job) (kind audit : String) → Recorded t t' j kind audit → Change t t'
  doubted :
      (j : Job) (kind audit : String) (t1 : Tables)
      → Recorded t t1 j kind audit
      → t' ≡ set_state t1 j.id unknown_result
      → Change t t'
  stopped : (id : String) → t' ≡ cancel_row t id → Change t t'
  reported :
      (agent : String) (result : JobResult)
      → t' ≡ record t { jobs = update (result_matches agent result) (finish result) t.jobs }
      → Change t t'

after_dispatch-tables :
    (t : Tables) (faults : Faults) (done : Bool) (j : Job) (o : Outcome × Registry Message)
    → ((after_dispatch t faults done j o).1.tables ≡ t)
      ⊎ ((after_dispatch t faults done j o).1.tables ≡ set_state t j.id unknown_result)
unfolding after_dispatch mark_unknown
after_dispatch-tables t faults done j (sent, r) = inl refl
after_dispatch-tables t faults done j (blocked, r) = inl refl
after_dispatch-tables t faults done j (panicked, r) = inl refl
after_dispatch-tables t faults done j (offline, r) = elim (Bool-cases (done || faults.mark)) [
  | inl fails ↦ inl (rw fails refl)
  | inr works ↦ inr (rw works refl)
]
after_dispatch-tables t faults done j (cancelled, r) = elim (Bool-cases (done || faults.mark)) [
  | inl fails ↦ inl (rw fails refl)
  | inr works ↦ inr (rw works refl)
]

dispatch_job-tables :
    (t : Tables) (registry : Option (Registry Message)) (faults : Faults) (done : Bool) (j : Job)
    → ((dispatch_job t registry faults done j).1.tables ≡ t)
      ⊎ ((dispatch_job t registry faults done j).1.tables ≡ set_state t j.id unknown_result)
unfolding dispatch_job
dispatch_job-tables t none faults done j = inl refl
dispatch_job-tables t (some r) faults done j =
    after_dispatch-tables t faults done j
      (dispatch faults.meanwhile r j.agent_id done (Message.job j))

send_job-Change :
    (s : Server) (faults : Faults) (done : Bool) (j : Job) (kind audit : String)
    → Change s.tables (send_job s faults done j kind audit).1.tables
unfolding send_job
send_job-Change s faults done j kind audit =
    elim (Result-cases (record_job faults s.tables j kind audit)) [
      | inl (code, e) ↦ unchanged (rw (e, send_job) refl)
      | inr (t, e) ↦
          let rec = record_job-eq-ok faults s.tables t j kind audit e in
          rw (e, send_job)
            (elim (dispatch_job-tables t s.registry faults done j) [
              | inl same ↦ recorded j kind audit (rw same rec)
              | inr marked ↦ doubted j kind audit t rec marked
            ])
    ]

after_cancel-Change :
    (t : Tables) (row : Row) (fails : Bool) (o : Outcome × Registry Message)
    → Change t (after_cancel t row fails o).1.tables
unfolding after_cancel
after_cancel-Change t row true (sent, r) = unchanged refl
after_cancel-Change t row false (sent, r) = stopped row.id refl
after_cancel-Change t row fails (blocked, r) = unchanged refl
after_cancel-Change t row fails (panicked, r) = unchanged refl
after_cancel-Change t row fails (offline, r) = unchanged refl
after_cancel-Change t row fails (cancelled, r) = unchanged refl

send_cancel-Change :
    (s : Server) (row : Row) (faults : Faults) (done : Bool) (q : CancelRequest)
    → Change s.tables (send_cancel s row faults done q).1.tables
unfolding send_cancel
send_cancel-Change s row faults done q = elim (Bool-cases (is_over row.state)) [
  | inl over ↦ unchanged (rw (over, send_cancel) refl)
  | inr going ↦ elim (Option-cases s.registry) [
    | inl missing ↦ unchanged (rw (going, missing, send_cancel) refl)
    | inr (r, there) ↦
        rw (going, there, send_cancel)
          (after_cancel-Change s.tables row faults.mark (
            dispatch faults.meanwhile r row.agent_id done
              (Message.cancel row.id q.reason q.deadline row.dispatch_id)))
  ]
]

cancel_job-Change :
    (s : Server) (faults : Faults) (done : Bool) (now : ℕ) (q : CancelRequest)
    → Change s.tables (cancel_job s faults done now q).1.tables
unfolding cancel_job
cancel_job-Change s faults done now q =
    elim (Bool-cases (str_eq q.job_id "" || (str_eq q.reason "" || leb q.deadline (to_ms now)))) [
      | inl bad ↦ unchanged (rw (bad, cancel_job) refl)
      | inr good ↦ elim (Bool-cases faults.begin) [
        | inl fails ↦ unchanged (rw (good, fails, cancel_job) refl)
        | inr works ↦ elim (Option-cases (find_row s.tables.jobs q.job_id)) [
          | inl missing ↦ unchanged (rw (good, works, missing, cancel_job) refl)
          | inr (row, found) ↦
              rw (good, works, found, cancel_job) (send_cancel-Change s row faults done q)
        ]
      ]
    ]

job_result-Change :
    (t : Tables) (fails : Bool) (agent : String) (result : JobResult)
    → Change t (job_result t fails agent result).1
unfolding job_result
job_result-Change t true agent result = unchanged refl
job_result-Change t false agent result = reported agent result refl

pub after-Change : (s : Server) (q : Request) → Change s.tables (after s q).tables
unfolding after submit_safe submit_unsafe
after-Change s (submits_safe claims faults entropy done now later context operation kind) =
    elim (Result-cases
      (prepare_safe claims (is_there s.registry) entropy context operation now later)) [
        | inl (code, e) ↦ unchanged (rw (e, after, submit_safe) refl)
        | inr ((j, audit), e) ↦
            rw (e, after, submit_safe) (send_job-Change s faults done j kind audit)
      ]
after-Change s (submits_unsafe claims faults entropy done now context operation kind admin_only) =
    elim (Result-cases (prepare_unsafe claims entropy context operation admin_only now)) [
      | inl (code, e) ↦ unchanged (rw (e, after, submit_unsafe) refl)
      | inr ((j, audit), e) ↦
          rw (e, after, submit_unsafe) (send_job-Change s faults done j kind audit)
    ]
after-Change s (cancels faults done now q) = cancel_job-Change s faults done now q
after-Change s (reports fails agent result) = job_result-Change s.tables fails agent result
