-- ===== src/Jobs/Recorded.antt =====
-- The transaction of a submission: what it records, and when it records nothing.
use silent_devops.Prelude.{
  String, ◌≡◌, refl, sym, Bool, true, false, not, ◌||◌, some, [], ◌∷◌, arith, str_eq, exists, ok,
  err, fail_if, or_fail, >>=-eq-ok,
}
use silent_devops.Protocol.{Code, Job}
use silent_devops.Jobs.{
  Row, Event, Tables, Faults, has, clashes, insert_job, insert_audit, job_row, job_event,
  record_job,
}

-- The row of the job and its audit event have come to the tables, and no row was in conflict with it.
pub record Recorded (t t' : Tables) (j : Job) (kind audit : String) : Type 0 where
  pub jobs :
      let row : Row = record {
        id = j.id;
        idempotency_key = j.idempotency_key;
        actor_id = j.actor_id;
        agent_id = j.agent_id;
        kind = kind;
        state = j.state;
        reason = j.reason;
        created = j.created;
        deadline = j.deadline;
        attempt = 1;
        dispatch_id = j.dispatch_id;
        output = [];
        output_truncated = false;
      } in
      t'.jobs ≡ row ∷ t.jobs
  pub audited :
      let event : Event = record {
        id = audit;
        actor_id = j.actor_id;
        agent_id = j.agent_id;
        action = kind;
        reason = j.reason;
        occurred = j.created;
        job_id = j.id;
      } in
      t'.audit ≡ event ∷ t.audit
  pub users : t'.users ≡ t.users
  pub agents : t'.agents ≡ t.agents
  pub unique : exists (clashes (job_row j kind)) t.jobs ≡ false
  pub actor_known : has j.actor_id t.users ≡ true
  pub agent_known : has j.agent_id t.agents ≡ true

-- What stands against the transaction: a statement that fails, a row in conflict with the job or with its
-- audit event, or an actor or agent that the tables do not know.
abbrev pub obstacle : Faults → Tables → Job → String → String → Bool
obstacle faults t j kind audit =
    ((faults.begin || faults.job) || (faults.audit || faults.commit))
    || ((exists (clashes (job_row j kind)) t.jobs
          || exists (λ (old : Event). str_eq old.id audit) t.audit)
        || (not (has j.actor_id t.users) || not (has j.agent_id t.agents)))

insert_job-eq-some :
    (t t' : Tables) (row : Row)
    → insert_job t row ≡ some t'
    → (t' ≡ record t { jobs = row ∷ t.jobs })
      × (exists (clashes row) t.jobs ≡ false)
      × (has row.actor_id t.users ≡ true)
      × (has row.agent_id t.agents ≡ true)
unfolding insert_job
insert_job-eq-some t t' row h = (ground arith, ground arith, ground arith, ground arith)

insert_audit-eq-some :
    (t t' : Tables) (event : Event)
    → insert_audit t event ≡ some t'
    → t' ≡ record t { audit = event ∷ t.audit }
unfolding insert_audit
insert_audit-eq-some t t' event h = ground arith

pub record_job-eq-ok :
    (faults : Faults) (t t' : Tables) (j : Job) (kind audit : String)
    → record_job faults t j kind audit ≡ ok t'
    → Recorded t t' j kind audit
unfolding record_job
record_job-eq-ok faults t t' j kind audit h =
    let (u, begun, in_job) = >>=-eq-ok (fail_if faults.begin Code.unavailable) _ h in
    let (u, fine, to_insert) = >>=-eq-ok (fail_if faults.job Code.already_exists) _ in_job in
    let (t1, inserted, in_audit) =
      >>=-eq-ok (or_fail (insert_job t (job_row j kind)) Code.already_exists) _ to_insert in
    let (u, well, to_audit) = >>=-eq-ok (fail_if faults.audit Code.unavailable) _ in_audit in
    let (t2, noted, to_commit) =
      >>=-eq-ok (or_fail (insert_audit t1 (job_event j kind audit)) Code.unavailable) _ to_audit in
    let (u, committed, last) = >>=-eq-ok (fail_if faults.commit Code.unavailable) _ to_commit in
    let (first, unique, actor, agent) = insert_job-eq-some t t1 (job_row j kind) (ground arith) in
    let second : t2 ≡ record t1 { audit = job_event j kind audit ∷ t1.audit } =
      insert_audit-eq-some t1 t2 (job_event j kind audit) (ground arith) in
    let same : t2 ≡ t' = ground arith in
    record {
      jobs = rw (sym same, second, first) refl;
      audited = rw (sym same, second, first) refl;
      users = rw (sym same, second, first) refl;
      agents = rw (sym same, second, first) refl;
      unique = unique;
      actor_known = actor;
      agent_known = agent;
    }

pub record_job-eq-err :
    (faults : Faults) (t : Tables) (j : Job) (kind audit : String) (code : Code)
    → record_job faults t j kind audit ≡ err code
    → obstacle faults t j kind audit ≡ true
unfolding record_job insert_job insert_audit
record_job-eq-err faults t j kind audit code h = ground arith
