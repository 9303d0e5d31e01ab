-- ===== src/Jobs/Submit.antt =====
-- The handlers that submit jobs: `submitSafe` of internal/server/jobs.go, `submitUnsafe` of unsafe.go
-- and the handlers that call them.
use silent_devops.Prelude.{
  ℕ, String, Bool, true, false, not, ◌&&◌, ◌||◌, Option, none, some, List, str_eq, ltb, ◌==◌,
  if◌then◌else◌, length, Result, ok, err, ◌>>=◌, ◌>>◌, fail_if, or_fail,
}
use silent_devops.Protocol.{
  role_admin, Code, TypedOperation, process_list, service_list, service_status, service_start,
  service_stop, service_restart, journal_read, cleanup_preview, UnsafeOperation, Operation, Job,
  JobContext,
}
use silent_devops.Registry.Dispatch.{dispatch}
use silent_devops.Auth.Token.{Claims}
use silent_devops.Jobs.{
  Server, Faults, Entropy, context_fits, to_ms, new_job, Reply, answered, send_job,
}

-- Three draws of crypto/rand.
unfoldable pub draw : Entropy → Result Code (String × String × String)
draw e = do
  id ← or_fail e.id Code.internal
  dispatch ← or_fail e.dispatch Code.internal
  audit ← or_fail e.audit Code.internal
  ok (id, dispatch, audit)

-- The checks and draws before the transaction: the job, and the identifier of its audit event.
unfoldable pub prepare_safe :
    Option Claims
    → Bool
    → Entropy
    → Option JobContext
    → TypedOperation
    → ℕ
    → ℕ
    → Result Code (Job × String)
unfolding draw context_fits
prepare_safe claims ready entropy request operation now later = do
  who ← or_fail claims Code.unauthenticated
  fail_if (not (context_fits request)) Code.invalid_argument
  c ← or_fail request Code.invalid_argument
  fail_if (not ready) Code.unavailable
  (id, dispatch, audit) ← draw entropy
  ok (new_job who c (Operation.safe operation) c.confirmed id dispatch now later, audit)

unfoldable pub is_there {ℓ} : {A : Type ℓ} → Option A → Bool
is_there none = false
is_there (some x) = true

unfoldable pub submit_safe :
    Option Claims
    → Server
    → Faults
    → Entropy
    → Bool
    → ℕ
    → ℕ
    → Option JobContext
    → TypedOperation
    → String
    → Reply Job × Server
unfolding prepare_safe is_there send_job
submit_safe claims s faults entropy done now later request operation kind =
    elim (prepare_safe claims (is_there s.registry) entropy request operation now later) [
      | err code ↦ (answered (err code), s)
      | ok (j, audit) ↦ send_job s faults done j kind audit
    ]

unfoldable pub confirmed_context : Option JobContext → Bool
unfolding context_fits
confirmed_context none = false
confirmed_context (some c) = context_fits (some c) && c.confirmed

unfoldable pub prepare_unsafe :
    Option Claims
    → Entropy
    → Option JobContext
    → UnsafeOperation
    → Bool
    → ℕ
    → Result Code (Job × String)
unfolding draw confirmed_context
prepare_unsafe claims entropy request operation admin_only now = do
  who ← or_fail claims Code.unauthenticated
  fail_if (admin_only && not (who.role == role_admin)) Code.permission_denied
  fail_if (not (confirmed_context request)) Code.invalid_argument
  c ← or_fail request Code.invalid_argument
  (id, dispatch, audit) ← draw entropy
  ok (new_job who c (Operation.unsafe operation) true id dispatch now now, audit)

unfoldable pub submit_unsafe :
    Option Claims
    → Server
    → Faults
    → Entropy
    → Bool
    → ℕ
    → Option JobContext
    → UnsafeOperation
    → String
    → Bool
    → Reply Job × Server
unfolding prepare_unsafe send_job
submit_unsafe claims s faults entropy done now request operation kind admin_only =
    elim (prepare_unsafe claims entropy request operation admin_only now) [
      | err code ↦ (answered (err code), s)
      | ok (j, audit) ↦ send_job s faults done j kind audit
    ]

-- A submission behind its claims, server and context: what the handlers have in common.
pub record Call : Type 0 where
  pub claims : Option Claims
  pub server : Server
  pub faults : Faults
  pub entropy : Entropy
  pub done : Bool
  pub now : ℕ
  pub later : ℕ
  pub context : Option JobContext

abbrev pub submits : Call → TypedOperation → String → Reply Job × Server
submits c operation kind =
    submit_safe c.claims c.server c.faults c.entropy c.done c.now c.later c.context operation kind

pub list_processes : Call → ℕ → Reply Job × Server
list_processes c limit = submits c (process_list limit) "process_list"

pub list_services : Call → ℕ → Reply Job × Server
list_services c limit = submits c (service_list limit) "service_list"

pub get_service : Call → String → Reply Job × Server
get_service c unit = submits c (service_status unit) "service_status"

pub start_service : Call → String → Reply Job × Server
start_service c unit = submits c (service_start unit) "service_start"

pub stop_service : Call → String → Reply Job × Server
stop_service c unit = submits c (service_stop unit) "service_stop"

pub restart_service : Call → String → Reply Job × Server
restart_service c unit = submits c (service_restart unit) "service_restart"

pub read_logs : Call → String → ℕ → ℕ → ℕ → Reply Job × Server
read_logs c unit since until lines = submits c (journal_read unit since until lines) "journal_read"

pub preview_cleanup : Call → List String → Reply Job × Server
preview_cleanup c paths = submits c (cleanup_preview paths) "cleanup_preview"

abbrev pub submits_unsafe : Call → UnsafeOperation → String → Bool → Reply Job × Server
submits_unsafe c operation kind admin_only =
    submit_unsafe c.claims c.server c.faults c.entropy c.done c.later c.context operation kind
      admin_only

-- The handlers of the unsafe jobs read the clock a first time for their own check.
unfoldable pub run_cleanup : Call → Option (String × List ℕ × ℕ) → Reply Job × Server
run_cleanup c none = (answered (err Code.invalid_argument), c.server)
run_cleanup c (some (preview, hash, expires)) =
    if str_eq preview "" || (length hash == 0 || ltb expires (to_ms c.now))
    then (answered (err Code.invalid_argument), c.server)
    else submits_unsafe c (UnsafeOperation.cleanup_run preview hash expires) "cleanup_run" false

unfoldable pub target : Option JobContext → String
target none = ""
target (some c) = c.agent_id

unfoldable pub is_confirmed : Option JobContext → Bool
is_confirmed none = false
is_confirmed (some c) = c.confirmed

unfoldable pub reboot : Call → Option (String × String × ℕ) → Reply Job × Server
unfolding target
reboot c none = (answered (err Code.invalid_argument), c.server)
reboot c (some (agent, confirmation, expires)) =
    if not (str_eq agent (target c.context))
      || (str_eq confirmation "" || ltb expires (to_ms c.now))
    then (answered (err Code.invalid_argument), c.server)
    else submits_unsafe c (UnsafeOperation.reboot agent confirmation expires) "reboot" false

unfoldable pub exec : Call → Option String → Reply Job × Server
unfolding is_confirmed
exec c none = (answered (err Code.invalid_argument), c.server)
exec c (some command) =
    if str_eq command "" || not (is_confirmed c.context)
    then (answered (err Code.invalid_argument), c.server)
    else submits_unsafe c (UnsafeOperation.arbitrary_command command) "exec" true
