-- ===== src/Easypanel/Preflight.antt =====
-- `Preflight` and `MigratePlan.Run` of internal/easypanel/preflight.go.
use silent_devops.Prelude.{
  String, Bool, true, false, not, ◌&&◌, List, [], str_eq, if◌then◌else◌, exists, Result, ok, err,
}
use silent_devops.Easypanel.{
  Log, Client, CallError, not_found_error, Remote, Service, Inspected, MigrateInput, Codec,
  inspect_project, create_project, migrate,
}

pub record MigratePlan : Type 0 where
  pub input : MigrateInput
  pub created_project : Bool

pub record PreflightOptions : Type 0 where
  pub create_remote_project : Bool
  pub overwrite_remote_service : Bool

pub data PlanError : Type 0 where
  local_project_missing local_service_missing local_unreadable : PlanError
  remote_project_missing remote_not_created remote_unreadable remote_service_taken : PlanError

abbrev pub has_service : List Service → String → Bool
has_service services name = exists (λ (s : Service). str_eq s.name name) services

-- What is left of a call: the two clients, and the requests of both panels.
pub record Sides : Type 0 where
  pub local : Client
  pub remote : Client
  pub local_log : Log
  pub remote_log : Log

abbrev pub local_check : MigrateInput → Result CallError Inspected → Result PlanError (Unit {0})
local_check input (err why) =
    if not_found_error why then err local_project_missing else err local_unreadable
local_check input (ok found) =
    if has_service found.services input.local_service then ok tt else err local_service_missing

-- The fourth check, on the services of the remote project.
abbrev pub collision_check :
    PreflightOptions → MigrateInput → Bool → List Service → Result PlanError MigratePlan
collision_check opt input created services =
    if not opt.overwrite_remote_service && has_service services input.remote_service
    then err remote_service_taken
    else ok (record { input = input; created_project = created })

abbrev pub after_create :
    PreflightOptions → MigrateInput → Result CallError (Unit {0}) → Result PlanError MigratePlan
after_create opt input (err why) = err remote_not_created
after_create opt input (ok done) = collision_check opt input true []

-- The third check, and what follows it.
abbrev pub remote_check :
    Remote
    → Codec
    → PreflightOptions
    → MigrateInput
    → Result CallError Inspected
    → Sides
    → Result PlanError MigratePlan × Sides
remote_check r j opt input (ok found) s = (collision_check opt input false found.services, s)
remote_check r j opt input (err why) s =
    if not_found_error why
    then if opt.create_remote_project
      then (let o = create_project r j s.remote input.remote_project s.remote_log in
          (after_create opt input o.0, record s { remote_log = o.1 }))
      else (err remote_project_missing, s)
    else (err remote_unreadable, s)

abbrev pub after_local :
    Remote
    → Codec
    → PreflightOptions
    → MigrateInput
    → Result PlanError (Unit {0})
    → Sides
    → Result PlanError MigratePlan × Sides
after_local r j opt input (err why) s = (err why, s)
after_local r j opt input (ok fine) s =
    let o = inspect_project r j s.remote input.remote_project s.remote_log in
    remote_check r j opt input o.0 (record s { remote = (o.1).0; remote_log = (o.1).1 })

-- `Preflight`; the panels are two servers.
unfoldable pub preflight :
    Remote
    → Remote
    → Codec
    → PreflightOptions
    → MigrateInput
    → Sides
    → Result PlanError MigratePlan × Sides
preflight here there j opt input s =
    let o = inspect_project here j s.local input.local_project s.local_log in
    after_local there j opt input (local_check input o.0)
      (record s { local = (o.1).0; local_log = (o.1).1 })

-- `MigratePlan.Run`
unfoldable pub run_plan : Remote → Codec → MigratePlan → Sides → Result CallError (Unit {0}) × Sides
run_plan here j plan s =
    let o = migrate here j s.local plan.input s.local_log in (o.0, record s { local_log = o.1 })
