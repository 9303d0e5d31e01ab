-- ===== src/Easypanel/Migrate.antt =====
-- The commands of cmd/easypanel-migrate/main.go that list and migrate.
use silent_devops.Prelude.{
  String, Bool, not, ◌&&◌, ◌||◌, Option, none, List, [], if◌then◌else◌, Result, ok, err, ◌>>=◌,
  ◌>>◌, fail_if, map_err,
}
use silent_devops.Easypanel.{
  Log, Client, CallError, is_empty, Remote, MigrateInput, Codec, VersionPart,
}
use silent_devops.Easypanel.Preflight.{
  MigratePlan, PreflightOptions, PlanError, Sides, preflight, run_plan,
}
use silent_devops.Easypanel.Detect.{Host, Detection, Script, extract_token, detect_and_token}

-- What the two panels, the host and the texts are to a command.
pub record Setting : Type 0 where
  pub here : Remote
  pub there : Remote
  pub codec : Codec
  pub host : Host
  pub script : Script → String
  pub atoi : String → Option VersionPart
  pub parts : String → List String

pub data CommandError : Type 0 where
  names_required panel_missing remote_url_required token_not_extracted token_required : CommandError
  plan_refused : PlanError → CommandError
  panel_refused : CallError → CommandError

abbrev pub new_client : Setting → String → String → Client
new_client k url token = record {
  base_url = k.host.trim_url url;
  token = token;
  query_method = none;
}

-- The token of `remoteClient`
abbrev pub token_for : Setting → String → String → Result CommandError String
token_for k token container =
    if is_empty token && not (is_empty container)
    then map_err (extract_token k.script k.host container) (λ why. token_not_extracted)
    else ok token

-- `remoteClient`
unfoldable pub remote_client : Setting → String → String → String → Result CommandError Client
remote_client k url token container = do
  fail_if (is_empty url) remote_url_required
  found ← token_for k token container
  fail_if (is_empty found) token_required
  ok (new_client k url found)

-- `localClient`
abbrev pub local_client : Setting → Result CommandError (Client × Detection)
local_client k = map_err (detect_and_token k.script k.host k.atoi k.parts) (λ why. panel_missing)

-- `selectPanel`
unfoldable pub select_panel : Setting → String → String → String → Result CommandError Client
select_panel k url token container =
    if is_empty url && is_empty container
    then (local_client k >>= λ found. ok found.0)
    else remote_client k url token container

abbrev pub has_names : MigrateInput → Bool
has_names input = not (
    is_empty input.local_project
    || (is_empty input.local_service
        || (is_empty input.remote_project || is_empty input.remote_service)))

-- The clients of `cmdMigrate`, before anything is sent.
unfoldable pub open_clients :
    Setting → MigrateInput → String → Result CommandError (Client × Client)
open_clients k input container = do
  fail_if (not (has_names input)) names_required
  found ← local_client k
  remote ← remote_client k input.remote_url input.remote_token container
  ok (found.0, remote)

abbrev pub run_planned :
    Setting → Result PlanError MigratePlan × Sides → Result CommandError (Unit {0}) × (Log × Log)
run_planned k (err why, s) = (err (plan_refused why), (s.local_log, s.remote_log))
run_planned k (ok plan, s) =
    let o = run_plan k.here k.codec plan s in
    (map_err o.0 panel_refused, ((o.1).local_log, (o.1).remote_log))

abbrev pub with_clients :
    Setting
    → PreflightOptions
    → MigrateInput
    → Result CommandError (Client × Client)
    → Result CommandError (Unit {0}) × (Log × Log)
with_clients k opt input (err why) = (err why, ([], []))
with_clients k opt input (ok (local, remote)) = run_planned k (
    preflight k.here k.there k.codec opt (record input { remote_token = remote.token })
      (record { local = local; remote = remote; local_log = []; remote_log = [] }))

-- `cmdMigrate`, and what it has sent to the two panels
unfoldable pub cmd_migrate :
    Setting
    → PreflightOptions
    → MigrateInput
    → String
    → Result CommandError (Unit {0}) × (Log × Log)
cmd_migrate k opt input container = with_clients k opt input (open_clients k input container)
