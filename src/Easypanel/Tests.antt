-- ===== src/Easypanel/Tests.antt =====
-- Runs of the client against a concrete panel, and the theorems about them there.
use silent_devops.Prelude.{
  ℕ, ◌≤◌, String, ◌≡◌, refl, true, false, Option, none, some, [], ◌∷◌, str_eq, if◌then◌else◌, ok,
  is_ok,
}
use silent_devops.Easypanel.{
  get_method, post_method, trpc, migrate_service, HttpCall, Client, TrpcError, decode_api_error,
  Remote, request, query_via, trpc_query, trpc_mutation, Inspected, MigrateInput, Codec,
  inspect_project, create_project, migrate, new_for_version,
}
use silent_devops.Easypanel.Preflight.{
  MigratePlan, PreflightOptions, has_service, Sides, preflight, run_plan,
}
use silent_devops.Easypanel.Detect.{
  panel_container, run_script, extract_token, detect, detect_and_token,
}
use silent_devops.Easypanel.Migrate.{Setting, remote_client, open_clients, cmd_migrate}
use silent_devops.Easypanel.Sends.{creations, migrations, cmd_migrate_sends}
use silent_devops.Easypanel.Checks.{FromRemote, preflight_checks}

abbrev trpc_error : TrpcError
trpc_error = record { code = ""; message = ""; data_code = "" }

-- A panel that takes queries by POST and has no project but "shop".
abbrev answer : HttpCall → Option (ℕ × String)
answer call = elim call.method [
  | get_method ↦ some (405, "")
  | post_method ↦ if str_eq call.body "shop" then some (200, "web") else some (404, "")
]

abbrev panel : Remote
panel = record {
  respond = λ log call. answer call;
  read_error =
      λ raw. record { nested = trpc_error; legacy = trpc_error; message = ""; rest_error = "" };
  v10 = λ raw. none;
  bare = λ raw. none;
  succeeded = λ raw. none;
}

-- One that has no project and lets them be created.
abbrev making_panel : Remote
making_panel = record panel {
  respond = λ log call. elim call.endpoint [
    | trpc proc ↦ if str_eq proc "projects.createProject" then some (200, "") else some (404, "")
    | migrate_service ↦ some (200, "")
  ];
}

-- One that knows every project, each without services.
abbrev empty_panel : Remote
empty_panel = record panel { respond = λ log call. some (200, "") }

abbrev codec : Codec
codec = record {
  project_input = λ name. name;
  name_input = λ name. name;
  migrate_input = λ input. "";
  read_inspected = λ payload. some (record {
    project = payload;
    services = (record { name = payload; kind = "app"; project = "shop" }) ∷ [];
  });
  read_projects = λ payload. some [];
}

abbrev client : Client
client = record { base_url = "http://127.0.0.1:3000"; token = "t"; query_method = none }

abbrev input : MigrateInput
input = record {
  local_project = "shop";
  local_service = "web";
  remote_token = "t";
  remote_url = "http://other:3000";
  remote_project = "blog";
  remote_service = "web";
}

abbrev start : Sides
start = record { local = client; remote = client; local_log = []; remote_log = [] }

abbrev opt : PreflightOptions
opt = record { create_remote_project = true; overwrite_remote_service = false }

refused_then_taken : (inspect_project panel codec client "shop" []).1 ≡ (
  record client { query_method = some post_method },
  request client post_method (trpc "projects.inspectProject") "shop"
      ∷ request client get_method (trpc "projects.inspectProject") "shop"
      ∷ [],
)
unfolding inspect_project trpc_query query_via decode_api_error
refused_then_taken = refl

abbrev plan : MigratePlan
plan = record { input = input; created_project = true }

preflight_checks_example :
    let second = inspect_project making_panel codec client "blog" [] in
    (input ≡ input)
    × ((found : Inspected) × ((inspect_project panel codec client "shop" []).0 ≡ ok found)
        × (has_service found.services "web" ≡ true))
    × FromRemote opt input second.0
        (create_project making_panel codec second.1.0 "blog" second.1.1).0
        plan
preflight_checks_example = preflight_checks panel making_panel codec opt input start plan (
    unfold preflight create_project trpc_mutation inspect_project trpc_query query_via
      decode_api_error in
    refl)

-- The local panel has the project and migrates it.
abbrev home_panel : Remote
home_panel = record panel {
  respond = λ log call. elim call.endpoint [
    | trpc proc ↦ some (200, "web")
    | migrate_service ↦ some (200, "")
  ];
  succeeded = λ raw. some true;
}

abbrev setting : Setting
setting = record {
  here = home_panel;
  there = making_panel;
  codec = codec;
  host = record {
    run = λ args. some "easypanel.1.x";
    env = λ name. "";
    trim = λ s. s;
    trim_url = λ s. s;
    lines = λ s. s ∷ [];
  };
  script = λ s. "";
  atoi = λ s. none;
  parts = λ s. [];
}

cmd_migrate_sends_example :
    let o = cmd_migrate setting opt input "" in
    (creations o.1.0 ≡ 0)
    × (migrations o.1.0 ≤ 1)
    × ((if is_ok o.0 then 1 else 0) ≤ migrations o.1.0)
    × (creations o.1.1 ≤ 1)
    × (migrations o.1.1 ≡ 0)
cmd_migrate_sends_example = cmd_migrate_sends setting opt input ""

migrated_once :
    let o = cmd_migrate setting opt input "" in
    (o.0 ≡ ok tt) × (migrations o.1.0 ≡ 1) × (creations o.1.1 ≡ 1)
unfolding cmd_migrate open_clients preflight run_plan migrate create_project trpc_mutation
    inspect_project trpc_query query_via decode_api_error detect_and_token detect panel_container
    extract_token run_script remote_client new_for_version
migrated_once = (refl, refl, refl)
