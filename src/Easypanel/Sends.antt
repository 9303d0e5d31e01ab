-- ===== src/Easypanel/Sends.antt =====
-- What the checks before a migration, and the migration, send.
use silent_devops.Prelude.{
  ℕ, ◌+◌, ◌≤◌, String, ◌≡◌, refl, ap, ◌∙◌, inl, inr, Bool, true, false, not, ◌&&◌, List, [], arith,
  str_eq, if◌then◌else◌, Bool-cases, affected, Result, ok, err, is_ok,
}
use silent_devops.Easypanel.{
  trpc, migrate_service, HttpCall, Log, Client, CallError, is_empty, not_found_error,
  method_not_allowed, first_method, Remote, query_via, trpc_query, trpc_mutation, Service,
  Inspected, MigrateInput, Codec, inspect_project, create_project, migrate,
}
use silent_devops.Easypanel.Preflight.{
  MigratePlan, PreflightOptions, PlanError, remote_project_missing, remote_unreadable, has_service,
  Sides, local_check, collision_check, after_create, remote_check, after_local, preflight, run_plan,
}
use silent_devops.Easypanel.Migrate.{
  Setting, CommandError, open_clients, run_planned, with_clients, cmd_migrate,
}

-- The two requests that change a panel.
abbrev pub is_creation : HttpCall → Bool
is_creation call = elim call.endpoint [
  | trpc proc ↦ str_eq proc "projects.createProject"
  | migrate_service ↦ false
]

abbrev pub is_migration : HttpCall → Bool
is_migration call = elim call.endpoint [ trpc proc ↦ false | migrate_service ↦ true ]

abbrev pub creations : Log → ℕ
creations log = affected is_creation log

abbrev pub migrations : Log → ℕ
migrations log = affected is_migration log

-- How many projects a result says were created.
abbrev pub created {ℓ} : {E : Type ℓ} → Result E MigratePlan → ℕ
created (err why) = 0
created (ok plan) = if plan.created_project then 1 else 0

-- Asking for a project changes nothing.
inspect-sends :
    (r : Remote) (j : Codec) (c : Client) (name : String) (log : Log)
    → (creations (inspect_project r j c name log).1.1 ≡ creations log)
      × (migrations (inspect_project r j c name log).1.1 ≡ migrations log)
unfolding inspect_project trpc_query query_via
inspect-sends r j c name log = elim (Bool-cases (is_empty c.base_url)) [
  | inl unset ↦ (rw unset refl, rw unset refl)
  | inr set ↦
      elim (Bool-cases (
        method_not_allowed
          (query_via r c (first_method c.query_method) "projects.inspectProject"
            (j.project_input name) j.read_inspected log).0)) [
              | inl refused ↦ (rw (set, refused) refl, rw (set, refused) refl)
              | inr fine ↦ (rw (set, fine) refl, rw (set, fine) refl)
            ]
]

create-sends :
    (r : Remote) (j : Codec) (c : Client) (name : String) (log : Log)
    → let o = create_project r j c name log in
      (creations log + (if is_ok o.0 then 1 else 0) ≤ creations o.1)
      × (creations o.1 ≤ creations log + 1)
      × (migrations o.1 ≡ migrations log)
unfolding create_project trpc_mutation
create-sends r j c name log = elim (Bool-cases (is_empty c.base_url)) [
  | inl unset ↦ (rw unset (omega arith), rw unset (omega arith), rw unset refl)
  | inr set ↦ (rw set (ground arith), rw set (ground arith), rw set refl)
]

collision-created :
    (opt : PreflightOptions) (input : MigrateInput) (made : Bool) (services : List Service)
    → created (collision_check opt input made services) ≤ (if made then 1 else 0)
collision-created opt input made services =
    elim (Bool-cases
      (not opt.overwrite_remote_service && has_service services input.remote_service)) [
        | inl taken ↦ rw taken (omega arith)
        | inr free ↦ rw free (omega arith)
      ]

create-created :
    (opt : PreflightOptions) (input : MigrateInput) (o : Result CallError (Unit {0}))
    → created (after_create opt input o) ≤ (if is_ok o then 1 else 0)
create-created opt input (err why) = omega arith
create-created opt input (ok done) = collision-created opt input true []

-- What the requests of the checks were, from the state before them to their result: the local panel is
-- not changed, and the remote one only by the creation of a project that was asked for.
pub record Checked (opt : PreflightOptions) (s : Sides) (o : Result PlanError MigratePlan × Sides)
    : Type 0 where
  pub told : creations s.remote_log + created o.0 ≤ creations o.1.remote_log
  pub asked :
      creations o.1.remote_log
      ≤ creations s.remote_log + (if opt.create_remote_project then 1 else 0)
  pub not_migrated : migrations o.1.remote_log ≡ migrations s.remote_log
  pub local_creations : creations o.1.local_log ≡ creations s.local_log
  pub local_migrations : migrations o.1.local_log ≡ migrations s.local_log

unsent : (opt : PreflightOptions) (s : Sides) (why : PlanError) → Checked opt s (err why, s)
unsent opt s why = record {
  told = omega arith;
  asked = omega arith;
  not_migrated = refl;
  local_creations = refl;
  local_migrations = refl;
}

-- What the third check and what follows send.
remote-Checked :
    (r : Remote) (j : Codec) (opt : PreflightOptions) (input : MigrateInput)
    (m : Result CallError Inspected) (s : Sides)
    → Checked opt s (remote_check r j opt input m s)
remote-Checked r j opt input (ok found) s = record {
  told = omega (arith, collision-created opt input false found.services);
  asked = omega arith;
  not_migrated = refl;
  local_creations = refl;
  local_migrations = refl;
}
remote-Checked r j opt input (err why) s = elim (Bool-cases (not_found_error why)) [
  | inr other ↦ rw other (unsent opt s remote_unreadable)
  | inl missing ↦ elim (Bool-cases opt.create_remote_project) [
    | inr keep ↦
        rw (missing, keep)
          (unsent (record opt { create_remote_project = false }) s remote_project_missing)
    | inl make ↦
        let o = create_project r j s.remote input.remote_project s.remote_log in
        let (sent, once, other) = create-sends r j s.remote input.remote_project s.remote_log in
        rw (missing, make)
          (record {
            told = omega (arith, sent, create-created opt input o.0);
            asked = omega (arith, once);
            not_migrated = other;
            local_creations = refl;
            local_migrations = refl;
          })
  ]
]

local-Checked :
    (r : Remote) (j : Codec) (opt : PreflightOptions) (input : MigrateInput)
    (m : Result PlanError (Unit {0})) (s : Sides)
    → Checked opt s (after_local r j opt input m s)
local-Checked r j opt input (err why) s = unsent opt s why
local-Checked r j opt input (ok fine) s =
    let o = inspect_project r j s.remote input.remote_project s.remote_log in
    let (same, still) = inspect-sends r j s.remote input.remote_project s.remote_log in
    let k : Checked opt (record s { remote = o.1.0; remote_log = o.1.1 })
        (after_local r j opt input (ok fine) s) =
      remote-Checked r j opt input o.0 (record s { remote = o.1.0; remote_log = o.1.1 }) in
    record {
      told = omega (arith, same, k.told);
      asked = omega (arith, same, k.asked);
      not_migrated = k.not_migrated ∙ still;
      local_creations = k.local_creations;
      local_migrations = k.local_migrations;
    }

-- Whatever the panels answer, the checks before a migration change nothing on the local panel, and create
-- at most one project on the remote one, which the operator has to ask for, and migrate nothing; where
-- the plan says that a project was created, the request for it was sent.
pub preflight_sends :
    (here there : Remote) (j : Codec) (opt : PreflightOptions) (input : MigrateInput) (s : Sides)
    → Checked opt s (preflight here there j opt input s)
unfolding preflight
preflight_sends here there j opt input s =
    let o = inspect_project here j s.local input.local_project s.local_log in
    let (same, still) = inspect-sends here j s.local input.local_project s.local_log in
    let k : Checked opt (record s { local = o.1.0; local_log = o.1.1 })
        (after_local there j opt input (local_check input o.0)
          (record s { local = o.1.0; local_log = o.1.1 })) =
      local-Checked there j opt input (local_check input o.0)
        (record s { local = o.1.0; local_log = o.1.1 }) in
    record {
      told = k.told;
      asked = k.asked;
      not_migrated = k.not_migrated;
      local_creations = k.local_creations ∙ same;
      local_migrations = k.local_migrations ∙ still;
    }

planned-sends :
    (k : Setting) (o : Result PlanError MigratePlan × Sides)
    → let a = run_planned k o in
      (creations a.1.0 ≡ creations o.1.local_log)
      × (migrations a.1.0 ≤ migrations o.1.local_log + 1)
      × (migrations o.1.local_log + (if is_ok a.0 then 1 else 0) ≤ migrations a.1.0)
      × (a.1.1 ≡ o.1.remote_log)
unfolding run_plan migrate
planned-sends k (err why, s) = (refl, omega arith, omega arith, refl)
planned-sends k (ok plan, s) = (refl, omega arith, ground arith, refl)

-- Whatever the host and the panels answer, the command asks the local panel for at most one migration,
-- and for exactly one when it reports success, and creates no project there; it migrates nothing on the
-- remote panel, and creates at most one project there, which the operator has to ask for.
pub cmd_migrate_sends :
    (k : Setting) (opt : PreflightOptions) (input : MigrateInput) (container : String)
    → let o = cmd_migrate k opt input container in
      (creations o.1.0 ≡ 0)
      × (migrations o.1.0 ≤ 1)
      × ((if is_ok o.0 then 1 else 0) ≤ migrations o.1.0)
      × (creations o.1.1 ≤ (if opt.create_remote_project then 1 else 0))
      × (migrations o.1.1 ≡ 0)
unfolding cmd_migrate
cmd_migrate_sends k opt input container = go (open_clients k input container)
  where
    go :
        (c : Result CommandError (Client × Client))
        → let o = with_clients k opt input c in
          (creations o.1.0 ≡ 0)
          × (migrations o.1.0 ≤ 1)
          × ((if is_ok o.0 then 1 else 0) ≤ migrations o.1.0)
          × (creations o.1.1 ≤ (if opt.create_remote_project then 1 else 0))
          × (migrations o.1.1 ≡ 0)
    go (err why) = (refl, omega arith, omega arith, omega arith, refl)
    go (ok (local, remote)) =
        let given : MigrateInput = record input { remote_token = remote.token } in
        let start : Sides = record {
          local = local;
          remote = remote;
          local_log = [];
          remote_log = [];
        } in
        let plan = preflight k.here k.there k.codec opt given start in
        let c : Checked opt start plan = preflight_sends k.here k.there k.codec opt given start in
        let (none_made, most, least, same) = planned-sends k plan in
        (
          none_made ∙ c.local_creations,
          omega (arith, c.local_migrations, most),
          omega (arith, c.local_migrations, least),
          omega (arith, c.asked, ap creations same),
          ap migrations same ∙ c.not_migrated,
        )
