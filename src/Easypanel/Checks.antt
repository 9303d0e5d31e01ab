-- ===== src/Easypanel/Checks.antt =====
-- What a plan promises: the checks of `Preflight` of internal/easypanel/preflight.go.
use silent_devops.Prelude.{
  ◌<◌, ◌≡◌, refl, sym, ap, ◌∙◌, ◌⊎◌, inl, inr, Bool, true, false, not, ◌&&◌, ◌||◌, List, [], arith,
  if◌then◌else◌, Bool-cases, Result, ok, err, is_ok,
}
use silent_devops.Easypanel.{
  CallError, not_found_error, Remote, Service, Inspected, MigrateInput, Codec, inspect_project,
  create_project,
}
use silent_devops.Easypanel.Preflight.{
  MigratePlan, PreflightOptions, PlanError, local_project_missing, local_service_missing,
  local_unreadable, remote_project_missing, remote_unreadable, remote_service_taken, has_service,
  Sides, local_check, collision_check, after_create, remote_check, after_local, preflight,
}

guard-free {ℓ κ} :
    {F : Type ℓ} {V : Type κ} (b : Bool) (why : F) (m : Result F V) {v : V}
    → (if b then err why else m) ≡ ok v
    → (b ≡ false) × (m ≡ ok v)
guard-free true why m h = absurd cc
guard-free false why m h = (refl, h)

refused_by_all {ℓ κ} :
    {F : Type ℓ} {V : Type κ} (b : Bool) (first second : F) {v : V}
    → (if b then err first else err second) ≡ ok v
    → 0 < 0
refused_by_all true first second h = absurd cc
refused_by_all false first second h = absurd cc

checked-here :
    (input : MigrateInput) (m : Result CallError Inspected)
    → local_check input m ≡ ok tt
    → (found : Inspected) × (m ≡ ok found) × (has_service found.services input.local_service ≡ true)
checked-here input (err why) h =
    absurd
      (omega (arith, refused_by_all (not_found_error why) local_project_missing local_unreadable h))
checked-here input (ok found) h =
    elim (Bool-cases (has_service found.services input.local_service)) [
      | inl there ↦ (found, refl, there)
      | inr missing ↦
          let no_check =
            sym (ap (λ b. is_ok (if b then ok tt else err local_service_missing)) missing)
            ∙ ap is_ok h in
          absurd (ground (arith, no_check))
    ]

collision-free :
    (opt : PreflightOptions) (input : MigrateInput) (made : Bool) (services : List Service)
    (plan : MigratePlan)
    → collision_check opt input made services ≡ ok plan
    → (plan.input ≡ input)
      × (plan.created_project ≡ made)
      × ((opt.overwrite_remote_service || not (has_service services input.remote_service)) ≡ true)
collision-free opt input made services plan done =
    let fresh : MigratePlan = record { input = input; created_project = made } in
    let (free, made_plan) =
      guard-free (not opt.overwrite_remote_service && has_service services input.remote_service)
        remote_service_taken (ok fresh) done in
    let same : fresh ≡ plan = cc in
    (
      sym (ap (λ (p : MigratePlan). p.input) same),
      sym (ap (λ (p : MigratePlan). p.created_project) same),
      ground arith,
    )

branch-taken {ℓ κ μ} :
    {F : Type ℓ} {V : Type κ} {T : Type μ} (b : Bool) (x y : Result F V × T) {v : V}
    → (if b then x else y).0 ≡ ok v
    → ((b ≡ true) × (x.0 ≡ ok v)) ⊎ ((b ≡ false) × (y.0 ≡ ok v))
branch-taken true x y h = inl (refl, h)
branch-taken false x y h = inr (refl, h)

created-checked :
    (opt : PreflightOptions) (input : MigrateInput) (o : Result CallError (Unit {0}))
    (plan : MigratePlan)
    → after_create opt input o ≡ ok plan
    → (plan.input ≡ input) × (plan.created_project ≡ true) × (o ≡ ok tt)
created-checked opt input (err why) plan done = absurd cc
created-checked opt input (ok fine) plan done =
    let (same, made, free) = collision-free opt input true [] plan done in (same, made, refl)

abbrev pub FromRemote :
    PreflightOptions
    → MigrateInput
    → Result CallError Inspected
    → Result CallError (Unit {0})
    → MigratePlan
    → Type 0
FromRemote opt input second creation plan =
    ((found : Inspected) × (second ≡ ok found)
      × (plan.created_project ≡ false)
      × ((opt.overwrite_remote_service || not (has_service found.services input.remote_service))
          ≡ true))
    ⊎ ((why : CallError) × (second ≡ err why)
        × (not_found_error why ≡ true)
        × (opt.create_remote_project ≡ true)
        × (creation ≡ ok tt)
        × (plan.created_project ≡ true))

checked-there :
    (r : Remote) (j : Codec) (opt : PreflightOptions) (input : MigrateInput)
    (m : Result CallError Inspected) (s : Sides) (plan : MigratePlan)
    → (remote_check r j opt input m s).0 ≡ ok plan
    → (plan.input ≡ input)
      × FromRemote opt input m
          (create_project r j s.remote input.remote_project s.remote_log).0
          plan
checked-there r j opt input (ok found) s plan done =
    let (same, made, free) = collision-free opt input false found.services plan done in
    (same, inl (found, refl, made, free))
checked-there r j opt input (err why) s plan done =
    let o = create_project r j s.remote input.remote_project s.remote_log in
    elim (branch-taken (not_found_error why) _ (err remote_unreadable, s) done) [
      | inr (other, bad) ↦ absurd cc
      | inl (missing, asked) ↦
          elim (branch-taken opt.create_remote_project _ (err remote_project_missing, s) asked) [
            | inr (keep, bad) ↦ absurd cc
            | inl (make, made) ↦
                let (same, sent, fine) = created-checked opt input o.0 plan made in
                (same, inr (why, refl, missing, make, fine, sent))
          ]
    ]

checked_after :
    (here there : Remote) (j : Codec) (opt : PreflightOptions) (input : MigrateInput)
    (c : Result PlanError (Unit {0})) (first : Result CallError Inspected) (s : Sides)
    (plan : MigratePlan)
    → local_check input first ≡ c
    → (after_local there j opt input c s).0 ≡ ok plan
    → let second = inspect_project there j s.remote input.remote_project s.remote_log in
      (plan.input ≡ input)
      × ((found : Inspected) × (first ≡ ok found)
          × (has_service found.services input.local_service ≡ true))
      × FromRemote opt input second.0
          (create_project there j second.1.0 input.remote_project second.1.1).0
          plan
checked_after here there j opt input (err why) first s plan e done = absurd cc
checked_after here there j opt input (ok fine) first s plan e done =
    let second = inspect_project there j s.remote input.remote_project s.remote_log in
    let (same, checked) =
      checked-there there j opt input second.0
        (record s { remote = second.1.0; remote_log = second.1.1 }) plan done in
    (same, checked-here input first e, checked)

-- A plan is only made after the checks: it is for the given input; the local project was read and holds
-- the local service; and either the remote project was read and, unless overwriting is allowed, does
-- not hold the remote service, or else it was not found, the operator asked for it to be created, and
-- the call that creates it succeeded.
pub preflight_checks :
    (here there : Remote) (j : Codec) (opt : PreflightOptions) (input : MigrateInput) (s : Sides)
    (plan : MigratePlan)
    → (preflight here there j opt input s).0 ≡ ok plan
    → let first = inspect_project here j s.local input.local_project s.local_log in
      let second = inspect_project there j s.remote input.remote_project s.remote_log in
      (plan.input ≡ input)
      × ((found : Inspected) × (first.0 ≡ ok found)
          × (has_service found.services input.local_service ≡ true))
      × FromRemote opt input second.0
          (create_project there j second.1.0 input.remote_project second.1.1).0
          plan
unfolding preflight
preflight_checks here there j opt input s plan done =
    let first = inspect_project here j s.local input.local_project s.local_log in
    let next : Sides = record s { local = first.1.0; local_log = first.1.1 } in
    checked_after here there j opt input (local_check input first.0) first.0 next plan refl done
