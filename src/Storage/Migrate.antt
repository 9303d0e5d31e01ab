-- ===== src/Storage/Migrate.antt =====
-- Interrupted migrations are taken up again.
use silent_devops.Prelude.{
  ℕ, suc, ◌≡◌, refl, sym, ap, ◌∙◌, ◌⊎◌, inl, inr, Bool, true, false, ◌||◌, Option, none, some, List,
  [], ◌∷◌, arith, ==_iff, Bool-cases, Result-cases, or_fail-eq-ok, ok-injective, ok, fail_if,
  or_fail, >>=-eq-ok,
}
use silent_devops.Storage.{
  Database, StoreError, version_unread, script_missing, script_failed, version_not_kept,
  commit_failed, MigrationLuck, knows_version, apply_script, migrate_one, migrate_from, migrate_all,
}

-- A start of the program whose storage does not fail.
abbrev pub fine : ℕ → MigrationLuck
fine version = record {
  unread = false;
  unopened = false;
  not_begun = false;
  not_recorded = false;
  not_committed = false;
}

module _ {ℓ} {D : Type ℓ} where
  -- Starts of the program, one after the other, and what they leave.
  unfoldable pub starts :
      List ((ℕ → MigrationLuck) × Bool) → List (D → Option D) → Database D → Database D
  starts [] scripts db = db
  starts ((luck, table_fails) ∷ more) scripts db =
      starts more scripts (migrate_all luck table_fails scripts db).1

  applied :
      (script : D → Option D) (luck : MigrationLuck) (db db' : Database D) (version : ℕ)
      → apply_script script luck db version ≡ ok db'
      → (knows_version version db'.versions ≡ true)
        × ((v : ℕ) → knows_version v db.versions ≡ true → knows_version v db'.versions ≡ true)
        × (apply_script script (fine version) db version ≡ ok db')
  unfolding apply_script
  applied script luck db db' version done =
      let (_, _, a1) = >>=-eq-ok (fail_if luck.unopened script_missing) _ done in
      let (_, _, a2) = >>=-eq-ok (fail_if luck.not_begun commit_failed) _ a1 in
      let (content, made, a3) = >>=-eq-ok (or_fail (script db.content) script_failed) _ a2 in
      let (_, free, a4) =
        >>=-eq-ok
          (fail_if (luck.not_recorded || knows_version version db.versions) version_not_kept) _
          a3 in
      let (_, _, a5) = >>=-eq-ok (fail_if luck.not_committed commit_failed) _ a4 in
      let new : Database D = record { versions = version ∷ db.versions; content = content } in
      let same : new ≡ db' = ok-injective a5 in
      let kept = ap (λ (d : Database D). d.versions) same in
      let here : knows_version version new.versions ≡ true =
        ground (arith, ==_iff version version) in
      let still : (v : ℕ)
          → knows_version v db.versions ≡ true
          → knows_version v new.versions ≡ true =
        λ v known. ground arith in
      let unknown : knows_version version db.versions ≡ false = ground arith in
      (
        sym (ap (knows_version version) kept) ∙ here,
        λ v known. sym (ap (knows_version v) kept) ∙ still v known,
        rw (or_fail-eq-ok _ script_failed made, unknown) (ap ok same),
      )

  -- One turn: it leaves the database as it was, or does what a turn without failures does.
  turn :
      (script : D → Option D) (luck : MigrationLuck) (db : Database D) (version : ℕ)
      → ((why : StoreError) × (migrate_one script luck db version ≡ (some why, db)))
        ⊎ ((db' : Database D) × (migrate_one script luck db version ≡ (none, db'))
            × (knows_version version db'.versions ≡ true)
            × ((v : ℕ) → knows_version v db.versions ≡ true → knows_version v db'.versions ≡ true)
            × (migrate_one script (fine version) db version ≡ (none, db')))
  unfolding migrate_one
  turn script luck db version = elim (Bool-cases luck.unread) [
    | inl broken ↦ inl (version_unread, rw broken refl)
    | inr works ↦ elim (Bool-cases (knows_version version db.versions)) [
      | inl known ↦ inr (db, rw (works, known) refl, known, λ v k. k, rw known refl)
      | inr new ↦ elim (Result-cases (apply_script script luck db version)) [
        | inl (why, e) ↦ inl (why, rw (e, works, new) refl)
        | inr (db', e) ↦
            let (here, still, same) = applied script luck db db' version e in
            inr (db', rw (e, works, new) refl, here, still, rw (same, new) refl)
      ]
    ]
  ]

  known-skipped :
      (script : D → Option D) (db : Database D) (version : ℕ)
      → knows_version version db.versions ≡ true
      → migrate_one script (fine version) db version ≡ (none, db)
  unfolding migrate_one
  known-skipped script db version known = rw known refl

  next :
      (luck : ℕ → MigrationLuck) (version : ℕ) (scripts : List (D → Option D))
      → Option StoreError × Database D
      → Option StoreError × Database D
  next luck version scripts (none, db) = migrate_from luck version scripts db
  next luck version scripts (some why, db) = (some why, db)

  from-next :
      (luck : ℕ → MigrationLuck) (version : ℕ) (script : D → Option D)
      (scripts : List (D → Option D)) (db : Database D)
      → migrate_from luck version (script ∷ scripts) db
        ≡ next luck (suc version) scripts (migrate_one script (luck version) db version)
  unfolding migrate_from next
  from-next luck version script scripts db = go (migrate_one script (luck version) db version)
    where
      go :
          (o : Option StoreError × Database D)
          → (elim o.0 [
            | none ↦ migrate_from luck (suc version) scripts o.1
            | some why ↦ (some why, o.1)
          ])
            ≡ next luck (suc version) scripts o
      go (none, db) = refl
      go (some why, db) = refl

  from-keeps :
      (luck : ℕ → MigrationLuck) (version : ℕ) (scripts : List (D → Option D)) (db : Database D)
      (v : ℕ)
      → knows_version v db.versions ≡ true
      → knows_version v (migrate_from luck version scripts db).1.versions ≡ true
  unfolding next
  from-keeps luck version [] db v known = unfold migrate_from in known
  from-keeps luck version (script ∷ scripts) db v known =
      let whole = from-next luck version script scripts db in
      let after = next luck (suc version) scripts in
      let test = λ (o : Option StoreError × Database D). knows_version v o.1.versions in
      elim (turn script (luck version) db version) [
        | inl (why, stopped) ↦ ap test whole ∙ ap (λ o. test (after o)) stopped ∙ known
        | inr (db', went_on, here, still, alone) ↦
            ap test whole
            ∙ ap (λ o. test (after o)) went_on
            ∙ from-keeps luck (suc version) scripts db' v (still v known)
      ]

  -- A run without failures after any run does what it does alone.
  again :
      (luck : ℕ → MigrationLuck) (version : ℕ) (scripts : List (D → Option D)) (db : Database D)
      → migrate_from fine version scripts (migrate_from luck version scripts db).1
        ≡ migrate_from fine version scripts db
  unfolding next
  again luck version [] db = unfold migrate_from in refl
  again luck version (script ∷ scripts) db =
      let whole = from-next luck version script scripts db in
      let run =
        λ (o : Option StoreError × Database D). migrate_from fine version (script ∷ scripts) o.1 in
      elim (turn script (luck version) db version) [
        | inl (why, stopped) ↦ ap run (whole ∙ ap (next luck (suc version) scripts) stopped)
        | inr (db', went_on, here, still, alone) ↦
            let later = (migrate_from luck (suc version) scripts db').1 in
            let known = from-keeps luck (suc version) scripts db' version here in
            ap run (whole ∙ ap (next luck (suc version) scripts) went_on)
            ∙ from-next fine version script scripts later
            ∙ ap (next fine (suc version) scripts) (known-skipped script later version known)
            ∙ again luck (suc version) scripts db'
            ∙ sym (ap (next fine (suc version) scripts) alone)
            ∙ sym (from-next fine version script scripts db)
      ]

  -- However often the program was stopped by failures of its storage while it migrated: the first start
  -- without one gives what a single undisturbed start gives, the same database and the same answer.
  pub migrate_resumes :
      (before : List ((ℕ → MigrationLuck) × Bool)) (scripts : List (D → Option D)) (db : Database D)
      → migrate_all fine false scripts (starts before scripts db)
        ≡ migrate_all fine false scripts db
  unfolding migrate_all starts
  migrate_resumes [] scripts db = refl
  migrate_resumes ((luck, true) ∷ more) scripts db = migrate_resumes more scripts db
  migrate_resumes ((luck, false) ∷ more) scripts db =
      migrate_resumes more scripts (migrate_from luck 1 scripts db).1 ∙ again luck 1 scripts db
