-- ===== src/Storage.antt =====
-- Storage: `migrate` and `Cleanup` of internal/store/store.go. A script of a migration is an argument: what
-- it makes of the database, or its failure.
mod Migrate
mod Tests
use silent_devops.Prelude.{
  ℕ, suc, ◌-◌, Bool, not, ◌||◌, Option, none, some, List, [], ◌∷◌, ltb, ◌==◌, if◌then◌else◌, select,
  exists, Result, ok, err, ◌>>=◌, ◌>>◌, fail_if, or_fail,
}
use silent_devops.Jobs.{to_ms}

-- The versions in `schema_migrations`, the last one first, and the rest of the database.
pub record Database {ℓ} (D : Type ℓ) : Type ℓ where
  pub versions : List ℕ
  pub content : D

pub data StoreError : Type 0 where
  table_not_made version_unread script_missing script_failed version_not_kept commit_failed :
      StoreError

-- What the storage does to the steps of one migration.
pub record MigrationLuck : Type 0 where
  pub unread : Bool
  pub unopened : Bool
  pub not_begun : Bool
  pub not_recorded : Bool
  pub not_committed : Bool

abbrev pub knows_version : ℕ → List ℕ → Bool
knows_version version versions = exists (λ v. v == version) versions

module _ {ℓ} {D : Type ℓ} where
  -- The transaction of a script: both statements are carried out, or neither.
  unfoldable pub apply_script :
      (D → Option D) → MigrationLuck → Database D → ℕ → Result StoreError (Database D)
  apply_script script luck db version = do
    fail_if luck.unopened script_missing
    fail_if luck.not_begun commit_failed
    content ← or_fail (script db.content) script_failed
    fail_if (luck.not_recorded || knows_version version db.versions) version_not_kept
    fail_if luck.not_committed commit_failed
    ok (record { versions = version ∷ db.versions; content = content })

  abbrev pub keep_applied :
      Database D → Result StoreError (Database D) → Option StoreError × Database D
  keep_applied db (err why) = (some why, db)
  keep_applied db (ok db') = (none, db')

  -- One turn of the loop of `migrate`
  unfoldable pub migrate_one :
      (D → Option D) → MigrationLuck → Database D → ℕ → Option StoreError × Database D
  migrate_one script luck db version =
      if luck.unread
      then (some version_unread, db)
      else if knows_version version db.versions
      then (none, db)
      else keep_applied db (apply_script script luck db version)

  -- The loop, with the version of the first script that is left
  unfoldable pub migrate_from :
      (ℕ → MigrationLuck) → ℕ → List (D → Option D) → Database D → Option StoreError × Database D
  migrate_from luck version [] db = (none, db)
  migrate_from luck version (script ∷ scripts) db =
      let o = migrate_one script (luck version) db version in
      let rest = migrate_from luck (suc version) scripts o.1 in
      elim o.0 [ none ↦ rest | some why ↦ (some why, o.1) ]

  -- `migrate`, over the scripts in the order of their names
  unfoldable pub migrate_all :
      (ℕ → MigrationLuck) → Bool → List (D → Option D) → Database D → Option StoreError × Database D
  migrate_all luck table_fails scripts db =
      if table_fails then (some table_not_made, db) else migrate_from luck 1 scripts db

-- `Cleanup`: rows of a table with an instant, and the cutoff of seven days, in milliseconds
abbrev pub week : ℕ
week = 604_800_000

unfoldable pub delete_before {ℓ} : {A : Type ℓ} → (A → ℕ) → ℕ → List A → List A
delete_before time cutoff rows = select (λ row. not (ltb (time row) cutoff)) rows

unfoldable pub clean_up {ℓ κ} :
    {M : Type ℓ} {E : Type κ}
    → (M → ℕ)
    → (E → ℕ)
    → Bool
    → Bool
    → ℕ
    → List M
    → List E
    → Result StoreError (List M × List E)
clean_up bucket occurred statement_fails commit_fails now minutes events = do
  fail_if statement_fails script_failed
  fail_if commit_fails commit_failed
  ok (
    delete_before bucket (to_ms now - week) minutes,
    delete_before occurred (to_ms now - week) events,
  )
