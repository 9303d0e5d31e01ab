-- ===== src/Storage/Tests.antt =====
-- Starts of the program over two scripts, and the theorem about them.
use silent_devops.Prelude.{
  ℕ, ◌+◌, ◌*◌, ◌≡◌, refl, true, false, Option, some, List, [], ◌∷◌, ◌==◌, ok,
}
use silent_devops.Storage.{
  Database, MigrationLuck, apply_script, migrate_one, migrate_from, migrate_all, delete_before,
  clean_up,
}
use silent_devops.Storage.Migrate.{fine, starts, migrate_resumes}

abbrev scripts : List (ℕ → Option ℕ)
scripts = (λ n. some (n + 10)) ∷ (λ n. some (n * 2)) ∷ []

abbrev fresh : Database ℕ
fresh = record { versions = []; content = 1 }

-- The commit of the second script fails.
abbrev broken : ℕ → MigrationLuck
broken version = record (fine version) { not_committed = version == 2 }

stopped_between :
    starts ((broken, false) ∷ []) scripts fresh ≡ record { versions = 1 ∷ []; content = 11 }
unfolding starts migrate_all migrate_from migrate_one apply_script
stopped_between = refl

cleaned :
    clean_up (λ m. m) (λ e. e) false false 604_800_005_000_000 (4 ∷ 5 ∷ []) (6 ∷ [])
    ≡ ok (5 ∷ [], 6 ∷ [])
unfolding clean_up delete_before
cleaned = refl

migrate_resumes_example :
    migrate_all fine false scripts (starts ((broken, false) ∷ (broken, true) ∷ []) scripts fresh)
    ≡ migrate_all fine false scripts fresh
migrate_resumes_example = migrate_resumes ((broken, false) ∷ (broken, true) ∷ []) scripts fresh
