-- ===== src/Enrollment/Tests.antt =====
-- Runs of the join codes, and the theorems about them at concrete inputs.
use silent_devops.Prelude.{
  ℕ, zero, suc, String, ◌≡◌, refl, true, false, Option, none, some, List, [], ◌∷◌, str_eq,
  if◌then◌else◌, ok,
}
use silent_devops.Auth.Token.{Bytes}
use silent_devops.Enrollment.{
  CodeRow, insert_code, put_code, by_expiry, list_codes, revoke_code, create_code, token_hash_of,
  consume_code,
}
use silent_devops.Enrollment.Refine.{codes_of}
use silent_devops.Enrollment.Machine.{
  CodeCall, issues, spends, withdraws, step_code, run_codes, run_contract, run_refines,
}

abbrev sevens : ℕ → Bytes
sevens zero = []
sevens (suc n) = 7 ∷ sevens n

abbrev encode : Bytes → String
encode raw = "0707"

abbrev decode : String → Option Bytes
decode token = if str_eq token "0707" then some (sevens 32) else none

abbrev argon2 : String → Bytes → Bytes
argon2 token salt = 1 ∷ salt

abbrev identify : Bytes → String
identify raw = "c1"

abbrev calls : List CodeCall
calls =
    issues ("u1" ∷ []) false (some (sevens 32)) "u1" 0 5_000_000
    ∷ spends false "0707" 1_000_000
    ∷ spends false "0707" 2_000_000
    ∷ withdraws false "c1" 3_000_000
    ∷ spends false "07" 1
    ∷ []

spent_row : CodeRow
spent_row = record {
  id = "c1";
  token_hash = argon2 "0707" (sevens 16);
  expires = 5;
  consumed = some 1;
  revoked = none;
  created_by = some "u1";
}

run_of_calls :
    run_codes encode decode argon2 identify [] calls
    ≡ (true ∷ true ∷ false ∷ false ∷ false ∷ [], spent_row ∷ [])
unfolding run_codes step_code create_code consume_code revoke_code token_hash_of insert_code
    spent_row
run_of_calls = refl

listed_codes :
    list_codes (spent_row ∷ []) false 0
    ≡ ok (record { id = "c1"; expires = 5; consumed = true; revoked = false } ∷ [])
unfolding list_codes by_expiry put_code spent_row
listed_codes = refl

run_refines_example :
    (
      (run_codes encode decode argon2 identify [] calls).0,
      codes_of (run_codes encode decode argon2 identify [] calls).1,
    )
    ≡ run_contract encode decode argon2 identify [] calls
run_refines_example = run_refines encode decode argon2 identify [] calls refl
