-- ===== src/Identity/Tests.antt =====
-- Runs of the handlers, and the theorems about them at concrete inputs.
use silent_devops.Prelude.{
  ℕ, zero, suc, ◌+◌, ◌≤◌, String, ◌≡◌, refl, Bool, true, false, ◌&&◌, Option, none, some, List, [],
  ◌∷◌, str_eq, leb, ◌==◌, if◌then◌else◌, is_ok,
}
use silent_devops.Jobs.{to_ms}
use silent_devops.Enrollment.{CodeRow, token_hash_of, consume_code}
use silent_devops.Identity.{
  AgentRow, find_agent, new_agent, register_agent, authorize_renewal, update_certificate,
  revoke_row, authorize_connection, Request, Template, sign_request,
}
use silent_devops.Identity.Enroll.{Enrolled, Luck, day, mtls_id, admit_agent, enroll, renew}
use silent_devops.Identity.Machine.{FleetCall, enrolls, renews, revokes, step_fleet, run_fleet}
use silent_devops.Identity.Once.{enrollments, enroll_once}
use silent_devops.Identity.Revoked.{revoked_for_good}
use silent_devops.Identity.InForce.{enroll_admits, renew_replaces}

abbrev sevens : ℕ → List ℕ
sevens zero = []
sevens (suc n) = 7 ∷ sevens n

abbrev encode : List ℕ → String
encode raw = "0707"

abbrev decode : String → Option (List ℕ)
decode token = if str_eq token "0707" then some (sevens 32) else none

abbrev argon2 : String → List ℕ → List ℕ
argon2 token salt = 1 ∷ salt

abbrev identify : List ℕ → String
identify raw = "c1"

abbrev parse : List ℕ → Option Request
parse der = some (record { signature_good = true; common_name = ""; public_key = der })

abbrev create : Template → List ℕ → Option (List ℕ)
create template key = elim template.serial [ none ↦ none | some serial ↦ some (serial ∷ key) ]

abbrev serial_text : Option ℕ → String
serial_text drawn = elim drawn [ none ↦ "none" | some serial ↦ if serial == 5 then "5" else "6" ]

abbrev luck : Luck
luck = record {
  clock = λ n. n;
  agent_id = some "a1";
  serial = some 5;
  first_fails = false;
  second_fails = false;
}

abbrev later_luck : Luck
later_luck = record luck { serial = some 6 }

abbrev peer : Option (Option (List String))
peer = some (some ("a1" ∷ []))

code : CodeRow
code = record {
  id = "c1";
  token_hash = argon2 "0707" (sevens 16);
  expires = 5;
  consumed = none;
  revoked = none;
  created_by = none;
}

agent : AgentRow
agent = new_agent "a1" "5" "host" 86_400_000 0

abbrev calls : List FleetCall
calls =
    enrolls true luck (9 ∷ []) "0707" "host" 0
    ∷ enrolls true later_luck (9 ∷ []) "0707" "host" 0
    ∷ renews later_luck peer (9 ∷ []) 0
    ∷ revokes false "a1" 7_000_000
    ∷ renews luck peer (9 ∷ []) 0
    ∷ []

run_of_calls :
    (run_fleet encode decode argon2 identify parse create serial_text
      (record { codes = code ∷ []; agents = [] })
      calls).agents
    ≡ record agent { serial = "6"; revoked = some 7 } ∷ []
unfolding run_fleet step_fleet enroll renew consume_code token_hash_of admit_agent register_agent
    sign_request mtls_id authorize_renewal update_certificate revoke_row code agent
run_of_calls = refl

enroll_once_example :
    enrollments encode decode argon2 identify parse create serial_text "0707"
      (record { codes = code ∷ []; agents = [] })
      calls
    ≤ 1
enroll_once_example =
    enroll_once encode decode argon2 identify parse create serial_text
      (record { codes = code ∷ []; agents = [] }) calls "0707" (argon2 "0707" (sevens 16)) refl
      (unfold token_hash_of in refl)

revoked_for_good_example :
    let agents =
      (run_fleet encode decode argon2 identify parse create serial_text
        (record { codes = code ∷ []; agents = agent ∷ [] })
        (revokes false "a1" 7_000_000 ∷ calls)).agents in
    ((unread : Bool) (serial : String) (later : ℕ)
      → is_ok (authorize_connection agents unread "a1" serial later) ≡ false)
    × ((luck : Luck) (chain : List String) (der : List ℕ) (validity : ℕ)
        → is_ok (
            renew encode decode argon2 identify parse create serial_text agents luck
              (some (some ("a1" ∷ chain)))
              der
              validity)
          ≡ false)
revoked_for_good_example =
    revoked_for_good encode decode argon2 identify parse create serial_text
      (record { codes = code ∷ []; agents = agent ∷ [] }) "a1" false 7_000_000 calls
      (unfold step_fleet revoke_row agent in refl)

abbrev answer : Enrolled
answer = record { agent_id = "a1"; certificate = 5 ∷ 9 ∷ []; expires = 86_400_000 }

enroll_admits_example :
    let o =
      enroll encode decode argon2 identify parse create serial_text true
        (code ∷ [])
        []
        luck
        (9 ∷ [])
        "0707"
        "host"
        0 in
    (is_ok (consume_code encode decode argon2 identify (code ∷ []) false "0707" 0).0 ≡ true)
    × (find_agent [] "a1" ≡ none)
    × ((serial : String) (later : ℕ)
        → is_ok (authorize_connection o.1.1 false "a1" serial later)
          ≡ (str_eq "5" serial && leb (to_ms later) 86_400_000))
enroll_admits_example =
    enroll_admits encode decode argon2 identify parse create serial_text (code ∷ []) [] true luck
      (9 ∷ []) "0707" "host" 0 answer
      (unfold enroll consume_code token_hash_of admit_agent register_agent sign_request code in
        refl)

renew_replaces_example :
    is_ok (authorize_connection (record agent { serial = "6" } ∷ []) false "a1" "5" 3)
    ≡ (str_eq "6" "5" && leb (to_ms 3) (to_ms (2 + day)))
renew_replaces_example =
    renew_replaces encode decode argon2 identify parse create serial_text (agent ∷ []) later_luck
      peer (9 ∷ []) 0 "a1"
      (
        record { certificate = 6 ∷ 9 ∷ []; expires = 86_400_000 },
        record agent { serial = "6" } ∷ [],
      )
      (unfold mtls_id in refl)
      (unfold renew mtls_id authorize_renewal sign_request update_certificate agent in refl) "5" 3
