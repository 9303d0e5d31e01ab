-- ===== src/Identity/Once.antt =====
-- A join code enrolls one agent at most.
use silent_devops.Prelude.{
  ℕ, ◌+◌, ◌≤◌, String, ◌≡◌, refl, ap, inl, inr, Bool, true, false, ◌&&◌, Option, some, List, [],
  ◌∷◌, arith, str_eq, if◌then◌else◌, Bool-cases, Result-cases, pairwise, Result, ok, err, is_ok,
}
use silent_devops.Enrollment.{CodeRow, CodeError, same_code, token_hash_of, consume_code}
use silent_devops.Enrollment.Machine.{CodeCall, issues, spends, withdraws, step_code, run_codes}
use silent_devops.Enrollment.Once.{spendings, code_once}
use silent_devops.Identity.{AgentRow, Request, Template}
use silent_devops.Identity.Enroll.{Luck, validity_of, is_signed, admit_agent, after_code, enroll}
use silent_devops.Identity.Machine.{
  FleetCall, issues_code, withdraws_code, enrolls, renews, revokes, Admission, step_fleet,
}

module _ (encode : List ℕ → String) (decode : String → Option (List ℕ))
    (argon2 : String → List ℕ → List ℕ) (identify : List ℕ → String)
    (parse : List ℕ → Option Request) (create : Template → List ℕ → Option (List ℕ))
    (serial_text : Option ℕ → String) where
  -- How many of the calls enroll an agent with the token.
  unfoldable pub enrollments : String → Admission → List FleetCall → ℕ
  enrollments token s [] = 0
  enrollments token s (enrolls configured luck der t hostname validity ∷ calls) =
      let o =
        step_fleet encode decode argon2 identify parse create serial_text s
          (enrolls configured luck der t hostname validity) in
      (if str_eq t token && o.0 then 1 else 0) + enrollments token o.1 calls
  enrollments token s (call ∷ calls) =
      enrollments token (step_fleet encode decode argon2 identify parse create serial_text s call).1
        calls

  -- What the calls do to the codes.
  unfoldable code_calls : List FleetCall → List CodeCall
  code_calls [] = []
  code_calls (issues_code users fails drawn creator now ttl ∷ calls) =
      issues users fails drawn creator now ttl ∷ code_calls calls
  code_calls (withdraws_code fails id now ∷ calls) = withdraws fails id now ∷ code_calls calls
  code_calls (enrolls configured luck der t hostname validity ∷ calls) =
      let rest = code_calls calls in
      if configured && is_signed encode decode argon2 identify parse create serial_text der
      then spends luck.first_fails t (luck.clock 0) ∷ rest
      else rest
  code_calls (renews luck peer der validity ∷ calls) = code_calls calls
  code_calls (revokes fails id now ∷ calls) = code_calls calls

  after_code_lem :
      (agents : List AgentRow) (luck : Luck) (der : List ℕ) (hostname : String) (validity : ℕ)
      (o : Result CodeError (Unit {0}) × List CodeRow)
      → let answer =
          after_code encode decode argon2 identify parse create serial_text agents luck der hostname
            validity o in
        ((answer.1).0 ≡ o.1) × (is_ok answer.0 ≡ true → is_ok o.0 ≡ true)
  after_code_lem agents luck der hostname validity (err why, codes) = (refl, λ h. ground arith)
  after_code_lem agents luck der hostname validity (ok done, codes) =
      elim (Result-cases (
        admit_agent encode decode argon2 identify parse create serial_text agents luck der hostname
          (validity_of validity))) [
            | inl (why, e) ↦ (rw e refl, λ h. refl)
            | inr (o, e) ↦ (rw e refl, λ h. refl)
          ]

  -- An enrollment that gets as far as the code does to the codes what spending it does.
  enroll-codes :
      (s : Admission) (configured : Bool) (luck : Luck) (der : List ℕ) (t hostname : String)
      (validity : ℕ)
      → (configured && is_signed encode decode argon2 identify parse create serial_text der) ≡ true
      → let o =
          enroll encode decode argon2 identify parse create serial_text configured s.codes s.agents
            luck der t hostname validity in
        let c =
          consume_code encode decode argon2 identify s.codes luck.first_fails t (luck.clock 0) in
        ((o.1).0 ≡ c.1) × (is_ok o.0 ≡ true → is_ok c.0 ≡ true)
  unfolding enroll
  enroll-codes s false luck der t hostname validity good = absurd (ground arith)
  enroll-codes s true luck der t hostname validity good =
      rw good (after_code_lem s.agents luck der hostname validity _)

  -- One that does not get there is refused and keeps the codes.
  enroll-refused :
      (s : Admission) (configured : Bool) (luck : Luck) (der : List ℕ) (t hostname : String)
      (validity : ℕ)
      → (configured && is_signed encode decode argon2 identify parse create serial_text der) ≡ false
      → let o =
          enroll encode decode argon2 identify parse create serial_text configured s.codes s.agents
            luck der t hostname validity in
        ((o.1).0 ≡ s.codes) × (is_ok o.0 ≡ false)
  unfolding enroll
  enroll-refused s false luck der t hostname validity bad = (refl, refl)
  enroll-refused s true luck der t hostname validity bad = (rw bad refl, rw bad refl)

  abbrev spent_in : String → List FleetCall → List CodeRow → ℕ
  spent_in token calls rows =
      spendings encode decode argon2 identify token (code_calls calls)
        (run_codes encode decode argon2 identify rows (code_calls calls)).0

  enrollments_lem :
      (token : String) (s : Admission) (calls : List FleetCall)
      → enrollments token s calls
        ≤ spendings encode decode argon2 identify token
            (code_calls calls)
            (run_codes encode decode argon2 identify s.codes (code_calls calls)).0
  unfolding enrollments code_calls spendings run_codes step_fleet step_code
  enrollments_lem token s [] = omega arith
  enrollments_lem token s (issues_code users fails drawn creator now ttl ∷ calls) =
      enrollments_lem token _ calls
  enrollments_lem token s (withdraws_code fails id now ∷ calls) = enrollments_lem token _ calls
  enrollments_lem token s (renews luck peer der validity ∷ calls) = enrollments_lem token _ calls
  enrollments_lem token s (revokes fails id now ∷ calls) = enrollments_lem token _ calls
  enrollments_lem token s (enrolls configured luck der t hostname validity ∷ calls) =
      let call = enrolls configured luck der t hostname validity in
      let next = (step_fleet encode decode argon2 identify parse create serial_text s call).1 in
      let rest = enrollments_lem token next calls in
      elim (Bool-cases
        (configured && is_signed encode decode argon2 identify parse create serial_text der)) [
          | inr bad ↦
              let (same, refused) = enroll-refused s configured luck der t hostname validity bad in
              let moved = ap (spent_in token calls) same in
              rw (bad, refused) (ground (arith, moved))
          | inl good ↦
              let (same, spent_too) = enroll-codes s configured luck der t hostname validity good in
              let moved = ap (spent_in token calls) same in
              rw good (ground (arith, moved, spent_too))
        ]

  -- Over any calls of the handlers from a table without clashing codes, with any failures: a well-formed
  -- token enrolls at most one agent.
  pub enroll_once :
      (s : Admission) (calls : List FleetCall) (token : String) (hash : List ℕ)
      → pairwise same_code s.codes ≡ true
      → token_hash_of encode decode argon2 identify token ≡ some hash
      → enrollments token s calls ≤ 1
  enroll_once s calls token hash d found = omega (
    arith,
    enrollments_lem token s calls,
    code_once encode decode argon2 identify s.codes (code_calls calls) token hash d found,
  )
