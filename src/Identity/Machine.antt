-- ===== src/Identity/Machine.antt =====
-- The join codes and the agents together, over any calls of the handlers.
use silent_devops.Prelude.{
  ℕ, String, Bool, true, false, Option, List, [], ◌∷◌, Result, ok, err, is_ok,
}
use silent_devops.Enrollment.{CodeRow, revoke_code, create_code}
use silent_devops.Identity.{AgentRow, revoke_row, Request, Template}
use silent_devops.Identity.Enroll.{EnrollError, Renewed, Luck, enroll, renew}

-- The calls, with what the storage does and crypto/rand draws. A code is only spent by an enrollment.
pub data FleetCall : Type 0 where
  issues_code : List String → Bool → Option (List ℕ) → String → ℕ → ℕ → FleetCall
  withdraws_code : Bool → String → ℕ → FleetCall
  enrolls : Bool → Luck → List ℕ → String → String → ℕ → FleetCall
  renews : Luck → Option (Option (List String)) → List ℕ → ℕ → FleetCall
  revokes : Bool → String → ℕ → FleetCall

pub record Admission : Type 0 where
  pub codes : List CodeRow
  pub agents : List AgentRow

abbrev pub commit {ℓ} :
    {V : Type ℓ} → List AgentRow → Result V (List AgentRow) → Bool × List AgentRow
commit agents (err why) = (false, agents)
commit agents (ok agents') = (true, agents')

abbrev pub commit_renewal :
    List AgentRow → Result EnrollError (Renewed × List AgentRow) → Bool × List AgentRow
commit_renewal agents (err why) = (false, agents)
commit_renewal agents (ok (answer, agents')) = (true, agents')

module _ (encode : List ℕ → String) (decode : String → Option (List ℕ))
    (argon2 : String → List ℕ → List ℕ) (identify : List ℕ → String)
    (parse : List ℕ → Option Request) (create : Template → List ℕ → Option (List ℕ))
    (serial_text : Option ℕ → String) where
  unfoldable pub step_fleet : Admission → FleetCall → Bool × Admission
  step_fleet s (issues_code users fails drawn creator now ttl) =
      let o = create_code encode decode argon2 identify users s.codes fails drawn creator now ttl in
      (is_ok o.0, record s { codes = o.1 })
  step_fleet s (withdraws_code fails id now) =
      let o = revoke_code s.codes fails id now in (is_ok o.0, record s { codes = o.1 })
  step_fleet s (enrolls configured luck der token hostname validity) =
      let o =
        enroll encode decode argon2 identify parse create serial_text configured s.codes s.agents
          luck der token hostname validity in
      (is_ok o.0, record { codes = (o.1).0; agents = (o.1).1 })
  step_fleet s (renews luck peer der validity) =
      let o = commit_renewal s.agents (
        renew encode decode argon2 identify parse create serial_text s.agents luck peer der
          validity) in
      (o.0, record s { agents = o.1 })
  step_fleet s (revokes fails id now) =
      let o = commit s.agents (revoke_row s.agents fails id now) in (o.0, record s { agents = o.1 })

  unfoldable pub run_fleet : Admission → List FleetCall → Admission
  run_fleet s [] = s
  run_fleet s (call ∷ calls) = run_fleet (step_fleet s call).1 calls
