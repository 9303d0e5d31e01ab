-- ===== src/Identity/Enroll.antt =====
-- The handlers `Enroll`, `Renew` and `mtlsID` of internal/server/enrollment.go.
use silent_devops.Prelude.{
  ℕ, ◌+◌, String, Bool, false, not, Option, none, some, List, [], ◌∷◌, str_eq, ◌==◌, if◌then◌else◌,
  Result, ok, err, ◌>>=◌, ◌>>◌, or_fail, map_err,
}
use silent_devops.Jobs.{to_ms}
use silent_devops.Enrollment.{CodeRow, CodeError, consume_code}
use silent_devops.Identity.{
  AgentRow, register_agent, authorize_renewal, update_certificate, Request, Template, sign_request,
}

pub data EnrollError : Type 0 where
  enrollment_unavailable request_invalid code_refused no_agent_id identity_exists : EnrollError
  mtls_required renewal_denied : EnrollError

pub record Enrolled : Type 0 where
  pub agent_id : String
  pub certificate : List ℕ
  pub expires : ℕ

pub record Renewed : Type 0 where
  pub certificate : List ℕ
  pub expires : ℕ

-- What a call of `Enroll` draws and what the storage does to its two statements. `clock n` is the n-th
-- instant that the call reads.
pub record Luck : Type 0 where
  pub clock : ℕ → ℕ
  pub agent_id : Option String
  pub serial : Option ℕ
  pub first_fails : Bool
  pub second_fails : Bool

abbrev pub day : ℕ
day = 86_400_000_000_000

abbrev pub validity_of : ℕ → ℕ
validity_of validity = if validity == 0 then day else validity

-- `mtlsID`: whether there is a peer, whether it is one of TLS, and the common names of its certificates.
unfoldable pub mtls_id : Option (Option (List String)) → Option String
mtls_id none = none
mtls_id (some none) = none
mtls_id (some (some [])) = none
mtls_id (some (some (id ∷ chain))) = if str_eq id "" then none else some id

module _ (encode : List ℕ → String) (decode : String → Option (List ℕ))
    (argon2 : String → List ℕ → List ℕ) (identify : List ℕ → String)
    (parse : List ℕ → Option Request) (create : Template → List ℕ → Option (List ℕ))
    (serial_text : Option ℕ → String) where
  abbrev pub is_signed : List ℕ → Bool
  is_signed der = elim (parse der) [ none ↦ false | some request ↦ request.signature_good ]

  -- What `Enroll` does after it has spent the code.
  unfoldable pub admit_agent :
      List AgentRow → Luck → List ℕ → String → ℕ → Result EnrollError (Enrolled × List AgentRow)
  admit_agent agents luck der hostname validity = do
    id ← or_fail luck.agent_id no_agent_id
    (pem, serial) ←
        map_err (sign_request parse create serial_text der id (luck.clock 1) validity luck.serial)
          (λ why. request_invalid)
    agents' ←
        map_err
          (register_agent agents luck.second_fails id serial hostname (luck.clock 2 + validity)
            (luck.clock 3))
          (λ why. identity_exists)
    ok (
      record { agent_id = id; certificate = pem; expires = to_ms (luck.clock 4 + validity) },
      agents',
    )

  abbrev pub keep_agents :
      List CodeRow
      → List AgentRow
      → Result EnrollError (Enrolled × List AgentRow)
      → Result EnrollError Enrolled × (List CodeRow × List AgentRow)
  keep_agents codes agents (err why) = (err why, (codes, agents))
  keep_agents codes agents (ok (answer, agents')) = (ok answer, (codes, agents'))

  abbrev pub after_code :
      List AgentRow
      → Luck
      → List ℕ
      → String
      → ℕ
      → Result CodeError (Unit {0}) × List CodeRow
      → Result EnrollError Enrolled × (List CodeRow × List AgentRow)
  after_code agents luck der hostname validity (err why, codes) =
      (err code_refused, (codes, agents))
  after_code agents luck der hostname validity (ok done, codes) =
      keep_agents codes agents (admit_agent agents luck der hostname (validity_of validity))

  -- `Enroll`
  unfoldable pub enroll :
      Bool
      → List CodeRow
      → List AgentRow
      → Luck
      → List ℕ
      → String
      → String
      → ℕ
      → Result EnrollError Enrolled × (List CodeRow × List AgentRow)
  enroll configured codes agents luck der token hostname validity =
      if not configured
      then (err enrollment_unavailable, (codes, agents))
      else if not (is_signed der)
      then (err request_invalid, (codes, agents))
      else after_code agents luck der hostname validity
          (consume_code encode decode argon2 identify codes luck.first_fails token (luck.clock 0))

  -- `Renew`
  unfoldable pub renew :
      List AgentRow
      → Luck
      → Option (Option (List String))
      → List ℕ
      → ℕ
      → Result EnrollError (Renewed × List AgentRow)
  renew agents luck peer der validity = do
    id ← or_fail (mtls_id peer) mtls_required
    map_err (authorize_renewal agents luck.first_fails id (luck.clock 0)) (λ why. renewal_denied)
    (pem, serial) ←
        map_err
          (sign_request parse create serial_text der id (luck.clock 1) (validity_of validity)
            luck.serial)
          (λ why. request_invalid)
    agents' ←
        map_err
          (update_certificate agents luck.second_fails id serial
            (luck.clock 2 + validity_of validity))
          (λ why. renewal_denied)
    ok (
      record { certificate = pem; expires = to_ms (luck.clock 3 + validity_of validity) },
      agents',
    )
