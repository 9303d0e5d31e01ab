-- ===== src/Identity/Revoked.antt =====
-- A revoked agent stays out.
use silent_devops.Prelude.{
  ℕ, ◌+◌, String, ◌≡◌, refl, sym, ap, ◌∙◌, inl, inr, Bool, true, false, Option, some, List, [], ◌∷◌,
  arith, str_eq, str_eq_iff, Bool-cases, Result-cases, Result, ok, err, map_err-eq-ok, or_fail,
  map_err, is_ok, >>=-eq-ok,
}
use silent_devops.Enrollment.{CodeRow, CodeError}
use silent_devops.Identity.{
  AgentRow, register_agent, authorize_renewal, update_certificate, revoke_row, authorize_connection,
  Request, Template, sign_request,
}
use silent_devops.Identity.Banned.{
  banned, register-banned, change-banned, revoke-banned, banned-refused,
}
use silent_devops.Identity.Enroll.{
  EnrollError, request_invalid, no_agent_id, identity_exists, mtls_required, renewal_denied,
  Enrolled, Renewed, Luck, validity_of, mtls_id, is_signed, admit_agent, after_code, enroll, renew,
}
use silent_devops.Identity.Machine.{
  FleetCall, issues_code, withdraws_code, enrolls, renews, revokes, Admission, commit,
  commit_renewal, step_fleet, run_fleet,
}

module _ (encode : List ℕ → String) (decode : String → Option (List ℕ))
    (argon2 : String → List ℕ → List ℕ) (identify : List ℕ → String)
    (parse : List ℕ → Option Request) (create : Template → List ℕ → Option (List ℕ))
    (serial_text : Option ℕ → String) where
  admit-banned :
      (id : String) (agents : List AgentRow) (luck : Luck) (der : List ℕ) (hostname : String)
      (validity : ℕ) (o : Enrolled × List AgentRow)
      → admit_agent encode decode argon2 identify parse create serial_text agents luck der hostname
          validity
        ≡ ok o
      → banned id agents ≡ true
      → banned id o.1 ≡ true
  unfolding admit_agent
  admit-banned id agents luck der hostname validity o done h =
      let (new, _, signing) = >>=-eq-ok (or_fail luck.agent_id no_agent_id) _ done in
      let ((pem, serial), _, registering) =
        >>=-eq-ok
          (map_err
            (sign_request parse create serial_text der new (luck.clock 1) validity luck.serial)
            (λ why. request_invalid))
          _ signing in
      let (agents', registered, kept) =
        >>=-eq-ok
          (map_err
            (register_agent agents luck.second_fails new serial hostname (luck.clock 2 + validity)
              (luck.clock 3))
            (λ why. identity_exists))
          _ registering in
      let same : agents' ≡ o.1 =
        ap
          (λ (m : Result EnrollError (Enrolled × List AgentRow)). elim m [
            | err why ↦ agents'
            | ok a ↦ a.1
          ])
          kept in
      sym (ap (banned id) same)
      ∙ register-banned id agents agents' luck.second_fails new serial hostname
          (luck.clock 2 + validity) (luck.clock 3) (map_err-eq-ok _ _ registered) h

  after_code-banned :
      (id : String) (agents : List AgentRow) (luck : Luck) (der : List ℕ) (hostname : String)
      (validity : ℕ) (o : Result CodeError (Unit {0}) × List CodeRow)
      → banned id agents ≡ true
      → banned id
          (after_code encode decode argon2 identify parse create serial_text agents luck der
            hostname validity o).1.1
        ≡ true
  after_code-banned id agents luck der hostname validity (err why, codes) h = h
  after_code-banned id agents luck der hostname validity (ok done, codes) h =
      elim (Result-cases (
        admit_agent encode decode argon2 identify parse create serial_text agents luck der hostname
          (validity_of validity))) [
            | inl (why, e) ↦ rw e h
            | inr (o, e) ↦
                rw e (admit-banned id agents luck der hostname (validity_of validity) o e h)
          ]

  renewed-banned :
      (id : String) (agents : List AgentRow) (luck : Luck) (peer : Option (Option (List String)))
      (der : List ℕ) (validity : ℕ) (o : Renewed × List AgentRow)
      → renew encode decode argon2 identify parse create serial_text agents luck peer der validity
        ≡ ok o
      → banned id agents ≡ true
      → banned id o.1 ≡ true
  unfolding renew
  renewed-banned id agents luck peer der validity o done h =
      let (own, _, m) = >>=-eq-ok (or_fail (mtls_id peer) mtls_required) _ done in
      let (_, _, signing) =
        >>=-eq-ok
          (map_err (authorize_renewal agents luck.first_fails own (luck.clock 0))
            (λ why. renewal_denied))
          _ m in
      let ((pem, serial), _, updating) =
        >>=-eq-ok
          (map_err
            (sign_request parse create serial_text der own (luck.clock 1) (validity_of validity)
              luck.serial)
            (λ why. request_invalid))
          _ signing in
      let (agents', updated, kept) =
        >>=-eq-ok
          (map_err
            (update_certificate agents luck.second_fails own serial
              (luck.clock 2 + validity_of validity))
            (λ why. renewal_denied))
          _ updating in
      let same : agents' ≡ o.1 =
        ap
          (λ (m : Result EnrollError (Renewed × List AgentRow)). elim m [
            | err why ↦ agents'
            | ok a ↦ a.1
          ])
          kept in
      sym (ap (banned id) same)
      ∙ change-banned id agents agents' luck.second_fails own serial
          (luck.clock 2 + validity_of validity) (map_err-eq-ok _ _ updated) h

  renew-banned :
      (id : String) (agents : List AgentRow) (luck : Luck) (peer : Option (Option (List String)))
      (der : List ℕ) (validity : ℕ)
      → banned id agents ≡ true
      → banned id
          (commit_renewal agents (
            renew encode decode argon2 identify parse create serial_text agents luck peer der
              validity)).1
        ≡ true
  renew-banned id agents luck peer der validity h =
      elim (Result-cases (
        renew encode decode argon2 identify parse create serial_text agents luck peer der
          validity)) [
            | inl (why, e) ↦ rw e h
            | inr (o, e) ↦ rw e (renewed-banned id agents luck peer der validity o e h)
          ]

  step-banned :
      (id : String) (s : Admission) (call : FleetCall)
      → banned id s.agents ≡ true
      → banned id
          (step_fleet encode decode argon2 identify parse create serial_text s call).1.agents
        ≡ true
  unfolding step_fleet enroll
  step-banned id s (issues_code users fails drawn creator now ttl) h = h
  step-banned id s (withdraws_code fails other now) h = h
  step-banned id s (renews luck peer der validity) h =
      renew-banned id s.agents luck peer der validity h
  step-banned id s (revokes fails other now) h =
      elim (Result-cases (revoke_row s.agents fails other now)) [
        | inl (why, e) ↦ rw e h
        | inr (agents', e) ↦ rw e ((revoke-banned id s.agents agents' fails other now e).1 h)
      ]
  step-banned id s (enrolls false luck der token hostname validity) h = h
  step-banned id s (enrolls true luck der token hostname validity) h =
      elim (Bool-cases (is_signed encode decode argon2 identify parse create serial_text der)) [
        | inr bad ↦ rw bad h
        | inl good ↦ rw good (after_code-banned id s.agents luck der hostname validity _ h)
      ]

  revokes-banned :
      (s : Admission) (id : String) (fails : Bool) (now : ℕ)
      → let o =
          step_fleet encode decode argon2 identify parse create serial_text s
            (revokes fails id now) in
        o.0 ≡ true → banned id o.1.agents ≡ true
  unfolding step_fleet
  revokes-banned s id fails now done = elim (Result-cases (revoke_row s.agents fails id now)) [
    | inl (why, e) ↦
        let refused = ap (λ m. (commit s.agents m).0) e in absurd (ground (arith, refused))
    | inr (agents', e) ↦
        rw e
          ((revoke-banned id s.agents agents' fails id now e).0 (ground (arith, str_eq_iff id id)))
  ]

  no_renewal :
      (id : String) (agents : List AgentRow) (luck : Luck) (chain : List String) (der : List ℕ)
      (validity : ℕ)
      → banned id agents ≡ true
      → is_ok (
          renew encode decode argon2 identify parse create serial_text agents luck
            (some (some (id ∷ chain)))
            der
            validity)
        ≡ false
  unfolding renew mtls_id
  no_renewal id agents luck chain der validity out = elim (Bool-cases (str_eq id "")) [
    | inl unnamed ↦ rw unnamed refl
    | inr named ↦
        elim (Result-cases (authorize_renewal agents luck.first_fails id (luck.clock 0))) [
          | inl (why, e) ↦ rw (named, e) refl
          | inr (done, e) ↦
              let refused = (banned-refused id agents luck.first_fails "" (luck.clock 0) out).1 in
              absurd (ground (arith, ap is_ok e, refused))
        ]
  ]

  run-banned :
      (id : String) (s : Admission) (calls : List FleetCall)
      → banned id s.agents ≡ true
      → banned id (run_fleet encode decode argon2 identify parse create serial_text s calls).agents
        ≡ true
  unfolding run_fleet
  run-banned id s [] h = h
  run-banned id s (call ∷ calls) h =
      run-banned id (step_fleet encode decode argon2 identify parse create serial_text s call).1
        calls (step-banned id s call h)

  -- Once the UPDATE of `RevokeAgent` has counted the agent, then after any calls of the handlers, with
  -- any failures, no connection of the agent is authorized under any serial, and no renewal is granted
  -- to a TLS peer of its name.
  pub revoked_for_good :
      (s : Admission) (id : String) (fails : Bool) (now : ℕ) (calls : List FleetCall)
      → (step_fleet encode decode argon2 identify parse create serial_text s
          (revokes fails id now)).0
        ≡ true
      → let agents =
          (run_fleet encode decode argon2 identify parse create serial_text s
            (revokes fails id now ∷ calls)).agents in
        ((unread : Bool) (serial : String) (later : ℕ)
          → is_ok (authorize_connection agents unread id serial later) ≡ false)
        × ((luck : Luck) (chain : List String) (der : List ℕ) (validity : ℕ)
            → is_ok (
                renew encode decode argon2 identify parse create serial_text agents luck
                  (some (some (id ∷ chain)))
                  der
                  validity)
              ≡ false)
  unfolding run_fleet
  revoked_for_good s id fails now calls done =
      let after =
        step_fleet encode decode argon2 identify parse create serial_text s
          (revokes fails id now) in
      let out = run-banned id after.1 calls (revokes-banned s id fails now done) in
      let agents =
        (run_fleet encode decode argon2 identify parse create serial_text after.1 calls).agents in
      (
        λ unread serial later. (banned-refused id agents unread serial later out).0,
        λ luck chain der validity. no_renewal id agents luck chain der validity out,
      )
