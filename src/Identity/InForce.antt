-- ===== src/Identity/InForce.antt =====
-- The certificate that an enrollment or a renewal issues is the one in force.
use silent_devops.Prelude.{
  ℕ, ◌+◌, String, ◌≡◌, refl, sym, ap, ◌∙◌, inl, inr, Bool, true, false, not, ◌&&◌, ◌||◌, Option,
  none, some, List, [], ◌∷◌, arith, str_eq, str_eq_refl, ltb, leb, ◌==◌, if◌then◌else◌, Bool-cases,
  Result-cases, or_fail-eq-ok, affected, update, exists, Result, ok, err, map_err-eq-ok, fail_if,
  or_fail, map_err, is_ok, >>=-eq-ok,
}
use silent_devops.Jobs.{to_ms}
use silent_devops.Enrollment.{CodeRow, CodeError, is_null, consume_code}
use silent_devops.Identity.{
  AgentRow, serial_required, storage_failed, agent_unknown, agent_revoked, agent_inactive,
  find_agent, same_agent, new_agent, register_agent, authorize_renewal, is_active, new_certificate,
  takes_serial, update_certificate, authorize_connection, Request, request_unreadable,
  signature_bad, identity_required, identity_chosen, not_created, Template, sign_request,
}
use silent_devops.Identity.Enroll.{
  EnrollError, request_invalid, no_agent_id, identity_exists, mtls_required, renewal_denied,
  Enrolled, Renewed, Luck, validity_of, mtls_id, is_signed, admit_agent, keep_agents, after_code,
  enroll, renew,
}

abbrev value_or {ℓ κ} : {F : Type ℓ} {V : Type κ} → V → Result F V → V
value_or other (err why) = other
value_or other (ok v) = v

find-update :
    (id : String) (f : AgentRow → AgentRow) (rows : List AgentRow) (row : AgentRow)
    → find_agent rows id ≡ some row
    → is_null row.revoked ≡ true
    → ((x : AgentRow) → (f x).id ≡ x.id)
    → find_agent (update (is_active id) f rows) id ≡ some (f row)
find-update id f [] row found open_row keeps = cc
find-update id f (x ∷ rows) row found open_row keeps = elim (Bool-cases (str_eq x.id id)) [
  | inl own ↦
      let first : some x ≡ some row =
        sym (ap (λ b. if b then some x else find_agent rows id) own) ∙ found in
      let same : x ≡ row = cc in
      let hit : is_null x.revoked ≡ true =
        ap (λ (r : AgentRow). is_null r.revoked) same ∙ open_row in
      let still : str_eq (f x).id id ≡ true = ap (λ i. str_eq i id) (keeps x) ∙ own in
      rw (own, hit, still) (ap (λ r. some (f r)) same)
  | inr other ↦
      let rest =
        find-update id f rows row
          (sym (ap (λ b. if b then some x else find_agent rows id) other) ∙ found) open_row keeps in
      rw (other, other) rest
]

-- A row that is found says who is authorized.
in_force :
    (rows : List AgentRow) (id : String) (row : AgentRow) (serial : String) (later : ℕ)
    → find_agent rows id ≡ some row
    → row.revoked ≡ none
    → is_ok (authorize_connection rows false id serial later)
      ≡ (str_eq row.serial serial && leb (to_ms later) row.expires)
unfolding authorize_connection
in_force rows id row serial later found open_row = elim (Bool-cases (str_eq row.serial serial)) [
  | inl own ↦ elim (Bool-cases (ltb row.expires (to_ms later))) [
    | inl over ↦
        let late : leb (to_ms later) row.expires ≡ false = ground arith in
        rw (found, authorize_connection) (rw (open_row, own, over, late) refl)
    | inr live ↦
        let early : leb (to_ms later) row.expires ≡ true = ground arith in
        rw (found, authorize_connection) (rw (open_row, own, live, early) refl)
  ]
  | inr other ↦ rw (found, authorize_connection) (rw (open_row, other) refl)
]

fresh-unknown :
    (row : AgentRow) (rows : List AgentRow)
    → exists (same_agent row) rows ≡ false
    → find_agent rows row.id ≡ none
fresh-unknown row [] h = refl
fresh-unknown row (x ∷ rows) h =
    let other : str_eq x.id row.id ≡ false = ground arith in
    rw other (fresh-unknown row rows (ground arith))

is_null-none : (t : Option ℕ) → is_null t ≡ true → t ≡ none
is_null-none none h = refl
is_null-none (some t) h = absurd (ground arith)

past_guard :
    (b : Bool) (x y : Result EnrollError Enrolled × (List CodeRow × List AgentRow)) (e : Enrolled)
    → is_ok x.0 ≡ false
    → (if not b then x else y).0 ≡ ok e
    → ((if not b then x else y) ≡ y) × (y.0 ≡ ok e)
past_guard true x y e bad done = (refl, done)
past_guard false x y e bad done = absurd (ground (arith, ap is_ok done))

module _ (encode : List ℕ → String) (decode : String → Option (List ℕ))
    (argon2 : String → List ℕ → List ℕ) (identify : List ℕ → String)
    (parse : List ℕ → Option Request) (create : Template → List ℕ → Option (List ℕ))
    (serial_text : Option ℕ → String) where
  signed-serial :
      (der : List ℕ) (id : String) (now validity : ℕ) (drawn : Option ℕ) (o : List ℕ × String)
      → sign_request parse create serial_text der id now validity drawn ≡ ok o
      → o.1 ≡ serial_text drawn
  unfolding sign_request
  signed-serial der id now validity drawn o done =
      let (request, _, a) = >>=-eq-ok (or_fail (parse der) request_unreadable) _ done in
      let (_, _, b) = >>=-eq-ok (fail_if (not request.signature_good) signature_bad) _ a in
      let (_, _, c) = >>=-eq-ok (fail_if (str_eq id "") identity_required) _ b in
      let (_, _, d) =
        >>=-eq-ok (fail_if (not (str_eq request.common_name "")) identity_chosen) _ c in
      let (pem, _, kept) = >>=-eq-ok (or_fail (create _ request.public_key) not_created) _ d in
      let same : (pem, serial_text drawn) ≡ o = ap (value_or (pem, "")) kept in
      sym (ap (λ (r : List ℕ × String). r.1) same)

  admit-InForce :
      (agents : List AgentRow) (luck : Luck) (der : List ℕ) (hostname : String) (validity : ℕ)
      (o : Enrolled × List AgentRow)
      → admit_agent encode decode argon2 identify parse create serial_text agents luck der hostname
          validity
        ≡ ok o
      → (find_agent agents o.0.agent_id ≡ none)
        × ((serial : String) (later : ℕ)
            → is_ok (authorize_connection o.1 false o.0.agent_id serial later) ≡ (
                str_eq (serial_text luck.serial) serial
                && leb (to_ms later) (to_ms (luck.clock 2 + validity))))
  unfolding admit_agent register_agent
  admit-InForce agents luck der hostname validity o done =
      let (new, _, signing) = >>=-eq-ok (or_fail luck.agent_id no_agent_id) _ done in
      let ((pem, serial), signed, registering) =
        >>=-eq-ok
          (map_err
            (sign_request parse create serial_text der new (luck.clock 1) validity luck.serial)
            (λ why. request_invalid))
          _ signing in
      let (agents', registered, final) =
        >>=-eq-ok
          (map_err
            (register_agent agents luck.second_fails new serial hostname (luck.clock 2 + validity)
              (luck.clock 3))
            (λ why. identity_exists))
          _ registering in
      let row =
        new_agent new serial hostname (to_ms (luck.clock 2 + validity)) (to_ms (luck.clock 3)) in
      let (_, _, b) =
        >>=-eq-ok (fail_if (str_eq new "" || str_eq serial "") serial_required) _
          (map_err-eq-ok _ _ registered) in
      let (_, fine, kept) =
        >>=-eq-ok (fail_if (luck.second_fails || exists (same_agent row) agents) storage_failed) _
          b in
      let table : row ∷ agents ≡ agents' = ap (value_or agents) kept in
      let drawn =
        signed-serial der new (luck.clock 1) validity luck.serial (pem, serial)
          (map_err-eq-ok _ _ signed) in
      let unknown = fresh-unknown row agents (ground arith) in
      let found : find_agent (row ∷ agents) new ≡ some row = rw (str_eq_refl new) refl in
      let named : new ≡ o.0.agent_id = ap (λ m. (value_or o m).0.agent_id) final in
      let left : row ∷ agents ≡ o.1 = table ∙ ap (λ m. (value_or o m).1) final in
      (
        sym (ap (find_agent agents) named) ∙ unknown,
        λ asked later.
            sym (ap (λ rows. is_ok (authorize_connection rows false o.0.agent_id asked later)) left)
            ∙ sym (ap (λ i. is_ok (authorize_connection (row ∷ agents) false i asked later)) named)
            ∙ in_force (row ∷ agents) new row asked later found refl
            ∙ ap (λ i. str_eq i asked && leb (to_ms later) row.expires) drawn,
      )

  after-InForce :
      (agents : List AgentRow) (luck : Luck) (der : List ℕ) (hostname : String) (validity : ℕ)
      (c : Result CodeError (Unit {0}) × List CodeRow) (e : Enrolled)
      → let o =
          after_code encode decode argon2 identify parse create serial_text agents luck der hostname
            validity c in
        o.0 ≡ ok e
        → (is_ok c.0 ≡ true)
          × (find_agent agents e.agent_id ≡ none)
          × ((serial : String) (later : ℕ)
              → is_ok (authorize_connection o.1.1 false e.agent_id serial later) ≡ (
                  str_eq (serial_text luck.serial) serial
                  && leb (to_ms later) (to_ms (luck.clock 2 + validity_of validity))))
  after-InForce agents luck der hostname validity (err why, codes) e done = absurd cc
  after-InForce agents luck der hostname validity (ok paid, codes) e done =
      let m =
        admit_agent encode decode argon2 identify parse create serial_text agents luck der hostname
          (validity_of validity) in
      elim (Result-cases m) [
        | inl (why, bad) ↦ absurd (
            ground (
              arith,
              sym (
                    ap
                      (λ m.
                        is_ok
                          (keep_agents encode decode argon2 identify parse create serial_text codes
                            agents m).0)
                      bad)
                  ∙ ap is_ok done,
            ))
        | inr (o, good) ↦
            let (unknown, live) =
              admit-InForce agents luck der hostname (validity_of validity) o good in
            let named : o.0 ≡ e =
              ap
                (λ m.
                  value_or e
                    (keep_agents encode decode argon2 identify parse create serial_text codes agents
                      m).0)
                (sym good)
              ∙ ap (value_or e) done in
            (
              refl,
              ap (λ (x : Enrolled). find_agent agents x.agent_id) (sym named) ∙ unknown,
              λ serial later. rw good (
                  sym (
                    ap
                      (λ (x : Enrolled).
                        is_ok (authorize_connection o.1 false x.agent_id serial later))
                      named)
                  ∙ live serial later),
            )
      ]

  -- When `Enroll` succeeds: the code was spent, the agent was not in the table, and from then on exactly
  -- its new serial is authorized, up to the last millisecond of the validity (a day where none is set).
  pub enroll_admits :
      (codes : List CodeRow) (agents : List AgentRow) (configured : Bool) (luck : Luck)
      (der : List ℕ) (token hostname : String) (validity : ℕ) (e : Enrolled)
      → let o =
          enroll encode decode argon2 identify parse create serial_text configured codes agents luck
            der token hostname validity in
        o.0 ≡ ok e
        → (is_ok
              (consume_code encode decode argon2 identify codes luck.first_fails token
                (luck.clock 0)).0
            ≡ true)
          × (find_agent agents e.agent_id ≡ none)
          × ((serial : String) (later : ℕ)
              → is_ok (authorize_connection o.1.1 false e.agent_id serial later) ≡ (
                  str_eq (serial_text luck.serial) serial
                  && leb (to_ms later) (to_ms (luck.clock 2 + validity_of validity))))
  unfolding enroll
  enroll_admits codes agents false luck der token hostname validity e done = absurd cc
  enroll_admits codes agents true luck der token hostname validity e done =
      let spent =
        consume_code encode decode argon2 identify codes luck.first_fails token (luck.clock 0) in
      let good = is_signed encode decode argon2 identify parse create serial_text der in
      let (same, done') =
        past_guard good (err request_invalid, (codes, agents))
          (after_code encode decode argon2 identify parse create serial_text agents luck der
            hostname validity spent)
          e refl done in
      let (paid, unknown, live) = after-InForce agents luck der hostname validity spent e done' in
      (
        paid,
        unknown,
        λ serial later.
            ap (λ o. is_ok (authorize_connection o.1.1 false e.agent_id serial later)) same
            ∙ live serial later,
      )

  -- When `Renew` succeeds: from then on exactly the new serial of the TLS peer's agent is authorized, up
  -- to the last millisecond of the validity; the serial before it is refused, unless it is drawn again.
  pub renew_replaces :
      (agents : List AgentRow) (luck : Luck) (peer : Option (Option (List String))) (der : List ℕ)
      (validity : ℕ) (id : String) (o : Renewed × List AgentRow)
      → mtls_id peer ≡ some id
      → renew encode decode argon2 identify parse create serial_text agents luck peer der validity
        ≡ ok o
      → (serial : String) (later : ℕ)
      → is_ok (authorize_connection o.1 false id serial later) ≡ (
          str_eq (serial_text luck.serial) serial
          && leb (to_ms later) (to_ms (luck.clock 2 + validity_of validity)))
  unfolding renew authorize_renewal update_certificate
  renew_replaces agents luck peer der validity id o who done serial later =
      let (own, is_peer, m) = >>=-eq-ok (or_fail (mtls_id peer) mtls_required) _ done in
      let me : id ≡ own =
        ap (value_or id) (sym (ap (λ p. or_fail p mtls_required) who) ∙ is_peer) in
      let (_, allowed, signing) =
        >>=-eq-ok
          (map_err (authorize_renewal agents luck.first_fails own (luck.clock 0))
            (λ why. renewal_denied))
          _ m in
      let ((pem, new), signed, updating) =
        >>=-eq-ok
          (map_err
            (sign_request parse create serial_text der own (luck.clock 1) (validity_of validity)
              luck.serial)
            (λ why. request_invalid))
          _ signing in
      let (agents', updated, final) =
        >>=-eq-ok
          (map_err
            (update_certificate agents luck.second_fails own new
              (luck.clock 2 + validity_of validity))
            (λ why. renewal_denied))
          _ updating in
      let (_, _, b) =
        >>=-eq-ok (fail_if luck.first_fails storage_failed) _ (map_err-eq-ok _ _ allowed) in
      let (row, looked, c) = >>=-eq-ok (or_fail (find_agent agents own) agent_unknown) _ b in
      let (_, active, d) = >>=-eq-ok (fail_if (not (is_null row.revoked)) agent_revoked) _ c in
      let open_row : is_null row.revoked ≡ true = ground arith in
      let f = new_certificate new (to_ms (luck.clock 2 + validity_of validity)) in
      let hit = affected (is_active own) agents in
      let (_, fine, after) =
        >>=-eq-ok
          (fail_if (luck.second_fails || (ltb 0 hit && exists (takes_serial own new) agents))
            storage_failed)
          _ (map_err-eq-ok _ _ updated) in
      let (_, one, kept) = >>=-eq-ok (fail_if (not (hit == 1)) agent_inactive) _ after in
      let table : update (is_active own) f agents ≡ o.1 =
        ap (value_or agents) kept ∙ ap (λ m. (value_or o m).1) final in
      let found =
        find-update own f agents row (or_fail-eq-ok _ agent_unknown looked) open_row (λ x. refl) in
      let drawn =
        signed-serial der own (luck.clock 1) (validity_of validity) luck.serial (pem, new)
          (map_err-eq-ok _ _ signed) in
      sym (ap (λ rows. is_ok (authorize_connection rows false id serial later)) table)
      ∙ ap
          (λ i. is_ok (authorize_connection (update (is_active own) f agents) false i serial later))
          me
      ∙ in_force (update (is_active own) f agents) own (f row) serial later found
          (is_null-none row.revoked open_row)
      ∙ ap (λ i. str_eq i serial && leb (to_ms later) (to_ms (luck.clock 2 + validity_of validity)))
          drawn
