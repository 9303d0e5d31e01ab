-- ===== src/Identity/Banned.antt =====
-- The rows of revoked agents, under each statement on the table `agents`.
use silent_devops.Prelude.{
  ℕ, String, ◌≡◌, refl, sym, ap, ◌∙◌, inl, inr, Bool, true, false, not, ◌&&◌, ◌||◌, List, [], ◌∷◌,
  arith, str_eq, str_eq_iff, ltb, ◌==◌, if◌then◌else◌, Bool-cases, affected, update, exists, ok,
  fail_if, is_ok, >>=-eq-ok,
}
use silent_devops.Jobs.{to_ms}
use silent_devops.Enrollment.{is_null}
use silent_devops.Identity.{
  AgentRow, serial_required, storage_failed, agent_inactive, same_agent, new_agent, register_agent,
  authorize_renewal, is_active, new_certificate, takes_serial, update_certificate, set_revoked,
  revoke_row, authorize_connection,
}

abbrev pub banned : String → List AgentRow → Bool
banned id [] = false
banned id (row ∷ rows) =
    let rest = banned id rows in if str_eq row.id id then not (is_null row.revoked) else rest

pub update-banned :
    (id other : String) (f : AgentRow → AgentRow) (rows : List AgentRow)
    → ((row : AgentRow) → (f row).id ≡ row.id)
    → banned id rows ≡ true
    → banned id (update (is_active other) f rows) ≡ true
update-banned id other f [] keeps h = ground arith
update-banned id other f (row ∷ rows) keeps h = elim (Bool-cases (str_eq row.id id)) [
  | inl own ↦
      let old : is_null row.revoked ≡ false = ground arith in
      let still : is_active other row ≡ false = ground arith in rw (still, own, old) refl
  | inr foreign ↦
      let rest = update-banned id other f rows keeps (ground arith) in
      elim (Bool-cases (is_active other row)) [
        | inl hit ↦ rw (hit, keeps row, foreign) rest
        | inr miss ↦ rw (miss, foreign) rest
      ]
]

-- The UPDATE of `RevokeAgent`, when it counts a row.
update-bans :
    (id : String) (now : ℕ) (rows : List AgentRow)
    → ltb 0 (affected (is_active id) rows) ≡ true
    → banned id (update (is_active id) (set_revoked now) rows) ≡ true
update-bans id now [] h = ground arith
update-bans id now (row ∷ rows) h = elim (Bool-cases (is_active id row)) [
  | inl hit ↦ let own : str_eq row.id id ≡ true = ground arith in rw (hit, own) refl
  | inr miss ↦ let rest = update-bans id now rows (ground arith) in rw miss (ground arith)
]

banned-present :
    (id : String) (row : AgentRow) (rows : List AgentRow)
    → banned id rows ≡ true
    → row.id ≡ id
    → exists (same_agent row) rows ≡ true
banned-present id row [] h same = absurd (ground arith)
banned-present id row (x ∷ rows) h same = elim (Bool-cases (str_eq x.id id)) [
  | inl own ↦
      let clash : str_eq x.id row.id ≡ true =
        ground (arith, str_eq_iff x.id row.id, str_eq_iff x.id id, same) in
      ground arith
  | inr other ↦ let rest = banned-present id row rows (ground arith) same in ground arith
]

pub register-banned :
    (id : String) (agents agents' : List AgentRow) (fails : Bool) (new serial hostname : String)
    (expires created : ℕ)
    → register_agent agents fails new serial hostname expires created ≡ ok agents'
    → banned id agents ≡ true
    → banned id agents' ≡ true
unfolding register_agent
register-banned id agents agents' fails new serial hostname expires created done h =
    let row = new_agent new serial hostname (to_ms expires) (to_ms created) in
    let (_, _, after) =
      >>=-eq-ok (fail_if (str_eq new "" || str_eq serial "") serial_required) _ done in
    let (_, fresh, kept) =
      >>=-eq-ok (fail_if (fails || exists (same_agent row) agents) storage_failed) _ after in
    let same : row ∷ agents ≡ agents' = cc in
    let bans : banned id (row ∷ agents) ≡ true = elim (Bool-cases (str_eq new id)) [
      | inl own ↦
          let present = banned-present id row agents h (ground (arith, str_eq_iff new id)) in
          absurd (ground arith)
      | inr other ↦ rw other h
    ] in
    sym (ap (banned id) same) ∙ bans

pub change-banned :
    (id : String) (agents agents' : List AgentRow) (fails : Bool) (other serial : String)
    (expires : ℕ)
    → update_certificate agents fails other serial expires ≡ ok agents'
    → banned id agents ≡ true
    → banned id agents' ≡ true
unfolding update_certificate
change-banned id agents agents' fails other serial expires done h =
    let hit = affected (is_active other) agents in
    let (_, _, after) =
      >>=-eq-ok
        (fail_if (fails || (ltb 0 hit && exists (takes_serial other serial) agents)) storage_failed)
        _ done in
    let (_, _, kept) = >>=-eq-ok (fail_if (not (hit == 1)) agent_inactive) _ after in
    let same : update (is_active other) (new_certificate serial (to_ms expires)) agents ≡ agents' =
      cc in
    sym (ap (banned id) same)
    ∙ update-banned id other (new_certificate serial (to_ms expires)) agents (λ row. refl) h

pub revoke-banned :
    (id : String) (agents agents' : List AgentRow) (fails : Bool) (other : String) (now : ℕ)
    → revoke_row agents fails other now ≡ ok agents'
    → (str_eq other id ≡ true → banned id agents' ≡ true)
      × (banned id agents ≡ true → banned id agents' ≡ true)
unfolding revoke_row
revoke-banned id agents agents' fails other now done =
    let (_, _, after) = >>=-eq-ok (fail_if fails storage_failed) _ done in
    let (_, one, kept) =
      >>=-eq-ok (fail_if (not (affected (is_active other) agents == 1)) agent_inactive) _ after in
    let same : update (is_active other) (set_revoked (to_ms now)) agents ≡ agents' = cc in
    (
      λ own.
          let name : other ≡ id = ground (arith, str_eq_iff other id) in
          sym (ap (λ i. banned i agents') name)
          ∙ sym (ap (banned other) same)
          ∙ update-bans other (to_ms now) agents (ground (arith, one)),
      λ h.
          sym (ap (banned id) same)
          ∙ update-banned id other (set_revoked (to_ms now)) agents (λ row. refl) h,
    )

-- What the table says of a banned agent.
pub banned-refused :
    (id : String) (agents : List AgentRow) (fails : Bool) (serial : String) (now : ℕ)
    → banned id agents ≡ true
    → (is_ok (authorize_connection agents fails id serial now) ≡ false)
      × (is_ok (authorize_renewal agents fails id now) ≡ false)
unfolding authorize_connection authorize_renewal
banned-refused id [] fails serial now h = absurd (ground arith)
banned-refused id (row ∷ rows) true serial now h = (refl, refl)
banned-refused id (row ∷ rows) false serial now h = elim (Bool-cases (str_eq row.id id)) [
  | inl own ↦
      let gone : is_null row.revoked ≡ false = ground arith in
      (rw (own, gone) refl, rw (own, gone) refl)
  | inr other ↦
      let (a, b) = banned-refused id rows false serial now (ground arith) in
      (rw other a, rw other b)
]
