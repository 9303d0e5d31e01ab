-- ===== src/Identity.antt =====
-- Identity: the certificates of agents: `IdentityRegistry` of internal/pki/identity.go over the table
-- `agents` of internal/store/migrations, and `SignAgentCSR` of internal/pki/pki.go. What crypto/x509
-- does to a request and a certificate is an argument.
pub mod Enroll
pub mod Machine
pub mod Banned
mod Once
mod Revoked
mod InForce
mod Tests
use silent_devops.Prelude.{
  ℕ, ◌+◌, ◌-◌, String, Bool, not, ◌&&◌, ◌||◌, Option, none, some, List, [], ◌∷◌, str_eq, ltb, ◌==◌,
  if◌then◌else◌, affected, update, exists, Result, ok, ◌>>=◌, ◌>>◌, fail_if, or_fail,
}
use silent_devops.Jobs.{to_ms}
use silent_devops.Enrollment.{is_null}

-- A row of `agents`. Instants are milliseconds; `revoked` is NULL at first.
pub record AgentRow : Type 0 where
  pub id : String
  pub serial : String
  pub expires : ℕ
  pub revoked : Option ℕ
  pub hostname : String
  pub created : ℕ

pub data IdentityError : Type 0 where
  serial_required storage_failed agent_unknown agent_revoked certificate_expired : IdentityError
  agent_inactive unauthorized : IdentityError

abbrev pub find_agent : List AgentRow → String → Option AgentRow
find_agent [] id = none
find_agent (row ∷ rows) id =
    let rest = find_agent rows id in if str_eq row.id id then some row else rest

-- The primary key and the unique serial.
abbrev pub same_agent : AgentRow → AgentRow → Bool
same_agent new old = str_eq old.id new.id || str_eq old.serial new.serial

abbrev pub new_agent : String → String → String → ℕ → ℕ → AgentRow
new_agent id serial hostname expires created = record {
  id = id;
  serial = serial;
  expires = expires;
  revoked = none;
  hostname = hostname;
  created = created;
}

-- `RegisterWithMetadata`
unfoldable pub register_agent :
    List AgentRow → Bool → String → String → String → ℕ → ℕ → Result IdentityError (List AgentRow)
register_agent rows fails id serial hostname expires created = do
  fail_if (str_eq id "" || str_eq serial "") serial_required
  let row = new_agent id serial hostname (to_ms expires) (to_ms created)
  fail_if (fails || exists (same_agent row) rows) storage_failed
  ok (row ∷ rows)

-- `AuthorizeRenewal`
unfoldable pub authorize_renewal :
    List AgentRow → Bool → String → ℕ → Result IdentityError (Unit {0})
authorize_renewal rows fails id now = do
  fail_if fails storage_failed
  row ← or_fail (find_agent rows id) agent_unknown
  fail_if (not (is_null row.revoked)) agent_revoked
  fail_if (ltb row.expires (to_ms now)) certificate_expired
  ok tt

abbrev pub is_active : String → AgentRow → Bool
is_active id row = str_eq row.id id && is_null row.revoked

abbrev pub new_certificate : String → ℕ → AgentRow → AgentRow
new_certificate serial expires row = record row { serial = serial; expires = expires }

abbrev pub takes_serial : String → String → AgentRow → Bool
takes_serial id serial row = not (str_eq row.id id) && str_eq row.serial serial

-- `UpdateCertificate`; a serial of another agent breaks the unique column.
unfoldable pub update_certificate :
    List AgentRow → Bool → String → String → ℕ → Result IdentityError (List AgentRow)
update_certificate rows fails id serial expires = do
  let hit = affected (is_active id) rows
  fail_if (fails || (ltb 0 hit && exists (takes_serial id serial) rows)) storage_failed
  fail_if (not (hit == 1)) agent_inactive
  ok (update (is_active id) (new_certificate serial (to_ms expires)) rows)

abbrev pub set_revoked : ℕ → AgentRow → AgentRow
set_revoked now row = record row { revoked = some now }

-- `Revoke`, and the same statement of `RevokeAgent`
unfoldable pub revoke_row : List AgentRow → Bool → String → ℕ → Result IdentityError (List AgentRow)
revoke_row rows fails id now = do
  fail_if fails storage_failed
  fail_if (not (affected (is_active id) rows == 1)) agent_inactive
  ok (update (is_active id) (set_revoked (to_ms now)) rows)

abbrev pub is_refused : String → ℕ → AgentRow → Bool
is_refused serial now row =
    not (is_null row.revoked) || (not (str_eq row.serial serial) || ltb row.expires (to_ms now))

-- `AuthorizeConnection`
unfoldable pub authorize_connection :
    List AgentRow → Bool → String → String → ℕ → Result IdentityError (Unit {0})
authorize_connection rows fails id serial now = do
  fail_if fails storage_failed
  row ← or_fail (find_agent rows id) agent_unknown
  fail_if (is_refused serial now row) unauthorized
  ok tt

-- What `x509.ParseCertificateRequest` reads of a request.
pub record Request : Type 0 where
  pub signature_good : Bool
  pub common_name : String
  pub public_key : List ℕ

pub data SignError : Type 0 where
  request_unreadable signature_bad identity_required identity_chosen not_created : SignError

-- The serial is NULL where crypto/rand failed; `create` then fails, as crypto/x509 does for a template
-- without a serial.
pub record Template : Type 0 where
  pub serial : Option ℕ
  pub common_name : String
  pub not_before : ℕ
  pub not_after : ℕ

abbrev pub minute : ℕ
minute = 60_000_000_000

module _ (parse : List ℕ → Option Request) (create : Template → List ℕ → Option (List ℕ))
    (serial_text : Option ℕ → String) where
  -- `SignAgentCSR`, at an instant after the first minute of 1970.
  unfoldable pub sign_request :
      List ℕ → String → ℕ → ℕ → Option ℕ → Result SignError (List ℕ × String)
  sign_request der id now validity drawn = do
    request ← or_fail (parse der) request_unreadable
    fail_if (not request.signature_good) signature_bad
    fail_if (str_eq id "") identity_required
    fail_if (not (str_eq request.common_name "")) identity_chosen
    let template : Template = record {
      serial = drawn;
      common_name = id;
      not_before = now - minute;
      not_after = now + validity;
    }
    pem ← or_fail (create template request.public_key) not_created
    ok (pem, serial_text drawn)
