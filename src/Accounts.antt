-- ===== src/Accounts.antt =====
-- Accounts: the users and their invitations: `HashPassword` and `VerifyPassword` of internal/auth/auth.go,
-- `Login` and `Issue` of internal/auth/service.go, `RedeemClientInvitation` of internal/server/auth.go,
-- `CreateUser` and `ListUsers` of internal/server/fleet.go, `SetUserRole` of internal/server/read.go, and
-- internal/server/client_invitation.go. Argon2, SHA-256 and the texts of a hash are arguments.
pub mod Login
pub mod Once
mod Redeemed
mod Tests
use silent_devops.Prelude.{
  ℕ, ◌+◌, ◌*◌, String, Bool, false, not, ◌&&◌, ◌||◌, Option, none, some, List, [], ◌∷◌, str_eq, ltb,
  leb, ◌==◌, if◌then◌else◌, length, map_rows, affected, update, exists, bytes_eq, Result, ok, err,
  ◌>>=◌, ◌>>◌, fail_if, or_fail, map_err,
}
use silent_devops.Protocol.{role_viewer, role_admin}
use silent_devops.Auth.Token.{Bytes, second}
use silent_devops.Jobs.{to_ms}
use silent_devops.Enrollment.{is_null, knows}

-- A row of `users`.
pub record UserRow : Type 0 where
  pub id : String
  pub username : String
  pub password_hash : String
  pub role : ℕ
  pub disabled : Bool
  pub created : ℕ

-- A row of `client_invitations`. Instants are milliseconds.
pub record InvitationRow : Type 0 where
  pub id : String
  pub secret_hash : Bytes
  pub username : String
  pub role : ℕ
  pub address : String
  pub pin : String
  pub expires : ℕ
  pub consumed : Option ℕ
  pub revoked : Option ℕ
  pub created_by : Option String
  pub created : ℕ

pub data AccountError : Type 0 where
  invitation_invalid drawing_failed invitation_exists invitation_inactive store_unavailable :
      AccountError
  secret_invalid password_invalid user_exists user_invalid user_missing : AccountError

-- The primary keys and the unique columns.
abbrev pub same_user : UserRow → UserRow → Bool
same_user new old = str_eq old.id new.id || str_eq old.username new.username

abbrev pub same_invitation : InvitationRow → InvitationRow → Bool
same_invitation new old = str_eq old.id new.id || bytes_eq old.secret_hash new.secret_hash

abbrev pub user_ids : List UserRow → List String
user_ids users = map_rows (λ (u : UserRow). u.id) users

abbrev pub is_role : ℕ → Bool
is_role role = leb role_viewer role && leb role role_admin

-- INSERT INTO users
unfoldable pub insert_user : List UserRow → Bool → UserRow → Result AccountError (List UserRow)
insert_user users fails new = do
  fail_if (fails || exists (same_user new) users) user_exists
  ok (new ∷ users)

abbrev pub new_user : String → String → String → ℕ → ℕ → UserRow
new_user id username hash role created = record {
  id = id;
  username = username;
  password_hash = hash;
  role = role;
  disabled = false;
  created = created;
}

-- What an invitation is asked for.
pub record InvitationRequest : Type 0 where
  pub username : String
  pub role : ℕ
  pub ttl_seconds : ℕ
  pub address : String
  pub pin : String

abbrev pub asked_well : InvitationRequest → Bool
asked_well r =
    not (str_eq r.username "")
    && (is_role r.role
        && (not (r.ttl_seconds == 0)
            && (leb r.ttl_seconds 3600 && (not (str_eq r.address "") && not (str_eq r.pin "")))))

-- The rows that are open to a redemption and to a revocation.
abbrev pub is_open_invitation : InvitationRow → Bool
is_open_invitation row = is_null row.consumed && is_null row.revoked

abbrev pub can_redeem : Bytes → ℕ → InvitationRow → Bool
can_redeem hash now row =
    bytes_eq row.secret_hash hash && (is_open_invitation row && ltb now row.expires)

abbrev pub find_row {ℓ} : {A : Type ℓ} → (A → Bool) → List A → Option A
find_row p [] = none
find_row p (x ∷ xs) = let rest = find_row p xs in if p x then some x else rest

abbrev pub is_unconsumed : String → InvitationRow → Bool
is_unconsumed id row = str_eq row.id id && is_null row.consumed

abbrev pub consume_row : ℕ → InvitationRow → InvitationRow
consume_row now row = record row { consumed = some now }

abbrev pub can_withdraw : String → InvitationRow → Bool
can_withdraw id row = str_eq row.id id && is_open_invitation row

abbrev pub withdraw_row : ℕ → InvitationRow → InvitationRow
withdraw_row now row = record row { revoked = some now }

-- `RevokeClientInvitation`, at a time in milliseconds
unfoldable pub revoke_invitation :
    List InvitationRow → Bool → String → ℕ → Result AccountError (Unit {0}) × List InvitationRow
revoke_invitation rows fails id now = if fails then (err store_unavailable, rows) else (
  if affected (can_withdraw id) rows == 1 then ok tt else err invitation_inactive,
  update (can_withdraw id) (withdraw_row now) rows,
)

-- `SetUserRole`; the row is read again after the UPDATE.
unfoldable pub set_user_role :
    List UserRow → Bool → Bool → String → ℕ → Result AccountError UserRow × List UserRow
set_user_role users fails unread id role =
    if str_eq id "" || not (is_role role)
    then (err user_invalid, users)
    else if fails
    then (err store_unavailable, users)
    else (let after =
          update (λ (u : UserRow). str_eq u.id id) (λ (u : UserRow). record u { role = role })
            users in
        if affected (λ (u : UserRow). str_eq u.id id) users == 1
        then (
          if unread
              then err store_unavailable
              else or_fail (find_row (λ (u : UserRow). str_eq u.id id) after) store_unavailable,
          after,
        )
        else (err user_missing, after))

-- What the storage does to the statements of a call, and what crypto/rand draws.
pub record Trials : Type 0 where
  pub begin_fails : Bool
  pub insert_fails : Bool
  pub update_fails : Bool
  pub commit_fails : Bool
  pub drawn_id : Option String

pub record Accounts : Type 0 where
  pub users : List UserRow
  pub invitations : List InvitationRow

module _ (argon2 : String → Bytes → ℕ → Bytes) (write_hash : Bytes → Bytes → String)
    (read_hash : String → Option (Bytes × Bytes)) (password_size : String → ℕ)
    (sha256 : Bytes → Bytes) (decode : String → Option Bytes) where
  -- `HashPassword`, with the salt that crypto/rand draws
  unfoldable pub hash_password : String → Option Bytes → Result AccountError String
  hash_password password drawn = do
    fail_if (ltb (password_size password) 16) password_invalid
    salt ← or_fail drawn drawing_failed
    ok (write_hash salt (argon2 password salt 32))

  -- `VerifyPassword`; `read_hash` splits and decodes the parts.
  unfoldable pub verify_password : String → String → Bool
  verify_password encoded password = elim (read_hash encoded) [
    | none ↦ false
    | some (salt, want) ↦ bytes_eq (argon2 password salt (length want)) want
  ]

  -- `CreateUser`
  unfoldable pub create_user :
      List UserRow
      → Trials
      → Option Bytes
      → String
      → String
      → ℕ
      → ℕ
      → Result AccountError (List UserRow)
  create_user users t salt username password role now = do
    fail_if (str_eq username "" || not (is_role role)) user_invalid
    hash ← hash_password password salt
    id ← or_fail t.drawn_id drawing_failed
    insert_user users t.insert_fails (new_user id username hash role (to_ms now))

  abbrev pub creator_value : (String → Bool) → String → Option String
  creator_value is_local subject = if is_local subject then none else some subject

  abbrev pub new_invitation : InvitationRequest → String → Bytes → Option String → ℕ → InvitationRow
  new_invitation r id secret creator now = record {
    id = id;
    secret_hash = sha256 secret;
    username = r.username;
    role = r.role;
    address = r.address;
    pin = r.pin;
    expires = to_ms (now + r.ttl_seconds * second);
    consumed = none;
    revoked = none;
    created_by = creator;
    created = to_ms now;
  }

  -- `CreateClientInvitation`; `is_local` is the test of the prefix "local:uid:".
  unfoldable pub create_invitation :
      (String → Bool)
      → Accounts
      → Trials
      → Option Bytes
      → String
      → InvitationRequest
      → ℕ
      → Result AccountError (List InvitationRow)
  create_invitation is_local a t drawn subject r now = do
    fail_if (not (asked_well r)) invitation_invalid
    secret ← or_fail drawn drawing_failed
    id ← or_fail t.drawn_id drawing_failed
    let row = new_invitation r id secret (creator_value is_local subject) now
    fail_if
        (t.insert_fails
          || (exists (same_invitation row) a.invitations
              || not (knows (user_ids a.users) row.created_by)))
        invitation_exists
    ok (row ∷ a.invitations)

  -- The hash of the secret that a redemption shows.
  unfoldable pub secret_hash_of : String → Option Bytes
  secret_hash_of secret = elim (decode secret) [
    | none ↦ none
    | some raw ↦ if length raw == 32 then some (sha256 raw) else none
  ]

  -- The transaction of `RedeemClientInvitation`: the user and the tables, if it is committed.
  unfoldable pub redeem :
      Accounts
      → Trials
      → String
      → String
      → Option Bytes
      → ℕ
      → Result AccountError (UserRow × Accounts)
  redeem a t secret password salt now = do
    hash ← or_fail (secret_hash_of secret) secret_invalid
    encoded ← map_err (hash_password password salt) (λ why. password_invalid)
    fail_if t.begin_fails store_unavailable
    row ← or_fail (find_row (can_redeem hash (to_ms now)) a.invitations) secret_invalid
    id ← or_fail t.drawn_id drawing_failed
    let user = new_user id row.username encoded row.role (to_ms now)
    users ← insert_user a.users t.insert_fails user
    fail_if t.update_fails store_unavailable
    fail_if (not (affected (is_unconsumed row.id) a.invitations == 1)) secret_invalid
    fail_if t.commit_fails store_unavailable
    ok (
      user,
      record {
        users = users;
        invitations = update (is_unconsumed row.id) (consume_row (to_ms now)) a.invitations;
      },
    )
