-- ===== src/Enrollment.antt =====
-- Enrollment: the join codes of `EnrollmentManager` in internal/pki/pki.go, over the table
-- `enrollment_tokens` of internal/store/migrations. Argon2, SHA-256 and the hexadecimal texts are
-- arguments; a token is the text of 32 random bytes.
pub mod Refine
pub mod Machine
pub mod Once
mod Tests
use silent_devops.Prelude.{
  ℕ, ◌+◌, String, Bool, true, false, not, ◌&&◌, ◌||◌, Option, none, some, List, [], ◌∷◌, str_eq,
  ltb, leb, ◌==◌, if◌then◌else◌, length, take, map_rows, affected, update, exists, bytes_eq, Result,
  ok, err,
}
use silent_devops.Auth.Token.{Bytes}
use silent_devops.Jobs.{has, to_ms}

-- A row of `enrollment_tokens`. Instants are milliseconds; `consumed` and `revoked` are NULL at first.
pub record CodeRow : Type 0 where
  pub id : String
  pub token_hash : Bytes
  pub expires : ℕ
  pub consumed : Option ℕ
  pub revoked : Option ℕ
  pub created_by : Option String

pub data CodeError : Type 0 where
  ttl_required randomness_failed storage_error malformed_token code_inactive : CodeError

abbrev pub is_null : Option ℕ → Bool
is_null none = true
is_null (some t) = false

-- The primary key and the unique hash.
abbrev pub same_code : CodeRow → CodeRow → Bool
same_code new old = str_eq old.id new.id || bytes_eq old.token_hash new.token_hash

abbrev pub knows : List String → Option String → Bool
knows users none = true
knows users (some creator) = has creator users

-- `creatorValue`
abbrev pub creator_of : String → Option String
creator_of creator = if str_eq creator "" then none else some creator

-- INSERT INTO enrollment_tokens
unfoldable pub insert_code : List String → List CodeRow → CodeRow → Option (List CodeRow)
insert_code users rows row =
    if exists (same_code row) rows || not (knows users row.created_by)
    then none
    else some (row ∷ rows)

-- The rows that `ConsumeToken` and `Revoke` update.
abbrev pub is_open_code : CodeRow → Bool
is_open_code row = is_null row.consumed && is_null row.revoked

abbrev pub can_consume : Bytes → ℕ → CodeRow → Bool
can_consume hash now row = bytes_eq row.token_hash hash && (is_open_code row && leb now row.expires)

abbrev pub mark_consumed : ℕ → CodeRow → CodeRow
mark_consumed now row = record row { consumed = some now }

abbrev pub can_revoke : String → CodeRow → Bool
can_revoke id row = str_eq row.id id && is_open_code row

abbrev pub mark_revoked : ℕ → CodeRow → CodeRow
mark_revoked now row = record row { revoked = some now }

-- What the list shows of a row.
pub record CodeView : Type 0 where
  pub id : String
  pub expires : ℕ
  pub consumed : Bool
  pub revoked : Bool

abbrev pub show_code : CodeRow → CodeView
show_code row = record {
  id = row.id;
  expires = row.expires;
  consumed = not (is_null row.consumed);
  revoked = not (is_null row.revoked);
}

-- ORDER BY expires_unix_ms DESC, as an insertion into the ordered list.
unfoldable pub put_code : CodeRow → List CodeRow → List CodeRow
put_code row [] = row ∷ []
put_code row (x ∷ rows) =
    let rest = put_code row rows in if ltb row.expires x.expires then x ∷ rest else row ∷ x ∷ rows

unfoldable pub by_expiry : List CodeRow → List CodeRow
by_expiry [] = []
by_expiry (row ∷ rows) = put_code row (by_expiry rows)

-- `List`
unfoldable pub list_codes : List CodeRow → Bool → ℕ → Result CodeError (List CodeView)
list_codes rows fails limit =
    if fails
    then err storage_error
    else ok (
        map_rows show_code
          (take (if limit == 0 || ltb 1000 limit then 100 else limit) (by_expiry rows)))

-- `Revoke`
unfoldable pub revoke_code :
    List CodeRow → Bool → String → ℕ → Result CodeError (Unit {0}) × List CodeRow
revoke_code rows fails id now = if fails then (err storage_error, rows) else (
  if affected (can_revoke id) rows == 1 then ok tt else err code_inactive,
  update (can_revoke id) (mark_revoked (to_ms now)) rows,
)

abbrev pub answer_insert :
    List CodeRow → String → Option (List CodeRow) → Result CodeError String × List CodeRow
answer_insert rows token none = (err storage_error, rows)
answer_insert rows token (some rows') = (ok token, rows')

module _ (encode : Bytes → String) (decode : String → Option Bytes)
    (argon2 : String → Bytes → Bytes) (identify : Bytes → String) where
  abbrev pub new_code : Bytes → Option String → ℕ → CodeRow
  new_code raw creator expires = record {
    id = identify raw;
    token_hash = argon2 (encode raw) (take 16 raw);
    expires = expires;
    consumed = none;
    revoked = none;
    created_by = creator;
  }

  -- `CreateToken`, with the 32 bytes that crypto/rand draws.
  unfoldable pub create_code :
      List String
      → List CodeRow
      → Bool
      → Option Bytes
      → String
      → ℕ
      → ℕ
      → Result CodeError String × List CodeRow
  create_code users rows fails drawn creator now ttl =
      if ttl == 0 then (err ttl_required, rows) else elim drawn [
        | none ↦ (err randomness_failed, rows)
        | some raw ↦
            if fails
            then (err storage_error, rows)
            else answer_insert rows (encode raw)
                (insert_code users rows (new_code raw (creator_of creator) (to_ms (now + ttl))))
      ]

  -- The hash under which `ConsumeToken` looks a token up; none where the token is malformed.
  unfoldable pub token_hash_of : String → Option Bytes
  token_hash_of token = elim (decode token) [
    | none ↦ none
    | some raw ↦ if length raw == 32 then some (argon2 token (take 16 raw)) else none
  ]

  -- `ConsumeToken`
  unfoldable pub consume_code :
      List CodeRow → Bool → String → ℕ → Result CodeError (Unit {0}) × List CodeRow
  consume_code rows fails token now = elim (token_hash_of token) [
    | none ↦ (err malformed_token, rows)
    | some hash ↦ if fails then (err storage_error, rows) else (
      if affected (can_consume hash (to_ms now)) rows == 1 then ok tt else err code_inactive,
      update (can_consume hash (to_ms now)) (mark_consumed (to_ms now)) rows,
    )
  ]
