-- ===== src/Accounts/Login.antt =====
-- `Login` and `Issue` of internal/auth/service.go, over the rate limiter and the session tokens.
use silent_devops.Prelude.{
  ℕ, ◌*◌, String, Bool, not, ◌||◌, Option, List, str_eq, if◌then◌else◌, Result, ok, err, ◌>>=◌,
  ◌>>◌, fail_if, or_fail, map_err,
}
use silent_devops.Auth.Token.{Bytes, Claims, Issuer, Error, issue, verify}
use silent_devops.Auth.Limiter.{Limiter, allow}
use silent_devops.Accounts.{UserRow, find_row}

pub data LoginError : Type 0 where
  rate_limited credentials_invalid : LoginError
  token_refused : Error → LoginError

pub record LoginAnswer : Type 0 where
  pub token : Bytes
  pub expires : ℕ
  pub role : ℕ

module _ (encode : Claims → Bytes) (decode : Bytes → Option Claims)
    (mac : Bytes → Bytes → Bytes) where
  -- `Issue`, which reads the clock for the token and for its verification
  unfoldable pub issue_login :
      Issuer → String → ℕ → Option Bytes → ℕ → ℕ → Result LoginError LoginAnswer
  issue_login i user_id role nonce now later = do
    token ← map_err (issue encode decode mac i user_id role nonce now) token_refused
    claims ← map_err (verify encode decode mac i token later) token_refused
    ok (record { token = token; expires = claims.expires * 1000; role = claims.role })

  -- `Login`; `verified` is VerifyPassword.
  unfoldable pub login :
      (String → String → Bool)
      → Issuer
      → Limiter
      → List UserRow
      → Bool
      → String
      → String
      → String
      → Option Bytes
      → ℕ
      → ℕ
      → ℕ
      → Result LoginError LoginAnswer × Limiter
  login verified i limiter users fails source username password nonce first now later =
      let a = allow limiter source first in
      if a.0
      then (
        do
          fail_if fails credentials_invalid
          user ←
              or_fail (find_row (λ (u : UserRow). str_eq u.username username) users)
                credentials_invalid
          fail_if (user.disabled || not (verified user.password_hash password)) credentials_invalid
          issue_login i user.id user.role nonce now later,
        a.1,
      )
      else (err rate_limited, a.1)
