-- ===== src/Accounts/Redeemed.antt =====
-- Who has redeemed an invitation can log in.
use silent_devops.Prelude.{ℕ, ◌<◌, ◌≡◌, none}
use silent_devops.Auth.Token.{Bytes}
use silent_devops.Auth.Limiter.{Limiter}
use silent_devops.Accounts.{InvitationRow, Accounts}

-- What an invitation that is redeemed is like.
pub record Redeemable (hash : Bytes) (now : ℕ) (row : InvitationRow) : Type 0 where
  pub secret_hash : row.secret_hash ≡ hash
  pub unconsumed : row.consumed ≡ none
  pub unrevoked : row.revoked ≡ none
  pub timely : now < row.expires
