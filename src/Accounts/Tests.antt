-- ===== src/Accounts/Tests.antt =====
-- Invitations and logins at concrete inputs.
use silent_devops.Prelude.{
  ℕ, zero, suc, ◌*◌, String, ◌≡◌, refl, ap, Bool, false, Option, none, some, List, [], ◌∷◌, str_eq,
  if◌then◌else◌, length, ok, is_ok,
}
use silent_devops.Auth.Token.{Bytes, Issuer, second}
use silent_devops.Accounts.{
  UserRow, InvitationRow, insert_user, new_user, InvitationRequest, consume_row, Trials, Accounts,
  hash_password, secret_hash_of, redeem,
}
use silent_devops.Accounts.Once.{
  AccountCall, invites, withdraws_invitation, creates, changes_role, run_accounts,
  redeemed_for_good,
}

abbrev sevens : ℕ → Bytes
sevens zero = []
sevens (suc n) = 7 ∷ sevens n

abbrev argon2 : String → Bytes → ℕ → Bytes
argon2 password salt n = sevens n

argon2-length : (n : ℕ) → length (sevens n) ≡ n
argon2-length zero = refl
argon2-length (suc n) = ap suc (argon2-length n)

abbrev write_hash : Bytes → Bytes → String
write_hash salt hash = "argon2id"

abbrev read_hash : String → Option (Bytes × Bytes)
read_hash encoded = some (1 ∷ [], sevens 32)

abbrev password_size : String → ℕ
password_size password = 16

abbrev sha256 : Bytes → Bytes
sha256 raw = 9 ∷ []

abbrev decode_secret : String → Option Bytes
decode_secret secret = if str_eq secret "0707" then some (sevens 32) else none

abbrev is_local : String → Bool
is_local subject = str_eq subject "local:uid:0"

abbrev trials : Trials
trials = record {
  begin_fails = false;
  insert_fails = false;
  update_fails = false;
  commit_fails = false;
  drawn_id = some "u2";
}

invitation : InvitationRow
invitation = record {
  id = "i1";
  secret_hash = 9 ∷ [];
  username = "ann";
  role = 2;
  address = "validator:443";
  pin = "pin";
  expires = 100;
  consumed = none;
  revoked = none;
  created_by = none;
  created = 0;
}

abbrev accounts : Accounts
accounts = record { users = []; invitations = invitation ∷ [] }

ann : UserRow
ann = new_user "u2" "ann" "argon2id" 2 5

abbrev after : UserRow × Accounts
after = (ann, record { users = ann ∷ []; invitations = consume_row 5 invitation ∷ [] })

redeemed_at_five :
    redeem argon2 write_hash read_hash password_size sha256 decode_secret accounts trials "0707"
      "long enough words"
      (some (1 ∷ []))
      5_000_000
    ≡ ok after
unfolding redeem secret_hash_of hash_password insert_user invitation ann
redeemed_at_five = refl

abbrev request : InvitationRequest
request = record {
  username = "bob";
  role = 1;
  ttl_seconds = 60;
  address = "validator:443";
  pin = "pin";
}

abbrev calls : List AccountCall
calls =
    invites trials (some (sevens 32)) "u2" request 6_000_000
    ∷ withdraws_invitation false "i1" 7
    ∷ creates trials (some (1 ∷ [])) "cat" "long enough words" 1 8_000_000
    ∷ changes_role false false "u2" 1
    ∷ []

redeemed_for_good_example :
    is_ok (
      redeem argon2 write_hash read_hash password_size sha256 decode_secret
        (run_accounts argon2 write_hash read_hash password_size sha256 decode_secret is_local
          after.1 calls)
        trials
        "0707"
        "another password"
        (some (1 ∷ []))
        9_000_000)
    ≡ false
redeemed_for_good_example =
    redeemed_for_good argon2 write_hash read_hash password_size sha256 decode_secret is_local
      accounts trials trials "0707" "long enough words" "another password" (some (1 ∷ []))
      (some (1 ∷ [])) 5_000_000 9_000_000 after calls refl redeemed_at_five

abbrev issuer : Issuer
issuer = record { key = []; ttl = 600 * second }
