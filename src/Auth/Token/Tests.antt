-- ===== src/Auth/Token/Tests.antt =====
-- The theorems about tokens under a concrete encoding.
use silent_devops.Prelude.{◌*◌, ◌≡◌, refl, true, some, [], ◌∷◌, ◌++◌, ok, err}
use silent_devops.Auth.Token.{
  Bytes, Issuer, expired_or_early, second, issue, verify, in_force, claims_of, verify-issue,
  verify_sound,
}
use silent_devops.Auth.Token.Sample.{encode, decode, mac, toy-Encoding}

abbrev issuer : Issuer
issuer = record { key = []; ttl = 600 * second }

abbrev anna : Bytes
anna =
    encode (claims_of issuer "anna" 2 (7 ∷ []) 0)
    ++ b'.' ∷ mac [] (encode (claims_of issuer "anna" 2 (7 ∷ []) 0))

anna_issued : issue encode decode mac issuer "anna" 2 (some (7 ∷ [])) 0 ≡ ok anna
unfolding issue
anna_issued = refl

verify-issue_example :
    verify encode decode mac issuer anna (599 * second) ≡ ok (claims_of issuer "anna" 2 (7 ∷ []) 0)
verify-issue_example =
    verify-issue encode decode mac toy-Encoding issuer "anna" 2 (7 ∷ []) 0 (599 * second) anna
      anna_issued

verify-issue_late : verify encode decode mac issuer anna (600 * second) ≡ err expired_or_early
verify-issue_late =
    verify-issue encode decode mac toy-Encoding issuer "anna" 2 (7 ∷ []) 0 (600 * second) anna
      anna_issued

verify_sound_example :
    (body : Bytes) × (anna ≡ body ++ b'.' ∷ mac [] body)
    × (decode body ≡ some (claims_of issuer "anna" 2 (7 ∷ []) 0))
    × (in_force 0 600 (599 * second) ≡ true)
verify_sound_example =
    verify_sound encode decode mac issuer anna (599 * second) (claims_of issuer "anna" 2 (7 ∷ []) 0)
      verify-issue_example

abbrev long_key : Bytes
long_key =
    1 ∷ 2 ∷ 3 ∷ 4 ∷ 5 ∷ 6 ∷ 7 ∷ 8 ∷ 1 ∷ 2 ∷ 3 ∷ 4 ∷ 5 ∷ 6 ∷ 7 ∷ 8 ∷ 1 ∷ 2 ∷ 3 ∷ 4 ∷ 5 ∷ 6 ∷ 7 ∷ 8
    ∷ 1 ∷ 2 ∷ 3 ∷ 4 ∷ 5 ∷ 6 ∷ 7 ∷ 8 ∷ []
