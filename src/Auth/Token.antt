-- ===== src/Auth/Token.antt =====
-- Access tokens: `Claims` and `Issuer` of internal/auth/auth.go. Texts are bytes, instants are
-- nanoseconds since the Unix epoch. The libraries that a token goes through are parameters: `encode`
-- stands for json.Marshal with base64.RawURLEncoding, `decode` for the way back, and `mac` for
-- HMAC-SHA-256 with the same encoding. What the code relies on of them is `Encoding`.
pub mod Sample
mod Tests
use silent_devops.Prelude.{
  ℕ, ◌+◌, ◌*◌, ◌/◌, ◌≤◌, String, ◌≡◌, refl, sym, ap, ◌∙◌, ◌≢◌, Bool, true, false, not, ◌&&◌, ◌||◌,
  Option, some, List, [], ◌∷◌, ◌++◌, arith, str_eq, str_eq_iff, ltb, leb, ◌==◌, if◌then◌else◌,
  length, All, bytes_eq, bytes_eq_sound, bytes_eq_refl, Result, ok, err, ◌>>=◌, ◌>>◌, fail_if,
  or_fail,
}
use silent_devops.Protocol.{Role, role_unspecified}

abbrev pub Bytes : Type 0
Bytes = List ℕ

abbrev dot : ℕ
dot = b'.'

pub record Claims : Type 0 where
  pub subject : String
  pub role : Role
  pub issued : ℕ
  pub expires : ℕ
  pub nonce : Bytes

pub record Issuer : Type 0 where
  pub key : Bytes
  pub ttl : ℕ

pub data Error : Type 0 where
  short_key bad_ttl subject_and_role_required no_entropy invalid_token expired_or_early : Error

abbrev pub second : ℕ
second = 1_000_000_000

abbrev pub hour : ℕ
hour = 3600 * second

-- `now.Unix()`
abbrev pub unix : ℕ → ℕ
unix now = now / second

-- `NewIssuer`
pub new_issuer : Bytes → ℕ → Result Error Issuer
new_issuer key ttl = do
  fail_if (ltb (length key) 32) short_key
  fail_if (leb ttl 0 || ltb hour ttl) bad_ttl
  ok (record { key = key; ttl = ttl })

-- `strings.Split(token, ".")`: the part under way, and the parts behind it.
split_from : Bytes → Bytes × List Bytes
split_from [] = ([], [])
split_from (c ∷ cs) =
    let (part, parts) = split_from cs in if c == dot then ([], part ∷ parts) else (c ∷ part, parts)

pub split : Bytes → List Bytes
unfolding split_from
split text = (split_from text).0 ∷ (split_from text).1

-- No byte of the text is a dot.
abbrev pub NoDot : Bytes → Type 0
NoDot = All (λ c. (c == dot) ≡ false)

module _ (encode : Claims → Bytes) (decode : Bytes → Option Claims)
    (mac : Bytes → Bytes → Bytes) where
  -- `Issue`; `entropy` is what rand.Read gives for the nonce, or its error.
  pub issue : Issuer → String → Role → Option Bytes → ℕ → Result Error Bytes
  issue i subject role entropy now = do
    fail_if (str_eq subject "" || role == role_unspecified) subject_and_role_required
    nonce ← or_fail entropy no_entropy
    let body = encode (record {
      subject = subject;
      role = role;
      issued = unix now;
      expires = unix (now + i.ttl);
      nonce = nonce;
    })
    ok (body ++ dot ∷ mac i.key body)

  -- The rest of `Verify` once the token has split into two parts.
  verify_parts : Issuer → Bytes → Bytes → ℕ → Result Error Claims
  verify_parts i body signature now = do
    fail_if (not (bytes_eq signature (mac i.key body))) invalid_token
    claims ← or_fail (decode body) invalid_token
    fail_if (leb claims.expires (unix now) || ltb (unix (now + 60 * second)) claims.issued)
        expired_or_early
    ok claims

  verify_split : Issuer → List Bytes → ℕ → Result Error Claims
  unfolding verify_parts
  verify_split i (body ∷ signature ∷ []) now = verify_parts i body signature now
  verify_split i _ now = err invalid_token

  -- `Verify`
  pub verify : Issuer → Bytes → ℕ → Result Error Claims
  unfolding verify_split
  verify i token now = verify_split i (split token) now

-- What the code relies on of the encodings: what was encoded decodes, and neither an encoded body
-- nor an encoded signature has a dot.
pub record Encoding (encode : Claims → Bytes) (decode : Bytes → Option Claims)
    (mac : Bytes → Bytes → Bytes) : Type 0 where
  pub round_trip : (c : Claims) → decode (encode c) ≡ some c
  pub body_plain : (c : Claims) → NoDot (encode c)
  pub mac_plain : (key body : Bytes) → NoDot (mac key body)

split_from-plain : (text : Bytes) → NoDot text → split_from text ≡ (text, [])
unfolding split_from
split_from-plain [] h = refl
split_from-plain (c ∷ cs) h = ground (arith, split_from-plain cs h.1)

split_from-dot :
    (text rest : Bytes)
    → NoDot text
    → split_from (text ++ dot ∷ rest) ≡ (text, (split_from rest).0 ∷ (split_from rest).1)
unfolding split_from
split_from-dot [] rest h = refl
split_from-dot (c ∷ cs) rest h = ground (arith, split_from-dot cs rest h.1)

-- Whether a token that says `issued` and `expires` is good at an instant.
abbrev pub in_force : ℕ → ℕ → ℕ → Bool
in_force issued expires now = ltb (unix now) expires && leb issued (unix (now + 60 * second))

-- The claims that a token carries.
abbrev pub claims_of : Issuer → String → Role → Bytes → ℕ → Claims
claims_of i subject role nonce now = record {
  subject = subject;
  role = role;
  issued = unix now;
  expires = unix (now + i.ttl);
  nonce = nonce;
}

module _ (encode : Claims → Bytes) (decode : Bytes → Option Claims) (mac : Bytes → Bytes → Bytes)
    (laws : Encoding encode decode mac) where
  issue-eq-ok :
      (i : Issuer) (subject : String) (role : Role) (nonce : Bytes) (now : ℕ) (token : Bytes)
      → issue encode decode mac i subject role (some nonce) now ≡ ok token
      → let body = encode (claims_of i subject role nonce now) in
        token ≡ body ++ dot ∷ mac i.key body
  unfolding issue
  issue-eq-ok i subject role nonce now token h = ground arith

  verify-issued :
      (i : Issuer) (c : Claims) (now : ℕ)
      → verify encode decode mac i (encode c ++ dot ∷ mac i.key (encode c)) now
        ≡ (if in_force c.issued c.expires now then ok c else err expired_or_early)
  unfolding verify verify_split verify_parts split
  verify-issued i c now =
      rw
        (
          split_from-dot (encode c) (mac i.key (encode c)) (laws.body_plain c),
          split_from-plain (mac i.key (encode c)) (laws.mac_plain i.key (encode c)),
          bytes_eq_refl (mac i.key (encode c)),
          laws.round_trip c,
        )
        (ground arith)

  -- A token that `Issue` returned verifies under the same issuer exactly while it is in force, up to
  -- a minute before it was issued and until it expires, to the claims that went in; otherwise it is
  -- refused as expired or not yet valid.
  pub verify-issue :
      (i : Issuer) (subject : String) (role : Role) (nonce : Bytes) (at now : ℕ) (token : Bytes)
      → issue encode decode mac i subject role (some nonce) at ≡ ok token
      → verify encode decode mac i token now ≡ (
          if in_force (unix at) (unix (at + i.ttl)) now
          then ok (claims_of i subject role nonce at)
          else err expired_or_early)
  verify-issue i subject role nonce at now token h =
      ap (λ t. verify encode decode mac i t now) (issue-eq-ok i subject role nonce at token h)
      ∙ verify-issued i (claims_of i subject role nonce at) now

-- With a nonce, a token is issued for every subject and role that are given.
pub issue_succeeds :
    (encode : Claims → Bytes) (decode : Bytes → Option Claims) (mac : Bytes → Bytes → Bytes)
    (i : Issuer) (subject : String) (role : Role) (nonce : Bytes) (now : ℕ)
    → subject ≢ ""
    → role ≢ role_unspecified
    → (token : Bytes) × (issue encode decode mac i subject role (some nonce) now ≡ ok token)
unfolding issue
issue_succeeds encode decode mac i subject role nonce now named given =
    let body = encode (claims_of i subject role nonce now) in
    (body ++ dot ∷ mac i.key body, ground (arith, str_eq_iff subject ""))

-- The parts of a text, put together again with dots.
abbrev rejoin : Bytes → List Bytes → Bytes
rejoin part [] = part
rejoin part (next ∷ parts) = part ++ dot ∷ rejoin next parts

rejoin-split_from : (text : Bytes) → rejoin (split_from text).0 (split_from text).1 ≡ text
unfolding split_from
rejoin-split_from [] = refl
rejoin-split_from (c ∷ cs) =
    ground (arith, rejoin-split_from cs, rejoin-cons c (split_from cs).0 (split_from cs).1)
  where
    rejoin-cons :
        (d : ℕ) (part : Bytes) (parts : List Bytes)
        → rejoin (d ∷ part) parts ≡ d ∷ rejoin part parts
    rejoin-cons d part [] = refl
    rejoin-cons d part (next ∷ parts) = refl

module _ (encode : Claims → Bytes) (decode : Bytes → Option Claims)
    (mac : Bytes → Bytes → Bytes) where
  verify_split-eq-ok :
      (i : Issuer) (part : Bytes) (parts : List Bytes) (now : ℕ) (c : Claims)
      → verify_split encode decode mac i (part ∷ parts) now ≡ ok c
      → (rejoin part parts ≡ part ++ dot ∷ mac i.key part)
        × (decode part ≡ some c)
        × (in_force c.issued c.expires now ≡ true)
  unfolding verify_split verify_parts
  verify_split-eq-ok i part [] now c h = cc
  verify_split-eq-ok i part (signature ∷ x ∷ parts) now c h = cc
  verify_split-eq-ok i part (signature ∷ []) now c h =
      (ground (arith, bytes_eq_sound signature (mac i.key part)), ground arith, ground arith)

  -- A token that verifies is a body and a dot and the issuer's signature of that very body; the body
  -- decodes to the claims that come out, and these are in force.
  pub verify_sound :
      (i : Issuer) (token : Bytes) (now : ℕ) (c : Claims)
      → verify encode decode mac i token now ≡ ok c
      → (body : Bytes) × (token ≡ body ++ dot ∷ mac i.key body)
        × (decode body ≡ some c)
        × (in_force c.issued c.expires now ≡ true)
  unfolding verify split
  verify_sound i token now c h =
      let (signed, decoded, timely) =
        verify_split-eq-ok i (split_from token).0 (split_from token).1 now c h in
      ((split_from token).0, sym (rejoin-split_from token) ∙ signed, decoded, timely)

-- No issuer that `NewIssuer` returns gives out claims that last longer than an hour, or from a key
-- shorter than 32 bytes.
pub new_issuer_bounds :
    (key : Bytes) (ttl : ℕ) (i : Issuer) (subject : String) (role : Role) (nonce : Bytes) (now : ℕ)
    → new_issuer key ttl ≡ ok i
    → let c = claims_of i subject role nonce now in
      (32 ≤ length i.key) × (c.issued ≤ c.expires) × (c.expires ≤ c.issued + 3600)
unfolding new_issuer
new_issuer_bounds key ttl i subject role nonce now h =
    let bounds : (32 ≤ length i.key) × (i.ttl ≤ hour) = (ground arith, ground arith) in
    (bounds.0, omega arith, omega arith)
