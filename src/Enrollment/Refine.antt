-- ===== src/Enrollment/Refine.antt =====
-- The contract of the join codes: each is outstanding, spent or withdrawn; only an outstanding code is
-- spent, once and until it expires, or withdrawn. The instants of the table and the creator are
-- forgotten, and so is that the code counts the rows of an UPDATE.
use silent_devops.Prelude.{
  ℕ, String, ◌≡◌, refl, sym, ap, ◌∙◌, Bool, true, false, ◌&&◌, ◌||◌, Option, none, some, List, ◌∷◌,
  arith, str_eq, str_eq_iff, leb, if◌then◌else◌, pairwise, change_first, update-change_first,
  map_rows, change_first-map_rows, exists, bytes_eq, bytes_eq_sound, bytes_eq_refl, Result, ok, err,
  is_ok,
}
use silent_devops.Auth.Token.{Bytes}
use silent_devops.Jobs.{to_ms}
use silent_devops.Enrollment.{
  CodeRow, CodeError, code_inactive, is_null, same_code, is_open_code, mark_consumed, mark_revoked,
  revoke_code, token_hash_of, consume_code,
}

pub data Phase : Type 0 where
  outstanding spent withdrawn : Phase

pub record Code : Type 0 where
  pub id : String
  pub hash : Bytes
  pub expires : ℕ
  pub phase : Phase

abbrev pub is_outstanding : Phase → Bool
is_outstanding outstanding = true
is_outstanding _ = false

-- The contract.
abbrev pub spend : Bytes → ℕ → List Code → Bool × List Code
spend hash now codes =
    change_first (λ c. bytes_eq c.hash hash) (λ c. is_outstanding c.phase && leb now c.expires)
      (λ (c : Code). record c { phase = spent }) codes

abbrev pub withdraw : String → List Code → Bool × List Code
withdraw id codes =
    change_first (λ c. str_eq c.id id) (λ c. is_outstanding c.phase)
      (λ (c : Code). record c { phase = withdrawn }) codes

abbrev pub same_contract : Code → Code → Bool
same_contract new old = str_eq old.id new.id || bytes_eq old.hash new.hash

abbrev pub grant : Code → List Code → Bool × List Code
grant c codes = if exists (same_contract c) codes then (false, codes) else (true, c ∷ codes)

-- The view of the table.
abbrev pub phase_of : Option ℕ → Option ℕ → Phase
phase_of (some t) revoked = spent
phase_of none (some t) = withdrawn
phase_of none none = outstanding

abbrev pub code_of : CodeRow → Code
code_of row = record {
  id = row.id;
  hash = row.token_hash;
  expires = row.expires;
  phase = phase_of row.consumed row.revoked;
}

abbrev pub codes_of : List CodeRow → List Code
codes_of rows = map_rows code_of rows

is_outstanding-phase_of :
    (consumed revoked : Option ℕ)
    → is_outstanding (phase_of consumed revoked) ≡ (is_null consumed && is_null revoked)
is_outstanding-phase_of none none = refl
is_outstanding-phase_of none (some t) = refl
is_outstanding-phase_of (some t) revoked = refl

mark_revoked-phase :
    (now : ℕ) (row : CodeRow)
    → is_open_code row ≡ true
    → phase_of row.consumed (some now) ≡ withdrawn
mark_revoked-phase now row h = go row.consumed (ground arith)
  where
    go : (c : Option ℕ) → is_null c ≡ true → phase_of c (some now) ≡ withdrawn
    go none h = refl
    go (some t) h = absurd (ground arith)

hash_unique :
    (hash : Bytes) (x y : CodeRow)
    → bytes_eq x.token_hash hash ≡ true
    → bytes_eq y.token_hash hash ≡ true
    → same_code x y ≡ true
hash_unique hash x y own other =
    let first = bytes_eq_sound x.token_hash hash own in
    let second = bytes_eq_sound y.token_hash hash other in
    let same : bytes_eq y.token_hash x.token_hash ≡ true =
      rw (first, second) (bytes_eq_refl hash) in
    ground arith

id_unique :
    (id : String) (x y : CodeRow)
    → str_eq x.id id ≡ true
    → str_eq y.id id ≡ true
    → same_code x y ≡ true
id_unique id x y own other =
    ground (arith, str_eq_iff x.id id, str_eq_iff y.id id, str_eq_iff y.id x.id)

-- The answers of the program, as the contract sees them.
abbrev pub granted {ℓ} : {V : Type ℓ} → Result CodeError V × List CodeRow → Bool × List Code
granted (answer, rows) = (is_ok answer, codes_of rows)

granted_if :
    (b : Bool) (rows : List CodeRow)
    → granted {V = Unit {0}} (if b then ok tt else err code_inactive, rows) ≡ (b, codes_of rows)
granted_if true rows = refl
granted_if false rows = refl

pub revoke_refines :
    (rows : List CodeRow) (id : String) (now : ℕ)
    → pairwise same_code rows ≡ true
    → granted (revoke_code rows false id now) ≡ withdraw id (codes_of rows)
unfolding revoke_code
revoke_refines rows id now d =
    granted_if _ _
    ∙ ap (λ (o : Bool × List CodeRow). (o.0, codes_of o.1))
        (update-change_first same_code (λ row. str_eq row.id id) is_open_code
          (mark_revoked (to_ms now)) (id_unique id) rows d)
    ∙ change_first-map_rows code_of (λ row. str_eq row.id id) is_open_code
        (mark_revoked (to_ms now)) (λ c. str_eq c.id id) (λ c. is_outstanding c.phase)
        (λ (c : Code). record c { phase = withdrawn }) rows (λ x. refl)
        (λ x. is_outstanding-phase_of x.consumed x.revoked)
        (λ x good.
          ap (λ (p : Phase). record (code_of x) { phase = p })
            (sym (mark_revoked-phase (to_ms now) x good)))

module _ (encode : Bytes → String) (decode : String → Option Bytes)
    (argon2 : String → Bytes → Bytes) (identify : Bytes → String) where
  pub consume_refines :
      (rows : List CodeRow) (token : String) (hash : Bytes) (now : ℕ)
      → pairwise same_code rows ≡ true
      → token_hash_of encode decode argon2 identify token ≡ some hash
      → granted (consume_code encode decode argon2 identify rows false token now)
        ≡ spend hash (to_ms now) (codes_of rows)
  unfolding consume_code
  consume_refines rows token hash now d found =
      let ready = λ (row : CodeRow). is_open_code row && leb (to_ms now) row.expires in
      rw (found, consume_code)
        (granted_if _ _
          ∙ ap (λ (o : Bool × List CodeRow). (o.0, codes_of o.1))
              (update-change_first same_code (λ row. bytes_eq row.token_hash hash) ready
                (mark_consumed (to_ms now)) (hash_unique hash) rows d)
          ∙ change_first-map_rows code_of (λ row. bytes_eq row.token_hash hash) ready
              (mark_consumed (to_ms now)) (λ c. bytes_eq c.hash hash)
              (λ c. is_outstanding c.phase && leb (to_ms now) c.expires)
              (λ (c : Code). record c { phase = spent }) rows (λ x. refl)
              (λ x. rw (is_outstanding-phase_of x.consumed x.revoked) refl) (λ x good. refl))
