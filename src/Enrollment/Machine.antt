-- ===== src/Enrollment/Machine.antt =====
-- The join codes over any calls: the program runs as the contract does.
use silent_devops.Prelude.{
  ℕ, ◌+◌, String, ◌≡◌, refl, sym, ap, ◌∙◌, inl, inr, Bool, true, false, not, ◌||◌, Option, none,
  some, List, [], ◌∷◌, arith, str_eq, ◌==◌, if◌then◌else◌, Bool-cases, Option-cases, take, pairwise,
  pairwise-update, exists-map_rows, exists, is_ok,
}
use silent_devops.Auth.Token.{Bytes}
use silent_devops.Jobs.{has, to_ms}
use silent_devops.Enrollment.{
  CodeRow, same_code, knows, creator_of, insert_code, can_consume, mark_consumed, can_revoke,
  mark_revoked, revoke_code, answer_insert, new_code, create_code, token_hash_of, consume_code,
}
use silent_devops.Enrollment.Refine.{
  outstanding, Code, spend, withdraw, same_contract, grant, code_of, codes_of, granted,
  revoke_refines, consume_refines,
}

-- The calls, with what the storage and crypto/rand do.
pub data CodeCall : Type 0 where
  issues : List String → Bool → Option Bytes → String → ℕ → ℕ → CodeCall
  spends : Bool → String → ℕ → CodeCall
  withdraws : Bool → String → ℕ → CodeCall

module _ (encode : Bytes → String) (decode : String → Option Bytes)
    (argon2 : String → Bytes → Bytes) (identify : Bytes → String) where
  unfoldable pub step_code : List CodeRow → CodeCall → Bool × List CodeRow
  step_code rows (issues users fails drawn creator now ttl) =
      let o = create_code encode decode argon2 identify users rows fails drawn creator now ttl in
      (is_ok o.0, o.1)
  step_code rows (spends fails token now) =
      let o = consume_code encode decode argon2 identify rows fails token now in (is_ok o.0, o.1)
  step_code rows (withdraws fails id now) =
      let o = revoke_code rows fails id now in (is_ok o.0, o.1)

  abbrev pub contract_code : Bytes → ℕ → Code
  contract_code raw expires = record {
    id = identify raw;
    hash = argon2 (encode raw) (take 16 raw);
    expires = expires;
    phase = outstanding;
  }

  -- A call that the storage fails, or whose arguments are no good, is refused and changes nothing.
  unfoldable pub step_contract : List Code → CodeCall → Bool × List Code
  step_contract codes (issues users fails none creator now ttl) = (false, codes)
  step_contract codes (issues users fails (some raw) creator now ttl) =
      if (ttl == 0 || fails) || not (str_eq creator "" || has creator users)
      then (false, codes)
      else grant (contract_code raw (to_ms (now + ttl))) codes
  step_contract codes (spends fails token now) =
      elim (token_hash_of encode decode argon2 identify token) [
        | none ↦ (false, codes)
        | some hash ↦ if fails then (false, codes) else spend hash (to_ms now) codes
      ]
  step_contract codes (withdraws fails id now) = if fails then (false, codes) else withdraw id codes

  knows-creator_of :
      (users : List String) (creator : String)
      → knows users (creator_of creator) ≡ (str_eq creator "" || has creator users)
  knows-creator_of users creator = elim (Bool-cases (str_eq creator "")) [
    | inl empty ↦ rw empty refl
    | inr named ↦ rw named refl
  ]

  insert_unknown :
      (users : List String) (rows : List CodeRow) (row : CodeRow)
      → knows users row.created_by ≡ false
      → insert_code users rows row ≡ none
  unfolding insert_code
  insert_unknown users rows row unknown = elim (Bool-cases (exists (same_code row) rows)) [
    | inl taken ↦ rw (taken) refl
    | inr free ↦ rw (free, unknown) refl
  ]

  granted_insert :
      (users : List String) (rows : List CodeRow) (raw : Bytes) (creator : String) (expires : ℕ)
      → knows users (creator_of creator) ≡ true
      → granted (
          answer_insert rows (encode raw) (
            insert_code users rows
              (new_code encode decode argon2 identify raw (creator_of creator) expires)))
        ≡ grant (contract_code raw expires) (codes_of rows)
  unfolding insert_code
  granted_insert users rows raw creator expires known =
      let row = new_code encode decode argon2 identify raw (creator_of creator) expires in
      let same =
        exists-map_rows code_of (same_code row) (same_contract (contract_code raw expires)) rows
          (λ x. refl) in
      elim (Bool-cases (exists (same_code row) rows)) [
        | inl taken ↦ rw (known, same, taken) refl
        | inr free ↦ rw (known, same, free) refl
      ]

  issue_refines :
      (rows : List CodeRow) (users : List String) (fails : Bool) (raw : Bytes) (creator : String)
      (now ttl : ℕ)
      → granted
          (create_code encode decode argon2 identify users rows fails (some raw) creator now ttl)
        ≡ step_contract (codes_of rows) (issues users fails (some raw) creator now ttl)
  unfolding create_code step_contract
  issue_refines rows users fails raw creator now ttl = elim (Bool-cases (ttl == 0)) [
    | inl zero_ttl ↦ rw (zero_ttl) refl
    | inr lives ↦ elim (Bool-cases fails) [
      | inl broken ↦ rw (lives, broken) refl
      | inr works ↦
          let same = knows-creator_of users creator in
          elim (Bool-cases (knows users (creator_of creator))) [
            | inl known ↦
                let may = sym same ∙ known in
                rw (lives, works, may)
                  (granted_insert users rows raw creator (to_ms (now + ttl)) known)
            | inr unknown ↦
                let may_not = sym same ∙ unknown in
                rw (lives, works, may_not)
                  (rw
                    (insert_unknown users rows
                      (new_code encode decode argon2 identify raw (creator_of creator)
                        (to_ms (now + ttl)))
                      unknown)
                    refl)
          ]
    ]
  ]

  no_bytes_drawn :
      (rows : List CodeRow) (users : List String) (fails : Bool) (creator : String) (now ttl : ℕ)
      → granted (create_code encode decode argon2 identify users rows fails none creator now ttl)
        ≡ (false, codes_of rows)
  unfolding create_code
  no_bytes_drawn rows users fails creator now ttl = elim (Bool-cases (ttl == 0)) [
    | inl zero_ttl ↦ rw zero_ttl refl
    | inr lives ↦ rw lives refl
  ]

  spend_refines :
      (rows : List CodeRow) (fails : Bool) (token : String) (now : ℕ)
      → pairwise same_code rows ≡ true
      → granted (consume_code encode decode argon2 identify rows fails token now)
        ≡ step_contract (codes_of rows) (spends fails token now)
  unfolding step_contract
  spend_refines rows fails token now d =
      elim (Option-cases (token_hash_of encode decode argon2 identify token)) [
        | inl malformed ↦
            rw (malformed, step_contract) (unfold consume_code in rw (malformed, consume_code) refl)
        | inr (hash, found) ↦ elim (Bool-cases fails) [
          | inl broken ↦
              rw (found, broken, step_contract)
                (unfold consume_code in rw (found, consume_code) refl)
          | inr works ↦
              rw (found, works, step_contract)
                (consume_refines encode decode argon2 identify rows token hash now d found)
        ]
      ]

  step_refines :
      (rows : List CodeRow) (call : CodeCall)
      → pairwise same_code rows ≡ true
      → ((step_code rows call).0, codes_of (step_code rows call).1)
        ≡ step_contract (codes_of rows) call
  unfolding step_code step_contract
  step_refines rows (issues users fails none creator now ttl) d =
      no_bytes_drawn rows users fails creator now ttl
  step_refines rows (issues users fails (some raw) creator now ttl) d =
      issue_refines rows users fails raw creator now ttl
  step_refines rows (spends fails token now) d = spend_refines rows fails token now d
  step_refines rows (withdraws true id now) d = unfold revoke_code in refl
  step_refines rows (withdraws false id now) d = revoke_refines rows id now d

  create_keeps :
      (users : List String) (rows : List CodeRow) (token : String) (row : CodeRow)
      → pairwise same_code rows ≡ true
      → pairwise same_code (answer_insert rows token (insert_code users rows row)).1 ≡ true
  unfolding insert_code
  create_keeps users rows token row d =
      elim (Bool-cases (exists (same_code row) rows || not (knows users row.created_by))) [
        | inl bad ↦ rw bad d
        | inr good ↦ rw good (ground (arith, d))
      ]

  spend_keeps :
      (rows : List CodeRow) (fails : Bool) (token : String) (now : ℕ)
      → pairwise same_code rows ≡ true
      → pairwise same_code (consume_code encode decode argon2 identify rows fails token now).1
        ≡ true
  unfolding consume_code
  spend_keeps rows fails token now d =
      elim (Option-cases (token_hash_of encode decode argon2 identify token)) [
        | inl malformed ↦ rw (malformed, consume_code) d
        | inr (hash, found) ↦ elim (Bool-cases fails) [
          | inl broken ↦ rw (found, broken, consume_code) d
          | inr works ↦
              rw (found, works, consume_code)
                (pairwise-update same_code (can_consume hash (to_ms now))
                    (mark_consumed (to_ms now)) rows (λ new x. refl) (λ x old. refl)
                  ∙ d)
        ]
      ]

  step_keeps :
      (rows : List CodeRow) (call : CodeCall)
      → pairwise same_code rows ≡ true
      → pairwise same_code (step_code rows call).1 ≡ true
  unfolding step_code create_code consume_code revoke_code
  step_keeps rows (issues users fails none creator now ttl) d = elim (Bool-cases (ttl == 0)) [
    | inl zero_ttl ↦ rw zero_ttl d
    | inr lives ↦ rw lives d
  ]
  step_keeps rows (issues users fails (some raw) creator now ttl) d = elim (Bool-cases (ttl == 0)) [
    | inl zero_ttl ↦ rw zero_ttl d
    | inr lives ↦ elim (Bool-cases fails) [
      | inl broken ↦ rw (lives, broken) d
      | inr works ↦
          rw (lives, works)
            (create_keeps users rows (encode raw)
              (new_code encode decode argon2 identify raw (creator_of creator) (to_ms (now + ttl)))
              d)
    ]
  ]
  step_keeps rows (spends fails token now) d = spend_keeps rows fails token now d
  step_keeps rows (withdraws true id now) d = d
  step_keeps rows (withdraws false id now) d =
      pairwise-update same_code (can_revoke id) (mark_revoked (to_ms now)) rows (λ new x. refl)
        (λ x old. refl)
      ∙ d

  unfoldable pub run_codes : List CodeRow → List CodeCall → List Bool × List CodeRow
  run_codes rows [] = ([], rows)
  run_codes rows (call ∷ calls) =
      let (answer, rows') = step_code rows call in
      let (answers, last) = run_codes rows' calls in (answer ∷ answers, last)

  unfoldable pub run_contract : List Code → List CodeCall → List Bool × List Code
  run_contract codes [] = ([], codes)
  run_contract codes (call ∷ calls) =
      let (answer, codes') = step_contract codes call in
      let (answers, last) = run_contract codes' calls in (answer ∷ answers, last)

  -- The join codes refine their contract: from a table without clashing rows, over any calls and any
  -- failing statements, the program gives the answers of the contract, and ends in a table that the
  -- contract's last state is the view of.
  pub run_refines :
      (rows : List CodeRow) (calls : List CodeCall)
      → pairwise same_code rows ≡ true
      → ((run_codes rows calls).0, codes_of (run_codes rows calls).1)
        ≡ run_contract (codes_of rows) calls
  unfolding run_codes run_contract
  run_refines rows [] d = refl
  run_refines rows (call ∷ calls) d =
      let first = step_refines rows call d in
      let rest = run_refines (step_code rows call).1 calls (step_keeps rows call d) in
      ap (λ (o : List Bool × List Code). ((step_code rows call).0 ∷ o.0, o.1)) rest
      ∙ ap
          (λ (o : Bool × List Code). (o.0 ∷ (run_contract o.1 calls).0, (run_contract o.1 calls).1))
          first
