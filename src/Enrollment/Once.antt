-- ===== src/Enrollment/Once.antt =====
-- A join code serves once.
use silent_devops.Prelude.{
  ℕ, ◌+◌, ◌≤◌, String, ◌≡◌, refl, sym, ap, ◌∙◌, inl, inr, Bool, true, false, not, ◌&&◌, ◌||◌,
  Option, none, some, List, [], ◌∷◌, arith, str_eq, str_eq_iff, leb, ◌==◌, if◌then◌else◌,
  Bool-cases, Option-cases, pairwise, change_first, exists, bytes_eq, bytes_eq_sound,
}
use silent_devops.Auth.Token.{Bytes}
use silent_devops.Jobs.{has, to_ms}
use silent_devops.Enrollment.{CodeRow, same_code, token_hash_of}
use silent_devops.Enrollment.Refine.{
  outstanding, Code, is_outstanding, spend, same_contract, grant, codes_of,
}
use silent_devops.Enrollment.Machine.{
  CodeCall, issues, spends, withdraws, contract_code, step_contract, run_codes, run_contract,
  run_refines,
}

-- How often a code can still be spent: once if it is not there yet, or is outstanding.
abbrev budget : Bytes → List Code → ℕ
budget hash [] = 1
budget hash (c ∷ codes) =
    let rest = budget hash codes in
    if bytes_eq c.hash hash then (if is_outstanding c.phase then 1 else 0) else rest

-- A change that makes nothing outstanding again does not raise it.
change-budget :
    (hash : Bytes) (key ready : Code → Bool) (f : Code → Code) (codes : List Code)
    → ((c : Code) → (f c).hash ≡ c.hash)
    → ((c : Code) → is_outstanding (f c).phase ≡ false)
    → budget hash (change_first key ready f codes).1 ≤ budget hash codes
change-budget hash key ready f [] keeps over = omega arith
change-budget hash key ready f (c ∷ codes) keeps over =
    let rest = change-budget hash key ready f codes keeps over in
    let gone = over c in
    elim (Bool-cases (key c)) [
      | inl own ↦ elim (Bool-cases (ready c)) [
        | inl good ↦ rw (own, good, keeps c, gone) (ground arith)
        | inr bad ↦ rw (own, bad) (omega arith)
      ]
      | inr other ↦ rw other (ground arith)
    ]

spend-budget :
    (hash : Bytes) (now : ℕ) (codes : List Code)
    → (spend hash now codes).0 ≡ true
    → (budget hash codes ≡ 1) × (budget hash (spend hash now codes).1 ≡ 0)
spend-budget hash now [] h = absurd (ground arith)
spend-budget hash now (c ∷ codes) h = elim (Bool-cases (bytes_eq c.hash hash)) [
  | inl own ↦ elim (Bool-cases (is_outstanding c.phase && leb now c.expires)) [
    | inl good ↦ (ground arith, rw (own, good, own) refl)
    | inr bad ↦ absurd (ground arith)
  ]
  | inr other ↦
      let (full, none_left) = spend-budget hash now codes (ground arith) in
      (rw other full, rw (other, other) none_left)
]

unused-budget :
    (c : Code) (codes : List Code)
    → exists (same_contract c) codes ≡ false
    → budget c.hash codes ≡ 1
unused-budget c [] h = refl
unused-budget c (d ∷ codes) h =
    let other : bytes_eq d.hash c.hash ≡ false = ground arith in
    rw other (unused-budget c codes (ground arith))

grant-budget :
    (hash : Bytes) (c : Code) (codes : List Code)
    → c.phase ≡ outstanding
    → budget hash (grant c codes).1 ≤ budget hash codes
grant-budget hash c codes fresh = elim (Bool-cases (exists (same_contract c) codes)) [
  | inl taken ↦ rw taken (omega arith)
  | inr free ↦ elim (Bool-cases (bytes_eq c.hash hash)) [
    | inl own ↦
        let same = bytes_eq_sound c.hash hash own in
        let full : budget hash codes ≡ 1 =
          ap (λ (h : Bytes). budget h codes) (sym same) ∙ unused-budget c codes free in
        rw (free, own, full, fresh) (omega arith)
    | inr other ↦ rw (free, other) (omega arith)
  ]
]

budget_bound : (hash : Bytes) (codes : List Code) → budget hash codes ≤ 1
budget_bound hash [] = omega arith
budget_bound hash (c ∷ codes) = ground (arith, budget_bound hash codes)

module _ (encode : Bytes → String) (decode : String → Option Bytes)
    (argon2 : String → Bytes → Bytes) (identify : Bytes → String) where
  -- How many of the calls spend the token with success.
  unfoldable pub spendings : String → List CodeCall → List Bool → ℕ
  spendings token [] answers = 0
  spendings token (call ∷ calls) [] = 0
  spendings token (spends fails t now ∷ calls) (a ∷ answers) =
      (if str_eq t token && a then 1 else 0) + spendings token calls answers
  spendings token (issues users fails drawn creator now ttl ∷ calls) (a ∷ answers) =
      spendings token calls answers
  spendings token (withdraws fails id now ∷ calls) (a ∷ answers) = spendings token calls answers

  issue-budget :
      (hash : Bytes) (codes : List Code) (users : List String) (fails : Bool) (drawn : Option Bytes)
      (creator : String) (now ttl : ℕ)
      → budget hash
          (step_contract encode decode argon2 identify codes
            (issues users fails drawn creator now ttl)).1
        ≤ budget hash codes
  unfolding step_contract
  issue-budget hash codes users fails none creator now ttl = omega arith
  issue-budget hash codes users fails (some raw) creator now ttl =
      elim (Bool-cases ((ttl == 0 || fails) || not (str_eq creator "" || has creator users))) [
        | inl bad ↦ rw bad (omega arith)
        | inr good ↦ rw good (
            grant-budget hash (contract_code encode decode argon2 identify raw (to_ms (now + ttl)))
              codes refl)
      ]

  withdraw-budget :
      (hash : Bytes) (codes : List Code) (fails : Bool) (id : String) (now : ℕ)
      → budget hash (step_contract encode decode argon2 identify codes (withdraws fails id now)).1
        ≤ budget hash codes
  unfolding step_contract
  withdraw-budget hash codes true id now = omega arith
  withdraw-budget hash codes false id now =
      change-budget hash (λ c. str_eq c.id id) _ _ codes (λ c. refl) (λ c. refl)

  spend_other-budget :
      (hash : Bytes) (codes : List Code) (fails : Bool) (token : String) (now : ℕ)
      → budget hash (step_contract encode decode argon2 identify codes (spends fails token now)).1
        ≤ budget hash codes
  unfolding step_contract
  spend_other-budget hash codes fails token now =
      elim (Option-cases (token_hash_of encode decode argon2 identify token)) [
        | inl malformed ↦ rw (malformed, step_contract) (omega arith)
        | inr (other, found) ↦ elim (Bool-cases fails) [
          | inl broken ↦ rw (found, broken, step_contract) (omega arith)
          | inr works ↦
              rw (found, works, step_contract)
                (change-budget hash (λ c. bytes_eq c.hash other) _ _ codes (λ c. refl) (λ c. refl))
        ]
      ]

  spend_own-budget :
      (hash : Bytes) (codes : List Code) (fails : Bool) (token : String) (now : ℕ)
      → token_hash_of encode decode argon2 identify token ≡ some hash
      → (step_contract encode decode argon2 identify codes (spends fails token now)).0 ≡ true
      → (budget hash codes ≡ 1)
        × (budget hash
              (step_contract encode decode argon2 identify codes (spends fails token now)).1
            ≡ 0)
  unfolding step_contract
  spend_own-budget hash codes true token now found h =
      let same : step_contract encode decode argon2 identify codes (spends true token now)
          ≡ (false, codes) =
        rw (found, step_contract) refl in
      let no_answer = sym (ap (λ (o : Bool × List Code). o.0) same) ∙ h in
      absurd (ground (arith, no_answer))
  spend_own-budget hash codes false token now found h =
      let same : step_contract encode decode argon2 identify codes (spends false token now)
          ≡ spend hash (to_ms now) codes =
        rw (found, step_contract) refl in
      let answer = sym (ap (λ (o : Bool × List Code). o.0) same) ∙ h in
      let (full, none_left) = spend-budget hash (to_ms now) codes answer in
      (full, ap (λ (o : Bool × List Code). budget hash o.1) same ∙ none_left)

  spendings-budget :
      (token : String) (hash : Bytes) (codes : List Code) (calls : List CodeCall)
      → token_hash_of encode decode argon2 identify token ≡ some hash
      → spendings token calls (run_contract encode decode argon2 identify codes calls).0
        ≤ budget hash codes
  unfolding spendings run_contract
  spendings-budget token hash codes [] found = omega arith
  spendings-budget token hash codes (issues users fails drawn creator now ttl ∷ calls) found =
      let call = issues users fails drawn creator now ttl in
      omega (
        arith,
        spendings-budget token hash (step_contract encode decode argon2 identify codes call).1 calls
            found,
        issue-budget hash codes users fails drawn creator now ttl,
      )
  spendings-budget token hash codes (withdraws fails id now ∷ calls) found =
      let call = withdraws fails id now in
      omega (
        arith,
        spendings-budget token hash (step_contract encode decode argon2 identify codes call).1 calls
            found,
        withdraw-budget hash codes fails id now,
      )
  spendings-budget token hash codes (spends fails t now ∷ calls) found =
      let call = spends fails t now in
      let rest =
        spendings-budget token hash (step_contract encode decode argon2 identify codes call).1 calls
          found in
      let less = spend_other-budget hash codes fails t now in
      elim (Bool-cases (str_eq t token)) [
        | inr other ↦ rw other (omega arith)
        | inl own ↦ elim (Bool-cases (step_contract encode decode argon2 identify codes call).0) [
          | inr refused ↦ rw (own, refused) (omega arith)
          | inl taken ↦
              let same : t ≡ token = ground (arith, str_eq_iff t token) in
              let (full, none_left) =
                spend_own-budget hash codes fails t now
                  (ap (token_hash_of encode decode argon2 identify) same ∙ found) taken in
              rw (own, taken) (omega arith)
        ]
      ]

  -- Whatever the calls and the failing statements: a well-formed token is taken at most once.
  pub code_once :
      (rows : List CodeRow) (calls : List CodeCall) (token : String) (hash : Bytes)
      → pairwise same_code rows ≡ true
      → token_hash_of encode decode argon2 identify token ≡ some hash
      → spendings token calls (run_codes encode decode argon2 identify rows calls).0 ≤ 1
  code_once rows calls token hash d found =
      let same = run_refines encode decode argon2 identify rows calls d in
      let answers = ap (λ (o : List Bool × List Code). spendings token calls o.0) same in
      omega (
        arith,
        answers,
        spendings-budget token hash (codes_of rows) calls found,
        budget_bound hash (codes_of rows),
      )
