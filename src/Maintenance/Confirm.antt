-- ===== src/Maintenance/Confirm.antt =====
-- Values that serve once: the reboot confirmations of internal/maintenance/operations.go and the
-- cleanup previews of maintenance.go. Drawn identifiers are arguments, and none is an error of
-- crypto/rand; instants are nanoseconds.
use silent_devops.Prelude.{
  ℕ, ◌+◌, ◌≤◌, ◌<◌, String, ◌≡◌, refl, ◌≢◌, true, false, ◌||◌, Option, none, some, List, arith,
  str_eq, str_eq_iff, ltb, ◌==◌, if◌then◌else◌, Result, ok, err,
}
use silent_devops.Prelude.Dict.{lookup, remove, insert, lookup-remove, lookup-insert}

pub record RebootConfirmation : Type 0 where
  pub agent_id : String
  pub expires : ℕ

pub record RebootManager : Type 0 where
  pub ttl : ℕ
  pub tokens : List (String × RebootConfirmation)

pub data ConfirmError : Type 0 where
  arguments_required no_randomness invalid_confirmation : ConfirmError

unfoldable pub confirm :
    RebootManager → Option String → String → ℕ → Result ConfirmError String × RebootManager
confirm m drawn agent now =
    if str_eq agent "" || m.ttl == 0 then (err arguments_required, m) else elim drawn [
      | none ↦ (err no_randomness, m)
      | some token ↦ (
        ok token,
        record m {
          tokens = insert m.tokens token (record { agent_id = agent; expires = now + m.ttl });
        },
      )
    ]

-- `Consume`: the token of another agent stays.
unfoldable pub consume :
    RebootManager → String → String → ℕ → Result ConfirmError (Unit {0}) × RebootManager
consume m agent token now = elim (lookup m.tokens token) [
  | none ↦ (err invalid_confirmation, m)
  | some c ↦
      if str_eq c.agent_id agent
      then (
        if ltb c.expires now then err invalid_confirmation else ok tt,
        record m { tokens = remove m.tokens token },
      )
      else (err invalid_confirmation, m)
]

not_confirmed :
    (m : RebootManager) (agent token : String) (now : ℕ)
    → lookup m.tokens token ≡ none
    → (consume m agent token now).0 ≡ err invalid_confirmation
unfolding consume
not_confirmed m agent token now missing = rw (missing, consume) refl

with_token : RebootManager → String → String → ℕ → RebootManager
with_token m agent token now = record m {
  tokens = insert m.tokens token (record { agent_id = agent; expires = now + m.ttl });
}

confirm_lem :
    (m : RebootManager) (agent token : String) (now : ℕ)
    → agent ≢ ""
    → 0 < m.ttl
    → confirm m (some token) agent now ≡ (ok token, with_token m agent token now)
unfolding confirm with_token
confirm_lem m agent token now named lives =
    let good : (str_eq agent "" || m.ttl == 0) ≡ false = ground (arith, str_eq_iff agent "") in
    rw (good, confirm) refl

consume_lem :
    (m : RebootManager) (agent token : String) (now : ℕ) (c : RebootConfirmation)
    → lookup m.tokens token ≡ some c
    → c.agent_id ≡ agent
    → consume m agent token now ≡ (
      if ltb c.expires now then err invalid_confirmation else ok tt,
      record m { tokens = remove m.tokens token },
    )
unfolding consume
consume_lem m agent token now c found own =
    let hit : str_eq c.agent_id agent ≡ true = ground (arith, str_eq_iff c.agent_id agent) in
    rw (found, hit, consume) refl

consume_strange :
    (m : RebootManager) (agent token : String) (now : ℕ) (c : RebootConfirmation)
    → lookup m.tokens token ≡ some c
    → c.agent_id ≢ agent
    → consume m agent token now ≡ (err invalid_confirmation, m)
unfolding consume
consume_strange m agent token now c found differs =
    let miss : str_eq c.agent_id agent ≡ false = ground (arith, str_eq_iff c.agent_id agent) in
    rw (found, miss, consume) refl

with_token-found :
    (m : RebootManager) (agent token : String) (now : ℕ)
    → lookup (with_token m agent token now).tokens token
      ≡ some (record { agent_id = agent; expires = now + m.ttl })
unfolding with_token
with_token-found m agent token now = ground (
  arith,
  lookup-insert m.tokens token token (record { agent_id = agent; expires = now + m.ttl }),
  str_eq_iff token token,
)

-- A reboot confirmation that is given for an agent is taken from no other agent, and stays for its own.
-- From its own it is taken until it expires, and refused after that; having been presented in time or
-- too late, it is not taken again, from any agent.
pub confirm_once :
    (m : RebootManager) (agent other token : String) (now later late again : ℕ)
    → agent ≢ ""
    → 0 < m.ttl
    → agent ≢ other
    → later ≤ now + m.ttl
    → now + m.ttl < late
    → let given = confirm m (some token) agent now in
      (given.0 ≡ ok token)
      × (consume given.1 other token later ≡ (err invalid_confirmation, given.1))
      × ((consume given.1 agent token later).0 ≡ ok tt)
      × ((consume given.1 agent token late).0 ≡ err invalid_confirmation)
      × ((anyone : String)
          → (consume (consume given.1 agent token later).1 anyone token again).0
            ≡ err invalid_confirmation)
      × ((anyone : String)
          → (consume (consume given.1 agent token late).1 anyone token again).0
            ≡ err invalid_confirmation)
confirm_once m agent other token now later late again named lives differs soon over =
    let c : RebootConfirmation = record { agent_id = agent; expires = now + m.ttl } in
    let m1 = with_token m agent token now in
    let m2 : RebootManager = record m1 { tokens = remove m1.tokens token } in
    let there = with_token-found m agent token now in
    let alive : ltb (now + m.ttl) later ≡ false = ground arith in
    let expired : ltb (now + m.ttl) late ≡ true = ground arith in
    let taken = consume_lem m1 agent token later c there refl in
    let too_late = consume_lem m1 agent token late c there refl in
    let gone : lookup (remove m1.tokens token) token ≡ none =
      ground (arith, lookup-remove m1.tokens token token, str_eq_iff token token) in
    rw (confirm_lem m agent token now named lives) (
      refl,
      consume_strange m1 other token later c there differs,
      rw (taken, alive) refl,
      rw (too_late, expired) refl,
      λ anyone. rw taken (not_confirmed m2 anyone token again gone),
      λ anyone. rw too_late (not_confirmed m2 anyone token again gone),
    )
