-- ===== src/Ssh/Binding.antt =====
-- The token that binds an agent's answer to its session.
use silent_devops.Prelude.{
  ℕ, String, ◌≡◌, refl, sym, ap, ◌∙◌, ◌≢◌, inl, inr, Bool, true, false, not, ◌&&◌, ◌||◌, none, some,
  List, [], ◌∷◌, arith, str_eq, str_eq_iff, ◌==◌, ==_iff, Bool-cases, Option-cases, length,
  affected, Result, ok, err,
}
use silent_devops.Prelude.Dict.{lookup, remove, lookup-remove}
use silent_devops.Auth.Token.{Bytes}
use silent_devops.Jobs.{Faults, to_ms}
use silent_devops.Ssh.{preparing, SshRow, Manager, SshError, mismatch, SshView}
use silent_devops.Ssh.Live.{differ, equal, can_become_ready, ready_rows, token_fits, ready}

differ-true : (xs ys : Bytes) → differ true xs ys ≡ true
unfolding differ
differ-true [] ys = refl
differ-true (x ∷ xs) [] = refl
differ-true (x ∷ xs) (y ∷ ys) = differ-true xs ys

differ-exact : (xs ys : Bytes) → length xs ≡ length ys → differ false xs ys ≡ false → xs ≡ ys
unfolding differ
differ-exact [] [] same h = refl
differ-exact [] (y ∷ ys) same h = absurd (omega arith)
differ-exact (x ∷ xs) [] same h = absurd (omega arith)
differ-exact (x ∷ xs) (y ∷ ys) same h = elim (Bool-cases (x == y)) [
  | inl hit ↦
      let step : differ (false || not (x == y)) xs ys ≡ differ false xs ys = rw hit refl in
      let rest = differ-exact xs ys (omega arith) (sym step ∙ h) in ground (arith, ==_iff x y)
  | inr miss ↦
      let step : differ (false || not (x == y)) xs ys ≡ differ true xs ys = rw miss refl in
      let over : differ false (x ∷ xs) (y ∷ ys) ≡ true = step ∙ differ-true xs ys in
      absurd (ground arith)
]

equal_sound : (xs ys : Bytes) → equal xs ys ≡ true → xs ≡ ys
unfolding equal
equal_sound xs ys h = differ-exact xs ys (ground arith) (ground arith)

token_fits-eq-true :
    (m : Manager) (id : String) (token : Bytes)
    → token_fits m id token ≡ true
    → lookup m.tokens id ≡ some token
unfolding token_fits
token_fits-eq-true m id token h = elim (Option-cases (lookup m.tokens id)) [
  | inl missing ↦ absurd (ground arith)
  | inr (want, found) ↦
      let fits : equal want token ≡ true = ground arith in
      found ∙ ap some (equal_sound want token fits)
]

-- What an answer that `Ready` takes shows: the token was the one that the session waits for, and
-- from then on none is.
pub record Bound (m m' : Manager) (id : String) (token : Bytes) : Type 0 where
  pub awaited : lookup m.tokens id ≡ some token
  pub preparing_row :
      affected (λ (row : SshRow). str_eq row.id id && row.state == preparing) m.rows ≢ 0
  pub used : lookup m'.tokens id ≡ none

affected-imp :
    (p q : SshRow → Bool) (rows : List SshRow)
    → ((row : SshRow) → p row ≡ true → q row ≡ true)
    → affected p rows ≢ 0
    → affected q rows ≢ 0
affected-imp p q [] imp some_row = some_row
affected-imp p q (row ∷ rows) imp some_row = elim (Bool-cases (p row)) [
  | inl hit ↦ let too : q row ≡ true = imp row hit in λ none_hit. absurd (ground arith)
  | inr miss ↦
      let rest = affected-imp p q rows imp (λ none_hit. some_row (ground arith)) in
      λ none_hit. rest (ground arith)
]

ready_rows-ok :
    (m : Manager) (fails : Bool) (id : String) (key : Bytes) (now : ℕ) (v : SshView)
    → (ready_rows m fails id key now).0 ≡ ok v
    → (affected (can_become_ready id (to_ms now)) m.rows ≡ 1)
      × ((ready_rows m fails id key now).1.tokens ≡ remove m.tokens id)
unfolding ready_rows
ready_rows-ok m fails id key now v h =
    elim (Bool-cases (affected (can_become_ready id (to_ms now)) m.rows == 1)) [
      | inl one ↦ (ground arith, rw (one, ready_rows) refl)
      | inr other ↦ absurd (ground arith)
    ]

lookup-removed : (t : List (String × Bytes)) (id : String) → lookup (remove t id) id ≡ none
lookup-removed t id = ground (arith, lookup-remove t id id, str_eq_iff id id)

not_awaited :
    (m : Manager) (faults : Faults) (id : String) (token key : Bytes) (now : ℕ)
    → lookup m.tokens id ≡ none
    → (ready m faults id token key now).0 ≡ err mismatch
unfolding ready token_fits
not_awaited m faults id token key now missing = rw (missing, ready, token_fits) refl

-- Whenever `Ready` takes an answer, the session was waiting for exactly this token and was being
-- prepared; afterwards the manager waits for no token of it, so that any second answer, whatever its
-- token, is refused as a mismatch.
pub ready_once :
    (m : Manager) (faults : Faults) (id : String) (token key : Bytes) (now : ℕ) (v : SshView)
    → (ready m faults id token key now).0 ≡ ok v
    → Bound m (ready m faults id token key now).1 id token
      × ((faults' : Faults) (token' key' : Bytes) (now' : ℕ)
          → (ready (ready m faults id token key now).1 faults' id token' key' now').0
            ≡ err mismatch)
unfolding ready
ready_once m faults id token key now v h = elim (Bool-cases (token_fits m id token)) [
  | inr strange ↦ absurd (ground arith)
  | inl fits ↦ elim (Bool-cases faults.mark) [
    | inl fails ↦ absurd (ground arith)
    | inr works ↦
        let inner : ready m faults id token key now ≡ ready_rows m faults.begin id key now =
          rw (fits, works, ready) refl in
        let (one, gone) =
          ready_rows-ok m faults.begin id key now v (ap (λ o. o.0) (sym inner) ∙ h) in
        let used : lookup (ready m faults id token key now).1.tokens id ≡ none =
          ap (λ (o : Result SshError SshView × Manager). lookup o.1.tokens id) inner
          ∙ ap (λ (t : List (String × Bytes)). lookup t id) gone
          ∙ lookup-removed m.tokens id in
        (
          record {
            awaited = token_fits-eq-true m id token fits;
            preparing_row =
                affected-imp (can_become_ready id (to_ms now)) _ m.rows (λ row good. ground arith)
                  (λ none_hit. absurd (ground arith));
            used = used;
          },
          λ faults' token' key' now'.
              not_awaited (ready m faults id token key now).1 faults' id token' key' now' used,
        )
  ]
]
