-- ===== src/Ssh/Closed.antt =====
-- A session that is over stays over.
use silent_devops.Prelude.{
  ℕ, ◌<◌, String, ◌≡◌, refl, ◌≢◌, inl, inr, Bool, false, not, ◌||◌, some, List, [], ◌∷◌, arith,
  str_eq, str_eq_iff, leb, ◌==◌, Bool-cases, update, exists, ok, fail_if, or_fail, >>=-eq-ok,
}
use silent_devops.Jobs.{to_ms}
use silent_devops.Ssh.{
  ready_state, SshRow, Manager, not_ready, session_unknown, not_owned, expired, ids_required,
  is_live, collides,
}
use silent_devops.Ssh.Live.{find_session, bridge}
use silent_devops.Ssh.Steps.{
  Step, step, run, Moves, same_rows, added_row, readied, closed_rows, expired_rows, step-Moves,
}

-- A row that is not live stays as it is.
find_session-id :
    (rows : List SshRow) (id : String) (row : SshRow)
    → find_session rows id ≡ some row
    → row.id ≡ id
find_session-id [] id row h = absurd (ground arith)
find_session-id (x ∷ rows) id row h = elim (Bool-cases (str_eq x.id id)) [
  | inl hit ↦ ground (arith, str_eq_iff x.id id)
  | inr miss ↦ find_session-id rows id row (ground arith)
]

find_session-update :
    (p : SshRow → Bool) (f : SshRow → SshRow) (rows : List SshRow) (id : String) (row : SshRow)
    → ((x : SshRow) → (f x).id ≡ x.id)
    → p row ≡ false
    → find_session rows id ≡ some row
    → find_session (update p f rows) id ≡ some row
find_session-update p f [] id row keeps out h = h
find_session-update p f (x ∷ rows) id row keeps out h = elim (Bool-cases (str_eq x.id id)) [
  | inl hit ↦
      let same : x ≡ row = ground arith in
      let missed : p x ≡ false = rw same out in rw (missed, hit, same) refl
  | inr miss ↦
      let rest = find_session-update p f rows id row keeps out (ground arith) in
      elim (Bool-cases (p x)) [
        | inl chosen ↦ rw (chosen, keeps x, miss) rest
        | inr passed ↦ rw (passed, miss) rest
      ]
]

new_session :
    (new : SshRow) (rows : List SshRow) (id : String) (row : SshRow)
    → exists (collides new) rows ≡ false
    → find_session rows id ≡ some row
    → str_eq new.id id ≡ false
new_session new [] id row alone h = absurd (ground arith)
new_session new (x ∷ rows) id row alone h = elim (Bool-cases (str_eq x.id id)) [
  | inl hit ↦ ground (arith, str_eq_iff x.id id, str_eq_iff x.id new.id, str_eq_iff new.id id)
  | inr miss ↦ new_session new rows id row (ground arith) (ground arith)
]

Moves-stay :
    (rows rows' : List SshRow) (id : String) (row : SshRow)
    → Moves rows rows'
    → is_live row.state ≡ false
    → find_session rows id ≡ some row
    → find_session rows' id ≡ some row
Moves-stay rows rows' id row (same_rows same) dead h = rw same h
Moves-stay rows rows' id row (added_row new p same alone fresh) dead h =
    rw (same, new_session new rows id row alone h) h
Moves-stay rows rows' id row (readied i now key same) dead h =
    rw same (find_session-update _ _ rows id row (λ x. refl) (ground arith) h)
Moves-stay rows rows' id row (closed_rows i same) dead h =
    rw same (find_session-update _ _ rows id row (λ x. refl) (ground arith) h)
Moves-stay rows rows' id row (expired_rows now same) dead h =
    rw same (find_session-update _ _ rows id row (λ x. refl) (ground arith) h)

run-stay :
    (m : Manager) (steps : List Step) (id : String) (row : SshRow)
    → is_live row.state ≡ false
    → find_session m.rows id ≡ some row
    → find_session (run m steps).rows id ≡ some row
unfolding run
run-stay m [] id row dead h = h
run-stay m (s ∷ more) id row dead h =
    run-stay (step m s) more id row dead
      (Moves-stay m.rows (step m s).rows id row (step-Moves m s) dead h)

-- What a bridge to an agent needs: the session of the actor, ready and not expired.
pub bridge-eq-ok :
    (m : Manager) (fails : Bool) (id actor : String) (now : ℕ) (agent : String)
    → bridge m fails id actor now ≡ ok agent
    → (row : SshRow) × (find_session m.rows id ≡ some row)
      × (row.actor_id ≡ actor)
      × (row.state ≡ ready_state)
      × (to_ms now < row.expires)
      × (row.agent_id ≡ agent)
unfolding bridge
bridge-eq-ok m fails id actor now agent h =
    let (u, given, h1) = >>=-eq-ok (fail_if (str_eq id "" || str_eq actor "") ids_required) _ h in
    let (u, read, h2) = >>=-eq-ok (fail_if fails session_unknown) _ h1 in
    let (row, found, h3) = >>=-eq-ok (or_fail (find_session m.rows id) session_unknown) _ h2 in
    let (u, own, h4) = >>=-eq-ok (fail_if (not (str_eq row.actor_id actor)) not_owned) _ h3 in
    let (u, up, h5) = >>=-eq-ok (fail_if (not (row.state == ready_state)) not_ready) _ h4 in
    let (u, alive, last) = >>=-eq-ok (fail_if (leb row.expires (to_ms now)) expired) _ h5 in
    (
      row,
      ground arith,
      ground (arith, str_eq_iff row.actor_id actor),
      ground arith,
      ground arith,
      ground arith,
    )

-- Once a session is closed or expired, no later calls, in any order, make it bridge to an agent again.
pub closed_stays_closed :
    (m : Manager) (steps : List Step) (id : String) (row : SshRow) (fails : Bool) (actor : String)
    (now : ℕ) (agent : String)
    → is_live row.state ≡ false
    → find_session m.rows id ≡ some row
    → bridge (run m steps) fails id actor now ≢ ok agent
closed_stays_closed m steps id row fails actor now agent dead h opened =
    let (other, found, own, up, alive, its) =
      bridge-eq-ok (run m steps) fails id actor now agent opened in
    let still = run-stay m steps id row dead h in
    let same : other ≡ row = ground arith in
    let over : is_live other.state ≡ false = rw same dead in absurd (ground arith)
