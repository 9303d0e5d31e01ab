-- ===== src/Ssh/Steps.antt =====
-- The calls of the session manager in any order.
use silent_devops.Prelude.{
  ℕ, String, ◌≡◌, refl, inl, inr, Bool, true, false, not, ◌&&◌, Option, none, some, List, [], ◌∷◌,
  arith, str_eq, ◌==◌, Bool-cases, Result-cases, exists-update-false, affected, update, exists,
}
use silent_devops.Auth.Token.{Bytes}
use silent_devops.Jobs.{Faults, to_ms}
use silent_devops.Ssh.{
  preparing, SshRow, Manager, is_live, port_clash, collides, Draws, Asked, create_rows, create,
}
use silent_devops.Ssh.Live.{
  can_become_ready, make_ready, ready_rows, token_fits, ready, can_close, close_row, close,
  can_expire, expire_row, reconcile,
}
use silent_devops.Ssh.Ports.{create_rows-eq-ok}

-- The calls, with what the storage, crypto/rand and the clock do.
pub data Step : Type 0 where
  creates : Faults → Draws → Asked → ℕ → Step
  readies : Faults → String → Bytes → Bytes → ℕ → Step
  closes : Faults → String → String → Step
  reconciles : Bool → ℕ → Step

unfoldable pub step : Manager → Step → Manager
step m (creates faults draws q now) = (create m faults draws q now).1
step m (readies faults id token key now) = (ready m faults id token key now).1
step m (closes faults id reason) = (close m faults id reason).1
step m (reconciles fails now) = reconcile m fails now

unfoldable pub run : Manager → List Step → Manager
run m [] = m
run m (s ∷ more) = run (step m s) more

-- How a call changes the rows.
pub data Moves (rows rows' : List SshRow) : Type 0 where
  same_rows : rows' ≡ rows → Moves rows rows'
  added_row :
      (row : SshRow) (p : ℕ)
      → rows' ≡ row ∷ rows
      → exists (collides row) rows ≡ false
      → row.state ≡ preparing
      → Moves rows rows'
  readied :
      (id : String) (now : ℕ) (key : Bytes)
      → rows' ≡ update (can_become_ready id now) (make_ready key) rows
      → Moves rows rows'
  closed_rows : (id : String) → rows' ≡ update (can_close id) close_row rows → Moves rows rows'
  expired_rows : (now : ℕ) → rows' ≡ update (can_expire now) expire_row rows → Moves rows rows'

create-Moves :
    (m : Manager) (faults : Faults) (draws : Draws) (q : Asked) (now : ℕ)
    → Moves m.rows (create m faults draws q now).1.rows
unfolding create
create-Moves m faults draws q now = elim (Result-cases (create_rows m faults draws q now)) [
  | inl (why, e) ↦ same_rows (rw (e, create) refl)
  | inr ((row, token, m'), e) ↦
      let c = create_rows-eq-ok m faults draws q now row token m' e in
      rw (e, create) (added_row row c.port c.added c.alone (rw c.made refl))
]

ready_rows-Moves :
    (m : Manager) (fails : Bool) (id : String) (key : Bytes) (now : ℕ)
    → Moves m.rows (ready_rows m fails id key now).1.rows
unfolding ready_rows
ready_rows-Moves m fails id key now =
    elim (Bool-cases (affected (can_become_ready id (to_ms now)) m.rows == 1)) [
      | inl one ↦ rw one (readied id (to_ms now) key refl)
      | inr other ↦ rw other (readied id (to_ms now) key refl)
    ]

ready-Moves :
    (m : Manager) (faults : Faults) (id : String) (token key : Bytes) (now : ℕ)
    → Moves m.rows (ready m faults id token key now).1.rows
unfolding ready
ready-Moves m faults id token key now = elim (Bool-cases (token_fits m id token)) [
  | inl fits ↦ elim (Bool-cases faults.mark) [
    | inl fails ↦ rw (fits, fails) (same_rows refl)
    | inr works ↦ rw (fits, works) (ready_rows-Moves m faults.begin id key now)
  ]
  | inr strange ↦ rw strange (same_rows refl)
]

close-Moves :
    (m : Manager) (faults : Faults) (id reason : String)
    → Moves m.rows (close m faults id reason).1.rows
unfolding close
close-Moves m faults id reason = elim (Bool-cases (str_eq reason "")) [
  | inl empty ↦ rw empty (same_rows refl)
  | inr given ↦ elim (Bool-cases faults.mark) [
    | inl fails ↦ rw (given, fails) (same_rows refl)
    | inr works ↦ rw (given, works) (closed_rows id refl)
  ]
]

pub step-Moves : (m : Manager) (s : Step) → Moves m.rows (step m s).rows
unfolding step reconcile
step-Moves m (creates faults draws q now) = create-Moves m faults draws q now
step-Moves m (readies faults id token key now) = ready-Moves m faults id token key now
step-Moves m (closes faults id reason) = close-Moves m faults id reason
step-Moves m (reconciles true now) = same_rows refl
step-Moves m (reconciles false now) = expired_rows (to_ms now) refl

-- No two rows share an identifier or a port.
abbrev pub apart : List SshRow → Bool
apart [] = true
apart (row ∷ rows) = not (exists (collides row) rows) && apart rows

-- A session that is closed or expired holds no port.
abbrev pub keeps_port : SshRow → Bool
keeps_port row = not (is_live row.state) && (elim row.port [ none ↦ false | some p ↦ true ])

pub record Sound (rows : List SshRow) : Type 0 where
  pub distinct : apart rows ≡ true
  pub released : exists keeps_port rows ≡ false

-- An update that changes no identifier and gives no row a port.
record Loosens (f : SshRow → SshRow) : Type 0 where
  pub id : (row : SshRow) → (f row).id ≡ row.id
  pub old : (row other : SshRow) → collides other row ≡ false → collides other (f row) ≡ false
  pub new : (row other : SshRow) → collides row other ≡ false → collides (f row) other ≡ false
  pub dead : (row : SshRow) → keeps_port row ≡ false → keeps_port (f row) ≡ false

make_ready-Loosens : (key : Bytes) → Loosens (make_ready key)
make_ready-Loosens key = record {
  id = λ row. refl;
  old = λ row other h. h;
  new = λ row other h. h;
  dead = λ row h. refl;
}

clash_none : (p : Option ℕ) → port_clash p none ≡ false
clash_none none = refl
clash_none (some p) = refl

close_row-Loosens : Loosens close_row
close_row-Loosens = record {
  id = λ row. refl;
  old = λ row other h. ground (arith, clash_none other.port);
  new = λ row other h. ground arith;
  dead = λ row h. refl;
}

exists-imp-false :
    (p q : SshRow → Bool) (rows : List SshRow)
    → ((row : SshRow) → p row ≡ false → q row ≡ false)
    → exists p rows ≡ false
    → exists q rows ≡ false
exists-imp-false p q [] imp h = refl
exists-imp-false p q (row ∷ rows) imp h =
    let rest = exists-imp-false p q rows imp (ground arith) in ground (arith, imp row)

apart-update :
    (p : SshRow → Bool) (f : SshRow → SshRow) (rows : List SshRow)
    → Loosens f
    → apart rows ≡ true
    → apart (update p f rows) ≡ true
apart-update p f [] l h = refl
apart-update p f (row ∷ rows) l h =
    let rest = apart-update p f rows l (ground arith) in
    let alone : exists (collides row) rows ≡ false = ground arith in
    let still = exists-update-false (collides row) p f rows (λ x. l.old x row) alone in
    let moved =
      exists-imp-false (collides row) (collides (f row)) (update p f rows) (l.new row) still in
    elim (Bool-cases (p row)) [ inl hit ↦ rw (hit, moved) rest | inr miss ↦ rw (miss, still) rest ]

update-Sound :
    (p : SshRow → Bool) (f : SshRow → SshRow) (rows : List SshRow)
    → Loosens f
    → Sound rows
    → Sound (update p f rows)
update-Sound p f rows l v = record {
  distinct = apart-update p f rows l v.distinct;
  released = exists-update-false keeps_port p f rows l.dead v.released;
}

expire_row-Loosens : Loosens expire_row
expire_row-Loosens = record {
  id = λ row. refl;
  old = λ row other h. ground (arith, clash_none other.port);
  new = λ row other h. ground arith;
  dead = λ row h. refl;
}

Moves-Sound : (rows rows' : List SshRow) → Moves rows rows' → Sound rows → Sound rows'
Moves-Sound rows rows' (same_rows same) v = rw same v
Moves-Sound rows rows' (added_row row p same alone fresh) v =
    rw same
      (record { distinct = ground (arith, v.distinct); released = ground (arith, v.released) })
Moves-Sound rows rows' (readied id now key same) v =
    rw same (update-Sound _ _ rows (make_ready-Loosens key) v)
Moves-Sound rows rows' (closed_rows id same) v = rw same (update-Sound _ _ rows close_row-Loosens v)
Moves-Sound rows rows' (expired_rows now same) v =
    rw same (update-Sound _ _ rows expire_row-Loosens v)

-- Over any order of calls, and any failing statements: no two sessions come to share an identifier
-- or a port, and a session that is closed or expired holds no port, when this holds at the start.
pub run-Sound : (m : Manager) (steps : List Step) → Sound m.rows → Sound (run m steps).rows
unfolding run
run-Sound m [] v = v
run-Sound m (s ∷ more) v =
    run-Sound (step m s) more (Moves-Sound m.rows (step m s).rows (step-Moves m s) v)
