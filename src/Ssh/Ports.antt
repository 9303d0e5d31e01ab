-- ===== src/Ssh/Ports.antt =====
-- The ports that `allocatePort` gives out, and what `Create` promises.
use silent_devops.Prelude.{
  ℕ, zero, suc, ◌+◌, ◌-◌, ◌^◌, ◌≤◌, ◌<◌, String, ◌≡◌, refl, sym, ap, ◌∙◌, ◌⊎◌, inl, inr, Bool, true,
  false, not, none, some, List, [], ◌∷◌, arith, str_eq_iff, leb, ◌==◌, Bool-cases, Option-cases,
  Result-cases, affected, exists, ok, err, fail_if, or_fail, >>=-eq-ok,
}
use silent_devops.Prelude.Dict.{lookup, insert, lookup-insert}
use silent_devops.Auth.Token.{Bytes}
use silent_devops.Jobs.{Event, Tables, Faults, insert_audit, to_ms}
use silent_devops.Ssh.{
  SshRow, Manager, SshError, invalid_request, no_ports, entropy_missing, storage, has_port, holds,
  port_from, allocate_port, collides, insert_row, Draws, Asked, asked_well, new_row, new_event,
  create_rows, create,
}

-- A port that the query of `allocatePort` finds free.
abbrev pub is_free : List SshRow → ℕ → ℕ → Bool
is_free rows now p = affected (holds p now) rows == 0

port_from-eq-some :
    (fuel : ℕ) (rows : List SshRow) (now most port p : ℕ)
    → port_from fuel rows now most port ≡ some p
    → (port ≤ p)
      × (p ≤ most)
      × (is_free rows now p ≡ true)
      × ((q : ℕ) → port ≤ q → q < p → is_free rows now q ≡ false)
unfolding port_from
port_from-eq-some zero rows now most port p h = absurd (ground arith)
port_from-eq-some (suc fuel) rows now most port p h = elim (Bool-cases (leb port most)) [
  | inl within ↦ elim (Bool-cases (is_free rows now port)) [
    | inl free ↦
        let same : port ≡ p = ground arith in
        (omega arith, ground arith, rw (sym same) free, λ q from below. absurd (omega arith))
    | inr held ↦
        let (above, below, free, lower) =
          port_from-eq-some fuel rows now most (port + 1) p (ground arith) in
        (
          omega arith,
          below,
          free,
          λ q from under. elim (Bool-cases (q == port)) [
            | inl here ↦ let same : port ≡ q = ground arith in rw (sym same) held
            | inr later ↦ lower q (ground arith) under
          ],
        )
  ]
  | inr beyond ↦ absurd (ground arith)
]

port_from-eq-none :
    (fuel : ℕ) (rows : List SshRow) (now most port q : ℕ)
    → port_from fuel rows now most port ≡ none
    → most < 2 ^ 32
    → most < port + fuel
    → port ≤ q
    → q ≤ most
    → is_free rows now q ≡ false
unfolding port_from
port_from-eq-none zero rows now most port q h small enough from to = absurd (omega arith)
port_from-eq-none (suc fuel) rows now most port q h small enough from to =
    elim (Bool-cases (is_free rows now port)) [
      | inl free ↦ absurd (ground arith)
      | inr held ↦ elim (Bool-cases (q == port)) [
        | inl here ↦ let same : port ≡ q = ground arith in rw (sym same) held
        | inr later ↦ elim (Bool-cases (port == 2 ^ 32 - 1)) [
          | inl end ↦ absurd (ground arith)
          | inr going ↦
              port_from-eq-none fuel rows now most (port + 1) q (ground arith) small (omega arith)
                (ground arith) to
        ]
      ]
    ]

-- `allocatePort` finds the least port of the range that no live, unexpired session holds, and
-- reports that there is none exactly when there is none, for a range of 32-bit ports.
pub allocate_port_exact :
    (m : Manager) (now : ℕ)
    → m.most < 2 ^ 32
    → ((p : ℕ) × (allocate_port m now ≡ some p)
        × (m.least ≤ p)
        × (p ≤ m.most)
        × (is_free m.rows now p ≡ true)
        × ((q : ℕ) → m.least ≤ q → q < p → is_free m.rows now q ≡ false))
      ⊎ ((allocate_port m now ≡ none)
          × ((q : ℕ) → m.least ≤ q → q ≤ m.most → is_free m.rows now q ≡ false))
unfolding allocate_port
allocate_port_exact m now small = elim (Option-cases (allocate_port m now)) [
  | inl missing ↦ inr (
    missing,
    λ q from to.
        port_from-eq-none (m.most + 1 - m.least) m.rows now m.most m.least q missing small
          (omega arith) from to,
  )
  | inr (p, found) ↦
      let (above, below, free, lower) =
        port_from-eq-some (m.most + 1 - m.least) m.rows now m.most m.least p found in
      inl (p, found, above, below, free, lower)
]

-- What a session that `Create` answers comes with.
pub record Created (m : Manager) (q : Asked) (now : ℕ) (row : SshRow) (token : Bytes) (m' : Manager)
    : Type 0 where
  pub well : asked_well q ≡ true
  pub port : ℕ
  pub allocated : allocate_port m (to_ms now) ≡ some port
  pub made : row ≡ new_row q row.id port now
  pub alone : exists (collides row) m.rows ≡ false
  pub added : m'.rows ≡ row ∷ m.rows
  pub kept : lookup m'.tokens row.id ≡ some token
  pub audit : String
  pub audited : m'.tables.audit ≡ new_event q row.id audit now ∷ m.tables.audit

insert_row-eq-some :
    (m m' : Manager) (row : SshRow)
    → insert_row m row ≡ some m'
    → (m' ≡ record m { rows = row ∷ m.rows }) × (exists (collides row) m.rows ≡ false)
unfolding insert_row
insert_row-eq-some m m' row h = (ground arith, ground arith)

insert_audit-eq-some :
    (t t' : Tables) (event : Event)
    → insert_audit t event ≡ some t'
    → t' ≡ record t { audit = event ∷ t.audit }
unfolding insert_audit
insert_audit-eq-some t t' event h = ground arith

created :
    (m : Manager) (q : Asked) (now : ℕ) (id audit : String) (key : Bytes) (port : ℕ) (m1 : Manager)
    (t : Tables) (row : SshRow) (token : Bytes) (m' : Manager)
    → asked_well q ≡ true
    → allocate_port m (to_ms now) ≡ some port
    → exists (collides (new_row q id port now)) m.rows ≡ false
    → m1 ≡ record m { rows = new_row q id port now ∷ m.rows }
    → t ≡ record m1.tables { audit = new_event q id audit now ∷ m1.tables.audit }
    → new_row q id port now ≡ row
    → key ≡ token
    → record m1 { tables = t; tokens = insert m.tokens id key } ≡ m'
    → Created m q now row token m'
created m q now id audit key port m1 t row token m' well found alone first then_noted row_is
      token_is m_is =
    rw (sym row_is, sym token_is, sym m_is, then_noted, first)
      (record {
        well = well;
        port = port;
        allocated = found;
        made = refl;
        alone = alone;
        added = refl;
        kept = ground (arith, lookup-insert m.tokens id id key, str_eq_iff id id);
        audit = audit;
        audited = refl;
      })

pub create_rows-eq-ok :
    (m : Manager) (faults : Faults) (draws : Draws) (q : Asked) (now : ℕ) (row : SshRow)
    (token : Bytes) (m' : Manager)
    → create_rows m faults draws q now ≡ ok (row, token, m')
    → Created m q now row token m'
unfolding create_rows
create_rows-eq-ok m faults draws q now row token m' h =
    let (u, well, h1) = >>=-eq-ok (fail_if (not (asked_well q)) invalid_request) _ h in
    let (u, begun, h2) = >>=-eq-ok (fail_if faults.begin storage) _ h1 in
    let (port, found, h3) = >>=-eq-ok (or_fail (allocate_port m (to_ms now)) no_ports) _ h2 in
    let (id, drawn, h4) = >>=-eq-ok (or_fail draws.id entropy_missing) _ h3 in
    let (key, tossed, h5) = >>=-eq-ok (or_fail draws.token entropy_missing) _ h4 in
    let (u, fine, h6) = >>=-eq-ok (fail_if faults.job storage) _ h5 in
    let (m1, inserted, h7) =
      >>=-eq-ok (or_fail (insert_row m (new_row q id port now)) storage) _ h6 in
    let (audit, named, h8) = >>=-eq-ok (or_fail draws.audit entropy_missing) _ h7 in
    let (u, noting, h9) = >>=-eq-ok (fail_if faults.audit storage) _ h8 in
    let (t, noted, h10) =
      >>=-eq-ok (or_fail (insert_audit m1.tables (new_event q id audit now)) storage) _ h9 in
    let (u, committed, last) = >>=-eq-ok (fail_if faults.commit storage) _ h10 in
    let (first, alone) = insert_row-eq-some m m1 (new_row q id port now) (ground arith) in
    let then_noted : t ≡ record m1.tables { audit = new_event q id audit now ∷ m1.tables.audit } =
      insert_audit-eq-some m1.tables t (new_event q id audit now) (ground arith) in
    created m q now id audit key port m1 t row token m' (ground arith) (ground arith) alone first
      then_noted (ground arith) (ground arith) (ground arith)

exists_mono :
    (p q : SshRow → Bool) (rows : List SshRow)
    → ((row : SshRow) → p row ≡ true → q row ≡ true)
    → exists p rows ≡ true
    → exists q rows ≡ true
exists_mono p q [] imp h = absurd (ground arith)
exists_mono p q (row ∷ rows) imp h = elim (Bool-cases (p row)) [
  | inl hit ↦ ground (arith, imp row)
  | inr miss ↦ ground (arith, exists_mono p q rows imp)
]

-- Every port that the query takes for free may still stand in the row of a session that expired and
-- was not reconciled since: `Create` then fails, whatever the rest of the range is.
pub create_blocked :
    (m : Manager) (faults : Faults) (draws : Draws) (q : Asked) (now port : ℕ)
    → allocate_port m (to_ms now) ≡ some port
    → exists (λ (row : SshRow). has_port port row.port) m.rows ≡ true
    → (why : SshError) × (create m faults draws q now ≡ (err why, m))
unfolding create
create_blocked m faults draws q now port found taken =
    elim (Result-cases (create_rows m faults draws q now)) [
      | inl (why, e) ↦ (why, rw (e, create) refl)
      | inr ((row, token, m'), e) ↦
          let c = create_rows-eq-ok m faults draws q now row token m' e in
          let same : c.port ≡ port = ground (arith, c.allocated) in
          let hit : exists (collides (new_row q row.id port now)) m.rows ≡ true =
            exists_mono (λ (old : SshRow). has_port port old.port)
              (collides (new_row q row.id port now)) m.rows (λ old h. ground arith) taken in
          let miss : exists (collides (new_row q row.id port now)) m.rows ≡ false =
            ap (λ (new : SshRow). exists (collides new) m.rows)
              (sym (c.made ∙ ap (λ n. new_row q row.id n now) same))
            ∙ c.alone in
          absurd (ground arith)
    ]
