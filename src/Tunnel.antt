-- ===== src/Tunnel.antt =====
-- Tunnel: the relay of internal/tunnel/relay.go, which joins the stream of a client and the stream of
-- an agent by the identifier of a session. A registration is an address of a store, since calls keep
-- a pointer to one that may be gone from the map; streams are numbers. The channel of a client has
-- room for one stream.
pub mod Pump
mod Tests
use silent_devops.Prelude.{
  ℕ, ◌+◌, String, ◌≡◌, refl, ◌≢◌, Bool, true, false, not, ◌||◌, Option, none, some, List, [], arith,
  str_eq, str_eq_iff, ◌==◌, if◌then◌else◌, length, bytes_eq, Result, ok, err,
}
use silent_devops.Prelude.Dict.{lookup, remove, insert, lookup-insert}

-- `pending`; `done` says that its channel is closed.
pub record Pending : Type 0 where
  pub token : List ℕ
  pub client : Option ℕ
  pub done : Bool

pub record Relay : Type 0 where
  pub pending : List (String × ℕ)
  pub cells : ℕ → Option Pending
  pub next : ℕ

pub data TunnelError : Type 0 where
  id_required randomness_missing already_registered unknown_tunnel already_attached : TunnelError
  binding_mismatch context_done : TunnelError

abbrev pub set_cell : (ℕ → Option Pending) → ℕ → Pending → ℕ → Option Pending
set_cell cells p c q = if q == p then some c else cells q

unfoldable pub new_relay : Relay
new_relay = record { pending = []; cells = λ p. none; next = 0 }

-- `Register`, with what crypto/rand draws.
abbrev pub registered : Relay → String → List ℕ → Relay
registered r id token = record {
  pending = insert r.pending id r.next;
  cells = set_cell r.cells r.next (record { token = token; client = none; done = false });
  next = r.next + 1;
}

unfoldable pub register : Relay → Option (List ℕ) → String → Result TunnelError (List ℕ) × Relay
register r drawn id = if str_eq id "" then (err id_required, r) else elim drawn [
  | none ↦ (err randomness_missing, r)
  | some token ↦ elim (lookup r.pending id) [
    | some p ↦ (err already_registered, r)
    | none ↦ (ok token, registered r id token)
  ]
]

-- `get`: the address, and what stands there.
unfoldable pub get : Relay → String → Option (ℕ × Pending)
get r id = elim (lookup r.pending id) [
  | none ↦ none
  | some p ↦ elim (r.cells p) [ none ↦ none | some c ↦ some (p, c) ]
]

-- `remove` and `Cancel`
abbrev pub drop_session : Relay → String → Relay
drop_session r id = record r { pending = remove r.pending id }

unfoldable pub cancel : Relay → String → Relay
cancel r id = drop_session r id

-- `Serve` up to its second select: the address that it then waits at.
unfoldable pub serve : Relay → String → ℕ → Result TunnelError ℕ × Relay
unfolding get
serve r id client = elim (get r id) [
  | none ↦ (err unknown_tunnel, r)
  | some (p, c) ↦ elim c.client [
    | some other ↦ (err already_attached, r)
    | none ↦ (ok p, record r { cells = set_cell r.cells p (record c { client = some client }) })
  ]
]

-- The end of `Serve`: `done` of the registration, or the context; none while it waits.
unfoldable pub serve_end :
    Relay → ℕ → String → Bool → Option (Result TunnelError (Unit {0}) × Relay)
serve_end r p id over = elim (r.cells p) [
  | none ↦ none
  | some c ↦
      if over
      then some (err context_done, drop_session r id)
      else if c.done
      then some (ok tt, r)
      else none
]

-- `Attach` up to its select.
unfoldable pub attach : Relay → String → List ℕ → Result TunnelError ℕ
unfolding get
attach r id token = elim (get r id) [
  | none ↦ err unknown_tunnel
  | some (p, c) ↦
      if length token == 0 || not (bytes_eq c.token token) then err binding_mismatch else ok p
]

-- The select of `Attach`: it takes the client's stream, or gives up; none while it waits.
unfoldable pub take_client : Relay → ℕ → String → Bool → Option (Result TunnelError ℕ × Relay)
take_client r p id over = elim (r.cells p) [
  | none ↦ none
  | some c ↦ if over then some (err context_done, drop_session r id) else elim c.client [
    | none ↦ none
    | some client ↦
        some (ok client, record r { cells = set_cell r.cells p (record c { client = none }) })
  ]
]

-- The deferred function of `Attach`.
unfoldable pub attach_end : Relay → ℕ → String → Relay
attach_end r p id = elim (r.cells p) [
  | none ↦ drop_session r id
  | some c ↦ drop_session (record r { cells = set_cell r.cells p (record c { done = true }) }) id
]

register_lem :
    (r : Relay) (id : String) (token : List ℕ)
    → id ≢ ""
    → lookup r.pending id ≡ none
    → register r (some token) id ≡ (ok token, registered r id token)
unfolding register
register_lem r id token named free =
    let good : str_eq id "" ≡ false = ground (arith, str_eq_iff id "") in
    rw (good, free, register) refl

register_again :
    (r : Relay) (id : String) (token : List ℕ) (p : ℕ)
    → id ≢ ""
    → lookup r.pending id ≡ some p
    → (register r (some token) id).0 ≡ err already_registered
unfolding register
register_again r id token p named taken =
    let good : str_eq id "" ≡ false = ground (arith, str_eq_iff id "") in
    rw (good, taken, register) refl

attach_lem :
    (r : Relay) (id : String) (given : List ℕ) (p : ℕ) (c : Pending)
    → lookup r.pending id ≡ some p
    → r.cells p ≡ some c
    → attach r id given
      ≡ (if length given == 0 || not (bytes_eq c.token given) then err binding_mismatch else ok p)
unfolding attach get
attach_lem r id given p c there cell = rw (there, cell, attach, get) refl

serve_lem :
    (r : Relay) (id : String) (client p : ℕ) (c : Pending)
    → lookup r.pending id ≡ some p
    → r.cells p ≡ some c
    → c.client ≡ none
    → serve r id client
      ≡ (ok p, record r { cells = set_cell r.cells p (record c { client = some client }) })
unfolding serve get
serve_lem r id client p c there cell alone = rw (there, cell, alone, serve, get) refl

take_client_lem :
    (r : Relay) (p : ℕ) (id : String) (c : Pending) (client : ℕ)
    → r.cells p ≡ some c
    → c.client ≡ some client
    → take_client r p id false
      ≡ some (ok client, record r { cells = set_cell r.cells p (record c { client = none }) })
unfolding take_client
take_client_lem r p id c client cell has = rw (cell, has, take_client) refl

set_cell-same : (cells : ℕ → Option Pending) (p : ℕ) (c : Pending) → set_cell cells p c p ≡ some c
set_cell-same cells p c = ground arith

-- When a session that is not registered is registered with a token: an agent attaches to it by exactly
-- this token, if it is not empty, and by no other; a second registration is refused; and a client that
-- is then served waits at this registration, and its stream is the one that the agent takes.
pub rendezvous :
    (r : Relay) (id : String) (token given : List ℕ) (client : ℕ)
    → id ≢ ""
    → lookup r.pending id ≡ none
    → let r1 = (register r (some token) id).1 in
      ((register r (some token) id).0 ≡ ok token)
      × (attach r1 id given ≡ (
          if length given == 0 || not (bytes_eq token given)
          then err binding_mismatch
          else ok r.next))
      × ((register r1 (some given) id).0 ≡ err already_registered)
      × ((r2 : Relay) × (serve r1 id client ≡ (ok r.next, r2))
          × ((r3 : Relay) × (take_client r2 r.next id false ≡ some (ok client, r3))))
rendezvous r id token given client named free =
    let r1 = registered r id token in
    let c : Pending = record { token = token; client = none; done = false } in
    let there : lookup r1.pending id ≡ some r.next =
      ground (arith, lookup-insert r.pending id id r.next, str_eq_iff id id) in
    let cell = set_cell-same r.cells r.next c in
    let c2 : Pending = record c { client = some client } in
    rw (register_lem r id token named free) (
      refl,
      attach_lem r1 id given r.next c there cell,
      register_again r1 id given r.next named there,
      (
        record r1 { cells = set_cell r1.cells r.next c2 },
        serve_lem r1 id client r.next c there cell refl,
        (
          _,
          take_client_lem (record r1 { cells = set_cell r1.cells r.next c2 }) r.next id c2 client
              (set_cell-same r1.cells r.next c2) refl,
        ),
      ),
    )
