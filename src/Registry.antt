-- ===== src/Registry.antt =====
-- internal/registry/registry.go: the validator's table of agent streams. Instants are nanoseconds.
-- A `*Session` is an address of a small heap, since the table, the stream handler and a dispatch
-- share it. A session keeps the state of its channel (`queue`, `closed`) and of its `sync.Once`.
-- `none` is a run-time panic: the close of a closed channel. Messages are of any type `M`.
mod Negotiate
pub mod Invariant
pub mod Preserve
mod Release
pub mod Lifecycle
pub mod Dispatch
pub mod Keeps
pub mod Hazards
pub mod Backoff
mod Tests
use silent_devops.Prelude.{
  ℕ, suc, ◌+◌, ◌%◌, ◌^◌, String, Bool, true, false, not, ◌&&◌, Option, none, some, List, [], str_eq,
  ltb, leb, ◌==◌, if◌then◌else◌, length, Result, ok, err, ◌>>◌, fail_if,
}
use silent_devops.Prelude.Dict.{Dict, lookup, insert, map_values}
use silent_devops.Protocol.{Limits, default_limits, Hello}

pub data Error : Type 0 where
  duplicate_stream identity_mismatch version_mismatch limits_exceeded : Error

pub record Entry : Type 0 where
  pub generation : ℕ
  pub online : Bool
  pub last_seen : ℕ
  pub hello : Hello
  pub session : Option ℕ

pub record Session (M : Type 0) : Type 0 where
  pub agent_id : String
  pub generation : ℕ
  pub capacity : ℕ
  pub queue : List M
  pub closed : Bool
  pub once : Bool

pub record Registry (M : Type 0) : Type 0 where
  pub entries : Dict Entry
  pub generation : ℕ
  pub version : ℕ
  pub limits : Limits
  pub timeout : ℕ
  pub sessions : ℕ → Option (Session M)
  pub next : ℕ

-- ConnectionState; both duplicate policies are constants of the protocol.
pub record ConnectionState : Type 0 where
  pub accepted : Bool
  pub protocol_version : ℕ
  pub negotiated_limits : Limits

pub record Snapshot : Type 0 where
  pub agent_id : String
  pub online : Bool
  pub last_seen : ℕ
  pub hello : Option Hello

-- uint64 and uint32
abbrev pub u64_mod : ℕ
u64_mod = 2 ^ 64

abbrev u32_mod : ℕ
u32_mod = 2 ^ 32

-- `if agent.X > 0 && agent.X < out.X { out.X = agent.X }`
lower : ℕ → ℕ → ℕ
lower offered current = if ltb 0 offered && ltb offered current then offered else current

pub negotiate : Limits → Option Limits → Limits
negotiate server none = server
negotiate server (some agent) = record server {
  max_message_bytes = lower agent.max_message_bytes server.max_message_bytes;
  max_queue_depth = lower agent.max_queue_depth server.max_queue_depth;
  max_capabilities = lower agent.max_capabilities server.max_capabilities;
}

abbrev pub put {ℓ} : {A : Type ℓ} → (ℕ → Option A) → ℕ → A → ℕ → Option A
put heap p a q = if q == p then some a else heap q

-- The tests of `Acquire` on the protocol range and the capabilities.
version_fits : ℕ → Hello → Bool
version_fits version h = elim h.protocol [
  | none ↦ false
  | some range ↦ leb range.minimum version && leb version range.maximum
]

abbrev is_online : Option Entry → Bool
is_online none = false
is_online (some e) = e.online

abbrev limits_or_default : Option Limits → Limits
limits_or_default none = default_limits
limits_or_default (some l) = l

identity_fits : String → String → Option Hello → Bool
identity_fits cert hello none = false
identity_fits cert hello (some h) =
    not (str_eq cert "") && str_eq cert hello && str_eq hello h.agent_id

-- `now.Sub(lastSeen) > timeout`
expire_entry : ℕ → ℕ → Entry → Entry
expire_entry timeout now e =
    if e.online && ltb (e.last_seen + timeout) now then record e { online = false } else e

module _ {M : Type 0} where
  unfoldable pub new : ℕ → Option Limits → ℕ → Registry M
  new version limits timeout = record {
    entries = [];
    generation = 0;
    version = version;
    limits = limits_or_default limits;
    timeout = timeout;
    sessions = λ p. none;
    next = 0;
  }

  new_session : Registry M → String → ℕ → Session M
  new_session r cert generation = record {
    agent_id = cert;
    generation = generation;
    capacity = if r.limits.max_queue_depth == 0 then 1 else r.limits.max_queue_depth;
    queue = [];
    closed = false;
    once = false;
  }

  -- The part of `Acquire` under the lock, once nothing stands against the stream.
  unfoldable pub admit : Registry M → String → Hello → ℕ → Registry M
  unfolding new_session
  admit r cert h now =
      let g : ℕ = (r.generation + 1) % u64_mod in
      record r {
        generation = g;
        entries = insert r.entries cert (record {
          generation = g;
          online = true;
          last_seen = now;
          hello = h;
          session = some r.next;
        });
        sessions = put r.sessions r.next (new_session r cert g);
        next = suc r.next;
      }

  pub connection_state : Registry M → Hello → ConnectionState
  connection_state r h = record {
    accepted = true;
    protocol_version = r.version;
    negotiated_limits = negotiate r.limits h.limits;
  }

  -- `Acquire`: the address of the new session, the greeting, and the table.
  pub acquire :
      Registry M
      → String
      → String
      → Option Hello
      → ℕ
      → Result Error (ℕ × ConnectionState × Registry M)
  unfolding identity_fits version_fits admit connection_state
  acquire r cert hello_id none now = err identity_mismatch
  acquire r cert hello_id (some h) now = do
    fail_if (not (identity_fits cert hello_id (some h))) identity_mismatch
    fail_if (not (version_fits r.version h)) version_mismatch
    fail_if (ltb r.limits.max_capabilities (length h.capabilities % u32_mod)) limits_exceeded
    fail_if (is_online (lookup r.entries cert)) duplicate_stream
    ok (r.next, connection_state r h, admit r cert h now)

  -- `touch`, which `Heartbeat` calls with the session's own agent and generation.
  touch : Registry M → String → ℕ → ℕ → Registry M
  touch r id g now = elim (lookup r.entries id) [
    | none ↦ r
    | some e ↦
        if (e.generation == g) && e.online
        then record r { entries = insert r.entries id (record e { last_seen = now }) }
        else r
  ]

  unfoldable pub heartbeat : Registry M → ℕ → ℕ → Registry M
  unfolding touch
  heartbeat r p now = elim (r.sessions p) [
    | none ↦ r
    | some s ↦ touch r s.agent_id s.generation now
  ]

  pub release_entry : Registry M → String → ℕ → ℕ → Registry M
  release_entry r id g now = elim (lookup r.entries id) [
    | none ↦ r
    | some e ↦
        if e.generation == g
        then record r {
          entries = insert r.entries id (record e { online = false; last_seen = now });
        }
        else r
  ]

  -- `close(queue)`
  close_queue : Registry M → ℕ → Session M → Option (Registry M)
  close_queue r p s =
      if s.closed
      then none
      else some (record r { sessions = put r.sessions p (record s { closed = true }) })

  -- `Session.Release`, under its `sync.Once`.
  release_session : Registry M → ℕ → Session M → ℕ → Option (Registry M)
  unfolding release_entry close_queue
  release_session r p s now =
      if s.once
      then some r
      else close_queue (release_entry r s.agent_id s.generation now) p (record s { once = true })

  pub release : Registry M → ℕ → ℕ → Option (Registry M)
  unfolding release_session
  release r p now = elim (r.sessions p) [ none ↦ some r | some s ↦ release_session r p s now ]

  forget_session : Registry M → String → Entry → ℕ → Registry M
  forget_session r id e now = record r {
    entries = insert r.entries id (record e { online = false; session = none; last_seen = now });
  }

  -- `Disconnect` for an entry that has a session at `p`.
  disconnect_session : Registry M → String → Entry → ℕ → ℕ → Option (Registry M)
  unfolding close_queue forget_session
  disconnect_session r id e p now = elim (r.sessions p) [
    | none ↦ some r
    | some s ↦ close_queue (forget_session r id e now) p s
  ]

  disconnect_entry : Registry M → String → Entry → ℕ → Option (Registry M)
  unfolding disconnect_session
  disconnect_entry r id e now = elim e.session [
    | none ↦ some r
    | some p ↦ disconnect_session r id e p now
  ]

  pub disconnect : Registry M → String → ℕ → Option (Registry M)
  unfolding disconnect_entry
  disconnect r id now = elim (lookup r.entries id) [
    | none ↦ some r
    | some e ↦ disconnect_entry r id e now
  ]

  pub snapshot : Registry M → String → Snapshot
  snapshot r id = elim (lookup r.entries id) [
    | none ↦ record { agent_id = id; online = false; last_seen = 0; hello = none }
    | some e ↦ record {
      agent_id = id;
      online = e.online;
      last_seen = e.last_seen;
      hello = some e.hello;
    }
  ]

  pub expire : Registry M → ℕ → Registry M
  unfolding expire_entry
  expire r now = record r { entries = map_values (expire_entry r.timeout now) r.entries }
