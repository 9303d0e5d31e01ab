-- ===== src/Ssh.antt =====
-- Ssh: the session manager of internal/ssh/session.go, over the table `ssh_sessions` of
-- internal/store/migrations. The statements that the storage fails to carry out, the draws of
-- crypto/rand and the clock are arguments.
pub mod Live
pub mod Ports
pub mod Steps
mod Closed
mod Binding
mod Tests
use silent_devops.Prelude.{
  ℕ, zero, suc, ◌+◌, ◌-◌, ◌^◌, String, Bool, false, not, ◌&&◌, ◌||◌, Option, none, some, List, [],
  ◌∷◌, str_eq, ltb, leb, ◌==◌, if◌then◌else◌, length, affected, exists, Result, ok, err, ◌>>=◌,
  ◌>>◌, fail_if, or_fail,
}
use silent_devops.Prelude.Dict.{insert}
use silent_devops.Protocol.{Message, job, prepare_ssh}
use silent_devops.Auth.Token.{Bytes, hour}
use silent_devops.Jobs.{Event, Tables, Faults, has, insert_audit, to_ms}

-- SshSessionState
abbrev pub preparing : ℕ
preparing = 1

abbrev pub ready_state : ℕ
ready_state = 2

abbrev pub closed_state : ℕ
closed_state = 3

abbrev pub expired_state : ℕ
expired_state = 4

-- A row of `ssh_sessions`. Instants are milliseconds.
pub record SshRow : Type 0 where
  pub id : String
  pub actor_id : String
  pub agent_id : String
  pub public_key : Bytes
  pub state : ℕ
  pub port : Option ℕ
  pub expires : ℕ
  pub created : ℕ
  pub host_key : Bytes

-- The manager, with its table and the tables of users, agents and audit events.
pub record Manager : Type 0 where
  pub rows : List SshRow
  pub tables : Tables
  pub least : ℕ
  pub most : ℕ
  pub tokens : List (String × Bytes)

pub data SshError : Type 0 where
  invalid_request no_ports entropy_missing storage mismatch not_ready session_unknown : SshError
  not_owned expired reason_required ids_required : SshError

-- SshSession
pub record SshView : Type 0 where
  pub id : String
  pub agent_id : String
  pub state : ℕ
  pub port : ℕ
  pub expires : ℕ
  pub host_key : Bytes

-- `state IN (1,2)`
abbrev pub is_live : ℕ → Bool
is_live state = state == preparing || state == ready_state

abbrev pub has_port : ℕ → Option ℕ → Bool
has_port p none = false
has_port p (some q) = q == p

-- The rows that the query of `allocatePort` counts.
abbrev pub holds : ℕ → ℕ → SshRow → Bool
holds p now row = has_port p row.port && (is_live row.state && ltb now row.expires)

-- The loop of `allocatePort` from `port`; `fuel` bounds its rounds.
unfoldable pub port_from : ℕ → List SshRow → ℕ → ℕ → ℕ → Option ℕ
port_from zero rows now most port = none
port_from (suc fuel) rows now most port =
    let rest = port_from fuel rows now most (port + 1) in
    if leb port most
    then (if affected (holds port now) rows == 0
        then some port
        else if port == 2 ^ 32 - 1
        then none
        else rest)
    else none

unfoldable pub allocate_port : Manager → ℕ → Option ℕ
allocate_port m now = port_from (m.most + 1 - m.least) m.rows now m.most m.least

abbrev pub port_clash : Option ℕ → Option ℕ → Bool
port_clash none q = false
port_clash (some p) q = has_port p q

-- INSERT INTO ssh_sessions: the primary key, the unique port, and the foreign keys.
abbrev pub collides : SshRow → SshRow → Bool
collides new old = str_eq old.id new.id || port_clash new.port old.port

unfoldable pub insert_row : Manager → SshRow → Option Manager
insert_row m row =
    if exists (collides row) m.rows
      || (not (has row.actor_id m.tables.users) || not (has row.agent_id m.tables.agents))
    then none
    else some (record m { rows = row ∷ m.rows })

-- The draws of `Create`: the session's identifier, its token, the audit event's identifier.
pub record Draws : Type 0 where
  pub id : Option String
  pub token : Option Bytes
  pub audit : Option String

pub record Asked : Type 0 where
  pub actor : String
  pub agent : String
  pub key : Bytes
  pub reason : String
  pub ttl : ℕ

abbrev pub asked_well : Asked → Bool
asked_well q =
    (not (str_eq q.actor "") && not (str_eq q.agent ""))
    && ((ltb 0 (length q.key) && not (str_eq q.reason "")) && (ltb 0 q.ttl && leb q.ttl hour))

abbrev pub new_row : Asked → String → ℕ → ℕ → SshRow
new_row q id port now = record {
  id = id;
  actor_id = q.actor;
  agent_id = q.agent;
  public_key = q.key;
  state = preparing;
  port = some port;
  expires = to_ms (now + q.ttl);
  created = to_ms now;
  host_key = [];
}

abbrev pub new_event : Asked → String → String → ℕ → Event
new_event q id audit now = record {
  id = audit;
  actor_id = q.actor;
  agent_id = q.agent;
  action = "ssh_session";
  reason = q.reason;
  occurred = to_ms now;
  job_id = id;
}

-- What `Create` writes, in its transaction.
unfoldable pub create_rows :
    Manager → Faults → Draws → Asked → ℕ → Result SshError (SshRow × Bytes × Manager)
create_rows m faults draws q now = do
  fail_if (not (asked_well q)) invalid_request
  fail_if faults.begin storage
  port ← or_fail (allocate_port m (to_ms now)) no_ports
  id ← or_fail draws.id entropy_missing
  token ← or_fail draws.token entropy_missing
  fail_if faults.job storage
  with_row ← or_fail (insert_row m (new_row q id port now)) storage
  audit ← or_fail draws.audit entropy_missing
  fail_if faults.audit storage
  t ← or_fail (insert_audit with_row.tables (new_event q id audit now)) storage
  fail_if faults.commit storage
  ok (
    new_row q id port now,
    token,
    record with_row { tables = t; tokens = insert m.tokens id token },
  )

abbrev pub port_number : Option ℕ → ℕ
port_number none = 0
port_number (some p) = p

abbrev pub view_of : SshRow → Bytes → SshView
view_of row key = record {
  id = row.id;
  agent_id = row.agent_id;
  state = row.state;
  port = port_number row.port;
  expires = row.expires;
  host_key = if length key == 0 then row.host_key else key;
}

unfoldable pub prepare_message : SshRow → Bytes → Message
prepare_message row token =
    prepare_ssh row.id row.public_key row.expires (port_number row.port) token

pub create : Manager → Faults → Draws → Asked → ℕ → Result SshError (SshView × Message) × Manager
unfolding create_rows prepare_message
create m faults draws q now = elim (create_rows m faults draws q now) [
  | err why ↦ (err why, m)
  | ok (row, token, m') ↦ (ok (view_of row [], prepare_message row token), m')
]
