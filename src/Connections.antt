-- ===== src/Connections.antt =====
-- Connections: the rows of the streams of agents, internal/registry/persistence.go over the table
-- `connections` of internal/store/migrations.
mod Streams
mod Tests
use silent_devops.Prelude.{
  ℕ, String, Bool, true, false, not, ◌&&◌, ◌||◌, Option, none, some, List, ◌∷◌, str_eq,
  if◌then◌else◌, update, exists, Result, ok, ◌>>◌, fail_if,
}
use silent_devops.Jobs.{to_ms}
use silent_devops.Identity.{AgentRow}

-- A row of `connections`. Instants are milliseconds.
pub record ConnectionRow : Type 0 where
  pub agent_id : String
  pub connected : Option ℕ
  pub disconnected : Option ℕ
  pub stream_id : String
  pub online : Bool

pub data ConnectionError : Type 0 where
  not_stored : ConnectionError

abbrev pub is_agent : String → ConnectionRow → Bool
is_agent id row = str_eq row.agent_id id

-- The stream is that of another agent's row, where the column is unique.
abbrev pub takes_stream : String → String → ConnectionRow → Bool
takes_stream id stream row = not (is_agent id row) && str_eq row.stream_id stream

abbrev pub connect_row : String → ℕ → ConnectionRow → ConnectionRow
connect_row stream now row = record row {
  connected = some now;
  disconnected = none;
  stream_id = stream;
  online = true;
}

abbrev pub new_connection : String → String → ℕ → ConnectionRow
new_connection id stream now = record {
  agent_id = id;
  connected = some now;
  disconnected = none;
  stream_id = stream;
  online = true;
}

-- INSERT ... ON CONFLICT(agent_id) DO UPDATE
abbrev pub upsert : List ConnectionRow → String → String → ℕ → List ConnectionRow
upsert rows id stream now =
    if exists (is_agent id) rows
    then update (is_agent id) (connect_row stream now) rows
    else new_connection id stream now ∷ rows

abbrev pub rename_host : String → AgentRow → AgentRow
rename_host hostname row = record row { hostname = hostname }

-- `Online`
unfoldable pub go_online :
    List AgentRow
    → List ConnectionRow
    → Bool
    → String
    → String
    → String
    → ℕ
    → Result ConnectionError (List AgentRow × List ConnectionRow)
go_online agents rows fails id stream hostname now = do
  fail_if
      (fails
        || (not (exists (λ (a : AgentRow). str_eq a.id id) agents)
            || exists (takes_stream id stream) rows))
      not_stored
  ok (
    update (λ (a : AgentRow). str_eq a.id id) (rename_host hostname) agents,
    upsert rows id stream (to_ms now),
  )

abbrev pub is_stream : String → String → ConnectionRow → Bool
is_stream id stream row = is_agent id row && str_eq row.stream_id stream

abbrev pub disconnect_row : ℕ → ConnectionRow → ConnectionRow
disconnect_row now row = record row { disconnected = some now; online = false }

-- `Offline`, whose error the caller drops
unfoldable pub go_offline : List ConnectionRow → Bool → String → String → ℕ → List ConnectionRow
go_offline rows fails id stream now =
    if fails then rows else update (is_stream id stream) (disconnect_row (to_ms now)) rows

-- `MarkAllOffline`
unfoldable pub mark_all_offline :
    List ConnectionRow → Bool → ℕ → Result ConnectionError (List ConnectionRow)
mark_all_offline rows fails now = do
  fail_if fails not_stored
  ok (update (λ (row : ConnectionRow). row.online) (disconnect_row (to_ms now)) rows)

-- Whether the lists of agents show the agent as online.
abbrev pub is_online : String → List ConnectionRow → Bool
is_online id rows = exists (λ (row : ConnectionRow). is_agent id row && row.online) rows
