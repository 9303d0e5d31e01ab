-- ===== src/Lib.antt =====
-- silent-devops: a validator that a fleet of agents connect to over gRPC. Operators call the validator
-- (FleetService); it records their jobs, sends them to the agents over their streams, and takes the
-- results; SSH sessions are prepared over the same streams.
--
-- The parts, their files here, and the code:
--   Protocol: the messages and constants of api/devops/v1 that the others share. Enumerations are
--     numbers, as on the wire.
--   Registry: internal/registry/registry.go. The table of agents and their stream sessions: `acquire`
--     is Acquire, `heartbeat` Heartbeat, `release` Release, `disconnect` Disconnect, `expire` Expire,
--     `dispatch` Dispatch with Enqueue (Registry/Dispatch, and Registry/Keeps for the calls that come in
--     between its lookup and its send), `next` and `reset` those of Backoff
--     (Registry/Backoff). Sessions are addresses of a store, a channel is a list with a capacity and
--     a closed flag, and a panic (a send on a closed channel, a second close) is a value.
--   Auth: internal/auth. Address policies (Auth/Cidr), the rate limiter of logins (Auth/Limiter), the
--     table of methods and roles (Auth/Roles), session tokens (Auth/Token), and the interceptors that
--     each call passes (Auth/Endpoints, Auth/Endpoints/Guards).
--   Jobs: internal/server/jobs.go, unsafe.go, cancel.go, output.go, the job results of
--     internal/registry/messages.go, and the tables `jobs` and `audit_events`. The handlers that submit
--     (Jobs/Submit; Jobs/Recorded is their transaction, Jobs/Prepared the job that they make), cancellation and results (Jobs/Close), the stream of an output (Jobs/Output). A
--     submission uses `dispatch` of Registry; Jobs/Change has the requests in any order.
--   Ssh: internal/ssh/session.go. `create` is Create, with `allocate_port`; Ready, Get, Bridge, Close
--     and Reconcile are in Ssh/Live; Ssh/Steps has the calls in any order.
--   Maintenance: internal/maintenance. The checks of units and the argument lists (Maintenance), the
--     runner with its bounded buffer (Maintenance/Runner), the dispatcher of an agent
--     (Maintenance/Dispatch), reboot confirmations (Maintenance/Confirm) and
--     cleanup previews (Maintenance/Cleanup).
--   Metrics: internal/metrics/metrics.go, the processor times of /proc/stat, and
--     memory, mounts and the use of file systems (Metrics/Parse; filesystem.go), and the buffer of
--     samples (Metrics/Buffer; collector.go).
--   Tunnel: internal/tunnel/relay.go. Each call of the relay is cut at the points where it waits
--     (`serve` and `serve_end` are Serve; `attach`, `take_client` and `attach_end` are Attach), and
--     `pump` is one direction of a tunnel (Tunnel/Pump).
--   Enrollment: the join codes of internal/pki/pki.go: `create_code` is CreateToken, `consume_code`
--     ConsumeToken, `list_codes` List and `revoke_code` Revoke; Enrollment/Refine has their contract and
--     Enrollment/Machine the calls in any order.
--   Identity: the certificates of agents: internal/pki/identity.go and SignAgentCSR of pki.go
--     (`sign_request`), the handlers Enroll and Renew of internal/server/enrollment.go (Identity/Enroll),
--     and both with the join codes in any order (Identity/Machine).
--   Accounts: users and their invitations: internal/server/client_invitation.go and the handlers
--     RedeemClientInvitation (`redeem`), CreateUser and SetUserRole of internal/server, the passwords of
--     internal/auth/auth.go, and Login and Issue of internal/auth/service.go (Accounts/Login).
--   Storage: `migrate` and `Cleanup` of internal/store/store.go: `migrate_all` and `clean_up`.
--   Connections: internal/registry/persistence.go: `go_online` is Online, `go_offline` Offline and
--     `mark_all_offline` MarkAllOffline.
--   Keys: internal/ssh/keys.go: `install` is Install, `remove_key` Remove and `reconcile_keys` Reconcile.
--   Easypanel: internal/easypanel. The client with the choice of its method (`trpc_query` is trpcQuery),
--     the checks before a migration (Easypanel/Preflight), the detection of a local panel
--     (Easypanel/Detect), and the commands of cmd/easypanel-migrate (Easypanel/Migrate). A server is a
--     function of the requests that it has had.
--   Terminal: the form of a migration of internal/clientcli/migrate_form.go: `open_migrate` is
--     openMigrate and `update_migrate` updateMigrate, with `react` for what a key does to the form
--     (Terminal/Run has any keys in a row).
--   Prelude: the shared helpers: tests on native numbers, lists and tables of rows, results, and
--     dictionaries.
--
-- State is passed from call to call. A mutex makes the calls that it guards follow one another; where
-- code runs outside its lock (Dispatch sends after it), what other calls do in between is an argument,
-- `meanwhile`. The clock, the draws of crypto/rand, the statements that the storage fails to carry
-- out, and whether a context is done, are arguments too. Instants are nanoseconds or, in the tables,
-- milliseconds, and are
-- natural numbers: times before 1970 are not modelled. SQL statements are functions on lists of rows,
-- with the constraints of the schema.
--
-- Fuel: the loop of `port_from` has as many rounds as the range has ports, and `chunks_from` as many as
-- the output has bytes; the theorems about both show that this is enough.
--
-- Parameters, for code of other packages: the parsers of net/netip and net, the encoding and MAC of
-- tokens, the formatting of numbers, path/filepath, SHA-256, Argon2, crypto/x509, JSON and statfs. Not
-- modelled: the text of errors; the file of the certificate authority; the other terminal programs and the
-- wiring of the programs; and so far the rest of metrics, the Connect handler, the reading handlers, and
-- the opening and backup of the storage.
pub mod Prelude
pub mod Protocol
pub mod Registry
pub mod Auth
pub mod Jobs
pub mod Ssh
pub mod Maintenance
pub mod Metrics
pub mod Tunnel
pub mod Enrollment
pub mod Identity
pub mod Easypanel
pub mod Terminal
pub mod Accounts
pub mod Storage
pub mod Keys
pub mod Connections
