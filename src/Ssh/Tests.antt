-- ===== src/Ssh/Tests.antt =====
-- Runs of the session manager, and the theorems about it at concrete inputs.
use silent_devops.Prelude.{
  ℕ, ◌*◌, ◌≤◌, ◌<◌, ◌≡◌, refl, ◌≢◌, ◌⊎◌, true, false, none, some, List, [], ◌∷◌, arith, ok, err,
}
use silent_devops.Prelude.Dict.{lookup, remove, insert}
use silent_devops.Auth.Token.{Bytes, second}
use silent_devops.Jobs.{Tables, Faults, insert_audit}
use silent_devops.Ssh.{
  SshRow, Manager, SshError, mismatch, SshView, port_from, allocate_port, insert_row, Draws, Asked,
  new_row, new_event, create_rows, view_of, prepare_message, create,
}
use silent_devops.Ssh.Live.{
  get, differ, equal, make_ready, ready_rows, token_fits, ready, bridge, close_row,
}
use silent_devops.Ssh.Ports.{is_free, allocate_port_exact, create_blocked}
use silent_devops.Ssh.Steps.{Step, readies, closes, reconciles, run, Sound, run-Sound}
use silent_devops.Ssh.Closed.{closed_stays_closed}
use silent_devops.Ssh.Binding.{Bound, ready_once}

abbrev tables : Tables
tables = record { jobs = []; audit = []; users = "u1" ∷ []; agents = "web-1" ∷ [] }

-- Ports 22000 and 22001 for bridges.
abbrev empty : Manager
empty = record { rows = []; tables = tables; least = 22_000; most = 22_001; tokens = [] }

abbrev no_faults : Faults
no_faults = record {
  meanwhile = λ r. r;
  begin = false;
  job = false;
  audit = false;
  commit = false;
  mark = false;
}

abbrev draws : Draws
draws = record { id = some "s1"; token = some (7 ∷ 9 ∷ []); audit = some "e1" }

abbrev asked : Asked
asked = record { actor = "u1"; agent = "web-1"; key = 1 ∷ []; reason = "look"; ttl = 60 * second }

abbrev session : SshRow
session = new_row asked "s1" 22_000 0

abbrev opened : Manager
opened = record empty {
  rows = session ∷ [];
  tables = record tables { audit = new_event asked "s1" "e1" 0 ∷ [] };
  tokens = ("s1", 7 ∷ 9 ∷ []) ∷ [];
}

opened_by_create :
    create empty no_faults draws asked 0
    ≡ (ok (view_of session [], prepare_message session (7 ∷ 9 ∷ [])), opened)
unfolding create create_rows allocate_port port_from insert_row insert_audit prepare_message insert
    remove
opened_by_create = refl

allocate_port_exact_example :
    ((p : ℕ) × (allocate_port opened 1 ≡ some p)
      × (22_000 ≤ p)
      × (p ≤ 22_001)
      × (is_free opened.rows 1 p ≡ true)
      × ((q : ℕ) → 22_000 ≤ q → q < p → is_free opened.rows 1 q ≡ false))
    ⊎ ((allocate_port opened 1 ≡ none)
        × ((q : ℕ) → 22_000 ≤ q → q ≤ 22_001 → is_free opened.rows 1 q ≡ false))
allocate_port_exact_example = allocate_port_exact opened 1 (omega arith)

-- The session has expired, and nothing has reconciled it: its port blocks each later session.
create_blocked_example :
    (why : SshError) × (create opened no_faults
        (record draws { id = some "s2" })
        asked
        (61 * second)
      ≡ (err why, opened))
create_blocked_example =
    create_blocked opened no_faults (record draws { id = some "s2" }) asked (61 * second) 22_000
      (unfold allocate_port in unfold port_from in refl) refl

abbrev steps : List Step
steps =
    readies no_faults "s1" (7 ∷ 9 ∷ []) (5 ∷ []) 1
    ∷ closes no_faults "s1" "done"
    ∷ reconciles false (61 * second)
    ∷ []

run-Sound_example : Sound (run opened steps).rows
run-Sound_example = run-Sound opened steps (record { distinct = refl; released = refl })

abbrev over : Manager
over = record opened { rows = close_row session ∷ []; tokens = [] }

closed_stays_closed_example : bridge (run over steps) false "s1" "u1" 0 ≢ ok "web-1"
closed_stays_closed_example =
    closed_stays_closed over steps "s1" (close_row session) false "u1" 0 "web-1" refl refl

abbrev answered_view : SshView
answered_view = view_of (make_ready (5 ∷ []) session) (5 ∷ [])

answer_taken : (ready opened no_faults "s1" (7 ∷ 9 ∷ []) (5 ∷ []) 1).0 ≡ ok answered_view
unfolding ready token_fits equal differ ready_rows get lookup remove
answer_taken = refl

ready_once_example :
    Bound opened (ready opened no_faults "s1" (7 ∷ 9 ∷ []) (5 ∷ []) 1).1 "s1" (7 ∷ 9 ∷ [])
    × ((faults' : Faults) (token' key' : Bytes) (now' : ℕ)
        → (ready
            (ready opened no_faults "s1" (7 ∷ 9 ∷ []) (5 ∷ []) 1).1
            faults'
            "s1"
            token'
            key'
            now').0
          ≡ err mismatch)
ready_once_example =
    ready_once opened no_faults "s1" (7 ∷ 9 ∷ []) (5 ∷ []) 1 answered_view answer_taken
