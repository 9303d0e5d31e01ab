-- ===== src/Ssh/Live.antt =====
-- What happens to a session after `Create`: `Ready`, `Get`, `Bridge`, `Close` and `Reconcile` of
-- internal/ssh/session.go.
use silent_devops.Prelude.{
  ℕ, String, Bool, false, not, ◌&&◌, ◌||◌, Option, none, some, List, [], ◌∷◌, str_eq, ltb, leb,
  ◌==◌, if◌then◌else◌, length, affected, update, Result, ok, err, ◌>>=◌, ◌>>◌, fail_if, or_fail,
}
use silent_devops.Prelude.Dict.{lookup, remove}
use silent_devops.Auth.Token.{Bytes}
use silent_devops.Jobs.{Faults, to_ms}
use silent_devops.Ssh.{
  preparing, ready_state, closed_state, expired_state, SshRow, Manager, SshError, storage, mismatch,
  not_ready, session_unknown, not_owned, expired, reason_required, ids_required, SshView, is_live,
  view_of,
}

-- SELECT ... WHERE id=?
abbrev pub find_session : List SshRow → String → Option SshRow
find_session [] id = none
find_session (row ∷ rows) id = if str_eq row.id id then some row else find_session rows id

unfoldable pub get : Manager → Bool → String → Bytes → Result SshError SshView
get m fails id key = do
  fail_if fails storage
  row ← or_fail (find_session m.rows id) session_unknown
  ok (view_of row key)

-- `equal`: `v` says whether the bytes seen so far differ.
unfoldable pub differ : Bool → Bytes → Bytes → Bool
differ v (x ∷ xs) (y ∷ ys) = differ (v || not (x == y)) xs ys
differ v _ _ = v

unfoldable pub equal : Bytes → Bytes → Bool
unfolding differ
equal xs ys = length xs == length ys && not (differ false xs ys)

abbrev pub can_become_ready : String → ℕ → SshRow → Bool
can_become_ready id now row = str_eq row.id id && (row.state == preparing && ltb now row.expires)

abbrev pub make_ready : Bytes → SshRow → SshRow
make_ready key row = record row { state = ready_state; host_key = key }

-- The UPDATE of `Ready` and what follows it; `get` comes last.
unfoldable pub ready_rows : Manager → Bool → String → Bytes → ℕ → Result SshError SshView × Manager
unfolding get
ready_rows m fails id key now =
    let m1 = record m { rows = update (can_become_ready id (to_ms now)) (make_ready key) m.rows } in
    if affected (can_become_ready id (to_ms now)) m.rows == 1
    then (
      get (record m1 { tokens = remove m1.tokens id }) fails id key,
      record m1 { tokens = remove m1.tokens id },
    )
    else (err not_ready, m1)

unfoldable pub token_fits : Manager → String → Bytes → Bool
unfolding equal
token_fits m id token = elim (lookup m.tokens id) [ none ↦ false | some want ↦ equal want token ]

unfoldable pub ready :
    Manager → Faults → String → Bytes → Bytes → ℕ → Result SshError SshView × Manager
unfolding ready_rows
ready m faults id token key now =
    if token_fits m id token
    then (if faults.mark then (err storage, m) else ready_rows m faults.begin id key now)
    else (err mismatch, m)

unfoldable pub bridge : Manager → Bool → String → String → ℕ → Result SshError String
bridge m fails id actor now = do
  fail_if (str_eq id "" || str_eq actor "") ids_required
  fail_if fails session_unknown
  row ← or_fail (find_session m.rows id) session_unknown
  fail_if (not (str_eq row.actor_id actor)) not_owned
  fail_if (not (row.state == ready_state)) not_ready
  fail_if (leb row.expires (to_ms now)) expired
  ok row.agent_id

abbrev pub can_close : String → SshRow → Bool
can_close id row = str_eq row.id id && is_live row.state

abbrev pub close_row : SshRow → SshRow
close_row row = record row { state = closed_state; port = none }

unfoldable pub close : Manager → Faults → String → String → Result SshError SshView × Manager
close m faults id reason =
    let m1 = record m { tokens = remove m.tokens id } in
    let m2 = record m1 { rows = update (can_close id) close_row m1.rows } in
    if str_eq reason ""
    then (err reason_required, m)
    else if faults.mark
    then (err storage, m1)
    else (get m2 faults.begin id [], m2)

abbrev pub can_expire : ℕ → SshRow → Bool
can_expire now row = is_live row.state && leb row.expires now

abbrev pub expire_row : SshRow → SshRow
expire_row row = record row { state = expired_state; port = none }

unfoldable pub reconcile : Manager → Bool → ℕ → Manager
reconcile m fails now =
    let m1 = record m { tokens = [] } in
    if fails then m1 else record m1 { rows = update (can_expire (to_ms now)) expire_row m1.rows }
