-- ===== src/Connections/Streams.antt =====
-- A late Offline of an earlier stream does not touch the stream that came after it.
use silent_devops.Prelude.{
  ℕ, String, ◌≡◌, refl, sym, ap, ◌∙◌, inl, inr, Bool, true, false, not, ◌&&◌, ◌||◌, List, [], ◌∷◌,
  arith, str_eq, str_eq_iff, str_eq_refl, Bool-cases, ok-injective, exists-update, update, exists,
  ok, fail_if, >>=-eq-ok,
}
use silent_devops.Jobs.{to_ms}
use silent_devops.Identity.{AgentRow}
use silent_devops.Connections.{
  ConnectionRow, not_stored, is_agent, takes_stream, connect_row, upsert, go_online, is_stream,
  disconnect_row, go_offline, is_online,
}

abbrev shows_online : String → ConnectionRow → Bool
shows_online id row = is_agent id row && row.online

-- Every row of the agent is online with the stream.
abbrev on_stream : String → String → List ConnectionRow → Bool
on_stream id stream rows = not (
    exists
      (λ (row : ConnectionRow). is_agent id row && not (row.online && str_eq row.stream_id stream))
      rows)

update-on_stream :
    (id stream : String) (now : ℕ) (rows : List ConnectionRow)
    → on_stream id stream (update (is_agent id) (connect_row stream now) rows) ≡ true
update-on_stream id stream now [] = refl
update-on_stream id stream now (x ∷ rows) =
    let rest = update-on_stream id stream now rows in
    elim (Bool-cases (is_agent id x)) [
      | inl own ↦ rw (own, own, str_eq_refl stream) rest
      | inr other ↦ rw (other, other) rest
    ]

absent-on_stream :
    (id stream : String) (rows : List ConnectionRow)
    → exists (is_agent id) rows ≡ false
    → on_stream id stream rows ≡ true
absent-on_stream id stream [] h = refl
absent-on_stream id stream (x ∷ rows) h =
    let rest = absent-on_stream id stream rows (ground arith) in ground (arith, rest)

upserted :
    (rows : List ConnectionRow) (id stream : String) (now : ℕ)
    → (on_stream id stream (upsert rows id stream now) ≡ true)
      × (exists (is_agent id) (upsert rows id stream now) ≡ true)
upserted rows id stream now = elim (Bool-cases (exists (is_agent id) rows)) [
  | inl there ↦
      let held =
        exists-update (is_agent id) (is_agent id) (connect_row stream now) rows (λ x. refl) in
      (rw there (update-on_stream id stream now rows), rw there (held ∙ there))
  | inr fresh ↦
      let rest = absent-on_stream id stream rows fresh in
      (rw (fresh, str_eq_refl id, str_eq_refl stream) rest, rw (fresh, str_eq_refl id) refl)
]

stream-online :
    (id stream : String) (rows : List ConnectionRow)
    → on_stream id stream rows ≡ true
    → exists (is_agent id) rows ≡ true
    → is_online id rows ≡ true
stream-online id stream [] h there = absurd (ground arith)
stream-online id stream (x ∷ rows) h there = elim (Bool-cases (is_agent id x)) [
  | inl own ↦ ground arith
  | inr other ↦
      let rest = stream-online id stream rows (ground arith) (ground arith) in ground (arith, rest)
]

late-online :
    (id stream old : String) (f : ConnectionRow → ConnectionRow) (rows : List ConnectionRow)
    → str_eq stream old ≡ false
    → on_stream id stream rows ≡ true
    → is_online id (update (is_stream id old) f rows) ≡ is_online id rows
late-online id stream old f [] new h = refl
late-online id stream old f (x ∷ rows) new h =
    let rest = late-online id stream old f rows new (ground arith) in
    let miss : is_stream id old x ≡ false =
      ground
        (arith, str_eq_iff x.stream_id stream, str_eq_iff x.stream_id old, str_eq_iff stream old) in
    rw (miss, rest) refl

own-offline :
    (id stream : String) (now : ℕ) (rows : List ConnectionRow)
    → on_stream id stream rows ≡ true
    → is_online id (update (is_stream id stream) (disconnect_row now) rows) ≡ false
own-offline id stream now [] h = refl
own-offline id stream now (x ∷ rows) h =
    let rest = own-offline id stream now rows (ground arith) in
    elim (Bool-cases (is_stream id stream x)) [
      | inl hit ↦ rw hit (ground (arith, rest))
      | inr miss ↦ rw miss (ground (arith, rest))
    ]

-- After Online for a stream of an agent: the Offline of an earlier stream leaves the agent online, however
-- late it comes; the Offline of that stream takes it offline; and where the storage fails to carry that
-- one out, the agent stays online.
pub offline_exact :
    (agents : List AgentRow) (rows : List ConnectionRow) (fails : Bool)
    (id stream hostname old : String) (now later : ℕ) (o : List AgentRow × List ConnectionRow)
    → go_online agents rows fails id stream hostname now ≡ ok o
    → str_eq stream old ≡ false
    → (is_online id (go_offline o.1 false id old later) ≡ true)
      × (is_online id (go_offline o.1 false id stream later) ≡ false)
      × (is_online id (go_offline o.1 true id stream later) ≡ true)
unfolding go_online go_offline
offline_exact agents rows fails id stream hostname old now later o done new =
    let (_, _, kept) =
      >>=-eq-ok
        (fail_if
          (fails
            || (not (exists (λ (a : AgentRow). str_eq a.id id) agents)
                || exists (takes_stream id stream) rows))
          not_stored)
        _ done in
    let same = ok-injective kept in
    let rows' = upsert rows id stream (to_ms now) in
    let left : rows' ≡ o.1 = ap (λ (p : List AgentRow × List ConnectionRow). p.1) same in
    let (settled, there) = upserted rows id stream (to_ms now) in
    let online = stream-online id stream rows' settled there in
    (
      sym (
            ap (λ rs. is_online id (update (is_stream id old) (disconnect_row (to_ms later)) rs))
              left)
          ∙ late-online id stream old (disconnect_row (to_ms later)) rows' new settled
          ∙ online,
      sym (
            ap (λ rs. is_online id (update (is_stream id stream) (disconnect_row (to_ms later)) rs))
              left)
          ∙ own-offline id stream (to_ms later) rows' settled,
      sym (ap (is_online id) left) ∙ online,
    )
