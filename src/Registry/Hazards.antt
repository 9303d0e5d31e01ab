-- ===== src/Registry/Hazards.antt =====
-- What calls of registry.go that meet out of order do: a session that another has replaced is
-- harmless, and three pairs of calls end in a panic of the validator.
use silent_devops.Prelude.{
  ℕ, ◌+◌, ◌%◌, ◌≤◌, ◌<◌, String, ◌≡◌, refl, ◌≢◌, inl, inr, true, false, Option, none, some, arith,
  str_eq_iff, Option-cases, ok,
}
use silent_devops.Prelude.Dict.{lookup, lookup-insert}
use silent_devops.Protocol.{Hello}
use silent_devops.Registry.{
  Entry, Session, Registry, ConnectionState, u64_mod, put, admit, acquire, touch, heartbeat,
  release_entry, close_queue, release_session, release, forget_session, disconnect_session,
  disconnect_entry, disconnect, snapshot,
}
use silent_devops.Registry.Invariant.{Linked, Inv}
use silent_devops.Registry.Preserve.{acquire-eq-ok}
use silent_devops.Registry.Release.{release-Inv, release_closes}
use silent_devops.Registry.Dispatch.{panicked, enqueue, find_session, found_session, enqueue_closed}

module _ {M : Type 0} where
  -- A session whose entry carries another generation, since the agent has come back, changes
  -- nothing by its heartbeats, and its release leaves every entry as it is.
  pub stale_session :
      (r : Registry M) (p : ℕ) (s : Session M) (e : Entry) (now : ℕ)
      → r.sessions p ≡ some s
      → lookup r.entries s.agent_id ≡ some e
      → e.generation ≢ s.generation
      → (heartbeat r p now ≡ r)
        × ((r' : Registry M) → release r p now ≡ some r' → r'.entries ≡ r.entries)
  unfolding heartbeat touch release release_session release_entry close_queue
  stale_session r p s e now found has ne = (ground arith, λ r' h. ground arith)

  -- A new `Acquire` of an agent that is not online gives it a session with another generation than
  -- any that is not beyond the table's counter, as long as the counter does not wrap.
  pub acquire_outdates :
      (r r' : Registry M) (cert id : String) (hello : Option Hello) (now p : ℕ)
      (c : ConnectionState) (old : ℕ)
      → acquire r cert id hello now ≡ ok (p, c, r')
      → old ≤ r.generation
      → r.generation + 1 < u64_mod
      → (e : Entry) × (lookup r'.entries cert ≡ some e)
        × (e.online ≡ true)
        × (old < e.generation)
        × ((snapshot r cert).online ≡ false)
        × ((j : String) → cert ≢ j → lookup r'.entries j ≡ lookup r.entries j)
  unfolding admit snapshot
  acquire_outdates r r' cert id hello now p c old h le room =
      let (x, same, next, table, free, greeting) = acquire-eq-ok r cert id hello now p c r' h in
      let e : Entry = record {
        generation = (r.generation + 1) % u64_mod;
        online = true;
        last_seen = now;
        hello = x;
        session = some r.next;
      } in
      (
        e,
        rw table (ground (arith, lookup-insert r.entries cert cert e, str_eq_iff cert cert)),
        refl,
        omega arith,
        ground arith,
        λ j ne. rw table (ground (arith, lookup-insert r.entries cert j e, str_eq_iff cert j)),
      )

  -- Whenever an online agent is disconnected by force (`RevokeAgent`), the release of its session,
  -- which its stream makes on the way out, closes the queue again and panics.
  pub disconnect_then_release :
      (r : Registry M) (id : String) (e : Entry) (now later : ℕ)
      → Inv r
      → lookup r.entries id ≡ some e
      → e.online ≡ true
      → (p : ℕ) × (r' : Registry M) × (e.session ≡ some p)
        × (disconnect r id now ≡ some r')
        × (release r' p later ≡ none)
  unfolding disconnect disconnect_entry disconnect_session close_queue forget_session release
      release_session
  disconnect_then_release r id e now later v found on = elim (Option-cases e.session) [
    | inl missing ↦ absurd (v.online_has_session id e found on missing)
    | inr (p, has) ↦
        let l : Linked r id e p = v.linked id e p found has in
        (
          p,
          record (forget_session r id e now) {
            sessions = put r.sessions p (record l.session { closed = true });
          },
          has,
          ground (arith, l.found, l.open_while_online on),
          ground (arith, v.once_closed p l.session l.found, l.open_while_online on),
        )
  ]

  -- Whenever an agent's session has been released and the agent has not come back since, a forced
  -- disconnect of it closes the queue again and panics.
  pub release_then_disconnect :
      (r r' : Registry M) (id : String) (s : Session M) (e : Entry) (p now later : ℕ)
      → Inv r
      → r.sessions p ≡ some s
      → release r p now ≡ some r'
      → lookup r'.entries id ≡ some e
      → e.session ≡ some p
      → disconnect r' id later ≡ none
  unfolding disconnect disconnect_entry disconnect_session close_queue
  release_then_disconnect r r' id s e p now later v has h found link =
      let (s', now_at, closed) = release_closes r r' p now s v has h in ground arith

  -- Whenever a dispatch has looked up the session of an online agent, and the session is released
  -- before the message is sent, the send is on a closed channel and panics.
  pub release_during_dispatch :
      (r : Registry M) (id : String) (p now : ℕ) (m : M)
      → Inv r
      → find_session r id ≡ some p
      → (r' : Registry M) × (release r p now ≡ some r') × ((enqueue r' p false m).0 ≡ panicked)
  release_during_dispatch r id p now m v h =
      let (e, found, on, has) = found_session r id p h in
      let l : Linked r id e p = v.linked id e p found has in
      let (r', released, w) = release-Inv r p now v in
      let (s', now_at, closed) = release_closes r r' p now l.session v l.found released in
      (r', released, enqueue_closed r' p s' m now_at closed)
