-- ===== src/Registry/Dispatch.antt =====
-- `Dispatch` and `Enqueue` of registry.go. `Dispatch` looks the session up under the lock and sends
-- after it: other calls can come in between, and what they do is an argument of `dispatch`.
use silent_devops.Prelude.{
  ℕ, ◌≤◌, ◌<◌, String, ◌≡◌, refl, ◌∙◌, inl, inr, Bool, true, false, Option, none, some, [], ◌∷◌,
  ◌++◌, arith, ltb, if◌then◌else◌, ltb→lt, Bool-cases, Option-cases, length,
}
use silent_devops.Prelude.Dict.{lookup}
use silent_devops.Registry.{Entry, Session, Registry, put, touch, heartbeat, snapshot}
use silent_devops.Registry.Invariant.{Linked, Inv}

pub data Outcome : Type 0 where
  sent cancelled blocked offline panicked : Outcome

module _ {M : Type 0} where
  -- The `select` of `Enqueue`. `done` says that the runtime takes the branch of `ctx.Done()`; a full
  -- queue blocks the other one, and a send on a closed channel panics.
  enqueue_session : Registry M → ℕ → Session M → Bool → M → Outcome × Registry M
  enqueue_session r p s done m =
      if done
      then (cancelled, r)
      else if s.closed
      then (panicked, r)
      else if ltb (length s.queue) s.capacity
      then (sent, record r { sessions = put r.sessions p (record s { queue = s.queue ++ m ∷ [] }) })
      else (blocked, r)

  unfoldable pub enqueue : Registry M → ℕ → Bool → M → Outcome × Registry M
  unfolding enqueue_session
  enqueue r p done m = elim (r.sessions p) [
    | none ↦ (offline, r)
    | some s ↦ enqueue_session r p s done m
  ]

  -- The part of `Dispatch` under the lock: the session of an agent that is online.
  unfoldable pub find_session : Registry M → String → Option ℕ
  find_session r id = elim (lookup r.entries id) [
    | none ↦ none
    | some e ↦ if e.online then e.session else none
  ]

  -- `meanwhile` is what other calls do to the registry between the unlocking and the send.
  unfoldable pub dispatch :
      (Registry M → Registry M) → Registry M → String → Bool → M → Outcome × Registry M
  dispatch meanwhile r id done m = elim (find_session r id) [
    | none ↦ (offline, r)
    | some p ↦ enqueue (meanwhile r) p done m
  ]

  -- A session is never freed, and stays the session of its agent, as other calls come in.
  abbrev pub KeepsSessions : Registry M → Registry M → Type 0
  KeepsSessions r r' =
      (p : ℕ) (s : Session M)
      → r.sessions p ≡ some s
      → (s' : Session M) × (r'.sessions p ≡ some s') × (s'.agent_id ≡ s.agent_id)

  pub heartbeat-KeepsSessions : (r : Registry M) (p now : ℕ) → KeepsSessions r (heartbeat r p now)
  unfolding heartbeat touch
  heartbeat-KeepsSessions r p now q s there = (s, ground arith, refl)

  -- The session at `p` is the one that the entry of an agent refers to, and the agent is online.
  pub record OwnSession (r : Registry M) (id : String) (p : ℕ) : Type 0 where
    pub entry : Entry
    pub found : lookup r.entries id ≡ some entry
    pub online : entry.online ≡ true
    pub session : entry.session ≡ some p

  -- The outcomes of a dispatch, each with the condition that alone leads to it: the agent is not online;
  -- or it is, and the context is done; or its entry's session, as the other calls left it, is
  -- closed, or is open and full, or is open and has room.
  pub data Delivers (r r' : Registry M) (id : String) (done : Bool) (m : M)
      (o : Outcome × Registry M) : Type 0 where
    unreachable : (snapshot r id).online ≡ false → o ≡ (offline, r) → Delivers r r' id done m o
    gave_up :
        (p : ℕ) → OwnSession r id p → done ≡ true → o ≡ (cancelled, r') → Delivers r r' id done m o
    closed_meanwhile :
        (p : ℕ) (s : Session M)
        → OwnSession r id p
        → done ≡ false
        → r'.sessions p ≡ some s
        → s.closed ≡ true
        → o ≡ (panicked, r')
        → Delivers r r' id done m o
    full :
        (p : ℕ) (s : Session M)
        → OwnSession r id p
        → done ≡ false
        → r'.sessions p ≡ some s
        → s.agent_id ≡ id
        → s.closed ≡ false
        → s.capacity ≤ length s.queue
        → o ≡ (blocked, r')
        → Delivers r r' id done m o
    queued :
        (p : ℕ) (s : Session M)
        → OwnSession r id p
        → done ≡ false
        → r'.sessions p ≡ some s
        → s.agent_id ≡ id
        → s.closed ≡ false
        → length s.queue < s.capacity
        → o ≡ (
          sent,
          record r' { sessions = put r'.sessions p (record s { queue = s.queue ++ m ∷ [] }) },
        )
        → Delivers r r' id done m o

  enqueue-Delivers :
      (r r' : Registry M) (id : String) (done : Bool) (m : M) (p : ℕ) (s : Session M)
      → OwnSession r id p
      → r'.sessions p ≡ some s
      → s.agent_id ≡ id
      → Delivers r r' id done m (enqueue_session r' p s done m)
  unfolding enqueue_session
  enqueue-Delivers r r' id true m p s own found of = gave_up p own refl refl
  enqueue-Delivers r r' id false m p s own found of = elim (Bool-cases s.closed) [
    | inl shut ↦ closed_meanwhile p s own refl found shut (ground arith)
    | inr opened ↦ elim (Bool-cases (ltb (length s.queue) s.capacity)) [
      | inl room ↦ queued p s own refl found of opened (ltb→lt _ _ room) (ground arith)
      | inr no_room ↦ full p s own refl found of opened (ground arith) (ground arith)
    ]
  ]

  pub found_session :
      (r : Registry M) (id : String) (p : ℕ)
      → find_session r id ≡ some p
      → (e : Entry) × (lookup r.entries id ≡ some e) × (e.online ≡ true) × (e.session ≡ some p)
  unfolding find_session
  found_session r id p h = elim (Option-cases (lookup r.entries id)) [
    | inl missing ↦ ground arith
    | inr (e, found) ↦ (e, found, ground arith, ground arith)
  ]

  not_found_session :
      (r : Registry M) (id : String)
      → Inv r
      → find_session r id ≡ none
      → (snapshot r id).online ≡ false
  unfolding find_session snapshot
  not_found_session r id v h = elim (Option-cases (lookup r.entries id)) [
    | inl missing ↦ ground arith
    | inr (e, found) ↦ ground (arith, v.online_has_session id e found)
  ]

  -- In a valid table, and whatever other calls do between the lookup and the send as long as no session
  -- is freed: an agent that is not online is reported offline and nothing changes. For an online
  -- agent the session is that of its entry, and: a context that is done is reported and nothing is
  -- sent; the send panics when the session has been closed meanwhile; else the message goes to the end
  -- of its queue, when there is room, or waits.
  pub dispatch-Delivers :
      (r : Registry M) (meanwhile : Registry M → Registry M) (id : String) (done : Bool) (m : M)
      → Inv r
      → KeepsSessions r (meanwhile r)
      → Delivers r (meanwhile r) id done m (dispatch meanwhile r id done m)
  unfolding dispatch
  dispatch-Delivers r meanwhile id done m v keeps = elim (Option-cases (find_session r id)) [
    | inl missing ↦ rw (missing, dispatch) (unreachable (not_found_session r id v missing) refl)
    | inr (p, h) ↦
        let (e, found, on, has) = found_session r id p h in
        let l : Linked r id e p = v.linked id e p found has in
        let (s, there, same) = keeps p l.session l.found in
        let own : OwnSession r id p = record {
          entry = e;
          found = found;
          online = on;
          session = has;
        } in
        rw (h, dispatch)
          (unfold enqueue in
            rw (there, enqueue)
              (enqueue-Delivers r (meanwhile r) id done m p s own there (same ∙ l.agent)))
  ]

  pub enqueue_closed :
      (r : Registry M) (p : ℕ) (s : Session M) (m : M)
      → r.sessions p ≡ some s
      → s.closed ≡ true
      → (enqueue r p false m).0 ≡ panicked
  unfolding enqueue enqueue_session
  enqueue_closed r p s m found closed = ground arith
