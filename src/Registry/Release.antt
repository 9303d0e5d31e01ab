-- ===== src/Registry/Release.antt =====
-- `Session.Release` of registry.go, which closes the session's queue once.
use silent_devops.Prelude.{
  ℕ, String, ◌≡◌, refl, sym, ap, ◌∙◌, inl, inr, true, false, Option, some, arith, str_eq_iff, ◌==◌,
  Bool-cases, Option-cases,
}
use silent_devops.Prelude.Dict.{lookup, lookup-insert}
use silent_devops.Registry.{
  Entry, Session, Registry, put, release_entry, close_queue, release_session, release,
}
use silent_devops.Registry.Invariant.{Linked, Inv}
use silent_devops.Registry.Preserve.{release_entry-Inv}

module _ {M : Type 0} where
  -- No entry is online through the queue at `p`.
  abbrev pub Idle : Registry M → ℕ → Type 0
  Idle r p =
      (id : String) (e : Entry)
      → lookup r.entries id ≡ some e
      → e.session ≡ some p
      → e.online ≡ true
      → ⊥

  unfoldable pub closed_session : Session M → Session M
  closed_session s = record s { once = true; closed = true }

  close-Linked :
      (r : Registry M) (id : String) (e : Entry) (p q : ℕ) (s : Session M)
      → r.sessions q ≡ some s
      → (p ≡ q → e.online ≡ true → ⊥)
      → Linked r id e p
      → Linked (record r { sessions = put r.sessions q (closed_session s) }) id e p
  unfolding closed_session
  close-Linked r id e p q s found idle l = elim (Bool-cases (p == q)) [
    | inl same ↦ record {
      session = closed_session s;
      found = ground arith;
      agent = ground (arith, l.found, l.agent);
      same_generation = ground (arith, l.found, l.same_generation);
      open_while_online = λ o. absurd (idle (ground arith) o);
    }
    | inr other ↦ record {
      session = l.session;
      found = ground (arith, l.found);
      agent = l.agent;
      same_generation = l.same_generation;
      open_while_online = l.open_while_online;
    }
  ]

  close-Inv :
      (r : Registry M) (q : ℕ) (s : Session M)
      → r.sessions q ≡ some s
      → Idle r q
      → Inv r
      → Inv (record r { sessions = put r.sessions q (closed_session s) })
  unfolding closed_session
  close-Inv r q s found idle v = record {
    fresh = λ p le. ground (arith, v.fresh p le);
    once_closed = λ p x f. ground (arith, v.once_closed p x);
    online_has_session = v.online_has_session;
    linked = λ id e p f l.
        close-Linked r id e p q s found (λ same on. idle id e f (l ∙ ap some same) on)
          (v.linked id e p f l);
  }

  pub sessions-release_entry :
      (r : Registry M) (id : String) (g now : ℕ) → (release_entry r id g now).sessions ≡ r.sessions
  unfolding release_entry
  sessions-release_entry r id g now = ground arith

  -- What carries the released generation is offline.
  release_entry_off :
      (r : Registry M) (id j : String) (g now : ℕ) (e : Entry)
      → id ≡ j
      → lookup (release_entry r id g now).entries j ≡ some e
      → e.generation ≡ g
      → e.online ≡ false
  unfolding release_entry
  release_entry_off r id j g now e own h same = elim (Option-cases (lookup r.entries id)) [
    | inl missing ↦ ground (arith, ap (lookup r.entries) own)
    | inr (x, found) ↦ ground (
      arith,
      lookup-insert r.entries id j (record x { online = false; last_seen = now }),
      str_eq_iff id j,
    )
  ]

  release_entry-Idle :
      (r : Registry M) (p now : ℕ) (s : Session M)
      → r.sessions p ≡ some s
      → Inv r
      → Idle (release_entry r s.agent_id s.generation now) p
  release_entry-Idle r p now s found v id e h l on =
      let linked : Linked (release_entry r s.agent_id s.generation now) id e p =
        (release_entry-Inv r s.agent_id s.generation now v).linked id e p h l in
      let same : linked.session ≡ s = ground (
        arith,
        linked.found,
        ap (λ (f : ℕ → Option (Session M)). f p)
            (sessions-release_entry r s.agent_id s.generation now),
      ) in
      let own : s.agent_id ≡ id = ap (λ (x : Session M). x.agent_id) (sym same) ∙ linked.agent in
      cc (
        on,
        release_entry_off r s.agent_id id s.generation now e own h
            (sym linked.same_generation ∙ ap (λ (x : Session M). x.generation) same),
      )

  unfoldable pub released : Registry M → ℕ → Session M → ℕ → Registry M
  released r p s now = record (release_entry r s.agent_id s.generation now) {
    sessions = put (release_entry r s.agent_id s.generation now).sessions p (closed_session s);
  }

  release_session-eq :
      (r : Registry M) (p now : ℕ) (s : Session M)
      → s.once ≡ false
      → s.closed ≡ false
      → release_session r p s now ≡ some (released r p s now)
  unfolding release_session close_queue released closed_session
  release_session-eq r p now s once closed = rw (once, closed)

  release_session-Inv :
      (r : Registry M) (p now : ℕ) (s : Session M)
      → r.sessions p ≡ some s
      → Inv r
      → (r' : Registry M) × (release_session r p s now ≡ some r') × Inv r'
  unfolding release_session released
  release_session-Inv r p now s found v = elim (Bool-cases s.once) [
    | inl done ↦ (r, rw done refl, v)
    | inr first ↦ (
      released r p s now,
      release_session-eq r p now s first (v.once_closed p s found ∙ first),
      close-Inv (release_entry r s.agent_id s.generation now) p s
          (ap (λ (f : ℕ → Option (Session M)). f p)
              (sessions-release_entry r s.agent_id s.generation now)
            ∙ found)
          (release_entry-Idle r p now s found v)
          (release_entry-Inv r s.agent_id s.generation now v),
    )
  ]

  -- A release never panics: it is a no-operation the second time, and closes an open queue the first.
  pub release-Inv :
      (r : Registry M) (p now : ℕ)
      → Inv r
      → (r' : Registry M) × (release r p now ≡ some r') × Inv r'
  unfolding release
  release-Inv r p now v = elim (Option-cases (r.sessions p)) [
    | inl missing ↦ (r, rw (missing, release) refl, v)
    | inr (s, found) ↦ rw (found, release) (release_session-Inv r p now s found v)
  ]

  -- After a release the session's queue is closed.
  pub release_closes :
      (r r' : Registry M) (p now : ℕ) (s : Session M)
      → Inv r
      → r.sessions p ≡ some s
      → release r p now ≡ some r'
      → (s' : Session M) × (r'.sessions p ≡ some s') × (s'.closed ≡ true)
  unfolding release release_session released closed_session
  release_closes r r' p now s v found h = elim (Bool-cases s.once) [
    | inl done ↦ (s, ground arith, v.once_closed p s found ∙ done)
    | inr first ↦ (
      closed_session s,
      ground (arith, release_session-eq r p now s first (v.once_closed p s found ∙ first)),
      refl,
    )
  ]
