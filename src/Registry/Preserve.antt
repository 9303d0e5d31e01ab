-- ===== src/Registry/Preserve.antt =====
-- Each call of registry.go keeps the invariant of the table.
use silent_devops.Prelude.{
  ℕ, ◌+◌, ◌%◌, String, ◌≡◌, refl, sym, ap, ◌∙◌, ◌≢◌, ◌⊎◌, inl, inr, true, false, ◌&&◌, Option, none,
  some, arith, str_eq_iff, ◌==◌, Bool-cases, Option-cases, ok,
}
use silent_devops.Prelude.Dict.{lookup, lookup-insert, map_found, lookup-map_values}
use silent_devops.Protocol.{Hello}
use silent_devops.Registry.{
  Entry, Session, Registry, ConnectionState, u64_mod, put, is_online, expire_entry, new_session,
  admit, connection_state, acquire, touch, heartbeat, release_entry, expire,
}
use silent_devops.Registry.Invariant.{
  Linked, Inv, Tamer, Tamer-eq, Linked-Tamer, set_entry, set_entry-Inv,
}

expire_entry-Tamer : (timeout now : ℕ) (e : Entry) → Tamer e (expire_entry timeout now e)
unfolding expire_entry
expire_entry-Tamer timeout now e = ground arith

module _ {M : Type 0} where
  touch-Inv : (r : Registry M) (id : String) (g now : ℕ) → Inv r → Inv (touch r id g now)
  unfolding touch set_entry
  touch-Inv r id g now v = elim (Option-cases (lookup r.entries id)) [
    | inl e ↦ rw (e, touch) v
    | inr (x, e) ↦
        rw (e, touch)
          (elim (Bool-cases ((x.generation == g) && x.online)) [
            | inl yes_b ↦ rw yes_b (set_entry-Inv r id x _ e (ground arith) v)
            | inr no_b ↦ rw no_b v
          ])
  ]

  pub release_entry-Inv :
      (r : Registry M) (id : String) (g now : ℕ) → Inv r → Inv (release_entry r id g now)
  unfolding release_entry set_entry
  release_entry-Inv r id g now v = elim (Option-cases (lookup r.entries id)) [
    | inl e ↦ rw (e, release_entry) v
    | inr (x, e) ↦
        rw (e, release_entry)
          (elim (Bool-cases (x.generation == g)) [
            | inl yes_b ↦ rw yes_b (set_entry-Inv r id x _ e (ground arith) v)
            | inr no_b ↦ rw no_b v
          ])
  ]

  pub heartbeat-Inv : (r : Registry M) (p now : ℕ) → Inv r → Inv (heartbeat r p now)
  unfolding heartbeat
  heartbeat-Inv r p now v = elim (Option-cases (r.sessions p)) [
    | inl e ↦ rw (e, heartbeat) v
    | inr (s, e) ↦ rw (e, heartbeat) (touch-Inv r s.agent_id s.generation now v)
  ]

  lookup-expire :
      (r : Registry M) (now : ℕ) (id : String) (x : Entry)
      → lookup (expire r now).entries id ≡ some x
      → (e : Entry) × (lookup r.entries id ≡ some e) × (expire_entry r.timeout now e ≡ x)
  unfolding expire
  lookup-expire r now id x h = elim (Option-cases (lookup r.entries id)) [
    | inl e ↦ cc (
      lookup-map_values (expire_entry r.timeout now) r.entries id,
      ap (map_found (expire_entry r.timeout now)) e,
    )
    | inr (y, e) ↦ (
      y,
      e,
      cc (
        lookup-map_values (expire_entry r.timeout now) r.entries id,
        ap (map_found (expire_entry r.timeout now)) e,
      ),
    )
  ]

  pub expire-Inv : (r : Registry M) (now : ℕ) → Inv r → Inv (expire r now)
  unfolding expire
  expire-Inv r now v = record {
    fresh = v.fresh;
    once_closed = v.once_closed;
    online_has_session = λ id x h on none_s.
        let (e, old, q) = lookup-expire r now id x h in
        let t : Tamer e x = Tamer-eq e _ x (expire_entry-Tamer r.timeout now e) q in
        v.online_has_session id e old (t.not_woken on) (sym t.same_session ∙ none_s);
    linked = λ id x p h s.
        let (e, old, q) = lookup-expire r now id x h in
        let t : Tamer e x = Tamer-eq e _ x (expire_entry-Tamer r.timeout now e) q in
        Linked-Tamer r (expire r now) id id e x p refl refl t
          (v.linked id e p old (sym t.same_session ∙ s));
  }

  -- An address in use is below `next`.
  Linked-not_next :
      (r : Registry M) (id : String) (e : Entry) (p : ℕ) → Inv r → Linked r id e p → p ≢ r.next
  Linked-not_next r id e p v l q = cc (v.fresh p (omega arith), l.found)

  Linked-put :
      (r r' : Registry M) (id : String) (e : Entry) (p q : ℕ) (s : Session M)
      → r'.sessions ≡ put r.sessions q s
      → p ≢ q
      → Linked r id e p
      → Linked r' id e p
  Linked-put r r' id e p q s same ne l = record {
    session = l.session;
    found = ap (λ h. h p) same ∙ ground (arith, l.found);
    agent = l.agent;
    same_generation = l.same_generation;
    open_while_online = l.open_while_online;
  }

  -- The table that `Acquire` leaves: what stands in it is the new entry, or stood there before.
  lookup-admit :
      (r : Registry M) (cert : String) (h : Hello) (now : ℕ) (j : String) (x : Entry)
      → lookup (admit r cert h now).entries j ≡ some x
      → ((cert ≡ j) × (x.session ≡ some r.next) × (x.generation ≡ (r.generation + 1) % u64_mod))
        ⊎ (lookup r.entries j ≡ some x)
  unfolding admit
  lookup-admit r cert h now j x e = ground (
    arith,
    lookup-insert r.entries cert j (record {
      generation = (r.generation + 1) % u64_mod;
      online = true;
      last_seen = now;
      hello = h;
      session = some r.next;
    }),
    str_eq_iff cert j,
  )

  pub admit-Inv :
      (r : Registry M) (cert : String) (h : Hello) (now : ℕ) → Inv r → Inv (admit r cert h now)
  unfolding admit
  admit-Inv r cert h now v = record {
    fresh = λ p le. ground (arith, v.fresh p (omega arith));
    once_closed = λ p s f. ground (arith, v.once_closed p s);
    online_has_session = λ j x e on ns. elim (lookup-admit r cert h now j x e) [
      | inl (a, b, c) ↦ cc
      | inr old ↦ v.online_has_session j x old on ns
    ];
    linked = λ j x p e s. elim (lookup-admit r cert h now j x e) [
      | inl (a, b, c) ↦ record {
        session = new_session r cert ((r.generation + 1) % u64_mod);
        found = ground arith;
        agent = ground arith;
        same_generation = ground arith;
        open_while_online = λ o. ground arith;
      }
      | inr old ↦
          let l : Linked r j x p = v.linked j x p old s in
          Linked-put r (admit r cert h now) j x p r.next _ refl (Linked-not_next r j x p v l) l
    ];
  }

  -- A call of `Acquire` that succeeds hands out the next address, and admits the agent.
  pub acquire-eq-ok :
      (r : Registry M) (cert hello_id : String) (h : Option Hello) (now p : ℕ) (c : ConnectionState)
      (r' : Registry M)
      → acquire r cert hello_id h now ≡ ok (p, c, r')
      → (x : Hello) × (h ≡ some x)
        × (p ≡ r.next)
        × (r' ≡ admit r cert x now)
        × (is_online (lookup r.entries cert) ≡ false)
        × (c ≡ connection_state r x)
  unfolding acquire
  acquire-eq-ok r cert hello_id none now p c r' e = cc
  acquire-eq-ok r cert hello_id (some x) now p c r' e =
      (x, refl, ground arith, ground arith, ground arith, ground arith)
