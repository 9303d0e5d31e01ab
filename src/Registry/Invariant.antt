-- ===== src/Registry/Invariant.antt =====
-- What holds of the table of registry.go between calls, and the change of one entry.
use silent_devops.Prelude.{
  ℕ, ◌≤◌, String, ◌≡◌, refl, sym, ap, ◌∙◌, ◌≢◌, ◌⊎◌, inl, inr, true, false, Option, none, some,
  arith, str_eq_iff,
}
use silent_devops.Prelude.Dict.{lookup, insert, lookup-insert}
use silent_devops.Protocol.{Limits}
use silent_devops.Registry.{Entry, Session, Registry, new}

-- The session of an entry exists, is the entry's own, and is open while the agent is online.
pub record Linked {M : Type 0} (r : Registry M) (id : String) (e : Entry) (p : ℕ) : Type 0 where
  pub session : Session M
  pub found : r.sessions p ≡ some session
  pub agent : session.agent_id ≡ id
  pub same_generation : session.generation ≡ e.generation
  pub open_while_online : e.online ≡ true → session.closed ≡ false

pub record Inv {M : Type 0} (r : Registry M) : Type 0 where
  pub fresh : (p : ℕ) → r.next ≤ p → r.sessions p ≡ none
  pub once_closed : (p : ℕ) (s : Session M) → r.sessions p ≡ some s → s.closed ≡ s.once
  pub online_has_session :
      (id : String) (e : Entry) → lookup r.entries id ≡ some e → e.online ≡ true → e.session ≢ none
  pub linked :
      (id : String) (e : Entry) (p : ℕ)
      → lookup r.entries id ≡ some e
      → e.session ≡ some p
      → Linked r id e p

-- A change of an entry that keeps its session and generation, and does not put it online.
pub record Tamer (e e' : Entry) : Type 0 where
  pub same_session : e'.session ≡ e.session
  pub kept_generation : e'.generation ≡ e.generation
  pub not_woken : e'.online ≡ true → e.online ≡ true

pub Tamer-refl : (e : Entry) → Tamer e e
Tamer-refl e = record { same_session = refl; kept_generation = refl; not_woken = λ o. o }

pub Tamer-eq : (e x y : Entry) → Tamer e x → x ≡ y → Tamer e y
Tamer-eq e x y t p = rw (← p) t

module _ {M : Type 0} where
  pub Linked-Tamer :
      (r r' : Registry M) (id j : String) (e e' : Entry) (p : ℕ)
      → r'.sessions ≡ r.sessions
      → id ≡ j
      → Tamer e e'
      → Linked r id e p
      → Linked r' j e' p
  Linked-Tamer r r' id j e e' p same ij t l = record {
    session = l.session;
    found = ap (λ h. h p) same ∙ l.found;
    agent = l.agent ∙ ij;
    same_generation = l.same_generation ∙ sym t.kept_generation;
    open_while_online = λ o. l.open_while_online (t.not_woken o);
  }

  unfoldable pub set_entry : Registry M → String → Entry → Registry M
  set_entry r id e = record r { entries = insert r.entries id e }

  -- An entry of the new table is the changed one, or stands in the old table.
  pub lookup-set_entry :
      (r : Registry M) (id j : String) (e x : Entry)
      → lookup (set_entry r id e).entries j ≡ some x
      → ((id ≡ j) × (e ≡ x)) ⊎ (lookup r.entries j ≡ some x)
  unfolding set_entry
  lookup-set_entry r id j e x h = ground (arith, lookup-insert r.entries id j e, str_eq_iff id j)

  pub set_entry-Inv :
      (r : Registry M) (id : String) (e e' : Entry)
      → lookup r.entries id ≡ some e
      → Tamer e e'
      → Inv r
      → Inv (set_entry r id e')
  unfolding set_entry
  set_entry-Inv r id e e' found t v = record {
    fresh = v.fresh;
    once_closed = v.once_closed;
    online_has_session = λ j x h on none_s. elim (lookup-set_entry r id j e' x h) [
      | inl (p, q) ↦ v.online_has_session id e found (ground arith) (ground arith)
      | inr old ↦ v.online_has_session j x old on none_s
    ];
    linked = λ j x p h s. elim (lookup-set_entry r id j e' x h) [
      | inl (a, b) ↦
          Linked-Tamer r (set_entry r id e') id j e x p refl a (Tamer-eq e e' x t b)
            (v.linked id e p found (ground arith))
      | inr old ↦
          Linked-Tamer r (set_entry r id e') j j x x p refl refl (Tamer-refl x)
            (v.linked j x p old s)
    ];
  }

  pub new-Inv :
      (version : ℕ) (limits : Option Limits) (timeout : ℕ)
      → Inv {M = M} (new version limits timeout)
  unfolding new lookup
  new-Inv version limits timeout = record {
    fresh = λ p le. refl;
    once_closed = λ p s f. cc;
    online_has_session = λ id e f on ns. cc;
    linked = λ id e p f s. cc;
  }
