-- ===== src/Registry/Keeps.antt =====
-- The calls of registry.go free no session: whatever streams come, beat, expire and go while a dispatch
-- is between its lookup and its send, the session that it has found is still there.
use mathlib.Core.Path.{subst}
use silent_devops.Prelude.{
  ℕ, String, ◌≡◌, refl, sym, ap, ◌∙◌, inl, inr, true, false, Option, none, some, List, [], ◌∷◌,
  arith, ◌==◌, Bool-cases, Option-cases, All, Result, ok, err,
}
use silent_devops.Protocol.{Hello}
use silent_devops.Registry.{
  Error, Session, Registry, ConnectionState, admit, acquire, close_queue, release_session, release,
  expire,
}
use silent_devops.Registry.Invariant.{Inv}
use silent_devops.Registry.Preserve.{acquire-eq-ok}
use silent_devops.Registry.Release.{sessions-release_entry}
use silent_devops.Registry.Lifecycle.{
  Event, acquires, beats, releases, disconnects, expires, disconnecting, after, apply, run,
  apply-Inv, run-Inv,
}
use silent_devops.Registry.Dispatch.{KeepsSessions, heartbeat-KeepsSessions}

some-injective {ℓ} : {A : Type ℓ} {x y : A} → some x ≡ some y → x ≡ y
some-injective h = cc

module _ {M : Type 0} where
  admit-KeepsSessions :
      (r : Registry M) (cert : String) (h : Hello) (now : ℕ)
      → Inv r
      → KeepsSessions r (admit r cert h now)
  unfolding admit
  admit-KeepsSessions r cert h now v p s there = (s, ground (arith, v.fresh p), refl)

  release-KeepsSessions :
      (r r' : Registry M) (p now : ℕ) → Inv r → release r p now ≡ some r' → KeepsSessions r r'
  unfolding release release_session close_queue
  release-KeepsSessions r r' p now v h q s there = elim (Option-cases (r.sessions p)) [
    | inl missing ↦ (s, ground arith, refl)
    | inr (x, found) ↦ elim (Bool-cases x.once) [
      | inl done ↦ (s, ground arith, refl)
      | inr first ↦
          let opened : x.closed ≡ false = v.once_closed p x found ∙ first in
          let same =
            ap (λ (f : ℕ → Option (Session M)). f q)
              (sessions-release_entry r x.agent_id x.generation now) in
          elim (Bool-cases (q == p)) [
            | inl here ↦ (record x { once = true; closed = true }, ground arith, ground arith)
            | inr away ↦ (s, ground (arith, same), refl)
          ]
    ]
  ]

  after-KeepsSessions :
      (r : Registry M) (cert id : String) (hello : Option Hello) (now : ℕ)
      → Inv r
      → KeepsSessions r (after r (acquire r cert id hello now))
  unfolding after
  after-KeepsSessions r cert id hello now v = go (acquire r cert id hello now) refl
    where
      go :
          (x : Result Error (ℕ × ConnectionState × Registry M))
          → acquire r cert id hello now ≡ x
          → KeepsSessions r (after r x)
      go (ok (p, c, r')) e =
          let (h, same, next, table, free, greeting) = acquire-eq-ok r cert id hello now p c r' e in
          subst (KeepsSessions r) (sym table) (admit-KeepsSessions r cert h now v)
      go (err why) e = λ q s there. (s, there, refl)

  apply-KeepsSessions :
      (r r' : Registry M) (e : Event)
      → disconnecting e ≡ false
      → Inv r
      → apply r e ≡ some r'
      → KeepsSessions r r'
  unfolding apply expire
  apply-KeepsSessions r r' (acquires cert id hello now) h v same =
      subst (KeepsSessions r) (some-injective same) (after-KeepsSessions r cert id hello now v)
  apply-KeepsSessions r r' (beats p now) h v same =
      subst (KeepsSessions r) (some-injective same) (heartbeat-KeepsSessions r p now)
  apply-KeepsSessions r r' (releases p now) h v same = release-KeepsSessions r r' p now v same
  apply-KeepsSessions r r' (disconnects id now) h v same = absurd cc
  apply-KeepsSessions r r' (expires now) h v same =
      subst (KeepsSessions r) (some-injective same) (λ q s there. (s, there, refl))

  -- Whatever streams come, beat, expire and go, in any order and with no forced disconnect among them,
  -- every session is still there, and of the same agent.
  pub run-KeepsSessions :
      (r r' : Registry M) (es : List Event)
      → All (λ e. disconnecting e ≡ false) es
      → Inv r
      → run r es ≡ some r'
      → KeepsSessions r r'
  unfolding run
  run-KeepsSessions r r' [] h v same =
      subst (KeepsSessions r) (some-injective same) (λ q s there. (s, there, refl))
  run-KeepsSessions r r' (e ∷ es) h v same = λ q s there.
      let (next, step, w) = apply-Inv r e h.0 v in
      let rest : run next es ≡ some r' = rw (step, run) at same in
      let (s1, there1, own1) = apply-KeepsSessions r next e h.0 v step q s there in
      let (s2, there2, own2) = run-KeepsSessions next r' es h.1 w rest q s1 there1 in
      (s2, there2, own2 ∙ own1)

  -- What other calls do meanwhile, when they come in one after another.
  abbrev pub calls_of : List Event → Registry M → Registry M
  calls_of es r = elim (run r es) [ none ↦ r | some r' ↦ r' ]

  pub calls-KeepsSessions :
      (r : Registry M) (es : List Event)
      → All (λ e. disconnecting e ≡ false) es
      → Inv r
      → KeepsSessions r (calls_of es r)
  calls-KeepsSessions r es h v =
      let (r', done, w) = run-Inv r es h v in
      let same : r' ≡ calls_of es r = rw (calls_of, done) refl in
      subst (KeepsSessions r) same (run-KeepsSessions r r' es h v done)
