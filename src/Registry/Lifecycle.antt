-- ===== src/Registry/Lifecycle.antt =====
-- The calls of registry.go in any order that the streams and the handlers interleave, each of them
-- under the registry's lock.
use silent_devops.Prelude.{
  ℕ, String, ◌≡◌, refl, Bool, true, false, Option, none, some, List, [], ◌∷◌, All, Result, ok, err,
}
use silent_devops.Protocol.{Hello}
use silent_devops.Registry.{
  Error, Registry, ConnectionState, acquire, heartbeat, release, disconnect, expire,
}
use silent_devops.Registry.Invariant.{Inv}
use silent_devops.Registry.Preserve.{heartbeat-Inv, expire-Inv, admit-Inv, acquire-eq-ok}
use silent_devops.Registry.Release.{release-Inv}

pub data Event : Type 0 where
  acquires : String → String → Option Hello → ℕ → Event
  beats releases : ℕ → ℕ → Event
  disconnects : String → ℕ → Event
  expires : ℕ → Event

abbrev pub disconnecting : Event → Bool
disconnecting (disconnects id now) = true
disconnecting _ = false

module _ {M : Type 0} where
  -- An `Acquire` that fails leaves the table as it was.
  unfoldable pub after : Registry M → Result Error (ℕ × ConnectionState × Registry M) → Registry M
  after r (ok (p, c, r')) = r'
  after r (err e) = r

  unfoldable pub apply : Registry M → Event → Option (Registry M)
  unfolding after
  apply r (acquires cert id hello now) = some (after r (acquire r cert id hello now))
  apply r (beats p now) = some (heartbeat r p now)
  apply r (releases p now) = release r p now
  apply r (disconnects id now) = disconnect r id now
  apply r (expires now) = some (expire r now)

  unfoldable pub run : Registry M → List Event → Option (Registry M)
  run r [] = some r
  run r (e ∷ es) = elim (apply r e) [ none ↦ none | some r' ↦ run r' es ]

  after-Inv :
      (r : Registry M) (cert id : String) (hello : Option Hello) (now : ℕ)
      → Inv r
      → Inv (after r (acquire r cert id hello now))
  after-Inv r cert id hello now v = go (acquire r cert id hello now) refl
    where
      go :
          (x : Result Error (ℕ × ConnectionState × Registry M))
          → acquire r cert id hello now ≡ x
          → Inv (after r x)
      go (ok (p, c, r')) e =
          let (h, same, next, table, free, greeting) = acquire-eq-ok r cert id hello now p c r' e in
          unfold after in rw table (admit-Inv r cert h now v)
      go (err x) e = unfold after in v

  pub apply-Inv :
      (r : Registry M) (e : Event)
      → disconnecting e ≡ false
      → Inv r
      → (r' : Registry M) × (apply r e ≡ some r') × Inv r'
  unfolding apply
  apply-Inv r (acquires cert id hello now) h v = (_, refl, after-Inv r cert id hello now v)
  apply-Inv r (beats p now) h v = (_, refl, heartbeat-Inv r p now v)
  apply-Inv r (releases p now) h v = release-Inv r p now v
  apply-Inv r (disconnects id now) h v = cc
  apply-Inv r (expires now) h v = (_, refl, expire-Inv r now v)

  -- Streams that come, beat, expire and go in any order, with no forced disconnect among them, never
  -- close a channel twice, and leave a table in which every online agent has an open session of its
  -- own agent name and generation.
  pub run-Inv :
      (r : Registry M) (es : List Event)
      → All (λ e. disconnecting e ≡ false) es
      → Inv r
      → (r' : Registry M) × (run r es ≡ some r') × Inv r'
  unfolding run
  run-Inv r [] h v = (r, refl, v)
  run-Inv r (e ∷ es) h v =
      let (next, step, w) = apply-Inv r e h.0 v in
      let (last, rest, x) = run-Inv next es h.1 w in (last, rw (step, run) rest, x)
