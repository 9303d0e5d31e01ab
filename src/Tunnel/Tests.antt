-- ===== src/Tunnel/Tests.antt =====
-- Runs of the relay, and the theorems about it at concrete inputs.
use silent_devops.Prelude.{
  ℕ, ◌≡◌, refl, true, false, not, ◌||◌, none, some, List, [], ◌∷◌, arith, str_eq_iff, ◌==◌,
  if◌then◌else◌, length, bytes_eq, ok, err,
}
use silent_devops.Prelude.Dict.{lookup}
use silent_devops.Tunnel.{
  Relay, already_registered, binding_mismatch, new_relay, register, serve, attach, take_client,
  rendezvous,
}
use silent_devops.Tunnel.Pump.{Recv, frame, end_of_stream, ended, pump}

abbrev frames : List Recv
frames =
    frame (record { bytes = 1 ∷ 2 ∷ []; close = false })
    ∷ frame (record { bytes = []; close = false })
    ∷ frame (record { bytes = 3 ∷ []; close = true })
    ∷ end_of_stream
    ∷ []

pumped : pump frames 9 ≡ (
  ended,
  record { bytes = 1 ∷ 2 ∷ []; close = false }
      ∷ record { bytes = 3 ∷ []; close = false }
      ∷ record { bytes = []; close = true }
      ∷ [],
)
unfolding pump
pumped = refl

abbrev seven : List ℕ
seven = 7 ∷ []

nothing_yet : lookup new_relay.pending "s1" ≡ none
unfolding lookup new_relay
nothing_yet = refl

rendezvous_example :
    ((register new_relay (some seven) "s1").0 ≡ ok seven)
    × (attach (register new_relay (some seven) "s1").1 "s1" seven ≡ (
        if length seven == 0 || not (bytes_eq seven seven)
        then err binding_mismatch
        else ok new_relay.next))
    × ((register (register new_relay (some seven) "s1").1 (some seven) "s1").0
        ≡ err already_registered)
    × ((r2 : Relay) × (serve (register new_relay (some seven) "s1").1 "s1" 4
          ≡ (ok new_relay.next, r2))
        × ((r3 : Relay) × (take_client r2 new_relay.next "s1" false ≡ some (ok 4, r3))))
rendezvous_example =
    rendezvous new_relay "s1" seven seven 4 (ground (arith, str_eq_iff "s1" "")) nothing_yet
