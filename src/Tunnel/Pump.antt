-- ===== src/Tunnel/Pump.antt =====
-- `pump` of internal/tunnel/relay.go: one direction of a tunnel. A stream is what its calls of `Recv`
-- give, one after another, and the other takes as many calls of `Send` as `room` says before one fails.
use silent_devops.Prelude.{
  ℕ, zero, suc, ◌≡◌, refl, sym, ap, ◌∙◌, ◌⊎◌, inl, inr, Bool, true, false, List, [], ◌∷◌, ◌++◌,
  arith, ◌==◌, if◌then◌else◌, Bool-cases, length, append_assoc,
}

pub record Frame : Type 0 where
  pub bytes : List ℕ
  pub close : Bool

pub data Recv : Type 0 where
  frame : Frame → Recv
  end_of_stream recv_error : Recv

pub data PumpEnd : Type 0 where
  ended recv_failed send_failed waits : PumpEnd

-- `_ = dst.Send(&TunnelFrame{Close: true})`
abbrev pub send_close : ℕ → List Frame
send_close zero = []
send_close (suc room) = record { bytes = []; close = true } ∷ []

abbrev pub first_sent : Frame → PumpEnd × List Frame → PumpEnd × List Frame
first_sent f (e, fs) = (e, record f { close = false } ∷ fs)

abbrev pub after_frame : Frame → ℕ → PumpEnd × List Frame → PumpEnd × List Frame
after_frame f room rest = if f.close then (ended, send_close room) else rest

abbrev pub pump_frame : Frame → ℕ → (ℕ → PumpEnd × List Frame) → PumpEnd × List Frame
pump_frame f room rest = if length f.bytes == 0 then after_frame f room (rest room) else elim room [
  | zero ↦ (send_failed, [])
  | suc less ↦ first_sent f (after_frame f less (rest less))
]

unfoldable pub pump : List Recv → ℕ → PumpEnd × List Frame
pump [] room = (waits, [])
pump (end_of_stream ∷ more) room = (ended, send_close room)
pump (recv_error ∷ more) room = (recv_failed, [])
pump (frame f ∷ more) room = pump_frame f room (pump more)

-- The bytes that arrive before the stream ends, fails, or says that it closes.
abbrev pub received : List Recv → List ℕ
received [] = []
received (end_of_stream ∷ more) = []
received (recv_error ∷ more) = []
received (frame f ∷ more) = f.bytes ++ (if f.close then [] else received more)

abbrev pub sent_bytes : List Frame → List ℕ
sent_bytes [] = []
sent_bytes (f ∷ fs) = f.bytes ++ sent_bytes fs

send_close-bytes : (room : ℕ) → sent_bytes (send_close room) ≡ []
send_close-bytes zero = refl
send_close-bytes (suc room) = refl

no_bytes : (xs : List ℕ) → (length xs == 0) ≡ true → xs ≡ []
no_bytes [] h = refl
no_bytes (x ∷ xs) h = absurd (ground arith)

abbrev Kept : List ℕ → PumpEnd × List Frame → Type 0
Kept bytes o =
    (rest : List ℕ) × (bytes ≡ sent_bytes o.1 ++ rest) × ((o.0 ≡ send_failed) ⊎ (rest ≡ []))

after_frame-Kept :
    (f : Frame) (room : ℕ) (bytes : List ℕ) (o : PumpEnd × List Frame)
    → Kept bytes o
    → Kept (if f.close then [] else bytes) (after_frame f room o)
after_frame-Kept f room bytes o k = elim (Bool-cases f.close) [
  | inl closes ↦ rw closes ([], rw (send_close-bytes room) refl, inr refl)
  | inr open_still ↦ rw open_still k
]

first_sent-Kept :
    (f : Frame) (bytes : List ℕ) (o : PumpEnd × List Frame)
    → Kept bytes o
    → Kept (f.bytes ++ bytes) (first_sent f o)
first_sent-Kept f bytes (e, fs) (rest, same, end) =
    (rest, ap (λ xs. f.bytes ++ xs) same ∙ sym (append_assoc f.bytes (sent_bytes fs) rest), end)

pump_frame-Kept :
    (f : Frame) (room : ℕ) (bytes : List ℕ) (rest : ℕ → PumpEnd × List Frame)
    → ((room : ℕ) → Kept bytes (rest room))
    → Kept (f.bytes ++ (if f.close then [] else bytes)) (pump_frame f room rest)
pump_frame-Kept f zero bytes rest k = elim (Bool-cases (length f.bytes == 0)) [
  | inl empty ↦
      rw (empty, no_bytes f.bytes empty) (after_frame-Kept f zero bytes (rest zero) (k zero))
  | inr full ↦ rw full (f.bytes ++ (if f.close then [] else bytes), refl, inl refl)
]
pump_frame-Kept f (suc less) bytes rest k = elim (Bool-cases (length f.bytes == 0)) [
  | inl empty ↦
      rw (empty, no_bytes f.bytes empty)
        (after_frame-Kept f (suc less) bytes (rest (suc less)) (k (suc less)))
  | inr full ↦ rw full (
      first_sent-Kept f _ (after_frame f less (rest less))
        (after_frame-Kept f less bytes (rest less) (k less)))
]

-- What one direction of a tunnel sends is what it received, to the last byte and in its order, when
-- no send has failed; with a send failing, it is a first part of it.
pub pump_keeps :
    (recvs : List Recv) (room : ℕ)
    → (rest : List ℕ) × (received recvs ≡ sent_bytes (pump recvs room).1 ++ rest)
      × (((pump recvs room).0 ≡ send_failed) ⊎ (rest ≡ []))
unfolding pump
pump_keeps [] room = ([], refl, inr refl)
pump_keeps (end_of_stream ∷ more) room = ([], rw (send_close-bytes room) refl, inr refl)
pump_keeps (recv_error ∷ more) room = ([], refl, inr refl)
pump_keeps (frame f ∷ more) room =
    pump_frame-Kept f room (received more) (pump more) (pump_keeps more)
