-- ===== src/Registry/Backoff.antt =====
-- `Backoff` of registry.go: the window of the random delay before a reconnection. Delays are
-- nanoseconds in an int64, so that the doubling wraps; `draw` stands for `rand.Int63n`, which returns
-- a number below its argument.
use silent_devops.Prelude.{
  ℕ, ◌+◌, ◌*◌, ◌^◌, ◌≤◌, ◌<◌, ◌≡◌, refl, Option, none, some, arith, ltb, ◌==◌, if◌then◌else◌,
}

pub record Backoff : Type 0 where
  pub min : ℕ
  pub max : ℕ
  pub current : ℕ

-- 2^63, and the doubling of a delay that is not negative: past 2^63 - 1 the product is negative.
abbrev pub i64_half : ℕ
i64_half = 2 ^ 63

-- Twice the limit. `none` is a negative number; what becomes of the window then is not modelled.
double : ℕ → Option ℕ
double limit = if ltb (limit * 2) i64_half then some (limit * 2) else none

-- The limit of the next draw.
next_limit : Backoff → Option ℕ
unfolding double
next_limit b = if b.current == 0 then some b.min else elim (double b.current) [
  | none ↦ none
  | some limit ↦ some (if ltb b.max limit then b.max else limit)
]

-- `Next`: the delay, and the state. A limit of zero draws nothing.
pub next : (ℕ → ℕ) → Backoff → Option (ℕ × Backoff)
unfolding next_limit
next draw b = elim (next_limit b) [
  | none ↦ none
  | some limit ↦ some ((if limit == 0 then 0 else draw (limit + 1)), record b { current = limit })
]

pub reset : Backoff → Backoff
reset b = record b { current = 0 }

abbrev pub Draws : (ℕ → ℕ) → Type 0
Draws draw = (n : ℕ) → 0 < n → draw n < n

-- The window as arithmetic has it: `min` first, then doubled up to `max`.
abbrev pub window : Backoff → ℕ
window b =
    if b.current == 0 then b.min else if ltb b.max (b.current * 2) then b.max else b.current * 2

next-window :
    (draw : ℕ → ℕ) (b : Backoff)
    → b.current * 2 < i64_half
    → next draw b
      ≡ some ((if window b == 0 then 0 else draw (window b + 1)), record b { current = window b })
unfolding next
next-window draw b small = ground arith

delay-le : (draw : ℕ → ℕ) (w : ℕ) → Draws draw → (if w == 0 then 0 else draw (w + 1)) ≤ w
delay-le draw w draws = ground (arith, draws (w + 1) (omega arith))

-- For bounds with `min ≤ max < 2^62`, a window that is at most `max`, and a draw below its argument:
-- the delay is at most the new window; the window is `min` after a reset, and else twice the old one
-- or `max`, whichever is less; it stays at most `max`.
pub next_bounds :
    (draw : ℕ → ℕ) (b : Backoff)
    → Draws draw
    → b.min ≤ b.max
    → b.max * 2 < i64_half
    → b.current ≤ b.max
    → (delay : ℕ) × (b' : Backoff) × (next draw b ≡ some (delay, b'))
      × (delay ≤ b'.current)
      × (b'.current ≤ b.max)
      × (b'.current ≡ window b)
unfolding next
next_bounds draw b draws lo hi within = (
  (if window b == 0 then 0 else draw (window b + 1)),
  record b { current = window b },
  next-window draw b (omega arith),
  delay-le draw (window b) draws,
  ground arith,
  refl,
)
