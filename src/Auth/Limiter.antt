-- ===== src/Auth/Limiter.antt =====
-- `RateLimiter` of internal/auth/auth.go. Instants are nanoseconds; a bucket with no start is Go's zero
-- bucket, whose start is the zero time.
use silent_devops.Prelude.{
  ℕ, ◌+◌, ◌-◌, ◌*◌, ◌≤◌, ◌<◌, String, ◌≡◌, refl, ap, ◌∙◌, ◌≢◌, inl, inr, Bool, true, false, not,
  ◌&&◌, Option, none, some, List, [], ◌∷◌, arith, str_eq, str_eq_iff, ltb, leb, if◌then◌else◌,
  Bool-cases, Option-cases, All,
}
use silent_devops.Prelude.Dict.{Dict, lookup, insert, lookup-insert}

pub record Bucket : Type 0 where
  pub start : Option ℕ
  pub count : ℕ

pub record Limiter : Type 0 where
  pub limit : ℕ
  pub window : ℕ
  pub buckets : Dict Bucket

-- `NewRateLimiter`
unfoldable pub new_limiter : ℕ → ℕ → Limiter
new_limiter limit window = record { limit = limit; window = window; buckets = [] }

-- `l.buckets[key]`
bucket_of : Limiter → String → Bucket
bucket_of l key = elim (lookup l.buckets key) [
  | none ↦ record { start = none; count = 0 }
  | some b ↦ b
]

-- `b.start.IsZero() || now.Sub(b.start) >= l.window`
is_over : ℕ → Option ℕ → ℕ → Bool
is_over window none now = true
is_over window (some start) now = leb (start + window) now

-- The bucket that an attempt is counted in.
current : Limiter → String → ℕ → Bucket
unfolding bucket_of is_over
current l key now =
    if is_over l.window (bucket_of l key).start now
    then record { start = some now; count = 0 }
    else bucket_of l key

-- `Allow`
unfoldable pub allow : Limiter → String → ℕ → Bool × Limiter
unfolding current
allow l key now = if leb l.limit (current l key now).count then (false, l) else (
  true,
  record l {
    buckets =
        insert l.buckets key (record (current l key now) { count = (current l key now).count + 1 });
  },
)

-- How many attempts of one key a run of attempts lets through.
unfoldable pub granted : Limiter → String → List (String × ℕ) → ℕ
granted l key [] = 0
granted l key ((k, now) ∷ rest) =
    let (allowed, l') = allow l k now in
    (if str_eq k key && allowed then 1 else 0) + granted l' key rest

-- Every attempt falls into the window that begins at `from`.
abbrev pub Within : ℕ → ℕ → List (String × ℕ) → Type 0
Within from window = All (λ a. (from ≤ a.1) × (a.1 < from + window))

-- What a bucket can still let through before `from + window`.
budget : ℕ → ℕ → Bucket → ℕ
budget limit from b = elim b.start [
  | none ↦ limit - b.count + limit
  | some start ↦ if leb from start then limit - b.count else limit - b.count + limit
]

-- The bucket of a key after an attempt of a key.
bucket_of-allow :
    (l : Limiter) (k key : String) (now : ℕ)
    → bucket_of (allow l k now).1 key ≡ (
        if str_eq k key && (allow l k now).0
        then record (current l k now) { count = (current l k now).count + 1 }
        else bucket_of l key)
unfolding allow bucket_of
bucket_of-allow l k key now = ground (
  arith,
  lookup-insert l.buckets k key (record (current l k now) { count = (current l k now).count + 1 }),
)

-- What `Allow` answers.
allow_lem :
    (l : Limiter) (k : String) (now : ℕ)
    → (allow l k now).0 ≡ not (leb l.limit (current l k now).count)
unfolding allow
allow_lem l k now = ground arith

limit-allow :
    (l : Limiter) (k : String) (now : ℕ)
    → ((allow l k now).1.limit ≡ l.limit) × ((allow l k now).1.window ≡ l.window)
unfolding allow
limit-allow l k now = (ground arith, ground arith)

-- An attempt that is let through pays for itself out of the budget of its bucket.
budget-current :
    (l : Limiter) (key : String) (from now : ℕ)
    → from ≤ now
    → now < from + l.window
    → ltb (current l key now).count l.limit ≡ true
    → 1 + budget l.limit from (record (current l key now) { count = (current l key now).count + 1 })
      ≤ budget l.limit from (bucket_of l key)
unfolding current is_over budget
budget-current l key from now lo hi h = elim (Option-cases (bucket_of l key).start) [
  | inl e ↦ ground arith
  | inr (start, e) ↦ ground arith
]

budget-allow :
    (l : Limiter) (k key : String) (from now : ℕ)
    → from ≤ now
    → now < from + l.window
    → (if str_eq k key && (allow l k now).0 then 1 else 0)
        + budget l.limit from (bucket_of (allow l k now).1 key)
      ≤ budget l.limit from (bucket_of l key)
budget-allow l k key from now lo hi = elim (Bool-cases (str_eq k key && (allow l k now).0)) [
  | inr other ↦ rw (bucket_of-allow l k key now, other) (omega arith)
  | inl hit ↦
      let same : k ≡ key = ground (arith, str_eq_iff k key) in
      let room : ltb (current l key now).count l.limit ≡ true =
        rw (← same) (ground (arith, allow_lem l k now)) in
      rw (bucket_of-allow l k key now, hit, same) (budget-current l key from now lo hi room)
]

granted-le-budget :
    (l : Limiter) (key : String) (from window : ℕ) (attempts : List (String × ℕ))
    → l.window ≡ window
    → Within from window attempts
    → granted l key attempts ≤ budget l.limit from (bucket_of l key)
unfolding granted
granted-le-budget l key from window [] e h = omega arith
granted-le-budget l key from window ((k, now) ∷ rest) e h =
    let l' : Limiter = (allow l k now).1 in
    let later : granted l' key rest ≤ budget l'.limit from (bucket_of l' key) =
      granted-le-budget l' key from window rest ((limit-allow l k now).1 ∙ e) h.1 in
    let same : l'.limit ≡ l.limit = (limit-allow l k now).0 in
    let step : (if str_eq k key && (allow l k now).0 then 1 else 0)
          + budget l.limit from (bucket_of l' key)
        ≤ budget l.limit from (bucket_of l key) =
      budget-allow l k key from now h.0.0 (omega arith) in
    omega (arith, ap (λ n. budget n from (bucket_of l' key)) same)

budget-le : (limit from : ℕ) (b : Bucket) → budget limit from b ≤ limit + limit
unfolding budget
budget-le limit from b = ground arith

-- Whatever state a limiter is in, and in whatever order and mix of keys the attempts come: of the
-- attempts of one key that fall into a stretch of time as long as the window, at most twice the limit
-- are let through.
pub granted_bound :
    (l : Limiter) (key : String) (from : ℕ) (attempts : List (String × ℕ))
    → Within from l.window attempts
    → granted l key attempts ≤ 2 * l.limit
granted_bound l key from attempts h = omega (
  arith,
  granted-le-budget l key from l.window attempts refl h,
  budget-le l.limit from (bucket_of l key),
)

-- An attempt of one key does not change the answer that another key gets, then or later.
pub allow_others :
    (l : Limiter) (k key : String) (earlier now : ℕ)
    → k ≢ key
    → (allow (allow l k earlier).1 key now).0 ≡ (allow l key now).0
unfolding current
allow_others l k key earlier now ne =
    rw (allow_lem l key now, allow_lem (allow l k earlier).1 key now)
      (ground (arith, bucket_of-allow l k key earlier, limit-allow l k earlier, str_eq_iff k key))
