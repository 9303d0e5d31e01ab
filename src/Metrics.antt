-- ===== src/Metrics.antt =====
-- Metrics: the arithmetic of internal/metrics on unsigned 64-bit numbers: `ParseCPU` of metrics.go, on
-- the fields of its line. The parser strconv.ParseUint is an argument.
pub mod Parse
pub mod Buffer
mod Tests
use silent_devops.Prelude.{
  ℕ, ◌+◌, ◌-◌, ◌%◌, ◌^◌, ◌<◌, String, ◌≡◌, refl, ap, ◌∙◌, inl, inr, not, ◌||◌, Option, none, some,
  List, [], ◌∷◌, arith, str_eq, ltb, if◌then◌else◌, Bool-cases, length,
}

abbrev pub uint64 : ℕ
uint64 = 2 ^ 64

-- What `ParseCPU` comes to; an index out of range panics.
pub data CpuResult : Type 0 where
  invalid_stat bad_number counter_overflow index_panic : CpuResult
  cpu : ℕ → ℕ → CpuResult

-- `for _, v := range f[1:]`
abbrev pub put_in_front : Option ℕ → Option (List ℕ) → Option (List ℕ)
put_in_front (some n) (some ns) = some (n ∷ ns)
put_in_front _ _ = none

unfoldable pub parse_values : (String → Option ℕ) → List String → Option (List ℕ)
parse_values parse [] = some []
parse_values parse (f ∷ fs) = put_in_front (parse f) (parse_values parse fs)

-- The total, or none where it would overflow.
unfoldable pub add_all : ℕ → List ℕ → Option ℕ
add_all total [] = some total
add_all total (v ∷ vs) =
    let rest = add_all ((total + v) % uint64) vs in
    if ltb (uint64 - 1 - total) v then none else rest

-- `values[3] + values[4]`
abbrev pub idle_of : ℕ → List ℕ → CpuResult
idle_of total (a ∷ b ∷ c ∷ d ∷ e ∷ more) = cpu total ((d + e) % uint64)
idle_of total _ = index_panic

unfoldable pub cpu_values : List ℕ → CpuResult
cpu_values values = elim (add_all 0 values) [
  | none ↦ counter_overflow
  | some total ↦ idle_of total values
]

unfoldable pub cpu_fields : (String → Option ℕ) → List String → CpuResult
cpu_fields parse [] = invalid_stat
cpu_fields parse (name ∷ fs) =
    if ltb (length (name ∷ fs)) 5 || not (str_eq name "cpu")
    then invalid_stat
    else elim (parse_values parse fs) [ none ↦ bad_number | some values ↦ cpu_values values ]

abbrev pub sum : List ℕ → ℕ
sum [] = 0
sum (v ∷ vs) = v + sum vs

add_all-exact :
    (total : ℕ) (values : List ℕ)
    → total < uint64
    → add_all total values
      ≡ (if ltb (total + sum values) uint64 then some (total + sum values) else none)
unfolding add_all
add_all-exact total [] fits = ground arith
add_all-exact total (v ∷ vs) fits = elim (Bool-cases (ltb (uint64 - 1 - total) v)) [
  | inl over ↦ ground arith
  | inr within ↦
      let small : (total + v) % uint64 ≡ total + v = ground arith in
      let rest = add_all-exact (total + v) vs (ground arith) in
      let same : total + (v + sum vs) ≡ (total + v) + sum vs = omega arith in
      rw (within, small, same) rest
]

add_all_zero :
    (values : List ℕ)
    → add_all 0 values ≡ (if ltb (sum values) uint64 then some (sum values) else none)
add_all_zero values =
    let same : 0 + sum values ≡ sum values = omega arith in
    add_all-exact 0 values (omega arith)
    ∙ ap (λ (n : ℕ). if ltb n uint64 then some n else none) same

-- The last step of the parser, with the sum that the loop has.
cpu_values_lem :
    (values : List ℕ)
    → cpu_values values
      ≡ (if ltb (sum values) uint64 then idle_of (sum values) values else counter_overflow)
unfolding cpu_values
cpu_values_lem values = elim (Bool-cases (ltb (sum values) uint64)) [
  | inl fits ↦ rw (add_all_zero values, fits, cpu_values) refl
  | inr over ↦ rw (add_all_zero values, over, cpu_values) refl
]

-- On a line of five values or more, the total is the sum of the values and the idle time the fourth
-- and fifth together, with no wrap, or the overflow of the sum is reported. On a line of exactly four,
-- which the test of the fields lets pass, the code panics, unless the sum overflows.
pub cpu_values_exact :
    (a b c d e : ℕ) (more : List ℕ)
    → (cpu_values (a ∷ b ∷ c ∷ d ∷ e ∷ more) ≡ (
        if ltb (sum (a ∷ b ∷ c ∷ d ∷ e ∷ more)) uint64
        then cpu (sum (a ∷ b ∷ c ∷ d ∷ e ∷ more)) (d + e)
        else counter_overflow))
      × (cpu_values (a ∷ b ∷ c ∷ d ∷ [])
          ≡ (if ltb (sum (a ∷ b ∷ c ∷ d ∷ [])) uint64 then index_panic else counter_overflow))
cpu_values_exact a b c d e more = (
  cpu_values_lem (a ∷ b ∷ c ∷ d ∷ e ∷ more)
      ∙ elim (Bool-cases (ltb (sum (a ∷ b ∷ c ∷ d ∷ e ∷ more)) uint64)) [
        | inl fits ↦ let small : (d + e) % uint64 ≡ d + e = ground arith in rw (fits, small) refl
        | inr over ↦ rw over refl
      ],
  cpu_values_lem (a ∷ b ∷ c ∷ d ∷ []),
)
