-- ===== src/Prelude/Results.antt =====
-- A Go call that returns a value and an error.
use mathlib.Core.Path.{◌≡◌, refl}
use mathlib.Core.Logic.{◌⊎◌, inl, inr}
use mathlib.Core.Bool.{Bool, true, false}
use native.Mathlib.Omega.{arith}
use mathlib.Core.Option.{Option, none, some}

pub data Result {ℓ κ} (Failure : Type ℓ) (Value : Type κ) : Type (ℓ ⊔ κ) where
  err : Failure → Result Failure Value
  ok : Value → Result Failure Value

module _ {ℓ κ} {F : Type ℓ} {V : Type κ} where
  abbrev pub is_ok : Result F V → Bool
  is_ok (err why) = false
  is_ok (ok v) = true

  abbrev pub or_fail : Option V → F → Result F V
  or_fail (some v) why = ok v
  or_fail none why = err why

  -- `if err != nil { return other }`
  abbrev pub map_err {μ} : {G : Type μ} → Result F V → (F → G) → Result G V
  map_err (err why) g = err (g why)
  map_err (ok v) g = ok v

-- `if bad { return err }`
abbrev pub fail_if {ℓ} : {F : Type ℓ} → Bool → F → Result F (Unit {0})
fail_if false why = ok tt
fail_if true why = err why

infixl 5 ◌>>=◌ ◌>>◌
abbrev pub ◌>>=◌ {ℓ κ μ} :
    {F : Type ℓ} {V : Type κ} {W : Type μ} → Result F V → (V → Result F W) → Result F W
err why >>= next = err why
ok v >>= next = next v

abbrev pub ◌>>◌ {ℓ μ} : {F : Type ℓ} {W : Type μ} → Result F (Unit {0}) → Result F W → Result F W
first >> second = first >>= λ _. second

pub >>=-eq-ok {ℓ κ μ} :
    {F : Type ℓ} {V : Type κ} {W : Type μ} (m : Result F V) (next : V → Result F W) {w : W}
    → (m >>= next) ≡ ok w
    → (v : V) × (m ≡ ok v) × (next v ≡ ok w)
>>=-eq-ok (err why) next h = cc
>>=-eq-ok (ok v) next h = (v, refl, h)

pub map_err-eq-ok {ℓ κ μ} :
    {F : Type ℓ} {V : Type κ} {G : Type μ} (m : Result F V) (g : F → G) {v : V}
    → map_err m g ≡ ok v
    → m ≡ ok v
map_err-eq-ok (err why) g h = cc
map_err-eq-ok (ok v) g h = ground arith

pub Result-cases {ℓ κ} :
    {F : Type ℓ} {V : Type κ} (m : Result F V)
    → ((why : F) × (m ≡ err why)) ⊎ ((v : V) × (m ≡ ok v))
Result-cases (err why) = inl (why, refl)
Result-cases (ok v) = inr (v, refl)

pub or_fail-eq-ok {ℓ κ} :
    {F : Type ℓ} {V : Type κ} (o : Option V) (why : F) {v : V} → or_fail o why ≡ ok v → o ≡ some v
or_fail-eq-ok none why h = absurd cc
or_fail-eq-ok (some v) why h = cc

pub ok-injective {ℓ κ} :
    {F : Type ℓ} {V : Type κ} {v w : V} → ◌≡◌ {A = Result F V} (ok v) (ok w) → v ≡ w
ok-injective h = cc
