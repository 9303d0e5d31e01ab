-- ===== src/Prelude/Tables.antt =====
-- Tables with unique keys: an UPDATE of the rows that a key selects, with the count of its rows, does
-- what a search for the one row of that key does.
use mathlib.Core.Path.{◌≡◌, refl}
use mathlib.Core.Logic.{inl, inr}
use mathlib.Core.Bool.{Bool, true, false, not, ◌&&◌}
use mathlib.Core.List.{List, [], ◌∷◌}
use native.Mathlib.Omega.{arith}
use silent_devops.Prelude.Tests.{◌==◌, if◌then◌else◌, Bool-cases}
use silent_devops.Prelude.Lists.{affected, update, exists, exists-update, exists-same}

module _ {ℓ} {A : Type ℓ} where
  -- No two rows clash.
  abbrev pub pairwise : (A → A → Bool) → List A → Bool
  pairwise clash [] = true
  pairwise clash (x ∷ xs) = not (exists (clash x) xs) && pairwise clash xs

  pub pairwise-update :
      (clash : A → A → Bool) (p : A → Bool) (f : A → A) (xs : List A)
      → ((new x : A) → clash new (f x) ≡ clash new x)
      → ((x old : A) → clash (f x) old ≡ clash x old)
      → pairwise clash (update p f xs) ≡ pairwise clash xs
  pairwise-update clash p f [] old new = refl
  pairwise-update clash p f (x ∷ xs) old new =
      let same = pairwise-update clash p f xs old new in
      let others = λ (y : A). exists-update (clash y) p f xs (old y) in
      elim (Bool-cases (p x)) [
        | inl hit ↦
            rw (hit, same, others (f x)) (rw (exists-same (clash (f x)) (clash x) xs (new x)) refl)
        | inr miss ↦ rw (miss, same, others x) refl
      ]

  -- The search for the row of a key: it is changed if it is ready.
  abbrev pub change_first : (A → Bool) → (A → Bool) → (A → A) → List A → Bool × List A
  change_first key ready f [] = (false, [])
  change_first key ready f (x ∷ xs) =
      let rest = change_first key ready f xs in
      if key x
      then (if ready x then (true, f x ∷ xs) else (false, x ∷ xs))
      else (rest.0, x ∷ rest.1)

  module _ (clash : A → A → Bool) (key ready : A → Bool) (f : A → A)
      (unique : (x y : A) → key x ≡ true → key y ≡ true → clash x y ≡ true) where
    no_key :
        (x : A) (xs : List A)
        → key x ≡ true
        → exists (clash x) xs ≡ false
        → (affected (λ y. key y && ready y) xs ≡ 0) × (update (λ y. key y && ready y) f xs ≡ xs)
    no_key x [] own alone = (refl, refl)
    no_key x (y ∷ ys) own alone =
        let (none_hit, same) = no_key x ys own (ground arith) in
        let other : key y ≡ false = ground (arith, unique x y own) in
        (rw (other, none_hit) refl, rw (other, same) refl)

    pub update-change_first :
        (xs : List A)
        → pairwise clash xs ≡ true
        → (affected (λ y. key y && ready y) xs == 1, update (λ y. key y && ready y) f xs)
          ≡ change_first key ready f xs
    update-change_first [] d = refl
    update-change_first (x ∷ xs) d = elim (Bool-cases (key x)) [
      | inl own ↦
          let (none_hit, same) = no_key x xs own (ground arith) in
          elim (Bool-cases (ready x)) [
            | inl good ↦ rw (own, good, none_hit, same) refl
            | inr bad ↦ rw (own, bad, none_hit, same) refl
          ]
      | inr other ↦ let rest = update-change_first xs (ground arith) in rw (other, ← rest) refl
    ]

module _ {ℓ κ} {A : Type ℓ} {B : Type κ} where
  abbrev pub map_rows : (A → B) → List A → List B
  map_rows g [] = []
  map_rows g (x ∷ xs) = g x ∷ map_rows g xs

  pub exists-map_rows :
      (g : A → B) (p : A → Bool) (q : B → Bool) (xs : List A)
      → ((x : A) → q (g x) ≡ p x)
      → exists q (map_rows g xs) ≡ exists p xs
  exists-map_rows g p q [] same = refl
  exists-map_rows g p q (x ∷ xs) same = rw (same x, exists-map_rows g p q xs same) refl

  -- The search commutes with a view of the rows that keeps the key and the readiness.
  pub change_first-map_rows :
      (g : A → B) (key ready : A → Bool) (f : A → A) (key' ready' : B → Bool) (f' : B → B)
      (xs : List A)
      → ((x : A) → key' (g x) ≡ key x)
      → ((x : A) → ready' (g x) ≡ ready x)
      → ((x : A) → ready x ≡ true → f' (g x) ≡ g (f x))
      → ((change_first key ready f xs).0, map_rows g (change_first key ready f xs).1)
        ≡ change_first key' ready' f' (map_rows g xs)
  change_first-map_rows g key ready f key' ready' f' [] k r c = refl
  change_first-map_rows g key ready f key' ready' f' (x ∷ xs) k r c = elim (Bool-cases (key x)) [
    | inl own ↦ elim (Bool-cases (ready x)) [
      | inl good ↦ rw (own, good, k x, own, r x, good, c x good) refl
      | inr bad ↦ rw (own, bad, k x, own, r x, bad) refl
    ]
    | inr other ↦
        let rest = change_first-map_rows g key ready f key' ready' f' xs k r c in
        rw (other, k x, other, ← rest) refl
  ]
