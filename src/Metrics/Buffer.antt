-- ===== src/Metrics/Buffer.antt =====
-- `Buffer` of internal/metrics/collector.go and `Bound` of store.go.
use silent_devops.Prelude.{
  ℕ, zero, suc, ◌-◌, ◌≤◌, String, ◌≡◌, refl, sym, ap, ◌∙◌, inl, inr, true, false, List, [], ◌∷◌,
  ◌++◌, arith, ltb, ◌==◌, if◌then◌else◌, Bool-cases, length, take, drop, append_assoc, append_none,
  length-append,
}

pub record Buffer {ℓ} (A : Type ℓ) : Type ℓ where
  pub most : ℕ
  pub items : List A

-- A metric; its labels are in the order in which the map is ranged over.
pub record Metric {ℓ} (V : Type ℓ) : Type ℓ where
  pub name : String
  pub value : V
  pub labels : List (String × String)

-- The loop of `Bound`, with what is left of both limits.
unfoldable pub bound {ℓ} : {V : Type ℓ} → ℕ → ℕ → List (Metric V) → List (Metric V)
bound metrics labels [] = []
bound zero labels (m ∷ more) = []
bound (suc metrics) labels (m ∷ more) =
    record m { labels = take labels m.labels } ∷ bound metrics labels more

module _ {ℓ} {A : Type ℓ} where
  -- `NewBuffer`
  abbrev pub new_buffer : ℕ → Buffer A
  new_buffer most = record { most = if ltb most 1 then 1 else most; items = [] }

  -- `Push`
  unfoldable pub push : Buffer A → A → Buffer A
  push b value =
      if length b.items == b.most
      then record b { items = drop 1 b.items ++ value ∷ [] }
      else record b { items = b.items ++ value ∷ [] }

  -- `Drain`
  unfoldable pub drain : Buffer A → List A × Buffer A
  drain b = (b.items, record b { items = [] })

  unfoldable pub push_all : Buffer A → List A → Buffer A
  push_all b [] = b
  push_all b (value ∷ values) = push_all (push b value) values

  drop-all_but : (n : ℕ) (xs : List A) → n ≡ 0 → drop n xs ≡ xs
  drop-all_but n xs h = ap (λ k. drop k xs) h

  push-room :
      (most : ℕ) (items : List A) (v : A)
      → (length items == most) ≡ false
      → push (record { most = most; items = items }) v
        ≡ record { most = most; items = items ++ v ∷ [] }
  unfolding push
  push-room most items v room = rw room refl

  push-full :
      (most : ℕ) (items : List A) (v : A)
      → (length items == most) ≡ true
      → push (record { most = most; items = items }) v
        ≡ record { most = most; items = drop 1 items ++ v ∷ [] }
  unfolding push
  push-full most items v full = rw full refl

  push_all-items :
      (most : ℕ) (items values : List A)
      → 1 ≤ most
      → length items ≤ most
      → (push_all (record { most = most; items = items }) values).items
        ≡ drop (length (items ++ values) - most) (items ++ values)
  unfolding push_all
  push_all-items most items [] one fits = sym (
      drop-all_but _ (items ++ []) (omega (arith, length-append items [], fits))
      ∙ append_none items)
  push_all-items most [] (v ∷ values) one fits =
      ap (λ b. (push_all b values).items) (push-room most [] v (ground (arith, one)))
      ∙ push_all-items most (v ∷ []) values one one
  push_all-items most (y ∷ ys) (v ∷ values) one fits =
      let size = length-append ys (v ∷ []) in
      elim (Bool-cases (length (y ∷ ys) == most)) [
        | inl full ↦
            let whole = length-append ys (v ∷ values) in
            let more : length (y ∷ ys ++ v ∷ values) - most
                ≡ suc (length (ys ++ v ∷ values) - most) =
              ground (arith, whole, full) in
            ap (λ b. (push_all b values).items) (push-full most (y ∷ ys) v full)
            ∙ push_all-items most (ys ++ v ∷ []) values one (ground (arith, size, full))
            ∙ ap (λ xs. drop (length xs - most) xs) (append_assoc ys (v ∷ []) values)
            ∙ sym (ap (λ n. drop n (y ∷ ys ++ v ∷ values)) more)
        | inr room ↦
            ap (λ b. (push_all b values).items) (push-room most (y ∷ ys) v room)
            ∙ push_all-items most (y ∷ ys ++ v ∷ []) values one (ground (arith, size, room, fits))
            ∙ ap (λ xs. drop (length xs - most) xs) (append_assoc (y ∷ ys) (v ∷ []) values)
      ]

  -- However many samples are pushed, the buffer gives back the last ones in their order, as many as its
  -- size (at least one), and is empty after that.
  pub drain-push_all :
      (size : ℕ) (values : List A)
      → let b = new_buffer size in
        ((drain (push_all b values)).0 ≡ drop (length values - b.most) values)
        × ((drain (push_all b values)).1.items ≡ [])
  unfolding drain
  drain-push_all size values = elim (Bool-cases (ltb size 1)) [
    | inl small ↦ (rw small (push_all-items 1 [] values (omega arith) (omega arith)), refl)
    | inr large ↦ (rw large (push_all-items size [] values (ground arith) (omega arith)), refl)
  ]
