-- ===== src/Easypanel/Settles.antt =====
-- The method of the queries settles.
use silent_devops.Prelude.{
  String, ◌≡◌, refl, sym, ap, ◌∙◌, ◌⊎◌, inl, inr, true, false, Option, some, ◌∷◌, arith, Bool-cases,
  Result, ok, err, is_ok,
}
use silent_devops.Easypanel.{
  Method, get_method, post_method, trpc, Log, Client, CallError, url_required, is_empty,
  method_not_allowed, other_method, first_method, Remote, request, query_via, learn, trpc_query,
}

methods : (m bad : Method) → (m ≡ bad) ⊎ (m ≡ other_method bad)
methods get_method get_method = inl refl
methods get_method post_method = inr refl
methods post_method get_method = inr refl
methods post_method post_method = inl refl

other-other : (m : Method) → other_method (other_method m) ≡ m
other-other get_method = refl
other-other post_method = refl

refused-not_ok {ℓ} :
    {A : Type ℓ} (o : Result CallError A) → method_not_allowed o ≡ true → is_ok o ≡ false
refused-not_ok (err why) h = refl
refused-not_ok (ok a) h = absurd (ground arith)

learn-method {ℓ} :
    {A : Type ℓ} (c : Client) (m : Method) (o : Result CallError A)
    → is_ok o ≡ true
    → learn c m o ≡ record c { query_method = some m }
learn-method c m (err why) h = absurd (ground arith)
learn-method c m (ok a) h = refl

module _ {ℓ} {A : Type ℓ} (r : Remote) (c : Client) (proc input : String)
    (decode : String → Option A) (log : Log) where
  first_try : Result CallError A × Log
  first_try = query_via r c (first_method c.query_method) proc input decode log

  second_try : Result CallError A × Log
  second_try =
      query_via r c (other_method (first_method c.query_method)) proc input decode first_try.1

  without_url :
      is_empty c.base_url ≡ true
      → trpc_query r c proc input decode log ≡ (err url_required, (c, log))
  unfolding trpc_query
  without_url unset = rw unset refl

  first_answers :
      is_empty c.base_url ≡ false
      → method_not_allowed first_try.0 ≡ false
      → trpc_query r c proc input decode log
        ≡ (first_try.0, (learn c (first_method c.query_method) first_try.0, first_try.1))
  unfolding trpc_query first_try
  first_answers set fine = rw (set, fine) refl

  second_answers :
      is_empty c.base_url ≡ false
      → method_not_allowed first_try.0 ≡ true
      → trpc_query r c proc input decode log ≡ (
        second_try.0,
        (learn c (other_method (first_method c.query_method)) second_try.0, second_try.1),
      )
  unfolding trpc_query first_try second_try
  second_answers set refused = rw (set, refused) refl

  url_given : is_ok (trpc_query r c proc input decode log).0 ≡ true → is_empty c.base_url ≡ false
  url_given good = elim (Bool-cases (is_empty c.base_url)) [
    | inr set ↦ set
    | inl unset ↦ absurd (ground (arith, sym (ap (λ o. is_ok o.0) (without_url unset)) ∙ good))
  ]

  -- A query that succeeds on a panel that refuses one method leaves the client with the other one.
  query-learns :
      (bad : Method)
      → ((before : Log) → method_not_allowed (query_via r c bad proc input decode before).0 ≡ true)
      → is_ok (trpc_query r c proc input decode log).0 ≡ true
      → (trpc_query r c proc input decode log).1.0
        ≡ record c { query_method = some (other_method bad) }
  unfolding first_try second_try
  query-learns bad refuses good =
      let first = first_method c.query_method in
      let answer = λ (o : Result CallError A × (Client × Log)). is_ok o.0 in
      let client = λ (o : Result CallError A × (Client × Log)). o.1.0 in
      let known : Method → Client = λ m. record c { query_method = some m } in
      elim (Bool-cases (is_empty c.base_url)) [
        | inl unset ↦ absurd (ground (arith, sym (ap answer (without_url unset)) ∙ good))
        | inr set ↦ elim (Bool-cases (method_not_allowed first_try.0)) [
          | inr fine ↦
              let eq = first_answers set fine in
              elim (methods first bad) [
                | inl same ↦
                    let refused =
                      ap (λ m. method_not_allowed (query_via r c m proc input decode log).0) same
                      ∙ refuses log in
                    absurd (ground (arith, refused, fine))
                | inr other ↦
                    ap client eq
                    ∙ learn-method c first first_try.0 (sym (ap answer eq) ∙ good)
                    ∙ ap known other
              ]
          | inl refused ↦
              let eq = second_answers set refused in
              let taken = sym (ap answer eq) ∙ good in
              elim (methods first bad) [
                | inl same ↦
                    ap client eq
                    ∙ learn-method c (other_method first) second_try.0 taken
                    ∙ ap (λ m. known (other_method m)) same
                | inr other ↦
                    let same = ap other_method other ∙ other-other bad in
                    let again =
                      ap (λ m. method_not_allowed (query_via r c m proc input decode first_try.1).0)
                        same
                      ∙ refuses first_try.1 in
                    absurd (ground (arith, refused-not_ok second_try.0 again, taken))
              ]
        ]
      ]

-- Once a query has succeeded on a panel that refuses one of the two methods with 405, every later query
-- is tried with the other method first: unless that one is refused too, it is the only request.
pub query_settles {ℓ κ} :
    {A : Type ℓ} {B : Type κ} (r : Remote) (c : Client) (proc input : String)
    (decode : String → Option A) (log : Log) (bad : Method)
    → ((before : Log) → method_not_allowed (query_via r c bad proc input decode before).0 ≡ true)
    → is_ok (trpc_query r c proc input decode log).0 ≡ true
    → (next body : String) (read : String → Option B) (later : Log)
    → method_not_allowed (query_via r c (other_method bad) next body read later).0 ≡ false
    → let o = trpc_query r (trpc_query r c proc input decode log).1.0 next body read later in
      (o.0 ≡ (query_via r c (other_method bad) next body read later).0)
      × (o.1.1 ≡ request c (other_method bad) (trpc next) body ∷ later)
unfolding first_try query_via
query_settles r c proc input decode log bad refuses good next body read later fine =
    let settled : Client = record c { query_method = some (other_method bad) } in
    let same = query-learns r c proc input decode log bad refuses good in
    let eq =
      first_answers r settled next body read later (url_given r c proc input decode log good)
        fine in
    (
      ap (λ k. (trpc_query r k next body read later).0) same ∙ ap (λ o. o.0) eq,
      ap (λ k. (trpc_query r k next body read later).1.1) same ∙ ap (λ o. o.1.1) eq,
    )
