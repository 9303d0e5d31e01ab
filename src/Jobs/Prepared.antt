-- ===== src/Jobs/Prepared.antt =====
-- Which submissions are prepared, and what their job carries: `prepare_safe` and `prepare_unsafe`.
use silent_devops.Prelude.{
  ℕ, ◌+◌, ◌*◌, ◌/◌, ◌≤◌, ◌<◌, String, ◌≡◌, refl, sym, ap, ◌≢◌, ◌⊎◌, inl, inr, Bool, true, false,
  not, ◌&&◌, Option, none, some, arith, str_eq_iff, ◌==◌, ==_iff, Bool-cases, Result-cases,
  ok-injective, ok, err, fail_if, >>=-eq-ok,
}
use silent_devops.Protocol.{
  role_admin, Code, dispatched, TypedOperation, UnsafeOperation, Operation, Job, JobContext,
}
use silent_devops.Auth.Token.{Claims}
use silent_devops.Jobs.{Entropy, context_fits, new_job}
use silent_devops.Jobs.Submit.{draw, prepare_safe, confirmed_context, prepare_unsafe}

-- The bounds on the context of a job.
pub record Bounded (c : JobContext) : Type 0 where
  pub named : c.agent_id ≢ ""
  pub reasoned : c.reason ≢ ""
  pub keyed : c.idempotency_key ≢ ""
  pub positive : 0 < c.timeout_seconds
  pub bounded : c.timeout_seconds ≤ 3600

-- The job that stands for a caller and a context: created now, in milliseconds, with its deadline as
-- many seconds after the second reading of the clock as the context says, and with the drawn
-- identifiers.
pub record Carries (who : Claims) (c : JobContext) (entropy : Entropy) (now later : ℕ) (j : Job)
    (audit : String) : Type 0 where
  pub actor : j.actor_id ≡ who.subject
  pub role : j.role ≡ who.role
  pub agent : j.agent_id ≡ c.agent_id
  pub reason : j.reason ≡ c.reason
  pub confirmed : j.confirmed ≡ c.confirmed
  pub key : j.idempotency_key ≡ c.idempotency_key
  pub created : j.created ≡ now / 1_000_000
  pub deadline : j.deadline ≡ later / 1_000_000 + c.timeout_seconds * 1000
  pub start : j.state ≡ dispatched
  pub attempt : j.attempt ≡ 1
  pub own_id : entropy.id ≡ some j.id
  pub dispatch_id : entropy.dispatch ≡ some j.dispatch_id
  pub audit_id : entropy.audit ≡ some audit

-- Why a submission is refused before the transaction.
pub data Unready (claims : Option Claims) (entropy : Entropy) (request : Option JobContext)
    (allowed : Claims → JobContext → Type 0) : Type 0 where
  unauthenticated : claims ≡ none → Unready claims entropy request allowed
  no_context : request ≡ none → Unready claims entropy request allowed
  not_allowed :
      (who : Claims) (c : JobContext)
      → claims ≡ some who
      → request ≡ some c
      → ¬ (allowed who c)
      → Unready claims entropy request allowed
  no_randomness :
      (entropy.id ≡ none) ⊎ (entropy.dispatch ≡ none) ⊎ (entropy.audit ≡ none)
      → Unready claims entropy request allowed

context_fits-eq-true : (c : JobContext) → context_fits (some c) ≡ true → Bounded c
unfolding context_fits
context_fits-eq-true c h = record {
  named = ground (arith, str_eq_iff c.agent_id "");
  reasoned = ground (arith, str_eq_iff c.reason "");
  keyed = ground (arith, str_eq_iff c.idempotency_key "");
  positive = ground arith;
  bounded = ground arith;
}

Bounded-fits : (c : JobContext) → Bounded c → context_fits (some c) ≡ true
unfolding context_fits
Bounded-fits c b =
    ground
      (arith, str_eq_iff c.agent_id "", str_eq_iff c.reason "", str_eq_iff c.idempotency_key "")

draw-eq-ok :
    (e : Entropy) (id sending audit : String)
    → draw e ≡ ok (id, sending, audit)
    → (e.id ≡ some id) × (e.dispatch ≡ some sending) × (e.audit ≡ some audit)
unfolding draw
draw-eq-ok e id sending audit h = (ground arith, ground arith, ground arith)

draw-eq-err :
    (e : Entropy) (code : Code)
    → draw e ≡ err code
    → (e.id ≡ none) ⊎ (e.dispatch ≡ none) ⊎ (e.audit ≡ none)
unfolding draw
draw-eq-err e code h = ground arith

-- What a new job carries; a job of a safe handler is as confirmed as its context.
new_job-Carries :
    (who : Claims) (c : JobContext) (asked : Operation) (entropy : Entropy)
    (id sending audit : String) (now later : ℕ)
    → entropy.id ≡ some id
    → entropy.dispatch ≡ some sending
    → entropy.audit ≡ some audit
    → Carries who c entropy now later (new_job who c asked c.confirmed id sending now later) audit
new_job-Carries who c asked entropy id sending audit now later own tagged noted = record {
  actor = refl;
  role = refl;
  agent = refl;
  reason = refl;
  confirmed = refl;
  key = refl;
  created = refl;
  deadline = omega arith;
  start = refl;
  attempt = refl;
  own_id = own;
  dispatch_id = tagged;
  audit_id = noted;
}

pub prepare_safe-eq-err :
    (claims : Option Claims) (entropy : Entropy) (request : Option JobContext)
    (operation : TypedOperation) (now later : ℕ) (code : Code)
    → prepare_safe claims true entropy request operation now later ≡ err code
    → Unready claims entropy request (λ who c. Bounded c)
unfolding prepare_safe
prepare_safe-eq-err none entropy request operation now later code h = unauthenticated refl
prepare_safe-eq-err (some who) entropy none operation now later code h = no_context refl
prepare_safe-eq-err (some who) entropy (some c) operation now later code h =
    elim (Bool-cases (context_fits (some c))) [
      | inr unfit ↦ not_allowed who c refl refl λ good. absurd (ground (arith, Bounded-fits c good))
      | inl fits ↦ elim (Result-cases (draw entropy)) [
        | inl (why, e) ↦ no_randomness (draw-eq-err entropy why e)
        | inr (drawn, e) ↦ absurd (ground arith)
      ]
    ]

pub prepare_safe-eq-ok :
    (claims : Option Claims) (ready : Bool) (entropy : Entropy) (request : Option JobContext)
    (operation : TypedOperation) (now later : ℕ) (j : Job) (audit : String)
    → prepare_safe claims ready entropy request operation now later ≡ ok (j, audit)
    → (who : Claims) × (c : JobContext) × (claims ≡ some who)
      × (request ≡ some c)
      × Bounded c
      × Carries who c entropy now later j audit
      × (j.operation ≡ Operation.safe operation)
unfolding prepare_safe context_fits
prepare_safe-eq-ok none ready entropy request operation now later j audit h = absurd (ground arith)
prepare_safe-eq-ok (some who) ready entropy none operation now later j audit h =
    absurd (ground arith)
prepare_safe-eq-ok (some who) ready entropy (some c) operation now later j audit h =
    let (u, fits, b) =
      >>=-eq-ok (fail_if (not (context_fits (some c))) Code.invalid_argument) _ h in
    let (u, up, e) = >>=-eq-ok (fail_if (not ready) Code.unavailable) _ b in
    let ((id, sending, drawn), draws, last) = >>=-eq-ok (draw entropy) _ e in
    let (own, tagged, noted) = draw-eq-ok entropy id sending drawn draws in
    let made = ok-injective last in
    let same = ap (λ o. o.0) made in
    let named : drawn ≡ audit = ap (λ o. o.1) made in
    (
      who,
      c,
      refl,
      refl,
      context_fits-eq-true c (ground arith),
      rw (sym same, sym named)
          (new_job-Carries who c (Operation.safe operation) entropy id sending drawn now later own
            tagged noted),
      rw (sym same) refl,
    )

-- What the handlers of unsafe jobs ask of a caller and a context.
pub record Consents (admin_only : Bool) (who : Claims) (c : JobContext) : Type 0 where
  pub consent : c.confirmed ≡ true
  pub admin : admin_only ≡ true → who.role ≡ role_admin
  pub within : Bounded c

Consents-allowed :
    (admin_only : Bool) (who : Claims) (c : JobContext)
    → Consents admin_only who c
    → ((admin_only && not (who.role == role_admin)) ≡ false) × (confirmed_context (some c) ≡ true)
unfolding confirmed_context
Consents-allowed true who c good =
    (ground (arith, good.admin refl), ground (arith, good.consent, Bounded-fits c good.within))
Consents-allowed false who c good = (refl, ground (arith, good.consent, Bounded-fits c good.within))

pub prepare_unsafe-eq-err :
    (claims : Option Claims) (entropy : Entropy) (request : Option JobContext)
    (operation : UnsafeOperation) (admin_only : Bool) (now : ℕ) (code : Code)
    → prepare_unsafe claims entropy request operation admin_only now ≡ err code
    → Unready claims entropy request (Consents admin_only)
unfolding prepare_unsafe
prepare_unsafe-eq-err none entropy request operation admin_only now code h = unauthenticated refl
prepare_unsafe-eq-err (some who) entropy none operation admin_only now code h = no_context refl
prepare_unsafe-eq-err (some who) entropy (some c) operation admin_only now code h =
    elim (Bool-cases (admin_only && not (who.role == role_admin))) [
      | inl barred ↦
          not_allowed who c refl refl
            λ good. absurd (ground (arith, Consents-allowed admin_only who c good))
      | inr may ↦ elim (Bool-cases (confirmed_context (some c))) [
        | inr unfit ↦
            not_allowed who c refl refl
              λ good. absurd (ground (arith, Consents-allowed admin_only who c good))
        | inl fits ↦ elim (Result-cases (draw entropy)) [
          | inl (why, e) ↦ no_randomness (draw-eq-err entropy why e)
          | inr (drawn, e) ↦ absurd (ground arith)
        ]
      ]
    ]

pub prepare_unsafe-eq-ok :
    (claims : Option Claims) (entropy : Entropy) (request : Option JobContext)
    (operation : UnsafeOperation) (admin_only : Bool) (now : ℕ) (j : Job) (audit : String)
    → prepare_unsafe claims entropy request operation admin_only now ≡ ok (j, audit)
    → (who : Claims) × (c : JobContext) × (claims ≡ some who)
      × (request ≡ some c)
      × Consents admin_only who c
      × Carries who c entropy now now j audit
      × (j.operation ≡ Operation.unsafe operation)
unfolding prepare_unsafe
prepare_unsafe-eq-ok none entropy request operation admin_only now j audit h = absurd (ground arith)
prepare_unsafe-eq-ok (some who) entropy none operation admin_only now j audit h =
    let (u, may, a) =
      >>=-eq-ok (fail_if (admin_only && not (who.role == role_admin)) Code.permission_denied) _ h in
    unfold confirmed_context in absurd (ground arith)
prepare_unsafe-eq-ok (some who) entropy (some c) operation admin_only now j audit h =
    let (u, may, a) =
      >>=-eq-ok (fail_if (admin_only && not (who.role == role_admin)) Code.permission_denied) _ h in
    let (u, fits, b) =
      >>=-eq-ok (fail_if (not (confirmed_context (some c))) Code.invalid_argument) _ a in
    let ((id, sending, drawn), draws, last) = >>=-eq-ok (draw entropy) _ b in
    let (own, tagged, noted) = draw-eq-ok entropy id sending drawn draws in
    let made = ok-injective last in
    let same = ap (λ o. o.0) made in
    let named : drawn ≡ audit = ap (λ o. o.1) made in
    let consent : c.confirmed ≡ true = unfold confirmed_context in ground arith in
    (
      who,
      c,
      refl,
      refl,
      record {
        consent = consent;
        admin = λ must. ground (arith, ==_iff who.role role_admin);
        within = context_fits-eq-true c (unfold confirmed_context in ground arith);
      },
      rw (sym same, sym named, sym consent)
          (new_job-Carries who c (Operation.unsafe operation) entropy id sending drawn now now own
            tagged noted),
      rw (sym same) refl,
    )
