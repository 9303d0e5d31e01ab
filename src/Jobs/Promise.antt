-- ===== src/Jobs/Promise.antt =====
-- What the submission of a job promises.
use silent_devops.Prelude.{
  ℕ, String, ◌≡◌, refl, sym, ap, ◌∙◌, ◌⊎◌, inl, inr, Bool, true, Option, some, Result-cases, err,
}
use silent_devops.Protocol.{
  Code, TypedOperation, UnsafeOperation, Operation, Job, JobContext, Message,
}
use silent_devops.Registry.{Registry}
use silent_devops.Registry.Invariant.{Inv}
use silent_devops.Registry.Dispatch.{KeepsSessions}
use silent_devops.Auth.Token.{Claims}
use silent_devops.Jobs.{Server, Faults, Entropy, answered}
use silent_devops.Jobs.Submit.{prepare_safe, is_there, submit_safe, prepare_unsafe, submit_unsafe}
use silent_devops.Jobs.Delivery.{Sends, send_job-Sends}
use silent_devops.Jobs.Prepared.{
  Bounded, Carries, Unready, prepare_safe-eq-err, prepare_safe-eq-ok, Consents,
  prepare_unsafe-eq-err, prepare_unsafe-eq-ok,
}

-- A submission of a safe job, in a valid registry and whatever other calls do to it during the dispatch
-- as long as no session is freed. Either it is refused and nothing has changed: the caller is not
-- authenticated, there is no context, the context is not within its bounds, or an identifier could
-- not be drawn. Or the caller is authenticated, the context names an agent, a reason and an
-- idempotency key and a time within 3600 seconds, the job carries the caller, its role, the context
-- (agent, reason, confirmation, key), the deadline that the time gives and the drawn identifiers, and:
-- it is refused and nothing has changed, since a statement fails, a row is in conflict, or the actor or
-- agent is unknown; or its row and its audit event are recorded together, no row was in conflict, and
-- the job is reported unavailable (for an offline agent or a context that is done), or waits
-- for room in the queue of the agent's own session, or is answered with its message at the end of that
-- queue, or the process panics, which only happens when that session has been closed since it was
-- looked up.
pub submit_safe_outcome :
    (claims : Option Claims) (s : Server) (r : Registry Message) (faults : Faults)
    (entropy : Entropy) (done : Bool) (now later : ℕ) (request : Option JobContext)
    (operation : TypedOperation) (kind : String)
    → s.registry ≡ some r
    → Inv r
    → KeepsSessions r (faults.meanwhile r)
    → ((code : Code) × Unready claims entropy request (λ who c. Bounded c)
        × (submit_safe claims s faults entropy done now later request operation kind
            ≡ (answered (err code), s)))
      ⊎ ((who : Claims) × (c : JobContext) × (j : Job) × (audit : String) × (claims ≡ some who)
          × (request ≡ some c)
          × Bounded c
          × Carries who c entropy now later j audit
          × (j.operation ≡ Operation.safe operation)
          × Sends s r faults done j kind audit
              (submit_safe claims s faults entropy done now later request operation kind))
unfolding submit_safe
submit_safe_outcome claims s r faults entropy done now later request operation kind there v keeps =
    let up : is_there s.registry ≡ true = rw there (unfold is_there in refl) in
    elim (Result-cases
      (prepare_safe claims (is_there s.registry) entropy request operation now later)) [
        | inl (code, e) ↦ inl (
          code,
          prepare_safe-eq-err claims entropy request operation now later code
              (ap (λ b. prepare_safe claims b entropy request operation now later) (sym up) ∙ e),
          rw (e, submit_safe) refl,
        )
        | inr ((j, audit), e) ↦
            let (who, c, known, given, good, carried, asked) =
              prepare_safe-eq-ok claims (is_there s.registry) entropy request operation now later j
                audit e in
            inr (
              who,
              c,
              j,
              audit,
              known,
              given,
              good,
              carried,
              asked,
              rw (e, submit_safe) (send_job-Sends s r faults done j kind audit there v keeps),
            )
      ]

-- A submission of an unsafe job, in a valid registry and whatever other calls do to it during the dispatch
-- as long as no session is freed. Either it is refused and nothing has changed: the caller is not
-- authenticated, or is no administrator where the handler asks for one, there is no context, it is not
-- confirmed or not within its bounds, or an identifier could not be drawn. Or the caller and the
-- context are as asked, the job carries them with its confirmation, its deadline and the drawn
-- identifiers, and: it is refused and nothing has changed, since something stands against the
-- transaction; or its row and its audit event are recorded together, and the job is reported
-- unavailable, or waits for room in the queue of the agent's own session, or is answered with its
-- message at the end of that queue, or the process panics, which only happens when that session has
-- been closed since it was looked up.
pub submit_unsafe_outcome :
    (claims : Option Claims) (s : Server) (r : Registry Message) (faults : Faults)
    (entropy : Entropy) (done : Bool) (now : ℕ) (request : Option JobContext)
    (operation : UnsafeOperation) (kind : String) (admin_only : Bool)
    → s.registry ≡ some r
    → Inv r
    → KeepsSessions r (faults.meanwhile r)
    → ((code : Code) × Unready claims entropy request (Consents admin_only)
        × (submit_unsafe claims s faults entropy done now request operation kind admin_only
            ≡ (answered (err code), s)))
      ⊎ ((who : Claims) × (c : JobContext) × (j : Job) × (audit : String) × (claims ≡ some who)
          × (request ≡ some c)
          × Consents admin_only who c
          × Carries who c entropy now now j audit
          × (j.operation ≡ Operation.unsafe operation)
          × Sends s r faults done j kind audit
              (submit_unsafe claims s faults entropy done now request operation kind admin_only))
unfolding submit_unsafe
submit_unsafe_outcome claims s r faults entropy done now request operation kind admin_only there v
      keeps =
    elim (Result-cases (prepare_unsafe claims entropy request operation admin_only now)) [
      | inl (code, e) ↦ inl (
        code,
        prepare_unsafe-eq-err claims entropy request operation admin_only now code e,
        rw (e, submit_unsafe) refl,
      )
      | inr ((j, audit), e) ↦
          let (who, c, known, given, good, carried, asked) =
            prepare_unsafe-eq-ok claims entropy request operation admin_only now j audit e in
          inr (
            who,
            c,
            j,
            audit,
            known,
            given,
            good,
            carried,
            asked,
            rw (e, submit_unsafe) (send_job-Sends s r faults done j kind audit there v keeps),
          )
    ]
