-- ===== src/Handoff/Service/Requested.antt =====
-- A handoff that was requested does not stay requested.
use order_agent.Prelude.{
  ℕ, ◌≡◌, ◌⊎◌, refl, ◌∙◌, inl, inr, Bool, true, not, if◌then◌else◌, some, none,
}
use order_agent.Enums.{HandoffStatus, HandoffFailureCode, HandoffActorType}
use order_agent.Errors.{Error, Result, ok, err, bind_parts}
use order_agent.Handoff.Case.{Audit, HandoffCase, moved, Rows, allowed, apply_transition}
use order_agent.Handoff.Case.Effects.{apply_transition_lem, apply_transition-failed}
use order_agent.Handoff.Service.{
  provider_requested, provider_failed, mark_summary_failure, request_provider, complete_request,
  is_open_request,
}

Result-cases :
    (result : Result Rows) → ((rows : Rows) × (result ≡ ok rows)) ⊎ ((e : Error) × (result ≡ err e))
Result-cases (ok rows) = inl (rows, refl)
Result-cases (err e) = inr (e, refl)

may_fail :
    (status : HandoffStatus)
    → status ≡ HandoffStatus.requested
    → allowed status HandoffStatus.failed ≡ true
unfolding allowed
may_fail status h = rw h refl

if_not {ℓ} : {A : Type ℓ} (test : Bool) (x y : A) → test ≡ true → (if not test then x else y) ≡ y
if_not test x y h = rw h refl

opens : (status : HandoffStatus) → status ≡ HandoffStatus.requested → is_open_request status ≡ true
opens status h = rw h refl

mark_summary_failure-open :
    (audit : Audit) (now : ℕ) (rows : Rows)
    → is_open_request rows.case.status ≡ true
    → mark_summary_failure audit now rows
      ≡ apply_transition audit now rows
          (provider_failed HandoffFailureCode.system_error)
          HandoffActorType.system
unfolding mark_summary_failure
mark_summary_failure-open audit now rows h =
    if_not (is_open_request rows.case.status) (ok rows)
      (apply_transition audit now rows (provider_failed HandoffFailureCode.system_error)
        HandoffActorType.system)
      h

-- The request of a case that was just created returns, whatever becomes of its summary, provided that
-- the event and the log line of a failure pass the audit. The case is then pending, or has failed.
pub complete_request-settles :
    (audit : Audit) (now : ℕ) (summary : HandoffCase → Result (Unit {0})) (rows : Rows)
    → rows.case.status ≡ HandoffStatus.requested
    → audit.safe_payload (
        moved HandoffStatus.requested HandoffStatus.failed
          (some HandoffFailureCode.system_error)
          none)
      ≡ true
    → audit.safe_log (record rows.case {
      status = HandoffStatus.failed;
      failure_code = some HandoffFailureCode.system_error;
      failed_at = some now;
    })
      ≡ true
    → (after : Rows) × (complete_request audit now summary rows ≡ ok after)
      × ((after.case.status ≡ HandoffStatus.pending) ⊎ (after.case.status ≡ HandoffStatus.failed))
unfolding complete_request request_provider
complete_request-settles audit now summary rows requested safe logged =
    elim (Result-cases (request_provider audit now summary rows)) [
      | inl (after, passed) ↦
          let (done, made, moved_on) = bind_parts (summary rows.case) _ passed in
          (
            after,
            rw (complete_request, passed) refl,
            inl
                (apply_transition_lem audit now rows provider_requested
                  HandoffActorType.simulation_provider moved_on).1,
          )
      | inr (error, raised) ↦
          let (after, failed, status) =
            apply_transition-failed audit now rows HandoffFailureCode.system_error
              HandoffActorType.system (may_fail rows.case.status requested) (rw requested safe)
              logged in
          (
            after,
            rw (complete_request, raised)
                (mark_summary_failure-open audit now rows (opens rows.case.status requested)
                  ∙ failed),
            inr status,
          )
    ]
