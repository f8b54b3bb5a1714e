-- ===== src/Handoff/Cancel/Repeat.antt =====
-- A cancellation that is asked for again.
use order_agent.Prelude.{◌≡◌, true, arith}
use order_agent.Errors.{ok}
use order_agent.Handoff.Cancel.{
  Held, CancellationResult, apply_cancellation_effects, current_cancellation_result,
}

-- Cancelling a case again gives the answer of the first time, marked as a replay, in every field but
-- `safety_hold_cleared`, which stays true where it was.
pub cancel_again :
    (h : Held) {after : Held} {result : CancellationResult}
    → apply_cancellation_effects h ≡ ok (after, result)
    → let again = current_cancellation_result after in
      (again.may_continue_draft ≡ result.may_continue_draft)
      × (again.safety_hold_active ≡ result.safety_hold_active)
      × (again.confirmation_remains_invalid ≡ result.confirmation_remains_invalid)
      × (again.requires_new_confirmation ≡ result.requires_new_confirmation)
      × (again.draft_version ≡ result.draft_version)
      × (again.lifecycle_status ≡ result.lifecycle_status)
      × (again.persistence_version ≡ result.persistence_version)
      × (again.idempotent_replay ≡ true)
      × (result.safety_hold_cleared ≡ true → again.safety_hold_cleared ≡ true)
unfolding apply_cancellation_effects current_cancellation_result
cancel_again h e = ground arith
