-- ===== src/Handoff/Cancel/Hold.antt =====
-- What a cancellation leaves of the hold and of the confirmation.
use order_agent.Prelude.{
  ◌≤◌, ◌<◌, ◌≡◌, ◌≢◌, Bool, true, false, Option, none, some, arith, is_some, if◌then◌else◌,
}
use order_agent.Enums.{OrderStatus, HandoffReasonCode}
use order_agent.Errors.{ok}
use order_agent.Records.{Order}
use order_agent.Handoff.Request.{invalidate}
use order_agent.Handoff.Cancel.{
  Held, CancellationResult, is_explicit, held_by_request, cancelled_order, cancelled_state,
  apply_cancellation_effects, may_continue, rehold, redraft,
}

-- Every order among the rows is on hold for the given reason.
abbrev pub IsHeldFor : HandoffReasonCode → Option Order → Type 0
IsHeldFor code none = Unit
IsHeldFor code (some order) = (order.safety_hold ≡ true) × (order.safety_hold_reason ≡ some code)

pub cancelled_order-IsHeldFor :
    (h : Held)
    → is_explicit h.case.reason_code ≡ false
    → IsHeldFor h.case.reason_code (cancelled_order h)
unfolding cancelled_order
cancelled_order-IsHeldFor h mandatory = ground arith

pub effects_order :
    (h : Held) {after : Held} {result : CancellationResult}
    → apply_cancellation_effects h ≡ ok (after, result)
    → (after.order ≡ cancelled_order h)
      × (after.state ≡ cancelled_state h)
      × (result.may_continue_draft ≡ may_continue h.case.reason_code (cancelled_order h))
      × (result.draft_version ≡ (cancelled_state h).draft_version)
unfolding apply_cancellation_effects
effects_order h e = ground arith

-- Whether an order is free after an explicit request is cancelled: it was not on hold, or only for
-- that reason.
abbrev pub was_free : Option Order → Bool
was_free none = true
was_free (some order) = if order.safety_hold then held_by_request order else true

-- Cancelling an explicit request lets the draft go on just if its order, if it has one, was not on
-- hold for another reason; a hold for another reason stays, with its reason.
pub cancel_explicit :
    (h : Held) {after : Held} {result : CancellationResult}
    → is_explicit h.case.reason_code ≡ true
    → apply_cancellation_effects h ≡ ok (after, result)
    → (result.may_continue_draft ≡ was_free h.order)
      × ((order : Order)
          → h.order ≡ some order
          → was_free h.order ≡ false
          → (order' : Order) × (after.order ≡ some order')
            × (order'.safety_hold ≡ true)
            × (order'.safety_hold_reason ≡ order.safety_hold_reason))
unfolding apply_cancellation_effects
cancel_explicit h explicit e = (
  ground arith,
  λ order present held.
      (rehold h.case.reason_code (redraft h order), ground arith, ground arith, ground arith),
)

-- After a cancellation no earlier confirmation stands: the session and the order are not confirmed,
-- the confirmation row of the order is invalidated, and the order's version is at least the
-- session's and the one that it had, and a later one if there was a confirmation.
pub cancel_confirmation :
    (h : Held) (order : Order) {after : Held} {result : CancellationResult}
    → h.order ≡ some order
    → apply_cancellation_effects h ≡ ok (after, result)
    → (after.state.confirmation_valid ≡ false)
      × (after.state.submitted ≡ false)
      × (after.confirmation ≡ elim h.confirmation [ none ↦ none | some c ↦ some (invalidate c) ])
      × ((order' : Order) × (after.order ≡ some order')
          × (order'.status ≢ OrderStatus.customer_confirmed)
          × (after.state.draft_version ≡ order'.draft_version)
          × (order.draft_version ≤ order'.draft_version)
          × (h.state.draft_version ≤ order'.draft_version)
          × (is_some h.confirmation ≡ true → order.draft_version < order'.draft_version))
unfolding apply_cancellation_effects
cancel_confirmation h order present e = (
  ground arith,
  ground arith,
  ground arith,
  (
    rehold h.case.reason_code (redraft h order),
    ground arith,
    ground arith,
    ground arith,
    ground arith,
    ground arith,
    ground arith,
  ),
)
