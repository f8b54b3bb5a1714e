-- ===== src/Handoff/Cancel.antt =====
-- `HandoffService._apply_cancellation_effects`: what cancelling a case does to the order, to its
-- confirmation and to the session, and `_current_cancellation_result`.
pub mod Hold
pub mod Downgrade
pub mod Repeat
use order_agent.Prelude.{
  ℕ, suc, ◌+◌, max, Bool, true, false, not, ◌&&◌, ◌||◌, String, Option, none, some, List, [], ◌∷◌,
  ◌++◌, ◌==◌, if◌then◌else◌, is_some,
}
use order_agent.Prelude.Text.{sorted, unique}
use order_agent.Enums.{
  OrderStatus, ActorType, DecisionClass, HandoffReasonCode, HandoffStatus, handoff_reason,
  eq_reason, eq_order_status,
}
use order_agent.Errors.{Result, ok, ◌>>=◌, ◌>>◌, raise_if, session_version_conflict}
use order_agent.Records.{
  Order, OrderEvent, OrderConfirmation, order_handoff_cancelled_draft_requires_confirmation,
  order_handoff_cancelled_safety_hold_retained, reason, status, number, flag, next_event_sequence,
}
use order_agent.State.{SessionState}
use order_agent.Sessions.Contact.{without_contact}
use order_agent.Handoff.Case.{HandoffCase}
use order_agent.Handoff.Request.{invalidate}

-- `case.reason_code == HandoffReasonCode.EXPLICIT_HUMAN_REQUEST`
unfoldable pub is_explicit : HandoffReasonCode → Bool
unfolding eq_reason
is_explicit code = eq_reason code HandoffReasonCode.explicit_human_request

-- The rows that the effects read and write. `order` is the case's, `confirmation` the one of its
-- draft version; `session_version` is the version that was loaded with the session, and
-- `stored_version` the one in the database when the session is saved.
pub record Held : Type 0 where
  pub case : HandoffCase
  pub order : Option Order
  pub confirmation : Option OrderConfirmation
  pub order_events : List OrderEvent
  pub state : SessionState
  pub session_version : ℕ
  pub stored_version : ℕ

-- `HandoffCancellationResult`
pub record CancellationResult : Type 0 where
  pub case_status : HandoffStatus
  pub may_continue_draft : Bool
  pub safety_hold_cleared : Bool
  pub confirmation_remains_invalid : Bool
  pub requires_new_confirmation : Bool
  pub safety_hold_active : Bool
  pub draft_version : ℕ
  pub lifecycle_status : OrderStatus
  pub persistence_version : ℕ
  pub idempotent_replay : Bool

-- `should_advance_version`
abbrev pub advances : Held → Bool
advances h = is_some h.confirmation || h.state.confirmation_valid || h.state.submitted

-- The order's version and status.
abbrev pub redraft : Held → Order → Order
redraft h order = record order {
  draft_version =
      if advances h
      then max (order.draft_version + 1) h.state.draft_version
      else max order.draft_version h.state.draft_version;
  status =
      if eq_order_status order.status OrderStatus.customer_confirmed
      then OrderStatus.draft
      else order.status;
}

-- `order.safety_hold and order.safety_hold_reason == EXPLICIT_HUMAN_REQUEST`
unfoldable pub held_by_request : Order → Bool
unfolding is_explicit
held_by_request order =
    order.safety_hold && elim order.safety_hold_reason [ none ↦ false | some r ↦ is_explicit r ]

-- The order's hold.
unfoldable pub rehold : HandoffReasonCode → Order → Order
unfolding is_explicit held_by_request
rehold code order =
    if is_explicit code && held_by_request order
    then record order { safety_hold = false; safety_hold_reason = none }
    else if is_explicit code
    then order
    else record order { safety_hold = true; safety_hold_reason = some code }

unfoldable pub cancelled_order : Held → Option Order
unfolding rehold
cancelled_order h = elim h.order [
  | none ↦ none
  | some order ↦ some (rehold h.case.reason_code (redraft h order))
]

-- `safety_hold_active`
abbrev pub hold_active : HandoffReasonCode → Option Order → Bool
hold_active code none = not (is_explicit code)
hold_active code (some order) = order.safety_hold

-- The session's draft version, from the order as it was changed.
abbrev pub cancelled_version : Held → Option Order → ℕ
cancelled_version h (some order) = max h.state.draft_version order.draft_version
cancelled_version h none = if advances h then h.state.draft_version + 1 else h.state.draft_version

-- The session as `state_json_without_contact` saves it.
unfoldable pub cancelled_state : Held → SessionState
unfolding cancelled_order is_explicit sorted without_contact
cancelled_state h = without_contact (record h.state {
  draft_version = cancelled_version h (cancelled_order h);
  confirmation_valid = false;
  submitted = false;
  submitted_order_id = none;
  lifecycle_status = OrderStatus.draft;
  stage = "ordering";
  handoff_public_id = some h.case.public_id;
  handoff_status = HandoffStatus.cancelled;
  safety_classification = DecisionClass.handoff;
  safety_reason_code = some (handoff_reason h.case.reason_code);
  safety_blocked_actions = if is_explicit h.case.reason_code then [] else h.case.blocked_actions;
  confirmed_fields = [];
  unconfirmed_fields = sorted (unique (h.state.unconfirmed_fields ++ "final_order" ∷ []));
  persistence_version = h.session_version + 1;
})

-- `may_continue_draft`
abbrev pub may_continue : HandoffReasonCode → Option Order → Bool
may_continue code order = is_explicit code && not (hold_active code order)

-- The event on the order; `before` is the order as it was loaded.
unfoldable pub cancellation_event : Held → Order → Order → OrderEvent
unfolding next_event_sequence is_explicit
cancellation_event h before order = record {
  order_id = order.id;
  sequence_number = next_event_sequence order.id h.order_events;
  event_type =
      if may_continue h.case.reason_code (some order)
      then order_handoff_cancelled_draft_requires_confirmation
      else order_handoff_cancelled_safety_hold_retained;
  payload =
      ("reasonCode", reason h.case.reason_code)
      ∷ ("previousStatus", status before.status)
      ∷ ("status", status order.status)
      ∷ ("previousDraftVersion", number before.draft_version)
      ∷ ("draftVersion", number order.draft_version)
      ∷ ("previousSafetyHold", flag before.safety_hold)
      ∷ ("safetyHoldActive", flag order.safety_hold)
      ∷ ("requiresNewConfirmation", flag true)
      ∷ [];
  actor_type = ActorType.customer;
}

abbrev cancellation_events : Held → Option Order → Option Order → List OrderEvent
cancellation_events h (some before) (some order) =
    h.order_events ++ cancellation_event h before order ∷ []
cancellation_events h _ _ = h.order_events

-- `safety_hold_cleared`
abbrev hold_cleared : HandoffReasonCode → Held → Bool
hold_cleared code h =
    is_explicit code && elim h.order [ none ↦ false | some order ↦ held_by_request order ]

abbrev cancellation_result : Held → CancellationResult
cancellation_result h = record {
  case_status = HandoffStatus.cancelled;
  may_continue_draft = may_continue h.case.reason_code (cancelled_order h);
  safety_hold_cleared = hold_cleared h.case.reason_code h;
  confirmation_remains_invalid = true;
  requires_new_confirmation = true;
  safety_hold_active = hold_active h.case.reason_code (cancelled_order h);
  draft_version = (cancelled_state h).draft_version;
  lifecycle_status = OrderStatus.draft;
  persistence_version = h.session_version + 1;
  idempotent_replay = false;
}

-- `_apply_cancellation_effects`: the rows as they are left, and the result.
unfoldable pub apply_cancellation_effects : Held → Result (Held × CancellationResult)
unfolding cancelled_order cancelled_state cancellation_event is_explicit held_by_request
apply_cancellation_effects h = do
  raise_if (not (h.stored_version == h.session_version)) session_version_conflict
  ok (
    record h {
      order = cancelled_order h;
      confirmation = elim h.order [
        | none ↦ h.confirmation
        | some order ↦ elim h.confirmation [ none ↦ none | some c ↦ some (invalidate c) ]
      ];
      order_events = cancellation_events h h.order (cancelled_order h);
      state = cancelled_state h;
      session_version = h.session_version + 1;
      stored_version = h.session_version + 1;
    },
    cancellation_result h,
  )

-- `_current_cancellation_result`: what a cancellation that is repeated answers.
unfoldable pub current_cancellation_result : Held → CancellationResult
unfolding is_explicit
current_cancellation_result h =
    let explicit = is_explicit h.case.reason_code in
    let active = hold_active h.case.reason_code h.order in
    let invalid = not h.state.confirmation_valid && not h.state.submitted in
    record {
      case_status = HandoffStatus.cancelled;
      may_continue_draft =
          explicit && not active && eq_order_status h.state.lifecycle_status OrderStatus.draft;
      safety_hold_cleared = explicit && is_some h.order && not active;
      confirmation_remains_invalid = invalid;
      requires_new_confirmation = invalid;
      safety_hold_active = active;
      draft_version = h.state.draft_version;
      lifecycle_status = h.state.lifecycle_status;
      persistence_version = h.session_version;
      idempotent_replay = true;
    }
