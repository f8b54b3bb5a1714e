-- ===== src/Tests/Service.antt =====
-- A request whose summary fails, and a case that is cancelled twice.
use order_agent.Prelude.{◌≡◌, ◌⊎◌, refl, true, some, none, [], ◌∷◌}
use order_agent.Enums.{HandoffStatus, HandoffFailureCode, HandoffActorType}
use order_agent.Errors.{Result, ok, err, value_error}
use order_agent.Handoff.Case.{HandoffCase, moved, Rows}
use order_agent.Handoff.Request.{invalidate}
use order_agent.Handoff.Cancel.{
  Held, is_explicit, cancellation_event, cancelled_state, current_cancellation_result,
}
use order_agent.Handoff.Service.{CancelRows, complete_request, cancel}
use order_agent.Handoff.Service.Requested.{complete_request-settles}
use order_agent.Handoff.Service.Cancelled.{cancel_lem}
use order_agent.Handoff.Service.Hold.{
  HandoffSteps, here, withdrawn, rows_of, IsHolding, HandoffSteps-IsHeld,
}
use order_agent.Tests.Handoff.{audit, rows, held, held_order, kept_order, confirmation, kept_result}

abbrev requested_rows : Rows
requested_rows = record rows { case = record rows.case { status = HandoffStatus.requested } }

-- The summary's service raises.
abbrev no_summary : HandoffCase → Result (Unit {0})
no_summary case = err value_error

complete_request-settles_example :
    (after : Rows) × (complete_request audit 100 no_summary requested_rows ≡ ok after)
    × ((after.case.status ≡ HandoffStatus.pending) ⊎ (after.case.status ≡ HandoffStatus.failed))
complete_request-settles_example =
    complete_request-settles audit 100 no_summary requested_rows refl refl refl

abbrev cancelled_case : HandoffCase
cancelled_case = record rows.case {
  status = HandoffStatus.cancelled;
  failure_code = some HandoffFailureCode.case_cancelled;
}

abbrev cancelled_held : Held
cancelled_held = record held { case = cancelled_case }

abbrev before : CancelRows
before = record { held = held; case_events = [] }

abbrev after_cancel : CancelRows
after_cancel = record {
  held = record cancelled_held {
    order = some kept_order;
    confirmation = some (invalidate confirmation);
    order_events = cancellation_event cancelled_held held_order kept_order ∷ [];
    state = cancelled_state cancelled_held;
    session_version = 7;
    stored_version = 7;
  };
  case_events =
      (record {
        case_id = 4;
        sequence_number = 1;
        payload =
            moved HandoffStatus.pending HandoffStatus.cancelled
              (some HandoffFailureCode.case_cancelled) none;
        actor = HandoffActorType.customer;
      })
      ∷ [];
}

case_is_cancelled : cancel audit 100 HandoffStatus.pending before ≡ ok (after_cancel, kept_result)
unfolding cancel
case_is_cancelled = refl

cancel_lem_example :
    (after_cancel.held.case.status ≡ HandoffStatus.cancelled)
    × (cancel audit 200 HandoffStatus.cancelled after_cancel
        ≡ ok (after_cancel, current_cancellation_result after_cancel.held))
    × ((current_cancellation_result after_cancel.held).idempotent_replay ≡ true)
cancel_lem_example =
    cancel_lem audit 100 200 HandoffStatus.pending HandoffStatus.cancelled before case_is_cancelled

-- The cancelled case was mandatory.
abbrev one_cancellation : HandoffSteps audit (rows_of before) (rows_of after_cancel)
one_cancellation =
    withdrawn before after_cancel here 100 HandoffStatus.pending kept_result case_is_cancelled

HandoffSteps-IsHeld_example : IsHolding held.case.reason_code (rows_of after_cancel)
unfolding is_explicit
HandoffSteps-IsHeld_example = HandoffSteps-IsHeld one_cancellation refl refl
