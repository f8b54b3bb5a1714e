-- ===== src/Handoff/Service.antt =====
-- The methods of `HandoffService` around a case: `request_handoff` with its fallback, the provider's
-- transitions and `cancel`. A method's unit of work is a function of the rows that it loads. The rows
-- of the case are `None` where the tenant has no such case.
pub mod Requested
pub mod Cancelled
pub mod Hold
use order_agent.Prelude.{
  ℕ, Bool, true, false, not, ◌&&◌, ◌||◌, String, Option, none, some, List, ◌==◌, if◌then◌else◌,
}
use order_agent.Enums.{HandoffStatus, HandoffFailureCode, HandoffActorType}
use order_agent.Errors.{
  Result, ok, err, ◌>>=◌, ◌>>◌, raise_if, handoff_not_found, invalid_handoff_transition,
  unsafe_audit_payload,
}
use order_agent.Handoff.Case.{
  Audit, Resolution, HandoffCase, ProviderResult, CaseEvent, Rows, apply_transition,
}
use order_agent.Handoff.Cancel.{
  Held, CancellationResult, apply_cancellation_effects, current_cancellation_result,
}

-- `SimulationHandoffProvider`: what its methods answer.
abbrev pub answered : HandoffStatus → ProviderResult
answered status = record { status = status; failure_code = none; resolution = none }

abbrev pub provider_requested : ProviderResult
provider_requested = answered HandoffStatus.pending

abbrev pub provider_cancelled : ProviderResult
provider_cancelled = record (answered HandoffStatus.cancelled) {
  failure_code = some HandoffFailureCode.case_cancelled;
}

abbrev pub provider_failed : HandoffFailureCode → ProviderResult
provider_failed code = record (answered HandoffStatus.failed) { failure_code = some code }

abbrev pub provider_resolved : Resolution → ProviderResult
provider_resolved resolution = record (answered HandoffStatus.resolved) {
  resolution = some resolution;
}

-- Whether the case is the session's. Without a key the session is not looked up; with one, it is the
-- session that was found.
abbrev pub is_in_session : HandoffCase → Option (Option ℕ) → Bool
is_in_session case none = true
is_in_session case (some none) = false
is_in_session case (some (some session_id)) = case.session_id == session_id

-- `_get_scoped`
unfoldable pub get_scoped : Option Rows → Option (Option ℕ) → Result Rows
get_scoped none session = err handoff_not_found
get_scoped (some rows) session = do
  raise_if (not (is_in_session rows.case session)) handoff_not_found
  ok rows

-- `_provider_transition`, of the result of the provider's method.
unfoldable pub provider_transition :
    Audit → ℕ → Option Rows → Option (Option ℕ) → ProviderResult → Result Rows
unfolding get_scoped apply_transition
provider_transition audit now found session result = do
  rows ← get_scoped found session
  apply_transition audit now rows result HandoffActorType.simulation_provider

-- `resolve`
unfoldable pub resolve_handoff :
    Audit → ℕ → Option Rows → Option (Option ℕ) → Resolution → Result Rows
unfolding provider_transition
resolve_handoff audit now found session resolution = do
  raise_if (not (audit.safe_resolution resolution)) unsafe_audit_payload
  provider_transition audit now found session (provider_resolved resolution)

abbrev pub is_open_request : HandoffStatus → Bool
is_open_request HandoffStatus.requested = true
is_open_request HandoffStatus.pending = true
is_open_request _ = false

-- `_mark_summary_failure`
unfoldable pub mark_summary_failure : Audit → ℕ → Rows → Result Rows
unfolding apply_transition
mark_summary_failure audit now rows =
    if not (is_open_request rows.case.status)
    then ok rows
    else apply_transition audit now rows (provider_failed HandoffFailureCode.system_error)
        HandoffActorType.system

-- The body of the `try` of `request_handoff`; `summary` is whether the summary's service raises.
unfoldable pub request_provider : Audit → ℕ → (HandoffCase → Result (Unit {0})) → Rows → Result Rows
unfolding apply_transition
request_provider audit now summary rows = do
  summary rows.case
  apply_transition audit now rows provider_requested HandoffActorType.simulation_provider

-- The rest of `request_handoff` for a case that was created. What the `try` did to the rows is rolled
-- back when it raises.
unfoldable pub complete_request : Audit → ℕ → (HandoffCase → Result (Unit {0})) → Rows → Result Rows
unfolding request_provider mark_summary_failure
complete_request audit now summary rows = elim (request_provider audit now summary rows) [
  | ok requested ↦ ok requested
  | err error ↦ mark_summary_failure audit now rows
]

-- The rows of `cancel`.
pub record CancelRows : Type 0 where
  pub held : Held
  pub case_events : List CaseEvent

abbrev pub is_cancelled : HandoffStatus → Bool
is_cancelled HandoffStatus.cancelled = true
is_cancelled _ = false

-- ACTIVE_HANDOFF_STATUSES
abbrev pub is_active : HandoffStatus → Bool
is_active HandoffStatus.requested = true
is_active HandoffStatus.pending = true
is_active HandoffStatus.simulated_agent_assigned = true
is_active HandoffStatus.simulated_agent_connected = true
is_active _ = false

-- The branch of `cancel` whose claim succeeded.
unfoldable pub cancel_claimed : Audit → ℕ → CancelRows → Result (CancelRows × CancellationResult)
unfolding apply_transition apply_cancellation_effects
cancel_claimed audit now rows = do
  moved ←
      apply_transition audit now
        (record {
          case = rows.held.case;
          case_events = rows.case_events;
          order = rows.held.order;
          order_events = rows.held.order_events;
        })
        provider_cancelled HandoffActorType.customer
  (held, result) ← apply_cancellation_effects (record rows.held { case = moved.case })
  ok (record { held = held; case_events = moved.case_events }, result)

-- The branch whose claim failed: another transaction left the case with the status `stored`.
unfoldable pub cancel_lost : HandoffStatus → CancelRows → Result (CancelRows × CancellationResult)
unfolding current_cancellation_result
cancel_lost stored rows =
    let held : Held = record rows.held { case = record rows.held.case { status = stored } } in
    if is_cancelled stored
    then ok (record rows { held = held }, current_cancellation_result held)
    else err (invalid_handoff_transition stored HandoffStatus.cancelled)

-- `cancel`, for a case in scope whose session is the loaded one. `stored` is the status that
-- `claim_cancellation` finds in the database.
unfoldable pub cancel :
    Audit → ℕ → HandoffStatus → CancelRows → Result (CancelRows × CancellationResult)
unfolding cancel_claimed cancel_lost current_cancellation_result
cancel audit now stored rows =
    if is_cancelled rows.held.case.status
    then ok (rows, current_cancellation_result rows.held)
    else if is_active stored
    then cancel_claimed audit now rows
    else cancel_lost stored rows
