-- ===== src/Handoff/Case.antt =====
-- Handoff cases and `HandoffService._apply_transition`.
pub mod Trace
pub mod Effects
use order_agent.Prelude.{
  ℕ, suc, ◌+◌, max, Bool, true, false, not, ◌&&◌, String, Option, none, some, List, [], ◌∷◌, ◌++◌,
  ◌==◌, if◌then◌else◌,
}
use order_agent.Enums.{
  OrderStatus, ActorType, HandoffReasonCode, HandoffStatus, HandoffFailureCode, HandoffActorType,
}
use order_agent.Errors.{
  Result, ok, err, ◌>>=◌, ◌>>◌, raise_if, invalid_handoff_transition, value_error,
  unsafe_audit_payload,
}
use order_agent.Records.{
  Order, OrderEvent, order_simulated_handoff_draft_changed, status, number, flag,
  next_event_sequence,
}

pub data Priority : Type 0 where
  low normal high critical : Priority

-- The parts of a resolution's JSON that the service reads; an absent or empty one is `none`.
pub record Resolution : Type 0 where
  pub draft_changed : Bool
  pub resolution_code : Option String

pub record HandoffCase : Type 0 where
  pub id : ℕ
  pub public_id : String
  pub session_id : ℕ
  pub order_id : Option ℕ
  pub status : HandoffStatus
  pub reason_code : HandoffReasonCode
  pub priority : Priority
  pub risk_ids : List String
  pub blocked_actions : List String
  pub failure_code : Option HandoffFailureCode
  pub resolution : Option Resolution
  pub assigned_at : Option ℕ
  pub connected_at : Option ℕ
  pub resolved_at : Option ℕ
  pub failed_at : Option ℕ

-- What a provider answers: `HandoffProviderResult`.
pub record ProviderResult : Type 0 where
  pub status : HandoffStatus
  pub failure_code : Option HandoffFailureCode
  pub resolution : Option Resolution

-- The payloads of case events.
pub data CasePayload : Type 0 where
  requested : HandoffReasonCode → Priority → CasePayload
  risk_updated : HandoffReasonCode → HandoffReasonCode → CasePayload
  moved :
      HandoffStatus → HandoffStatus → Option HandoffFailureCode → Option Resolution → CasePayload

pub record CaseEvent : Type 0 where
  pub case_id : ℕ
  pub sequence_number : ℕ
  pub payload : CasePayload
  pub actor : HandoffActorType

-- The checks of backend/app/services/safety_audit.py on what is stored, as far as the service calls
-- them: a resolution, an event's payload, and the fields of a log line.
pub record Audit : Type 0 where
  pub safe_resolution : Resolution → Bool
  pub safe_payload : CasePayload → Bool
  pub safe_log : HandoffCase → Bool

-- The rows of a unit of work: `order` is the one that the case names in its own tenant.
pub record Rows : Type 0 where
  pub case : HandoffCase
  pub case_events : List CaseEvent
  pub order : Option Order
  pub order_events : List OrderEvent

-- ALLOWED_TRANSITIONS
unfoldable pub allowed : HandoffStatus → HandoffStatus → Bool
allowed HandoffStatus.not_required HandoffStatus.requested = true
allowed HandoffStatus.requested HandoffStatus.pending = true
allowed HandoffStatus.requested HandoffStatus.failed = true
allowed HandoffStatus.requested HandoffStatus.cancelled = true
allowed HandoffStatus.pending HandoffStatus.simulated_agent_assigned = true
allowed HandoffStatus.pending HandoffStatus.failed = true
allowed HandoffStatus.pending HandoffStatus.cancelled = true
allowed HandoffStatus.simulated_agent_assigned HandoffStatus.simulated_agent_connected = true
allowed HandoffStatus.simulated_agent_assigned HandoffStatus.failed = true
allowed HandoffStatus.simulated_agent_assigned HandoffStatus.cancelled = true
allowed HandoffStatus.simulated_agent_connected HandoffStatus.resolved = true
allowed HandoffStatus.simulated_agent_connected HandoffStatus.failed = true
allowed HandoffStatus.simulated_agent_connected HandoffStatus.cancelled = true
allowed _ _ = false

last_case_sequence : ℕ → List CaseEvent → ℕ
last_case_sequence case_id [] = 0
last_case_sequence case_id (e ∷ es) =
    let rest = last_case_sequence case_id es in
    if e.case_id == case_id then max e.sequence_number rest else rest

-- `_add_event`
unfoldable pub add_event :
    Audit → HandoffCase → CasePayload → HandoffActorType → List CaseEvent → Result (List CaseEvent)
unfolding last_case_sequence
add_event audit case payload actor events = do
  raise_if (not (audit.safe_payload payload)) unsafe_audit_payload
  ok (
      events
      ++ (record {
        case_id = case.id;
        sequence_number = suc (last_case_sequence case.id events);
        payload = payload;
        actor = actor;
      })
        ∷ [])

-- `_log`
abbrev pub log : Audit → HandoffCase → Result (Unit {0})
log audit case = raise_if (not (audit.safe_log case)) unsafe_audit_payload

-- What a resolution that changed the draft does to the order.
unfoldable pub reopen : Order → List OrderEvent → Order × List OrderEvent
unfolding next_event_sequence
reopen order events =
    let changed = record order {
      draft_version = order.draft_version + 1;
      status = OrderStatus.draft;
      safety_hold = true;
    } in
    (
      changed,
      events
          ++ (record {
            order_id = order.id;
            sequence_number = next_event_sequence order.id events;
            event_type = order_simulated_handoff_draft_changed;
            payload =
                ("previousStatus", status order.status)
                ∷ ("newDraftVersion", number (order.draft_version + 1))
                ∷ ("synthetic", flag true)
                ∷ [];
            actor_type = ActorType.system;
          })
            ∷ [],
    )

-- `if result.resolution.get("draftChanged") and case.order_id`, and the order was found
abbrev reopen_if : Bool → Rows → Rows
reopen_if true rows = elim rows.order [
  | none ↦ rows
  | some order ↦
      let (changed, events) = reopen order rows.order_events in
      record rows { order = some changed; order_events = events }
]
reopen_if false rows = rows

resolve_case : Audit → ℕ → Option Resolution → Rows → Result Rows
unfolding reopen
resolve_case audit now none rows = err value_error
resolve_case audit now (some resolution) rows = do
  raise_if (not (audit.safe_resolution resolution)) unsafe_audit_payload
  ok (
      reopen_if resolution.draft_changed (record rows {
        case = record rows.case { resolution = some resolution; resolved_at = some now };
      }))

fail_case : ℕ → Option HandoffFailureCode → Rows → Result Rows
fail_case now none rows = err value_error
fail_case now (some code) rows =
    ok (record rows { case = record rows.case { failure_code = some code; failed_at = some now } })

-- The branches of `_apply_transition` on the target.
enter : Audit → ℕ → ProviderResult → HandoffStatus → Rows → Result Rows
unfolding resolve_case fail_case
enter audit now result HandoffStatus.simulated_agent_assigned rows =
    ok (record rows { case = record rows.case { assigned_at = some now } })
enter audit now result HandoffStatus.simulated_agent_connected rows =
    ok (record rows { case = record rows.case { connected_at = some now } })
enter audit now result HandoffStatus.resolved rows = resolve_case audit now result.resolution rows
enter audit now result HandoffStatus.failed rows = fail_case now result.failure_code rows
enter audit now result HandoffStatus.cancelled rows = ok (record rows {
  case = record rows.case { failure_code = some HandoffFailureCode.case_cancelled };
})
enter audit now result _ rows = ok rows

-- The event and the log line at the end of `_apply_transition`.
finish : Audit → ProviderResult → HandoffStatus → HandoffActorType → Rows → Result Rows
unfolding add_event
finish audit result current actor rows = do
  events ←
      add_event audit rows.case (moved current result.status result.failure_code result.resolution)
        actor rows.case_events
  log audit rows.case
  ok (record rows { case_events = events })

-- `_apply_transition`
unfoldable pub apply_transition : Audit → ℕ → Rows → ProviderResult → HandoffActorType → Result Rows
unfolding allowed enter finish
apply_transition audit now rows result actor = do
  let current = rows.case.status
  raise_if (not (allowed current result.status)) (invalid_handoff_transition current result.status)
  entered ←
      enter audit now result result.status
        (record rows { case = record rows.case { status = result.status } })
  finish audit result current actor entered
