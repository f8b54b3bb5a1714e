-- ===== src/Handoff/Request.antt =====
-- `HandoffService._create_or_reuse`: a session's active case is reused, or a new case is created.
pub mod Reuse
use order_agent.Prelude.{
  ℕ, Bool, true, false, String, Option, none, some, List, [], ◌++◌, leb, if◌then◌else◌,
}
use order_agent.Prelude.Text.{sorted, unique}
use order_agent.Enums.{HandoffReasonCode, HandoffStatus, HandoffActorType, eq_reason}
use order_agent.Errors.{Result, ok, ◌>>=◌, ◌>>◌}
use order_agent.Records.{Order, OrderConfirmation}
use order_agent.Handoff.Case.{
  Audit, Priority, low, normal, high, critical, HandoffCase, CaseEvent, requested, risk_updated,
  add_event, log,
}

-- The fields of a HANDOFF decision that the service stores.
pub record HandoffDecision : Type 0 where
  pub reason_code : HandoffReasonCode
  pub risk_ids : List String
  pub blocked_actions : List String

-- `_priority`: CRITICAL_REASONS, HIGH_REASONS and the rest
unfoldable pub priority_of : HandoffReasonCode → Priority
priority_of HandoffReasonCode.severe_allergy = critical
priority_of HandoffReasonCode.cross_contamination = critical
priority_of HandoffReasonCode.abuse_or_security = critical
priority_of HandoffReasonCode.complaint = high
priority_of HandoffReasonCode.refund_request = high
priority_of HandoffReasonCode.payment_dispute = high
priority_of HandoffReasonCode.regulated_item = high
priority_of HandoffReasonCode.system_failure = high
priority_of _ = normal

-- `ranking`
abbrev pub ranking : Priority → ℕ
ranking low = 0
ranking normal = 1
ranking high = 2
ranking critical = 3

-- `_max_priority`
unfoldable pub max_priority : Priority → Priority → Priority
max_priority current new = if leb (ranking new) (ranking current) then current else new

-- `sorted(set(a) | set(b))`
unfoldable pub union : List String → List String → List String
unfolding sorted
union xs ys = sorted (unique (xs ++ ys))

-- What a request leaves behind: the case, whether it is new, and the other rows that it changed.
pub record Requested : Type 0 where
  pub case : HandoffCase
  pub created : Bool
  pub case_events : List CaseEvent
  pub order : Option Order
  pub confirmation : Option OrderConfirmation

-- The changes of an active case whose reason is another one.
unfoldable pub update_risk : HandoffCase → HandoffDecision → HandoffCase
unfolding max_priority priority_of union
update_risk active decision = record active {
  reason_code = decision.reason_code;
  priority = max_priority active.priority (priority_of decision.reason_code);
  risk_ids = union active.risk_ids decision.risk_ids;
  blocked_actions = union active.blocked_actions decision.blocked_actions;
}

-- The branch for an active case: it is left alone if it has the reason of the decision.
unfoldable pub reuse :
    Audit → HandoffDecision → HandoffCase → List CaseEvent → Result (HandoffCase × List CaseEvent)
unfolding update_risk add_event eq_reason
reuse audit decision active events =
    if eq_reason active.reason_code decision.reason_code then ok (active, events) else do
      let case = update_risk active decision
      events' ←
          add_event audit case (risk_updated active.reason_code decision.reason_code)
            HandoffActorType.orchestrator events
      ok (case, events')

-- `order.safety_hold = True` with the reason
abbrev pub hold : HandoffReasonCode → Order → Order
hold reason order = record order { safety_hold = true; safety_hold_reason = some reason }

abbrev pub invalidate : OrderConfirmation → OrderConfirmation
invalidate confirmation = record confirmation { invalidated = true }

-- The new case; `id` and `public_id` come from the database and from `uuid4`.
abbrev pub new_case : ℕ → String → ℕ → Option Order → HandoffDecision → HandoffCase
new_case id public_id session_id order decision = record {
  id = id;
  public_id = public_id;
  session_id = session_id;
  order_id = elim order [ none ↦ none | some o ↦ some o.id ];
  status = HandoffStatus.requested;
  reason_code = decision.reason_code;
  priority = priority_of decision.reason_code;
  risk_ids = decision.risk_ids;
  blocked_actions = decision.blocked_actions;
  failure_code = none;
  resolution = none;
  assigned_at = none;
  connected_at = none;
  resolved_at = none;
  failed_at = none;
}

-- The rest of `_create_or_reuse`: `order` is the latest of the session, and `confirmation` the one
-- of its draft version.
unfoldable pub create :
    Audit
    → HandoffCase
    → Option Order
    → Option OrderConfirmation
    → List CaseEvent
    → Result Requested
unfolding add_event priority_of
create audit case order confirmation events = do
  events' ←
      add_event audit case (requested case.reason_code case.priority) HandoffActorType.orchestrator
        events
  log audit case
  ok (record {
    case = case;
    created = true;
    case_events = events';
    order = elim order [ none ↦ none | some o ↦ some (hold case.reason_code o) ];
    confirmation = elim order [
      | none ↦ confirmation
      | some o ↦ elim confirmation [ none ↦ none | some c ↦ some (invalidate c) ]
    ];
  })

create_or_reuse_in :
    Audit
    → HandoffDecision
    → HandoffCase
    → Option HandoffCase
    → Option Order
    → Option OrderConfirmation
    → List CaseEvent
    → Result Requested
unfolding reuse create
create_or_reuse_in audit decision fresh none order confirmation events =
    create audit fresh order confirmation events
create_or_reuse_in audit decision fresh (some active) order confirmation events = do
  reused ← reuse audit decision active events
  ok (record {
    case = reused.0;
    created = false;
    case_events = reused.1;
    order = order;
    confirmation = confirmation;
  })

-- `_create_or_reuse`, with the active case of the session if there is one.
unfoldable pub create_or_reuse :
    Audit
    → ℕ
    → String
    → ℕ
    → HandoffDecision
    → Option HandoffCase
    → Option Order
    → Option OrderConfirmation
    → List CaseEvent
    → Result Requested
unfolding create_or_reuse_in
create_or_reuse audit id public_id session_id decision active order confirmation events =
    create_or_reuse_in audit decision (new_case id public_id session_id order decision) active order
      confirmation events
