-- ===== src/Entry.antt =====
-- The safety part of `TextEntryService` of backend/app/services/text_entry_service.py:
-- `_handle_safety_preflight` and the functions that write its outcome into the session. The services
-- that it calls are an interface; what the modelled ones promise is a hypothesis of a theorem.
pub mod Preflight
pub mod Blocked
use order_agent.Prelude.{
  ℕ, ◌+◌, Bool, true, false, not, ◌&&◌, ◌||◌, String, Option, none, some, List, [], ◌∷◌, ◌++◌,
  if◌then◌else◌,
}
use order_agent.Prelude.Text.{member}
use order_agent.Enums.{
  OrderStatus, DecisionClass, HandoffReasonCode, RefusalReasonCode, ReasonCode, handoff_reason,
  refusal_reason, HandoffStatus, eq_reason,
}
use order_agent.Errors.{Result}
use order_agent.State.{SessionState}
use order_agent.Safety.Confidence.{ConfidenceMetadata}
use order_agent.Safety.Signals.{Signal, handoff_signal, refusal_signal}
use order_agent.Safety.Decision.{Context, SafetyDecision}
use order_agent.Handoff.Cancel.{CancellationResult}

-- `RecordedSafetyDecision`, less its trace and its counters, which only the answer's trace shows.
pub record Recorded (Score : Type 0) : Type 0 where
  pub public_id : String
  pub decision : SafetyDecision Score

-- What the service reads of a serialized handoff; its summary's fields are empty without a summary.
pub record HandoffView : Type 0 where
  pub handoff_id : String
  pub status : HandoffStatus
  pub confirmed_fields : List String
  pub unconfirmed_fields : List String

-- The calls of the preflight, over the rows of the database: `HandoffService.get`, of which the
-- status is read, `cancel` and `request_handoff`, `SafetyAuditService.evaluate_and_record`, the
-- store's `set`, the detector's `detect`, and Python's `casefold`.
pub record Services (Score : Type 0) : Type 1 where
  pub World : Type 0
  pub casefold : String → String
  pub detect : String → List Signal
  pub get : String → World → Result HandoffStatus
  pub cancel : String → World → Result (World × CancellationResult)
  pub evaluate_and_record : Context Score → World → Result (World × Recorded Score)
  pub request_handoff : SafetyDecision Score → SessionState → World → Result (World × HandoffView)
  pub store_set : SessionState → World → Result (World × SessionState)

-- The message, and what was found out about it before. `has_metadata` is whether the caller gave
-- confidence values, and `confidence` the metadata of these or else of the parsed ones.
pub record Message (Score : Type 0) : Type 0 where
  pub text : String
  pub has_metadata : Bool
  pub confidence : ConfidenceMetadata Score
  pub extra_signals : List Signal
  pub required_confirmations : List String

-- `_guarded_result`: the answer that stands in for the order's. Its trace is kept by the decision,
-- or by the cancellation.
pub data Guarded (Score : Type 0) : Type 0 where
  cancelled : CancellationResult → String → Guarded Score
  decided : SafetyDecision Score → String → Guarded Score

-- `_apply_safety_state`
unfoldable pub apply_safety_state : {Score : Type 0} → Recorded Score → SessionState → SessionState
apply_safety_state recorded state = record state {
  safety_classification = recorded.decision.classification;
  safety_reason_code = recorded.decision.reason_code;
  safety_decision_id = some recorded.public_id;
  safety_blocked_actions = recorded.decision.blocked_actions;
  unconfirmed_fields = recorded.decision.required_confirmations;
}

-- `_apply_handoff_state`
unfoldable pub apply_handoff_state : HandoffView → SessionState → SessionState
apply_handoff_state handoff state = record state {
  handoff_public_id = some handoff.handoff_id;
  handoff_status = handoff.status;
  confirmed_fields = handoff.confirmed_fields;
  unconfirmed_fields = handoff.unconfirmed_fields;
}

-- `_apply_cancellation_state`
unfoldable pub apply_cancellation_state : CancellationResult → SessionState → SessionState
apply_cancellation_state handoff state =
    if handoff.idempotent_replay && not handoff.requires_new_confirmation
    then state
    else record state {
      handoff_status = handoff.case_status;
      confirmation_valid = false;
      submitted = false;
      submitted_order_id = none;
      lifecycle_status = handoff.lifecycle_status;
      stage = "ordering";
      draft_version = handoff.draft_version;
      persistence_version = handoff.persistence_version;
      confirmed_fields = [];
      unconfirmed_fields =
          if member "final_order" state.unconfirmed_fields
          then state.unconfirmed_fields
          else state.unconfirmed_fields ++ "final_order" ∷ [];
      safety_blocked_actions =
          if handoff.may_continue_draft then [] else state.safety_blocked_actions;
    }

-- `_invalidate_confirmation_for_handoff`
unfoldable pub invalidate_confirmation_for_handoff : SessionState → SessionState
invalidate_confirmation_for_handoff state = record state {
  draft_version =
      if state.confirmation_valid || state.submitted
      then state.draft_version + 1
      else state.draft_version;
  confirmation_valid = false;
  submitted = false;
  submitted_order_id = none;
  lifecycle_status = OrderStatus.draft;
}

-- `blocking_statuses`
abbrev pub is_blocking : HandoffStatus → Bool
is_blocking HandoffStatus.requested = true
is_blocking HandoffStatus.pending = true
is_blocking HandoffStatus.simulated_agent_assigned = true
is_blocking HandoffStatus.simulated_agent_connected = true
is_blocking HandoffStatus.failed = true
is_blocking _ = false

-- `safety_reason_code not in {None, "EXPLICIT_HUMAN_REQUEST"}`
unfoldable pub is_mandatory : ReasonCode → Bool
unfolding eq_reason
is_mandatory (handoff_reason r) = not (eq_reason r HandoffReasonCode.explicit_human_request)
is_mandatory (refusal_reason r) = true

-- `mandatory_cancelled`
abbrev pub is_mandatory_cancelled : HandoffStatus → ReasonCode → Bool
is_mandatory_cancelled HandoffStatus.cancelled reason = is_mandatory reason
is_mandatory_cancelled _ reason = false

-- The signal that a reason's text is.
abbrev pub signal_of : ReasonCode → Signal
signal_of (handoff_reason r) = handoff_signal r
signal_of (refusal_reason r) = refusal_signal r

-- Whether the reason of the session is signalled again.
unfoldable pub holds_session : HandoffStatus → ReasonCode → Bool
unfolding is_mandatory
holds_session status reason = is_blocking status || is_mandatory_cancelled status reason

-- What `signals.add(state.safety_reason_code)` adds. A signal may be listed twice, which changes no
-- decision.
unfoldable pub held_signals : SessionState → List Signal
unfolding holds_session
held_signals state = elim state.safety_reason_code [
  | none ↦ []
  | some reason ↦ if holds_session state.handoff_status reason then signal_of reason ∷ [] else []
]
