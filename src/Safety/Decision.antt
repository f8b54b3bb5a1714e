-- ===== src/Safety/Decision.antt =====
-- `SafetyDecisionService.evaluate` of backend/app/services/safety_decision_service.py.
pub mod Classes
pub mod Reasons
use order_agent.Prelude.{
  ℕ, Bool, true, false, not, ◌&&◌, ◌||◌, String, Option, none, some, List, [], ◌∷◌, ◌++◌, map, leb,
  if◌then◌else◌,
}
use order_agent.Prelude.Text.{unique}
use order_agent.Enums.{
  DecisionClass, HandoffReasonCode, RefusalReasonCode, ReasonCode, handoff_reason, refusal_reason,
  reason_rank, refusal_rank,
}
use order_agent.Errors.{Result, ok, err, value_error}
use order_agent.Safety.Confidence.{
  Scale, ConfidenceField, intent, item, quantity, modifier, address, phone, overall, Settings,
  ConfidenceMetadata, effective_overall,
}
use order_agent.Safety.Signals.{
  Signal, handoff_reasons, refusal_reasons, confirmation_fields, has_handoff, has_refusal,
  has_final_order,
}

-- `SafetyCounters`
pub record SafetyCounters : Type 0 where
  pub consecutive_low_confidence : ℕ
  pub consecutive_misunderstandings : ℕ
  pub consecutive_corrections : ℕ
  pub confirmation_failures : ℕ

-- `SafetyEvaluationContext`
pub record Context (Score : Type 0) : Type 0 where
  pub signals : List Signal
  pub requested_action : String
  pub required_confirmations : List String
  pub confidence : ConfidenceMetadata Score
  pub counters : SafetyCounters
  pub deterministic_input : Bool
  pub risk_ids : List String
  pub metric_ids : List String

-- `SafetyDecision`
pub record SafetyDecision (Score : Type 0) : Type 0 where
  pub classification : DecisionClass
  pub reason_code : Option ReasonCode
  pub confidence : Option Score
  pub required_confirmations : List String
  pub blocked_actions : List String
  pub risk_ids : List String
  pub metric_ids : List String
  pub explanation_code : String

-- DEFAULT_BLOCKED_ACTIONS
abbrev pub default_blocked_actions : List String
default_blocked_actions = "SUBMIT_TO_MERCHANT" ∷ "MARK_MERCHANT_ACCEPTED" ∷ "TAKE_PAYMENT" ∷ []

abbrev pub is_nil {ℓ} : {A : Type ℓ} → List A → Bool
is_nil [] = true
is_nil (x ∷ xs) = false

abbrev has_reason : Option ReasonCode → Bool
has_reason none = false
has_reason (some r) = true

-- `SafetyDecision.__post_init__`
check_decision :
    {Score : Type 0} → DecisionClass → SafetyDecision Score → Result (SafetyDecision Score)
check_decision DecisionClass.handoff d = if has_reason d.reason_code then ok d else err value_error
check_decision DecisionClass.refuse d = if has_reason d.reason_code then ok d else err value_error
check_decision DecisionClass.confirm d =
    if is_nil d.required_confirmations then err value_error else ok d
check_decision DecisionClass.auto_draft d = ok d

abbrev append_if : Bool → List String → List String → List String
append_if b new old = if b then old ++ new else old

-- `_risk_ids`
unfoldable pub signal_risk_ids : List Signal → List String
signal_risk_ids ss =
    append_if
      (has_refusal RefusalReasonCode.card_data_storage ss
        || has_refusal RefusalReasonCode.internal_secret_extraction ss
        || has_refusal RefusalReasonCode.security_attack ss
        || has_handoff HandoffReasonCode.abuse_or_security ss)
      ("RISK-029" ∷ "RISK-037" ∷ "RISK-046" ∷ [])
      (append_if
        (has_refusal RefusalReasonCode.bypass_confirmation ss
          || has_refusal RefusalReasonCode.forge_merchant_acceptance ss)
        ("RISK-007" ∷ "RISK-008" ∷ "RISK-033" ∷ [])
        (append_if
          (has_refusal RefusalReasonCode.cross_tenant_access ss
            || has_refusal RefusalReasonCode.unauthorized_order_access ss)
          ("RISK-026" ∷ "RISK-028" ∷ "RISK-030" ∷ "RISK-031" ∷ [])
          (append_if
            (has_handoff HandoffReasonCode.severe_allergy ss
              || has_handoff HandoffReasonCode.cross_contamination ss
              || has_refusal RefusalReasonCode.unsupported_safety_guarantee ss)
            ("RISK-009" ∷ "RISK-011" ∷ "RISK-013" ∷ []) [])))

-- `_metric_ids`
unfoldable pub signal_metric_ids : List Signal → List String
signal_metric_ids ss =
    append_if
      (has_refusal RefusalReasonCode.cross_tenant_access ss
        || has_refusal RefusalReasonCode.unauthorized_order_access ss)
      ("METRIC-004" ∷ "METRIC-005" ∷ [])
      (append_if (has_refusal RefusalReasonCode.bypass_confirmation ss || has_final_order ss)
        ("METRIC-001" ∷ "METRIC-002" ∷ [])
        (append_if
          (has_handoff HandoffReasonCode.severe_allergy ss
            || has_handoff HandoffReasonCode.cross_contamination ss)
          ("METRIC-006" ∷ "METRIC-014" ∷ []) ("METRIC-011" ∷ "METRIC-012" ∷ [])))

insert_refusal : RefusalReasonCode → List RefusalReasonCode → List RefusalReasonCode
insert_refusal r [] = r ∷ []
insert_refusal r (s ∷ ss) =
    if leb (refusal_rank r) (refusal_rank s) then r ∷ s ∷ ss else s ∷ insert_refusal r ss

-- `sorted(…, key=lambda reason: REFUSAL_PRIORITY[reason.value])`
sort_refusals : List RefusalReasonCode → List RefusalReasonCode
unfolding insert_refusal
sort_refusals [] = []
sort_refusals (r ∷ rs) = insert_refusal r (sort_refusals rs)

-- `min(handoff_reasons, key=lambda item: REASON_PRIORITY[item.value])`
first_reason : HandoffReasonCode → List HandoffReasonCode → HandoffReasonCode
first_reason best [] = best
first_reason best (r ∷ rs) =
    first_reason (if leb (reason_rank best) (reason_rank r) then best else r) rs

-- `name.removesuffix("_confidence")`
abbrev base_name : ConfidenceField → String
base_name intent = "intent"
base_name item = "item"
base_name quantity = "quantity"
base_name modifier = "modifier"
base_name address = "address"
base_name phone = "phone"
base_name overall = "overall"

module _ (scale : Scale) where
  open scale use {Score, below}

  -- Whether a counter has reached its limit.
  unfoldable pub exceeds : Settings Score → SafetyCounters → Bool
  exceeds s c =
      leb s.max_consecutive_misunderstandings c.consecutive_misunderstandings
      || leb s.max_consecutive_misunderstandings c.consecutive_corrections
      || leb s.max_consecutive_misunderstandings c.consecutive_low_confidence
      || leb s.max_confirmation_failures c.confirmation_failures

  -- `handoff_reasons`, with the one that the counters add.
  unfoldable pub all_handoff_reasons : Settings Score → Context Score → List HandoffReasonCode
  unfolding exceeds handoff_reasons
  all_handoff_reasons s c =
      let reasons = handoff_reasons c.signals in
      if exceeds s c.counters
      then reasons ++ HandoffReasonCode.repeated_misunderstanding ∷ []
      else reasons

  -- What a missing or low confidence asks for.
  abbrev confidence_fields : Settings Score → Bool → Option Score → List String
  confidence_fields s deterministic none = if deterministic then [] else "intent" ∷ []
  confidence_fields s deterministic (some v) =
      if below v s.confirm_threshold then "low_confidence_input" ∷ [] else []

  -- `required`
  unfoldable pub required_fields : Settings Score → Context Score → List String
  unfolding confirmation_fields effective_overall
  required_fields s c =
      c.required_confirmations
      ++ (confirmation_fields c.signals
          ++ (map base_name c.confidence.contradictory_fields
              ++ confidence_fields s c.deterministic_input (effective_overall scale c.confidence)))

  -- The fields that the four decisions share.
  abbrev decision :
      Context Score
      → DecisionClass
      → Option ReasonCode
      → List String
      → List String
      → String
      → Result (SafetyDecision Score)
  decision c class reason required blocked explanation = check_decision class (record {
    classification = class;
    reason_code = reason;
    confidence = effective_overall scale c.confidence;
    required_confirmations = required;
    blocked_actions = blocked;
    risk_ids = unique (c.risk_ids ++ signal_risk_ids c.signals);
    metric_ids = unique (c.metric_ids ++ signal_metric_ids c.signals);
    explanation_code = explanation;
  })

  confirm_or_draft : Context Score → List String → Result (SafetyDecision Score)
  unfolding check_decision
  confirm_or_draft c [] =
      decision c DecisionClass.auto_draft none [] default_blocked_actions
        "REVERSIBLE_DRAFT_OPERATION_ALLOWED"
  confirm_or_draft c (f ∷ fs) =
      decision c DecisionClass.confirm none (unique (f ∷ fs)) default_blocked_actions
        "EXPLICIT_CONFIRMATION_REQUIRED"

  handoff_or_less :
      Settings Score → Context Score → List HandoffReasonCode → Result (SafetyDecision Score)
  unfolding first_reason confirm_or_draft required_fields check_decision
  handoff_or_less s c [] = confirm_or_draft c (required_fields s c)
  handoff_or_less s c (r ∷ rs) =
      decision c DecisionClass.handoff (some (handoff_reason (first_reason r rs))) []
        default_blocked_actions "SIMULATED_HANDOFF_REQUIRED"

  refuse_or_less :
      Settings Score → Context Score → List RefusalReasonCode → Result (SafetyDecision Score)
  unfolding handoff_or_less all_handoff_reasons check_decision
  refuse_or_less s c [] = handoff_or_less s c (all_handoff_reasons s c)
  refuse_or_less s c (r ∷ rs) =
      decision c DecisionClass.refuse (some (refusal_reason r)) []
        (c.requested_action ∷ default_blocked_actions) "SAFETY_OPERATION_REFUSED"

  -- `evaluate`
  unfoldable pub evaluate : Settings Score → Context Score → Result (SafetyDecision Score)
  unfolding refuse_or_less sort_refusals refusal_reasons
  evaluate s c = refuse_or_less s c (sort_refusals (refusal_reasons c.signals))
