-- ===== src/Tests/Safety.antt =====
-- The policy on a scale of whole percents.
use order_agent.Prelude.{ℕ, ◌≤◌, ◌≡◌, refl, true, false, none, some, [], ◌∷◌, ltb, leb}
use order_agent.Enums.{handoff_reason, DecisionClass, HandoffReasonCode, reason_rank}
use order_agent.Errors.{ok, err, value_error}
use order_agent.Safety.Confidence.{Scale, Settings, ConfidenceMetadata, check_settings}
use order_agent.Safety.Signals.{
  handoff_signal, confirmation_signal, misunderstanding, understood, final_order, refusal_reasons,
}
use order_agent.Safety.Decision.{
  Context, SafetyDecision, all_handoff_reasons, required_fields, signal_risk_ids, signal_metric_ids,
  evaluate,
}
use order_agent.Safety.Decision.Classes.{class_of, IsSound, evaluate_total}
use order_agent.Safety.Decision.Reasons.{lists, evaluate-reason, evaluate-explicit}
use order_agent.Safety.Counters.{no_counters}

abbrev pub percent : Scale
percent = record { Score = ℕ; below = ltb; at_most = leb; zero = 0; one = 100 }

-- The defaults of the configuration.
abbrev pub settings : Settings ℕ
settings = record {
  high_confidence = 85;
  confirm_threshold = 65;
  handoff_threshold = 35;
  max_consecutive_misunderstandings = 2;
  max_confirmation_failures = 2;
}

settings_pass : check_settings percent settings ≡ ok settings
unfolding check_settings
settings_pass = refl

zero_limit_fails :
    check_settings percent (record settings { max_confirmation_failures = 0 }) ≡ err value_error
unfolding check_settings
zero_limit_fails = refl

abbrev pub unsure : ConfidenceMetadata ℕ
unsure = record {
  intent_confidence = some 90;
  item_confidence = some 40;
  quantity_confidence = none;
  modifier_confidence = none;
  address_confidence = none;
  phone_confidence = none;
  overall_confidence = none;
  contradictory_fields = [];
}

abbrev context : Context ℕ
context = record {
  signals = confirmation_signal final_order ∷ [];
  requested_action = "SUBMIT";
  required_confirmations = [];
  confidence = unsure;
  counters = no_counters;
  deterministic_input = false;
  risk_ids = [];
  metric_ids = [];
}

evaluate_total_example :
    (d : SafetyDecision ℕ) × (evaluate percent settings context ≡ ok d)
    × (d.classification ≡ class_of percent settings context)
    × IsSound percent d
evaluate_total_example = evaluate_total percent settings context

is_confirmation : class_of percent settings context ≡ DecisionClass.confirm
unfolding refusal_reasons all_handoff_reasons required_fields
is_confirmation = refl

-- A customer with an allergy asks for a human.
abbrev allergy_context : Context ℕ
allergy_context = record context {
  signals =
      handoff_signal HandoffReasonCode.severe_allergy
      ∷ handoff_signal HandoffReasonCode.explicit_human_request
      ∷ [];
}

abbrev human_decision : SafetyDecision ℕ
human_decision = record {
  classification = DecisionClass.handoff;
  reason_code = some (handoff_reason HandoffReasonCode.explicit_human_request);
  confidence = some 40;
  required_confirmations = [];
  blocked_actions = "SUBMIT_TO_MERCHANT" ∷ "MARK_MERCHANT_ACCEPTED" ∷ "TAKE_PAYMENT" ∷ [];
  risk_ids = "RISK-009" ∷ "RISK-011" ∷ "RISK-013" ∷ [];
  metric_ids = "METRIC-011" ∷ "METRIC-012" ∷ "METRIC-006" ∷ "METRIC-014" ∷ [];
  explanation_code = "SIMULATED_HANDOFF_REQUIRED";
}

hands_off : evaluate percent settings allergy_context ≡ ok human_decision
unfolding evaluate reason_rank signal_risk_ids signal_metric_ids
hands_off = refl

evaluate-reason_example :
    (named : HandoffReasonCode) × (human_decision.reason_code ≡ some (handoff_reason named))
    × (lists named (all_handoff_reasons percent settings allergy_context) ≡ true)
    × (reason_rank named ≤ reason_rank HandoffReasonCode.severe_allergy)
unfolding refusal_reasons all_handoff_reasons reason_rank
evaluate-reason_example =
    evaluate-reason percent settings allergy_context HandoffReasonCode.severe_allergy refl refl
      hands_off

evaluate-explicit_example :
    human_decision.reason_code ≡ some (handoff_reason HandoffReasonCode.explicit_human_request)
unfolding refusal_reasons all_handoff_reasons reason_rank
evaluate-explicit_example = evaluate-explicit percent settings allergy_context refl refl hands_off

-- The second misunderstanding in a row.
abbrev lost_context : Context ℕ
lost_context = record context { signals = misunderstanding ∷ [] }

abbrev clear_context : Context ℕ
clear_context = record context { signals = understood ∷ [] }
