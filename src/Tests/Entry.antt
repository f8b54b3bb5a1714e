-- ===== src/Tests/Entry.antt =====
-- A customer with an open allergy case goes on ordering.
use order_agent.Prelude.{ℕ, ◌+◌, ◌≡◌, ◌⊎◌, refl, true, false, String, Option, none, some, [], ◌∷◌}
use order_agent.Enums.{OrderStatus, DecisionClass, HandoffReasonCode, handoff_reason, HandoffStatus}
use order_agent.Errors.{Result, ok, err, handoff_not_found}
use order_agent.State.{SessionState, new_state}
use order_agent.Safety.Decision.{
  SafetyCounters, Context, SafetyDecision, signal_risk_ids, signal_metric_ids,
}
use order_agent.Safety.Counters.{advance_counters, evaluate_and_record, or_new, no_counters}
use order_agent.Handoff.Cancel.{CancellationResult}
use order_agent.Entry.{Recorded, Services, Message, cancelled, decided, holds_session}
use order_agent.Entry.Preflight.{handle_safety_preflight}
use order_agent.Entry.Blocked.{DecidesByPolicy, KeepsSession, IsStopped, preflight-held}
use order_agent.Tests.Safety.{percent, settings, unsure}

abbrev recorded :
    SafetyCounters × Result (SafetyDecision ℕ) → Result (Option SafetyCounters × Recorded ℕ)
recorded (counters, err e) = err e
recorded (counters, ok d) = ok (some counters, record { public_id = "SIM-SD-1"; decision = d })

abbrev audit : Context ℕ → Option SafetyCounters → Result (Option SafetyCounters × Recorded ℕ)
audit c stored = recorded (evaluate_and_record percent settings c stored)

-- The rows are the counters of the session.
abbrev services : Services ℕ
services = record {
  World = Option SafetyCounters;
  casefold = λ text. text;
  detect = λ text. [];
  get = λ id world. ok HandoffStatus.pending;
  cancel = λ id world. err handoff_not_found;
  evaluate_and_record = audit;
  request_handoff = λ d state world. ok (
    world,
    record {
      handoff_id = "SIM-HO-1";
      status = HandoffStatus.pending;
      confirmed_fields = [];
      unconfirmed_fields = "final_order" ∷ [];
    },
  );
  store_set = λ state world.
      ok (world, record state { persistence_version = state.persistence_version + 1 });
}

recorded_decision :
    (counters : SafetyCounters) (result : Result (SafetyDecision ℕ)) {world : Option SafetyCounters}
    {r : Recorded ℕ}
    → recorded (counters, result) ≡ ok (world, r)
    → result ≡ ok r.decision
recorded_decision counters (err e) h = cc
recorded_decision counters (ok d) h = cc

audit_decides : DecidesByPolicy percent settings services
unfolding evaluate_and_record
audit_decides c world world' r made =
    (advance_counters percent settings c (or_new world), recorded_decision _ _ made)

store_keeps : KeepsSession percent services
store_keeps state world world' state' made = (state.persistence_version + 1, cc)

abbrev held_state : SessionState
held_state = record new_state {
  confirmation_valid = true;
  lifecycle_status = OrderStatus.customer_confirmed;
  safety_classification = DecisionClass.handoff;
  safety_reason_code = some (handoff_reason HandoffReasonCode.severe_allergy);
  handoff_public_id = some "SIM-HO-1";
  handoff_status = HandoffStatus.requested;
}

abbrev message : Message ℕ
message = record {
  text = "再来一份";
  has_metadata = false;
  confidence = unsure;
  extra_signals = [];
  required_confirmations = [];
}

abbrev allergy_decision : SafetyDecision ℕ
allergy_decision = record {
  classification = DecisionClass.handoff;
  reason_code = some (handoff_reason HandoffReasonCode.severe_allergy);
  confidence = some 40;
  required_confirmations = [];
  blocked_actions = "SUBMIT_TO_MERCHANT" ∷ "MARK_MERCHANT_ACCEPTED" ∷ "TAKE_PAYMENT" ∷ [];
  risk_ids = "RISK-009" ∷ "RISK-011" ∷ "RISK-013" ∷ [];
  metric_ids = "METRIC-011" ∷ "METRIC-012" ∷ "METRIC-006" ∷ "METRIC-014" ∷ [];
  explanation_code = "SIMULATED_HANDOFF_REQUIRED";
}

abbrev frozen_state : SessionState
frozen_state = record held_state {
  handoff_status = HandoffStatus.pending;
  draft_version = 2;
  confirmation_valid = false;
  lifecycle_status = OrderStatus.draft;
  safety_decision_id = some "SIM-SD-1";
  safety_blocked_actions = allergy_decision.blocked_actions;
  unconfirmed_fields = "final_order" ∷ [];
  persistence_version = 1;
}

abbrev counted : SafetyCounters
counted = record no_counters { consecutive_low_confidence = 1 }

allergy_holds :
    holds_session HandoffStatus.pending (handoff_reason HandoffReasonCode.severe_allergy) ≡ true
unfolding holds_session
allergy_holds = refl

message_is_held :
    handle_safety_preflight services message held_state none
    ≡ ok (
      some counted,
      (frozen_state, some (decided allergy_decision "已请求模拟人工接管（不是真实人工）；当前订单已冻结且不会自动提交。")),
    )
unfolding handle_safety_preflight evaluate_and_record holds_session signal_risk_ids
    signal_metric_ids
message_is_held = refl

preflight-held_example :
    ((result : CancellationResult) × (text : String) × (some
          (decided allergy_decision "已请求模拟人工接管（不是真实人工）；当前订单已冻结且不会自动提交。")
        ≡ some (cancelled result text)))
    ⊎ ((d : SafetyDecision ℕ) × (text : String) × (some
            (decided allergy_decision "已请求模拟人工接管（不是真实人工）；当前订单已冻结且不会自动提交。")
          ≡ some (decided d text))
        × IsStopped percent frozen_state d)
preflight-held_example =
    preflight-held percent settings services message held_state none "SIM-HO-1"
      HandoffStatus.pending (handoff_reason HandoffReasonCode.severe_allergy) audit_decides
      store_keeps refl refl refl allergy_holds message_is_held
