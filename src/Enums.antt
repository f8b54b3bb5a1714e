-- ===== src/Enums.antt =====
-- The status and reason types of backend/app/domain/enums.py. The database stores their values as
-- text under check constraints; the models keep the members.
use order_agent.Prelude.{ℕ, Bool, true, false, ◌==◌}

pub data OrderStatus : Type 0 where
  draft customer_confirmed submission_started merchant_pending merchant_accepted merchant_rejected
        submission_failed cancelled completed :
      OrderStatus

pub data MerchantStatus : Type 0 where
  not_integrated pending accepted rejected unknown : MerchantStatus

pub data ActorType : Type 0 where
  customer system merchant_fixture operator : ActorType

pub data DecisionClass : Type 0 where
  auto_draft confirm handoff refuse : DecisionClass

pub data HandoffReasonCode : Type 0 where
  explicit_human_request severe_allergy cross_contamination repeated_misunderstanding ambiguous_item
        ambiguous_quantity unverified_address price_unavailable menu_data_missing complaint
        refund_request payment_dispute merchant_rejected merchant_timeout system_failure
        language_unsupported abuse_or_security regulated_item :
      HandoffReasonCode

pub data RefusalReasonCode : Type 0 where
  cross_tenant_access unauthorized_order_access forge_merchant_acceptance bypass_confirmation
        card_data_storage unsupported_safety_guarantee internal_secret_extraction security_attack :
      RefusalReasonCode

-- What a safety decision names as its reason.
pub data ReasonCode : Type 0 where
  handoff_reason : HandoffReasonCode → ReasonCode
  refusal_reason : RefusalReasonCode → ReasonCode

pub data HandoffStatus : Type 0 where
  not_required requested pending simulated_agent_assigned simulated_agent_connected resolved failed
        cancelled :
      HandoffStatus

pub data HandoffFailureCode : Type 0 where
  no_agent_available queue_timeout assignment_failed connection_failed case_cancelled system_error :
      HandoffFailureCode

pub data HandoffActorType : Type 0 where
  customer orchestrator simulation_provider system : HandoffActorType

-- The place of a member in its enumeration: `REASON_PRIORITY` and `REFUSAL_PRIORITY`.
unfoldable pub reason_rank : HandoffReasonCode → ℕ
reason_rank HandoffReasonCode.explicit_human_request = 0
reason_rank HandoffReasonCode.severe_allergy = 1
reason_rank HandoffReasonCode.cross_contamination = 2
reason_rank HandoffReasonCode.repeated_misunderstanding = 3
reason_rank HandoffReasonCode.ambiguous_item = 4
reason_rank HandoffReasonCode.ambiguous_quantity = 5
reason_rank HandoffReasonCode.unverified_address = 6
reason_rank HandoffReasonCode.price_unavailable = 7
reason_rank HandoffReasonCode.menu_data_missing = 8
reason_rank HandoffReasonCode.complaint = 9
reason_rank HandoffReasonCode.refund_request = 10
reason_rank HandoffReasonCode.payment_dispute = 11
reason_rank HandoffReasonCode.merchant_rejected = 12
reason_rank HandoffReasonCode.merchant_timeout = 13
reason_rank HandoffReasonCode.system_failure = 14
reason_rank HandoffReasonCode.language_unsupported = 15
reason_rank HandoffReasonCode.abuse_or_security = 16
reason_rank HandoffReasonCode.regulated_item = 17

unfoldable pub refusal_rank : RefusalReasonCode → ℕ
refusal_rank RefusalReasonCode.cross_tenant_access = 0
refusal_rank RefusalReasonCode.unauthorized_order_access = 1
refusal_rank RefusalReasonCode.forge_merchant_acceptance = 2
refusal_rank RefusalReasonCode.bypass_confirmation = 3
refusal_rank RefusalReasonCode.card_data_storage = 4
refusal_rank RefusalReasonCode.unsupported_safety_guarantee = 5
refusal_rank RefusalReasonCode.internal_secret_extraction = 6
refusal_rank RefusalReasonCode.security_attack = 7

-- Equality of reason codes, by their places.
unfoldable pub eq_reason : HandoffReasonCode → HandoffReasonCode → Bool
unfolding reason_rank
eq_reason r s = reason_rank r == reason_rank s

abbrev pub eq_order_status : OrderStatus → OrderStatus → Bool
eq_order_status OrderStatus.draft OrderStatus.draft = true
eq_order_status OrderStatus.customer_confirmed OrderStatus.customer_confirmed = true
eq_order_status OrderStatus.submission_started OrderStatus.submission_started = true
eq_order_status OrderStatus.merchant_pending OrderStatus.merchant_pending = true
eq_order_status OrderStatus.merchant_accepted OrderStatus.merchant_accepted = true
eq_order_status OrderStatus.merchant_rejected OrderStatus.merchant_rejected = true
eq_order_status OrderStatus.submission_failed OrderStatus.submission_failed = true
eq_order_status OrderStatus.cancelled OrderStatus.cancelled = true
eq_order_status OrderStatus.completed OrderStatus.completed = true
eq_order_status _ _ = false
