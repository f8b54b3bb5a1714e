-- ===== src/Safety.antt =====
-- The safety policy: `Scale` and `Confidence` have the confidence values and thresholds of
-- backend/app/domain/safety.py and backend/app/services/safety_policy_config.py, `Signals` the
-- signals of an utterance, `Decision` the policy of backend/app/services/
-- safety_decision_service.py, and `Counters` the counters of backend/app/services/
-- safety_audit_service.py.
pub mod Confidence
pub mod Signals
pub mod Decision
pub mod Counters
