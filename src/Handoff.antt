-- ===== src/Handoff.antt =====
-- Simulated handoffs to a human agent: backend/app/services/handoff_service.py. `Case` has the case
-- and its transitions, `Request` the creation and reuse of a case, `Cancel` the effects of a
-- cancellation on the order and the session. The rows that a method loads in its unit of work are
-- its arguments, and it returns them as it leaves them; an error rolls all of them back.
pub mod Case
pub mod Request
pub mod Cancel
pub mod Service
