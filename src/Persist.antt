-- ===== src/Persist.antt =====
-- Order persistence: backend/app/services/order_persistence_service.py.
pub mod Request
pub mod Database
pub mod Fingerprint
pub mod Draft
pub mod Confirm
pub mod Invalidate
pub mod Service
