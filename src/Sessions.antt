-- ===== src/Sessions.antt =====
-- The store of sessions: backend/app/state/session_store.py, with its rows.
pub mod Contact
pub mod Store
