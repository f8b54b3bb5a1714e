-- ===== src/Tests.antt =====
-- The theorems applied at concrete rows, orders and requests, and runs of the models.
mod Lifecycle
mod Cart
mod Handoff
mod Service
mod Safety
mod Modifiers
mod Persist
mod Sessions
mod Menu
mod Confirmation
mod Publishing
mod Entry
mod Fallback
