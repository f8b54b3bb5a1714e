-- ===== src/Cart.antt =====
-- The draft order of a session: backend/app/services/order_service.py. `Lines` has the private
-- helpers of `OrderService`, `Add`, `Remove`, `Update` and `Replace` its operations by what they do
-- to the lines, `Totals` its sums and the check before submission. The methods that write the reply
-- text (`summarize_order`, `_visible_note`) are not modelled.
pub mod Lines
pub mod Add
pub mod Remove
pub mod Update
pub mod Replace
pub mod Totals
pub mod Positive
