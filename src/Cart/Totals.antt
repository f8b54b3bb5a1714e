-- ===== src/Cart/Totals.antt =====
-- `OrderService.total_price`, `subtotal_minor`, `validate_before_submit` and `submit_order`.
pub mod Submission
use order_agent.Prelude.{
  Bool, true, false, String, Option, none, some, List, [], ◌∷◌, if◌then◌else◌,
}
use order_agent.Prelude.Int.{ℤ, pos, ◌+ℤ◌, ◌*ℤ◌}
use order_agent.Prelude.Text.{str_eq}
use order_agent.State.{OrderItem, SessionState}
use order_agent.Cart.Lines.{is_empty}
use order_agent.Cart.Add.{minor_or_price}

unfoldable pub total_price : List OrderItem → ℤ
total_price [] = pos 0
total_price (entry ∷ order) = entry.price *ℤ entry.quantity +ℤ total_price order

-- The unit price of a line in minor units.
abbrev pub unit_minor : OrderItem → ℤ
unit_minor entry = minor_or_price entry.unit_price_minor entry.price

unfoldable pub subtotal_minor : List OrderItem → ℤ
subtotal_minor [] = pos 0
subtotal_minor (entry ∷ order) = unit_minor entry *ℤ entry.quantity +ℤ subtotal_minor order

-- Python's truth of an optional text.
abbrev pub is_given : Option String → Bool
is_given none = false
is_given (some s) = if is_empty s then false else true

-- Why an order cannot be submitted; the source returns a sentence for each.
pub data SubmissionProblem : Type 0 where
  empty_order missing_address missing_phone : SubmissionProblem

delivery_problem : SessionState → Option SubmissionProblem
delivery_problem state =
    if is_given state.official_delivery_address
    then (if is_given state.phone then none else some SubmissionProblem.missing_phone)
    else some SubmissionProblem.missing_address

submission_problem : List OrderItem → SessionState → Option SubmissionProblem
unfolding delivery_problem
submission_problem [] state = some SubmissionProblem.empty_order
submission_problem (entry ∷ order) state =
    if str_eq state.fulfillment_type "delivery" then delivery_problem state else none

-- `validate_before_submit`: `none` is `(True, None)`.
unfoldable pub validate_before_submit : SessionState → Option SubmissionProblem
unfolding submission_problem
validate_before_submit state = submission_problem state.current_order state

abbrev pub submit_order : SessionState → String
submit_order state = "MOCK-ORDER-0001"
