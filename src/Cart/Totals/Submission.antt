-- ===== src/Cart/Totals/Submission.antt =====
-- When an order can be submitted.
use order_agent.Prelude.{◌≡◌, ◌≢◌, true, none, [], arith, ◌∷◌, List, eq_iff, refl}
use order_agent.State.{OrderItem, SessionState}
use order_agent.Cart.Totals.{is_given, submission_problem, validate_before_submit}

-- What an order needs to be submitted.
abbrev pub IsComplete : SessionState → Type 0
IsComplete state =
    (state.current_order ≢ [])
    × (state.fulfillment_type ≡ "delivery"
        → (is_given state.official_delivery_address ≡ true) × (is_given state.phone ≡ true))

submission_problem_lem :
    (order : List OrderItem) (state : SessionState)
    → ((submission_problem order state ≡ none)
        → (order ≢ [])
          × (state.fulfillment_type ≡ "delivery"
              → (is_given state.official_delivery_address ≡ true) × (is_given state.phone ≡ true)))
      × ((order ≢ [])
          → (state.fulfillment_type ≡ "delivery"
              → (is_given state.official_delivery_address ≡ true) × (is_given state.phone ≡ true))
          → submission_problem order state ≡ none)
unfolding submission_problem
submission_problem_lem [] state = (λ e. cc, λ h. absurd (h refl))
submission_problem_lem (entry ∷ order) state = (
  λ e. (λ p. cc, λ d. ground (arith, eq_iff state.fulfillment_type "delivery")),
  λ h d. ground (arith, eq_iff state.fulfillment_type "delivery"),
)

-- An order passes the check before submission just if it has a line and, for delivery, both an
-- address and a phone number are given.
pub validate_before_submit_iff :
    (state : SessionState)
    → (validate_before_submit state ≡ none → IsComplete state)
      × (IsComplete state → validate_before_submit state ≡ none)
unfolding validate_before_submit
validate_before_submit_iff state =
    let (needs, suffices) = submission_problem_lem state.current_order state in
    (needs, λ h. suffices h.0 h.1)
