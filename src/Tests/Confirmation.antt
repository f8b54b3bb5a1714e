-- ===== src/Tests/Confirmation.antt =====
-- A complete order that is confirmed, and a question that is answered first.
use order_agent.Prelude.{◌≡◌, refl, true, false, some, none, []}
use order_agent.Cart.Totals.{is_given}
use order_agent.Cart.Totals.Submission.{IsComplete}
use order_agent.Confirmation.{clear_order, handled_action, handle, apply_patch}
use order_agent.Confirmation.Outcome.{after, IsConfirmed, handle_lem}
use order_agent.Tests.Menu.{menu}
use order_agent.Tests.Cart.{state}

confirmed_state : IsConfirmed (after state (handle menu none state))
unfolding handle apply_patch
confirmed_state = (refl, refl, refl, refl, refl, refl)

-- The question whether to clear the order was answered.
cleared : (after state (handle menu (some clear_order) state)).current_order ≡ []
unfolding handle apply_patch
cleared = refl

handle_lem_example :
    ((after state (handle menu none state)).submitted ≡ true
      → (is_given state.submitted_order_id ≡ false)
        × (handled_action menu state none ≡ none)
        × IsComplete state)
    × (is_given state.submitted_order_id ≡ false
        → handled_action menu state none ≡ none
        → IsComplete state
        → IsConfirmed (after state (handle menu none state))
          × ((after state (handle menu none state)).current_order ≡ state.current_order))
handle_lem_example = handle_lem menu none state refl
