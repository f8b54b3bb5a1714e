-- ===== src/Confirmation/Outcome.antt =====
-- What a confirmation does to the session.
use order_agent.Prelude.{
  ◌≡◌, refl, inl, inr, Bool, true, false, ◌||◌, Option, none, some, [], arith, Option-cases,
  if◌then◌else◌,
}
use order_agent.Enums.{MerchantStatus, OrderStatus}
use order_agent.State.{MenuItem, SessionState}
use order_agent.Menu.{Menu}
use order_agent.Cart.Totals.{SubmissionProblem, is_given, validate_before_submit}
use order_agent.Cart.Totals.Submission.{IsComplete, validate_before_submit_iff}
use order_agent.Confirmation.{
  Pending, Reply, apply_patch, add_conditional, add_category_items, remove_category_items,
  clear_order, conditional_order, other_action, handle_pending_action, handled_action,
  problem_patch, confirm, handle, reply,
}

-- The session once the reply's patch is applied.
abbrev pub after : SessionState → Reply → SessionState
after state r = apply_patch state r.patch

add_conditional-submitted :
    (state : SessionState) (quantity : _) (unit : _) (options : _) (found : Option MenuItem)
    → (after state (add_conditional state quantity unit options found)).submitted ≡ state.submitted
unfolding apply_patch
add_conditional-submitted state quantity unit options none = refl
add_conditional-submitted state quantity unit options (some item) = refl

some_reply : {a b : Reply} → some a ≡ some b → a ≡ b
some_reply h = cc

pending-submitted :
    (menu : Menu) (state : SessionState) (pending : Option Pending) {r : Reply}
    → handled_action menu state pending ≡ some r
    → (after state r).submitted ≡ state.submitted
unfolding handle_pending_action apply_patch
pending-submitted menu state none h = cc
pending-submitted menu state (some (add_category_items names quantity)) h = rw (← some_reply h) refl
pending-submitted menu state (some (remove_category_items category)) h = rw (← some_reply h) refl
pending-submitted menu state (some clear_order) h = rw (← some_reply h) refl
pending-submitted menu state (some (conditional_order name quantity unit options)) h =
    rw (← some_reply h) (add_conditional-submitted state quantity unit options _)
pending-submitted menu state (some other_action) h = cc

problem-submitted :
    (state : SessionState) (problem : SubmissionProblem)
    → (apply_patch state (problem_patch problem)).submitted ≡ state.submitted
unfolding apply_patch
problem-submitted state SubmissionProblem.empty_order = refl
problem-submitted state SubmissionProblem.missing_address = refl
problem-submitted state SubmissionProblem.missing_phone = refl

-- The part of a session that a confirmation settles.
abbrev pub IsConfirmed : SessionState → Type 0
IsConfirmed state =
    (state.submitted ≡ true)
    × (state.stage ≡ "submitted")
    × (state.confirmation_valid ≡ true)
    × (state.lifecycle_status ≡ OrderStatus.customer_confirmed)
    × (state.merchant_status ≡ MerchantStatus.not_integrated)
    × (is_given state.submitted_order_id ≡ true)

confirm-IsConfirmed :
    (state : SessionState)
    → validate_before_submit state ≡ none
    → IsConfirmed (after state (confirm state))
      × ((after state (confirm state)).current_order ≡ state.current_order)
unfolding confirm apply_patch
confirm-IsConfirmed state h = rw (confirm, h) ((refl, refl, refl, refl, refl, refl), refl)

confirm-submitted :
    (state : SessionState)
    → state.submitted ≡ false
    → (after state (confirm state)).submitted ≡ true
    → validate_before_submit state ≡ none
unfolding confirm
confirm-submitted state before now = elim (Option-cases (validate_before_submit state)) [
  | inl complete ↦ complete
  | inr (problem, found) ↦
      let kept : (after state (confirm state)).submitted ≡ state.submitted =
        rw (confirm, found) (problem-submitted state problem) in
      cc
]

-- The reply of `handle`, as a function of its two tests.
abbrev choose : Bool → Option Reply → Reply → Reply
choose done handled confirmed =
    if done
    then reply "order_already_submitted" []
    else elim handled [ some r ↦ r | none ↦ confirmed ]

choose-none :
    {done : Bool} {handled : Option Reply} (confirmed : Reply)
    → done ≡ false
    → handled ≡ none
    → choose done handled confirmed ≡ confirmed
choose-none confirmed open_session idle = rw (open_session, idle) refl

handle-confirm :
    (menu : Menu) (pending : Option Pending) (state : SessionState)
    → state.submitted ≡ false
    → is_given state.submitted_order_id ≡ false
    → handled_action menu state pending ≡ none
    → handle menu pending state ≡ confirm state
unfolding handle
handle-confirm menu pending state before fresh idle =
    choose-none {done = state.submitted || is_given state.submitted_order_id} (confirm state)
      (ground (arith, before, fresh)) idle

choose-submitted :
    (state : SessionState) (done : Bool) (handled : Option Reply) (confirmed : Reply)
    → state.submitted ≡ false
    → ((r : Reply) → handled ≡ some r → (after state r).submitted ≡ state.submitted)
    → (after state (choose done handled confirmed)).submitted ≡ true
    → (done ≡ false) × (handled ≡ none) × ((after state confirmed).submitted ≡ true)
unfolding apply_patch
choose-submitted state true handled confirmed before kept now = cc
choose-submitted state false (some r) confirmed before kept now = cc (kept r refl)
choose-submitted state false none confirmed before kept now = (refl, refl, now)

-- A confirmation submits a session's order just if the session has no order number yet, no pending
-- action was carried out in its place, and the order is complete: it has a line and, for delivery, an
-- address and a phone number. The session is then confirmed, with its lines as they were, and as one
-- that no restaurant has received.
pub handle_lem :
    (menu : Menu) (pending : Option Pending) (state : SessionState)
    → state.submitted ≡ false
    → ((after state (handle menu pending state)).submitted ≡ true
        → (is_given state.submitted_order_id ≡ false)
          × (handled_action menu state pending ≡ none)
          × IsComplete state)
      × (is_given state.submitted_order_id ≡ false
          → handled_action menu state pending ≡ none
          → IsComplete state
          → IsConfirmed (after state (handle menu pending state))
            × ((after state (handle menu pending state)).current_order ≡ state.current_order))
unfolding handle
handle_lem menu pending state before = (
  λ now.
      let (opened, idle, submits) =
        choose-submitted state (state.submitted || is_given state.submitted_order_id)
          (handled_action menu state pending) (confirm state) before
          (λ r e. pending-submitted menu state pending e) now in
      (
        ground (arith, opened, before),
        idle,
        (validate_before_submit_iff state).0 (confirm-submitted state before submits),
      ),
  λ fresh idle complete.
      rw (handle-confirm menu pending state before fresh idle)
        (confirm-IsConfirmed state ((validate_before_submit_iff state).1 complete)),
)
