-- ===== src/Confirmation.antt =====
-- `ConfirmationAgent` of backend/app/agents/confirmation_agent.py, and `_apply_patch` of
-- backend/app/agents/orchestrator.py, which writes an agent's patch to the session's state. The
-- messages to the customer are left out.
pub mod Outcome
use order_agent.Prelude.{
  Bool, true, false, ◌||◌, String, Option, none, some, List, [], ◌∷◌, keep, if◌then◌else◌,
}
use order_agent.Prelude.Int.{ℤ}
use order_agent.Prelude.Text.{member}
use order_agent.Enums.{OrderStatus, MerchantStatus}
use order_agent.State.{MenuItem, OrderItem, SessionState}
use order_agent.Menu.{Menu, find_item_by_name}
use order_agent.Cart.Add.{Spec, add_item, add_items}
use order_agent.Cart.Remove.{remove_category}
use order_agent.Cart.Totals.{SubmissionProblem, is_given, validate_before_submit, submit_order}

-- The dict of `pending_action`, by its type: the names and the quantity of each; the category; the
-- proposed dish with its quantity, unit and options. A missing list is empty.
pub data Pending : Type 0 where
  add_category_items : List String → Option ℤ → Pending
  remove_category_items : String → Pending
  clear_order : Pending
  conditional_order : Option String → Option ℤ → Option String → List String → Pending
  other_action : Pending

-- An entry of a patch.
pub data Change : Type 0 where
  set_current_order : List OrderItem → Change
  set_stage : String → Change
  set_last_mentioned_item : String → Change
  set_submitted : Bool → Change
  set_submitted_order_id : String → Change
  set_lifecycle_status : OrderStatus → Change
  set_merchant_status : MerchantStatus → Change
  set_confirmation_valid : Bool → Change
  set_last_mutation_confirmed : Bool → Change
  drop_pending_action : Change
  drop_last_mutation_snapshot : Change

abbrev pub apply_change : SessionState → Change → SessionState
apply_change state (set_current_order order) = record state { current_order = order }
apply_change state (set_stage name) = record state { stage = name }
apply_change state (set_last_mentioned_item name) = record state { last_mentioned_item = some name }
apply_change state (set_submitted b) = record state { submitted = b }
apply_change state (set_submitted_order_id id) = record state { submitted_order_id = some id }
apply_change state (set_lifecycle_status s) = record state { lifecycle_status = s }
apply_change state (set_merchant_status s) = record state { merchant_status = s }
apply_change state (set_confirmation_valid b) = record state { confirmation_valid = b }
apply_change state (set_last_mutation_confirmed b) = record state { last_mutation_confirmed = b }
apply_change state drop_pending_action = record state { pending_action = none }
apply_change state drop_last_mutation_snapshot = record state { last_mutation_snapshot = none }

-- `_apply_patch`
unfoldable pub apply_patch : SessionState → List Change → SessionState
apply_patch state [] = state
apply_patch state (change ∷ changes) = apply_patch (apply_change state change) changes

pub record Reply : Type 0 where
  pub handler : String
  pub patch : List Change

abbrev pub reply : String → List Change → Reply
reply handler patch = record { handler = handler; patch = patch }

abbrev pub category_spec : Option ℤ → MenuItem → Spec
category_spec quantity_each item = record {
  item = item;
  quantity = quantity_each;
  options = [];
  unit = none;
  notes = none;
  spicy_level = none;
  exclusions = [];
  source = some "confirm_order_category_items";
}

-- The loop over the names of a category; a name that is not in the menu is left out.
unfoldable pub category_specs : Menu → Option ℤ → List String → List Spec
unfolding find_item_by_name
category_specs menu quantity_each [] = []
category_specs menu quantity_each (name ∷ names) =
    let specs = category_specs menu quantity_each names in
    elim (find_item_by_name menu name) [
      | none ↦ specs
      | some item ↦ category_spec quantity_each item ∷ specs
    ]

-- The look-up of a name that may be missing.
unfoldable pub find_named : Menu → Option String → Option MenuItem
unfolding find_item_by_name
find_named menu none = none
find_named menu (some name) = find_item_by_name menu name

abbrev pub allowed_option : MenuItem → String → Bool
allowed_option item option = member option item.options || member option ("清淡" ∷ "不要太油" ∷ [])

abbrev pub conditional_spec : MenuItem → Option ℤ → Option String → List String → Spec
conditional_spec item quantity unit options = record {
  item = item;
  quantity = quantity;
  options = keep (allowed_option item) options;
  unit = unit;
  notes = none;
  spicy_level = none;
  exclusions = [];
  source = some "conditional_order";
}

-- The branch of a conditional order, for the dish that was found.
abbrev pub add_conditional :
    SessionState → Option ℤ → Option String → List String → Option MenuItem → Reply
add_conditional state quantity unit options none =
    reply "confirm_pending_action" (drop_pending_action ∷ [])
add_conditional state quantity unit options (some item) = reply "confirm_pending_action" (
    set_current_order (add_item state.current_order (conditional_spec item quantity unit options))
    ∷ drop_pending_action
    ∷ set_stage "ordering"
    ∷ set_last_mentioned_item item.name
    ∷ [])

-- `_handle_pending_action`. Adding no spec leaves the lines as they are.
unfoldable pub handle_pending_action : Menu → SessionState → Pending → Option Reply
unfolding add_items add_item remove_category category_specs find_named
handle_pending_action menu state (add_category_items names quantity_each) = some (
    reply "confirm_pending_action" (
      set_current_order (add_items state.current_order (category_specs menu quantity_each names))
      ∷ drop_pending_action
      ∷ set_stage "ordering"
      ∷ []))
handle_pending_action menu state (remove_category_items category) = some (
    reply "confirm_pending_action" (
      set_current_order (remove_category state.current_order category).0
      ∷ drop_pending_action
      ∷ []))
handle_pending_action menu state clear_order = some (
    reply "confirm_pending_action" (
      set_current_order []
      ∷ drop_pending_action
      ∷ set_stage "ordering"
      ∷ drop_last_mutation_snapshot
      ∷ set_last_mutation_confirmed false
      ∷ []))
handle_pending_action menu state (conditional_order name quantity unit options) =
    some (add_conditional state quantity unit options (find_named menu name))
handle_pending_action menu state other_action = none

-- `None` is a `pending_action` that is none or empty.
abbrev pub handled_action : Menu → SessionState → Option Pending → Option Reply
handled_action menu state none = none
handled_action menu state (some pending) = handle_pending_action menu state pending

abbrev pub problem_patch : SubmissionProblem → List Change
problem_patch SubmissionProblem.empty_order = []
problem_patch SubmissionProblem.missing_address = set_stage "collecting_address" ∷ []
problem_patch SubmissionProblem.missing_phone = set_stage "collecting_phone" ∷ []

abbrev pub submission_patch : String → List Change
submission_patch order_id =
    set_submitted true
    ∷ set_submitted_order_id order_id
    ∷ set_stage "submitted"
    ∷ set_lifecycle_status OrderStatus.customer_confirmed
    ∷ set_merchant_status MerchantStatus.not_integrated
    ∷ set_confirmation_valid true
    ∷ []

-- The part of `handle` after the pending action.
unfoldable pub confirm : SessionState → Reply
unfolding validate_before_submit
confirm state = elim (validate_before_submit state) [
  | some problem ↦ reply "confirm" (problem_patch problem)
  | none ↦ reply "submit_order" (submission_patch (submit_order state))
]

-- `handle`
unfoldable pub handle : Menu → Option Pending → SessionState → Reply
unfolding handle_pending_action confirm
handle menu pending state =
    if state.submitted || is_given state.submitted_order_id
    then reply "order_already_submitted" []
    else elim (handled_action menu state pending) [ some handled ↦ handled | none ↦ confirm state ]
