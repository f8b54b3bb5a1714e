-- ===== src/Fallback/Convert.antt =====
-- `convert_llm_to_interpretation`: an interpretation is made of a proposal, or the proposal is
-- refused.
use order_agent.Prelude.{
  Bool, true, false, not, ◌||◌, String, Option, none, some, List, [], ◌∷◌, ltb, any, map,
  if◌then◌else◌,
}
use order_agent.Prelude.Int.{ℤ, pos, is_zero}
use order_agent.Prelude.Text.{str_eq, member, chars}
use order_agent.Json.{Json, text, arr, Items, nil, cons, Fields, end, field}
use order_agent.Safety.Confidence.{Scale}
use order_agent.State.{MenuItem, SessionState}
use order_agent.Menu.{Menu, has_text, available_items, find_item_by_name}
use order_agent.Fallback.{
  Entity, Interpretation, FallbackAction, FallbackInterpretation, Checked, refused, passed,
  refuse_if, answer_if,
}
use order_agent.Fallback.Evidence.{
  Reader, has_explicit_confirm, has_explicit_cancel, has_explicit_delivery_request,
  has_explicit_pickup_request, has_add_item_evidence,
}

-- The library calls of the conversion: `printed` is Python's `str` of a JSON value, `is_true` its
-- truth, `is_unsafe` whether one of UNSAFE_REPLY_PATTERNS is found, and `dish_names` the matches of
-- the expression for dish names.
pub record Library : Type 0 where
  pub printed : Json → String
  pub is_true : Json → Bool
  pub is_unsafe : String → Bool
  pub dish_names : String → List String

abbrev pub or_empty : Option String → String
or_empty none = ""
or_empty (some s) = s

-- `options.get(key)`
unfoldable pub get_field : String → Fields → Option Json
get_field key end = none
get_field key (field k j fields) =
    let rest = get_field key fields in if str_eq k key then some j else rest

module _ (library : Library) where
  open library use {printed, is_true, is_unsafe, dish_names}

  unfoldable pub printed_items : Items → List String
  printed_items nil = []
  printed_items (cons j items) =
      let rest = printed_items items in if is_true j then printed j ∷ rest else rest

  -- The texts among the values that are not empty.
  unfoldable pub text_values : Fields → List String
  text_values end = []
  text_values (field key (text t) fields) =
      let rest = text_values fields in if has_text t then t ∷ rest else rest
  text_values (field key _ fields) = text_values fields

  -- `_extract_options`
  unfoldable pub extract_options : FallbackAction → List String
  unfolding get_field printed_items text_values
  extract_options action = elim (get_field "options" action.options) [
    | some (arr items) ↦ printed_items items
    | _ ↦ text_values action.options
  ]

  -- `_safe_candidate_reply` of a candidate
  unfoldable pub safe_reply : String → Menu → Option String
  safe_reply candidate menu =
      if not (has_text candidate)
      then none
      else if ltb 80 (chars candidate)
      then none
      else if is_unsafe candidate
      then none
      else if any (λ name. not (member name (map (λ item. item.name) (available_items menu))))
          (dish_names candidate)
      then none
      else some candidate

-- The first text, unless it is missing or empty.
abbrev candidate_of : Option String → Option String → String
candidate_of question reply =
    if has_text (or_empty question) then or_empty question else or_empty reply

-- `LLMFallbackAction(type=…)`
abbrev of_type : String → FallbackAction
of_type action_type = record {
  action_type = action_type;
  item_name = none;
  quantity = none;
  options = end;
}

-- `_implicit_action`
unfoldable pub implicit_action : String → Option FallbackAction
implicit_action intent =
    if str_eq intent "ask_menu"
    then some (of_type "ask_menu")
    else if str_eq intent "ask_recommendation"
    then some (of_type "ask_recommendation")
    else if str_eq intent "delivery"
    then some (of_type "set_delivery")
    else if str_eq intent "pickup"
    then some (of_type "set_pickup")
    else if str_eq intent "confirm_order"
    then some (of_type "confirm_order")
    else if str_eq intent "cancel_order"
    then some (of_type "cancel_order")
    else none

-- `action.quantity or 1`
abbrev pub quantity_or_one : Option ℤ → ℤ
quantity_or_one none = pos 1
quantity_or_one (some q) = if is_zero q then pos 1 else q

module _ (scale : Scale) (library : Library) (reader : Reader) where
  open scale use {Score, below}

  -- An accepted proposal: the interpretation, and the reply that is safe to give.
  abbrev pub Conversion : Type 0
  Conversion = Checked (Interpretation Score × Option String)

  abbrev converted : Interpretation Score → Conversion
  converted interpretation = passed (interpretation, none)

  -- `Interpretation(intent=…, confidence=…, source="llm", …)`
  abbrev pub proposed :
      FallbackInterpretation Score
      → String
      → Bool
      → Bool
      → List (String × Entity)
      → Interpretation Score
  proposed parsed intent is_question mutates entities = record {
    intent = intent;
    confidence = parsed.confidence;
    source = "llm";
    is_question = is_question;
    should_mutate_order = mutates;
    entities = entities;
    options = [];
  }

  abbrev pub addition :
      FallbackInterpretation Score → FallbackAction → MenuItem → Interpretation Score
  addition parsed action item =
      record (proposed parsed "order_food" false true (
        ("item_name", Entity.text item.name)
        ∷ ("quantity", Entity.count (quantity_or_one action.quantity))
        ∷ [])) { options = extract_options library action }

  abbrev pub fulfillment : FallbackInterpretation Score → String → Interpretation Score
  fulfillment parsed kind =
      proposed parsed "provide_fulfillment_slot" false true
        (("fulfillment_type", Entity.text kind) ∷ [])

  -- `_convert_add_item`
  unfoldable pub convert_add_item :
      FallbackInterpretation Score → FallbackAction → Menu → String → SessionState → Conversion
  unfolding extract_options
  convert_add_item parsed action menu message state =
      elim (find_item_by_name menu (or_empty action.item_name)) [
        | none ↦ refused "menu_item_not_found"
        | some item ↦
            refuse_if (not (has_add_item_evidence reader message item.name menu state))
              "llm_order_action_requires_target_item_evidence"
              (converted (addition parsed action item))
      ]

  abbrev is_either : String → String → String → String → Bool
  is_either intent wanted action_type wanted_type =
      str_eq intent wanted || str_eq action_type wanted_type

  -- The chain of tests on the one action.
  unfoldable pub convert_action :
      FallbackInterpretation Score → FallbackAction → Menu → String → SessionState → Conversion
  convert_action parsed action menu message state =
      let is = is_either parsed.intent in
      let t = action.action_type in
      answer_if (is "add_item" t "add_item") (convert_add_item parsed action menu message state) (
        answer_if (is "ask_menu" t "ask_menu")
          (converted (proposed parsed "ask_menu" true false []))
          (answer_if (is "ask_recommendation" t "ask_recommendation")
            (converted (proposed parsed "ask_recommendation" true false []))
            (answer_if (is "delivery" t "set_delivery")
              (refuse_if (not (has_explicit_delivery_request message))
                "fulfillment_requires_explicit_user_request"
                (converted (fulfillment parsed "delivery")))
              (answer_if (is "pickup" t "set_pickup")
                (refuse_if (not (has_explicit_pickup_request message))
                  "fulfillment_requires_explicit_user_request"
                  (converted (fulfillment parsed "pickup")))
                (answer_if (is "confirm_order" t "confirm_order")
                  (refuse_if (not (has_explicit_confirm message))
                    "confirm_requires_explicit_user_confirmation"
                    (converted (proposed parsed "confirm" false false [])))
                  (answer_if (is "cancel_order" t "cancel_order")
                    (refuse_if (not (has_explicit_cancel message))
                      "cancel_requires_explicit_user_cancellation"
                      (converted (proposed parsed "cancel" false false [])))
                    (refused "unsafe_action_not_supported")))))))

  -- `parsed.actions[0] if parsed.actions else _implicit_action(parsed)`, for at most one action.
  unfoldable pub convert_actions :
      FallbackInterpretation Score → List FallbackAction → Menu → String → SessionState → Conversion
  unfolding implicit_action
  convert_actions parsed [] menu message state = elim (implicit_action parsed.intent) [
    | none ↦ refused "missing_action"
    | some action ↦ convert_action parsed action menu message state
  ]
  convert_actions parsed (action ∷ []) menu message state =
      convert_action parsed action menu message state
  convert_actions parsed (action ∷ more) menu message state = refused "multi_action_not_supported"

  -- `_fallback_interpretation` without a message
  abbrev pub fallback_interpretation : FallbackInterpretation Score → Interpretation Score
  fallback_interpretation parsed =
      proposed parsed "fallback" false false (("llm_clarification", Entity.flag true) ∷ [])

  -- `convert_llm_to_interpretation`
  unfoldable pub convert_llm_to_interpretation :
      Score → FallbackInterpretation Score → Menu → String → SessionState → Conversion
  unfolding safe_reply
  convert_llm_to_interpretation min_confidence parsed menu message state =
      refuse_if (below parsed.confidence min_confidence) "low_confidence" (
        answer_if
          (parsed.needs_clarification
            || member parsed.intent ("clarify" ∷ "unknown" ∷ "smalltalk" ∷ []))
          (passed (
            fallback_interpretation parsed,
            safe_reply library (candidate_of parsed.clarification_question parsed.user_facing_reply)
                menu,
          ))
          (convert_actions parsed parsed.actions menu message state))
