-- ===== src/Tests/Fallback.antt =====
-- Answers of a language model to two messages.
use order_agent.Prelude.{ℕ, ◌≡◌, refl, true, false, none, some, [], ◌∷◌}
use order_agent.Prelude.Int.{pos}
use order_agent.Json.{end}
use order_agent.State.{new_state}
use order_agent.Fallback.{
  Entity, Interpretation, FallbackAction, FallbackInterpretation, refused,
  parse_llm_fallback_payload, check_parsed, check_actions, refuse_if, answer_if,
}
use order_agent.Fallback.Evidence.{Reader, contains_menu_evidence, has_add_item_evidence}
use order_agent.Fallback.Convert.{Library, convert_add_item, convert_action, convert_actions}
use order_agent.Fallback.Merge.{ClientResult, Client, merge_llm_interpretation}
use order_agent.Fallback.Trusted.{IsTrusted, merge-IsTrusted}
use order_agent.Tests.Menu.{menu}
use order_agent.Tests.Safety.{percent}

-- A normalizer that changes nothing, and no ordinals.
abbrev reader : Reader
reader = record { normalize = λ names state text. text; ordinal = λ text. none }

abbrev library : Library
library = record {
  printed = λ j. "";
  is_true = λ j. true;
  is_unsafe = λ s. false;
  dish_names = λ s. [];
}

abbrev client : Client ℕ
client = record { is_shadow = false; can_call = true; min_confidence = 65; half = 50 }

abbrev rules : Interpretation ℕ
rules = record {
  intent = "unknown";
  confidence = 0;
  source = "rule";
  is_question = false;
  should_mutate_order = false;
  entities = [];
  options = [];
}

abbrev two_teas : FallbackAction
two_teas = record {
  action_type = "add_item";
  item_name = some "奶茶";
  quantity = some (pos 2);
  options = end;
}

abbrev tea_proposal : FallbackInterpretation ℕ
tea_proposal = record {
  intent = "add_item";
  confidence = 90;
  actions = two_teas ∷ [];
  needs_clarification = false;
  clarification_question = none;
  user_facing_reply = none;
}

abbrev tea_result : ClientResult ℕ
tea_result = record { is_ok = true; status = "success"; payload = some tea_proposal }

abbrev tea_interpretation : Interpretation ℕ
tea_interpretation = record rules {
  intent = "order_food";
  confidence = 90;
  source = "llm";
  should_mutate_order = true;
  entities = ("item_name", Entity.text "奶茶") ∷ ("quantity", Entity.count (pos 2)) ∷ [];
}

tea_is_taken :
    merge_llm_interpretation percent library reader client menu "两杯奶茶" new_state
      (some "unknown")
      tea_result
      rules
    ≡ tea_interpretation
unfolding merge_llm_interpretation check_actions refuse_if answer_if convert_action convert_actions
    convert_add_item has_add_item_evidence
tea_is_taken = refl

merge-IsTrusted_example :
    IsTrusted percent library reader client menu "两杯奶茶" new_state rules (two_teas ∷ []) (
      merge_llm_interpretation percent library reader client menu "两杯奶茶" new_state
        (some "unknown")
        tea_result
        rules)
merge-IsTrusted_example =
    merge-IsTrusted percent library reader client menu "两杯奶茶" new_state rules (some "unknown")
      tea_result

-- The name of a tea shop is no order for tea.
shop_is_no_evidence : contains_menu_evidence "送到奶茶店" "奶茶" ≡ false
unfolding contains_menu_evidence
shop_is_no_evidence = refl

too_many_are_refused :
    parse_llm_fallback_payload percent
      (some (record tea_proposal { actions = record two_teas { quantity = some (pos 21) } ∷ [] }))
    ≡ refused "quantity_out_of_range"
unfolding parse_llm_fallback_payload check_parsed check_actions refuse_if
too_many_are_refused = refl
