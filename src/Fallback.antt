-- ===== src/Fallback.antt =====
-- What the language model may propose, and what of it is kept: backend/app/services/
-- llm_fallback_schemas.py, backend/app/services/llm_fallback_validation.py and
-- `_merge_llm_interpretation` of backend/app/agents/orchestrator.py. The source's float confidences
-- are the elements of a `Scale`.
pub mod Evidence
pub mod Convert
pub mod Merge
pub mod Passes
pub mod Options
pub mod Backed
pub mod Trusted
pub mod Clarify
use order_agent.Prelude.{
  ℕ, Bool, true, false, not, ◌&&◌, ◌||◌, String, Option, none, some, List, [], ◌∷◌, ltb, length,
  if◌then◌else◌,
}
use order_agent.Prelude.Int.{ℤ, pos, ltb_ℤ}
use order_agent.Prelude.Text.{member}
use order_agent.Json.{Fields}
use order_agent.Safety.Confidence.{Scale}

-- A value among the entities of an interpretation.
pub data Entity : Type 0 where
  text : String → Entity
  count : ℤ → Entity
  flag : Bool → Entity

-- `Interpretation`; `options` are those of its preferences, which hold nothing else here.
pub record Interpretation (Score : Type 0) : Type 0 where
  pub intent : String
  pub confidence : Score
  pub source : String
  pub is_question : Bool
  pub should_mutate_order : Bool
  pub entities : List (String × Entity)
  pub options : List String

-- `LLMFallbackAction`
pub record FallbackAction : Type 0 where
  pub action_type : String
  pub item_name : Option String
  pub quantity : Option ℤ
  pub options : Fields

-- `LLMFallbackInterpretation`, less its normalized text, which is not read.
pub record FallbackInterpretation (Score : Type 0) : Type 0 where
  pub intent : String
  pub confidence : Score
  pub actions : List FallbackAction
  pub needs_clarification : Bool
  pub clarification_question : Option String
  pub user_facing_reply : Option String

-- `LLMFallbackValidationResult`: refused with its reason, or not.
pub data Checked {ℓ} (A : Type ℓ) : Type ℓ where
  refused : String → Checked A
  passed : A → Checked A

-- `if test: return …(ok=False, reason=reason)`, and what follows.
unfoldable pub refuse_if {ℓ} : {A : Type ℓ} → Bool → String → Checked A → Checked A
refuse_if true reason rest = refused reason
refuse_if false reason rest = rest

-- `if test: return answer`, and what follows.
unfoldable pub answer_if {ℓ} : {A : Type ℓ} → Bool → Checked A → Checked A → Checked A
answer_if true answer rest = answer
answer_if false answer rest = rest

-- ALLOWED_LLM_INTENTS
abbrev pub allowed_llm_intents : List String
allowed_llm_intents =
    "add_item" ∷ "remove_item" ∷ "update_quantity" ∷ "ask_menu" ∷ "ask_recommendation" ∷ "delivery"
    ∷ "pickup" ∷ "confirm_order" ∷ "cancel_order" ∷ "clarify" ∷ "smalltalk" ∷ "unknown" ∷ []

-- ALLOWED_LLM_ACTION_TYPES
abbrev pub allowed_llm_action_types : List String
allowed_llm_action_types =
    "add_item" ∷ "remove_item" ∷ "update_quantity" ∷ "set_delivery" ∷ "set_pickup" ∷ "ask_menu"
    ∷ "ask_recommendation" ∷ "confirm_order" ∷ "cancel_order" ∷ []

-- `1 <= quantity <= 20`
abbrev pub is_in_range : ℤ → Bool
is_in_range q = not (ltb_ℤ q (pos 1)) && not (ltb_ℤ (pos 20) q)

abbrev pub has_quantity_in_range : FallbackAction → Bool
has_quantity_in_range action = elim action.quantity [ none ↦ true | some q ↦ is_in_range q ]

-- The loop over the actions; what follows is `rest`.
unfoldable pub check_actions {ℓ} : {A : Type ℓ} → List FallbackAction → Checked A → Checked A
check_actions [] rest = rest
check_actions (action ∷ actions) rest =
    refuse_if (not (member action.action_type allowed_llm_action_types)) "action_not_allowed" (
      refuse_if (not (has_quantity_in_range action)) "quantity_out_of_range"
        (check_actions actions rest))

module _ (scale : Scale) where
  open scale use {Score, at_most, zero, one}

  unfoldable pub check_parsed :
      FallbackInterpretation Score → Checked (FallbackInterpretation Score)
  check_parsed parsed =
      refuse_if (not (member parsed.intent allowed_llm_intents)) "intent_not_allowed" (
        refuse_if (not (at_most zero parsed.confidence && at_most parsed.confidence one))
          "confidence_out_of_range"
          (refuse_if (ltb 3 (length parsed.actions)) "too_many_actions"
            (check_actions parsed.actions (passed parsed))))

  -- `parse_llm_fallback_payload` of what the schema's library built from the payload, if it did.
  unfoldable pub parse_llm_fallback_payload :
      Option (FallbackInterpretation Score) → Checked (FallbackInterpretation Score)
  unfolding check_parsed
  parse_llm_fallback_payload none = refused "schema_error"
  parse_llm_fallback_payload (some parsed) = check_parsed parsed
