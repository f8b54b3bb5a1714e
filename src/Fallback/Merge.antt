-- ===== src/Fallback/Merge.antt =====
-- `OrchestratorAgent._merge_llm_interpretation`, without its trace: what the program goes on with
-- after the rules have interpreted a message.
use order_agent.Prelude.{Bool, false, not, String, Option, none, some, [], ◌∷◌, ◌++◌, if◌then◌else◌}
use order_agent.Prelude.Text.{str_eq}
use order_agent.Safety.Confidence.{Scale}
use order_agent.State.{SessionState}
use order_agent.Menu.{Menu, has_text}
use order_agent.Fallback.{
  Entity, Interpretation, FallbackInterpretation, Checked, refused, passed,
  parse_llm_fallback_payload,
}
use order_agent.Fallback.Evidence.{Reader}
use order_agent.Fallback.Convert.{Library, convert_llm_to_interpretation}
use order_agent.Fallback.Clarify.{build_directed_clarification}

-- `LLMClientResult`: `is_ok` is its property `ok`, and `payload` what the schema's library builds
-- from its payload, if it does.
pub record ClientResult (Score : Type 0) : Type 0 where
  pub is_ok : Bool
  pub status : String
  pub payload : Option (FallbackInterpretation Score)

-- The client of the language model: `half` is the confidence 0.5.
pub record Client (Score : Type 0) : Type 0 where
  pub is_shadow : Bool
  pub can_call : Bool
  pub min_confidence : Score
  pub half : Score

module _ (scale : Scale) (library : Library) (reader : Reader) where
  open scale use {Score}

  -- `_degraded_llm_interpretation`
  unfoldable pub degraded : Score → String → SessionState → Option String → Interpretation Score
  unfolding build_directed_clarification
  degraded half message state reason = record {
    intent = "fallback";
    confidence = half;
    source = "llm";
    is_question = false;
    should_mutate_order = false;
    entities =
        ("directed_message", Entity.text (build_directed_clarification message state reason)) ∷ [];
    options = [];
  }

  -- `safe_reply or build_directed_clarification(…)`
  abbrev directed_message : String → SessionState → Option String → String
  directed_message message state none = build_directed_clarification message state none
  directed_message message state (some reply) =
      if has_text reply then reply else build_directed_clarification message state none

  -- The entities of a fallback get the message.
  unfoldable pub directed :
      String → SessionState → Option String → Interpretation Score → Interpretation Score
  unfolding build_directed_clarification
  directed message state reply interpretation =
      if str_eq interpretation.intent "fallback"
      then record interpretation {
        entities =
            interpretation.entities
            ++ ("directed_message", Entity.text (directed_message message state reply)) ∷ [];
      }
      else interpretation

  -- What a refused proposal leaves.
  abbrev pub rejected :
      Client Score → String → SessionState → Interpretation Score → String → Interpretation Score
  rejected client message state rules reason =
      if client.is_shadow then rules else degraded client.half message state (some reason)

  abbrev pub merge_converted :
      Client Score
      → String
      → SessionState
      → Interpretation Score
      → Checked (Interpretation Score × Option String)
      → Interpretation Score
  merge_converted client message state rules (refused reason) =
      rejected client message state rules reason
  merge_converted client message state rules (passed (interpretation, reply)) =
      if client.is_shadow then rules else directed message state reply interpretation

  abbrev pub merge_parsed :
      Client Score
      → Menu
      → String
      → SessionState
      → Interpretation Score
      → Checked (FallbackInterpretation Score)
      → Interpretation Score
  merge_parsed client menu message state rules (refused reason) =
      rejected client message state rules reason
  merge_parsed client menu message state rules (passed parsed) =
      merge_converted client message state rules (
        convert_llm_to_interpretation scale library reader client.min_confidence parsed menu message
          state)

  -- `_merge_llm_interpretation`; `trigger` is the answer of `_llm_fallback_trigger_reason`, and
  -- `result` what the client answers if it is called.
  unfoldable pub merge_llm_interpretation :
      Client Score
      → Menu
      → String
      → SessionState
      → Option String
      → ClientResult Score
      → Interpretation Score
      → Interpretation Score
  unfolding degraded directed convert_llm_to_interpretation parse_llm_fallback_payload
  merge_llm_interpretation client menu message state none result rules = rules
  merge_llm_interpretation client menu message state (some trigger) result rules =
      if not client.can_call
      then rules
      else if not result.is_ok
      then rejected client message state rules result.status
      else merge_parsed client menu message state rules
          (parse_llm_fallback_payload scale result.payload)
