-- ===== src/Fallback/Trusted.antt =====
-- What the program goes on with after the language model has answered.
use order_agent.Prelude.{
  ◌≡◌, ◌⊎◌, refl, inl, inr, Bool, true, false, String, Option, none, some, List, [], All,
  if◌then◌else◌, Bool-cases,
}
use order_agent.Prelude.Text.{str_eq}
use order_agent.Safety.Confidence.{Scale}
use order_agent.State.{SessionState}
use order_agent.Menu.{Menu}
use order_agent.Fallback.{
  Interpretation, FallbackAction, FallbackInterpretation, Checked, refused, passed, check_parsed,
  parse_llm_fallback_payload,
}
use order_agent.Fallback.Evidence.{Reader}
use order_agent.Fallback.Convert.{Library, convert_llm_to_interpretation}
use order_agent.Fallback.Merge.{
  ClientResult, Client, degraded, directed, rejected, merge_converted, merge_parsed,
  merge_llm_interpretation,
}
use order_agent.Fallback.Passes.{
  HasRange, Passes, Passes-refused, Passes-passed, Passes-refuse_if, check_actions-Passes,
}
use order_agent.Fallback.Backed.{IsBacked, Backs, convert-Passes}

-- The actions of an answer's payload; none if the payload does not fit the schema.
abbrev pub actions_of : {S : Type 0} → Option (FallbackInterpretation S) → List FallbackAction
actions_of none = []
actions_of (some parsed) = parsed.actions

module _ (scale : Scale) (library : Library) (reader : Reader) (client : Client scale.Score)
    (menu : Menu) (message : String) (state : SessionState) (rules : Interpretation scale.Score)
    (offered : List FallbackAction) where
  open scale use {Score}

  abbrev HaveRange : FallbackInterpretation Score → Type 0
  HaveRange parsed = All HasRange parsed.actions × (offered ≡ parsed.actions)

  parse-Passes :
      (payload : Option (FallbackInterpretation Score))
      → offered ≡ actions_of payload
      → Passes HaveRange (parse_llm_fallback_payload scale payload)
  unfolding parse_llm_fallback_payload check_parsed
  parse-Passes none same = Passes-refused
  parse-Passes (some parsed) same = Passes-refuse_if _ _ _ (λ known.
      Passes-refuse_if _ _ _ (λ certain. Passes-refuse_if _ _ _ (λ few.
        check_actions-Passes HaveRange parsed.actions (passed parsed)
          (λ ranges. Passes-passed (ranges, same)))))

  -- What the program may go on with.
  abbrev pub IsTrusted : Interpretation Score → Type 0
  IsTrusted i =
      (i ≡ rules)
      ⊎ ((client.is_shadow ≡ false) × IsBacked scale library reader menu message state offered i)

  if_shadow-IsTrusted :
      (shadow : Bool) (i : Interpretation Score)
      → client.is_shadow ≡ shadow
      → IsBacked scale library reader menu message state offered i
      → IsTrusted (if shadow then rules else i)
  if_shadow-IsTrusted true i is backed = inl refl
  if_shadow-IsTrusted false i is backed = inr (is, backed)

  rejected-IsTrusted :
      (reason : String)
      → IsTrusted (rejected scale library reader client message state rules reason)
  unfolding degraded
  rejected-IsTrusted reason =
      if_shadow-IsTrusted client.is_shadow
        (degraded scale library reader client.half message state (some reason)) refl
        (inl (refl, refl))

  directed-IsBacked :
      (reply : Option String) (i : Interpretation Score)
      → IsBacked scale library reader menu message state offered i
      → IsBacked scale library reader menu message state offered
          (directed scale library reader message state reply i)
  unfolding directed
  directed-IsBacked reply i h = elim (Bool-cases (str_eq i.intent "fallback")) [
    | inr other ↦ rw (directed, other) h
    | inl fallback ↦ elim h [
      | inl asks ↦ rw (directed, fallback) (inl asks)
      | inr (inl (_, is, _)) ↦ cc (rw is at fallback)
      | inr (inr (inl (_, is, _))) ↦ cc (rw is at fallback)
      | inr (inr (inr (inl (is, _, _, _)))) ↦ cc (rw is at fallback)
      | inr (inr (inr (inr (inl (is, _, _, _))))) ↦ cc (rw is at fallback)
      | inr (inr (inr (inr (inr (is, _, _, _, _, _, _, _))))) ↦ cc (rw is at fallback)
    ]
  ]

  merge_converted-IsTrusted :
      (made : Checked (Interpretation Score × Option String))
      → Passes (Backs scale library reader menu message state offered) made
      → IsTrusted (merge_converted scale library reader client message state rules made)
  merge_converted-IsTrusted (refused reason) h = rejected-IsTrusted reason
  merge_converted-IsTrusted (passed (i, reply)) h =
      if_shadow-IsTrusted client.is_shadow (directed scale library reader message state reply i)
        refl (directed-IsBacked reply i h.holds)

  merge_parsed-IsTrusted :
      (parsed : Checked (FallbackInterpretation Score))
      → Passes HaveRange parsed
      → IsTrusted (merge_parsed scale library reader client menu message state rules parsed)
  merge_parsed-IsTrusted (refused reason) h = rejected-IsTrusted reason
  merge_parsed-IsTrusted (passed parsed) h =
      merge_converted-IsTrusted
        (convert_llm_to_interpretation scale library reader client.min_confidence parsed menu
          message state)
        (convert-Passes scale library reader menu message state offered client.min_confidence parsed
          h.holds.0 h.holds.1)

-- Whatever the language model answers, the program goes on with what the rules made of the message,
-- as it always does in shadow mode; or with a question; or with a confirmation, a cancellation, a
-- delivery or a pickup that the user's own words ask for; or with an available dish that these words
-- name, in a quantity from 1 to 20, with no options but those that the answer's actions give; that
-- the dish has these options is not checked here. A delivery or a pickup comes without options.
pub merge-IsTrusted :
    (scale : Scale) (library : Library) (reader : Reader) (client : Client scale.Score)
    (menu : Menu) (message : String) (state : SessionState) (rules : Interpretation scale.Score)
    (trigger : Option String) (result : ClientResult scale.Score)
    → IsTrusted scale library reader client menu message state rules (actions_of result.payload) (
        merge_llm_interpretation scale library reader client menu message state trigger result
          rules)
unfolding merge_llm_interpretation
merge-IsTrusted scale library reader client menu message state rules none result = inl refl
merge-IsTrusted scale library reader client menu message state rules (some trigger) result =
    elim (Bool-cases client.can_call) [
      | inr blocked ↦ rw (merge_llm_interpretation, blocked) (inl refl)
      | inl open_call ↦ elim (Bool-cases result.is_ok) [
        | inr failed ↦
            rw (merge_llm_interpretation, open_call, failed)
              (rejected-IsTrusted scale library reader client menu message state rules
                (actions_of result.payload) result.status)
        | inl answered ↦
            rw (merge_llm_interpretation, open_call, answered)
              (merge_parsed-IsTrusted scale library reader client menu message state rules
                (actions_of result.payload) (parse_llm_fallback_payload scale result.payload)
                (parse-Passes scale library reader client menu message state rules
                  (actions_of result.payload) result.payload refl))
      ]
    ]
