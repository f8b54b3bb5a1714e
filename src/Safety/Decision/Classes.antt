-- ===== src/Safety/Decision/Classes.antt =====
-- Which class of decision the policy takes, and that it always takes one.
use order_agent.Prelude.{
  ◌≡◌, refl, true, false, String, none, some, List, [], ◌∷◌, arith, if◌then◌else◌,
}
use order_agent.Prelude.Text.{member}
use order_agent.Enums.{DecisionClass, HandoffReasonCode, RefusalReasonCode}
use order_agent.Errors.{Result, ok}
use order_agent.Safety.Confidence.{Scale, Settings}
use order_agent.Safety.Signals.{refusal_reasons}
use order_agent.Safety.Decision.{
  Context, SafetyDecision, is_nil, default_blocked_actions, sort_refusals, insert_refusal,
  all_handoff_reasons, required_fields, confirm_or_draft, handoff_or_less, refuse_or_less, evaluate,
}

module _ (scale : Scale) where
  open scale use {Score}

  -- A refusal signal comes before everything else, then a reason for a handoff, then a field that
  -- wants confirming.
  abbrev pub class_of : Settings Score → Context Score → DecisionClass
  class_of s c =
      if is_nil (refusal_reasons c.signals)
      then (if is_nil (all_handoff_reasons scale s c)
          then (if is_nil (required_fields scale s c)
              then DecisionClass.auto_draft
              else DecisionClass.confirm)
          else DecisionClass.handoff)
      else DecisionClass.refuse

  -- A decision that blocks what every decision blocks, and that names a reason just if it refuses or
  -- hands off, and a field to confirm just if it asks for a confirmation.
  abbrev pub IsSound : SafetyDecision Score → Type 0
  IsSound d =
      ((a : String) → member a default_blocked_actions ≡ true → member a d.blocked_actions ≡ true)
      × (is_nil d.required_confirmations
          ≡ elim d.classification [ DecisionClass.confirm ↦ false | _ ↦ true ])
      × (elim d.reason_code [ none ↦ false | some r ↦ true ] ≡ elim d.classification [
        | DecisionClass.refuse ↦ true
        | DecisionClass.handoff ↦ true
        | _ ↦ false
      ])

  abbrev Decides : DecisionClass → Result (SafetyDecision Score) → Type 0
  Decides class result =
      (d : SafetyDecision Score) × (result ≡ ok d) × (d.classification ≡ class) × IsSound d

  confirm_or_draft-Decides :
      (c : Context Score) (required : List String)
      → Decides
          (if is_nil required then DecisionClass.auto_draft else DecisionClass.confirm)
          (confirm_or_draft scale c required)
  unfolding confirm_or_draft
  confirm_or_draft-Decides c [] = (_, refl, refl, (λ a h. h, refl, refl))
  confirm_or_draft-Decides c (f ∷ fs) = (_, refl, refl, (λ a h. h, refl, refl))

  handoff_or_less-Decides :
      (s : Settings Score) (c : Context Score) (reasons : List HandoffReasonCode)
      → Decides
          (if is_nil reasons
            then (if is_nil (required_fields scale s c)
                then DecisionClass.auto_draft
                else DecisionClass.confirm)
            else DecisionClass.handoff)
          (handoff_or_less scale s c reasons)
  unfolding handoff_or_less
  handoff_or_less-Decides s c [] = confirm_or_draft-Decides c (required_fields scale s c)
  handoff_or_less-Decides s c (r ∷ rs) = (_, refl, refl, (λ a h. h, refl, refl))

  refuse_or_less-Decides :
      (s : Settings Score) (c : Context Score) (reasons : List RefusalReasonCode)
      → Decides
          (if is_nil reasons
            then (if is_nil (all_handoff_reasons scale s c)
                then (if is_nil (required_fields scale s c)
                    then DecisionClass.auto_draft
                    else DecisionClass.confirm)
                else DecisionClass.handoff)
            else DecisionClass.refuse)
          (refuse_or_less scale s c reasons)
  unfolding refuse_or_less
  refuse_or_less-Decides s c [] = handoff_or_less-Decides s c (all_handoff_reasons scale s c)
  refuse_or_less-Decides s c (r ∷ rs) = (_, refl, refl, (λ a h. ground arith, refl, refl))

  is_nil-insert_refusal :
      (r : RefusalReasonCode) (rs : List RefusalReasonCode) → is_nil (insert_refusal r rs) ≡ false
  unfolding insert_refusal
  is_nil-insert_refusal r [] = refl
  is_nil-insert_refusal r (s ∷ rs) = ground arith

  is_nil-sort_refusals : (rs : List RefusalReasonCode) → is_nil (sort_refusals rs) ≡ is_nil rs
  unfolding sort_refusals
  is_nil-sort_refusals [] = refl
  is_nil-sort_refusals (r ∷ rs) = is_nil-insert_refusal r (sort_refusals rs)

  -- For every context the policy returns a decision and raises no error. Its class is the first that
  -- applies of refusal, handoff, confirmation and draft; it blocks submission, merchant acceptance and
  -- payment; it names a reason just if it refuses or hands off, and fields to confirm just if it asks
  -- for a confirmation.
  pub evaluate_total :
      (s : Settings Score) (c : Context Score)
      → (d : SafetyDecision Score) × (evaluate scale s c ≡ ok d)
        × (d.classification ≡ class_of s c)
        × IsSound d
  unfolding evaluate
  evaluate_total s c =
      rw (← is_nil-sort_refusals (refusal_reasons c.signals))
        (refuse_or_less-Decides s c (sort_refusals (refusal_reasons c.signals)))
