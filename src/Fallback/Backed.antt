-- ===== src/Fallback/Backed.antt =====
-- What a conversion may make of a proposal: nothing that the user's own words do not back.
use order_agent.Prelude.{
  ◌≡◌, ◌⊎◌, refl, sym, inl, inr, true, false, String, Option, List, [], ◌∷◌, All, Option-cases,
}
use mathlib.Core.Path.{subst}
use order_agent.Prelude.Int.{ℤ}
use order_agent.Prelude.Text.{member}
use order_agent.Safety.Confidence.{Scale}
use order_agent.State.{MenuItem, SessionState}
use order_agent.Menu.{Menu, find_item_by_name}
use order_agent.Menu.Find.{find-some}
use order_agent.Fallback.{
  Entity, Interpretation, FallbackAction, FallbackInterpretation, is_in_range,
}
use order_agent.Fallback.Evidence.{
  Reader, has_explicit_confirm, has_explicit_cancel, has_explicit_delivery_request,
  has_explicit_pickup_request, has_add_item_evidence,
}
use order_agent.Fallback.Convert.{
  Library, extract_options, convert_add_item, convert_action, implicit_action, convert_actions,
  convert_llm_to_interpretation, quantity_or_one, or_empty,
}
use order_agent.Fallback.Options.{IsOffered, extract_options-IsOffered, implicit_action-IsOffered}
use order_agent.Fallback.Passes.{
  HasRange, Passes, Passes-refused, Passes-passed, Passes-answer_if, Passes-refuse_if,
  is_true_of_not, quantity_or_one-range, implicit_action-HasRange, All-Unit,
}

module _ (scale : Scale) (library : Library) (reader : Reader) (menu : Menu) (message : String)
    (state : SessionState) (offered : List FallbackAction) where
  open scale use {Score}

  abbrev pub IsQuestion : Interpretation Score → Type 0
  IsQuestion i =
      (i.should_mutate_order ≡ false)
      × (member i.intent ("ask_menu" ∷ "ask_recommendation" ∷ "fallback" ∷ []) ≡ true)

  abbrev pub IsConfirmation : Interpretation Score → Type 0
  IsConfirmation i =
      (i.should_mutate_order ≡ false)
      × (i.intent ≡ "confirm")
      × (has_explicit_confirm message ≡ true)

  abbrev pub IsCancellation : Interpretation Score → Type 0
  IsCancellation i =
      (i.should_mutate_order ≡ false) × (i.intent ≡ "cancel") × (has_explicit_cancel message ≡ true)

  abbrev pub IsDelivery : Interpretation Score → Type 0
  IsDelivery i =
      (i.intent ≡ "provide_fulfillment_slot")
      × (i.entities ≡ ("fulfillment_type", Entity.text "delivery") ∷ [])
      × (i.options ≡ [])
      × (has_explicit_delivery_request message ≡ true)

  abbrev pub IsPickup : Interpretation Score → Type 0
  IsPickup i =
      (i.intent ≡ "provide_fulfillment_slot")
      × (i.entities ≡ ("fulfillment_type", Entity.text "pickup") ∷ [])
      × (i.options ≡ [])
      × (has_explicit_pickup_request message ≡ true)

  -- An available dish that the words name, in a quantity between 1 and 20, with options that the
  -- answer's actions give.
  abbrev pub IsAddition : Interpretation Score → Type 0
  IsAddition i =
      (i.intent ≡ "order_food")
      × (item : MenuItem) × (quantity : ℤ) × (i.entities
          ≡ ("item_name", Entity.text item.name) ∷ ("quantity", Entity.count quantity) ∷ [])
      × (item.available ≡ true)
      × (is_in_range quantity ≡ true)
      × (has_add_item_evidence reader message item.name menu state ≡ true)
      × All (IsOffered library offered) i.options

  abbrev pub IsBacked : Interpretation Score → Type 0
  IsBacked i =
      IsQuestion i ⊎ IsConfirmation i ⊎ IsCancellation i ⊎ IsDelivery i ⊎ IsPickup i ⊎ IsAddition i

  abbrev pub Backs : Interpretation Score × Option String → Type 0
  Backs made = IsBacked made.0

  convert_add_item-Passes :
      (parsed : FallbackInterpretation Score) (action : FallbackAction)
      → HasRange action
      → All (IsOffered library offered) (extract_options library action)
      → Passes Backs (convert_add_item scale library reader parsed action menu message state)
  unfolding convert_add_item
  convert_add_item-Passes parsed action h given =
      elim (Option-cases (find_item_by_name menu (or_empty action.item_name))) [
        | inl absent ↦ rw (convert_add_item, absent) Passes-refused
        | inr (item, taken) ↦
            rw (convert_add_item, taken)
              (Passes-refuse_if _ _ _ (λ evident. Passes-passed (
                inr (
                  inr (
                    inr (
                      inr (
                        inr (
                          refl,
                          item,
                          quantity_or_one action.quantity,
                          refl,
                          (find-some menu _ (λ m. Unit {0}) (All-Unit menu.items) taken).1,
                          quantity_or_one-range action.quantity h,
                          is_true_of_not (has_add_item_evidence reader message item.name menu state)
                              evident,
                          given,
                        ))))))))
      ]

  convert_action-Passes :
      (parsed : FallbackInterpretation Score) (action : FallbackAction)
      → HasRange action
      → All (IsOffered library offered) (extract_options library action)
      → Passes Backs (convert_action scale library reader parsed action menu message state)
  unfolding convert_action
  convert_action-Passes parsed action h given =
      Passes-answer_if _ _ _ (convert_add_item-Passes parsed action h given) (
        Passes-answer_if _ _ _ (Passes-passed (inl (refl, refl))) (
          Passes-answer_if _ _ _ (Passes-passed (inl (refl, refl))) (
            Passes-answer_if _ _ _
              (Passes-refuse_if _ _ _ (λ said.
                Passes-passed (inr (inr (inr (inl (refl, refl, refl, is_true_of_not _ said)))))))
              (Passes-answer_if _ _ _
                (Passes-refuse_if _ _ _ (λ said.
                  Passes-passed
                    (inr (inr (inr (inr (inl (refl, refl, refl, is_true_of_not _ said))))))))
                (Passes-answer_if _ _ _
                  (Passes-refuse_if _ _ _
                    (λ said. Passes-passed (inr (inl (refl, refl, is_true_of_not _ said)))))
                  (Passes-answer_if _ _ _
                    (Passes-refuse_if _ _ _
                      (λ said. Passes-passed (inr (inr (inl (refl, refl, is_true_of_not _ said))))))
                    Passes-refused))))))

  convert_actions-Passes :
      (parsed : FallbackInterpretation Score) (actions : List FallbackAction)
      → All HasRange actions
      → offered ≡ actions
      → Passes Backs (convert_actions scale library reader parsed actions menu message state)
  unfolding convert_actions
  convert_actions-Passes parsed [] h same = elim (Option-cases (implicit_action parsed.intent)) [
    | inl absent ↦ rw (convert_actions, absent) Passes-refused
    | inr (action, implied) ↦
        rw (convert_actions, implied)
          (convert_action-Passes parsed action (implicit_action-HasRange parsed.intent implied) (
            subst (λ actions. All (IsOffered library actions) (extract_options library action))
              (sym same) (implicit_action-IsOffered library parsed.intent implied)))
  ]
  convert_actions-Passes parsed (action ∷ []) h same = convert_action-Passes parsed action h.0 (
      subst (λ actions. All (IsOffered library actions) (extract_options library action)) (sym same)
        (extract_options-IsOffered library action))
  convert_actions-Passes parsed (action ∷ next ∷ more) h same = Passes-refused

  pub convert-Passes :
      (min_confidence : Score) (parsed : FallbackInterpretation Score)
      → All HasRange parsed.actions
      → offered ≡ parsed.actions
      → Passes Backs (
          convert_llm_to_interpretation scale library reader min_confidence parsed menu message
            state)
  unfolding convert_llm_to_interpretation
  convert-Passes min_confidence parsed h same = Passes-refuse_if _ _ _ (λ sure.
      Passes-answer_if _ _ _ (Passes-passed (inl (refl, refl)))
        (convert_actions-Passes parsed parsed.actions h same))
