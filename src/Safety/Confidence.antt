-- ===== src/Safety/Confidence.antt =====
-- The confidence values of an utterance and the thresholds that they are held against. The source's
-- floats are the elements of a `Scale`.
use order_agent.Prelude.{
  ℕ, Bool, not, ◌&&◌, ◌||◌, ltb, Option, none, some, List, [], ◌∷◌, if◌then◌else◌,
}
use order_agent.Errors.{Result, ok, value_error, ◌>>◌, raise_if}

-- `below a b` is `a < b` and `at_most a b` is `a <= b`.
pub record Scale : Type 1 where
  pub Score : Type 0
  pub below : Score → Score → Bool
  pub at_most : Score → Score → Bool
  pub zero : Score
  pub one : Score

-- CONFIDENCE_FIELDS; a contradictory field of another name is refused when the metadata is built.
pub data ConfidenceField : Type 0 where
  intent item quantity modifier address phone overall : ConfidenceField

-- `SafetyPolicySettings`
pub record Settings (Score : Type 0) : Type 0 where
  pub high_confidence : Score
  pub confirm_threshold : Score
  pub handoff_threshold : Score
  pub max_consecutive_misunderstandings : ℕ
  pub max_confirmation_failures : ℕ

-- `ConfidenceMetadata`
pub record ConfidenceMetadata (Score : Type 0) : Type 0 where
  pub intent_confidence : Option Score
  pub item_confidence : Option Score
  pub quantity_confidence : Option Score
  pub modifier_confidence : Option Score
  pub address_confidence : Option Score
  pub phone_confidence : Option Score
  pub overall_confidence : Option Score
  pub contradictory_fields : List ConfidenceField

-- `present_values` of the fields in their order.
abbrev pub present {ℓ} : {A : Type ℓ} → List (Option A) → List A
present [] = []
present (none ∷ vs) = present vs
present (some v ∷ vs) = v ∷ present vs

module _ (scale : Scale) where
  open scale use {Score, below, at_most, zero, one}

  -- Python's `min`: the first of the least values.
  least : Score → List Score → Score
  least best [] = best
  least best (v ∷ vs) = least (if below v best then v else best) vs

  least_of : List Score → Option Score
  unfolding least
  least_of [] = none
  least_of (v ∷ vs) = some (least v vs)

  abbrev pub present_values : ConfidenceMetadata Score → List Score
  present_values c = present (
      c.intent_confidence ∷ c.item_confidence ∷ c.quantity_confidence ∷ c.modifier_confidence
      ∷ c.address_confidence ∷ c.phone_confidence ∷ c.overall_confidence ∷ [])

  -- `effective_overall`
  unfoldable pub effective_overall : ConfidenceMetadata Score → Option Score
  unfolding least_of
  effective_overall c = elim c.overall_confidence [
    | some v ↦ some v
    | none ↦ least_of (present_values c)
  ]

  -- The check of `SafetyPolicySettings.__post_init__`.
  unfoldable pub check_settings : Settings Score → Result (Settings Score)
  check_settings s = do
    raise_if
        (not (
          at_most zero s.handoff_threshold
          && at_most s.handoff_threshold s.confirm_threshold
          && at_most s.confirm_threshold s.high_confidence
          && at_most s.high_confidence one))
        value_error
    raise_if (ltb s.max_consecutive_misunderstandings 1 || ltb s.max_confirmation_failures 1)
        value_error
    ok s
