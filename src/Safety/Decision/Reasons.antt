-- ===== src/Safety/Decision/Reasons.antt =====
-- Which reason the policy names for a handoff.
use order_agent.Prelude.{
  ◌≤◌, ◌≡◌, refl, Bool, true, ◌==◌, some, List, [], ◌∷◌, arith, any, ap, sym, ◌∙◌, ◌⊎◌, leb,
  Bool-cases, inl, inr,
}
use order_agent.Enums.{handoff_reason, HandoffReasonCode, reason_rank}
use order_agent.Errors.{ok}
use order_agent.Safety.Confidence.{Scale, Settings}
use order_agent.Safety.Signals.{refusal_reasons}
use order_agent.Safety.Decision.{
  Context, SafetyDecision, first_reason, all_handoff_reasons, handoff_or_less, evaluate,
}

-- `reason in reasons`
abbrev pub lists : HandoffReasonCode → List HandoffReasonCode → Bool
lists r rs = any (λ s. reason_rank s == reason_rank r) rs

first_reason-least :
    (best : HandoffReasonCode) (rs : List HandoffReasonCode) (r : HandoffReasonCode)
    → lists r (best ∷ rs) ≡ true
    → reason_rank (first_reason best rs) ≤ reason_rank r
unfolding first_reason
first_reason-least best [] r h = ground arith
first_reason-least best (s ∷ rs) r h = elim (Bool-cases (leb (reason_rank best) (reason_rank s))) [
  | inl keeps ↦
      rw keeps (ground (arith, first_reason-least best rs r, first_reason-least best rs best))
  | inr takes ↦ rw takes (ground (arith, first_reason-least s rs r, first_reason-least s rs s))
]

first_reason_step :
    (best s : HandoffReasonCode) (rs : List HandoffReasonCode)
    → (first_reason best (s ∷ rs) ≡ first_reason best rs)
      ⊎ (first_reason best (s ∷ rs) ≡ first_reason s rs)
unfolding first_reason
first_reason_step best s rs = elim (Bool-cases (leb (reason_rank best) (reason_rank s))) [
  | inl keeps ↦ inl (rw keeps)
  | inr takes ↦ inr (rw takes)
]

lists_more :
    (r best s : HandoffReasonCode) (rs : List HandoffReasonCode)
    → (lists r (best ∷ rs) ≡ true) ⊎ (lists r (s ∷ rs) ≡ true)
    → lists r (best ∷ s ∷ rs) ≡ true
lists_more r best s rs h = ground arith

first_reason_self : (best : HandoffReasonCode) → first_reason best [] ≡ best
unfolding first_reason
first_reason_self best = refl

first_reason-listed :
    (best : HandoffReasonCode) (rs : List HandoffReasonCode)
    → lists (first_reason best rs) (best ∷ rs) ≡ true
first_reason-listed best [] = rw first_reason_self (ground arith)
first_reason-listed best (s ∷ rs) = elim (first_reason_step best s rs) [
  | inl keeps ↦
      ap (λ r. lists r (best ∷ s ∷ rs)) keeps
      ∙ lists_more (first_reason best rs) best s rs (inl (first_reason-listed best rs))
  | inr takes ↦
      ap (λ r. lists r (best ∷ s ∷ rs)) takes
      ∙ lists_more (first_reason s rs) best s rs (inr (first_reason-listed s rs))
]

is_first :
    (r : HandoffReasonCode) → reason_rank r ≤ 0 → r ≡ HandoffReasonCode.explicit_human_request
unfolding reason_rank
is_first r h = ground arith

module _ (scale : Scale) where
  open scale use {Score}

  handoff_or_less-reason :
      (s : Settings Score) (c : Context Score) (r : HandoffReasonCode) (rs : List HandoffReasonCode)
      (d : SafetyDecision Score)
      → handoff_or_less scale s c (r ∷ rs) ≡ ok d
      → d.reason_code ≡ some (handoff_reason (first_reason r rs))
  unfolding handoff_or_less
  handoff_or_less-reason s c r rs d h = ground arith

  reason_of :
      (s : Settings Score) (c : Context Score) (reasons : List HandoffReasonCode)
      {d : SafetyDecision Score}
      → (r : HandoffReasonCode) → lists r reasons ≡ true
      → handoff_or_less scale s c reasons ≡ ok d
      → (named : HandoffReasonCode) × (d.reason_code ≡ some (handoff_reason named))
        × (lists named reasons ≡ true)
        × (reason_rank named ≤ reason_rank r)
  reason_of s c [] r listed h = cc
  reason_of s c (best ∷ rs) {d} r listed h = (
    first_reason best rs,
    handoff_or_less-reason s c best rs d h,
    first_reason-listed best rs,
    first_reason-least best rs r listed,
  )

  not_refused :
      (s : Settings Score) (c : Context Score)
      → refusal_reasons c.signals ≡ []
      → evaluate scale s c ≡ handoff_or_less scale s c (all_handoff_reasons scale s c)
  unfolding evaluate
  not_refused s c none_refused = rw none_refused

  -- Where no refusal signal is among the signals, the reason that the policy names for a handoff is
  -- one of those that were signalled or counted, and no other of them stands earlier in the
  -- enumeration.
  pub evaluate-reason :
      (s : Settings Score) (c : Context Score) (r : HandoffReasonCode) {d : SafetyDecision Score}
      → refusal_reasons c.signals ≡ []
      → lists r (all_handoff_reasons scale s c) ≡ true
      → evaluate scale s c ≡ ok d
      → (named : HandoffReasonCode) × (d.reason_code ≡ some (handoff_reason named))
        × (lists named (all_handoff_reasons scale s c) ≡ true)
        × (reason_rank named ≤ reason_rank r)
  evaluate-reason s c r none_refused listed h =
      reason_of s c (all_handoff_reasons scale s c) r listed
        (sym (not_refused s c none_refused) ∙ h)

  -- Where no refusal signal is among the signals, an explicit request for a human hides every other
  -- reason for a handoff, a severe allergy included.
  pub evaluate-explicit :
      (s : Settings Score) (c : Context Score) {d : SafetyDecision Score}
      → refusal_reasons c.signals ≡ []
      → lists HandoffReasonCode.explicit_human_request (all_handoff_reasons scale s c) ≡ true
      → evaluate scale s c ≡ ok d
      → d.reason_code ≡ some (handoff_reason HandoffReasonCode.explicit_human_request)
  unfolding reason_rank
  evaluate-explicit s c none_refused listed h =
      let (named, reason, _, first) =
        evaluate-reason s c HandoffReasonCode.explicit_human_request none_refused listed h in
      reason ∙ ap (λ (r : HandoffReasonCode). some (handoff_reason r)) (is_first named first)
