-- ===== src/Handoff/Cancel/Downgrade.antt =====
-- An explicit request for a human that arrives while a case is active takes the place of its reason,
-- and a cancellation then goes by the new reason.
use order_agent.Prelude.{ℕ, ◌≡◌, true, false, String, none, some, List, [], arith, ap, ◌∙◌}
use order_agent.Enums.{eq_reason}
use order_agent.Errors.{ok}
use order_agent.Handoff.Case.{Audit, HandoffCase, CaseEvent}
use order_agent.Handoff.Request.{HandoffDecision, Requested, create_or_reuse}
use order_agent.Handoff.Request.Reuse.{reuse_lem}
use order_agent.Handoff.Cancel.{Held, CancellationResult, is_explicit, apply_cancellation_effects}

-- A session without an order has an active case for any other reason, such as a severe allergy. If
-- the customer then asks for a human, and cancels the case, the draft may go on and no action stays
-- blocked in the session.
pub downgrade_lem :
    (audit : Audit) (id : ℕ) (public_id : String) (session_id : ℕ) (decision : HandoffDecision)
    (active : HandoffCase) (events : List CaseEvent) {requested : Requested} (h : Held)
    {after : Held} {result : CancellationResult}
    → eq_reason active.reason_code decision.reason_code ≡ false
    → is_explicit decision.reason_code ≡ true
    → create_or_reuse audit id public_id session_id decision (some active) none none events
      ≡ ok requested
    → h.case ≡ requested.case
    → h.order ≡ none
    → apply_cancellation_effects h ≡ ok (after, result)
    → (result.may_continue_draft ≡ true)
      × (result.safety_hold_active ≡ false)
      × (after.state.safety_blocked_actions ≡ [])
unfolding apply_cancellation_effects
downgrade_lem audit id public_id session_id decision active events h other explicit reuse same free
      e =
    let facts = reuse_lem audit id public_id session_id decision active none none events reuse in
    let taken = ap (λ (c : HandoffCase). c.reason_code) same ∙ (facts.8 other).0 in
    let asked = ap is_explicit taken ∙ explicit in ground (arith, asked)
