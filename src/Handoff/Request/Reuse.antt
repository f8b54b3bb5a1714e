-- ===== src/Handoff/Request/Reuse.antt =====
-- What a request for a handoff keeps of an active case, and what it does to the order.
use order_agent.Prelude.{
  ℕ, ◌≤◌, ◌≡◌, refl, true, false, ◌||◌, String, Option, some, List, arith, Bool-cases, inl, inr,
  if◌then◌else◌,
}
use order_agent.Prelude.Text.{member}
use order_agent.Prelude.Text.Membership.{member-append, member-unique, member-sorted}
use order_agent.Enums.{eq_reason}
use order_agent.Errors.{ok}
use order_agent.Records.{Order, OrderConfirmation}
use order_agent.Handoff.Case.{Audit, Priority, HandoffCase, CaseEvent}
use order_agent.Handoff.Request.{
  HandoffDecision, Requested, ranking, priority_of, max_priority, union, update_risk,
  create_or_reuse,
}

member-union :
    (s : String) (xs ys : List String) → member s (union xs ys) ≡ (member s xs || member s ys)
unfolding union
member-union s xs ys = rw (member-sorted, member-unique, member-append)

ranking-max_priority :
    (current new : Priority)
    → (ranking current ≤ ranking (max_priority current new))
      × (ranking new ≤ ranking (max_priority current new))
unfolding max_priority
ranking-max_priority current new = ground arith

-- The active case as it is reused.
abbrev reused_case : HandoffCase → HandoffDecision → HandoffCase
reused_case active decision =
    if eq_reason active.reason_code decision.reason_code
    then active
    else update_risk active decision

reused :
    (audit : Audit) (id : ℕ) (public_id : String) (session_id : ℕ) (decision : HandoffDecision)
    (active : HandoffCase) (order : Option Order) (confirmation : Option OrderConfirmation)
    (events : List CaseEvent) {after : Requested}
    → create_or_reuse audit id public_id session_id decision (some active) order confirmation events
      ≡ ok after
    → (after.case ≡ reused_case active decision)
      × (after.created ≡ false)
      × (after.order ≡ order)
      × (after.confirmation ≡ confirmation)
unfolding create_or_reuse
reused audit id public_id session_id decision active order confirmation events h = ground arith

-- What an active case keeps, and what it takes over.
abbrev Keeps : HandoffCase → HandoffDecision → HandoffCase → Type 0
Keeps active decision case =
    (case.public_id ≡ active.public_id)
    × (case.status ≡ active.status)
    × (ranking active.priority ≤ ranking case.priority)
    × ((s : String) → member s active.risk_ids ≡ true → member s case.risk_ids ≡ true)
    × ((s : String) → member s active.blocked_actions ≡ true → member s case.blocked_actions ≡ true)

abbrev Takes : HandoffDecision → HandoffCase → Type 0
Takes decision case =
    (case.reason_code ≡ decision.reason_code)
    × (ranking (priority_of decision.reason_code) ≤ ranking case.priority)
    × ((s : String) → member s decision.risk_ids ≡ true → member s case.risk_ids ≡ true)
    × ((s : String)
        → member s decision.blocked_actions ≡ true
        → member s case.blocked_actions ≡ true)

module _ (active : HandoffCase) (decision : HandoffDecision) where
  update_risk-Keeps : Keeps active decision (update_risk active decision)
  unfolding update_risk
  update_risk-Keeps = (
    refl,
    refl,
    (ranking-max_priority active.priority (priority_of decision.reason_code)).0,
    λ s h. rw (member-union s active.risk_ids decision.risk_ids, h),
    λ s h. rw (member-union s active.blocked_actions decision.blocked_actions, h),
  )

  update_risk-Takes : Takes decision (update_risk active decision)
  unfolding update_risk
  update_risk-Takes = (
    refl,
    (ranking-max_priority active.priority (priority_of decision.reason_code)).1,
    λ s h. rw (member-union s active.risk_ids decision.risk_ids) (ground arith),
    λ s h. rw (member-union s active.blocked_actions decision.blocked_actions) (ground arith),
  )

-- A request while a case is active reuses that case: its status and its priority rank are kept or
-- raised, it has every risk and every blocked action that it had, and the order and its confirmation
-- are left alone; for another reason it also takes that reason, the rank of its priority, and the
-- decision's risks and blocked actions.
pub reuse_lem :
    (audit : Audit) (id : ℕ) (public_id : String) (session_id : ℕ) (decision : HandoffDecision)
    (active : HandoffCase) (order : Option Order) (confirmation : Option OrderConfirmation)
    (events : List CaseEvent) {after : Requested}
    → create_or_reuse audit id public_id session_id decision (some active) order confirmation events
      ≡ ok after
    → (after.created ≡ false)
      × (after.case.public_id ≡ active.public_id)
      × (after.case.status ≡ active.status)
      × (ranking active.priority ≤ ranking after.case.priority)
      × ((s : String) → member s active.risk_ids ≡ true → member s after.case.risk_ids ≡ true)
      × ((s : String)
          → member s active.blocked_actions ≡ true
          → member s after.case.blocked_actions ≡ true)
      × (after.order ≡ order)
      × (after.confirmation ≡ confirmation)
      × (eq_reason active.reason_code decision.reason_code ≡ false
          → (after.case.reason_code ≡ decision.reason_code)
            × (ranking (priority_of decision.reason_code) ≤ ranking after.case.priority)
            × ((s : String)
                → member s decision.risk_ids ≡ true
                → member s after.case.risk_ids ≡ true)
            × ((s : String)
                → member s decision.blocked_actions ≡ true
                → member s after.case.blocked_actions ≡ true))
reuse_lem audit id public_id session_id decision active order confirmation events h =
    let facts = reused audit id public_id session_id decision active order confirmation events h in
    elim (Bool-cases (eq_reason active.reason_code decision.reason_code)) [
      | inl same ↦
          rw (facts.0, facts.1, facts.2, facts.3, same)
            (refl, refl, refl, omega arith, λ s k. k, λ s k. k, refl, refl, λ e. cc)
      | inr other ↦
          let (public, status, rank, risks, blocked) = update_risk-Keeps active decision in
          rw (facts.0, facts.1, facts.2, facts.3, other)
            (
              refl,
              public,
              status,
              rank,
              risks,
              blocked,
              refl,
              refl,
              λ e. update_risk-Takes active decision,
            )
    ]
