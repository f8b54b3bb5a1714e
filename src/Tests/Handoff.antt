-- ===== src/Tests/Handoff.antt =====
-- A case from its request to its cancellation.
use order_agent.Prelude.{
  Option, ◌+◌, ◌≤◌, ◌<◌, ◌≡◌, ◌≢◌, refl, Bool, true, false, String, none, some, [], ◌∷◌,
}
use order_agent.Prelude.Text.{member}
use order_agent.Enums.{
  OrderStatus, ActorType, HandoffReasonCode, HandoffStatus, HandoffActorType, eq_reason,
}
use order_agent.Errors.{Result, ok, err, session_version_conflict}
use order_agent.Records.{Order, OrderConfirmation}
use order_agent.State.{SessionState, new_state}
use order_agent.Handoff.Case.{
  Audit, HandoffCase, moved, risk_updated, Rows, ProviderResult, critical, allowed,
  apply_transition,
}
use order_agent.Handoff.Case.Effects.{AreReopened, changes_draft, apply_transition_lem}
use order_agent.Lifecycle.{transition, transition_event}
use order_agent.Lifecycle.Trace.{Logged, Steps}
use order_agent.Handoff.Case.Trace.{CaseSteps, here, next, CaseSteps-bounded}
use order_agent.Handoff.Request.{
  HandoffDecision, Requested, ranking, priority_of, invalidate, update_risk, create_or_reuse,
}
use order_agent.Handoff.Request.Reuse.{reuse_lem}
use order_agent.Handoff.Cancel.{
  Held, CancellationResult, is_explicit, cancellation_event, cancelled_state,
  apply_cancellation_effects, current_cancellation_result,
}
use order_agent.Handoff.Cancel.Hold.{was_free, cancel_explicit, cancel_confirmation}
use order_agent.Handoff.Cancel.Repeat.{cancel_again}
use order_agent.Handoff.Cancel.Downgrade.{downgrade_lem}
use order_agent.Tests.Lifecycle.{order}

-- Every payload is safe.
abbrev pub audit : Audit
audit = record { safe_resolution = λ r. true; safe_payload = λ p. true; safe_log = λ c. true }

abbrev pub allergy : HandoffCase
allergy = record {
  id = 4;
  public_id = "SIM-HO-4";
  session_id = 3;
  order_id = none;
  status = HandoffStatus.pending;
  reason_code = HandoffReasonCode.severe_allergy;
  priority = critical;
  risk_ids = "RISK-009" ∷ [];
  blocked_actions = "SUBMIT_TO_MERCHANT" ∷ [];
  failure_code = none;
  resolution = none;
  assigned_at = none;
  connected_at = none;
  resolved_at = none;
  failed_at = none;
}

abbrev pub held_order : Order
held_order = record order {
  status = OrderStatus.customer_confirmed;
  safety_hold = true;
  safety_hold_reason = some HandoffReasonCode.severe_allergy;
}

abbrev pub rows : Rows
rows = record {
  case = record allergy { order_id = some 7 };
  case_events = [];
  order = some held_order;
  order_events = [];
}

abbrev assigned : ProviderResult
assigned = record {
  status = HandoffStatus.simulated_agent_assigned;
  failure_code = none;
  resolution = none;
}

abbrev assigned_rows : Rows
assigned_rows = record rows {
  case = record allergy {
    order_id = some 7;
    status = HandoffStatus.simulated_agent_assigned;
    assigned_at = some 100;
  };
  case_events =
      (record {
        case_id = 4;
        sequence_number = 1;
        payload = moved HandoffStatus.pending HandoffStatus.simulated_agent_assigned none none;
        actor = HandoffActorType.simulation_provider;
      })
      ∷ [];
}

assigns :
    apply_transition audit 100 rows assigned HandoffActorType.simulation_provider ≡ ok assigned_rows
unfolding apply_transition
assigns = refl

apply_transition_lem_example :
    (allowed HandoffStatus.pending HandoffStatus.simulated_agent_assigned ≡ true)
    × (assigned_rows.case.status ≡ HandoffStatus.simulated_agent_assigned)
    × (assigned_rows.case.reason_code ≡ rows.case.reason_code)
    × (assigned_rows.case.risk_ids ≡ rows.case.risk_ids)
    × (assigned_rows.case.blocked_actions ≡ rows.case.blocked_actions)
    × (changes_draft assigned ≡ false → assigned_rows.order ≡ rows.order)
    × (changes_draft assigned ≡ true → AreReopened rows.order assigned_rows.order)
apply_transition_lem_example =
    apply_transition_lem audit 100 rows assigned HandoffActorType.simulation_provider assigns

abbrev one_step : CaseSteps audit 1 rows assigned_rows
one_step = next here 100 assigned HandoffActorType.simulation_provider assigns

CaseSteps-bounded_example : 2 + 1 ≤ 5
CaseSteps-bounded_example = CaseSteps-bounded one_step

-- The customer asks for a human while the case is active.
abbrev human : HandoffDecision
human = record {
  reason_code = HandoffReasonCode.explicit_human_request;
  risk_ids = [];
  blocked_actions = "TAKE_PAYMENT" ∷ [];
}

abbrev downgraded : Requested
downgraded = record {
  case = update_risk allergy human;
  created = false;
  case_events =
      (record {
        case_id = 4;
        sequence_number = 1;
        payload =
            risk_updated HandoffReasonCode.severe_allergy HandoffReasonCode.explicit_human_request;
        actor = HandoffActorType.orchestrator;
      })
      ∷ [];
  order = none;
  confirmation = none;
}

asks : create_or_reuse audit 5 "SIM-HO-5" 3 human (some allergy) none none [] ≡ ok downgraded
unfolding create_or_reuse
asks = refl

reuse_lem_example :
    let case = downgraded.case in
    (downgraded.created ≡ false)
    × (case.public_id ≡ allergy.public_id)
    × (case.status ≡ allergy.status)
    × (ranking allergy.priority ≤ ranking case.priority)
    × ((s : String) → member s allergy.risk_ids ≡ true → member s case.risk_ids ≡ true)
    × ((s : String)
        → member s allergy.blocked_actions ≡ true
        → member s case.blocked_actions ≡ true)
    × (downgraded.order ≡ none)
    × (downgraded.confirmation ≡ none)
    × (eq_reason allergy.reason_code human.reason_code ≡ false
        → (case.reason_code ≡ human.reason_code)
          × (ranking (priority_of human.reason_code) ≤ ranking case.priority)
          × ((s : String) → member s human.risk_ids ≡ true → member s case.risk_ids ≡ true)
          × ((s : String)
              → member s human.blocked_actions ≡ true
              → member s case.blocked_actions ≡ true))
reuse_lem_example = reuse_lem audit 5 "SIM-HO-5" 3 human allergy none none [] asks

abbrev pub confirmation : OrderConfirmation
confirmation = record {
  order_id = 7;
  draft_version = 2;
  source = "CHAT_EXPLICIT_CONFIRMATION";
  invalidated = false;
}

abbrev confirmed_state : SessionState
confirmed_state = record new_state {
  draft_version = 2;
  confirmation_valid = true;
  submitted = true;
  submitted_order_id = some "SIM-1";
  lifecycle_status = OrderStatus.customer_confirmed;
}

abbrev pub held : Held
held = record {
  case = record allergy { order_id = some 7 };
  order = some held_order;
  confirmation = some confirmation;
  order_events = [];
  state = confirmed_state;
  session_version = 6;
  stored_version = 6;
}

-- What the cancellation of the allergy's case leaves: the order stays on hold.
abbrev pub kept_order : Order
kept_order = record held_order { draft_version = 3; status = OrderStatus.draft }

abbrev kept : Held
kept = record held {
  order = some kept_order;
  confirmation = some (invalidate confirmation);
  order_events = cancellation_event held held_order kept_order ∷ [];
  state = cancelled_state held;
  session_version = 7;
  stored_version = 7;
}

abbrev pub kept_result : CancellationResult
kept_result = record {
  case_status = HandoffStatus.cancelled;
  may_continue_draft = false;
  safety_hold_cleared = false;
  confirmation_remains_invalid = true;
  requires_new_confirmation = true;
  safety_hold_active = true;
  draft_version = 3;
  lifecycle_status = OrderStatus.draft;
  persistence_version = 7;
  idempotent_replay = false;
}

keeps : apply_cancellation_effects held ≡ ok (kept, kept_result)
unfolding apply_cancellation_effects
keeps = refl

-- The lifecycle alone lets the kept draft be confirmed again.
abbrev kept_confirmed : Logged
kept_confirmed = (
  record kept_order { status = OrderStatus.customer_confirmed },
  transition_event [] kept_order OrderStatus.customer_confirmed ActorType.customer [] ∷ [],
)

confirms :
    transition [] kept_order OrderStatus.customer_confirmed ActorType.customer [] false
    ≡ ok kept_confirmed
unfolding transition
confirms = refl

abbrev kept_step : Steps true 1 (kept_order, []) kept_confirmed
kept_step =
    Steps.next Steps.here OrderStatus.customer_confirmed ActorType.customer [] false (λ used. refl)
      confirms

cancel_confirmation_example :
    (kept.state.confirmation_valid ≡ false)
    × (kept.state.submitted ≡ false)
    × (kept.confirmation ≡ some (invalidate confirmation))
    × ((order' : Order) × (kept.order ≡ some order')
        × (order'.status ≢ OrderStatus.customer_confirmed)
        × (kept.state.draft_version ≡ order'.draft_version)
        × (2 ≤ order'.draft_version)
        × (2 ≤ order'.draft_version)
        × (◌≡◌ {A = Bool} true true → 2 < order'.draft_version))
cancel_confirmation_example = cancel_confirmation held held_order refl keeps

-- The same rows for an explicit request: the order's hold is for the allergy and stays.
abbrev human_held : Held
human_held = record held {
  case = record allergy {
    order_id = some 7;
    reason_code = HandoffReasonCode.explicit_human_request;
  };
}

abbrev human_kept : Held
human_kept = record human_held {
  order = some kept_order;
  confirmation = some (invalidate confirmation);
  order_events = cancellation_event human_held held_order kept_order ∷ [];
  state = cancelled_state human_held;
  session_version = 7;
  stored_version = 7;
}

human_keeps : apply_cancellation_effects human_held ≡ ok (human_kept, kept_result)
unfolding apply_cancellation_effects
human_keeps = refl

cancel_explicit_example :
    (kept_result.may_continue_draft ≡ was_free (some held_order))
    × ((order : Order)
        → some held_order ≡ some order
        → was_free (some held_order) ≡ false
        → (order' : Order) × (human_kept.order ≡ some order')
          × (order'.safety_hold ≡ true)
          × (order'.safety_hold_reason ≡ order.safety_hold_reason))
unfolding is_explicit
cancel_explicit_example = cancel_explicit human_held refl human_keeps

-- The downgraded case is cancelled.
abbrev downgraded_held : Held
downgraded_held = record held { case = downgraded.case; order = none; confirmation = none }

abbrev freed : Held
freed = record downgraded_held {
  state = cancelled_state downgraded_held;
  session_version = 7;
  stored_version = 7;
}

abbrev freed_result : CancellationResult
freed_result = record kept_result { may_continue_draft = true; safety_hold_active = false }

frees : apply_cancellation_effects downgraded_held ≡ ok (freed, freed_result)
unfolding apply_cancellation_effects update_risk
frees = refl

downgrade_lem_example :
    (freed_result.may_continue_draft ≡ true)
    × (freed_result.safety_hold_active ≡ false)
    × (freed.state.safety_blocked_actions ≡ [])
unfolding is_explicit
downgrade_lem_example =
    downgrade_lem audit 5 "SIM-HO-5" 3 human allergy [] downgraded_held refl refl asks refl refl
      frees

conflict :
    apply_cancellation_effects (record held { stored_version = 7 }) ≡ err session_version_conflict
unfolding apply_cancellation_effects
conflict = refl

cancel_again_example :
    let again = current_cancellation_result kept in
    (again.may_continue_draft ≡ false)
    × (again.safety_hold_active ≡ true)
    × (again.confirmation_remains_invalid ≡ true)
    × (again.requires_new_confirmation ≡ true)
    × (again.draft_version ≡ 3)
    × (again.lifecycle_status ≡ OrderStatus.draft)
    × (again.persistence_version ≡ 7)
    × (again.idempotent_replay ≡ true)
    × (◌≡◌ {A = Bool} false true → again.safety_hold_cleared ≡ true)
cancel_again_example = cancel_again held keeps

-- An order that was not on hold: the second answer says that a hold was cleared.
abbrev free_held : Held
free_held = record human_held { order = some (record held_order { safety_hold = false }) }

abbrev cleared_twice : Result (Held × CancellationResult) → Option (Bool × Bool)
cleared_twice (ok (after, result)) =
    some (result.safety_hold_cleared, (current_cancellation_result after).safety_hold_cleared)
cleared_twice (err e) = none

cleared_only_in_the_repeat :
    cleared_twice (apply_cancellation_effects free_held) ≡ some (false, true)
unfolding apply_cancellation_effects current_cancellation_result
cleared_only_in_the_repeat = refl
