-- ===== src/Handoff/Service/Cancelled.antt =====
-- A cancellation that returned, and any later one.
use order_agent.Prelude.{ℕ, ◌≡◌, refl, ap, sym, ◌∙◌, inl, inr, true, not, ◌==◌, Bool-cases}
use order_agent.Enums.{HandoffStatus, HandoffActorType}
use order_agent.Errors.{Result, ok, bind_parts, guard_parts, session_version_conflict}
use order_agent.Handoff.Case.{Audit, HandoffCase, Rows, apply_transition}
use order_agent.Handoff.Case.Effects.{apply_transition_lem}
use order_agent.Handoff.Cancel.{
  Held, CancellationResult, apply_cancellation_effects, current_cancellation_result,
}
use order_agent.Handoff.Service.{
  CancelRows, provider_cancelled, is_cancelled, is_active, cancel_claimed, cancel_lost, cancel,
}

cancelled_status :
    (status : HandoffStatus) → is_cancelled status ≡ true → status ≡ HandoffStatus.cancelled
cancelled_status HandoffStatus.cancelled h = refl
cancelled_status HandoffStatus.not_required h = cc
cancelled_status HandoffStatus.requested h = cc
cancelled_status HandoffStatus.pending h = cc
cancelled_status HandoffStatus.simulated_agent_assigned h = cc
cancelled_status HandoffStatus.simulated_agent_connected h = cc
cancelled_status HandoffStatus.resolved h = cc
cancelled_status HandoffStatus.failed h = cc

-- The case of the rows is cancelled.
abbrev IsCancelled : CancelRows → Type 0
IsCancelled rows = rows.held.case.status ≡ HandoffStatus.cancelled

pub effects-case :
    (h : Held) {held : Held} {result : CancellationResult}
    → apply_cancellation_effects h ≡ ok (held, result)
    → held.case ≡ h.case
unfolding apply_cancellation_effects
effects-case h done =
    let (at, made) =
      guard_parts (not (h.stored_version == h.session_version)) session_version_conflict _ done in
    cc

leaves_status :
    (a : CancelRows) {rows' : CancelRows} {result result' : CancellationResult}
    → IsCancelled a
    → ◌≡◌ {A = Result (CancelRows × CancellationResult)} (ok (a, result)) (ok (rows', result'))
    → IsCancelled rows'
leaves_status a {rows'} status h =
    let same : a ≡ rows' = cc in
    sym (ap (λ (rows : CancelRows). rows.held.case.status) same) ∙ status

claimed-IsCancelled :
    (audit : Audit) (now : ℕ) (rows : CancelRows) {rows' : CancelRows} {result : CancellationResult}
    → cancel_claimed audit now rows ≡ ok (rows', result)
    → IsCancelled rows'
unfolding cancel_claimed
claimed-IsCancelled audit now rows h =
    let start : Rows = record {
      case = rows.held.case;
      case_events = rows.case_events;
      order = rows.held.order;
      order_events = rows.held.order_events;
    } in
    let (moved, transition, h1) =
      bind_parts (apply_transition audit now start provider_cancelled HandoffActorType.customer) _
        h in
    let ((held, result), effects, h2) =
      bind_parts (apply_cancellation_effects (record rows.held { case = moved.case })) _ h1 in
    let status =
      (apply_transition_lem audit now start provider_cancelled HandoffActorType.customer
        transition).1 in
    let kept = effects-case (record rows.held { case = moved.case }) effects in
    leaves_status _ (ap (λ (case : HandoffCase). case.status) kept ∙ status) h2

lost-IsCancelled :
    (stored : HandoffStatus) (rows : CancelRows) {rows' : CancelRows} {result : CancellationResult}
    → cancel_lost stored rows ≡ ok (rows', result)
    → IsCancelled rows'
unfolding cancel_lost
lost-IsCancelled stored rows h = elim (Bool-cases (is_cancelled stored)) [
  | inl done ↦ leaves_status _ (cancelled_status stored done) (rw (cancel_lost, done) at h)
  | inr other ↦ cc (rw (cancel_lost, other) at h)
]

cancel-IsCancelled :
    (audit : Audit) (now : ℕ) (stored : HandoffStatus) (rows : CancelRows) {rows' : CancelRows}
    {result : CancellationResult}
    → cancel audit now stored rows ≡ ok (rows', result)
    → IsCancelled rows'
unfolding cancel
cancel-IsCancelled audit now stored rows h =
    elim (Bool-cases (is_cancelled rows.held.case.status)) [
      | inl before ↦
          leaves_status rows (cancelled_status rows.held.case.status before)
            (rw (cancel, before) at h)
      | inr open_case ↦ elim (Bool-cases (is_active stored)) [
        | inl active ↦ claimed-IsCancelled audit now rows (rw (cancel, open_case, active) at h)
        | inr lost ↦ lost-IsCancelled stored rows (rw (cancel, open_case, lost) at h)
      ]
    ]

-- A cancellation that returns leaves the case cancelled, also where another transaction was first;
-- and any later cancellation of the case returns, changes no row, and answers with the session as it
-- is, marked as a replay.
pub cancel_lem :
    (audit : Audit) (now later : ℕ) (stored stored' : HandoffStatus) (rows : CancelRows)
    {rows' : CancelRows} {result : CancellationResult}
    → cancel audit now stored rows ≡ ok (rows', result)
    → (rows'.held.case.status ≡ HandoffStatus.cancelled)
      × (cancel audit later stored' rows' ≡ ok (rows', current_cancellation_result rows'.held))
      × ((current_cancellation_result rows'.held).idempotent_replay ≡ true)
unfolding cancel current_cancellation_result
cancel_lem audit now later stored stored' rows {rows'} h =
    let status = cancel-IsCancelled audit now stored rows h in
    let cancelled_now : is_cancelled rows'.held.case.status ≡ true = rw status refl in
    (status, rw (cancel, cancelled_now) refl, refl)
