-- ===== src/Handoff/Case/Trace.antt =====
-- Sequences of transitions of one handoff case.
use order_agent.Prelude.{ℕ, zero, suc, ◌+◌, ◌≤◌, ◌<◌, ◌≡◌, true, arith}
use order_agent.Enums.{HandoffStatus, HandoffActorType}
use order_agent.Errors.{ok}
use order_agent.Handoff.Case.{Audit, Rows, ProviderResult, allowed, apply_transition}
use order_agent.Handoff.Case.Effects.{apply_transition_lem}

-- `CaseSteps audit n s t`: n transitions lead from the rows `s` to the rows `t`.
pub data CaseSteps (audit : Audit) : ℕ → Rows → Rows → Type 0 where
  here : {s : Rows} → CaseSteps audit zero s s
  next :
      {n : ℕ} {s t u : Rows}
      → CaseSteps audit n s t
      → (now : ℕ) (result : ProviderResult) (actor : HandoffActorType)
      → apply_transition audit now t result actor ≡ ok u
      → CaseSteps audit (suc n) s u

abbrev pub depth : HandoffStatus → ℕ
depth HandoffStatus.not_required = 0
depth HandoffStatus.requested = 1
depth HandoffStatus.pending = 2
depth HandoffStatus.simulated_agent_assigned = 3
depth HandoffStatus.simulated_agent_connected = 4
depth HandoffStatus.resolved = 5
depth HandoffStatus.failed = 5
depth HandoffStatus.cancelled = 5

depth-allowed : (a b : HandoffStatus) → allowed a b ≡ true → (depth a < depth b) × (depth b ≤ 5)
unfolding allowed
depth-allowed a b h = ground arith

depth-apply_transition :
    (audit : Audit) (now : ℕ) (rows after : Rows) (result : ProviderResult)
    (actor : HandoffActorType)
    → apply_transition audit now rows result actor ≡ ok after
    → depth rows.case.status < depth after.case.status
depth-apply_transition audit now rows after result actor h =
    let facts = apply_transition_lem audit now rows result actor h in
    rw (facts.1) (depth-allowed rows.case.status result.status facts.0).0

depth-le : (a : HandoffStatus) → depth a ≤ 5
depth-le a = ground arith

CaseSteps-depth :
    {audit : Audit} {n : ℕ} {s t : Rows}
    → CaseSteps audit n s t
    → depth s.case.status + n ≤ depth t.case.status
CaseSteps-depth here = omega arith
CaseSteps-depth {audit} (next {t = t} {u = u} r now result actor h) =
    omega (arith, CaseSteps-depth r, depth-apply_transition audit now t u result actor h)

-- A case makes at most five transitions, and only as many as are left from its status to the end of
-- the longest path: four from `REQUESTED`, none from a terminal status.
pub CaseSteps-bounded :
    {audit : Audit} {n : ℕ} {s t : Rows} → CaseSteps audit n s t → depth s.case.status + n ≤ 5
CaseSteps-bounded {t = t} r = omega (arith, CaseSteps-depth r, depth-le t.case.status)
