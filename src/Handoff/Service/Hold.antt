-- ===== src/Handoff/Service/Hold.antt =====
-- Whatever the handoff service does with a mandatory case, its order stays on hold.
use order_agent.Prelude.{
  ◌≡◌, refl, ap, ◌∙◌, ℕ, true, false, Option, none, some, inl, inr, Bool-cases,
}
use order_agent.Enums.{HandoffReasonCode, HandoffStatus, HandoffActorType}
use order_agent.Errors.{Result, ok, bind_parts}
use order_agent.Records.{Order}
use order_agent.Handoff.Case.{Audit, Rows, ProviderResult, apply_transition}
use order_agent.Handoff.Case.Effects.{apply_transition_lem, AreReopened, changes_draft}
use order_agent.Handoff.Cancel.{
  Held, CancellationResult, is_explicit, cancelled_order, apply_cancellation_effects,
}
use order_agent.Handoff.Cancel.Hold.{IsHeldFor, cancelled_order-IsHeldFor, effects_order}
use order_agent.Handoff.Service.{
  CancelRows, provider_cancelled, is_cancelled, is_active, cancel_claimed, cancel_lost, cancel,
}
use order_agent.Handoff.Service.Cancelled.{effects-case}

-- The rows of a transition, among those of a cancellation.
abbrev pub rows_of : CancelRows → Rows
rows_of rows = record {
  case = rows.held.case;
  case_events = rows.case_events;
  order = rows.held.order;
  order_events = rows.held.order_events;
}

-- `HandoffSteps audit s t`: transitions and cancellations of one case lead from the rows `s` to the
-- rows `t`. A cancellation finds the session and the confirmation in any state.
pub data HandoffSteps (audit : Audit) : Rows → Rows → Type 0 where
  here : {s : Rows} → HandoffSteps audit s s
  transitioned :
      {s t u : Rows}
      → HandoffSteps audit s t
      → (now : ℕ) (result : ProviderResult) (actor : HandoffActorType)
      → apply_transition audit now t result actor ≡ ok u
      → HandoffSteps audit s u
  withdrawn :
      {s : Rows}
      → (rows rows' : CancelRows) → HandoffSteps audit s (rows_of rows)
      → (now : ℕ) (stored : HandoffStatus) (result : CancellationResult)
      → cancel audit now stored rows ≡ ok (rows', result)
      → HandoffSteps audit s (rows_of rows')

-- The hold of an optional order.
abbrev pub IsHeld : Option Order → Type 0
IsHeld none = Unit
IsHeld (some order) = order.safety_hold ≡ true

-- The case has the given reason and its order, if it has one, is on hold.
abbrev pub IsHolding : HandoffReasonCode → Rows → Type 0
IsHolding code rows = (rows.case.reason_code ≡ code) × IsHeld rows.order

AreReopened-IsHeld : (before after : Option Order) → AreReopened before after → IsHeld after
AreReopened-IsHeld none after h = rw h tt
AreReopened-IsHeld (some b) none h = tt
AreReopened-IsHeld (some b) (some a) h = h.1

IsHeldFor-IsHeld :
    (code : HandoffReasonCode) (order : Option Order) → IsHeldFor code order → IsHeld order
IsHeldFor-IsHeld code none h = tt
IsHeldFor-IsHeld code (some order) h = h.0

transition-IsHolding :
    (audit : Audit) (now : ℕ) (rows : Rows) (result : ProviderResult) (actor : HandoffActorType)
    (code : HandoffReasonCode) {after : Rows}
    → apply_transition audit now rows result actor ≡ ok after
    → IsHolding code rows
    → IsHolding code after
transition-IsHolding audit now rows result actor code {after} h held =
    let (follows, status, same, risks, blocked, kept, reopened) =
      apply_transition_lem audit now rows result actor h in
    (
      same ∙ held.0,
      elim (Bool-cases (changes_draft result)) [
        | inl changed ↦ AreReopened-IsHeld rows.order after.order (reopened changed)
        | inr unchanged ↦ rw (kept unchanged) held.1
      ],
    )

leaves-IsHolding :
    (code : HandoffReasonCode) (a : CancelRows) {rows' : CancelRows}
    {result result' : CancellationResult}
    → IsHolding code (rows_of a)
    → ◌≡◌ {A = Result (CancelRows × CancellationResult)} (ok (a, result)) (ok (rows', result'))
    → IsHolding code (rows_of rows')
leaves-IsHolding code a {rows'} held h = let same : a ≡ rows' = cc in rw (← same) held

claimed-IsHolding :
    (audit : Audit) (now : ℕ) (rows : CancelRows) (code : HandoffReasonCode) {rows' : CancelRows}
    {result : CancellationResult}
    → is_explicit code ≡ false
    → cancel_claimed audit now rows ≡ ok (rows', result)
    → IsHolding code (rows_of rows)
    → IsHolding code (rows_of rows')
unfolding cancel_claimed
claimed-IsHolding audit now rows code mandatory h held =
    let (moved, transition, h1) =
      bind_parts
        (apply_transition audit now (rows_of rows) provider_cancelled HandoffActorType.customer) _
        h in
    let before : Held = record rows.held { case = moved.case } in
    let ((after, answer), effects, h2) = bind_parts (apply_cancellation_effects before) _ h1 in
    let reason =
      (transition-IsHolding audit now (rows_of rows) provider_cancelled HandoffActorType.customer
        code transition held).0 in
    let for_reason = cancelled_order-IsHeldFor before (rw reason mandatory) in
    leaves-IsHolding code _
      (
        ap (λ case. case.reason_code) (effects-case before effects) ∙ reason,
        rw ((effects_order before effects).0)
            (IsHeldFor-IsHeld before.case.reason_code (cancelled_order before) for_reason),
      )
      h2

lost-IsHolding :
    (stored : HandoffStatus) (rows : CancelRows) (code : HandoffReasonCode) {rows' : CancelRows}
    {result : CancellationResult}
    → cancel_lost stored rows ≡ ok (rows', result)
    → IsHolding code (rows_of rows)
    → IsHolding code (rows_of rows')
unfolding cancel_lost
lost-IsHolding stored rows code h held = elim (Bool-cases (is_cancelled stored)) [
  | inl done ↦ leaves-IsHolding code _ held (rw (cancel_lost, done) at h)
  | inr other ↦ cc (rw (cancel_lost, other) at h)
]

cancel-IsHolding :
    (audit : Audit) (now : ℕ) (stored : HandoffStatus) (rows : CancelRows)
    (code : HandoffReasonCode) {rows' : CancelRows} {result : CancellationResult}
    → is_explicit code ≡ false
    → cancel audit now stored rows ≡ ok (rows', result)
    → IsHolding code (rows_of rows)
    → IsHolding code (rows_of rows')
unfolding cancel
cancel-IsHolding audit now stored rows code mandatory h held =
    elim (Bool-cases (is_cancelled rows.held.case.status)) [
      | inl before ↦ leaves-IsHolding code rows held (rw (cancel, before) at h)
      | inr open_case ↦ elim (Bool-cases (is_active stored)) [
        | inl active ↦
            claimed-IsHolding audit now rows code mandatory (rw (cancel, open_case, active) at h)
              held
        | inr lost ↦ lost-IsHolding stored rows code (rw (cancel, open_case, lost) at h) held
      ]
    ]

-- No sequence of transitions and cancellations of a case takes its order off hold, or changes the
-- case's reason, if that reason is not an explicit request for a human.
pub HandoffSteps-IsHeld :
    {audit : Audit} {s t : Rows}
    → HandoffSteps audit s t
    → is_explicit s.case.reason_code ≡ false
    → IsHeld s.order
    → IsHolding s.case.reason_code t
HandoffSteps-IsHeld here mandatory held = (refl, held)
HandoffSteps-IsHeld {audit} {s = s} (transitioned {t = t} r now result actor e) mandatory held =
    transition-IsHolding audit now t result actor s.case.reason_code e
      (HandoffSteps-IsHeld r mandatory held)
HandoffSteps-IsHeld {audit} {s = s} (withdrawn rows rows' r now stored result e) mandatory held =
    cancel-IsHolding audit now stored rows s.case.reason_code mandatory e
      (HandoffSteps-IsHeld r mandatory held)
