-- ===== src/Handoff/Case/Effects.antt =====
-- What a transition of a handoff case does to the case and to its order.
use order_agent.Prelude.{
  ℕ, ◌+◌, ◌≡◌, refl, inl, inr, Bool, true, false, Option, none, some, arith, Bool-cases,
}
use order_agent.Enums.{OrderStatus, HandoffStatus, HandoffFailureCode, HandoffActorType}
use order_agent.Errors.{Result, ok, err, bind_parts}
use order_agent.Records.{Order}
use order_agent.Handoff.Case.{
  Audit, Rows, ProviderResult, allowed, apply_transition, enter, finish, fail_case, add_event,
  moved,
}

-- An order is left as it was, or is reopened as a held draft with the next version.
abbrev pub IsReopened : Option Order → Option Order → Type 0
IsReopened (some before) (some after) =
    (after.status ≡ OrderStatus.draft)
    × (after.safety_hold ≡ true)
    × (after.draft_version ≡ before.draft_version + 1)
    × (after.safety_hold_reason ≡ before.safety_hold_reason)
IsReopened _ _ = ⊥

-- An order that is there is reopened.
abbrev pub AreReopened : Option Order → Option Order → Type 0
AreReopened none after = after ≡ none
AreReopened (some before) after = IsReopened (some before) after

-- Whether a provider's result says that a resolution changed the draft.
abbrev pub changes_draft : ProviderResult → Bool
changes_draft result = elim result.status [
  | HandoffStatus.resolved ↦ elim result.resolution [ none ↦ false | some r ↦ r.draft_changed ]
  | _ ↦ false
]

-- What `enter` keeps of the rows.
abbrev Enters : ProviderResult → Rows → Rows → Type 0
Enters result before after =
    (after.case.status ≡ before.case.status)
    × (after.case.reason_code ≡ before.case.reason_code)
    × (after.case.risk_ids ≡ before.case.risk_ids)
    × (after.case.blocked_actions ≡ before.case.blocked_actions)
    × (changes_draft result ≡ false → after.order ≡ before.order)
    × (changes_draft result ≡ true → AreReopened before.order after.order)

enter-Enters :
    (audit : Audit) (now : ℕ) (result : ProviderResult) (target : HandoffStatus) (rows : Rows)
    {after : Rows}
    → result.status ≡ target
    → enter audit now result target rows ≡ ok after
    → Enters result rows after
unfolding enter
enter-Enters audit now result target rows same h = ground arith

finish-rows :
    (audit : Audit) (result : ProviderResult) (current : HandoffStatus) (actor : HandoffActorType)
    (rows : Rows) {after : Rows}
    → finish audit result current actor rows ≡ ok after
    → (after.case ≡ rows.case) × (after.order ≡ rows.order)
unfolding finish
finish-rows audit result current actor rows h = ground arith

-- A transition of a case that succeeds follows the table, keeps the reason, the risks and the
-- blocked actions of the case, and leaves its order as it was unless it is a resolution that
-- changed the draft; after such a one the case's order, if it has one, is a held draft with the next
-- version.
pub apply_transition_lem :
    (audit : Audit) (now : ℕ) (rows : Rows) (result : ProviderResult) (actor : HandoffActorType)
    {after : Rows}
    → apply_transition audit now rows result actor ≡ ok after
    → (allowed rows.case.status result.status ≡ true)
      × (after.case.status ≡ result.status)
      × (after.case.reason_code ≡ rows.case.reason_code)
      × (after.case.risk_ids ≡ rows.case.risk_ids)
      × (after.case.blocked_actions ≡ rows.case.blocked_actions)
      × (changes_draft result ≡ false → after.order ≡ rows.order)
      × (changes_draft result ≡ true → AreReopened rows.order after.order)
unfolding apply_transition
apply_transition_lem audit now rows result actor h =
    elim (Bool-cases (allowed rows.case.status result.status)) [
      | inr refused ↦ absurd (ground arith)
      | inl follows ↦
          let moved : Rows = record rows { case = record rows.case { status = result.status } } in
          let rest = λ (entered : Rows). finish audit result rows.case.status actor entered in
          let (entered, inner, outer) =
            bind_parts (enter audit now result result.status moved) rest (rw follows at h) in
          let kept = enter-Enters audit now result result.status moved refl inner in
          let done = finish-rows audit result rows.case.status actor entered outer in
          ground (arith, follows, kept, done)
    ]

abbrev has_returned : Result Rows → Bool
has_returned (ok rows) = true
has_returned (err e) = false

returned :
    (result : Result Rows) → has_returned result ≡ true → (after : Rows) × (result ≡ ok after)
returned (ok rows) h = (rows, refl)
returned (err e) h = cc

-- A transition to FAILED that the table allows, and whose event and log line pass the audit, returns.
pub apply_transition-failed :
    (audit : Audit) (now : ℕ) (rows : Rows) (code : HandoffFailureCode) (actor : HandoffActorType)
    → allowed rows.case.status HandoffStatus.failed ≡ true
    → audit.safe_payload (moved rows.case.status HandoffStatus.failed (some code) none) ≡ true
    → audit.safe_log (record rows.case {
      status = HandoffStatus.failed;
      failure_code = some code;
      failed_at = some now;
    })
      ≡ true
    → (after : Rows) × (apply_transition audit now rows
          (record { status = HandoffStatus.failed; failure_code = some code; resolution = none })
          actor
        ≡ ok after)
      × (after.case.status ≡ HandoffStatus.failed)
unfolding apply_transition enter finish fail_case add_event
apply_transition-failed audit now rows code actor follows safe logged =
    let result : ProviderResult = record {
      status = HandoffStatus.failed;
      failure_code = some code;
      resolution = none;
    } in
    let (after, done) =
      returned (apply_transition audit now rows result actor) (rw (follows, safe, logged) refl) in
    (after, done, (apply_transition_lem audit now rows result actor done).1)
