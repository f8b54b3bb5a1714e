-- ===== src/Entry/Blocked.antt =====
-- While a handoff holds a session, no message of it reaches the order.
use order_agent.Prelude.{
  ℕ, ◌≡◌, ◌⊎◌, refl, sym, ◌∙◌, inl, inr, Bool, true, false, not, ◌&&◌, ◌||◌, String, Option, none,
  some, List, [], ◌∷◌, ◌++◌, if◌then◌else◌, arith, Bool-cases,
}
use order_agent.Enums.{
  OrderStatus, DecisionClass, HandoffReasonCode, ReasonCode, handoff_reason, refusal_reason,
  HandoffStatus,
}
use order_agent.Errors.{ok, bind_parts}
use order_agent.State.{SessionState}
use order_agent.Safety.Confidence.{Scale, Settings}
use order_agent.Safety.Signals.{Signal, handoff_reasons, refusal_reasons}
use order_agent.Safety.Decision.{
  SafetyCounters, Context, SafetyDecision, evaluate, is_nil, all_handoff_reasons,
}
use order_agent.Safety.Decision.Classes.{class_of, evaluate_total}
use order_agent.Safety.Counters.{is_nil-append}
use order_agent.Handoff.Cancel.{CancellationResult}
use order_agent.Entry.{
  Recorded, HandoffView, Services, Message, Guarded, cancelled, decided, apply_safety_state,
  apply_handoff_state, invalidate_confirmation_for_handoff, holds_session, signal_of, held_signals,
}
use order_agent.Entry.Preflight.{
  asks_to_cancel, cancellation_text, context_of, answer_decision, decide, assess, all_signals,
  handle_safety_preflight,
}

is_nil-refusal_reasons :
    (xs ys : List Signal)
    → is_nil (refusal_reasons (xs ++ ys))
      ≡ (is_nil (refusal_reasons xs) && is_nil (refusal_reasons ys))
unfolding refusal_reasons
is_nil-refusal_reasons [] ys = refl
is_nil-refusal_reasons (x ∷ xs) ys = ground (arith, is_nil-refusal_reasons xs ys)

is_nil-handoff_reasons :
    (xs ys : List Signal)
    → is_nil (handoff_reasons (xs ++ ys))
      ≡ (is_nil (handoff_reasons xs) && is_nil (handoff_reasons ys))
unfolding handoff_reasons
is_nil-handoff_reasons [] ys = refl
is_nil-handoff_reasons (x ∷ xs) ys = ground (arith, is_nil-handoff_reasons xs ys)

-- A decision that keeps a message from the order.
abbrev is_stop : DecisionClass → Bool
is_stop DecisionClass.refuse = true
is_stop DecisionClass.handoff = true
is_stop _ = false

-- Whether a signal names a reason.
abbrev has_reasons : List Signal → Bool
has_reasons ss = not (is_nil (refusal_reasons ss)) || not (is_nil (handoff_reasons ss))

has_reasons-signal_of : (r : ReasonCode) → has_reasons (signal_of r ∷ []) ≡ true
unfolding refusal_reasons handoff_reasons
has_reasons-signal_of (handoff_reason r) = refl
has_reasons-signal_of (refusal_reason r) = refl

has_reasons-append : (xs ys : List Signal) → has_reasons ys ≡ true → has_reasons (xs ++ ys) ≡ true
has_reasons-append xs ys h =
    ground (arith, is_nil-refusal_reasons xs ys, is_nil-handoff_reasons xs ys)

ok_inj {ℓ} : {A : Type ℓ} {x y : A} → ok x ≡ ok y → x ≡ y
ok_inj h = cc

-- No confirmation of the order is in force.
abbrev pub IsFrozen : SessionState → Type 0
IsFrozen state =
    (state.confirmation_valid ≡ false)
    × (state.submitted ≡ false)
    × (state.lifecycle_status ≡ OrderStatus.draft)

invalidated-IsFrozen :
    (handoff : HandoffView) (before : SessionState) (version : ℕ) (after after' : SessionState)
    → after ≡ record (apply_handoff_state handoff (invalidate_confirmation_for_handoff before)) {
      persistence_version = version;
    }
    → after ≡ after'
    → IsFrozen after'
unfolding apply_handoff_state invalidate_confirmation_for_handoff
invalidated-IsFrozen handoff before version after after' is same =
    rw (← same, is) (refl, refl, refl)

has_reasons-is_nil : (signals : List Signal) → has_reasons signals ≡ true → is_nil signals ≡ false
unfolding refusal_reasons handoff_reasons
has_reasons-is_nil [] h = cc
has_reasons-is_nil (x ∷ xs) h = refl

-- A conjunction whose first part fails is not taken.
not_taken {ℓ} :
    {A : Type ℓ} (a b c : Bool) (x y : A) → a ≡ false → (if a && b && c then x else y) ≡ y
not_taken a b c x y h = rw h refl

module _ (scale : Scale) where
  open scale use {Score}

  all_handoff_reasons-is_nil :
      (s : Settings Score) (c : Context Score)
      → is_nil (handoff_reasons c.signals) ≡ false
      → is_nil (all_handoff_reasons scale s c) ≡ false
  unfolding all_handoff_reasons
  all_handoff_reasons-is_nil s c h = ground (
    arith,
    h,
    is_nil-append (handoff_reasons c.signals) HandoffReasonCode.repeated_misunderstanding,
  )

  class_of-is_stop :
      (s : Settings Score) (c : Context Score)
      → has_reasons c.signals ≡ true
      → is_stop (class_of scale s c) ≡ true
  class_of-is_stop s c h = ground (arith, h, all_handoff_reasons-is_nil s c)

  -- What the audit service promises: the decision of the policy, for counters of its own.
  abbrev pub DecidesByPolicy : Settings Score → Services Score → Type 0
  DecidesByPolicy s services =
      (c : Context Score) (world world' : services.World) (r : Recorded Score)
      → services.evaluate_and_record c world ≡ ok (world', r)
      → (counters : SafetyCounters) × (evaluate scale s (record c { counters = counters })
          ≡ ok r.decision)

  -- What the store promises: a session that was saved is as it was, but for its version.
  abbrev pub KeepsSession : Services Score → Type 0
  KeepsSession services =
      (state : SessionState) (world world' : services.World) (state' : SessionState)
      → services.store_set state world ≡ ok (world', state')
      → (version : ℕ) × (state' ≡ record state { persistence_version = version })

  recorded-is_stop :
      (s : Settings Score) (services : Services Score) (c : Context Score) (world : services.World)
      {world' : services.World} {r : Recorded Score}
      → DecidesByPolicy s services
      → has_reasons c.signals ≡ true
      → services.evaluate_and_record c world ≡ ok (world', r)
      → is_stop r.decision.classification ≡ true
  recorded-is_stop s services c world {world'} {r} policy h made =
      let (counters, by_policy) = policy c world world' r made in
      let context : Context Score = record c { counters = counters } in
      let (d, total, class, sound) = evaluate_total scale s context in
      let same = ok_inj (sym total ∙ by_policy) in rw (← same, class) (class_of-is_stop s context h)

  -- An answer that stops the message: a refusal, or a handoff that leaves no confirmation in force.
  abbrev pub IsStopped : SessionState → SafetyDecision Score → Type 0
  IsStopped state d =
      (d.classification ≡ DecisionClass.refuse)
      ⊎ ((d.classification ≡ DecisionClass.handoff) × IsFrozen state)

  module _ (services : Services Score) (keeps : KeepsSession services) where
    answer_decision-IsStopped :
        (class : DecisionClass) (r : Recorded Score) (state : SessionState) (world : services.World)
        {world' : services.World} {state' : SessionState} {answer : Option (Guarded Score)}
        → is_stop class ≡ true
        → r.decision.classification ≡ class
        → answer_decision services class r state world ≡ ok (world', (state', answer))
        → (text : String) × (answer ≡ some (decided r.decision text)) × IsStopped state' r.decision
    unfolding answer_decision
    answer_decision-IsStopped DecisionClass.refuse r state world stop is h =
        ("此操作无法执行。你仍可继续处理自己的模拟订单。", cc, inl is)
    answer_decision-IsStopped DecisionClass.handoff r state world {state' = state'} stop is h =
        let invalidated = invalidate_confirmation_for_handoff state in
        let ((world1, handoff), requested, h1) =
          bind_parts (services.request_handoff r.decision invalidated world) _ h in
        let ((world2, stored), saved, h2) =
          bind_parts (services.store_set (apply_handoff_state handoff invalidated) world1) _ h1 in
        let (version, kept) =
          keeps (apply_handoff_state handoff invalidated) world1 world2 stored saved in
        (
          "已请求模拟人工接管（不是真实人工）；当前订单已冻结且不会自动提交。",
          cc,
          inr (is, invalidated-IsFrozen handoff state version stored state' kept cc),
        )
    answer_decision-IsStopped DecisionClass.confirm r state world stop is h = cc
    answer_decision-IsStopped DecisionClass.auto_draft r state world stop is h = cc

    assess-IsStopped :
        (s : Settings Score) (message : Message Score) (signals : List Signal)
        (state : SessionState) (world : services.World) {world' : services.World}
        {state' : SessionState} {answer : Option (Guarded Score)}
        → DecidesByPolicy s services
        → has_reasons signals ≡ true
        → assess services message signals state world ≡ ok (world', (state', answer))
        → (d : SafetyDecision Score) × (text : String) × (answer ≡ some (decided d text))
          × IsStopped state' d
    unfolding assess
    assess-IsStopped s message signals state world policy h made =
        let ((world1, r), recorded, h1) =
          bind_parts (services.evaluate_and_record (context_of services message signals) world) _ (
            sym (
              not_taken (is_nil signals) (not message.has_metadata)
                (is_nil message.required_confirmations) (ok (world, (state, none)))
                (decide services message signals state world) (has_reasons-is_nil signals h))
            ∙ made) in
        let (text, is, stopped) =
          answer_decision-IsStopped r.decision.classification r (apply_safety_state r state) world1
            (recorded-is_stop s services (context_of services message signals) world policy h
              recorded)
            refl h1 in
        (r.decision, text, is, stopped)

all_signals-has_reasons :
    {Score : Type 0} (services : Services Score) (message : Message Score) (state : SessionState)
    (reason : ReasonCode)
    → state.safety_reason_code ≡ some reason
    → holds_session state.handoff_status reason ≡ true
    → has_reasons (all_signals services message state) ≡ true
unfolding held_signals
all_signals-has_reasons services message state reason given held =
    has_reasons-append (services.detect message.text) (message.extra_signals ++ held_signals state)
      (has_reasons-append message.extra_signals (held_signals state)
        (rw (held_signals, given, held) (has_reasons-signal_of reason)))

-- While a session's handoff is open or failed, or was cancelled with a reason other than the
-- customer's own request, no message goes on to the order: it cancels the handoff, or it is refused,
-- or it is handed off again, and then no confirmation of the order is in force. The audit service is
-- assumed to decide by the policy, and the store to keep the session that it saves.
pub preflight-held :
    (scale : Scale) (s : Settings scale.Score) (services : Services scale.Score)
    (message : Message scale.Score) (state : SessionState) (world : services.World) (id : String)
    (status : HandoffStatus) (reason : ReasonCode) {world' : services.World} {state' : SessionState}
    {answer : Option (Guarded scale.Score)}
    → DecidesByPolicy scale s services
    → KeepsSession scale services
    → state.handoff_public_id ≡ some id
    → services.get id world ≡ ok status
    → state.safety_reason_code ≡ some reason
    → holds_session status reason ≡ true
    → handle_safety_preflight services message state world ≡ ok (world', (state', answer))
    → ((result : CancellationResult) × (text : String) × (answer ≡ some (cancelled result text)))
      ⊎ ((d : SafetyDecision scale.Score) × (text : String) × (answer ≡ some (decided d text))
          × IsStopped scale state' d)
unfolding handle_safety_preflight held_signals
preflight-held scale s services message state world id status reason policy keeps linked known given
      held made =
    let current : SessionState = record state { handoff_status = status } in
    let h = rw (handle_safety_preflight, linked, known) at made in
    elim (Bool-cases (asks_to_cancel (services.casefold message.text))) [
      | inl asks ↦
          let ((world1, result), done, h1) =
            bind_parts (services.cancel id world) _ (rw asks at h) in
          inl (result, cancellation_text result, cc)
      | inr goes_on ↦ inr (
          assess-IsStopped scale services keeps s message (all_signals services message current)
            current world policy
            (all_signals-has_reasons services message current reason given held) (rw goes_on at h))
    ]
