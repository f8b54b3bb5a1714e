-- ===== src/Entry/Preflight.antt =====
-- `TextEntryService._handle_safety_preflight`: a message is answered here, or goes on to the order.
use order_agent.Prelude.{
  Bool, not, ◌&&◌, ◌||◌, String, Option, none, some, List, [], ◌++◌, if◌then◌else◌,
}
use order_agent.Prelude.Text.{is_in}
use order_agent.Enums.{DecisionClass}
use order_agent.Errors.{Result, ok, ◌>>=◌}
use order_agent.State.{SessionState}
use order_agent.Safety.Signals.{Signal}
use order_agent.Safety.Decision.{Context, is_nil}
use order_agent.Safety.Counters.{no_counters}
use order_agent.Handoff.Cancel.{CancellationResult}
use order_agent.Entry.{
  Recorded, Services, Message, Guarded, cancelled, decided, apply_safety_state, apply_handoff_state,
  apply_cancellation_state, invalidate_confirmation_for_handoff, held_signals,
}

-- Whether the text asks to cancel the handoff.
abbrev pub asks_to_cancel : String → Bool
asks_to_cancel normalized =
    is_in "取消人工接管" normalized || is_in "取消转人工" normalized || is_in "cancel handoff" normalized

-- The answer to a cancellation.
abbrev pub cancellation_text : CancellationResult → String
cancellation_text handoff =
    if handoff.idempotent_replay && not handoff.requires_new_confirmation
    then "模拟接管此前已取消；当前订单状态未被更改。"
    else if handoff.may_continue_draft
    then "模拟人工接管已取消。订单草稿仍保留。需要重新确认后才能继续。"
    else "模拟接管已取消，但安全限制仍然有效。订单不会自动提交。"

module _ {Score : Type 0} (services : Services Score) where
  open services use {World, casefold, detect}

  -- The rows, the session, and the answer; without one, the message goes on.
  abbrev pub Outcome : Type 0
  Outcome = Result (World × (SessionState × Option (Guarded Score)))

  -- The context of the recorded decision. Its counters are put in by the service.
  abbrev pub context_of : Message Score → List Signal → Context Score
  context_of message signals = record {
    signals = signals;
    requested_action = "USER_MESSAGE";
    required_confirmations = message.required_confirmations;
    confidence = message.confidence;
    counters = no_counters;
    deterministic_input = not (is_nil signals);
    risk_ids = [];
    metric_ids = [];
  }

  -- The branches on the class of a decision, whose state has it applied.
  unfoldable pub answer_decision : DecisionClass → Recorded Score → SessionState → World → Outcome
  unfolding invalidate_confirmation_for_handoff apply_handoff_state
  answer_decision DecisionClass.refuse recorded state world =
      ok (world, (state, some (decided recorded.decision "此操作无法执行。你仍可继续处理自己的模拟订单。")))
  answer_decision DecisionClass.handoff recorded state world = do
    let invalidated = invalidate_confirmation_for_handoff state
    (world1, handoff) ← services.request_handoff recorded.decision invalidated world
    (world2, stored) ← services.store_set (apply_handoff_state handoff invalidated) world1
    ok (world2, (stored, some (decided recorded.decision "已请求模拟人工接管（不是真实人工）；当前订单已冻结且不会自动提交。")))
  answer_decision DecisionClass.confirm recorded state world =
      ok (world, (state, some (decided recorded.decision "我还不能安全确认你的意思，请明确确认或重新说明关键信息。")))
  answer_decision DecisionClass.auto_draft recorded state world = ok (world, (state, none))

  abbrev pub decide : Message Score → List Signal → SessionState → World → Outcome
  decide message signals state world = do
    (world1, recorded) ← services.evaluate_and_record (context_of message signals) world
    answer_decision recorded.decision.classification recorded (apply_safety_state recorded state)
        world1

  -- The part after the handoff was looked at; a message without any signal goes on.
  unfoldable pub assess : Message Score → List Signal → SessionState → World → Outcome
  unfolding answer_decision apply_safety_state
  assess message signals state world =
      if is_nil signals && not message.has_metadata && is_nil message.required_confirmations
      then ok (world, (state, none))
      else decide message signals state world

  abbrev pub all_signals : Message Score → SessionState → List Signal
  all_signals message state = detect message.text ++ (message.extra_signals ++ held_signals state)

  abbrev pub cancel_handoff : String → SessionState → World → Outcome
  cancel_handoff id state world = do
    (world1, handoff) ← services.cancel id world
    ok (
      world1,
      (
        apply_cancellation_state handoff state,
        some (cancelled handoff (cancellation_text handoff)),
      ),
    )

  -- `_handle_safety_preflight`
  unfoldable pub handle_safety_preflight : Message Score → SessionState → World → Outcome
  unfolding assess held_signals apply_cancellation_state
  handle_safety_preflight message state world = elim state.handoff_public_id [
    | none ↦ assess message (all_signals message state) state world
    | some id ↦ do
      status ← services.get id world
      let current = record state { handoff_status = status }
      if asks_to_cancel (casefold message.text)
          then cancel_handoff id current world
          else assess message (all_signals message current) current world
  ]
