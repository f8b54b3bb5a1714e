-- ===== src/Tests/Lifecycle.antt =====
-- One order through its lifecycle.
use order_agent.Prelude.{
  ◌++◌, ℕ, suc, ◌≡◌, refl, ◌+◌, ◌≤◌, Bool, true, false, none, some, List, [], ◌∷◌, length,
}
use order_agent.Prelude.Int.{pos}
use order_agent.Enums.{OrderStatus, ActorType}
use order_agent.Errors.{ok, err, safety_hold_active}
use order_agent.Records.{Order, OrderEvent, order_draft_created}
use order_agent.Lifecycle.{transition, transition_event}
use order_agent.Lifecycle.Trace.{
  Logged, Steps, here, next, is_local, is_unsubmitted, Steps-bounded, Steps-is_local, Steps-held,
}
use order_agent.Lifecycle.Events.{sequences, NumberedFrom, transition-NumberedFrom}

abbrev pub order : Order
order = record {
  id = 7;
  public_id = "SIM-1";
  restaurant_id = 1;
  branch_id = 1;
  session_id = 3;
  status = OrderStatus.draft;
  draft_version = 2;
  currency = "HKD";
  subtotal_minor = pos 5200;
  delivery_fee_minor = pos 500;
  total_minor = pos 5700;
  fulfillment_type = "delivery";
  delivery_zone_id = some 1;
  is_synthetic = true;
  safety_hold = false;
  safety_hold_reason = none;
}

abbrev created : List OrderEvent
created =
    (record {
      order_id = 7;
      sequence_number = 1;
      event_type = order_draft_created;
      payload = [];
      actor_type = ActorType.system;
    })
    ∷ []

abbrev confirmed : Logged
confirmed = (
  record order { status = OrderStatus.customer_confirmed },
  created
      ++ transition_event created order OrderStatus.customer_confirmed ActorType.customer [] ∷ [],
)

confirms :
    transition created order OrderStatus.customer_confirmed ActorType.customer [] false
    ≡ ok confirmed
unfolding transition
confirms = refl

held_order_is_not_submitted :
    transition created
      (record order { status = OrderStatus.customer_confirmed; safety_hold = true })
      OrderStatus.submission_started
      ActorType.system
      []
      false
    ≡ err safety_hold_active
unfolding transition
held_order_is_not_submitted = refl

transition-NumberedFrom_example :
    NumberedFrom 0 (sequences 7 confirmed.1)
    × (length (sequences 7 confirmed.1) ≡ suc (length (sequences 7 created)))
    × ((id : ℕ) → (id ≡ 7 → ⊥) → sequences id confirmed.1 ≡ sequences id created)
transition-NumberedFrom_example =
    transition-NumberedFrom created order OrderStatus.customer_confirmed ActorType.customer [] false
      confirms (refl, tt)

abbrev one_step : Steps false 1 (order, created) confirmed
one_step = next here OrderStatus.customer_confirmed ActorType.customer [] false (λ e. e) confirms

Steps-bounded_example : 0 + 1 ≤ 5
Steps-bounded_example = Steps-bounded one_step

Steps-is_local_example : is_local OrderStatus.customer_confirmed ≡ true
Steps-is_local_example = Steps-is_local one_step refl

abbrev held : Order
held = record order { safety_hold = true }

abbrev held_confirmed : Logged
held_confirmed = (
  record held { status = OrderStatus.customer_confirmed },
  created
      ++ transition_event created held OrderStatus.customer_confirmed ActorType.customer [] ∷ [],
)

held_confirms :
    transition created held OrderStatus.customer_confirmed ActorType.customer [] false
    ≡ ok held_confirmed
unfolding transition
held_confirms = refl

abbrev held_step : Steps false 1 (held, created) held_confirmed
held_step =
    next here OrderStatus.customer_confirmed ActorType.customer [] false (λ e. e) held_confirms

Steps-held_example :
    ◌≡◌ {A = Bool} true true × (is_unsubmitted OrderStatus.customer_confirmed ≡ true)
Steps-held_example = Steps-held held_step refl refl
