-- ===== src/Lifecycle.antt =====
-- The order lifecycle: backend/app/services/order_lifecycle_service.py. `transition` takes the
-- events of the unit of work and returns them with the new one, beside the changed order.
pub mod Guards
pub mod Trace
pub mod Events
use order_agent.Prelude.{Bool, true, false, not, ◌&&◌, ◌||◌, List, [], ◌∷◌, ◌++◌}
use order_agent.Enums.{OrderStatus, ActorType}
use order_agent.Errors.{
  Result, ok, ◌>>=◌, ◌>>◌, raise_if, invalid_order_transition, safety_hold_active,
}
use order_agent.Records.{Order, OrderEvent, Payload, order_entered, status, next_event_sequence}

-- ALLOWED_TRANSITIONS
unfoldable pub allowed : OrderStatus → OrderStatus → Bool
allowed OrderStatus.draft OrderStatus.customer_confirmed = true
allowed OrderStatus.draft OrderStatus.cancelled = true
allowed OrderStatus.customer_confirmed OrderStatus.submission_started = true
allowed OrderStatus.customer_confirmed OrderStatus.cancelled = true
allowed OrderStatus.submission_started OrderStatus.merchant_pending = true
allowed OrderStatus.submission_started OrderStatus.submission_failed = true
allowed OrderStatus.submission_started OrderStatus.cancelled = true
allowed OrderStatus.merchant_pending OrderStatus.merchant_accepted = true
allowed OrderStatus.merchant_pending OrderStatus.merchant_rejected = true
allowed OrderStatus.merchant_pending OrderStatus.cancelled = true
allowed OrderStatus.merchant_accepted OrderStatus.completed = true
allowed OrderStatus.merchant_accepted OrderStatus.cancelled = true
allowed OrderStatus.merchant_rejected OrderStatus.cancelled = true
allowed OrderStatus.submission_failed OrderStatus.cancelled = true
allowed _ _ = false

-- `OrderLifecycleService.validate`
unfoldable pub validate : OrderStatus → OrderStatus → Result (Unit {0})
unfolding allowed
validate current target =
    raise_if (not (allowed current target)) (invalid_order_transition current target)

-- The targets that a safety hold blocks.
unfoldable pub blocked_by_hold : OrderStatus → Bool
blocked_by_hold OrderStatus.submission_started = true
blocked_by_hold OrderStatus.merchant_pending = true
blocked_by_hold OrderStatus.merchant_accepted = true
blocked_by_hold _ = false

-- The targets that only a merchant fixture may set, on a synthetic order.
unfoldable pub needs_fixture : OrderStatus → Bool
needs_fixture OrderStatus.merchant_pending = true
needs_fixture OrderStatus.merchant_accepted = true
needs_fixture OrderStatus.merchant_rejected = true
needs_fixture _ = false

-- The event that a transition adds.
unfoldable pub transition_event :
    List OrderEvent → Order → OrderStatus → ActorType → Payload → OrderEvent
unfolding next_event_sequence
transition_event events order target actor payload = record {
  order_id = order.id;
  sequence_number = next_event_sequence order.id events;
  event_type = order_entered target;
  payload = ("previousStatus", status order.status) ∷ payload;
  actor_type = actor;
}

-- `OrderLifecycleService.transition`; the last argument is `merchant_fixture`.
unfoldable pub transition :
    List OrderEvent
    → Order
    → OrderStatus
    → ActorType
    → Payload
    → Bool
    → Result (Order × List OrderEvent)
unfolding validate blocked_by_hold needs_fixture transition_event
transition events order target actor payload merchant_fixture = do
  raise_if (order.safety_hold && blocked_by_hold target) safety_hold_active
  raise_if (needs_fixture target && (not merchant_fixture || not order.is_synthetic))
      (invalid_order_transition order.status target)
  validate order.status target
  ok (
    record order { status = target },
    events ++ transition_event events order target actor payload ∷ [],
  )
