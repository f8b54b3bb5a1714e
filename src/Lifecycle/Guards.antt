-- ===== src/Lifecycle/Guards.antt =====
-- What a successful transition says of the order before and after it.
use order_agent.Prelude.{◌≡◌, Bool, true, false, List, arith}
use order_agent.Enums.{OrderStatus, ActorType}
use order_agent.Errors.{ok}
use order_agent.Records.{Order, OrderEvent, Payload}
use order_agent.Lifecycle.{allowed, blocked_by_hold, needs_fixture, transition}

-- A transition that returns follows an edge of the table, sets the status and changes nothing else
-- of the order; if the order is on hold, the target is not one that the hold blocks; and a merchant
-- status is set only for a fixture and a synthetic order.
pub transition_lem :
    (events : List OrderEvent) (order : Order) (target : OrderStatus) (actor : ActorType)
    (payload : Payload) (fixture : Bool) {order' : Order} {events' : List OrderEvent}
    → transition events order target actor payload fixture ≡ ok (order', events')
    → (allowed order.status target ≡ true)
      × (order' ≡ record order { status = target })
      × (order.safety_hold ≡ true → blocked_by_hold target ≡ false)
      × (needs_fixture target ≡ true → (fixture ≡ true) × (order.is_synthetic ≡ true))
unfolding transition
transition_lem events order target actor payload fixture h = ground arith
