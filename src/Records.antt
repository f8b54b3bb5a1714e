-- ===== src/Records.antt =====
-- The database rows of backend/app/db/models.py that the services read and write. Row ids, tenant
-- ids and versions are numbers, money is in minor units and may be negative before a check
-- constraint refuses it. What no modelled operation reads (timestamps, customer ids) is left out.
use order_agent.Prelude.{ℕ, suc, max, Bool, String, Option, List, [], ◌∷◌, ◌==◌, if◌then◌else◌}
use order_agent.Prelude.Int.{ℤ}
use order_agent.Enums.{OrderStatus, ActorType, HandoffReasonCode}

pub record Order : Type 0 where
  pub id : ℕ
  pub public_id : String
  pub restaurant_id : ℕ
  pub branch_id : ℕ
  pub session_id : ℕ
  pub status : OrderStatus
  pub draft_version : ℕ
  pub currency : String
  pub subtotal_minor : ℤ
  pub delivery_fee_minor : ℤ
  pub total_minor : ℤ
  pub fulfillment_type : String
  pub delivery_zone_id : Option ℕ
  pub is_synthetic : Bool
  pub safety_hold : Bool
  pub safety_hold_reason : Option HandoffReasonCode

-- The event types that the services write.
pub data EventType : Type 0 where
  order_entered : OrderStatus → EventType
  order_draft_created order_draft_revalidated order_handoff_cancelled_draft_requires_confirmation
        order_handoff_cancelled_safety_hold_retained order_simulated_handoff_draft_changed :
      EventType

-- The values of an event's JSON payload.
pub data PayloadValue : Type 0 where
  status : OrderStatus → PayloadValue
  number : ℕ → PayloadValue
  text : String → PayloadValue
  flag : Bool → PayloadValue
  reason : HandoffReasonCode → PayloadValue
  null : PayloadValue

abbrev pub Payload : Type 0
Payload = List (String × PayloadValue)

pub record OrderEvent : Type 0 where
  pub order_id : ℕ
  pub sequence_number : ℕ
  pub event_type : EventType
  pub payload : Payload
  pub actor_type : ActorType

-- The largest sequence number among the events of an order, 0 if it has none.
unfoldable pub last_sequence : ℕ → List OrderEvent → ℕ
last_sequence order_id [] = 0
last_sequence order_id (e ∷ es) =
    let rest = last_sequence order_id es in
    if e.order_id == order_id then max e.sequence_number rest else rest

-- `OrderRepository.next_event_sequence`
unfoldable pub next_event_sequence : ℕ → List OrderEvent → ℕ
unfolding last_sequence
next_event_sequence order_id es = suc (last_sequence order_id es)

pub record OrderConfirmation : Type 0 where
  pub order_id : ℕ
  pub draft_version : ℕ
  pub source : String
  pub invalidated : Bool
