-- ===== src/Persist/Draft.antt =====
-- The order that a confirmation writes, before it is confirmed: a new one, or the draft that the
-- session already has.
use order_agent.Prelude.{
  ℕ, Bool, true, false, ◌&&◌, String, Option, none, some, List, [], ◌∷◌, ◌==◌, if◌then◌else◌,
  is_some,
}
use order_agent.Prelude.Int.{◌*ℤ◌}
use order_agent.Enums.{OrderStatus, ActorType, eq_order_status}
use order_agent.Records.{
  Order, OrderEvent, order_draft_created, order_draft_revalidated, number, flag,
  next_event_sequence,
}
use order_agent.State.{SessionState}
use order_agent.Persist.Request.{Tenant, Request, RequestItem}
use order_agent.Persist.Database.{OrderLine}

-- The latest order, if it is a draft of this version.
abbrev pub is_this_draft : SessionState → Order → Bool
is_this_draft state o =
    eq_order_status o.status OrderStatus.draft && o.draft_version == state.draft_version

abbrev pub reused : SessionState → Option Order → Option Order
reused state none = none
reused state (some o) = if is_this_draft state o then some o else none

-- The order that is confirmed: a new one with the given id and public id, or the reused one.
unfoldable pub drafted : Tenant → SessionState → Request → ℕ → ℕ → String → Option Order → Order
drafted tenant state request session_id id public_id none = record {
  id = id;
  public_id = public_id;
  restaurant_id = tenant.restaurant_id;
  branch_id = tenant.branch_id;
  session_id = session_id;
  status = OrderStatus.draft;
  draft_version = state.draft_version;
  currency = request.currency;
  subtotal_minor = request.subtotal_minor;
  delivery_fee_minor = request.delivery_fee_minor;
  total_minor = request.total_minor;
  fulfillment_type = request.fulfillment_type;
  delivery_zone_id = request.delivery_zone_id;
  is_synthetic = true;
  safety_hold = false;
  safety_hold_reason = none;
}
drafted tenant state request session_id id public_id (some order) = record order {
  currency = request.currency;
  subtotal_minor = request.subtotal_minor;
  delivery_fee_minor = request.delivery_fee_minor;
  total_minor = request.total_minor;
  fulfillment_type = request.fulfillment_type;
  delivery_zone_id = request.delivery_zone_id;
}

-- The event before the confirmation's.
abbrev pub draft_event : SessionState → List OrderEvent → Order → Option Order → OrderEvent
draft_event state events order before = record {
  order_id = order.id;
  sequence_number = if is_some before then next_event_sequence order.id events else 1;
  event_type = if is_some before then order_draft_revalidated else order_draft_created;
  payload = ("draftVersion", number state.draft_version) ∷ ("synthetic", flag true) ∷ [];
  actor_type = ActorType.system;
}

abbrev pub line_of : Order → RequestItem → OrderLine
line_of order item = record {
  order_id = order.id;
  menu_item_id = item.menu_item_id;
  menu_version_id = item.menu_version_id;
  item_code_snapshot = item.code;
  item_name_snapshot = item.name;
  unit_price_minor = item.unit_price_minor;
  quantity = item.quantity;
  modifier_snapshot = item.modifier_snapshot;
  line_total_minor = item.unit_price_minor *ℤ item.quantity;
}
