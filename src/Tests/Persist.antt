-- ===== src/Tests/Persist.antt =====
-- One draft that is confirmed, and confirmed again.
use order_agent.Prelude.{
  ◌≡◌, ◌⊎◌, refl, true, false, String, Option, none, some, List, [], ◌∷◌, ◌++◌, map, if◌then◌else◌,
}
use order_agent.Prelude.Int.{pos, ◌+ℤ◌, ◌*ℤ◌}
use order_agent.Prelude.Text.{str_eq}
use order_agent.Errors.{ok, err, item_unavailable, confirmation_stale}
use order_agent.Enums.{OrderStatus, ActorType}
use order_agent.Records.{
  Order, OrderEvent, order_draft_created, order_entered, status, number, text, flag,
}
use order_agent.Lifecycle.{transition}
use order_agent.Modifiers.{validate}
use order_agent.State.{OrderItem, SessionState, new_state}
use order_agent.Persist.Request.{Tenant, MenuRow, Zone, Request, authoritative_request}
use order_agent.Persist.Request.Price.{reprice, authoritative_request-reprice}
use order_agent.Persist.Database.{Database, IdempotencyRecord, SessionRow, first, save_latest}
use order_agent.Persist.Fingerprint.{Digest}
use order_agent.Persist.Draft.{drafted}
use order_agent.Persist.Confirm.{
  ConfirmationResult, confirmed_state, confirm_transaction, confirmed_rows, replay, result_of,
}
use order_agent.Persist.Confirm.Outcome.{IsReplay, IsNew, confirmed_order, confirm_transaction_lem}
use order_agent.Persist.Confirm.Retry.{confirm_transaction-retry}
use order_agent.Persist.Invalidate.{
  invalidate_confirmation, update_order, invalidate_row, invalidate_confirmation_lem, IsDropped,
}
use order_agent.Persist.Service.{confirm_order}

abbrev tenant : Tenant
tenant = record {
  restaurant_id = 1;
  restaurant_code = "SIM";
  branch_id = 2;
  branch_code = "MAIN";
  currency = "HKD";
  is_simulation = true;
}

abbrev rice : MenuRow
rice = record {
  id = 11;
  menu_version_id = 5;
  code = "rice";
  name = "Rice";
  base_price_minor = pos 500;
  currency = "HKD";
  active = true;
  available = true;
  groups = [];
}

abbrev menu : String → Option MenuRow
menu code = if str_eq code "rice" then some rice else none

abbrev zone : Zone
zone = record { id = 3; fee_minor = pos 1000 }

abbrev two_rice : OrderItem
two_rice = record {
  item_id = "rice";
  name = "Rice";
  price = pos 5;
  unit_price_minor = some (pos 500);
  currency = "HKD";
  menu_item_db_id = some 11;
  menu_version_id = some 5;
  quantity = pos 2;
  options = [];
  spicy_level = none;
  exclusions = [];
  notes = none;
  category = some "staple";
  unit = none;
  source = none;
}

abbrev draft : SessionState
draft = record new_state { current_order = two_rice ∷ [] }

abbrev request : Request
request = record {
  draft_version = 1;
  currency = "HKD";
  fulfillment_type = "delivery";
  delivery_zone_id = some 3;
  delivery_fee_minor = pos 1000;
  subtotal_minor = pos 1000;
  total_minor = pos 2000;
  items =
      (record {
        menu_item_id = 11;
        menu_version_id = 5;
        code = "rice";
        name = "Rice";
        unit_price_minor = pos 500;
        quantity = pos 2;
        modifier_snapshot = [];
      })
      ∷ [];
}

requests : authoritative_request tenant menu (some zone) draft ≡ ok request
unfolding authoritative_request ◌+ℤ◌ ◌*ℤ◌ validate
requests = refl

unknown_dish :
    authoritative_request tenant (λ code. none) (some zone) draft ≡ err (item_unavailable false)
unfolding authoritative_request
unknown_dish = refl

authoritative_request-reprice_example :
    authoritative_request tenant menu (some zone) (record draft {
      current_order = map (reprice (λ e. pos 0) (λ e. some (pos 1)) (λ e. "Free")) (two_rice ∷ []);
    })
    ≡ authoritative_request tenant menu (some zone) draft
authoritative_request-reprice_example =
    authoritative_request-reprice tenant menu (some zone) draft (λ e. pos 0) (λ e. some (pos 1))
      (λ e. "Free")

abbrev digest : Digest
digest = record { draft = λ view. "draft"; request = λ version r. "request" }

abbrev row : SessionRow
row = record { id = 3; restaurant_id = 1; branch_id = 2; version = 4; state = draft }

abbrev db : Database
db = record {
  session = some row;
  orders = [];
  lines = [];
  confirmations = [];
  events = [];
  idempotency = [];
}

abbrev order : Order
order = confirmed_order tenant db row draft request 9 "SIM-9"

abbrev events : List OrderEvent
events =
    (record {
      order_id = 9;
      sequence_number = 1;
      event_type = order_draft_created;
      payload = ("draftVersion", number 1) ∷ ("synthetic", flag true) ∷ [];
      actor_type = ActorType.system;
    })
    ∷ (record {
      order_id = 9;
      sequence_number = 2;
      event_type = order_entered OrderStatus.customer_confirmed;
      payload =
          ("previousStatus", status OrderStatus.draft)
          ∷ ("draftVersion", number 1)
          ∷ ("source", text "CHAT")
          ∷ [];
      actor_type = ActorType.customer;
    })
    ∷ []

abbrev after_rows : Database
after_rows = confirmed_rows tenant db row draft "k" "request" request "CHAT" order events

abbrev after : SessionState
after = confirmed_state draft "SIM-9" 5

abbrev result : ConfirmationResult
result = result_of order false 5

confirms :
    confirm_transaction digest tenant db draft "k" "request" request "CHAT" 9 "SIM-9" 4
    ≡ ok (after_rows, after, result)
unfolding confirm_transaction first transition
confirms = refl

confirms_order :
    confirm_order digest true tenant menu (some zone) db db draft "k" "CHAT" 9 "SIM-9" 4
    ≡ ok (after_rows, after, result)
unfolding confirm_order ◌+ℤ◌ ◌*ℤ◌ validate first transition
confirms_order = refl

confirm_transaction_lem_example :
    IsReplay db draft after after_rows result ⊎ IsNew tenant db request after after_rows result
confirm_transaction_lem_example =
    confirm_transaction_lem digest tenant db draft "k" "request" request "CHAT" 9 "SIM-9" 4 confirms

confirm_transaction-retry_example :
    confirm_transaction digest tenant after_rows after "k" "request" request "CHAT" 10 "SIM-10" 5
    ≡ ok (after_rows, confirmed_state after "SIM-9" 5, record result { idempotent_replay = true })
unfolding drafted first
confirm_transaction-retry_example =
    confirm_transaction-retry digest tenant db draft "k" "request" request "CHAT" 9 "SIM-9" 4 after
      request "CHAT" 10 "SIM-10" 5 confirms refl refl refl

abbrev dropped : Order
dropped = record order { status = OrderStatus.cancelled; draft_version = 2 }

abbrev dropped_rows : Database
dropped_rows = record after_rows {
  orders = map (update_order dropped) after_rows.orders;
  confirmations = map (invalidate_row 9 1) after_rows.confirmations;
  events =
      events
      ++ (record {
        order_id = 9;
        sequence_number = 3;
        event_type = order_entered OrderStatus.cancelled;
        payload =
            ("previousStatus", status OrderStatus.customer_confirmed)
            ∷ ("reason", text "CONFIRMATION_INVALIDATED")
            ∷ ("newDraftVersion", number 2)
            ∷ [];
        actor_type = ActorType.system;
      })
        ∷ [];
}

invalidates : invalidate_confirmation tenant "SIM-9" after_rows ≡ ok (dropped_rows, 2)
unfolding invalidate_confirmation drafted save_latest
invalidates = refl

invalidated_twice : invalidate_confirmation tenant "SIM-9" dropped_rows ≡ err confirmation_stale
unfolding invalidate_confirmation drafted save_latest
invalidated_twice = refl

abbrev key_record : IdempotencyRecord
key_record = record {
  restaurant_id = 1;
  branch_id = 2;
  idempotency_key = "k";
  request_fingerprint = "request";
  resource_id = "SIM-9";
}

invalidate_confirmation_lem_example :
    IsDropped tenant "SIM-9" after_rows (dropped_rows, 2)
    × (replay tenant dropped_rows after "request" key_record 5 ≡ err confirmation_stale)
invalidate_confirmation_lem_example =
    invalidate_confirmation_lem tenant "SIM-9" after_rows after key_record 5 invalidates refl
