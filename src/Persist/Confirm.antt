-- ===== src/Persist/Confirm.antt =====
-- `OrderPersistenceService.confirm_order` and what it calls. The fingerprints, which the source makes
-- with `json.dumps` and SHA-256, are the parameter `Digest`.
pub mod Outcome
pub mod Retry
use order_agent.Prelude.{
  ℕ, ◌+◌, Bool, true, false, not, ◌&&◌, ◌||◌, String, Option, none, some, List, [], ◌∷◌, ◌++◌, map,
  ◌==◌, if◌then◌else◌, is_some,
}
use order_agent.Prelude.Int.{ℤ, ◌*ℤ◌}
use order_agent.Prelude.Text.{str_eq, sorted}
use order_agent.Enums.{OrderStatus, MerchantStatus, ActorType, eq_order_status}
use order_agent.Errors.{
  Result, ok, err, ◌>>=◌, ◌>>◌, raise_if, tenant_context_mismatch, confirmation_stale,
  idempotency_conflict, database_write_failed, session_version_conflict, safety_hold_active,
  integrity_error,
}
use order_agent.Records.{
  Order, OrderEvent, OrderConfirmation, order_draft_created, order_draft_revalidated, number, flag,
  text, next_event_sequence,
}
use order_agent.State.{OrderItem, SessionState}
use order_agent.Cart.Totals.{is_given}
use order_agent.Sessions.Contact.{without_contact, contact_from_state, apply_contact}
use order_agent.Lifecycle.{transition}
use order_agent.Persist.Fingerprint.{Digest, draft_view}
use order_agent.Persist.Draft.{reused, drafted, draft_event, line_of}
use order_agent.Persist.Request.{Tenant, Request, RequestItem}
use order_agent.Persist.Database.{
  Database, SessionRow, IdempotencyRecord, OrderLine, drop_where, get_by_public_id,
  get_latest_for_session, get_confirmation, get_record, save_latest,
}

pub record ConfirmationResult : Type 0 where
  pub public_id : String
  pub lifecycle_status : OrderStatus
  pub merchant_status : MerchantStatus
  pub subtotal_minor : ℤ
  pub delivery_fee_minor : ℤ
  pub total_minor : ℤ
  pub currency : String
  pub idempotent_replay : Bool
  pub persistence_version : ℕ

-- What a call leaves: the rows, the session's state and the result.
abbrev pub Confirmed : Type 0
Confirmed = Database × SessionState × ConfirmationResult

-- `_apply_confirmed_state`
abbrev pub confirmed_state : SessionState → String → ℕ → SessionState
confirmed_state state public_id version = record state {
  submitted = true;
  submitted_order_id = some public_id;
  stage = "submitted";
  lifecycle_status = OrderStatus.customer_confirmed;
  merchant_status = MerchantStatus.not_integrated;
  confirmation_valid = true;
  persistence_version = version;
}

-- The state of a session's row as `save_contact` and `save_optimistic` leave it, read again.
unfoldable pub stored_state : ℕ → SessionState → SessionState
unfolding without_contact
stored_state session_id state =
    apply_contact (some (contact_from_state session_id state)) (without_contact state)

-- `_result`
abbrev pub result_of : Order → Bool → ℕ → ConfirmationResult
result_of order replay version = record {
  public_id = order.public_id;
  lifecycle_status = order.status;
  merchant_status = MerchantStatus.not_integrated;
  subtotal_minor = order.subtotal_minor;
  delivery_fee_minor = order.delivery_fee_minor;
  total_minor = order.total_minor;
  currency = order.currency;
  idempotent_replay = replay;
  persistence_version = version;
}

abbrev is_valid : Option OrderConfirmation → Bool
is_valid none = false
is_valid (some c) = not c.invalidated

-- What both replays do with a record of the key.
unfoldable pub replay :
    Tenant → Database → SessionState → String → IdempotencyRecord → ℕ → Result Confirmed
replay tenant db state fingerprint existing version = do
  raise_if (not (str_eq existing.request_fingerprint fingerprint)) idempotency_conflict
  elim (get_by_public_id tenant existing.resource_id db.orders) [
    | none ↦ err database_write_failed
    | some order ↦ do
      raise_if
          (not (eq_order_status order.status OrderStatus.customer_confirmed)
            || not (is_valid (get_confirmation order.id state.draft_version db.confirmations)))
          confirmation_stale
      ok (db, confirmed_state state order.public_id version, result_of order true version)
  ]

abbrev pub is_held : Option Order → Bool
is_held none = false
is_held (some o) = o.safety_hold

-- The rows after a confirmation that is not a replay. The id of a new order has no lines to drop.
abbrev pub confirmed_rows :
    Tenant
    → Database
    → SessionRow
    → SessionState
    → String
    → String
    → Request
    → String
    → Order
    → List OrderEvent
    → Database
confirmed_rows tenant db row state key fingerprint request source order events = record {
  session = some (record row {
    version = row.version + 1;
    state = stored_state row.id (confirmed_state state order.public_id (row.version + 1));
  });
  orders = save_latest order db.orders;
  lines =
      drop_where (λ (l : OrderLine). l.order_id == order.id) db.lines
      ++ map (line_of order) request.items;
  confirmations =
      (record {
        order_id = order.id;
        draft_version = state.draft_version;
        source = source;
        invalidated = false;
      })
      ∷ db.confirmations;
  events = events;
  idempotency =
      (record {
        restaurant_id = tenant.restaurant_id;
        branch_id = tenant.branch_id;
        idempotency_key = key;
        request_fingerprint = fingerprint;
        resource_id = order.public_id;
      })
      ∷ db.idempotency;
}

-- The part of `_confirm_transaction` for a key without a record. `id` and `public_id` are those of a
-- new row, and `stored_version` is the session's version in the database when it is saved.
unfoldable pub first_confirmation :
    Tenant
    → Database
    → SessionRow
    → SessionState
    → String
    → String
    → Request
    → String
    → ℕ
    → String
    → ℕ
    → Result Confirmed
unfolding drafted save_latest drop_where next_event_sequence
first_confirmation tenant db row state key fingerprint request source id public_id stored_version =
    do
      raise_if (not (state.persistence_version == 0 || state.persistence_version == row.version))
          session_version_conflict
      let latest = get_latest_for_session tenant row.id db.orders
      raise_if (is_held latest) safety_hold_active
      let before = reused state latest
      let order = drafted tenant state request row.id id public_id before
      raise_if (is_some (get_confirmation order.id state.draft_version db.confirmations))
          integrity_error
      (order', events) ←
          transition (db.events ++ draft_event state db.events order before ∷ []) order
            OrderStatus.customer_confirmed ActorType.customer
            (("draftVersion", number state.draft_version) ∷ ("source", text source) ∷ []) false
      raise_if (not (stored_version == row.version)) session_version_conflict
      ok (
        confirmed_rows tenant db row state key fingerprint request source order' events,
        confirmed_state state order'.public_id (row.version + 1),
        result_of order' false (row.version + 1),
      )

-- The session's row, if it is the tenant's.
abbrev pub own_session : Tenant → Option SessionRow → Result SessionRow
own_session tenant none = err tenant_context_mismatch
own_session tenant (some row) =
    if row.restaurant_id == tenant.restaurant_id && row.branch_id == tenant.branch_id
    then ok row
    else err tenant_context_mismatch

-- `_confirm_transaction`
unfoldable pub confirm_transaction :
    Digest
    → Tenant
    → Database
    → SessionState
    → String
    → String
    → Request
    → String
    → ℕ
    → String
    → ℕ
    → Result Confirmed
unfolding replay first_confirmation draft_view
confirm_transaction digest tenant db state key fingerprint request source id public_id
      stored_version =
    do
      row ← own_session tenant db.session
      raise_if
          (not (str_eq (digest.draft (draft_view row.state)) (digest.draft (draft_view state))))
          confirmation_stale
      elim (get_record tenant key db.idempotency) [
        | some existing ↦ replay tenant db state fingerprint existing row.version
        | none ↦
            first_confirmation tenant db row state key fingerprint request source id public_id
              stored_version
      ]

-- `_resolve_concurrent_replay`
unfoldable pub resolve_concurrent_replay :
    Tenant → Database → SessionState → String → String → Result Confirmed
unfolding replay
resolve_concurrent_replay tenant db state key fingerprint =
    elim (get_record tenant key db.idempotency) [
      | none ↦ err database_write_failed
      | some existing ↦ replay tenant db state fingerprint existing state.persistence_version
    ]
