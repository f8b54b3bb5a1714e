-- ===== src/Persist/Invalidate.antt =====
-- `OrderPersistenceService.invalidate_confirmation`.
use order_agent.Prelude.{
  ℕ, ◌+◌, ◌≡◌, refl, ap, ◌∙◌, inl, inr, Bool, true, false, String, Option, none, some, List, [],
  ◌∷◌, map, ◌==◌, arith, eq_iff, if◌then◌else◌, Bool-cases,
}
use order_agent.Prelude.Text.{str_eq}
use order_agent.Enums.{OrderStatus, ActorType}
use order_agent.Errors.{
  Error, Result, ok, err, ◌>>=◌, ◌>>◌, raise_if, domain_error, confirmation_stale, bind_parts,
  guard_parts,
}
use order_agent.Records.{Order, OrderConfirmation, OrderEvent, number, text}
use order_agent.State.{SessionState}
use order_agent.Lifecycle.{transition}
use order_agent.Lifecycle.Guards.{transition_lem}
use order_agent.Persist.Request.{Tenant}
use order_agent.Persist.Database.{
  Database, IdempotencyRecord, first, first-test, has_public_id, get_by_public_id,
  is_confirmation_of, get_confirmation,
}
use order_agent.Persist.Confirm.{replay}

-- A row that is looked up, or the error of its absence.
abbrev pub or_raise {ℓ} : {A : Type ℓ} → Option A → Error → Result A
or_raise none error = err error
or_raise (some row) error = ok row

-- The order's row is written in its place.
abbrev pub update_order : Order → Order → Order
update_order order row = if row.id == order.id then order else row

-- The draft version has at most one confirmation.
abbrev pub invalidate_row : ℕ → ℕ → OrderConfirmation → OrderConfirmation
invalidate_row order_id draft_version c =
    if is_confirmation_of order_id draft_version c then record c { invalidated = true } else c

abbrev pub next_draft : Order → Order
next_draft order = record order { draft_version = order.draft_version + 1 }

-- The call of `transition`.
unfoldable pub cancel_order : Database → Order → Result (Order × List OrderEvent)
unfolding transition
cancel_order db order =
    transition db.events (next_draft order) OrderStatus.cancelled ActorType.system
      (("reason", text "CONFIRMATION_INVALIDATED")
        ∷ ("newDraftVersion", number (order.draft_version + 1))
        ∷ [])
      false

-- The part of `invalidate_confirmation` for an order and its confirmation.
unfoldable pub invalidate_order : Database → Order → OrderConfirmation → Result (Database × ℕ)
unfolding cancel_order
invalidate_order db order confirmation = do
  raise_if confirmation.invalidated confirmation_stale
  (order', events) ← cancel_order db order
  ok (
    record db {
      orders = map (update_order order') db.orders;
      confirmations = map (invalidate_row order.id order.draft_version) db.confirmations;
      events = events;
    },
    order'.draft_version,
  )

-- `invalidate_confirmation`, for a tenant that was resolved.
unfoldable pub invalidate_confirmation : Tenant → String → Database → Result (Database × ℕ)
unfolding first invalidate_order
invalidate_confirmation tenant public_id db = do
  order ← or_raise (get_by_public_id tenant public_id db.orders) (domain_error "ORDER_NOT_FOUND")
  confirmation ←
      or_raise (get_confirmation order.id order.draft_version db.confirmations) confirmation_stale
  invalidate_order db order confirmation

or_raise-ok {ℓ} :
    {A : Type ℓ} (o : Option A) (error : Error) {a : A} → or_raise o error ≡ ok a → o ≡ some a
or_raise-ok none error h = cc
or_raise-ok (some b) error h = cc

eq_refl : (s : String) → str_eq s s ≡ true
eq_refl s = ground (arith, eq_iff s s)

found_order : {a b : Order} → some a ≡ some b → a ≡ b
found_order h = cc

-- A row that was found and written is found as it was written.
first-update :
    (test : Order → Bool) (order' : Order) (rows : List Order) {order : Order}
    → first test rows ≡ some order
    → order.id ≡ order'.id
    → test order' ≡ true
    → first test (map (update_order order') rows) ≡ some order'
unfolding first
first-update test order' [] h same passes = cc
first-update test order' (row ∷ rows) h same passes = elim (Bool-cases (row.id == order'.id)) [
  | inl its_own ↦ rw (its_own, passes) refl
  | inr other ↦ elim (Bool-cases (test row)) [
    | inl hit ↦
        let its_id = ap (λ (o : Order). o.id) (found_order (rw hit at h)) ∙ same in
        ground (arith, its_id, other)
    | inr miss ↦ rw (other, miss) (first-update test order' rows (rw miss at h) same passes)
  ]
]

replay-cancelled :
    (tenant : Tenant) (db : Database) (state : SessionState) (fingerprint : String)
    (existing : IdempotencyRecord) (version : ℕ) {order : Order}
    → get_by_public_id tenant existing.resource_id db.orders ≡ some order
    → order.status ≡ OrderStatus.cancelled
    → str_eq existing.request_fingerprint fingerprint ≡ true
    → replay tenant db state fingerprint existing version ≡ err confirmation_stale
unfolding replay
replay-cancelled tenant db state fingerprint existing version found cancelled same =
    rw (replay, same, found, cancelled) refl

rows_inj : {a b : Database × ℕ} → ok a ≡ ok b → a ≡ b
rows_inj h = cc

-- What the order is afterwards, next to what it was.
abbrev pub IsDropped : Tenant → String → Database → Database × ℕ → Type 0
IsDropped tenant public_id before (db, draft_version) =
    (was : Order) × (order : Order) × (get_by_public_id tenant public_id before.orders ≡ some was)
    × (get_by_public_id tenant public_id db.orders ≡ some order)
    × (order.status ≡ OrderStatus.cancelled)
    × (order.draft_version ≡ was.draft_version + 1)
    × (draft_version ≡ was.draft_version + 1)

cancel_order-passes :
    (tenant : Tenant) (public_id : String) (db : Database) (order : Order) {order' : Order}
    {events : List OrderEvent}
    → cancel_order db order ≡ ok (order', events)
    → has_public_id tenant public_id order ≡ true
    → (order.id ≡ order'.id)
      × (has_public_id tenant public_id order' ≡ true)
      × (order'.status ≡ OrderStatus.cancelled)
      × (order'.draft_version ≡ order.draft_version + 1)
unfolding cancel_order
cancel_order-passes tenant public_id db order {order'} {events} h passes =
    let moved =
      (transition_lem db.events (next_draft order) OrderStatus.cancelled ActorType.system _ false
        {order' = order'} {events' = events} h).1 in
    rw moved (refl, passes, refl, refl)

invalidate_order-IsDropped :
    (tenant : Tenant) (public_id : String) (db : Database) (order : Order)
    (confirmation : OrderConfirmation) {after : Database × ℕ}
    → get_by_public_id tenant public_id db.orders ≡ some order
    → invalidate_order db order confirmation ≡ ok after
    → IsDropped tenant public_id db after
unfolding invalidate_order
invalidate_order-IsDropped tenant public_id db order confirmation found h =
    let (valid, h1) = guard_parts confirmation.invalidated confirmation_stale _ h in
    let ((order', events), moved, h2) = bind_parts (cancel_order db order) _ h1 in
    let (same, passes, cancelled, advanced) =
      cancel_order-passes tenant public_id db order moved
        (first-test (has_public_id tenant public_id) db.orders found) in
    rw (← rows_inj h2) (
      order,
      order',
      found,
      first-update (has_public_id tenant public_id) order' db.orders found same passes,
      cancelled,
      advanced,
      advanced,
    )

invalidate-IsDropped :
    (tenant : Tenant) (public_id : String) (db : Database) {after : Database × ℕ}
    → invalidate_confirmation tenant public_id db ≡ ok after
    → IsDropped tenant public_id db after
unfolding invalidate_confirmation
invalidate-IsDropped tenant public_id db h =
    let (order, looked_up, h1) =
      bind_parts
        (or_raise (get_by_public_id tenant public_id db.orders) (domain_error "ORDER_NOT_FOUND")) _
        h in
    let (confirmation, confirmed, h2) =
      bind_parts
        (or_raise (get_confirmation order.id order.draft_version db.confirmations)
          confirmation_stale)
        _ h1 in
    invalidate_order-IsDropped tenant public_id db order confirmation
      (or_raise-ok (get_by_public_id tenant public_id db.orders) _ looked_up) h2

-- Once a confirmation was invalidated, its order is cancelled, its draft version is one more than
-- before, which is the version that is answered, and no retry is answered with it: a replay of a key
-- of the order, by the tenant and with the fingerprint of the key's request, is refused as stale,
-- whatever the session's state.
pub invalidate_confirmation_lem :
    (tenant : Tenant) (public_id : String) (db : Database) {db' : Database} {draft_version : ℕ}
    (state : SessionState) (existing : IdempotencyRecord) (version : ℕ)
    → invalidate_confirmation tenant public_id db ≡ ok (db', draft_version)
    → existing.resource_id ≡ public_id
    → IsDropped tenant public_id db (db', draft_version)
      × (replay tenant db' state existing.request_fingerprint existing version
          ≡ err confirmation_stale)
invalidate_confirmation_lem tenant public_id db {db'} state existing version h of_order =
    let dropped = invalidate-IsDropped tenant public_id db h in
    let (was, order, found_before, found, cancelled, versions, answer) = dropped in
    (
      dropped,
      replay-cancelled tenant db' state existing.request_fingerprint existing version
          {order = order} (rw of_order found) cancelled (eq_refl existing.request_fingerprint),
    )
