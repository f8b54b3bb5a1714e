-- ===== src/Persist/Confirm/Outcome.antt =====
-- What a confirmation that returns leaves behind.
use order_agent.Prelude.{
  ℕ, ◌+◌, ◌++◌, ◌∷◌, [], ◌||◌, not, ◌==◌, is_some, Option-cases, ◌≡◌, ◌⊎◌, inl, inr, refl, true,
  false, String, Option, none, some, List, arith,
}
use order_agent.Prelude.Text.{str_eq}
use order_agent.Enums.{OrderStatus, MerchantStatus, ActorType}
use order_agent.Errors.{
  Result, ok, bind_parts, guard_parts, session_version_conflict, safety_hold_active,
  integrity_error, confirmation_stale,
}
use order_agent.Records.{Order, OrderEvent, number, text}
use order_agent.State.{SessionState}
use order_agent.Lifecycle.{transition}
use order_agent.Lifecycle.Guards.{transition_lem}
use order_agent.Persist.Request.{Tenant, Request}
use order_agent.Persist.Database.{
  Database, SessionRow, IdempotencyRecord, get_record, get_latest_for_session, get_confirmation,
}
use order_agent.Persist.Fingerprint.{Digest, draft_view}
use order_agent.Persist.Draft.{reused, drafted, draft_event}
use order_agent.Persist.Confirm.{
  Confirmed, ConfirmationResult, confirmed_rows, confirmed_state, stored_state, result_of, replay,
  is_held, first_confirmation, own_session, confirm_transaction,
}

-- The session is confirmed, for an order that no restaurant has received.
abbrev pub IsSettled : SessionState → ConfirmationResult → Type 0
IsSettled after result =
    (after.submitted ≡ true)
    × (after.confirmation_valid ≡ true)
    × (after.stage ≡ "submitted")
    × (after.lifecycle_status ≡ OrderStatus.customer_confirmed)
    × (after.merchant_status ≡ MerchantStatus.not_integrated)
    × (after.submitted_order_id ≡ some result.public_id)
    × (result.lifecycle_status ≡ OrderStatus.customer_confirmed)

-- A replay: nothing is written, and the answer is that of a confirmed order among the rows.
abbrev pub IsReplay :
    Database → SessionState → SessionState → Database → ConfirmationResult → Type 0
IsReplay db state after rows result =
    (rows ≡ db)
    × (result.idempotent_replay ≡ true)
    × IsSettled after result
    × (after.draft_version ≡ state.draft_version)

pub replay-IsReplay :
    (tenant : Tenant) (db : Database) (state : SessionState) (fingerprint : String)
    (existing : IdempotencyRecord) (version : ℕ) {rows : Database} {after : SessionState}
    {result : ConfirmationResult}
    → replay tenant db state fingerprint existing version ≡ ok (rows, after, result)
    → IsReplay db state after rows result
unfolding replay
replay-IsReplay tenant db state fingerprint existing version h = ground arith

-- The order of a first confirmation, as it is left.
abbrev pub confirmed_order :
    Tenant → Database → SessionRow → SessionState → Request → ℕ → String → Order
confirmed_order tenant db row state request id public_id =
    record (drafted tenant state request row.id id public_id
      (reused state (get_latest_for_session tenant row.id db.orders))) {
        status = OrderStatus.customer_confirmed;
      }

-- The parts of a first confirmation that returned.
abbrev pub IsFirst :
    Tenant
    → Database
    → SessionRow
    → SessionState
    → String
    → String
    → Request
    → String
    → Order
    → Confirmed
    → Type 0
IsFirst tenant db row state key fingerprint request source order (rows, after, result) =
    (is_held (get_latest_for_session tenant row.id db.orders) ≡ false)
    × ((events : List OrderEvent) × (rows
          ≡ confirmed_rows tenant db row state key fingerprint request source order events))
    × (after ≡ confirmed_state state order.public_id (row.version + 1))
    × (result ≡ result_of order false (row.version + 1))

pub first_confirmation-IsFirst :
    (tenant : Tenant) (db : Database) (row : SessionRow) (state : SessionState)
    (key fingerprint : String) (request : Request) (source : String) (id : ℕ) (public_id : String)
    (stored_version : ℕ) {left : Confirmed}
    → first_confirmation tenant db row state key fingerprint request source id public_id
        stored_version
      ≡ ok left
    → IsFirst tenant db row state key fingerprint request source
        (confirmed_order tenant db row state request id public_id)
        left
unfolding first_confirmation
first_confirmation-IsFirst tenant db row state key fingerprint request source id public_id
      stored_version {left} h =
    let latest = get_latest_for_session tenant row.id db.orders in
    let before = reused state latest in
    let order = drafted tenant state request row.id id public_id before in
    let (_, h1) =
      guard_parts (not (state.persistence_version == 0 || state.persistence_version == row.version))
        session_version_conflict _ h in
    let (free, h2) = guard_parts (is_held latest) safety_hold_active _ h1 in
    let (_, h3) =
      guard_parts (is_some (get_confirmation order.id state.draft_version db.confirmations))
        integrity_error _ h2 in
    let ((order', events), moved, h4) =
      bind_parts
        (transition (db.events ++ draft_event state db.events order before ∷ []) order
          OrderStatus.customer_confirmed ActorType.customer
          (("draftVersion", number state.draft_version) ∷ ("source", text source) ∷ []) false)
        _ h3 in
    let (_, done) =
      guard_parts (not (stored_version == row.version)) session_version_conflict _ h4 in
    let order_is =
      (transition_lem (db.events ++ draft_event state db.events order before ∷ []) order
        OrderStatus.customer_confirmed ActorType.customer
        (("draftVersion", number state.draft_version) ∷ ("source", text source) ∷ []) false
        moved).1 in
    (
      free,
      (events, ground (arith, done, order_is)),
      ground (arith, done, order_is),
      ground (arith, done, order_is),
    )

-- The answer has the money of the request.
abbrev pub HasMoney : Request → ConfirmationResult → Type 0
HasMoney request result =
    (result.subtotal_minor ≡ request.subtotal_minor)
    × (result.delivery_fee_minor ≡ request.delivery_fee_minor)
    × (result.total_minor ≡ request.total_minor)
    × (result.currency ≡ request.currency)

-- A new confirmation: the latest order of the session is not on hold, and the answer is a confirmed
-- order with the money of the request.
abbrev pub IsNew :
    Tenant → Database → Request → SessionState → Database → ConfirmationResult → Type 0
IsNew tenant db request after rows result =
    (row : SessionRow) × (db.session ≡ some row)
    × (is_held (get_latest_for_session tenant row.id db.orders) ≡ false)
    × (result.idempotent_replay ≡ false)
    × IsSettled after result
    × HasMoney request result
    × (rows.session
        ≡ some (record row { version = row.version + 1; state = stored_state row.id after }))

drafted-money :
    (tenant : Tenant) (state : SessionState) (request : Request) (session_id id : ℕ)
    (public_id : String) (before : Option Order) (version : ℕ)
    → HasMoney request (
        result_of
          (record (drafted tenant state request session_id id public_id before) {
            status = OrderStatus.customer_confirmed;
          })
          false
          version)
unfolding drafted
drafted-money tenant state request session_id id public_id none version = (refl, refl, refl, refl)
drafted-money tenant state request session_id id public_id (some order) version =
    (refl, refl, refl, refl)

module _ (digest : Digest) (tenant : Tenant) (db : Database) (state : SessionState)
    (key fingerprint : String) (request : Request) (source : String) (id : ℕ) (public_id : String)
    (stored_version : ℕ) where
  -- The two ways of a confirmation with the session's row.
  abbrev pub confirm_row : SessionRow → Result Confirmed
  confirm_row row = elim (get_record tenant key db.idempotency) [
    | some existing ↦ replay tenant db state fingerprint existing row.version
    | none ↦
        first_confirmation tenant db row state key fingerprint request source id public_id
          stored_version
  ]

  pub confirm_parts :
      {left : Confirmed}
      → confirm_transaction digest tenant db state key fingerprint request source id public_id
          stored_version
        ≡ ok left
      → (row : SessionRow) × (own_session tenant db.session ≡ ok row)
        × (str_eq (digest.draft (draft_view row.state)) (digest.draft (draft_view state)) ≡ true)
        × (confirm_row row ≡ ok left)
  unfolding confirm_transaction
  confirm_parts h =
      let (row, own, h1) = bind_parts (own_session tenant db.session) _ h in
      let (same, h2) =
        guard_parts
          (not (str_eq (digest.draft (draft_view row.state)) (digest.draft (draft_view state))))
          confirmation_stale _ h1 in
      (row, own, ground (arith, same), h2)

own_session-eq-ok :
    (tenant : Tenant) (session : Option SessionRow) {row : SessionRow}
    → own_session tenant session ≡ ok row
    → session ≡ some row
own_session-eq-ok tenant session h = ground arith

-- A confirmation that returns is either a replay, which writes nothing, or a new one, for a session
-- whose latest order is not on hold: its answer has the request's currency, subtotal, delivery fee
-- and total, and the session's row is one version later and keeps what is stored of the new state.
-- Either way the session is left submitted and confirmed for the order that is answered, that order
-- is confirmed, and no restaurant has received it.
pub confirm_transaction_lem :
    (digest : Digest) (tenant : Tenant) (db : Database) (state : SessionState)
    (key fingerprint : String) (request : Request) (source : String) (id : ℕ) (public_id : String)
    (stored_version : ℕ) {rows : Database} {after : SessionState} {result : ConfirmationResult}
    → confirm_transaction digest tenant db state key fingerprint request source id public_id
        stored_version
      ≡ ok (rows, after, result)
    → IsReplay db state after rows result ⊎ IsNew tenant db request after rows result
confirm_transaction_lem digest tenant db state key fingerprint request source id public_id
      stored_version {rows} {after} {result} h =
    let (row, own, same, h1) =
      confirm_parts digest tenant db state key fingerprint request source id public_id
        stored_version h in
    elim (Option-cases (get_record tenant key db.idempotency)) [
      | inr (existing, given) ↦ inl (
          replay-IsReplay tenant db state fingerprint existing row.version
            (rw (confirm_row, given) at h1))
      | inl fresh ↦
          let (free, (events, wrote), state_is, result_is) =
            first_confirmation-IsFirst tenant db row state key fingerprint request source id
              public_id stored_version (rw (confirm_row, fresh) at h1) in
          let money =
            drafted-money tenant state request row.id id public_id
              (reused state (get_latest_for_session tenant row.id db.orders)) (row.version + 1) in
          inr (
            row,
            own_session-eq-ok tenant db.session own,
            free,
            rw result_is refl,
            rw (result_is, state_is) (refl, refl, refl, refl, refl, refl, refl),
            rw result_is money,
            rw (wrote, state_is) refl,
          )
    ]
