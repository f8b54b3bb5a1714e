-- ===== src/Persist/Confirm/Retry.antt =====
-- A confirmation that is sent again with its key.
use order_agent.Prelude.{
  ℕ, ◌+◌, ◌≡◌, refl, ap, ◌∙◌, inl, inr, Bool, true, false, String, Option, none, some, List, ◌∷◌,
  arith, eq_iff, Option-cases,
}
use order_agent.Prelude.Text.{str_eq}
use order_agent.Enums.{OrderStatus}
use order_agent.Errors.{ok}
use order_agent.Records.{Order, OrderEvent}
use order_agent.State.{SessionState}
use order_agent.Persist.Request.{Tenant, Request}
use order_agent.Persist.Database.{
  Database, SessionRow, IdempotencyRecord, first, first-test, save_latest, is_of_tenant,
  is_of_session, has_public_id, has_key, is_confirmation_of, get_latest_for_session, get_record,
  get_by_public_id, get_confirmation,
}
use order_agent.Persist.Fingerprint.{Digest, draft_view}
use order_agent.Persist.Draft.{reused, drafted}
use order_agent.Persist.Confirm.{
  ConfirmationResult, confirmed_rows, confirmed_state, stored_state, result_of, replay, own_session,
  confirm_transaction,
}
use order_agent.Persist.Confirm.Outcome.{
  IsFirst, confirmed_order, first_confirmation-IsFirst, confirm_parts, confirm_row, replay-IsReplay,
}

str_eq_self : (s : String) → str_eq s s ≡ true
str_eq_self s = ground (arith, eq_iff s s)

first-head {ℓ} :
    {A : Type ℓ} (test : A → Bool) (x : A) (xs : List A)
    → test x ≡ true
    → first test (x ∷ xs) ≡ some x
unfolding first
first-head test x xs h = rw h

module _ (tenant : Tenant) (db : Database) (row : SessionRow) (state : SessionState)
    (request : Request) (id : ℕ) (public_id : String) where
  drafted-is_of_tenant :
      (latest : Option Order)
      → ((o : Order) → latest ≡ some o → is_of_tenant tenant o ≡ true)
      → is_of_tenant tenant (drafted tenant state request row.id id public_id (reused state latest))
        ≡ true
  unfolding drafted
  drafted-is_of_tenant none h = ground arith
  drafted-is_of_tenant (some o) h = ground (arith, h o refl)

  confirmed_order-is_of_tenant :
      is_of_tenant tenant (confirmed_order tenant db row state request id public_id) ≡ true
  confirmed_order-is_of_tenant =
      drafted-is_of_tenant (get_latest_for_session tenant row.id db.orders)
        (λ o found. ground (arith, first-test (is_of_session tenant row.id) db.orders found))

-- The rows after a first confirmation of `order` answer with it.
module _ (tenant : Tenant) (db : Database) (row : SessionRow) (state : SessionState)
    (key fingerprint : String) (request : Request) (source : String) (order : Order)
    (events : List OrderEvent) where
  abbrev after_rows : Database
  after_rows = confirmed_rows tenant db row state key fingerprint request source order events

  abbrev its_record : IdempotencyRecord
  its_record = record {
    restaurant_id = tenant.restaurant_id;
    branch_id = tenant.branch_id;
    idempotency_key = key;
    request_fingerprint = fingerprint;
    resource_id = order.public_id;
  }

  get_record-after_rows : get_record tenant key after_rows.idempotency ≡ some its_record
  get_record-after_rows =
      first-head (has_key tenant key) its_record db.idempotency (ground (arith, str_eq_self key))

  get_by_public_id-after_rows :
      is_of_tenant tenant order ≡ true
      → get_by_public_id tenant order.public_id after_rows.orders ≡ some order
  unfolding save_latest
  get_by_public_id-after_rows own =
      first-head (has_public_id tenant order.public_id) order _
        (rw (str_eq_self order.public_id) own)

  get_confirmation-after_rows :
      get_confirmation order.id state.draft_version after_rows.confirmations
      ≡ some (record {
        order_id = order.id;
        draft_version = state.draft_version;
        source = source;
        invalidated = false;
      })
  get_confirmation-after_rows =
      first-head (is_confirmation_of order.id state.draft_version) _ db.confirmations (ground arith)

  replay-after_rows :
      (later : SessionState) (version : ℕ)
      → is_of_tenant tenant order ≡ true
      → order.status ≡ OrderStatus.customer_confirmed
      → later.draft_version ≡ state.draft_version
      → replay tenant after_rows later fingerprint its_record version
        ≡ ok (
          after_rows,
          confirmed_state later order.public_id version,
          result_of order true version,
        )
  unfolding replay
  replay-after_rows later version own status same =
      rw
        (
          str_eq_self fingerprint,
          get_by_public_id-after_rows own,
          status,
          same,
          get_confirmation-after_rows,
        )
        refl

own_session_again :
    (tenant : Tenant) (session : Option SessionRow) (row : SessionRow) (version : ℕ)
    (state : SessionState)
    → own_session tenant session ≡ ok row
    → own_session tenant (some (record row { version = version; state = state }))
      ≡ ok (record row { version = version; state = state })
own_session_again tenant none row version state h = cc
own_session_again tenant (some r) row version state h = ground arith

-- The fingerprint of a draft does not read what is dropped when it is stored.
draft_view-stored_state :
    (session_id : ℕ) (state : SessionState)
    → draft_view (stored_state session_id state) ≡ draft_view state
unfolding draft_view stored_state
draft_view-stored_state session_id state = refl

retried :
    (digest : Digest) (tenant : Tenant) (db : Database) (row : SessionRow) (state : SessionState)
    (key fingerprint : String) (request : Request) (source : String) (order : Order)
    (events : List OrderEvent) (later : SessionState) (request' : Request) (source' : String)
    (id' : ℕ) (public_id' : String) (stored_version' : ℕ)
    → own_session tenant db.session ≡ ok row
    → is_of_tenant tenant order ≡ true
    → order.status ≡ OrderStatus.customer_confirmed
    → later.draft_version ≡ state.draft_version
    → digest.draft (draft_view later)
      ≡ digest.draft (draft_view (confirmed_state state order.public_id (row.version + 1)))
    → let rows = confirmed_rows tenant db row state key fingerprint request source order events in
      confirm_transaction digest tenant rows later key fingerprint request' source' id' public_id'
        stored_version'
      ≡ ok (
        rows,
        confirmed_state later order.public_id (row.version + 1),
        result_of order true (row.version + 1),
      )
unfolding confirm_transaction
retried digest tenant db row state key fingerprint request source order events later request'
      source' id' public_id' stored_version' own mine status same draft =
    rw
      (
        own_session_again tenant db.session row (row.version + 1)
            (stored_state row.id (confirmed_state state order.public_id (row.version + 1))) own,
        draft_view-stored_state row.id (confirmed_state state order.public_id (row.version + 1)),
        draft,
        str_eq_self
            (digest.draft (draft_view (confirmed_state state order.public_id (row.version + 1)))),
        get_record-after_rows tenant db row state key fingerprint request source order events,
      )
      (replay-after_rows tenant db row state key fingerprint request source order events later
        (row.version + 1) mine status same)

retried_first :
    (digest : Digest) (tenant : Tenant) (db : Database) (row : SessionRow) (state : SessionState)
    (key fingerprint : String) (request : Request) (source : String) (order : Order)
    {rows : Database} {after : SessionState} {result : ConfirmationResult} (later : SessionState)
    (request' : Request) (source' : String) (id' : ℕ) (public_id' : String) (stored_version' : ℕ)
    → own_session tenant db.session ≡ ok row
    → is_of_tenant tenant order ≡ true
    → order.status ≡ OrderStatus.customer_confirmed
    → IsFirst tenant db row state key fingerprint request source order (rows, after, result)
    → later.draft_version ≡ after.draft_version
    → digest.draft (draft_view later) ≡ digest.draft (draft_view after)
    → confirm_transaction digest tenant rows later key fingerprint request' source' id' public_id'
        stored_version'
      ≡ ok (
        rows,
        confirmed_state later result.public_id result.persistence_version,
        record result { idempotent_replay = true },
      )
retried_first digest tenant db row state key fingerprint request source order later request' source'
      id' public_id' stored_version' own mine status (free, (events, wrote), state_is, result_is)
      version draft =
    rw (wrote, result_is)
      (retried digest tenant db row state key fingerprint request source order events later request'
        source' id' public_id' stored_version' own mine status
        (version ∙ ap (λ (s : SessionState). s.draft_version) state_is)
        (draft ∙ ap (λ (s : SessionState). digest.draft (draft_view s)) state_is))

-- A confirmation that was not itself a replay can be sent again with its key and its fingerprint. As
-- long as the draft has the same fingerprint and version, the answer is the same order with the same
-- money, marked as a replay, and no row is written: nothing is ordered twice.
pub confirm_transaction-retry :
    (digest : Digest) (tenant : Tenant) (db : Database) (state : SessionState)
    (key fingerprint : String) (request : Request) (source : String) (id : ℕ) (public_id : String)
    (stored_version : ℕ) {rows : Database} {after : SessionState} {result : ConfirmationResult}
    (later : SessionState) (request' : Request) (source' : String) (id' : ℕ) (public_id' : String)
    (stored_version' : ℕ)
    → confirm_transaction digest tenant db state key fingerprint request source id public_id
        stored_version
      ≡ ok (rows, after, result)
    → result.idempotent_replay ≡ false
    → later.draft_version ≡ after.draft_version
    → digest.draft (draft_view later) ≡ digest.draft (draft_view after)
    → confirm_transaction digest tenant rows later key fingerprint request' source' id' public_id'
        stored_version'
      ≡ ok (
        rows,
        confirmed_state later result.public_id result.persistence_version,
        record result { idempotent_replay = true },
      )
confirm_transaction-retry digest tenant db state key fingerprint request source id public_id
      stored_version {rows} {after} {result} later request' source' id' public_id' stored_version' h
      fresh version draft =
    let (row, own, same, h1) =
      confirm_parts digest tenant db state key fingerprint request source id public_id
        stored_version h in
    elim (Option-cases (get_record tenant key db.idempotency)) [
      | inr (existing, given) ↦
          let replayed =
            replay-IsReplay tenant db state fingerprint existing row.version
              (rw (confirm_row, given) at h1) in
          cc (fresh, replayed.1)
      | inl absent ↦
          let order = confirmed_order tenant db row state request id public_id in
          let first =
            first_confirmation-IsFirst tenant db row state key fingerprint request source id
              public_id stored_version (rw (confirm_row, absent) at h1) in
          retried_first digest tenant db row state key fingerprint request source order later
            request' source' id' public_id' stored_version' own
            (confirmed_order-is_of_tenant tenant db row state request id public_id) refl first
            version draft
    ]
