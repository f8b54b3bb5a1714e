-- ===== src/Persist/Database.antt =====
-- The rows that a confirmation reads and writes, and the repositories' queries on them. Of the rows
-- of one session, a later one stands nearer to the front of its list.
use order_agent.Prelude.{
  ◌≡◌, true, arith, inl, inr, Bool-cases, ℕ, Bool, ◌&&◌, String, Option, none, some, List, [], ◌∷◌,
  ◌==◌, if◌then◌else◌,
}
use order_agent.Prelude.Text.{str_eq}
use order_agent.Prelude.Int.{ℤ}
use order_agent.Records.{Order, OrderEvent, OrderConfirmation}
use order_agent.State.{SessionState}
use order_agent.Persist.Request.{Tenant, Snapshot}

-- A row of `idempotency_records`, of the scope ORDER_CONFIRMATION.
pub record IdempotencyRecord : Type 0 where
  pub restaurant_id : ℕ
  pub branch_id : ℕ
  pub idempotency_key : String
  pub request_fingerprint : String
  pub resource_id : String

-- A row of `conversation_sessions`; `state` is its state with its contact applied.
pub record SessionRow : Type 0 where
  pub id : ℕ
  pub restaurant_id : ℕ
  pub branch_id : ℕ
  pub version : ℕ
  pub state : SessionState

-- A row of `order_items`.
pub record OrderLine : Type 0 where
  pub order_id : ℕ
  pub menu_item_id : ℕ
  pub menu_version_id : ℕ
  pub item_code_snapshot : String
  pub item_name_snapshot : String
  pub unit_price_minor : ℤ
  pub quantity : ℤ
  pub modifier_snapshot : List Snapshot
  pub line_total_minor : ℤ

-- `session` is the row of the session key, if there is one.
pub record Database : Type 0 where
  pub session : Option SessionRow
  pub orders : List Order
  pub lines : List OrderLine
  pub confirmations : List OrderConfirmation
  pub events : List OrderEvent
  pub idempotency : List IdempotencyRecord

-- The first row that passes.
unfoldable pub first {ℓ} : {A : Type ℓ} → (A → Bool) → List A → Option A
first test [] = none
first test (x ∷ xs) = let rest = first test xs in if test x then some x else rest

-- The row that is found passes.
pub first-test {ℓ} :
    {A : Type ℓ} (test : A → Bool) (xs : List A) {x : A} → first test xs ≡ some x → test x ≡ true
unfolding first
first-test test [] h = cc
first-test test (y ∷ ys) {x} h = elim (Bool-cases (test y)) [
  | inl passes ↦ ground (arith, passes)
  | inr fails ↦ first-test test ys (rw fails at h)
]

-- The rows that do not pass.
unfoldable pub drop_where {ℓ} : {A : Type ℓ} → (A → Bool) → List A → List A
drop_where test [] = []
drop_where test (x ∷ xs) = let rest = drop_where test xs in if test x then rest else x ∷ rest

abbrev pub is_of_tenant : Tenant → Order → Bool
is_of_tenant tenant o = o.restaurant_id == tenant.restaurant_id && o.branch_id == tenant.branch_id

abbrev pub has_public_id : Tenant → String → Order → Bool
has_public_id tenant public_id o = str_eq o.public_id public_id && is_of_tenant tenant o

-- `orders.get_by_public_id`
abbrev pub get_by_public_id : Tenant → String → List Order → Option Order
get_by_public_id tenant public_id = first (has_public_id tenant public_id)

abbrev pub is_of_session : Tenant → ℕ → Order → Bool
is_of_session tenant session_id o = o.session_id == session_id && is_of_tenant tenant o

-- `orders.get_latest_for_session`
abbrev pub get_latest_for_session : Tenant → ℕ → List Order → Option Order
get_latest_for_session tenant session_id = first (is_of_session tenant session_id)

abbrev pub is_confirmation_of : ℕ → ℕ → OrderConfirmation → Bool
is_confirmation_of order_id draft_version c =
    c.order_id == order_id && c.draft_version == draft_version

-- `orders.get_confirmation`
abbrev pub get_confirmation : ℕ → ℕ → List OrderConfirmation → Option OrderConfirmation
get_confirmation order_id draft_version = first (is_confirmation_of order_id draft_version)

abbrev pub has_key : Tenant → String → IdempotencyRecord → Bool
has_key tenant key r =
    str_eq r.idempotency_key key
    && r.restaurant_id == tenant.restaurant_id
    && r.branch_id == tenant.branch_id

-- `idempotency.get`
abbrev pub get_record : Tenant → String → List IdempotencyRecord → Option IdempotencyRecord
get_record tenant key = first (has_key tenant key)

-- Writes the latest order of a session, which replaces its row if it has one.
unfoldable pub save_latest : Order → List Order → List Order
unfolding drop_where
save_latest order orders = order ∷ drop_where (λ o. o.id == order.id) orders
