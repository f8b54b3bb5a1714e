-- ===== src/Errors.antt =====
-- The errors of backend/app/domain/errors.py, and functions that may raise them. A call that raises
-- inside a unit of work is rolled back, so an error carries no state.
use order_agent.Prelude.{Bool, String, ◌≡◌, refl, if◌then◌else◌}
use order_agent.Enums.{OrderStatus, HandoffStatus}

-- One constructor for each factory; `domain_error` is a `DomainError` built in place from its code,
-- `value_error` is Python's `ValueError`, and `integrity_error` is SQLAlchemy's `IntegrityError`.
pub data Error : Type 0 where
  tenant_context_mismatch restaurant_not_found branch_not_found no_published_menu confirmation_stale
        idempotency_conflict simulation_data_required database_write_failed session_version_conflict
        session_closed menu_publish_conflict modifier_not_available modifier_ambiguous
        modifier_duplicate safety_session_not_found handoff_not_found integrity_error
        simulation_controls_disabled unsafe_audit_payload safety_hold_active value_error :
      Error
  item_unavailable : Bool → Error
  invalid_order_transition : OrderStatus → OrderStatus → Error
  invalid_handoff_transition : HandoffStatus → HandoffStatus → Error
  modifier_required modifier_too_few modifier_too_many : String → Error
  domain_error : String → Error

-- A call that may raise; it either returns a value or ends in an error.
pub data Result {ℓ} (A : Type ℓ) : Type ℓ where
  err : Error → Result A
  ok : A → Result A

-- `if test: raise error`
abbrev pub raise_if : Bool → Error → Result (Unit {0})
raise_if test error = if test then err error else ok tt

-- What follows a call runs only where the call returned.
infixl 5 ◌>>=◌
abbrev pub ◌>>=◌ {ℓ₁ ℓ₂} : {X : Type ℓ₁} {Y : Type ℓ₂} → Result X → (X → Result Y) → Result Y
err error >>= next = err error
ok x >>= next = next x

infixl 5 ◌>>◌
abbrev pub ◌>>◌ {ℓ} : {Y : Type ℓ} → Result (Unit {0}) → Result Y → Result Y
check >> next = check >>= (λ done. next)

-- Both calls of a sequence that returned have returned.
pub bind_parts {ℓ₁ ℓ₂} :
    {X : Type ℓ₁} {Y : Type ℓ₂} (first : Result X) (next : X → Result Y) {y : Y}
    → (first >>= next) ≡ ok y
    → (x : X) × (first ≡ ok x) × (next x ≡ ok y)
bind_parts (err error) next returned = cc
bind_parts (ok x) next returned = (x, refl, returned)

-- A guard that let the rest return did not raise.
pub guard_parts {ℓ} :
    {Y : Type ℓ} (test : Bool) (error : Error) (next : Result Y) {y : Y}
    → (raise_if test error >> next) ≡ ok y
    → (test ≡ Bool.false) × (next ≡ ok y)
guard_parts Bool.true error next returned = cc
guard_parts Bool.false error next returned = (refl, returned)
