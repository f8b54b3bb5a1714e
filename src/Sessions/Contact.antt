-- ===== src/Sessions/Contact.antt =====
-- A session's state without its contact: backend/app/state/session_persistence.py.
use order_agent.Prelude.{ℕ, Option, none, some, String, Bool}
use order_agent.Json.{Json}
use order_agent.Json.Redaction.{redact}
use order_agent.State.{AddressCandidate, SessionState}

-- `_redact_nested_contact` of an optional value; `None` is left.
abbrev pub redact_option : Option Json → Option Json
redact_option none = none
redact_option (some j) = some (redact j)

-- `state_json_without_contact`
unfoldable pub without_contact : SessionState → SessionState
without_contact state = record state {
  phone = none;
  official_delivery_address = none;
  pending_delivery_address_candidate = none;
  last_address_mention = none;
  last_mutation_snapshot = redact_option state.last_mutation_snapshot;
  pending_action = redact_option state.pending_action;
}

-- A row of `conversation_contact_snapshots`.
pub record Contact : Type 0 where
  pub session_id : ℕ
  pub official_delivery_address : Option String
  pub pending_delivery_address : Option AddressCandidate
  pub phone : Option String
  pub is_synthetic : Bool

-- `contact_from_state`, for the session with the given id.
abbrev pub contact_from_state : ℕ → SessionState → Contact
contact_from_state session_id state = record {
  session_id = session_id;
  official_delivery_address = state.official_delivery_address;
  pending_delivery_address = state.pending_delivery_address_candidate;
  phone = state.phone;
  is_synthetic = state.is_synthetic;
}

-- `apply_contact`
abbrev pub apply_contact : Option Contact → SessionState → SessionState
apply_contact none state = state
apply_contact (some contact) state = record state {
  official_delivery_address = contact.official_delivery_address;
  pending_delivery_address_candidate = contact.pending_delivery_address;
  phone = contact.phone;
}
