-- ===== src/Sessions/Store.antt =====
-- `PersistentSessionStore`, over the rows of `conversation_sessions` and of their contacts with the
-- queries of backend/app/repositories/session_repository.py. A stored state is one that this code
-- wrote, so it has every field.
pub mod Lookup
pub mod Saved
use order_agent.Prelude.{
  ℕ, ◌+◌, Bool, true, false, not, ◌&&◌, ◌||◌, String, Option, none, some, List, [], ◌∷◌, ◌==◌, any,
  if◌then◌else◌,
}
use order_agent.Prelude.Text.{str_eq}
use order_agent.Errors.{
  Result, ok, err, ◌>>=◌, ◌>>◌, raise_if, tenant_context_mismatch, session_closed,
  session_version_conflict, database_write_failed,
}
use order_agent.State.{SessionState, new_state}
use order_agent.Persist.Request.{Tenant}
use order_agent.Persist.Database.{first}
use order_agent.Sessions.Contact.{Contact, without_contact, contact_from_state, apply_contact}

pub record ConversationSession : Type 0 where
  pub id : ℕ
  pub session_key : String
  pub restaurant_id : ℕ
  pub branch_id : ℕ
  pub locale : String
  pub state : SessionState
  pub version : ℕ
  pub is_closed : Bool
  pub is_synthetic : Bool

pub record SessionRows : Type 0 where
  pub sessions : List ConversationSession
  pub contacts : List Contact

abbrev pub has_session_key : String → ConversationSession → Bool
has_session_key key row = str_eq row.session_key key

-- `sessions.get_by_session_key`
abbrev pub get_by_session_key : String → List ConversationSession → Option ConversationSession
get_by_session_key key = first (has_session_key key)

abbrev pub is_contact_of : ℕ → Contact → Bool
is_contact_of id contact = contact.session_id == id

-- `sessions.get_contact`
abbrev pub get_contact : ℕ → List Contact → Option Contact
get_contact id = first (is_contact_of id)

-- `sessions.save_contact`: the contact's row is added or replaced.
unfoldable pub save_contact : Contact → List Contact → List Contact
save_contact contact [] = contact ∷ []
save_contact contact (c ∷ cs) =
    let rest = save_contact contact cs in
    if is_contact_of contact.session_id c then contact ∷ cs else c ∷ rest

-- Rewrites the rows that pass: an UPDATE.
unfoldable pub update_where :
    (ConversationSession → Bool)
    → (ConversationSession → ConversationSession)
    → List ConversationSession
    → List ConversationSession
update_where test change [] = []
update_where test change (row ∷ rows) =
    (if test row then change row else row) ∷ update_where test change rows

-- The WHERE of `sessions.save_optimistic`.
abbrev pub is_at_version : ℕ → ℕ → ConversationSession → Bool
is_at_version id version row = row.id == id && row.version == version

-- `result.rowcount == 1` of that UPDATE, where ids are unique.
abbrev pub is_at : ℕ → ℕ → List ConversationSession → Bool
is_at id version = any (is_at_version id version)

abbrev pub is_tenants : Tenant → ConversationSession → Bool
is_tenants tenant row =
    row.restaurant_id == tenant.restaurant_id && row.branch_id == tenant.branch_id

-- A session's state as it is loaded from its row.
abbrev pub loaded : Tenant → ConversationSession → Option Contact → SessionState
loaded tenant row contact = apply_contact contact (record row.state {
  restaurant_code = some tenant.restaurant_code;
  branch_code = some tenant.branch_code;
  persistence_version = row.version;
  is_synthetic = row.is_synthetic;
})

-- `_state_for_existing`
unfoldable pub state_for_existing : Tenant → SessionRows → ConversationSession → Result SessionState
state_for_existing tenant rows row = do
  raise_if (not (is_tenants tenant row)) tenant_context_mismatch
  raise_if row.is_closed session_closed
  ok (loaded tenant row (get_contact row.id rows.contacts))

-- The state of a session that did not exist, or that was reset.
abbrev pub fresh_state : Tenant → ℕ → SessionState
fresh_state tenant version = record new_state {
  restaurant_code = some tenant.restaurant_code;
  branch_code = some tenant.branch_code;
  persistence_version = version;
  is_synthetic = true;
}

abbrev pub new_row : Tenant → ℕ → String → ConversationSession
new_row tenant id key = record {
  id = id;
  session_key = key;
  restaurant_id = tenant.restaurant_id;
  branch_id = tenant.branch_id;
  locale = "zh-CN";
  state = without_contact (fresh_state tenant 1);
  version = 1;
  is_closed = false;
  is_synthetic = true;
}

-- `get`; `id` is that of a new row.
unfoldable pub get : Tenant → String → ℕ → SessionRows → Result (SessionRows × SessionState)
unfolding state_for_existing first without_contact
get tenant key id rows = elim (get_by_session_key key rows.sessions) [
  | some row ↦ do state ← state_for_existing tenant rows row; ok (rows, state)
  | none ↦
      ok (record rows { sessions = new_row tenant id key ∷ rows.sessions }, fresh_state tenant 1)
]

-- `get` where another transaction has created the key first; `rows` are those that it left.
unfoldable pub get_after_race : Tenant → String → SessionRows → Result SessionState
unfolding state_for_existing first
get_after_race tenant key rows = elim (get_by_session_key key rows.sessions) [
  | some row ↦ state_for_existing tenant rows row
  | none ↦ err database_write_failed
]

-- The rows after the contact and the state of a session are saved.
abbrev pub saved : ConversationSession → SessionState → SessionRows → SessionRows
saved row state rows = record rows {
  contacts = save_contact (contact_from_state row.id state) rows.contacts;
  sessions =
      update_where (is_at_version row.id state.persistence_version)
        (λ r. record r {
          locale = state.response_locale;
          state =
              without_contact
                (record state { persistence_version = state.persistence_version + 1 });
          version = state.persistence_version + 1;
        })
        rows.sessions;
}

abbrev pub found : Option ConversationSession → Result ConversationSession
found none = err tenant_context_mismatch
found (some row) = ok row

-- `set`; the rows are those of the database when the session is saved.
unfoldable pub set :
    Tenant → String → SessionState → SessionRows → Result (SessionRows × SessionState)
unfolding first save_contact update_where without_contact
set tenant key state rows = do
  row ← found (get_by_session_key key rows.sessions)
  raise_if (not (is_tenants tenant row)) tenant_context_mismatch
  raise_if row.is_closed session_closed
  raise_if (not (is_at row.id state.persistence_version rows.sessions)) session_version_conflict
  ok (saved row state rows, record state { persistence_version = state.persistence_version + 1 })

-- The row of a session that is reset.
abbrev closed_row : ConversationSession → ConversationSession
closed_row row = record row {
  is_closed = true;
  version = row.version + 1;
  state = without_contact (record new_state { persistence_version = row.version + 1 });
}

abbrev no_contact : ℕ → Contact
no_contact id = record {
  session_id = id;
  official_delivery_address = none;
  pending_delivery_address = none;
  phone = none;
  is_synthetic = true;
}

-- `reset`
unfoldable pub reset : Tenant → String → SessionRows → Result (SessionRows × SessionState)
unfolding first save_contact update_where without_contact
reset tenant key rows = elim (get_by_session_key key rows.sessions) [
  | none ↦ ok (rows, fresh_state tenant 1)
  | some row ↦ do
    raise_if (not (is_tenants tenant row)) tenant_context_mismatch
    ok (
      record {
        contacts = save_contact (no_contact row.id) rows.contacts;
        sessions = update_where (λ r. r.id == row.id) closed_row rows.sessions;
      },
      fresh_state tenant (row.version + 1),
    )
]
