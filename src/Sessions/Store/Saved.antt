-- ===== src/Sessions/Store/Saved.antt =====
-- What a saved session gives back, and what it refuses.
use order_agent.Prelude.{
  ℕ, ◌+◌, ◌≡◌, refl, Bool, true, false, not, String, Option, none, some, arith,
}
use order_agent.Errors.{
  ok, err, bind_parts, guard_parts, tenant_context_mismatch, session_closed,
  session_version_conflict,
}
use order_agent.State.{SessionState}
use order_agent.Persist.Request.{Tenant}
use order_agent.Sessions.Contact.{Contact, redact_option, without_contact, contact_from_state}
use order_agent.Sessions.Store.{
  ConversationSession, SessionRows, get_by_session_key, get_contact, is_at_version, is_at,
  is_tenants, loaded, saved, found, state_for_existing, get, set,
}
use order_agent.Sessions.Store.Lookup.{
  HasUniqueIds, get_contact-save_contact, first-update_where, is_at-row, is_at-update_where,
}

-- The state that is loaded after `state` was saved in a row: its contact is kept beside it, and the
-- contact that nested values hold is dropped.
abbrev pub reloaded : Tenant → Bool → SessionState → SessionState
reloaded tenant is_synthetic state = record state {
  restaurant_code = some tenant.restaurant_code;
  branch_code = some tenant.branch_code;
  persistence_version = state.persistence_version + 1;
  is_synthetic = is_synthetic;
  last_address_mention = none;
  last_mutation_snapshot = redact_option state.last_mutation_snapshot;
  pending_action = redact_option state.pending_action;
}

module _ (tenant : Tenant) (key : String) where
  -- An open session of the tenant is loaded.
  get-present :
      (id : ℕ) (rows : SessionRows) (row : ConversationSession) (contact : Contact)
      → get_by_session_key key rows.sessions ≡ some row
      → is_tenants tenant row ≡ true
      → row.is_closed ≡ false
      → get_contact row.id rows.contacts ≡ some contact
      → get tenant key id rows ≡ ok (rows, loaded tenant row (some contact))
  unfolding get state_for_existing
  get-present id rows row contact present own active known =
      rw (get, present, own, active, known) refl

  -- An open session of the tenant is not saved at a version that its row has left.
  set-late :
      (state : SessionState) (rows : SessionRows) (row : ConversationSession)
      → get_by_session_key key rows.sessions ≡ some row
      → is_tenants tenant row ≡ true
      → row.is_closed ≡ false
      → is_at row.id state.persistence_version rows.sessions ≡ false
      → set tenant key state rows ≡ err session_version_conflict
  unfolding set
  set-late state rows row present own active late = rw (present, own, active, late) refl

module _ (tenant : Tenant) (key : String) (state : SessionState) (rows : SessionRows) where
  -- The parts of a `set` that returned.
  abbrev IsSaved : SessionRows → SessionState → ConversationSession → Type 0
  IsSaved rows' state' row =
      (get_by_session_key key rows.sessions ≡ some row)
      × (is_tenants tenant row ≡ true)
      × (row.is_closed ≡ false)
      × (is_at row.id state.persistence_version rows.sessions ≡ true)
      × (rows' ≡ saved row state rows)
      × (state' ≡ record state { persistence_version = state.persistence_version + 1 })

  found-eq-ok :
      (o : Option ConversationSession) {row : ConversationSession} → found o ≡ ok row → o ≡ some row
  found-eq-ok o h = ground arith

  set-IsSaved :
      {rows' : SessionRows} {state' : SessionState}
      → set tenant key state rows ≡ ok (rows', state')
      → (row : ConversationSession) × IsSaved rows' state' row
  unfolding set
  set-IsSaved h =
      let (row, present, h1) = bind_parts (found (get_by_session_key key rows.sessions)) _ h in
      let (own, h2) = guard_parts (not (is_tenants tenant row)) tenant_context_mismatch _ h1 in
      let (active, h3) = guard_parts row.is_closed session_closed _ h2 in
      let (at, h4) =
        guard_parts (not (is_at row.id state.persistence_version rows.sessions))
          session_version_conflict _ h3 in
      (
        row,
        (
          found-eq-ok (get_by_session_key key rows.sessions) present,
          ground (arith, own),
          active,
          ground (arith, at),
          ground (arith, h4),
          ground (arith, h4),
        ),
      )

  -- The row as it is saved.
  abbrev saved_row : ConversationSession → ConversationSession
  saved_row row = record row {
    locale = state.response_locale;
    state = without_contact (record state { persistence_version = state.persistence_version + 1 });
    version = state.persistence_version + 1;
  }

  get_by_session_key-saved :
      (row : ConversationSession)
      → get_by_session_key key rows.sessions ≡ some row
      → row.version ≡ state.persistence_version
      → get_by_session_key key (saved row state rows).sessions ≡ some (saved_row row)
  get_by_session_key-saved row present at = ground (
    arith,
    first-update_where key (is_at_version row.id state.persistence_version) saved_row (λ r. refl)
        rows.sessions present,
  )

  at-row :
      HasUniqueIds rows.sessions
      → {row : ConversationSession} → get_by_session_key key rows.sessions ≡ some row
      → is_at row.id state.persistence_version rows.sessions ≡ true
      → row.version ≡ state.persistence_version
  at-row unique present at = is_at-row key state.persistence_version rows.sessions unique present at

  get-saved :
      (id : ℕ) (row : ConversationSession)
      → get_by_session_key key (saved row state rows).sessions ≡ some (saved_row row)
      → is_tenants tenant row ≡ true
      → row.is_closed ≡ false
      → get tenant key id (saved row state rows)
        ≡ ok (saved row state rows, reloaded tenant row.is_synthetic state)
  unfolding without_contact
  get-saved id row present own active =
      get-present tenant key id (saved row state rows) (saved_row row)
        (contact_from_state row.id state) present own active
        (get_contact-save_contact (contact_from_state row.id state) rows.contacts)

  set-saved :
      (other : SessionState) (row : ConversationSession)
      → get_by_session_key key (saved row state rows).sessions ≡ some (saved_row row)
      → is_tenants tenant row ≡ true
      → row.is_closed ≡ false
      → other.persistence_version ≡ state.persistence_version
      → set tenant key other (saved row state rows) ≡ err session_version_conflict
  set-saved other row present own active same =
      set-late tenant key other (saved row state rows) (saved_row row) present own active (
        rw same
          (is_at-update_where row.id state.persistence_version saved_row (λ r. refl) rows.sessions))

-- A session that was saved is loaded as it was saved, one version later and with its contact, but
-- for its tenant's codes, which are the tenant's own, its synthetic mark, which is the row's, and the
-- contact in its last address mention and in its nested values, which is dropped.
pub get-set :
    (tenant : Tenant) (key : String) (state : SessionState) (rows : SessionRows) (id : ℕ)
    {rows' : SessionRows} {state' : SessionState}
    → HasUniqueIds rows.sessions
    → set tenant key state rows ≡ ok (rows', state')
    → (row : ConversationSession) × (get_by_session_key key rows.sessions ≡ some row)
      × (get tenant key id rows' ≡ ok (rows', reloaded tenant row.is_synthetic state))
get-set tenant key state rows id unique h =
    let (row, (present, own, active, at, wrote, after)) = set-IsSaved tenant key state rows h in
    let there =
      get_by_session_key-saved tenant key state rows row present
        (at-row tenant key state rows unique present at) in
    (row, present, rw wrote (get-saved tenant key state rows id row there own active))

-- Of two writers that loaded a session at the same version, the second is refused: whatever it
-- writes, nothing that the first one saved is lost.
pub set-conflict :
    (tenant : Tenant) (key : String) (state other : SessionState) (rows : SessionRows)
    {rows' : SessionRows} {state' : SessionState}
    → HasUniqueIds rows.sessions
    → set tenant key state rows ≡ ok (rows', state')
    → other.persistence_version ≡ state.persistence_version
    → set tenant key other rows' ≡ err session_version_conflict
set-conflict tenant key state other rows unique h same =
    let (row, (present, own, active, at, wrote, after)) = set-IsSaved tenant key state rows h in
    let there =
      get_by_session_key-saved tenant key state rows row present
        (at-row tenant key state rows unique present at) in
    rw wrote (set-saved tenant key state rows other row there own active same)
