-- ===== src/Sessions/Store/Lookup.antt =====
-- SessionRows that are looked up after they were written.
use order_agent.Prelude.{
  ℕ, ◌+◌, ◌≡◌, refl, Bool, true, false, String, some, List, [], ◌∷◌, ◌==◌, any, arith,
  if◌then◌else◌, Bool-cases, inl, inr,
}
use order_agent.Persist.Database.{first}
use order_agent.Sessions.Contact.{Contact}
use order_agent.Sessions.Store.{
  ConversationSession, get_by_session_key, get_contact, save_contact, update_where, is_at_version,
  is_at,
}

abbrev has_id : ℕ → ConversationSession → Bool
has_id id row = row.id == id

-- No two rows have the same id.
abbrev pub HasUniqueIds : List ConversationSession → Type 0
HasUniqueIds [] = Unit
HasUniqueIds (row ∷ rows) = (any (has_id row.id) rows ≡ false) × HasUniqueIds rows

pub get_contact-save_contact :
    (contact : Contact) (cs : List Contact)
    → get_contact contact.session_id (save_contact contact cs) ≡ some contact
unfolding first save_contact
get_contact-save_contact contact [] = ground arith
get_contact-save_contact contact (c ∷ cs) = ground (arith, get_contact-save_contact contact cs)

abbrev pub changed :
    (ConversationSession → Bool)
    → (ConversationSession → ConversationSession)
    → ConversationSession
    → ConversationSession
changed test change row = if test row then change row else row

pub first-update_where :
    (key : String) (test : ConversationSession → Bool)
    (change : ConversationSession → ConversationSession)
    → ((row : ConversationSession) → (change row).session_key ≡ row.session_key)
    → (rows : List ConversationSession) {row : ConversationSession}
    → get_by_session_key key rows ≡ some row
    → get_by_session_key key (update_where test change rows) ≡ some (changed test change row)
unfolding first update_where
first-update_where key test change keeps [] h = cc
first-update_where key test change keeps (x ∷ rows) {row} h = elim (Bool-cases (test x)) [
  | inl hit ↦
      rw hit
        (ground (arith, hit, keeps x, first-update_where key test change keeps rows {row = row}))
  | inr miss ↦
      rw miss (ground (arith, miss, first-update_where key test change keeps rows {row = row}))
]

first-any :
    (key : String) (rows : List ConversationSession) {row : ConversationSession}
    → get_by_session_key key rows ≡ some row
    → any (has_id row.id) rows ≡ true
unfolding first
first-any key [] h = cc
first-any key (x ∷ rows) {row} h = ground (arith, first-any key rows {row = row})

any-is_at_version :
    (id version : ℕ) (rows : List ConversationSession)
    → is_at id version rows ≡ true
    → any (has_id id) rows ≡ true
any-is_at_version id version [] h = cc
any-is_at_version id version (x ∷ rows) h = ground (arith, any-is_at_version id version rows)

-- The row of the key is the one that the UPDATE counts.
pub is_at-row :
    (key : String) (version : ℕ) (rows : List ConversationSession) {row : ConversationSession}
    → HasUniqueIds rows
    → get_by_session_key key rows ≡ some row
    → is_at row.id version rows ≡ true
    → row.version ≡ version
unfolding first
is_at-row key version [] u h e = cc
is_at-row key version (x ∷ rows) {row} u h e = ground (
  arith,
  is_at-row key version rows {row = row} u.1,
  first-any key rows {row = row},
  any-is_at_version row.id version rows,
)

-- After the UPDATE no row is left at the version that it asked for.
pub is_at-update_where :
    (id version : ℕ) (change : ConversationSession → ConversationSession)
    → ((row : ConversationSession) → (change row).version ≡ version + 1)
    → (rows : List ConversationSession)
    → is_at id version (update_where (is_at_version id version) change rows) ≡ false
unfolding update_where
is_at-update_where id version change next [] = refl
is_at-update_where id version change next (x ∷ rows) =
    ground (arith, next x, is_at-update_where id version change next rows)
