-- ===== src/Tests/Sessions.antt =====
-- A stored session, a nested contact, and the locks of two sessions.
use order_agent.Prelude.{◌≡◌, ◌⊎◌, ◌≤◌, refl, true, false, some, [], ◌∷◌, any, length}
use order_agent.Errors.{ok, err, session_version_conflict}
use order_agent.State.{SessionState}
use order_agent.Json.{Json, null, text, arr, obj, nil, cons, end, field}
use order_agent.Json.Redaction.{redact, is_sensitive, is_clean, redact-is_clean}
use order_agent.Persist.Request.{Tenant}
use order_agent.Persist.Database.{first}
use order_agent.Sessions.Store.{
  ConversationSession, SessionRows, get_by_session_key, new_row, fresh_state, saved, get, set,
}
use order_agent.Sessions.Store.Saved.{reloaded, get-set, set-conflict}
use order_agent.Locks.{LockRecord, LockManager, is_of, get_lock}
use order_agent.Locks.Held.{get_lock-held}
use order_agent.Locks.Bounds.{is_locked, get_lock-le}

abbrev tenant : Tenant
tenant = record {
  restaurant_id = 1;
  restaurant_code = "SIM";
  branch_id = 2;
  branch_code = "MAIN";
  currency = "HKD";
  is_simulation = true;
}

abbrev open_row : ConversationSession
open_row = new_row tenant 7 "s1"

abbrev rows : SessionRows
rows = record { sessions = open_row ∷ []; contacts = [] }

-- The session as it was loaded, with a phone number and a pending action since.
abbrev nested : Json
nested = obj (field "type" (text "pick") (field "phone" (text "555-0101") end))

abbrev state : SessionState
state = record (fresh_state tenant 1) { phone = some "555-0101"; pending_action = some nested }

abbrev next_state : SessionState
next_state = record state { persistence_version = 2 }

state_is_set : set tenant "s1" state rows ≡ ok (saved open_row state rows, next_state)
unfolding set first
state_is_set = refl

get-set_example :
    (row : ConversationSession) × (get_by_session_key "s1" rows.sessions ≡ some row)
    × (get tenant "s1" 9 (saved open_row state rows)
        ≡ ok (saved open_row state rows, reloaded tenant row.is_synthetic state))
get-set_example = get-set tenant "s1" state rows 9 (refl, tt) state_is_set

set-conflict_example :
    set tenant "s1" (record state { stage = "collecting_phone" }) (saved open_row state rows)
    ≡ err session_version_conflict
set-conflict_example =
    set-conflict tenant "s1" state (record state { stage = "collecting_phone" }) rows (refl, tt)
      state_is_set refl

nested_is_redacted : redact nested ≡ obj (field "type" (text "pick") (field "phone" null end))
unfolding redact is_sensitive
nested_is_redacted = refl

redact-is_clean_example :
    (is_clean (redact (arr (cons nested nil))) ≡ true)
    × (redact (redact (arr (cons nested nil))) ≡ redact (arr (cons nested nil)))
redact-is_clean_example = redact-is_clean (arr (cons nested nil))

-- One session is in the middle of a message, another is long idle.
abbrev busy : LockRecord
busy = record { session_id = "s1"; locked = true; last_seen = 5 }

abbrev idle : LockRecord
idle = record { session_id = "s2"; locked = false; last_seen = 3 }

abbrev manager : LockManager
manager = record { ttl_seconds = 600; max_locks = 1; records = idle ∷ busy ∷ [] }

get_lock-held_example :
    first (is_of "s1") (get_lock "s1" 900 manager).1.records
    ≡ some (record busy { last_seen = 900 })
unfolding first
get_lock-held_example = get_lock-held "s1" "s1" 900 manager refl refl

get_lock-le_example :
    (length (get_lock "s3" 900 manager).1.records ≤ 2)
    ⊎ (any is_locked (get_lock "s3" 900 manager).1.records ≡ true)
get_lock-le_example = get_lock-le "s3" 900 manager

idle_is_dropped :
    (get_lock "s3" 900 manager).1.records
    ≡ busy ∷ record { session_id = "s3"; locked = false; last_seen = 900 } ∷ []
unfolding get_lock
idle_is_dropped = refl
