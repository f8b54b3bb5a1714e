-- ===== src/Locks.antt =====
-- `SessionLockManager` of backend/app/services/text_entry_service.py. The records are an
-- `OrderedDict`, first the one that was used longest ago; of a lock only whether it is held is kept.
-- `now` is what `time.monotonic()` answers, a whole number of seconds after 0.
pub mod Held
pub mod Bounds
use order_agent.Prelude.{
  ℕ, ◌+◌, ◌-◌, Bool, true, false, not, ◌&&◌, String, Option, none, some, List, [], ◌∷◌, ◌++◌, ◌==◌,
  ltb, leb, length, keep, if◌then◌else◌,
}
use order_agent.Prelude.Text.{str_eq}
use order_agent.Persist.Database.{first}

-- An entry of `_records`.
pub record LockRecord : Type 0 where
  pub session_id : String
  pub locked : Bool
  pub last_seen : ℕ

pub record LockManager : Type 0 where
  pub ttl_seconds : ℕ
  pub max_locks : ℕ
  pub records : List LockRecord

-- A record is kept unless its lock is free and it was not used for `ttl` seconds.
abbrev pub is_kept : ℕ → ℕ → LockRecord → Bool
is_kept ttl now record' = not (not record'.locked && ltb ttl (now - record'.last_seen))

-- The `while`: while there are more than `max` records, the first one is dropped if it is free.
unfoldable pub evict : ℕ → List LockRecord → List LockRecord
evict max [] = []
evict max (r ∷ rs) =
    let rest = evict max rs in
    if leb (length (r ∷ rs)) max then r ∷ rs else if r.locked then r ∷ rs else rest

-- `_cleanup`
unfoldable pub cleanup : ℕ → LockManager → LockManager
unfolding evict
cleanup now manager = record manager {
  records = evict manager.max_locks (keep (is_kept manager.ttl_seconds now) manager.records);
}

abbrev pub is_of : String → LockRecord → Bool
is_of session_id r = str_eq r.session_id session_id

abbrev pub others : String → List LockRecord → List LockRecord
others session_id = keep (λ r. not (is_of session_id r))

-- The record of a session, as `get_lock` leaves it.
unfoldable pub touched : String → ℕ → List LockRecord → LockRecord
unfolding first
touched session_id now records = elim (first (is_of session_id) records) [
  | none ↦ record { session_id = session_id; locked = false; last_seen = now }
  | some r ↦ record r { last_seen = now }
]

-- `get_lock`: the lock of the session, and the manager with its record moved to the end.
unfoldable pub get_lock : String → ℕ → LockManager → LockRecord × LockManager
unfolding cleanup touched
get_lock session_id now manager =
    let cleaned = cleanup now manager in
    let r = touched session_id now cleaned.records in
    (r, record cleaned { records = others session_id cleaned.records ++ r ∷ [] })
