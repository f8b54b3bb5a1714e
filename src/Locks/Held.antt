-- ===== src/Locks/Held.antt =====
-- A lock that is held stays the lock of its session.
use order_agent.Prelude.{
  ℕ, ◌≡◌, inl, inr, true, false, String, some, List, [], ◌∷◌, ◌++◌, keep, arith, if◌then◌else◌,
  Bool-cases, eq_iff,
}
use order_agent.Prelude.Text.{str_eq}
use order_agent.Persist.Database.{first}
use order_agent.Locks.{
  LockRecord, LockManager, is_kept, evict, cleanup, is_of, others, touched, get_lock,
}

module _ (key : String) where
  first-evict :
      (max : ℕ) (records : List LockRecord) {r : LockRecord}
      → first (is_of key) records ≡ some r
      → r.locked ≡ true
      → first (is_of key) (evict max records) ≡ some r
  unfolding first evict
  first-evict max [] h locked = cc
  first-evict max (x ∷ xs) {r} h locked = ground (arith, first-evict max xs {r = r})

  first-keep :
      (ttl now : ℕ) (records : List LockRecord) {r : LockRecord}
      → first (is_of key) records ≡ some r
      → r.locked ≡ true
      → first (is_of key) (keep (is_kept ttl now) records) ≡ some r
  unfolding first
  first-keep ttl now [] h locked = cc
  first-keep ttl now (x ∷ xs) {r} h locked = ground (arith, first-keep ttl now xs {r = r})

  first-cleanup :
      (now : ℕ) (manager : LockManager) {r : LockRecord}
      → first (is_of key) manager.records ≡ some r
      → r.locked ≡ true
      → first (is_of key) (cleanup now manager).records ≡ some r
  unfolding cleanup
  first-cleanup now manager h locked =
      first-evict manager.max_locks (keep (is_kept manager.ttl_seconds now) manager.records)
        (first-keep manager.ttl_seconds now manager.records h locked) locked

  first-others_end :
      (records : List LockRecord) (r : LockRecord)
      → is_of key r ≡ true
      → first (is_of key) (others key records ++ r ∷ []) ≡ some r
  unfolding first
  first-others_end [] r own = rw own
  first-others_end (x ∷ xs) r own = ground (arith, first-others_end xs r own)

  is_of-key :
      (records : List LockRecord) {r : LockRecord}
      → first (is_of key) records ≡ some r
      → is_of key r ≡ true
  unfolding first
  is_of-key [] h = cc
  is_of-key (x ∷ xs) {r} h = ground (arith, is_of-key xs {r = r})

  is_of-asked :
      (asked : String)
      → str_eq asked key ≡ false
      → (x : LockRecord) → is_of key x ≡ true
      → is_of asked x ≡ false
  is_of-asked asked apart x own =
      ground (arith, eq_iff x.session_id asked, eq_iff x.session_id key, eq_iff asked key)

  first-others :
      (asked : String) (records : List LockRecord) (last : LockRecord) {r : LockRecord}
      → str_eq asked key ≡ false
      → first (is_of key) records ≡ some r
      → first (is_of key) (others asked records ++ last ∷ []) ≡ some r
  unfolding first
  first-others asked [] last apart h = cc
  first-others asked (x ∷ xs) last {r} apart h =
      ground (arith, is_of-asked asked apart x, first-others asked xs last {r = r} apart)

  first-touched :
      (now : ℕ) (records : List LockRecord) {r : LockRecord}
      → first (is_of key) records ≡ some r
      → first (is_of key) (others key records ++ touched key now records ∷ [])
        ≡ some (record r { last_seen = now })
  unfolding touched
  first-touched now records {r} h =
      rw (touched, h)
        (first-others_end records (record r { last_seen = now }) (is_of-key records h))

-- While a session's lock is held, every request for a lock, of this session or of another one, keeps
-- it: the session still has the very lock that is held, its record only marked as used now by a
-- request of its own. So no clean-up lets two messages of one session in at once.
pub get_lock-held :
    (key asked : String) (now : ℕ) (manager : LockManager) {r : LockRecord}
    → first (is_of key) manager.records ≡ some r
    → r.locked ≡ true
    → first (is_of key) (get_lock asked now manager).1.records
      ≡ some (if str_eq asked key then record r { last_seen = now } else r)
unfolding get_lock
get_lock-held key asked now manager {r} h locked =
    let kept = first-cleanup key now manager h locked in
    elim (Bool-cases (str_eq asked key)) [
      | inl same ↦
          rw (same, (eq_iff asked key).0 same)
            (first-touched key now (cleanup now manager).records kept)
      | inr apart ↦ rw apart (first-others key asked (cleanup now manager).records _ apart kept)
    ]
