-- ===== src/Locks/Bounds.antt =====
-- How many records a manager keeps.
use order_agent.Prelude.{
  ℕ, ◌+◌, ◌≤◌, ◌≡◌, ◌⊎◌, inl, inr, Bool, true, false, not, String, List, [], ◌∷◌, ◌++◌, keep, any,
  arith, Bool-cases, length, length-append, length-keep-le,
}
use order_agent.Persist.Database.{first}
use order_agent.Locks.{
  LockRecord, LockManager, is_kept, evict, cleanup, is_of, others, touched, get_lock,
}

abbrev pub is_locked : LockRecord → Bool
is_locked r = r.locked

-- Whether the record that was used longest ago is locked.
abbrev is_oldest_locked : List LockRecord → Bool
is_oldest_locked [] = false
is_oldest_locked (r ∷ rs) = r.locked

evict-le :
    (max : ℕ) (records : List LockRecord)
    → (length (evict max records) ≤ max) ⊎ (is_oldest_locked (evict max records) ≡ true)
unfolding evict
evict-le max [] = inl (omega arith)
evict-le max (r ∷ rs) = ground (arith, evict-le max rs)

length-others_end :
    (session_id : String) (records : List LockRecord) (r : LockRecord)
    → length (others session_id records ++ r ∷ []) ≤ length records + 1
length-others_end session_id records r = omega (
  arith,
  length-append (others session_id records) (r ∷ []),
  length-keep-le (λ (x : LockRecord). not (is_of session_id x)) records,
)

any-append_right :
    (records : List LockRecord) (r : LockRecord)
    → r.locked ≡ true
    → any is_locked (records ++ r ∷ []) ≡ true
any-append_right [] r h = ground arith
any-append_right (x ∷ xs) r h = ground (arith, any-append_right xs r h)

any-touched :
    (session_id : String) (now : ℕ) (records : List LockRecord)
    → is_oldest_locked records ≡ true
    → any is_locked (others session_id records ++ touched session_id now records ∷ []) ≡ true
unfolding touched first
any-touched session_id now [] h = cc
any-touched session_id now (r ∷ rs) h = elim (Bool-cases (is_of session_id r)) [
  | inl own ↦ rw (touched, own) (any-append_right (others session_id rs) _ h)
  | inr other ↦ ground (arith, other)
]

-- After a request there is at most one record more than the limit, unless a lock is held: the
-- clean-up stops at a held lock, and it runs before the request adds its record.
pub get_lock-le :
    (session_id : String) (now : ℕ) (manager : LockManager)
    → let records = (get_lock session_id now manager).1.records in
      (length records ≤ manager.max_locks + 1) ⊎ (any is_locked records ≡ true)
unfolding get_lock cleanup
get_lock-le session_id now manager =
    let kept = keep (is_kept manager.ttl_seconds now) manager.records in
    elim (evict-le manager.max_locks kept) [
      | inl few ↦ inl (
          omega (
            arith,
            few,
            length-others_end session_id (evict manager.max_locks kept)
                (touched session_id now (evict manager.max_locks kept)),
          ))
      | inr locked ↦ inr (any-touched session_id now (evict manager.max_locks kept) locked)
    ]
