-- ===== src/LoginAttempt/Lockout.antt =====
-- What one failure and one success do to the counter and the lock.
use arc_id.Base.{
  ◌∙◌, ℕ, ◌+◌, ◌*◌, ◌≤◌, ◌<◌, ◌≡◌, refl, true, false, none, some, [], ◌∷◌, Option-cases, inl, inr,
  ==_self, arith,
}
use arc_id.LoginAttempt.Commands.{
  Redis, IsDocumented, documented, by_documentation, Key, fail_key, lock_key, jti_key, Store, entry,
  lookup, prolonged, counted, key_eq, put,
}
use arc_id.Db.Prisma.{discard}
use arc_id.LoginAttempt.{
  check_lockout, lockout_ttl_seconds, lock_for, record_failure, clear_attempts,
}

-- The count that a failure now makes.
abbrev pub next_count : ℕ → ℕ → Store → ℕ
next_count now h store = (counted (fail_key h) (lookup now (fail_key h) store)).value

lock_for-locked :
    (now t h count secs : ℕ) (store : Store)
    → now ≤ t
    → t < now + secs * 1000
    → (check_lockout (some documented) t h (lock_for documented now h count secs store)).locked
      ≡ true
unfolding lock_for check_lockout
lock_for-locked now t h count secs store a b = elim (Option-cases (entry (lock_key h) store)) [
  | inl e ↦ ground (arith, ==_self h)
  | inr (l, e) ↦ elim (Option-cases l.expires_at) [
    | inl k ↦ ground (arith, ==_self h)
    | inr (end, k) ↦ ground (arith, ==_self h)
  ]
]

-- The store after the count and its window.
abbrev pub counted_store : ℕ → ℕ → Store → Store
counted_store now h store =
    let once = put (counted (fail_key h) (lookup now (fail_key h) store)) store in
    prolonged now (15 * 60) (lookup now (fail_key h) once) once

record_failure-locked :
    (now t h secs : ℕ) (store : Store)
    → lockout_ttl_seconds (next_count now h store) ≡ some secs
    → now ≤ t
    → t < now + secs * 1000
    → (check_lockout (some documented) t h (record_failure (some documented) now h store)).locked
      ≡ true
unfolding record_failure
record_failure-locked now t h secs store e a b =
    rw (e) (lock_for-locked now t h (next_count now h store) secs (counted_store now h store) a b)

-- A failure whose count reaches a threshold locks the address for at least that threshold's time,
-- whatever lock there was before.
pub record_failure-locks :
    (r : Redis)
    → IsDocumented r
    → (now t h secs : ℕ) (store : Store) → lockout_ttl_seconds (next_count now h store) ≡ some secs
    → now ≤ t
    → t < now + secs * 1000
    → (check_lockout (some r) t h (record_failure (some r) now h store)).locked ≡ true
record_failure-locks r d now t h secs store e a b =
    by_documentation
      (λ x. (check_lockout (some x) t h (record_failure (some x) now h store)).locked ≡ true) d
      (record_failure-locked now t h secs store e a b)

pub entry-discard :
    (a b : Key) (store : Store)
    → ((k : Key) → key_eq k b ≡ true → key_eq k a ≡ false)
    → entry b (discard (λ x. key_eq x.key a) store) ≡ entry b store
entry-discard a b [] h = refl
entry-discard a b (x ∷ xs) h = ground (arith, h x.key, entry-discard a b xs h)

pub apart : (h : ℕ) (k : Key) → key_eq k (lock_key h) ≡ true → key_eq k (fail_key h) ≡ false
apart h (fail_key a) e = ground arith
apart h (lock_key a) e = refl
apart h (jti_key a) e = refl

pub apart_lock : (h : ℕ) (k : Key) → key_eq k (fail_key h) ≡ true → key_eq k (lock_key h) ≡ false
apart_lock h (fail_key a) e = refl
apart_lock h (jti_key a) e = refl
apart_lock h (lock_key a) e = ground arith

entry-discard_self :
    (a : Key) (store : Store) → entry a (discard (λ x. key_eq x.key a) store) ≡ none
entry-discard_self a [] = refl
entry-discard_self a (x ∷ xs) = ground (arith, entry-discard_self a xs)

cleared :
    (t h : ℕ) (store : Store)
    → ((check_lockout (some documented) t h (clear_attempts (some documented) h store)).locked
        ≡ false)
      × (next_count t h (clear_attempts (some documented) h store) ≡ 1)
unfolding clear_attempts check_lockout
cleared t h store =
    let left = discard (λ x. key_eq x.key (fail_key h)) store in
    let no_lock = entry-discard_self (lock_key h) left in
    let no_fail =
      entry-discard (lock_key h) (fail_key h) left (apart_lock h)
      ∙ entry-discard_self (fail_key h) store in
    (rw (no_lock) refl, rw (no_fail) refl)

-- After a success nothing of the address is locked, and the next failure counts as the first.
pub clear_attempts-Clears :
    (r : Redis)
    → IsDocumented r
    → (t h : ℕ) (store : Store)
    → ((check_lockout (some r) t h (clear_attempts (some r) h store)).locked ≡ false)
      × (next_count t h (clear_attempts (some r) h store) ≡ 1)
clear_attempts-Clears r d t h store =
    by_documentation
      (λ x.
        ((check_lockout (some x) t h (clear_attempts (some x) h store)).locked ≡ false)
        × (next_count t h (clear_attempts (some x) h store) ≡ 1))
      d (cleared t h store)
