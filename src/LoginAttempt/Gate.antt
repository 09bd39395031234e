-- ===== src/LoginAttempt/Gate.antt =====
-- What the counter and the lock do together, and behind the check at login.
use arc_id.Base.{
  ℕ, ◌+◌, ◌≤◌, ◌≡◌, refl, true, false, Option, none, some, List, [], ◌∷◌, leb, get_or, ◌≢◌, ◌⊎◌,
  Option-cases, Bool-cases, inl, inr, ==_self, arith,
}
use arc_id.LoginAttempt.Commands.{
  Redis, IsDocumented, documented, by_documentation, fail_key, lock_key, Store, Entry, entry, alive,
  lookup, counted, value_of, put, is_live,
}
use arc_id.LoginAttempt.Lockout.{next_count, counted_store, entry-discard, apart, apart_lock}
use arc_id.LoginAttempt.{check_lockout, lockout_ttl_seconds, lock_for, record_failure, failed_login}

-- What the failures behind the check keep: at most five counted, and from five on a lock that
-- outlives the count.
abbrev Outlived : Option ℕ → Option Entry → Type 0
Outlived none l = ⊥
Outlived (some end) none = ⊥
Outlived (some end) (some l) = elim l.expires_at [ none ↦ ⊥ | some last ↦ end ≤ last ]

abbrev Bounded : Option Entry → Option Entry → Type 0
Bounded none l = Unit
Bounded (some e) l = (e.value ≤ 5) × (e.value ≡ 5 → Outlived e.expires_at l)

abbrev Guarded : ℕ → Store → Type 0
Guarded h store = Bounded (entry (fail_key h) store) (entry (lock_key h) store)

-- The counter's entry after a failure.
abbrev fresh_count : ℕ → ℕ → ℕ → Entry
fresh_count now h n = record { key = fail_key h; value = n; expires_at = some (now + 900000) }

count-bound :
    (now h : ℕ) (f l : Option Entry)
    → Bounded f l
    → alive now l ≡ none
    → (counted (fail_key h) (alive now f)).value ≤ 5
count-bound now h none l g u = ground arith
count-bound now h (some f) none g u = elim (Option-cases f.expires_at) [
  | inl e ↦ ground arith
  | inr (end, e) ↦ ground arith
]
count-bound now h (some f) (some l) g u = elim (Option-cases f.expires_at) [
  | inl e ↦ ground arith
  | inr (end, e) ↦ elim (Option-cases l.expires_at) [
    | inl k ↦ ground arith
    | inr (last, k) ↦ ground arith
  ]
]

fresh_live :
    (now h : ℕ) (f : Option Entry)
    → is_live now (counted (fail_key h) (alive now f)).expires_at ≡ true
fresh_live now h none = refl
fresh_live now h (some f) = elim (Bool-cases (is_live now f.expires_at)) [
  | inl e ↦ ground arith
  | inr e ↦ ground arith
]

-- What is found after the count and its window: the count itself, and the lock as it was.
counted_store-fail :
    (now h : ℕ) (store : Store)
    → entry (fail_key h) (counted_store now h store)
      ≡ some (fresh_count now h (next_count now h store))
counted_store-fail now h store =
    ground (arith, ==_self h, fresh_live now h (entry (fail_key h) store))

unlocked-alive :
    (now h : ℕ) (store : Store)
    → (check_lockout (some documented) now h store).locked ≡ false
    → lookup now (lock_key h) store ≡ none
unfolding check_lockout
unlocked-alive now h store u = ground arith

counted_store-lock :
    (now h : ℕ) (store : Store)
    → entry (lock_key h) (counted_store now h store) ≡ entry (lock_key h) store
counted_store-lock now h store =
    let same = entry-discard (fail_key h) (lock_key h) store (apart h) in
    ground (
      arith,
      ==_self h,
      fresh_live now h (entry (fail_key h) store),
      same,
      entry-discard (fail_key h) (lock_key h)
          (put (counted (fail_key h) (lookup now (fail_key h) store)) store) (apart h),
    )

lock_for-Guarded :
    (now h n secs : ℕ) (store : Store)
    → entry (fail_key h) store ≡ some (fresh_count now h n)
    → n ≤ 5
    → 900 ≤ secs
    → lookup now (lock_key h) store ≡ none
    → Guarded h (lock_for documented now h n secs store)
unfolding lock_for
lock_for-Guarded now h n secs store f small long u =
    rw (u, ==_self h, entry-discard (lock_key h) (fail_key h) store (apart_lock h), f)
      (small, λ e. omega (arith, long))

lockout-cases :
    (n : ℕ)
    → n ≤ 5
    → ((lockout_ttl_seconds n ≡ none) × (n ≢ 5)) ⊎ (lockout_ttl_seconds n ≡ some 900)
unfolding lockout_ttl_seconds
lockout-cases n h = elim (Bool-cases (leb 5 n)) [
  | inl e ↦ inr (ground arith)
  | inr e ↦ inl (ground arith, λ k. ground arith)
]

record_failure-Guarded :
    (now h : ℕ) (store : Store)
    → next_count now h store ≤ 5
    → lookup now (lock_key h) store ≡ none
    → Guarded h (record_failure (some documented) now h store)
unfolding record_failure
record_failure-Guarded now h store small u = elim (lockout-cases (next_count now h store) small) [
  | inl (e, k) ↦ rw (e, counted_store-fail now h store) (small, λ x. absurd (k x))
  | inr e ↦ rw (e) (
      lock_for-Guarded now h (next_count now h store) 900 (counted_store now h store)
        (counted_store-fail now h store) small (omega arith)
        (rw (counted_store-lock now h store) u))
]

unlocked-next_count :
    (now h : ℕ) (store : Store)
    → Guarded h store
    → (check_lockout (some documented) now h store).locked ≡ false
    → next_count now h store ≤ 5
unlocked-next_count now h store g u =
    count-bound now h (entry (fail_key h) store) (entry (lock_key h) store) g
      (unlocked-alive now h store u)

failed_login-Guarded :
    (now h : ℕ) (store : Store)
    → Guarded h store
    → Guarded h (failed_login (some documented) now h store)
unfolding failed_login
failed_login-Guarded now h store g =
    elim (Bool-cases ((check_lockout (some documented) now h store).locked)) [
      | inl e ↦ rw (e) g
      | inr e ↦ rw (e) (
          record_failure-Guarded now h store (unlocked-next_count now h store g e)
            (unlocked-alive now h store e))
    ]

-- Failed logins one after another, at the given times.
abbrev pub failed_logins : Option Redis → ℕ → List ℕ → Store → Store
failed_logins r h [] store = store
failed_logins r h (t ∷ ts) store = failed_logins r h ts (failed_login r t h store)

failed_logins-Guarded :
    (h : ℕ) (times : List ℕ) (store : Store)
    → Guarded h store
    → Guarded h (failed_logins (some documented) h times store)
failed_logins-Guarded h [] store g = g
failed_logins-Guarded h (t ∷ ts) store g =
    failed_logins-Guarded h ts (failed_login (some documented) t h store)
      (failed_login-Guarded t h store g)

Guarded-bound :
    (h : ℕ) (store : Store) → Guarded h store → get_or (value_of (entry (fail_key h) store)) 0 ≤ 5
Guarded-bound h store g = elim (Option-cases (entry (fail_key h) store)) [
  | inl e ↦ ground arith
  | inr (f, e) ↦ ground arith
]

-- However many logins fail one after another, at whatever times, the counter of an address never
-- passes five: the check before it refuses while the counter lives. The thresholds of ten and
-- twenty failures are not reached.
pub failed_logins-bound :
    (r : Redis)
    → IsDocumented r
    → (h : ℕ) (times : List ℕ)
    → get_or (value_of (entry (fail_key h) (failed_logins (some r) h times []))) 0 ≤ 5
failed_logins-bound r d h times =
    by_documentation
      (λ x. get_or (value_of (entry (fail_key h) (failed_logins (some x) h times []))) 0 ≤ 5) d
      (Guarded-bound h (failed_logins (some documented) h times [])
        (failed_logins-Guarded h times [] tt))
