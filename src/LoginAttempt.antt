-- ===== src/LoginAttempt.antt =====
-- src/lib/security/login-attempt.ts: the per-address failure counter and lockout in Redis. An
-- address is a number that stands for its hash; times are milliseconds.
pub mod Commands
pub mod Lockout
pub mod Gate
use arc_id.Base.{
  ℕ, ◌*◌, ◌≡◌, Bool, true, false, Option, none, some, leb, ltb, is_some, if◌then◌else◌,
}
use arc_id.LoginAttempt.Commands.{Redis, Key, fail_key, lock_key, Store}

unfoldable pub lockout_ttl_seconds : ℕ → Option ℕ
lockout_ttl_seconds attempts =
    if leb 20 attempts
    then some 86400
    else (if leb 10 attempts then some 3600 else (if leb 5 attempts then some 900 else none))

pub record LockoutStatus : Type 0 where
  pub locked : Bool
  pub ttl_secs : Option ℕ

abbrev pub unlocked : LockoutStatus
unlocked = record { locked = false; ttl_secs = none }

-- `ttl > 0 ? ttl : undefined`.
unfoldable pub positive : Option ℕ → Option ℕ
positive none = none
positive (some n) = if ltb 0 n then some n else none

-- The value and the lifetime of the lock, or a failure of either call.
unfoldable pub status_of : Option (Option ℕ) → Option (Option ℕ) → LockoutStatus
unfolding positive
status_of none ttl = unlocked
status_of (some lock) none = unlocked
status_of (some none) (some ttl) = unlocked
status_of (some (some v)) (some ttl) = record { locked = true; ttl_secs = positive ttl }

-- Without Redis nobody is locked out.
unfoldable pub check_lockout : Option Redis → ℕ → ℕ → Store → LockoutStatus
unfolding status_of
check_lockout none now h store = unlocked
check_lockout (some r) now h store =
    status_of (r.get now (lock_key h) store) (r.ttl now (lock_key h) store)

-- `existingTtl < lockTtl`: a missing key answers a negative number.
unfoldable pub is_shorter : Option ℕ → ℕ → Bool
is_shorter none lock_ttl = true
is_shorter (some existing) lock_ttl = ltb existing lock_ttl

-- The sentinel, over a shorter one or none. A call that fails ends the attempt where it stands.
unfoldable pub lock_for : Redis → ℕ → ℕ → ℕ → ℕ → Store → Store
unfolding is_shorter
lock_for r now h count lock_ttl store = elim (r.ttl now (lock_key h) store) [
  | none ↦ store
  | some existing ↦
      if is_shorter existing lock_ttl
      then (elim (r.set_ex now (lock_key h) count lock_ttl store) [
        | none ↦ store
        | some locked ↦ locked
      ])
      else store
]

unfoldable pub lock_by : Redis → ℕ → ℕ → ℕ → Option ℕ → Store → Store
unfolding lock_for
lock_by r now h count none store = store
lock_by r now h count (some lock_ttl) store = lock_for r now h count lock_ttl store

-- Increment, slide the counter's window, and lock past a threshold.
unfoldable pub record_with : Redis → ℕ → ℕ → Store → Store
unfolding lock_by
record_with r now h store = elim (r.incr now (fail_key h) store) [
  | none ↦ store
  | some (counted, count) ↦ elim (r.expire now (fail_key h) (15 * 60) counted) [
    | none ↦ counted
    | some kept ↦ lock_by r now h count (lockout_ttl_seconds count) kept
  ]
]

unfoldable pub record_failure : Option Redis → ℕ → ℕ → Store → Store
unfolding record_with
record_failure none now h store = store
record_failure (some r) now h store = record_with r now h store

-- Both deletions are started together.
unfoldable pub del_or_keep : Redis → Key → Store → Store
del_or_keep r k store = elim (r.del k store) [ none ↦ store | some left ↦ left ]

unfoldable pub clear_attempts : Option Redis → ℕ → Store → Store
unfolding del_or_keep
clear_attempts none h store = store
clear_attempts (some r) h store = del_or_keep r (lock_key h) (del_or_keep r (fail_key h) store)

-- What a wrong password does at login (src/modules/auth/flows/login.flow.ts): nothing while the
-- address is locked, since the check comes first, and else one recorded failure.
unfoldable pub failed_login : Option Redis → ℕ → ℕ → Store → Store
unfolding record_failure check_lockout
failed_login r now h store =
    if (check_lockout r now h store).locked then store else record_failure r now h store
