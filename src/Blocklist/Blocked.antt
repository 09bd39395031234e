-- ===== src/Blocklist/Blocked.antt =====
-- A blocked identifier is blocked for its lifetime.
use arc_id.Base.{ℕ, ◌+◌, ◌*◌, ◌≤◌, ◌<◌, ◌≡◌, true, Option, none, some, max, arith, ==_self}
use arc_id.LoginAttempt.Commands.{Redis, IsDocumented, documented, by_documentation}
use arc_id.Blocklist.{
  Blocklist, block, set_or_mem, mem_set, is_jti_blocked, check_or_mem, check_mem, check_entry,
}

-- With a Redis that keeps to its documentation, or without one.
abbrev pub IsUsable : Option Redis → Type 0
IsUsable none = Unit {0}
IsUsable (some r) = IsDocumented r

blocked :
    (now t jti ttl_seconds : ℕ) (b : Blocklist)
    → now ≤ t
    → t < now + max ttl_seconds 1 * 1000
    → (is_jti_blocked (some documented) t jti (block (some documented) now jti ttl_seconds b)).0
      ≡ true
unfolding block set_or_mem is_jti_blocked check_or_mem
blocked now t jti ttl_seconds b x y = ground (arith, ==_self jti)

-- An identifier blocked for a lifetime of seconds, counted as one second at least, is blocked at
-- every time within it, whether Redis is used or the memory of the process.
pub block-Blocks :
    (r : Option Redis)
    → IsUsable r
    → (now t jti ttl_seconds : ℕ) (b : Blocklist) → now ≤ t
    → t < now + max ttl_seconds 1 * 1000
    → (is_jti_blocked r t jti (block r now jti ttl_seconds b)).0 ≡ true
unfolding block mem_set is_jti_blocked check_mem check_entry
block-Blocks none d now t jti ttl_seconds b x y = ground (arith, ==_self jti)
block-Blocks (some r) d now t jti ttl_seconds b x y =
    by_documentation
      (λ p. (is_jti_blocked (some p) t jti (block (some p) now jti ttl_seconds b)).0 ≡ true) d
      (blocked now t jti ttl_seconds b x y)
