-- ===== src/Blocklist.antt =====
-- src/lib/security/jti-blocklist.ts: revoked token identifiers, in Redis or, without it, in the
-- memory of the process.
pub mod Blocked
use arc_id.Base.{
  ℕ, ◌+◌, ◌*◌, ◌≡◌, Bool, true, false, not, Option, none, some, List, [], ◌∷◌, max, ltb, ◌==◌, find,
  is_some, if◌then◌else◌,
}
use arc_id.Db.Prisma.{discard}
use arc_id.LoginAttempt.Commands.{Redis, Store, jti_key}

-- `memStore`: a Map from a key to the time of its expiry.
pub record MemEntry : Type 0 where
  pub jti : ℕ
  pub expires_at : ℕ

pub record Blocklist : Type 0 where
  pub store : Store
  pub mem : List MemEntry

abbrev pub mem_delete : ℕ → Blocklist → Blocklist
mem_delete jti b = record b { mem = discard (λ m. m.jti == jti) b.mem }

-- `memStore.set`.
unfoldable pub mem_set : ℕ → ℕ → Blocklist → Blocklist
mem_set jti expires_at b = record b {
  mem = record { jti = jti; expires_at = expires_at } ∷ discard (λ m. m.jti == jti) b.mem;
}

-- What the call of Redis left, or the fallback where it failed.
unfoldable pub set_or_mem : ℕ → ℕ → Option Store → Blocklist → Blocklist
unfolding mem_set
set_or_mem jti expires_at none b = mem_set jti expires_at b
set_or_mem jti expires_at (some store) b = record b { store = store }

-- `blockJti`.
unfoldable pub block : Option Redis → ℕ → ℕ → ℕ → Blocklist → Blocklist
unfolding set_or_mem
block none now jti ttl_seconds b = mem_set jti (now + max ttl_seconds 1 * 1000) b
block (some r) now jti ttl_seconds b =
    set_or_mem jti (now + max ttl_seconds 1 * 1000)
      (r.set_ex now (jti_key jti) 1 (max ttl_seconds 1) b.store) b

-- The in-memory check, which drops an entry that has expired.
unfoldable pub check_entry : ℕ → ℕ → Option MemEntry → Blocklist → Bool × Blocklist
check_entry now jti none b = (false, b)
check_entry now jti (some m) b =
    if ltb m.expires_at now then (false, mem_delete jti b) else (true, b)

unfoldable pub check_mem : ℕ → ℕ → Blocklist → Bool × Blocklist
unfolding check_entry
check_mem now jti b = check_entry now jti (find (λ m. m.jti == jti) b.mem) b

unfoldable pub check_or_mem : ℕ → ℕ → Option (Option ℕ) → Blocklist → Bool × Blocklist
unfolding check_mem
check_or_mem now jti none b = check_mem now jti b
check_or_mem now jti (some val) b = (is_some val, b)

-- `isJtiBlocked`.
unfoldable pub is_jti_blocked : Option Redis → ℕ → ℕ → Blocklist → Bool × Blocklist
unfolding check_or_mem
is_jti_blocked none now jti b = check_mem now jti b
is_jti_blocked (some r) now jti b = check_or_mem now jti (r.get now (jti_key jti) b.store) b

-- `unblockJti`.
unfoldable pub unblock : Option Redis → ℕ → Blocklist → Blocklist
unblock none jti b = mem_delete jti b
unblock (some r) jti b = elim (r.del (jti_key jti) b.store) [
  | none ↦ mem_delete jti b
  | some store ↦ record b { store = store }
]
