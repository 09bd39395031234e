-- ===== src/Session/Repository.antt =====
-- src/modules/auth/repositories/session.repository.ts.
pub mod Revoked
use arc_id.Base.{
  ℕ, ◌≡◌, Bool, true, false, ◌&&◌, not, Option, none, some, List, [], ◌∷◌, ltb, ◌==◌, any, is_some,
  if◌then◌else◌,
}
use arc_id.Db.{AccessToken, RefreshToken, Session, RevokedJti, Db}
use arc_id.Db.Prisma.{Prisma}
use arc_id.Flow.Errors.{Thrown, prisma, unauthorized_error}
use arc_id.Flow.Monad.{Flow, State, Result, ok, err, block_jti}
use arc_id.Flow.World.{World}
use arc_id.Refresh.KillChain.{remaining_ttl_sec}
use arc_id.Session.{validate, update_session}

unfoldable pub find_valid_by_id : Prisma → World → ℕ → Flow Session
find_valid_by_id q w id s = elim (validate q w id s.db) [
  | none ↦ err (unauthorized_error "Session not found or expired") s
  | some x ↦ ok x s
]

unfoldable pub revoke_by_id : Prisma → ℕ → Flow (Unit {0})
revoke_by_id q id s = update_session q id (λ x. record x { valid = false }) s

abbrev pub is_valid_of : ℕ → Session → Bool
is_valid_of identity_id x = x.identity_id == identity_id && x.valid

-- `sessionId: { in: sessionIds }`, which null never is.
abbrev pub in_sessions : List Session → Option ℕ → Bool
in_sessions xs none = false
in_sessions xs (some id) = any (λ x. x.id == id) xs

-- The three updates of the batch.
abbrev pub revoke_rows : Prisma → World → ℕ → List Session → Db → Db
revoke_rows q w identity_id xs db = record db {
  access_tokens =
      (q.update_many AccessToken (λ t. t.identity_id == identity_id && not t.revoked)
        (λ t. record t { revoked = true }) db.access_tokens).0;
  refresh_tokens =
      (q.update_many RefreshToken (λ t. in_sessions xs t.session_id && not t.revoked)
        (λ t. record t { revoked = true; rotated_at = some w.now }) db.refresh_tokens).0;
  sessions =
      (q.update_many Session (λ x. any (λ y. y.id == x.id) xs) (λ x. record x { valid = false })
        db.sessions).0;
}

-- One row for each live token with a jti. A jti that is listed already fails the batch.
unfoldable pub record_jtis : Prisma → List AccessToken → Db → Option Db
record_jtis q [] db = some db
record_jtis q (t ∷ ts) db = elim t.jti [
  | none ↦ record_jtis q ts db
  | some jti ↦
      elim (q.create RevokedJti (λ r. r.jti == jti)
        (record { jti = jti; expires_at = t.expires_at }) db.revoked_jtis) [
          | none ↦ none
          | some rows ↦ record_jtis q ts (record db { revoked_jtis = rows })
        ]
]

-- The calls of `blockJti` after the batch.
unfoldable pub block_all : World → List AccessToken → State → State
block_all w [] s = s
block_all w (t ∷ ts) s = elim t.jti [
  | none ↦ block_all w ts s
  | some jti ↦
      block_all w ts
        (record s { effects = block_jti jti (remaining_ttl_sec w.now t.expires_at) ∷ s.effects })
]

-- `$transaction([…])`: all of the batch or nothing.
unfoldable pub settle_batch : Prisma → World → List AccessToken → Option Db → Flow (Unit {0})
settle_batch q w live none s = err (prisma "P2002") (record s { db = q.settle Db false s.db s.db })
settle_batch q w live (some after) s =
    ok tt (block_all w live (record s { db = q.settle Db true s.db after }))

unfoldable pub revoke_sessions : Prisma → World → ℕ → List Session → Flow (Unit {0})
revoke_sessions q w identity_id [] s = ok tt s
revoke_sessions q w identity_id (x ∷ xs) s =
    let live =
      q.find_many AccessToken (λ t. t.identity_id == identity_id && not t.revoked && is_some t.jti)
        s.db.access_tokens in
    settle_batch q w live (record_jtis q live (revoke_rows q w identity_id (x ∷ xs) s.db)) s

unfoldable pub revoke_all_for_identity : Prisma → World → ℕ → Flow (Unit {0})
revoke_all_for_identity q w identity_id s =
    revoke_sessions q w identity_id (q.find_many Session (is_valid_of identity_id) s.db.sessions) s
