-- ===== src/Revocation.antt =====
-- src/modules/oauth/flows/token-revoke.flow.ts and revoke-token-by-id.flow.ts: a token is revoked by
-- its value or, an access token, by its row's identifier.
pub mod Laws
use arc_id.Base.{
  ℕ, ◌≡◌, Bool, true, false, ◌&&◌, not, Option, none, some, List, [], ◌∷◌, ◌==◌, if◌then◌else◌,
}
use arc_id.Db.{AccessToken, RefreshToken, Db}
use arc_id.Db.Prisma.{Prisma}
use arc_id.Flow.Errors.{Thrown, not_found_error, unauthorized_error}
use arc_id.Flow.Monad.{Flow, State, Result, ok, err, audit, block_jti, record_jti}
use arc_id.Flow.World.{World, Ctx}
use arc_id.Refresh.KillChain.{remaining_ttl_sec, revoke_access, revoke_refresh}

-- `ownerFilter`: no condition for a caller that is not logged in.
unfoldable pub owned : Option ℕ → ℕ → Bool
owned none identity_id = true
owned (some caller) identity_id = identity_id == caller

-- `if (accessToken.jti)`: a call of `blockJti` for the rest of the lifetime, and one of
-- `revokedJti.create`; neither is awaited, and the errors of both are dropped.
unfoldable pub block_token : World → AccessToken → State → State
block_token w t s = elim t.jti [
  | none ↦ s
  | some jti ↦ record s {
    effects =
        record_jti jti t.expires_at
        ∷ block_jti jti (remaining_ttl_sec w.now t.expires_at)
        ∷ s.effects;
  }
]

abbrev audited : ℕ → State → State
audited identity_id s = record s { effects = audit "TOKEN_REVOKED" (some identity_id) ∷ s.effects }

unfoldable pub revoke_access_row : Prisma → World → AccessToken → State → State
unfolding block_token
revoke_access_row q w t s =
    audited t.identity_id
      (block_token w t (record s { db = revoke_access q (λ a. a.id == t.id) s.db }))

unfoldable pub revoke_refresh_row : Prisma → Option RefreshToken → State → State
revoke_refresh_row q none s = s
revoke_refresh_row q (some t) s =
    audited t.identity_id (record s { db = revoke_refresh q (λ r. r.id == t.id) s.db })

unfoldable pub revoke_found : Prisma → World → ℕ → Ctx → Option AccessToken → State → State
unfolding owned revoke_access_row revoke_refresh_row
revoke_found q w token ctx none s =
    revoke_refresh_row q
      (q.find_first RefreshToken (λ t. t.token == token && owned ctx.identity_id t.identity_id)
        s.db.refresh_tokens)
      s
revoke_found q w token ctx (some t) s = revoke_access_row q w t s

-- `tokenRevokeFlow`, which answers the same whether it finds a token or not.
unfoldable pub token_revoke : Prisma → World → ℕ → Ctx → Flow (Unit {0})
unfolding owned revoke_found
token_revoke q w token ctx s = ok tt (
    revoke_found q w token ctx
      (q.find_first AccessToken (λ t. t.token == token && owned ctx.identity_id t.identity_id)
        s.db.access_tokens)
      s)

unfoldable pub revoke_own : Prisma → World → Option AccessToken → Flow (Unit {0})
unfolding revoke_access_row
revoke_own q w none s = err (not_found_error "Token not found") s
revoke_own q w (some t) s = if t.revoked then ok tt s else ok tt (revoke_access_row q w t s)

-- `revokeTokenByIdFlow`.
unfoldable pub revoke_token_by_id : Prisma → World → ℕ → Ctx → Flow (Unit {0})
unfolding revoke_own
revoke_token_by_id q w id ctx s = elim ctx.identity_id [
  | none ↦ err (unauthorized_error "Not logged in") s
  | some caller ↦
      revoke_own q w
        (q.find_first AccessToken (λ t. t.id == id && t.identity_id == caller) s.db.access_tokens) s
]
