-- ===== src/Logout.antt =====
-- src/modules/auth/flows/logout.flow.ts and src/modules/auth/routes/logout.route.ts.
pub mod Laws
use arc_id.Base.{
  ℕ, ◌*◌, ◌≡◌, Bool, true, false, ◌&&◌, not, Option, none, some, List, [], ◌∷◌, ◌==◌, opt_eq, any,
  if◌then◌else◌,
}
use arc_id.Db.{RefreshToken, Session, RevokedJti, Db}
use arc_id.Db.Prisma.{Prisma}
use arc_id.Flow.Errors.{Thrown}
use arc_id.Flow.Monad.{Flow, State, Result, ok, err, audit, block_jti}
use arc_id.Flow.World.{World, Ctx}
use arc_id.Refresh.KillChain.{remaining_ttl_sec, record_revoked_jti}
use arc_id.Revocation.{owned}

pub record LogoutInput : Type 0 where
  pub session_id : ℕ
  pub access_jti : Option ℕ
  pub access_token_exp : Option ℕ

-- `accessJti && accessTokenExpiresAt`; the claim is in seconds, and 0 counts as missing.
unfoldable pub expiry_of : Option ℕ → Option ℕ
expiry_of none = none
expiry_of (some secs) = if secs == 0 then none else some (secs * 1000)

unfoldable pub access_token_of : LogoutInput → Option (ℕ × ℕ)
unfolding expiry_of
access_token_of i = elim i.access_jti [
  | none ↦ none
  | some jti ↦ elim (expiry_of i.access_token_exp) [ none ↦ none | some t ↦ some (jti, t) ]
]

abbrev pub spend : Prisma → World → (RefreshToken → Bool) → Db → Db
spend q w p db = record db {
  refresh_tokens =
      (q.update_many RefreshToken (λ t. p t && not t.revoked)
        (λ t. record t { revoked = true; rotated_at = some w.now }) db.refresh_tokens).0;
}

unfoldable pub spend_bound : Prisma → World → Option ℕ → Db → Db
spend_bound q w none db = db
spend_bound q w (some id) db = spend q w (λ t. t.id == id) db

abbrev pub end_session : Prisma → ℕ → Db → Db
end_session q id db = record db {
  sessions =
      (q.update_many Session (λ x. x.id == id) (λ x. record x { valid = false }) db.sessions).0;
}

-- `revokedJti.upsert` with an empty update.
unfoldable pub upsert_jti : Prisma → Option (ℕ × ℕ) → Db → Db
upsert_jti q none db = db
upsert_jti q (some (jti, t)) db = record_revoked_jti q jti t db

-- The transaction's writes, none of which fails.
unfoldable pub logout_writes : Prisma → World → Session → Option (ℕ × ℕ) → Db → Db
unfolding spend_bound upsert_jti
logout_writes q w x access db = upsert_jti q access (
    end_session q x.id
      (spend q w (λ t. opt_eq t.session_id (some x.id)) (spend_bound q w x.refresh_token_id db)))

unfoldable pub block_access : World → Option (ℕ × ℕ) → State → State
block_access w none s = s
block_access w (some (jti, t)) s = record s {
  effects = block_jti jti (remaining_ttl_sec w.now t) ∷ s.effects;
}

unfoldable pub logout_found : Prisma → World → LogoutInput → Ctx → Option Session → Flow (Unit {0})
unfolding access_token_of logout_writes block_access
logout_found q w i ctx none s =
    ok tt (record s { effects = audit "SESSION_REVOKED" ctx.identity_id ∷ s.effects })
logout_found q w i ctx (some x) s =
    let s₁ =
      block_access w (access_token_of i)
        (record s { db = q.settle Db true s.db (logout_writes q w x (access_token_of i) s.db) }) in
    ok tt (record s₁ { effects = audit "SESSION_REVOKED" (some x.identity_id) ∷ s₁.effects })

unfoldable pub logout : Prisma → World → LogoutInput → Ctx → Flow (Unit {0})
unfolding owned logout_found
logout q w i ctx s =
    logout_found q w i ctx
      (q.find_first Session (λ x. x.id == i.session_id && owned ctx.identity_id x.identity_id)
        s.db.sessions)
      s
