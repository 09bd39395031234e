-- ===== src/Refresh/KillChain.antt =====
-- `triggerKillChain` and `blocklistLiveAccessTokens`.
pub mod Laws
use arc_id.Base.{
  ℕ, ◌+◌, ◌-◌, ◌/◌, ◌≡◌, Bool, true, false, ◌&&◌, not, Option, none, some, List, [], ◌∷◌, map, max,
  ltb, ◌==◌, opt_eq, any, if◌then◌else◌,
}
use arc_id.Db.{AccessToken, RefreshToken, Session, RevokedJti, Db}
use arc_id.Db.Prisma.{Prisma}
use arc_id.Flow.Errors.{Thrown, invalid_grant_error}
use arc_id.Flow.Monad.{
  Flow, ◌>>=◌, ◌>>◌, pure, throw, reads, writes, start, State, Result, ok, err, audit, block_jti,
  record_jti,
}
use arc_id.Flow.World.{World}

-- `Math.max(Math.ceil((expiresAt - now) / 1000), 1)`.
abbrev pub remaining_ttl_sec : ℕ → ℕ → ℕ
remaining_ttl_sec now expires_at = max ((expires_at - now + 999) / 1000) 1

-- What `revokedJti.create` leaves where it is carried out: a repeated jti changes nothing.
abbrev pub record_revoked_jti : Prisma → ℕ → ℕ → Db → Db
record_revoked_jti q jti expires_at db =
    elim (q.create RevokedJti (λ r. r.jti == jti) (record { jti = jti; expires_at = expires_at })
      db.revoked_jtis) [ none ↦ db | some rows ↦ record db { revoked_jtis = rows } ]

-- The loop over the live tokens: for each with a jti one call of `blockJti` and one of
-- `revokedJti.create`. Neither is awaited and the errors of both are dropped, so they are effects,
-- of which nothing says that they are carried out. None of this chain's steps throws before its end,
-- so they are functions of the state.
unfoldable pub block_one : World → AccessToken → State → State
block_one w t s = elim t.jti [
  | none ↦ s
  | some jti ↦ record s {
    effects =
        record_jti jti t.expires_at
        ∷ block_jti jti (remaining_ttl_sec w.now t.expires_at)
        ∷ s.effects;
  }
]

unfoldable pub block_each : World → List AccessToken → State → State
unfolding block_one
block_each w [] s = s
block_each w (t ∷ ts) s = block_each w ts (block_one w t s)

abbrev pub is_live_access : World → ℕ → ℕ → AccessToken → Bool
is_live_access w identity_id client_id t =
    t.identity_id == identity_id
    && t.client_id == client_id
    && not t.revoked
    && ltb w.now t.expires_at

abbrev pub revoke_access : Prisma → (AccessToken → Bool) → Db → Db
revoke_access q p db = record db {
  access_tokens =
      (q.update_many AccessToken p (λ t. record t { revoked = true }) db.access_tokens).0;
}

-- `if (liveTokens.length === 0) return;`, the update by identifiers, and the loop.
unfoldable pub blocklist_live_access_tokens : Prisma → World → ℕ → ℕ → State → State
unfolding block_each
blocklist_live_access_tokens q w identity_id client_id s =
    elim (q.find_many AccessToken (is_live_access w identity_id client_id) s.db.access_tokens) [
      | [] ↦ s
      | t ∷ ts ↦
          block_each w (t ∷ ts)
            (record s { db = revoke_access q (λ a. any (λ l. l.id == a.id) (t ∷ ts)) s.db })
    ]

-- The fields of the token record that the chain reads, each possibly missing.
pub record KillTarget : Type 0 where
  pub id : Option ℕ
  pub family_id : Option ℕ
  pub session_id : Option ℕ
  pub identity_id : Option ℕ
  pub client_id : Option ℕ

-- What the callers hand over of a token's row.
abbrev pub target_of : RefreshToken → KillTarget
target_of t = record {
  id = some t.id;
  family_id = some t.family_id;
  session_id = t.session_id;
  identity_id = some t.identity_id;
  client_id = some t.client_id;
}

abbrev pub revoke_refresh : Prisma → (RefreshToken → Bool) → Db → Db
revoke_refresh q p db = record db {
  refresh_tokens =
      (q.update_many RefreshToken p (λ t. record t { revoked = true }) db.refresh_tokens).0;
}

abbrev pub invalidate_session : Prisma → Option ℕ → Db → Db
invalidate_session q none db = db
invalidate_session q (some id) db = record db {
  sessions =
      (q.update_many Session (λ s. s.id == id) (λ s. record s { valid = false }) db.sessions).0;
}

abbrev pub on_db : (Db → Db) → State → State
on_db f s = record s { db = f s.db }

-- The last resort: what the raw token's own row names, if there is one.
unfoldable pub kill_by_raw : Prisma → World → ℕ → State → State
unfolding blocklist_live_access_tokens
kill_by_raw q w raw s = elim (q.find_first RefreshToken (λ r. r.token == raw) s.db.refresh_tokens) [
  | none ↦ s
  | some t ↦ blocklist_live_access_tokens q w t.identity_id t.client_id (
      on_db
        (λ db.
          invalidate_session q t.session_id (revoke_refresh q (λ r. r.family_id == t.family_id) db))
        s)
]

-- The four branches: by family, by session, by row, by raw token.
unfoldable pub kill_family : Prisma → World → ℕ → KillTarget → State → State
unfolding kill_by_raw
kill_family q w raw k s = elim k.family_id [
  | some family ↦
      on_db
        (λ db. invalidate_session q k.session_id (revoke_refresh q (λ r. r.family_id == family) db))
        s
  | none ↦ elim k.session_id [
    | some session ↦
        on_db
          (λ db.
            invalidate_session q (some session)
              (revoke_refresh q (λ r. opt_eq r.session_id (some session)) db))
          s
    | none ↦ elim k.id [
      | some id ↦ on_db (revoke_refresh q (λ r. r.id == id)) s
      | none ↦ kill_by_raw q w raw s
    ]
  ]
]

-- `if (identityId && clientId)`.
unfoldable pub sweep : Prisma → World → KillTarget → State → State
unfolding blocklist_live_access_tokens
sweep q w k s = elim k.identity_id [
  | none ↦ s
  | some identity_id ↦ elim k.client_id [
    | none ↦ s
    | some client_id ↦ blocklist_live_access_tokens q w identity_id client_id s
  ]
]

-- A missing record is a target with no fields.
abbrev pub no_target : KillTarget
no_target = record {
  id = none;
  family_id = none;
  session_id = none;
  identity_id = none;
  client_id = none;
}

unfoldable pub killed : Prisma → World → ℕ → KillTarget → State → State
unfolding kill_family sweep
killed q w raw k s = sweep q w k (kill_family q w raw k s)

unfoldable pub trigger_kill_chain : {A : Type 0} → Prisma → World → ℕ → KillTarget → Flow A
unfolding killed
trigger_kill_chain q w raw k s =
    let t = killed q w raw k s in
    err (invalid_grant_error "Refresh token is invalid, expired, or already used")
      (record t { effects = audit "TOKEN_REVOKED" none ∷ t.effects })
