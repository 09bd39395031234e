-- ===== src/Switch.antt =====
-- src/modules/auth/flows/switch-context.flow.ts and src/modules/auth/routes/switch-context.route.ts.
pub mod Laws
use arc_id.Base.{
  ℕ, ◌≡◌, Bool, true, false, ◌&&◌, not, Option, none, some, List, [], ◌∷◌, ltb, ◌==◌, opt_eq,
  is_some, or_else, if◌then◌else◌,
}
use arc_id.Db.{Aal, aal1, AccessToken, RefreshToken, Session, Membership, Db}
use arc_id.Db.Prisma.{Prisma}
use arc_id.Flow.Errors.{Thrown, unauthorized_error, forbidden_error, conflict_error}
use arc_id.Flow.Executor.{run}
use arc_id.Flow.Monad.{
  Flow, ◌>>=◌, ◌>>◌, pure, reads, or_throw, start, State, Result, ok, err, audit,
}
use arc_id.Flow.World.{World, Ctx}
use arc_id.Membership.{is_active, is_between}
use arc_id.Passkey.{direct_client}
use arc_id.Refresh.KillChain.{block_each, revoke_access}
use arc_id.Refresh.Rotate.{default_scopes}
use arc_id.Token.Issue.{IssueTokensParams, TokenBundle, issue}

abbrev pub active_membership : Prisma → ℕ → ℕ → Db → Option Membership
active_membership q tenant_id identity_id db =
    q.find_first Membership (λ m. is_between tenant_id identity_id m && is_active m.status)
      db.memberships

abbrev pub is_usable : World → ℕ → ℕ → Session → Bool
is_usable w session_id identity_id x =
    x.id == session_id && x.identity_id == identity_id && x.valid && ltb w.now x.expires_at

-- The access tokens of the session that the update revokes.
abbrev pub of_session : ℕ → ℕ → AccessToken → Bool
of_session session_id identity_id t =
    opt_eq t.session_id (some session_id) && t.identity_id == identity_id && not t.revoked

abbrev pub live_access_tokens : Prisma → Session → ℕ → Db → List AccessToken
live_access_tokens q x identity_id db =
    q.find_many AccessToken (λ t. of_session x.id identity_id t && is_some t.jti) db.access_tokens

abbrev pub race_detected : Thrown
race_detected =
    conflict_error
      "Context switch failed — concurrent session mutation detected. Please log in again."

-- Step 3: a session without a refresh token has nothing to revoke.
unfoldable pub revoke_current : Prisma → World → ℕ → Option ℕ → Flow (Unit {0})
revoke_current q w identity_id none s = ok tt s
revoke_current q w identity_id (some id) s =
    let (rows, n) =
      q.update_many RefreshToken (λ t. t.id == id && not t.revoked)
        (λ t. record t { revoked = true; rotated_at = some w.now }) s.db.refresh_tokens in
    if n == 0
    then err race_detected
        (record s { effects = audit "TOKEN_REVOKED" (some identity_id) ∷ s.effects })
    else ok tt (record s { db = record s.db { refresh_tokens = rows } })

-- The tokens were collected before step 3.
unfoldable pub block_old : Prisma → World → ℕ → ℕ → List AccessToken → State → State
block_old q w session_id identity_id [] s = s
block_old q w session_id identity_id (t ∷ ts) s =
    block_each w (t ∷ ts)
      (record s { db = revoke_access q (of_session session_id identity_id) s.db })

abbrev pub switch_params : World → ℕ → ℕ → Session → IssueTokensParams
switch_params w identity_id tenant_id x = record {
  identity_id = identity_id;
  client_id = direct_client w;
  session_id = x.id;
  scopes = default_scopes;
  audience = direct_client w ∷ [];
  tenant_id = some tenant_id;
  nonce = none;
  family_id = none;
  parent_jti = none;
  auth_level = or_else x.auth_level (some aal1);
}

-- Steps 3 and 4.
unfoldable pub switch_session : Prisma → World → ℕ → ℕ → Session → Flow TokenBundle
switch_session q w identity_id tenant_id x s =
    (revoke_current q w identity_id x.refresh_token_id >>= λ _ t.
    issue q w (switch_params w identity_id tenant_id x)
      (block_old q w x.id identity_id (live_access_tokens q x identity_id s.db) t))
      s

-- `ctx.sessionId ?? ctx.metadata?.sessionId`.
unfoldable pub switch_context : Prisma → World → ℕ → Option ℕ → Ctx → Flow TokenBundle
switch_context q w tenant_id metadata ctx = do
  identity_id ← or_throw ctx.identity_id (unauthorized_error "Not logged in")
  found ← reads (active_membership q tenant_id identity_id)
  membership ← or_throw found (forbidden_error "No access to this tenant")
  session_id ←
      or_throw (or_else ctx.session_id metadata) (unauthorized_error "No active session found")
  usable ← reads (λ db. q.find_first Session (is_usable w session_id identity_id) db.sessions)
  x ← or_throw usable (unauthorized_error "Session not found or expired")
  bundle ← switch_session q w identity_id tenant_id x
  start (audit "SESSION_CREATED" (some identity_id))
  pure bundle

-- The route's request: the identity's newest valid session, and no metadata.
abbrev pub route_ctx : Prisma → ℕ → Option ℕ → Db → Ctx
route_ctx q identity_id current db = record {
  identity_id = some identity_id;
  tenant_id = current;
  session_id =
      elim (q.find_latest Session (λ x. x.created_at) (λ x. x.identity_id == identity_id && x.valid)
        db.sessions) [ none ↦ none | some x ↦ some x.id ];
}

unfoldable pub switch_context_route : Prisma → World → ℕ → ℕ → Option ℕ → Flow TokenBundle
switch_context_route q w tenant_id identity_id current s =
    run q w (switch_context q w tenant_id none) (route_ctx q identity_id current s.db) true s
