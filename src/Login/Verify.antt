-- ===== src/Login/Verify.antt =====
-- `mfaVerifyFlow.execute`.
use arc_id.Base.{ℕ, Bool, true, false, ◌&&◌, Option, none, some, [], ◌∷◌, ◌==◌, if◌then◌else◌}
use arc_id.Db.{Aal, aal2, MfaType, Mfa, Session, Db}
use arc_id.Db.Prisma.{Prisma}
use arc_id.Flow.Errors.{unauthorized_error, bad_request_error, not_found_error, internal_error}
use arc_id.Flow.Monad.{Flow, ◌>>=◌, ◌>>◌, pure, start, err, audit, or_throw}
use arc_id.Flow.World.{World, Ctx}
use arc_id.Refresh.Rotate.{default_scopes}
use arc_id.Session.{promote_to_aal2}
use arc_id.Token.Issue.{IssueTokensParams, TokenBundle}
use arc_id.Login.{issue_direct}

pub record MfaInput : Type 0 where
  pub session_id : ℕ
  pub code : ℕ

-- The tokens of the output, with the session and the identity they are for.
pub record MfaOutput : Type 0 where
  pub session_id : ℕ
  pub identity_id : ℕ
  pub tokens : TokenBundle
  pub auth_level : Aal

abbrev pub is_totp : MfaType → Bool
is_totp MfaType.totp = true
is_totp _ = false

abbrev pub mfa_params : Ctx → Session → ℕ → IssueTokensParams
mfa_params ctx x client_id = record {
  identity_id = x.identity_id;
  client_id = client_id;
  session_id = x.id;
  scopes = default_scopes;
  audience = client_id ∷ [];
  tenant_id = ctx.tenant_id;
  nonce = none;
  family_id = none;
  parent_jti = none;
  auth_level = some aal2;
}

-- Steps 4 to 6. The executor has put a tenant into the context, so its fallback is not reached.
unfoldable pub promote_and_issue : Prisma → World → Ctx → Session → Flow MfaOutput
promote_and_issue q w ctx x = do
  promote_to_aal2 q x.id
  issued ← issue_direct q w (mfa_params ctx x)
  tokens ← or_throw issued (internal_error "Failed to issue tokens for authenticated session")
  start (audit "MFA_VERIFICATION_SUCCESS" (some x.identity_id))
  pure (record {
    session_id = x.id;
    identity_id = x.identity_id;
    tokens = tokens;
    auth_level = aal2;
  })

-- Step 3.
unfoldable pub verify_code : Prisma → World → MfaInput → Ctx → Session → ℕ → Flow MfaOutput
verify_code q w input ctx x secret s =
    if w.totp_verify secret input.code
    then promote_and_issue q w ctx x s
    else err (unauthorized_error "Invalid MFA verification code")
        (record s { effects = audit "MFA_VERIFICATION_FAILED" (some x.identity_id) ∷ s.effects })

-- `mfa?.secret`.
unfoldable pub secret_of : Option Mfa → Option ℕ
secret_of none = none
secret_of (some m) = m.secret

-- Step 2.
unfoldable pub totp_secret : Prisma → ℕ → Db → Option ℕ
unfolding secret_of
totp_secret q identity_id db =
    secret_of
      (q.find_first Mfa (λ m. m.identity_id == identity_id && is_totp m.type && m.enabled) db.mfas)

-- `if (!mfa?.secret)`.
unfoldable pub verify_by : Prisma → World → MfaInput → Ctx → Session → Option ℕ → Flow MfaOutput
verify_by q w input ctx x none s = err (bad_request_error "No active MFA configuration found") s
verify_by q w input ctx x (some secret) s = verify_code q w input ctx x secret s

unfoldable pub verify_with : Prisma → World → MfaInput → Ctx → Session → Flow MfaOutput
unfolding verify_by
verify_with q w input ctx x s = verify_by q w input ctx x (totp_secret q x.identity_id s.db) s

unfoldable pub verify_session : Prisma → World → MfaInput → Ctx → Option Session → Flow MfaOutput
verify_session q w input ctx none s = err (not_found_error "Authentication session not found") s
verify_session q w input ctx (some x) s =
    if x.valid
    then verify_with q w input ctx x s
    else err (unauthorized_error "Session is no longer valid") s

unfoldable pub mfa_verify : Prisma → World → MfaInput → Ctx → Flow MfaOutput
unfolding verify_session
mfa_verify q w input ctx s =
    verify_session q w input ctx
      (q.find_first Session (λ x. x.id == input.session_id) s.db.sessions) s
