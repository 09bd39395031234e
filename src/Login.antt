-- ===== src/Login.antt =====
-- src/modules/auth/flows/login.flow.ts and src/modules/auth/flows/mfa-verify.flow.ts.
pub mod Verify
pub mod Laws
pub mod Stuck
use arc_id.Base.{
  ℕ, ◌≡◌, Bool, true, false, ◌&&◌, ◌||◌, not, String, Option, none, some, List, [], ◌∷◌, ◌==◌,
  opt_eq, get_or, select, length, map, ltb, if◌then◌else◌,
}
use arc_id.Db.{
  Aal, aal1, UserStatus, MfaType, Identity, LocalAccount, Mfa, TenantPolicy, Session, Db,
}
use arc_id.Db.Prisma.{Prisma}
use arc_id.Flow.Errors.{Thrown, unauthorized_error, forbidden_error}
use arc_id.Flow.Monad.{
  Flow, ◌>>=◌, ◌>>◌, pure, reads, start, State, Result, ok, err, Effect, audit, new_device_login,
}
use arc_id.Flow.World.{World, Ctx}
use arc_id.LoginAttempt.{check_lockout, record_failure}
use arc_id.Refresh.Rotate.{default_scopes}
use arc_id.Session.{CreateSessionInput, create, update_session}
use arc_id.Token.Issue.{IssueTokensParams, TokenBundle, issue}

pub record LoginInput : Type 0 where
  pub email : ℕ
  pub password : ℕ

pub record LoginOutput : Type 0 where
  pub identity_id : ℕ
  pub session_id : ℕ
  pub requires_mfa : Bool
  pub mfa_enrollment_required : Bool
  pub mfa_types : List MfaType
  pub tokens : Option TokenBundle

abbrev pub invalid_credentials : Thrown
invalid_credentials = unauthorized_error "Invalid email or password"

-- `findForAuth`: the identity by its address, and its local account.
unfoldable pub account_of : Prisma → Option Identity → Db → Option (Identity × LocalAccount)
account_of q none db = none
account_of q (some i) db =
    elim (q.find_first LocalAccount (λ a. a.identity_id == i.id) db.local_accounts) [
      | none ↦ none
      | some a ↦ some (i, a)
    ]

unfoldable pub find_for_auth : Prisma → ℕ → Db → Option (Identity × LocalAccount)
unfolding account_of
find_for_auth q email db =
    account_of q (q.find_first Identity (λ i. opt_eq i.primary_email (some email)) db.identities) db

-- `identity.mfas`, and of those the enabled ones.
abbrev pub active_mfas : Prisma → ℕ → Db → List Mfa
active_mfas q identity_id db =
    select (λ m. m.enabled)
      (q.find_many Mfa (λ m. m.identity_id == identity_id && m.enabled) db.mfas)

-- `ctx.tenantId ? findUnique : null`.
unfoldable pub policy_for : Prisma → Option ℕ → Db → Option TenantPolicy
policy_for q none db = none
policy_for q (some tenant) db = q.find_first TenantPolicy (λ p. p.tenant_id == tenant) db.policies

-- `policy?.requireMfa ?? false`, and the other two fields.
unfoldable pub requires_by_policy : Option TenantPolicy → Bool
requires_by_policy none = false
requires_by_policy (some p) = p.require_mfa

unfoldable pub ttl_by_policy : Option TenantPolicy → ℕ
ttl_by_policy none = 10080
ttl_by_policy (some p) = p.session_ttl_minutes

unfoldable pub cap_by_policy : Option TenantPolicy → ℕ
cap_by_policy none = 10
cap_by_policy (some p) = p.max_sessions_per_user

abbrev pub is_empty : {A : Type 0} → List A → Bool
is_empty [] = true
is_empty (x ∷ xs) = false

-- `activeMfas.length > 0 || policyRequireMfa`.
abbrev pub needs_mfa : List Mfa → Option TenantPolicy → Bool
needs_mfa mfas policy = not (is_empty mfas) || requires_by_policy policy

abbrev pub session_input : Identity → LocalAccount → Option TenantPolicy → CreateSessionInput
session_input i a policy = record {
  identity_id = i.id;
  local_account_id = some a.id;
  auth_level = some aal1;
  session_ttl_minutes = some (ttl_by_policy policy);
  max_sessions_per_user = some (cap_by_policy policy);
}

abbrev pub login_params : Ctx → Identity → Session → ℕ → IssueTokensParams
login_params ctx i x client_id = record {
  identity_id = i.id;
  client_id = client_id;
  session_id = x.id;
  scopes = default_scopes;
  audience = client_id ∷ [];
  tenant_id = ctx.tenant_id;
  nonce = none;
  family_id = none;
  parent_jti = none;
  auth_level = some aal1;
}

-- `targetClientId && issue(…)`.
unfoldable pub issue_by :
    Prisma → World → (ℕ → IssueTokensParams) → Option ℕ → Flow (Option TokenBundle)
issue_by q w params none s = ok none s
issue_by q w params (some client_id) s = elim (issue q w (params client_id) s) [
  | ok b t ↦ ok (some b) t
  | err e t ↦ err e t
]

unfoldable pub issue_direct : Prisma → World → (ℕ → IssueTokensParams) → Flow (Option TokenBundle)
unfolding issue_by
issue_direct q w params s = issue_by q w params w.direct_client_id s

-- Where a second factor is required the session is made invalid, and there are no tokens.
unfoldable pub finish_pending :
    Prisma → Identity → List Mfa → Option TenantPolicy → Session → Flow LoginOutput
finish_pending q i mfas policy x = do
  update_session q x.id (λ y. record y { valid = false })
  start (audit "SESSION_CREATED" (some i.id))
  pure (record {
    identity_id = i.id;
    session_id = x.id;
    requires_mfa = true;
    mfa_enrollment_required = requires_by_policy policy && is_empty mfas && not i.has_passkey;
    mfa_types = map (λ m. m.type) mfas;
    tokens = none;
  })

unfoldable pub finish_issued : Prisma → World → Ctx → Identity → Session → Flow LoginOutput
finish_issued q w ctx i x = do
  tokens ← issue_direct q w (login_params ctx i x)
  start (audit "USER_LOGIN_SUCCESS" (some i.id))
  start (new_device_login i.primary_email)
  pure (record {
    identity_id = i.id;
    session_id = x.id;
    requires_mfa = false;
    mfa_enrollment_required = false;
    mfa_types = [];
    tokens = tokens;
  })

unfoldable pub finish :
    Prisma → World → Ctx → Identity → List Mfa → Option TenantPolicy → Session → Flow LoginOutput
finish q w ctx i mfas policy x s =
    if needs_mfa mfas policy
    then finish_pending q i mfas policy x s
    else finish_issued q w ctx i x s

-- Steps 4 to 7, after the password.
unfoldable pub login_session :
    Prisma → World → LoginInput → Ctx → Identity → LocalAccount → Flow LoginOutput
login_session q w input ctx i a = do
  start (Effect.clear_attempts input.email)
  mfas ← reads (active_mfas q i.id)
  policy ← reads (policy_for q ctx.tenant_id)
  x ← create q w (session_input i a policy)
  finish q w ctx i mfas policy x

abbrev pub failing : Option ℕ → State → State
failing i s = record s { effects = audit "USER_LOGIN_FAILED" i ∷ s.effects }

-- Step 3. The failure is recorded in Redis, outside any transaction.
unfoldable pub login_password :
    Prisma → World → LoginInput → Ctx → Identity → LocalAccount → Flow LoginOutput
login_password q w input ctx i a s =
    let store = record_failure w.redis w.now input.email s.store in
    if w.argon2_verify a.password_hash input.password
    then login_session q w input ctx i a s
    else err invalid_credentials (failing (some i.id) (record s { store = store }))

unfoldable pub login_account :
    Prisma → World → LoginInput → Ctx → Identity → LocalAccount → Flow LoginOutput
login_account q w input ctx i a s = elim i.status [
  | UserStatus.banned ↦ err (forbidden_error "Account banned") s
  | UserStatus.suspended ↦ err (forbidden_error "Account suspended") s
  | UserStatus.deleted ↦ err (unauthorized_error "Invalid email") s
  | _ ↦ login_password q w input ctx i a s
]

unfoldable pub login_found :
    Prisma → World → LoginInput → Ctx → Option (Identity × LocalAccount) → Flow LoginOutput
unfolding login_account
login_found q w input ctx none s = err invalid_credentials (failing none s)
login_found q w input ctx (some (i, a)) s = login_account q w input ctx i a s

unfoldable pub login : Prisma → World → LoginInput → Ctx → Flow LoginOutput
login q w input ctx s =
    if (check_lockout w.redis w.now input.email s.store).locked
    then err invalid_credentials (failing none s)
    else login_found q w input ctx (find_for_auth q input.email s.db) s
