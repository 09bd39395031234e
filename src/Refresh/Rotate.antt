-- ===== src/Refresh/Rotate.antt =====
-- `tokenRefreshFlow.execute`.
pub mod Laws
use arc_id.Base.{
  ℕ, ◌≡◌, Bool, true, false, ◌&&◌, not, Option, none, some, String, List, [], ◌∷◌, leb, ◌==◌,
  get_or, if◌then◌else◌,
}
use arc_id.Db.{Aal, UserStatus, Client, Identity, Session, AccessToken, RefreshToken, Db}
use arc_id.Db.Prisma.{Prisma}
use arc_id.Flow.Errors.{Thrown, invalid_grant_error, forbidden_error}
use arc_id.Flow.Monad.{
  Flow, ◌>>=◌, ◌>>◌, pure, throw, throw_if, or_throw, reads, writes, start, State, Result, ok, err,
  audit,
}
use arc_id.Flow.World.{World, Ctx}
use arc_id.Token.Issue.{IssueTokensParams, TokenBundle, issue}
use arc_id.Refresh.KillChain.{target_of, trigger_kill_chain}

abbrev pub default_scopes : List String
default_scopes = "openid" ∷ "profile" ∷ "email" ∷ "offline_access" ∷ []

-- Step 1 and step 2a.
unfoldable pub resolve_token : Prisma → ℕ → Flow RefreshToken
resolve_token q raw = do
  found ← reads (λ db. q.find_first RefreshToken (λ t. t.token == raw) db.refresh_tokens)
  elim found [
    | some t ↦ pure t
    | none ↦ do
      start (audit "TOKEN_REVOKED" none)
      throw (invalid_grant_error "Refresh token is invalid")
  ]

-- Steps 2b and 2c.
unfoldable pub check_usable : Prisma → World → ℕ → RefreshToken → Flow (Unit {0})
check_usable q w raw t s =
    if leb t.expires_at w.now && not t.revoked
    then err (invalid_grant_error "Refresh token has expired — please log in again") s
    else (if t.revoked then trigger_kill_chain q w raw (target_of t) s else ok tt s)

-- Step 3.
unfoldable pub check_status : Option Identity → Flow (Unit {0})
check_status none = throw (invalid_grant_error "Identity no longer exists")
check_status (some i) = elim i.status [
  | UserStatus.deleted ↦ throw (invalid_grant_error "Identity no longer exists")
  | UserStatus.suspended ↦ throw (forbidden_error "Account suspended")
  | UserStatus.banned ↦ throw (forbidden_error "Account banned")
  | _ ↦ pure tt
]

-- Step 4: the newest live access token's scopes, or else the client's.
unfoldable pub scopes_for : Option AccessToken → Client → List String
scopes_for none c = c.scopes
scopes_for (some a) c = a.scopes

unfoldable pub scopes_now : Prisma → RefreshToken → Client → Db → List String
scopes_now q t c db =
    scopes_for
      (q.find_latest AccessToken (λ a. a.issued_at)
        (λ a. a.identity_id == t.identity_id && a.client_id == t.client_id && not a.revoked)
        db.access_tokens)
      c

-- Step 5: the compare-and-swap, and the loser's kill chain.
unfoldable pub swap_revoked : Prisma → World → ℕ → RefreshToken → Flow (Unit {0})
swap_revoked q w raw t s =
    let (rows, n) =
      q.update_many RefreshToken (λ r. r.id == t.id && not r.revoked)
        (λ r. record r { revoked = true; rotated_at = some w.now }) s.db.refresh_tokens in
    let s' : State = record s { db = record s.db { refresh_tokens = rows } } in
    if n == 0 then trigger_kill_chain q w raw (target_of t) s' else ok tt s'

unfoldable pub level_of : Option Session → Option Aal
level_of none = none
level_of (some x) = x.auth_level

abbrev pub session_of : Prisma → Option ℕ → Db → Option Session
session_of q none db = none
session_of q (some id) db = q.find_first Session (λ x. x.id == id) db.sessions

abbrev pub child_params : Ctx → RefreshToken → Client → List String → Option Aal → IssueTokensParams
child_params ctx t c scopes level = record {
  identity_id = t.identity_id;
  client_id = c.client_id;
  session_id = get_or t.session_id t.id;
  scopes = scopes;
  audience = c.client_id ∷ [];
  tenant_id = ctx.tenant_id;
  nonce = none;
  family_id = some t.family_id;
  parent_jti = some t.jti;
  auth_level = level;
}

-- Step 6: the session's present level, and the child pair.
unfoldable pub issue_child :
    Prisma → World → Ctx → RefreshToken → Client → List String → Flow TokenBundle
issue_child q w ctx t c scopes s =
    issue q w (child_params ctx t c scopes (level_of (session_of q t.session_id s.db))) s

-- Steps 5 and 6, for a client that exists.
unfoldable pub rotate_for : Prisma → World → Ctx → ℕ → RefreshToken → Client → Flow TokenBundle
rotate_for q w ctx raw t c = do
  scopes ← reads (scopes_now q t c)
  swap_revoked q w raw t
  issue_child q w ctx t c scopes

-- Steps 4 to 6, for a token that passed the checks.
unfoldable pub rotate : Prisma → World → Ctx → ℕ → RefreshToken → Flow TokenBundle
rotate q w ctx raw t = do
  client ← reads (λ db. q.find_first Client (λ c. c.id == t.client_id) db.clients)
  c ← or_throw client (invalid_grant_error "Client associated with this token no longer exists")
  rotate_for q w ctx raw t c

-- Steps 3 to 6.
unfoldable pub rotate_checked : Prisma → World → Ctx → ℕ → RefreshToken → Flow TokenBundle
rotate_checked q w ctx raw t s =
    (do
      check_status (q.find_first Identity (λ i. i.id == t.identity_id) s.db.identities)
      rotate q w ctx raw t)
      s

unfoldable pub token_refresh : Prisma → World → ℕ → Ctx → Flow TokenBundle
token_refresh q w raw ctx = do
  t ← resolve_token q raw
  check_usable q w raw t
  rotate_checked q w ctx raw t
