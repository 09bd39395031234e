-- ===== src/Exchange.antt =====
-- src/modules/oauth/flows/token-exchange.flow.ts and src/modules/oauth/services/pkce.service.ts: the
-- authorization_code grant.
pub mod Laws
pub mod Once
use text.Mathlib.Text.{◌==◌ as str_eq}
use arc_id.Base.{
  ℕ, ◌≡◌, Bool, true, false, ◌&&◌, not, String, Option, none, some, List, [], ◌∷◌, ltb, ◌==◌,
  opt_eq, any, is_some, get_or, if◌then◌else◌,
}
use arc_id.Db.{Aal, aal1, Client, Session, AuthorizationCode, Db}
use arc_id.Db.Prisma.{Prisma}
use arc_id.Flow.Errors.{
  Thrown, prisma, invalid_grant_error, invalid_client_error, invalid_request_error,
}
use arc_id.Flow.Monad.{
  Flow, ◌>>=◌, ◌>>◌, pure, reads, writes, start, throw_if, or_throw, State, Result, ok, err, audit,
}
use arc_id.Flow.World.{World, Ctx}
use arc_id.Refresh.Rotate.{level_of}
use arc_id.Token.Issue.{IssueTokensParams, TokenBundle, issue}

-- `verifyPkce`. A value and a digest are compared as opaque numbers.
unfoldable pub verify_pkce : World → ℕ → ℕ → String → Bool
verify_pkce w verifier challenge method =
    if str_eq method "S256" then w.sha256_base64url verifier == challenge else verifier == challenge

pub record ExchangeInput : Type 0 where
  pub code : ℕ
  pub redirect_uri : Option ℕ
  pub client_id : ℕ
  pub client_secret : Option ℕ
  pub code_verifier : Option ℕ
  pub state : Option ℕ

-- The lookup's `where`.
abbrev pub is_usable : World → ℕ → AuthorizationCode → Bool
is_usable w code c = c.code == code && not c.consumed && ltb w.now c.expires_at

-- `!input.redirect_uri || redirectUris.some(…)`.
unfoldable pub redirect_allowed : Option ℕ → List ℕ → Bool
redirect_allowed none uris = true
redirect_allowed (some uri) uris = any (λ u. u == uri) uris

-- The secret of a confidential client that has one.
unfoldable pub secret_error : World → Bool → Option ℕ → Option ℕ → Option Thrown
secret_error w true stored given = none
secret_error w false none given = none
secret_error w false (some hash) none = some (invalid_client_error "client_secret required")
secret_error w false (some hash) (some secret) =
    if w.argon2_verify hash secret
    then none
    else some (invalid_client_error "Invalid client_secret")

-- The proof key: required by the client, and checked where a challenge was recorded.
unfoldable pub pkce_error : World → Bool → Option ℕ → Option String → Option ℕ → Option Thrown
unfolding verify_pkce
pkce_error w required none method verifier =
    if required
    then some
        (invalid_grant_error "PKCE is required for this client but no code_challenge was recorded")
    else none
pkce_error w required (some challenge) method none =
    some (invalid_request_error "code_verifier required")
pkce_error w required (some challenge) method (some verifier) =
    if verify_pkce w verifier challenge (get_or method "S256")
    then none
    else some (invalid_grant_error "PKCE verification failed")

-- A state that was stored must come back.
unfoldable pub state_matches : Option ℕ → Option ℕ → Bool
state_matches none given = true
state_matches (some stored) given = opt_eq given (some stored)

unfoldable pub throw_some : Option Thrown → Flow (Unit {0})
throw_some none s = ok tt s
throw_some (some e) s = err e s

-- Every check before the code is consumed.
unfoldable pub check_request : World → ExchangeInput → AuthorizationCode → Client → Flow (Unit {0})
unfolding throw_some redirect_allowed secret_error pkce_error state_matches
check_request w input a c = do
  throw_if (not (c.client_id == input.client_id)) (invalid_client_error "client_id mismatch")
  throw_if (not (redirect_allowed input.redirect_uri c.redirect_uris))
      (invalid_request_error "redirect_uri does not match registered URIs")
  throw_some (secret_error w c.is_public c.client_secret input.client_secret)
  throw_some
      (pkce_error w c.require_pkce a.code_challenge a.code_challenge_method input.code_verifier)
  throw_if (not (state_matches a.state input.state)) (
      invalid_request_error
        "state mismatch — the value sent at token exchange must match the value sent at authorization")

abbrev pub consume_code : Prisma → ℕ → Db → Db
consume_code q id db = record db {
  codes =
      (q.update_many AuthorizationCode (λ c. c.id == id) (λ c. record c { consumed = true })
        db.codes).0;
}

-- The newest valid session of the identity.
abbrev pub newest_session : Prisma → ℕ → Db → Option Session
newest_session q identity_id db =
    q.find_latest Session (λ x. x.created_at) (λ x. x.identity_id == identity_id && x.valid)
      db.sessions

abbrev pub exchange_params : Ctx → AuthorizationCode → Client → Session → IssueTokensParams
exchange_params ctx a c x = record {
  identity_id = a.identity_id;
  client_id = a.client_id;
  session_id = x.id;
  scopes = a.scopes;
  audience = c.client_id ∷ [];
  tenant_id = ctx.tenant_id;
  nonce = a.nonce;
  family_id = none;
  parent_jti = none;
  auth_level = some (get_or (level_of (some x)) aal1);
}

unfoldable pub issue_for_code : Prisma → World → Ctx → AuthorizationCode → Client → Flow TokenBundle
issue_for_code q w ctx a c = do
  writes (consume_code q a.id)
  session ← reads (newest_session q a.identity_id)
  x ←
      or_throw session
        (invalid_grant_error "No active session found for this identity — please log in again")
  b ← issue q w (exchange_params ctx a c x)
  start (audit "SESSION_CREATED" (some a.identity_id))
  pure b

-- The code's row, and with it its client's, which a foreign key holds in place.
unfoldable pub find_code : Prisma → World → ℕ → Flow AuthorizationCode
find_code q w code = do
  found ← reads (λ db. q.find_first AuthorizationCode (is_usable w code) db.codes)
  or_throw found (invalid_grant_error "Authorization code is invalid or expired")

unfoldable pub client_of : Prisma → AuthorizationCode → Flow Client
client_of q a = do
  found ← reads (λ db. q.find_first Client (λ c. c.id == a.client_id) db.clients)
  or_throw found (prisma "P2025")

unfoldable pub exchange_with :
    Prisma → World → ExchangeInput → Ctx → AuthorizationCode → Client → Flow TokenBundle
exchange_with q w input ctx a c = do check_request w input a c; issue_for_code q w ctx a c

unfoldable pub exchange_found :
    Prisma → World → ExchangeInput → Ctx → AuthorizationCode → Flow TokenBundle
exchange_found q w input ctx a = do c ← client_of q a; exchange_with q w input ctx a c

unfoldable pub token_exchange : Prisma → World → ExchangeInput → Ctx → Flow TokenBundle
token_exchange q w input ctx = do a ← find_code q w input.code; exchange_found q w input ctx a
