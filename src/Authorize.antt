-- ===== src/Authorize.antt =====
-- src/modules/oauth/flows/authorize.flow.ts, with src/modules/oauth/services/consent.service.ts and
-- src/modules/oauth/repositories/client.repository.ts.
pub mod Laws
pub mod Redeemed
pub mod Consented
use arc_id.Base.{
  ℕ, ◌+◌, ◌-◌, ◌*◌, ◌≡◌, Bool, true, false, ◌&&◌, ◌||◌, not, String, Option, none, some, List, [],
  ◌∷◌, ltb, ◌==◌, opt_eq, all, is_some, if◌then◌else◌,
}
use arc_id.Db.{Client, Session, AuthorizationCode, OAuthConsent, Db}
use arc_id.Db.Prisma.{Prisma}
use arc_id.Flow.Errors.{
  Code, Thrown, api, api_error, prisma, unauthorized_error, invalid_client_error,
  invalid_request_error,
}
use arc_id.Flow.Monad.{Flow, State, Result, ok, err}
use arc_id.Flow.World.{World, Ctx}
use arc_id.Token.Issue.{includes}

pub data Prompt : Type 0 where
  no_prompt login consent select_account : Prompt

pub record AuthorizeInput : Type 0 where
  pub client_id : ℕ
  pub redirect_uri : ℕ
  pub scope : Option (List String)
  pub state : Option ℕ
  pub nonce : Option ℕ
  pub code_challenge : Option ℕ
  pub code_challenge_method : Option String
  pub prompt : Option Prompt
  pub max_age : Option ℕ

pub data AuthorizeOutput : Type 0 where
  consent_required : List String → AuthorizeOutput
  issued : ℕ → Option ℕ → AuthorizeOutput

-- `findByClientId`. A clientId is unique, so the order of the rows chooses nothing.
unfoldable pub find_by_client_id : Prisma → ℕ → Option ℕ → Db → Option Client
find_by_client_id q client_id none db =
    q.find_first Client (λ c. c.client_id == client_id) db.clients
find_by_client_id q client_id (some tenant_id) db =
    q.find_first Client
      (λ c.
        c.client_id == client_id
        && (opt_eq c.tenant_id (some tenant_id) || not (is_some c.tenant_id)))
      db.clients

-- `validateRedirectUri`.
abbrev pub validate_redirect_uri : Prisma → Client → ℕ → Bool
validate_redirect_uri q c uri = ltb 0 (q.count_rows ℕ (λ u. u == uri) c.redirect_uris)

-- `hasConsent`.
abbrev pub is_granted : ℕ → ℕ → OAuthConsent → Bool
is_granted identity_id client_id c =
    c.identity_id == identity_id && c.client_id == client_id && not (is_some c.revoked_at)

unfoldable pub covers : List String → Option OAuthConsent → Bool
covers requested none = false
covers requested (some c) = all (λ s. includes s c.scopes) requested

unfoldable pub has_consent : Prisma → ℕ → ℕ → List String → Db → Bool
unfolding covers
has_consent q identity_id client_id requested db =
    covers requested (q.find_first OAuthConsent (is_granted identity_id client_id) db.consents)

abbrev pub of_pair : ℕ → ℕ → OAuthConsent → Bool
of_pair identity_id client_id c = c.identity_id == identity_id && c.client_id == client_id

abbrev pub granted_now : World → List String → OAuthConsent → OAuthConsent
granted_now w scopes c = record c { scopes = scopes; granted_at = w.now; revoked_at = none }

-- `grant`: the row of the pair is renewed, or there is a new one.
unfoldable pub grant_on :
    Prisma → World → ℕ → ℕ → List String → Option OAuthConsent → Flow (Unit {0})
grant_on q w identity_id client_id scopes (some c) s = ok tt (record s {
  db = record s.db {
    consents =
        (q.update_many OAuthConsent (λ x. x.id == c.id) (granted_now w scopes) s.db.consents).0;
  };
})
grant_on q w identity_id client_id scopes none s =
    let row : OAuthConsent = record {
      id = w.random s.drawn;
      identity_id = identity_id;
      client_id = client_id;
      scopes = scopes;
      granted_at = w.now;
      revoked_at = none;
    } in
    elim (q.create OAuthConsent (λ x. x.id == row.id) row s.db.consents) [
      | none ↦ err (prisma "P2002") s
      | some rows ↦ ok tt (record s { db = record s.db { consents = rows }; drawn = s.drawn + 1 })
    ]

unfoldable pub grant : Prisma → World → ℕ → ℕ → List String → Flow (Unit {0})
unfolding grant_on
grant q w identity_id client_id scopes s =
    grant_on q w identity_id client_id scopes
      (q.find_first OAuthConsent (of_pair identity_id client_id) s.db.consents) s

-- `revoke`.
unfoldable pub revoke : Prisma → World → ℕ → ℕ → Flow (Unit {0})
revoke q w identity_id client_id s = ok tt (record s {
  db = record s.db {
    consents =
        (q.update_many OAuthConsent (of_pair identity_id client_id)
          (λ c. record c { revoked_at = some w.now }) s.db.consents).0;
  };
})

abbrev pub demands_login : Option Prompt → Bool
demands_login (some login) = true
demands_login (some select_account) = true
demands_login _ = false

abbrev pub is_silent : Option Prompt → Bool
is_silent (some no_prompt) = true
is_silent _ = false

abbrev pub forces_consent : Option Prompt → Bool
forces_consent (some consent) = true
forces_consent _ = false

-- `max_age` against the newest live session, in milliseconds.
unfoldable pub too_old : World → Option ℕ → Option Session → Bool
too_old w none x = false
too_old w (some age) (some x) = ltb (age * 1000) (w.now - x.created_at)
too_old w (some age) none = age == 0

abbrev pub newest_live : Prisma → World → ℕ → Db → Option Session
newest_live q w identity_id db =
    q.find_latest Session (λ x. x.created_at)
      (λ x. x.identity_id == identity_id && x.valid && ltb w.now x.expires_at) db.sessions

unfoldable pub needs_reauth : Prisma → World → AuthorizeInput → ℕ → Db → Bool
unfolding too_old
needs_reauth q w input identity_id db =
    demands_login input.prompt || too_old w input.max_age (newest_live q w identity_id db)

-- A bad request whose code is the OpenID Connect error.
abbrev pub oidc_error : Code → Thrown
oidc_error code = api (api_error "User must re-authenticate or consent" 400 code)

abbrev pub new_code : World → AuthorizeInput → ℕ → Client → List String → ℕ → ℕ → AuthorizationCode
new_code w input identity_id c scopes id code = record {
  id = id;
  code = code;
  client_id = c.id;
  identity_id = identity_id;
  redirect_uri = input.redirect_uri;
  scopes = scopes;
  nonce = input.nonce;
  state = input.state;
  code_challenge = input.code_challenge;
  code_challenge_method = input.code_challenge_method;
  expires_at = w.now + 5 * 60000;
  consumed = false;
}

unfoldable pub issue_code :
    Prisma → World → AuthorizeInput → ℕ → Client → List String → Flow AuthorizeOutput
issue_code q w input identity_id c scopes s =
    let row = new_code w input identity_id c scopes (w.random (s.drawn + 1)) (w.random s.drawn) in
    elim (q.create AuthorizationCode (λ x. x.code == row.code || x.id == row.id) row s.db.codes) [
      | none ↦ err (prisma "P2002") (record s { drawn = s.drawn + 2 })
      | some rows ↦
          ok (issued row.code input.state)
            (record s { db = record s.db { codes = rows }; drawn = s.drawn + 2 })
    ]

unfoldable pub authorize_scopes :
    Prisma → World → AuthorizeInput → ℕ → Client → List String → Flow AuthorizeOutput
unfolding has_consent issue_code
authorize_scopes q w input identity_id c scopes s =
    if not (forces_consent input.prompt) && has_consent q identity_id c.id scopes s.db
    then issue_code q w input identity_id c scopes s
    else (if is_silent input.prompt
        then err (oidc_error Code.consent_required) s
        else ok (consent_required scopes) s)

abbrev pub requested : AuthorizeInput → Client → List String
requested input c = elim input.scope [ none ↦ c.scopes | some scopes ↦ scopes ]

-- The checks in the order of the flow.
unfoldable pub authorize_client :
    Prisma → World → AuthorizeInput → ℕ → Client → Flow AuthorizeOutput
unfolding needs_reauth authorize_scopes
authorize_client q w input identity_id c s =
    if validate_redirect_uri q c input.redirect_uri
    then (if c.require_pkce && not (is_some input.code_challenge)
        then err (invalid_request_error "code_challenge is required for this client") s
        else (if needs_reauth q w input identity_id s.db
            then err
                (oidc_error (
                  if is_silent input.prompt
                  then Code.login_required
                  else Code.interaction_required))
                s
            else authorize_scopes q w input identity_id c (requested input c) s))
    else err (invalid_request_error "redirect_uri is not registered for this client") s

unfoldable pub authorize_found :
    Prisma → World → AuthorizeInput → ℕ → Option Client → Flow AuthorizeOutput
unfolding authorize_client
authorize_found q w input identity_id none s = err (invalid_client_error "Invalid client") s
authorize_found q w input identity_id (some c) s = authorize_client q w input identity_id c s

unfoldable pub authorize : Prisma → World → AuthorizeInput → Ctx → Flow AuthorizeOutput
unfolding find_by_client_id authorize_found
authorize q w input ctx s = elim ctx.identity_id [
  | none ↦ err (unauthorized_error "Must be authenticated to authorize") s
  | some identity_id ↦
      authorize_found q w input identity_id (find_by_client_id q input.client_id ctx.tenant_id s.db)
        s
]
