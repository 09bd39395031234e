-- ===== src/Tests/Grants.antt =====
-- Authorizations, consents and API keys.
use arc_id.Base.{ℕ, ◌≡◌, refl, true, false, none, some, List, [], ◌∷◌, arith}
use arc_id.Blocklist.{Blocklist}
use arc_id.Db.{OAuthConsent}
use arc_id.Db.Prisma.{documented, documented-IsDocumented}
use arc_id.Flow.Monad.{State, Result, ok, state_of}
use arc_id.Flow.World.{Ctx}
use arc_id.Exchange.{secret_error, newest_session, consume_code, token_exchange}
use arc_id.Guard.{admit, Jwt, require_user, touch}
use arc_id.Guard.Refused.{admits}
use arc_id.Authorize.{
  AuthorizeInput, AuthorizeOutput, issued, find_by_client_id, covers, has_consent, grant_on, grant,
  revoke, too_old, needs_reauth, issue_code, authorize_scopes, authorize_client, authorize_found,
  authorize,
}
use arc_id.Authorize.Laws.{Issued, authorize-Issued}
use arc_id.Authorize.Redeemed.{
  redemption, issued_row, issue_and_audit, UniqueIds, authorize-token_exchange,
}
use arc_id.Authorize.Consented.{grant-has_consent}
use arc_id.ApiKey.{
  CreateApiKeyInput, generate, with_tenant, add_key, create_api_key, revoke_api_key,
}
use arc_id.ApiKey.Laws.{bearing, owner, create_api_key-require_user}
use arc_id.Samples.{world, ctx, state, session, client}

abbrev consent_row : OAuthConsent
consent_row = record {
  id = 96;
  identity_id = 1;
  client_id = 51;
  scopes = "openid" ∷ "email" ∷ [];
  granted_at = 0;
  revoked_at = none;
}

-- The client has the row identifier 51 and is named 50.
abbrev consented : State
consented = record (state false) {
  db = record (state false).db { clients = client 51 ∷ []; consents = consent_row ∷ [] };
}

abbrev asked : AuthorizeInput
asked = record {
  client_id = 50;
  redirect_uri = 8;
  scope = some ("openid" ∷ []);
  state = some 97;
  nonce = none;
  code_challenge = some 61;
  code_challenge_method = none;
  prompt = none;
  max_age = some 10;
}

abbrev caller : Ctx
caller = record { identity_id = some 1; tenant_id = some 1; session_id = none }

abbrev authorized : Result AuthorizeOutput
authorized = authorize documented world asked caller consented

authorized-ok : authorized ≡ ok (issued 9000 (some 97)) (state_of authorized)
unfolding authorize find_by_client_id authorize_found authorize_client needs_reauth too_old
    authorize_scopes has_consent covers issue_code
authorized-ok = refl

authorize-Issued_example : Issued world asked caller consented (state_of authorized) 9000 (some 97)
authorize-Issued_example =
    authorize-Issued documented documented-IsDocumented world asked caller consented authorized-ok

unique : UniqueIds consented.db.clients
unique id = ground arith

found : find_by_client_id documented 50 (some 1) consented.db ≡ some (client 51)
unfolding find_by_client_id
found = refl

no_secret : secret_error world true none none ≡ none
unfolding secret_error
no_secret = refl

-- The challenge 61 is the digest of 60.
live : newest_session documented 1 (state_of authorized).db ≡ some session
unfolding authorize
live = refl

authorize-token_exchange_example :
    (row_id : ℕ) × (token_exchange documented world
        (redemption asked 9000 none (some 60))
        ctx
        (state_of authorized)
      ≡ issue_and_audit documented world ctx
          (issued_row world asked 1 (client 51) row_id 9000)
          (client 51)
          session
          (record (state_of authorized) {
            db = consume_code documented row_id (state_of authorized).db;
          }))
authorize-token_exchange_example =
    authorize-token_exchange documented documented-IsDocumented world world asked caller ctx
      consented (state_of authorized) (state_of authorized) (client 51) 1 session none (some 60)
      unique found no_secret refl refl (omega arith) refl refl refl live authorized-ok

abbrev given : Result (Unit {0})
given = grant documented world 1 51 ("openid" ∷ "email" ∷ []) (state false)

given-ok : given ≡ ok tt (state_of given)
unfolding grant grant_on
given-ok = refl

grant-has_consent_example :
    (has_consent documented 1 51 ("email" ∷ []) (state_of given).db ≡ true)
    × (has_consent documented 1 51
          ("email" ∷ [])
          (state_of (revoke documented world 1 51 (state_of given))).db
        ≡ false)
grant-has_consent_example =
    grant-has_consent documented documented-IsDocumented world 1 51 ("openid" ∷ "email" ∷ [])
      ("email" ∷ []) (state false) given-ok refl

abbrev key_input : CreateApiKeyInput
key_input = record { name = "ci"; scopes = "client:create" ∷ [] }

abbrev made : Result (ℕ × List ℕ)
made = create_api_key documented world key_input caller (state false)

made-ok : made ≡ ok (9001, generate world 0) (state_of made)
unfolding create_api_key with_tenant add_key
made-ok = refl

abbrev empty_list : Blocklist
empty_list = record { store = []; mem = [] }

abbrev no_jwt : Jwt
no_jwt header = none

create_api_key-require_user_example :
    (require_user documented world no_jwt
        (bearing (generate world 0))
        (record { db = (state_of made).db; blocklist = empty_list })
      ≡ admit
          (owner documented key_input 1 1 (state_of made).db)
          (record { db = touch documented world 9001 (state_of made).db; blocklist = empty_list }))
    × (x : State) × (revoke_api_key documented 9001 caller (state_of made) ≡ ok tt x)
    × (admits (
          require_user documented world no_jwt
            (bearing (generate world 0))
            (record { db = x.db; blocklist = empty_list }))
        ≡ false)
create_api_key-require_user_example =
    create_api_key-require_user documented documented-IsDocumented world world key_input caller 1 1
      (state false) no_jwt empty_list refl refl refl made-ok
