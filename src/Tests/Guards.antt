-- ===== src/Tests/Guards.antt =====
-- The guard, revocations, logout, challenges, passkeys and the step-up.
use arc_id.Base.{
  ℕ, ◌+◌, ◌≡◌, refl, true, false, none, some, List, [], ◌∷◌, find, ◌==◌, ◌&&◌, ltb, arith,
}
use arc_id.Db.{aal2, Session, AccessToken, Passkey}
use arc_id.Db.Prisma.{documented, documented-IsDocumented}
use arc_id.Blocklist.{Blocklist, is_jti_blocked, check_or_mem}
use arc_id.Challenge as C
use arc_id.Challenge.{
  CeremonyType, ChallengeKey, StoredChallenge, Challenges, store_challenge, consume_challenge,
  mem_set, entry_of, unexpired,
}
use arc_id.Challenge.Pending.{
  Request, issue, redeem, served_all, promised_all, no_challenges, backend_of, served_all-promised,
}
use arc_id.Flow.Monad.{State, Result, ok, state_of, block_jti, record_jti}
use arc_id.Flow.World.{World, Ctx}
use arc_id.Guard.{
  Payload, Server, Jwt, after_prefix, api_key_of, require_user, by_jwt, by_sub, check_jti,
  admit_unless, admit_user,
}
use arc_id.Guard.Checks.{
  if_live, live_session, recently_elevated, elevated_session, by_sid, with_sid, and_then,
  require_elevated,
}
use arc_id.Guard.Refused.{admits, Bears}
use arc_id.Guard.Levels.{MayElevate, Unlisted, require_elevated-MayElevate}
use arc_id.LoginAttempt.Commands.{documented-IsDocumented as redis-IsDocumented}
use arc_id.Logout.{LogoutInput, access_token_of, expiry_of, logout}
use arc_id.Logout.Laws.{IsLoggedOut, logout-IsLoggedOut}
use arc_id.Passkey.{
  WebAuthn, PasskeyInput, PasskeyOutput, passkey_authenticate, authenticate_by, authenticate_owner,
  after_consuming, with_challenge, authenticate_with, verify_authentication, assert_with, asserted,
  count_use, sign_in_if, sign_in,
}
use arc_id.Passkey.Laws.{Authenticated, passkey_authenticate-Authenticated}
use arc_id.Revocation.{owned, token_revoke}
use arc_id.Revocation.Laws.{IsRevoked, land, token_revoke-IsRevoked}
use arc_id.Session.{create, create_with, enforce_cap}
use arc_id.Token.Issue as T
use arc_id.StepUp.{
  StepUpInput, password, check_password, verify_password, verify_credential, elevate_live, step_up,
  step_up_found, step_up_route,
}
use arc_id.StepUp.Laws.{step_up_route-require_elevated}
use arc_id.StepUp.Owner.{given_to, moved, step_up-moved}
use arc_id.Samples.{world, ctx, state, session, outcome_or}

abbrev claims : Payload
claims = record {
  sub = some 1;
  jti = some 91;
  sid = some 20;
  tid = none;
  plan = none;
  scope = "openid" ∷ [];
}

abbrev jwt : Jwt
jwt header = some claims

-- "Bearer x".
abbrev header : List ℕ
header = b'B' ∷ b'e' ∷ b'a' ∷ b'r' ∷ b'e' ∷ b'r' ∷ b' ' ∷ b'x' ∷ []

abbrev empty_list : Blocklist
empty_list = record { store = []; mem = [] }

bears : Bears jwt header claims
unfolding api_key_of after_prefix
bears = record { no_key = refl; verified = refl }

abbrev elevated : Session
elevated = record session { auth_level = some aal2; elevated_at = some 4000 }

abbrev server : Server
server = record {
  db = record (state false).db { sessions = elevated ∷ [] };
  blocklist = empty_list;
}

elevated-admitted : admits (require_elevated documented world jwt header server) ≡ true
unfolding require_elevated require_user api_key_of after_prefix by_jwt by_sub check_jti
    is_jti_blocked check_or_mem admit_unless admit_user and_then with_sid by_sid live_session
    if_live elevated_session recently_elevated
elevated-admitted = refl

require_elevated-MayElevate_example : MayElevate world jwt header server
require_elevated-MayElevate_example =
    (require_elevated-MayElevate documented documented-IsDocumented world jwt header server).0
      elevated-admitted

abbrev access_token : AccessToken
access_token = record {
  id = 92;
  token = 90;
  jti = some 91;
  client_id = 50;
  identity_id = 1;
  session_id = some 20;
  scopes = [];
  issued_at = 1000;
  expires_at = 900000;
  revoked = false;
}

abbrev with_access : State
with_access = record (state false) {
  db = record (state false).db { access_tokens = access_token ∷ [] };
}

abbrev logged_in : Ctx
logged_in = record ctx { identity_id = some 1 }

-- Alice's token is found; another identity's would not be.
token_found :
    find
      (λ a. a.token == 90 && owned logged_in.identity_id a.identity_id)
      with_access.db.access_tokens
    ≡ some access_token
unfolding owned
token_found = refl

token_revoke-IsRevoked_example :
    IsRevoked world access_token with_access
      (state_of (token_revoke documented world 90 logged_in with_access))
    × (admits (
          require_user documented world jwt header
            (land documented world (record_jti 91 900000) server))
        ≡ false)
    × (admits (
          require_user documented world jwt header
            (land documented world (block_jti 91 895) server))
        ≡ false)
token_revoke-IsRevoked_example =
    token_revoke-IsRevoked documented documented-IsDocumented world world 90 logged_in with_access
      access_token jwt header claims 91 server token_found refl refl bears redis-IsDocumented refl
      (omega arith) (omega arith)

abbrev logout_input : LogoutInput
logout_input = record { session_id = 20; access_jti = some 91; access_token_exp = some 900 }

session_found :
    find
      (λ y. y.id == logout_input.session_id && owned logged_in.identity_id y.identity_id)
      with_access.db.sessions
    ≡ some session
unfolding owned
session_found = refl

access_found : access_token_of logout_input ≡ some (91, 900000)
unfolding access_token_of expiry_of
access_found = refl

logout-IsLoggedOut_example :
    IsLoggedOut logout_input
      (state_of (logout documented world logout_input logged_in with_access)).db
    × (admits (
          require_user documented world jwt header (record {
            db = (state_of (logout documented world logout_input logged_in with_access)).db;
            blocklist = empty_list;
          }))
        ≡ false)
    × (admits (
          require_elevated documented world jwt header (record {
            db = (state_of (logout documented world logout_input logged_in with_access)).db;
            blocklist = empty_list;
          }))
        ≡ false)
logout-IsLoggedOut_example =
    logout-IsLoggedOut documented documented-IsDocumented world world logout_input logged_in
      with_access session 91 900000 jwt header header claims claims empty_list session_found
      access_found refl bears refl bears

abbrev key : ChallengeKey
key = record { ceremony = CeremonyType.authentication; identity_id = 1 }

abbrev challenge : StoredChallenge
challenge = record { challenge_id = 81; challenge = 80 }

-- With the client as the store makes it no redemption is answered with the challenge.
abbrev requests : List Request
requests =
    issue 0 key challenge
    ∷ redeem 10 key
    ∷ redeem 20 key
    ∷ issue 30 key challenge
    ∷ redeem 100000 key
    ∷ []

served_all-promised_example :
    served_all (some (C.documented true)) requests no_challenges
    ≡ promised_all (backend_of true (some (C.documented true))) requests (λ k. none)
served_all-promised_example =
    served_all-promised true (some (C.documented true)) (C.documented-IsDocumented true) requests

abbrev passkey_row : Passkey
passkey_row = record {
  id = 85;
  identity_id = 1;
  credential_id = 86;
  public_key = 87;
  counter = 3;
  last_used_at = 0;
}

abbrev webauthn : WebAuthn
webauthn = record {
  credential_of = λ response. some 86;
  verify_authentication = λ response challenge key counter. some (true, some (counter + 1));
  verify_registration = λ response challenge. none;
}

abbrev pending : Challenges
pending = record {
  store = [];
  mem = record { key = key; entry = record { stored = challenge; expires_at = 90000 } } ∷ [];
}

abbrev with_passkey : State
with_passkey = record (state false) { db = record (state false).db { passkeys = passkey_row ∷ [] } }

abbrev passkey_input : PasskeyInput
passkey_input = record { response = 88; challenge_id = 81 }

abbrev no_passkey : PasskeyOutput
no_passkey = record {
  session_id = 0;
  identity_id = 0;
  tokens = record {
    access_token = 0;
    refresh_token = 0;
    id_token = none;
    expires_in = 0;
    auth_level = none;
  };
}

abbrev signed_in : Result PasskeyOutput × Challenges
signed_in =
    passkey_authenticate documented world none webauthn passkey_input ctx pending with_passkey

signed_in-ok : signed_in.0 ≡ ok (outcome_or no_passkey signed_in.0) (state_of signed_in.0)
unfolding passkey_authenticate authenticate_by authenticate_owner after_consuming with_challenge
    consume_challenge unexpired authenticate_with verify_authentication assert_with asserted
    count_use sign_in_if sign_in create create_with enforce_cap T.issue T.prepare
    T.identity_for_id_token T.commit
signed_in-ok = refl

passkey_authenticate-Authenticated_example :
    Authenticated none world webauthn passkey_input pending signed_in.1 with_passkey
passkey_authenticate-Authenticated_example =
    passkey_authenticate-Authenticated documented documented-IsDocumented true none tt world
      webauthn passkey_input ctx pending with_passkey signed_in-ok

abbrev step_up_input : StepUpInput
step_up_input = record { session_id = 20; identity_id = 1; method = password (some 77) }

abbrev stepped : Result ℕ × Challenges
stepped = step_up_route documented world 7 none webauthn step_up_input pending (state false)

stepped-ok : stepped.0 ≡ ok 905007 (state_of stepped.0)
unfolding step_up_route step_up_found step_up verify_credential verify_password check_password
    elevate_live
stepped-ok = refl

abbrev later_server : Server
later_server = record { db = (state_of stepped.0).db; blocklist = empty_list }

abbrev later : World
later = record world { now = 600000 }

claims-Unlisted : Unlisted later (some 91) later_server
unfolding step_up_route step_up_found step_up verify_credential verify_password check_password
    elevate_live is_jti_blocked check_or_mem
claims-Unlisted = (refl, refl)

step_up_route-require_elevated_example :
    admits (require_elevated documented later jwt header later_server) ≡ ltb (600000 + 7) 905007
step_up_route-require_elevated_example =
    step_up_route-require_elevated documented documented-IsDocumented world later 7 none webauthn
      step_up_input pending (state false) session jwt header claims 1 later_server (omega arith)
      refl stepped-ok refl (omega arith) bears refl refl claims-Unlisted

step_up-moved_example :
    step_up documented world none webauthn step_up_input pending (given_to 7 with_passkey) ≡ (
      moved 7 (step_up documented world none webauthn step_up_input pending with_passkey).0,
      (step_up documented world none webauthn step_up_input pending with_passkey).1,
    )
step_up-moved_example =
    step_up-moved documented documented-IsDocumented 7 world none webauthn step_up_input pending
      with_passkey
