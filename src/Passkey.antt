-- ===== src/Passkey.antt =====
-- src/modules/auth/services/passkey.service.ts and passkey-authenticate.flow.ts.
-- @simplewebauthn/server is a parameter; a response is an opaque number.
pub mod Register
pub mod Laws
use arc_id.Base.{
  ℕ, Bool, true, false, not, Option, none, some, [], ◌∷◌, ◌==◌, get_or, if◌then◌else◌,
}
use arc_id.Db.{aal2, Passkey, Session, Db}
use arc_id.Db.Prisma.{Prisma}
use arc_id.Challenge.{CeremonyType, StoredChallenge, Challenges, ChallengeRedis, consume_challenge}
use arc_id.Flow.Errors.{Thrown, prisma, bad_request_error, unauthorized_error}
use arc_id.Flow.Monad.{Flow, ◌>>=◌, ◌>>◌, pure, start, State, Result, ok, err, audit}
use arc_id.Flow.World.{World, Ctx}
use arc_id.Refresh.Rotate.{default_scopes}
use arc_id.Session.{CreateSessionInput, create}
use arc_id.Token.Issue.{IssueTokensParams, TokenBundle, issue}

pub record Credential : Type 0 where
  pub id : ℕ
  pub public_key : ℕ
  pub counter : ℕ

-- The two verifications, which may throw (`none`): by the response, the expected challenge and the
-- credential's public key and counter. `credential_of` is `response.id`.
pub record WebAuthn : Type 0 where
  pub credential_of : ℕ → Option ℕ
  pub verify_authentication : ℕ → ℕ → ℕ → ℕ → Option (Bool × Option ℕ)
  pub verify_registration : ℕ → ℕ → Option (Bool × Option Credential)

-- An error of a client that no code of the flows catches.
abbrev pub client_error : Thrown
client_error = prisma "UNKNOWN"

-- `passkey.update`, where the assertion is verified and the library says the new counter.
unfoldable pub count_use : Prisma → World → ℕ → Bool × Option ℕ → State → State
count_use q w id (false, info) s = s
count_use q w id (true, none) s = s
count_use q w id (true, some counter) s = record s {
  db = record s.db {
    passkeys =
        (q.update_many Passkey (λ k. k.id == id)
          (λ k. record k { counter = counter; last_used_at = w.now }) s.db.passkeys).0;
  };
}

unfoldable pub asserted : Prisma → World → ℕ → Option (Bool × Option ℕ) → Flow Bool
unfolding count_use
asserted q w id none s = err client_error s
asserted q w id (some v) s = ok v.0 (count_use q w id v s)

unfoldable pub assert_with : Prisma → World → WebAuthn → ℕ → ℕ → Option Passkey → Flow Bool
unfolding asserted
assert_with q w wa response challenge none s = ok false s
assert_with q w wa response challenge (some k) s =
    asserted q w k.id (wa.verify_authentication response challenge k.public_key k.counter) s

abbrev pub passkey_of : Prisma → Option ℕ → Db → Option Passkey
passkey_of q none db = none
passkey_of q (some credential) db =
    q.find_first Passkey (λ k. k.credential_id == credential) db.passkeys

-- `PasskeyService.verifyAuthentication`.
unfoldable pub verify_authentication : Prisma → World → WebAuthn → ℕ → ℕ → Flow Bool
unfolding assert_with
verify_authentication q w wa response challenge s =
    assert_with q w wa response challenge (passkey_of q (wa.credential_of response) s.db) s

-- A flow that also has the challenge store.
abbrev pub Ceremony : Type 0 → Type 0
Ceremony A = Challenges → State → Result A × Challenges

unfoldable pub login_failed : {A : Type 0} → Option ℕ → Thrown → State → Result A
login_failed identity_id e s =
    err e (record s { effects = audit "USER_LOGIN_FAILED" identity_id ∷ s.effects })

-- What both flows do with the challenge that the store gave: it must be there, and it must be the one
-- that the client names.
unfoldable pub with_challenge :
    {A : Type 0} → ℕ → ℕ → (ℕ → Flow A) → Option (Option StoredChallenge) → State → Result A
unfolding login_failed
with_challenge identity_id challenge_id k none s = err client_error s
with_challenge identity_id challenge_id k (some none) s =
    login_failed (some identity_id) (bad_request_error "Passkey challenge not found or expired") s
with_challenge identity_id challenge_id k (some (some c)) s =
    if c.challenge_id == challenge_id
    then k c.challenge s
    else login_failed (some identity_id) (bad_request_error "challengeId mismatch") s

unfoldable pub after_consuming :
    {A : Type 0} → Option ChallengeRedis → World → CeremonyType → ℕ → ℕ → (ℕ → Flow A) → Ceremony A
unfolding with_challenge
after_consuming r w ceremony identity_id challenge_id k cs s =
    let taken =
      consume_challenge r w.now (record { ceremony = ceremony; identity_id = identity_id }) cs in
    (with_challenge identity_id challenge_id k taken.0 s, taken.1)

pub record PasskeyInput : Type 0 where
  pub response : ℕ
  pub challenge_id : ℕ

pub record PasskeyOutput : Type 0 where
  pub session_id : ℕ
  pub identity_id : ℕ
  pub tokens : TokenBundle

-- `config.oauth.directClientId`; the empty text is 0.
abbrev pub direct_client : World → ℕ
direct_client w = get_or w.direct_client_id 0

abbrev pub passkey_session : ℕ → CreateSessionInput
passkey_session identity_id = record {
  identity_id = identity_id;
  local_account_id = none;
  auth_level = some aal2;
  session_ttl_minutes = none;
  max_sessions_per_user = none;
}

abbrev pub passkey_params : World → Ctx → Session → IssueTokensParams
passkey_params w ctx x = record {
  identity_id = x.identity_id;
  client_id = direct_client w;
  session_id = x.id;
  scopes = default_scopes;
  audience = direct_client w ∷ [];
  tenant_id = ctx.tenant_id;
  nonce = none;
  family_id = none;
  parent_jti = none;
  auth_level = some aal2;
}

-- Step 5: a session of the second level, and its tokens.
unfoldable pub sign_in : Prisma → World → Ctx → ℕ → Flow PasskeyOutput
sign_in q w ctx identity_id = do
  x ← create q w (passkey_session identity_id)
  b ← issue q w (passkey_params w ctx x)
  start (audit "PASSKEY_USED" (some identity_id))
  pure (record { session_id = x.id; identity_id = identity_id; tokens = b })

unfoldable pub sign_in_if : Prisma → World → Ctx → ℕ → Bool → Flow PasskeyOutput
unfolding login_failed
sign_in_if q w ctx identity_id true s = sign_in q w ctx identity_id s
sign_in_if q w ctx identity_id false s =
    login_failed (some identity_id) (unauthorized_error "Passkey verification failed") s

unfoldable pub authenticate_with :
    Prisma → World → WebAuthn → PasskeyInput → Ctx → ℕ → ℕ → Flow PasskeyOutput
authenticate_with q w wa input ctx identity_id challenge =
    verify_authentication q w wa input.response challenge >>= sign_in_if q w ctx identity_id

unfoldable pub authenticate_owner :
    Prisma
    → World
    → Option ChallengeRedis
    → WebAuthn
    → PasskeyInput
    → Ctx
    → Option Passkey
    → Ceremony PasskeyOutput
unfolding login_failed after_consuming
authenticate_owner q w r wa input ctx none cs s =
    (login_failed none (unauthorized_error "Passkey verification failed") s, cs)
authenticate_owner q w r wa input ctx (some k) cs s =
    after_consuming r w CeremonyType.authentication k.identity_id input.challenge_id
      (authenticate_with q w wa input ctx k.identity_id) cs s

unfoldable pub authenticate_by :
    Prisma
    → World
    → Option ChallengeRedis
    → WebAuthn
    → PasskeyInput
    → Ctx
    → Option ℕ
    → Ceremony PasskeyOutput
unfolding authenticate_owner
authenticate_by q w r wa input ctx none cs s =
    (err (bad_request_error "response.id (credential ID) is required") s, cs)
authenticate_by q w r wa input ctx (some credential) cs s =
    authenticate_owner q w r wa input ctx (passkey_of q (some credential) s.db) cs s

-- `passkeyAuthenticateFlow`.
unfoldable pub passkey_authenticate :
    Prisma → World → Option ChallengeRedis → WebAuthn → PasskeyInput → Ctx → Ceremony PasskeyOutput
unfolding authenticate_by
passkey_authenticate q w r wa input ctx cs s =
    authenticate_by q w r wa input ctx (wa.credential_of input.response) cs s
