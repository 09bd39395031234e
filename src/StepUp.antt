-- ===== src/StepUp.antt =====
-- src/modules/auth/services/step-up.service.ts and src/modules/auth/routes/step-up.route.ts: a
-- session is elevated by a credential of its owner.
pub mod Kept
pub mod Laws
pub mod Owner
use arc_id.Base.{
  ℕ, ◌+◌, ◌≡◌, Bool, true, false, ◌&&◌, not, Option, none, some, List, [], ◌∷◌, ltb, ◌==◌,
  if◌then◌else◌,
}
use arc_id.Db.{aal2, LocalAccount, Mfa, Session, Db}
use arc_id.Db.Prisma.{Prisma}
use arc_id.Challenge.{
  CeremonyType, ChallengeKey, StoredChallenge, Challenges, ChallengeRedis, consume_challenge,
}
use arc_id.Flow.Errors.{Thrown, bad_request_error, unauthorized_error, forbidden_error}
use arc_id.Flow.Monad.{Flow, ◌>>=◌, ◌>>◌, pure, start, State, Result, ok, err, audit}
use arc_id.Flow.World.{World}
use arc_id.Login.Verify.{totp_secret}
use arc_id.Passkey.{WebAuthn, Ceremony, client_error, verify_authentication}

-- What the methods hand over; a field may be missing.
pub data StepUpMethod : Type 0 where
  password : Option ℕ → StepUpMethod
  totp : Option ℕ → StepUpMethod
  passkey : Option ℕ → Option ℕ → StepUpMethod

pub record StepUpInput : Type 0 where
  pub session_id : ℕ
  pub identity_id : ℕ
  pub method : StepUpMethod

unfoldable pub check_password : World → ℕ → Option LocalAccount → Flow (Unit {0})
check_password w given none s =
    err (bad_request_error "No local account found — use a different step-up method") s
check_password w given (some a) s =
    if w.argon2_verify a.password_hash given
    then ok tt s
    else err (unauthorized_error "Incorrect password") s

-- `#verifyPassword`.
unfoldable pub verify_password : Prisma → World → ℕ → Option ℕ → Flow (Unit {0})
unfolding check_password
verify_password q w identity_id none s =
    err (bad_request_error "password is required for step-up method 'password'") s
verify_password q w identity_id (some given) s =
    check_password w given
      (q.find_first LocalAccount (λ a. a.identity_id == identity_id) s.db.local_accounts) s

unfoldable pub check_totp : World → ℕ → Option ℕ → Flow (Unit {0})
check_totp w code none s = err (bad_request_error "No active TOTP MFA configuration found") s
check_totp w code (some secret) s =
    if w.totp_verify secret code then ok tt s else err (unauthorized_error "Invalid TOTP code") s

-- `#verifyTotp`.
unfoldable pub verify_totp : Prisma → World → ℕ → Option ℕ → Flow (Unit {0})
unfolding check_totp
verify_totp q w identity_id none s =
    err (bad_request_error "totpCode is required for step-up method 'totp'") s
verify_totp q w identity_id (some code) s = check_totp w code (totp_secret q identity_id s.db) s

unfoldable pub verified_or : Bool → Flow (Unit {0})
verified_or true s = ok tt s
verified_or false s = err (unauthorized_error "Passkey step-up verification failed") s

-- The stored challenge must be there and the one that the client names.
unfoldable pub check_challenge :
    Prisma → World → WebAuthn → ℕ → ℕ → Option (Option StoredChallenge) → Flow (Unit {0})
unfolding verified_or
check_challenge q w wa response challenge_id none s = err client_error s
check_challenge q w wa response challenge_id (some none) s =
    err (bad_request_error "Step-up passkey challenge not found or expired") s
check_challenge q w wa response challenge_id (some (some c)) s =
    if c.challenge_id == challenge_id
    then (verify_authentication q w wa response c.challenge >>= verified_or) s
    else err (bad_request_error "passkeyChallengeId mismatch") s

abbrev missing_passkey : Thrown
missing_passkey =
    bad_request_error
      "passkeyResponse and passkeyChallengeId are required for step-up method 'passkey'"

-- `#verifyPasskey`.
unfoldable pub verify_passkey :
    Prisma
    → World
    → Option ChallengeRedis
    → WebAuthn
    → ℕ
    → Option ℕ
    → Option ℕ
    → Ceremony (Unit {0})
unfolding check_challenge
verify_passkey q w r wa identity_id none challenge_id cs s = (err missing_passkey s, cs)
verify_passkey q w r wa identity_id (some response) none cs s = (err missing_passkey s, cs)
verify_passkey q w r wa identity_id (some response) (some challenge_id) cs s =
    let taken =
      consume_challenge r w.now
        (record { ceremony = CeremonyType.authentication; identity_id = identity_id }) cs in
    (check_challenge q w wa response challenge_id taken.0 s, taken.1)

-- Step 1.
unfoldable pub verify_credential :
    Prisma → World → Option ChallengeRedis → WebAuthn → ℕ → StepUpMethod → Ceremony (Unit {0})
unfolding verify_password verify_totp verify_passkey
verify_credential q w r wa identity_id (password given) cs s =
    (verify_password q w identity_id given s, cs)
verify_credential q w r wa identity_id (totp code) cs s = (verify_totp q w identity_id code s, cs)
verify_credential q w r wa identity_id (passkey response challenge_id) cs s =
    verify_passkey q w r wa identity_id response challenge_id cs s

abbrev pub may_be_elevated : World → StepUpInput → Session → Bool
may_be_elevated w i x =
    x.id == i.session_id && x.identity_id == i.identity_id && x.valid && ltb w.now x.expires_at

-- Step 2: the conditional update.
unfoldable pub elevate_live : Prisma → World → StepUpInput → Flow (Unit {0})
elevate_live q w i s =
    let (rows, n) =
      q.update_many Session (may_be_elevated w i)
        (λ x. record x { auth_level = some aal2; elevated_at = some w.now }) s.db.sessions in
    if n == 0
    then err (forbidden_error "Session expired or was revoked during step-up") s
    else ok tt (record s { db = record s.db { sessions = rows } })

-- `StepUpService.verify`.
unfoldable pub step_up :
    Prisma → World → Option ChallengeRedis → WebAuthn → StepUpInput → Ceremony (Unit {0})
unfolding verify_credential elevate_live
step_up q w r wa i cs s =
    let checked = verify_credential q w r wa i.identity_id i.method cs s in
    (((λ _. checked.0) >>= (λ _. elevate_live q w i)) s, checked.1)

-- The route: the session in the body must be a live one of the caller's. It answers an end of the
-- window that it counts from a second reading of the clock, `delay` milliseconds after the update's.
unfoldable pub step_up_found :
    Prisma
    → World
    → ℕ
    → Option ChallengeRedis
    → WebAuthn
    → StepUpInput
    → Option Session
    → Ceremony ℕ
unfolding step_up
step_up_found q w delay r wa i none cs s =
    (err (forbidden_error "Session not found or does not belong to you") s, cs)
step_up_found q w delay r wa i (some x) cs s =
    let done = step_up q w r wa i cs s in
    (
      ((λ _. done.0) >>= λ _.
            start (audit "SESSION_ELEVATED" (some i.identity_id)) >> pure (w.now + delay + 900000))
          s,
      done.1,
    )

unfoldable pub step_up_route :
    Prisma → World → ℕ → Option ChallengeRedis → WebAuthn → StepUpInput → Ceremony ℕ
unfolding step_up_found
step_up_route q w delay r wa i cs s =
    step_up_found q w delay r wa i (q.find_first Session (may_be_elevated w i) s.db.sessions) cs s
