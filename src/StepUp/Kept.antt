-- ===== src/StepUp/Kept.antt =====
-- A credential check leaves the sessions alone.
use arc_id.Base.{
  ℕ, ◌≡◌, refl, Bool, true, false, Option, none, some, List, ◌==◌, arith, Bool-cases, inl, inr,
}
use arc_id.Db.{LocalAccount, Passkey, Session}
use arc_id.Db.Prisma.{documented}
use arc_id.Challenge.{Challenges, ChallengeRedis, StoredChallenge}
use arc_id.Flow.Monad.{State, Result, Flow, state_of, ◌>>=◌}
use arc_id.Flow.World.{World}
use arc_id.Passkey.{WebAuthn, count_use, asserted, assert_with, verify_authentication}
use arc_id.StepUp.{
  StepUpMethod, password, totp, passkey, check_password, verify_password, check_totp, verify_totp,
  verified_or, check_challenge, verify_passkey, verify_credential,
}

abbrev pub sessions_after : {A : Type 0} → Result A → List Session
sessions_after r = (state_of r).db.sessions

module _ (w : World) where
  count_use-sessions :
      (id : ℕ) (v : Bool × Option ℕ) (s : State)
      → (count_use documented w id v s).db.sessions ≡ s.db.sessions
  unfolding count_use
  count_use-sessions id (false, info) s = refl
  count_use-sessions id (true, none) s = refl
  count_use-sessions id (true, some counter) s = refl

  asserted-sessions :
      (id : ℕ) (o : Option (Bool × Option ℕ)) (s : State)
      → sessions_after (asserted documented w id o s) ≡ s.db.sessions
  unfolding asserted
  asserted-sessions id none s = refl
  asserted-sessions id (some v) s = count_use-sessions id v s

  assert_with-sessions :
      (wa : WebAuthn) (response challenge : ℕ) (o : Option Passkey) (s : State)
      → sessions_after (assert_with documented w wa response challenge o s) ≡ s.db.sessions
  unfolding assert_with
  assert_with-sessions wa response challenge none s = refl
  assert_with-sessions wa response challenge (some k) s = asserted-sessions k.id _ s

  verified_or-sessions :
      (m : Flow Bool) (s : State)
      → sessions_after (m s) ≡ s.db.sessions
      → sessions_after ((m >>= verified_or) s) ≡ s.db.sessions
  unfolding verified_or
  verified_or-sessions m s h = ground (arith, h)

  check_challenge-sessions :
      (wa : WebAuthn) (response id : ℕ) (o : Option (Option StoredChallenge)) (s : State)
      → sessions_after (check_challenge documented w wa response id o s) ≡ s.db.sessions
  unfolding check_challenge verify_authentication
  check_challenge-sessions wa response id none s = refl
  check_challenge-sessions wa response id (some none) s = refl
  check_challenge-sessions wa response id (some (some c)) s =
      elim (Bool-cases (c.challenge_id == id)) [
        | inl k ↦ rw (k) (
            verified_or-sessions (verify_authentication documented w wa response c.challenge) s
              (assert_with-sessions wa response c.challenge _ s))
        | inr k ↦ rw (k) refl
      ]

  check_totp-sessions :
      (code : ℕ) (o : Option ℕ) (s : State) → sessions_after (check_totp w code o s) ≡ s.db.sessions
  unfolding check_totp
  check_totp-sessions code none s = refl
  check_totp-sessions code (some secret) s = ground arith

  check_password-sessions :
      (given : ℕ) (o : Option LocalAccount) (s : State)
      → sessions_after (check_password w given o s) ≡ s.db.sessions
  unfolding check_password
  check_password-sessions given none s = refl
  check_password-sessions given (some a) s = ground arith

  -- No credential check touches a session.
  pub verify_credential-sessions :
      (r : Option ChallengeRedis) (wa : WebAuthn) (identity_id : ℕ) (method : StepUpMethod)
      (cs : Challenges) (s : State)
      → sessions_after (verify_credential documented w r wa identity_id method cs s).0
        ≡ s.db.sessions
  unfolding verify_credential verify_password verify_totp verify_passkey
  verify_credential-sessions r wa n (password none) cs s = refl
  verify_credential-sessions r wa n (password (some given)) cs s = check_password-sessions given _ s
  verify_credential-sessions r wa n (totp none) cs s = refl
  verify_credential-sessions r wa n (totp (some code)) cs s = check_totp-sessions code _ s
  verify_credential-sessions r wa n (passkey none id) cs s = refl
  verify_credential-sessions r wa n (passkey (some response) none) cs s = refl
  verify_credential-sessions r wa n (passkey (some response) (some id)) cs s =
      check_challenge-sessions wa response id _ s
