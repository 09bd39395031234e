-- ===== src/StepUp/Owner.antt =====
-- Whose passkey a step-up accepts.
use arc_id.Base.{
  ℕ, ◌≡◌, refl, Bool, true, false, Option, none, some, List, [], ◌∷◌, map, ◌==◌, find, modify,
  arith, Bool-cases, inl, inr, ap, ◌∙◌,
}
use arc_id.Db.{Passkey, LocalAccount}
use arc_id.Db.Prisma.{Prisma, IsDocumented, documented, by_documentation}
use arc_id.Challenge.{CeremonyType, consume_challenge, Challenges, ChallengeRedis, StoredChallenge}
use arc_id.Flow.Monad.{State, Result, ok, err, Flow, ◌>>=◌}
use arc_id.Flow.World.{World}
use arc_id.Login.Verify.{totp_secret}
use arc_id.Passkey.{WebAuthn, passkey_of, count_use, asserted, assert_with, verify_authentication}
use arc_id.StepUp.{
  StepUpMethod, password, totp, passkey, StepUpInput, check_password, verify_password, check_totp,
  verify_totp, verified_or, check_challenge, verify_passkey, verify_credential, elevate_live,
  step_up,
}

module _ (other : ℕ) where
  abbrev given : Passkey → Passkey
  given k = record k { identity_id = other }

  -- The state in which every passkey belongs to `other`.
  abbrev pub given_to : State → State
  given_to s = record s { db = record s.db { passkeys = map given s.db.passkeys } }

  abbrev pub moved : {A : Type 0} → Result A → Result A
  moved (ok a s) = ok a (given_to s)
  moved (err e s) = err e (given_to s)

  abbrev given_opt : Option Passkey → Option Passkey
  given_opt none = none
  given_opt (some k) = some (given k)

  find-given :
      (credential : ℕ) (ks : List Passkey)
      → find (λ k. k.credential_id == credential) (map given ks)
        ≡ given_opt (find (λ k. k.credential_id == credential) ks)
  find-given credential [] = refl
  find-given credential (k ∷ ks) = ground (arith, find-given credential ks)

  modify-given :
      (id counter now : ℕ) (ks : List Passkey)
      → modify
          (λ k. k.id == id)
          (λ k. record k { counter = counter; last_used_at = now })
          (map given ks)
        ≡ map given
            (modify (λ k. k.id == id) (λ k. record k { counter = counter; last_used_at = now }) ks)
  modify-given id counter now [] = refl
  modify-given id counter now (k ∷ ks) = ground (arith, modify-given id counter now ks)

  module _ (w : World) where
    count_use-given :
        (id : ℕ) (v : Bool × Option ℕ) (s : State)
        → count_use documented w id v (given_to s) ≡ given_to (count_use documented w id v s)
    unfolding count_use
    count_use-given id (false, info) s = refl
    count_use-given id (true, none) s = refl
    count_use-given id (true, some counter) s =
        ap (λ ks. record s { db = record s.db { passkeys = ks } })
          (modify-given id counter w.now s.db.passkeys)

    asserted-given :
        (id : ℕ) (o : Option (Bool × Option ℕ)) (s : State)
        → asserted documented w id o (given_to s) ≡ moved (asserted documented w id o s)
    unfolding asserted
    asserted-given id none s = refl
    asserted-given id (some v) s = ap (ok v.0) (count_use-given id v s)

    assert_with-given :
        (wa : WebAuthn) (response challenge : ℕ) (o : Option Passkey) (s : State)
        → assert_with documented w wa response challenge (given_opt o) (given_to s)
          ≡ moved (assert_with documented w wa response challenge o s)
    unfolding assert_with
    assert_with-given wa response challenge none s = refl
    assert_with-given wa response challenge (some k) s = asserted-given k.id _ s

    passkey_of-given :
        (o : Option ℕ) (s : State)
        → passkey_of documented o (given_to s).db ≡ given_opt (passkey_of documented o s.db)
    passkey_of-given none s = refl
    passkey_of-given (some credential) s = find-given credential s.db.passkeys

    verify_authentication-given :
        (wa : WebAuthn) (response challenge : ℕ) (s : State)
        → verify_authentication documented w wa response challenge (given_to s)
          ≡ moved (verify_authentication documented w wa response challenge s)
    unfolding verify_authentication
    verify_authentication-given wa response challenge s =
        rw (passkey_of-given (wa.credential_of response) s)
          (assert_with-given wa response challenge _ s)

    -- A continuation that commutes with the change keeps the commutation.
    bind-given :
        {A B : Type 0} (r : Result A) (f : A → Flow B)
        → ((a : A) (t : State) → f a (given_to t) ≡ moved (f a t))
        → (elim (moved r) [ ok a t ↦ f a t | err e t ↦ err e t ])
          ≡ moved (elim r [ ok a t ↦ f a t | err e t ↦ err e t ])
    bind-given (ok a t) f h = h a t
    bind-given (err e t) f h = refl

    flow-given :
        {A B : Type 0} (m : Flow A) (f : A → Flow B) (s : State)
        → m (given_to s) ≡ moved (m s)
        → ((a : A) (t : State) → f a (given_to t) ≡ moved (f a t))
        → (m >>= f) (given_to s) ≡ moved ((m >>= f) s)
    flow-given m f s e h =
        ap (λ r. elim r [ ok a t ↦ f a t | err e t ↦ err e t ]) e ∙ bind-given (m s) f h

    verified_or-given :
        (b : Bool) (t : State) → verified_or b (given_to t) ≡ moved (verified_or b t)
    unfolding verified_or
    verified_or-given true t = refl
    verified_or-given false t = refl

    check_challenge-given :
        (wa : WebAuthn) (response id : ℕ) (o : Option (Option StoredChallenge)) (s : State)
        → check_challenge documented w wa response id o (given_to s)
          ≡ moved (check_challenge documented w wa response id o s)
    unfolding check_challenge
    check_challenge-given wa response id none s = refl
    check_challenge-given wa response id (some none) s = refl
    check_challenge-given wa response id (some (some c)) s =
        elim (Bool-cases (c.challenge_id == id)) [
          | inl k ↦ rw (k) (
              flow-given (verify_authentication documented w wa response c.challenge) verified_or s
                (verify_authentication-given wa response c.challenge s) verified_or-given)
          | inr k ↦ rw (k) refl
        ]

    check_totp-given :
        (code : ℕ) (o : Option ℕ) (s : State)
        → check_totp w code o (given_to s) ≡ moved (check_totp w code o s)
    unfolding check_totp
    check_totp-given code none s = refl
    check_totp-given code (some secret) s = ground arith

    check_password-given :
        (text : ℕ) (o : Option LocalAccount) (s : State)
        → check_password w text o (given_to s) ≡ moved (check_password w text o s)
    unfolding check_password
    check_password-given text none s = refl
    check_password-given text (some a) s = ground arith

    verify_credential-given :
        (r : Option ChallengeRedis) (wa : WebAuthn) (identity_id : ℕ) (method : StepUpMethod)
        (cs : Challenges) (s : State)
        → verify_credential documented w r wa identity_id method cs (given_to s) ≡ (
          moved (verify_credential documented w r wa identity_id method cs s).0,
          (verify_credential documented w r wa identity_id method cs s).1,
        )
    unfolding verify_credential verify_password verify_totp verify_passkey totp_secret
    verify_credential-given r wa n (password none) cs s = refl
    verify_credential-given r wa n (password (some text)) cs s =
        ap (λ x. (x, cs)) (check_password-given text _ s)
    verify_credential-given r wa n (totp none) cs s = refl
    verify_credential-given r wa n (totp (some code)) cs s =
        ap (λ x. (x, cs)) (check_totp-given code (totp_secret documented n s.db) s)
    verify_credential-given r wa n (passkey none id) cs s = refl
    verify_credential-given r wa n (passkey (some response) none) cs s = refl
    verify_credential-given r wa n (passkey (some response) (some id)) cs s =
        let taken =
          consume_challenge r w.now
            (record { ceremony = CeremonyType.authentication; identity_id = n }) cs in
        ap (λ x. (x, taken.1)) (check_challenge-given wa response id taken.0 s)

    elevate_live-given :
        (i : StepUpInput) (t : State)
        → elevate_live documented w i (given_to t) ≡ moved (elevate_live documented w i t)
    unfolding elevate_live
    elevate_live-given i t = ground arith

    documented-given :
        (r : Option ChallengeRedis) (wa : WebAuthn) (i : StepUpInput) (cs : Challenges) (s : State)
        → step_up documented w r wa i cs (given_to s)
          ≡ (moved (step_up documented w r wa i cs s).0, (step_up documented w r wa i cs s).1)
    unfolding step_up
    documented-given r wa i cs s = rw (verify_credential-given r wa i.identity_id i.method cs s) (
        ap (λ x. (x, (verify_credential documented w r wa i.identity_id i.method cs s).1))
          (bind-given (verify_credential documented w r wa i.identity_id i.method cs s).0
            (λ _. elevate_live documented w i) λ _. elevate_live-given i))

-- A step-up ends the same, whoever the passkeys belong to: were they all another identity's, it
-- would accept and elevate, or refuse, in exactly the same way.
pub step_up-moved :
    (q : Prisma)
    → IsDocumented q
    → (other : ℕ) (w : World) (r : Option ChallengeRedis) (wa : WebAuthn) (i : StepUpInput)
      (cs : Challenges) (s : State)
    → step_up q w r wa i cs (given_to other s)
      ≡ (moved other (step_up q w r wa i cs s).0, (step_up q w r wa i cs s).1)
step_up-moved q d other w r wa i cs s =
    by_documentation
      (λ q.
        step_up q w r wa i cs (given_to other s)
        ≡ (moved other (step_up q w r wa i cs s).0, (step_up q w r wa i cs s).1))
      d (documented-given other w r wa i cs s)
