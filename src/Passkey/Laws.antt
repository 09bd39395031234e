-- ===== src/Passkey/Laws.antt =====
-- What a sign-in with a passkey has shown.
use arc_id.Base.{
  ℕ, ◌≡◌, refl, Bool, true, false, Option, none, some, ◌==◌, find, arith, Bool-cases, inl, inr,
  subst,
}
use arc_id.Db.{Passkey}
use arc_id.Db.Prisma.{Prisma, IsDocumented, documented, by_documentation}
use arc_id.Challenge.{
  CeremonyType, ChallengeKey, StoredChallenge, Challenges, ChallengeRedis, RedisValue, MemValue,
  documented as redis_documented, by_documentation as by_redis, unexpired, taken, parsed,
  consume_challenge,
}
use arc_id.Challenge.Pending.{IsUsable, find-discard, key_eq_self}
use arc_id.Flow.Monad.{State, ok, Flow, >>=-eq-ok}
use arc_id.Flow.World.{World, Ctx}
use arc_id.Passkey.{
  WebAuthn, PasskeyInput, PasskeyOutput, asserted, assert_with, passkey_of, verify_authentication,
  login_failed, with_challenge, after_consuming, sign_in_if, authenticate_with, authenticate_owner,
  authenticate_by, passkey_authenticate,
}

abbrev key_of : ℕ → ChallengeKey
key_of identity_id = record { ceremony = CeremonyType.authentication; identity_id = identity_id }

-- What a sign-in that succeeds has found, and that it leaves no challenge to sign in with.
pub record Authenticated (r : Option ChallengeRedis) (w : World) (wa : WebAuthn)
    (input : PasskeyInput) (cs left : Challenges) (s : State) : Type 0 where
  pub credential : ℕ
  pub named : wa.credential_of input.response ≡ some credential
  pub passkey : Passkey
  pub registered : find (λ k. k.credential_id == credential) s.db.passkeys ≡ some passkey
  pub challenge : StoredChallenge
  pub pending :
      (consume_challenge r w.now (key_of passkey.identity_id) cs).0 ≡ some (some challenge)
  pub same_ceremony : challenge.challenge_id ≡ input.challenge_id
  pub new_counter : Option ℕ
  pub verified :
      wa.verify_authentication input.response challenge.challenge passkey.public_key passkey.counter
      ≡ some (true, new_counter)
  pub taken : (now : ℕ) → (consume_challenge r now (key_of passkey.identity_id) left).0 ≡ some none

mem_taken :
    (now t : ℕ) (k : ChallengeKey) (cs : Challenges)
    → (consume_challenge none t k (consume_challenge none now k cs).1).0 ≡ some none
unfolding consume_challenge unexpired
mem_taken now t k cs =
    ground (arith, find-discard (λ (v : MemValue). v.key) k k cs.mem, key_eq_self k)

redis_taken :
    (automatic : Bool) (now t : ℕ) (k : ChallengeKey) (cs : Challenges)
    → (consume_challenge
        (some (redis_documented automatic))
        t
        k
        (consume_challenge (some (redis_documented automatic)) now k cs).1).0
      ≡ some none
unfolding consume_challenge taken parsed
redis_taken true now t k cs =
    ground (arith, find-discard (λ (v : RedisValue). v.key) k k cs.store, key_eq_self k)
redis_taken false now t k cs =
    ground (arith, find-discard (λ (v : RedisValue). v.key) k k cs.store, key_eq_self k)

-- A challenge that was consumed is there no more.
consumed_taken :
    (automatic : Bool) (r : Option ChallengeRedis)
    → IsUsable automatic r
    → (now t : ℕ) (k : ChallengeKey) (cs : Challenges)
    → (consume_challenge r t k (consume_challenge r now k cs).1).0 ≡ some none
consumed_taken automatic none d now t k cs = mem_taken now t k cs
consumed_taken automatic (some r) d now t k cs =
    by_redis
      (λ r. (consume_challenge (some r) t k (consume_challenge (some r) now k cs).1).0 ≡ some none)
      d (redis_taken automatic now t k cs)

with_challenge-ok :
    {A : Type 0} (n id : ℕ) (k : ℕ → Flow A) (o : Option (Option StoredChallenge)) (s : State)
    {a : A} {u : State}
    → with_challenge n id k o s ≡ ok a u
    → (c : StoredChallenge) × (o ≡ some (some c))
      × (c.challenge_id ≡ id)
      × (k c.challenge s ≡ ok a u)
unfolding with_challenge login_failed
with_challenge-ok n id k none s e = absurd (ground arith)
with_challenge-ok n id k (some none) s e = absurd (ground arith)
with_challenge-ok n id k (some (some c)) s {a} {u} e = elim (Bool-cases (c.challenge_id == id)) [
  | inl h ↦ (c, refl, ground arith, ground arith)
  | inr h ↦ absurd (ground arith)
]

asserted-true :
    (w : World) (id : ℕ) (o : Option (Bool × Option ℕ)) (s : State) {u : State}
    → asserted documented w id o s ≡ ok true u
    → (n : Option ℕ) × (o ≡ some (true, n))
unfolding asserted
asserted-true w id none s e = absurd (ground arith)
asserted-true w id (some (true, n)) s e = (n, refl)
asserted-true w id (some (false, n)) s e = absurd (ground arith)

sign_in_if-ok :
    (w : World) (ctx : Ctx) (n : ℕ) (b : Bool) (s : State) {out : PasskeyOutput} {u : State}
    → sign_in_if documented w ctx n b s ≡ ok out u
    → b ≡ true
unfolding sign_in_if login_failed
sign_in_if-ok w ctx n true s e = refl
sign_in_if-ok w ctx n false s e = absurd (ground arith)

authenticate_with-ok :
    (w : World) (wa : WebAuthn) (input : PasskeyInput) (ctx : Ctx) (n challenge credential : ℕ)
    (k : Passkey) (s : State) {out : PasskeyOutput} {u : State}
    → wa.credential_of input.response ≡ some credential
    → find (λ k. k.credential_id == credential) s.db.passkeys ≡ some k
    → authenticate_with documented w wa input ctx n challenge s ≡ ok out u
    → (c : Option ℕ) × (wa.verify_authentication input.response challenge k.public_key k.counter
        ≡ some (true, c))
unfolding authenticate_with verify_authentication assert_with
authenticate_with-ok w wa input ctx n challenge credential k s named found e =
    let (b, t, e₁, k₁) =
      >>=-eq-ok (verify_authentication documented w wa input.response challenge)
        (sign_in_if documented w ctx n) {s = s} e in
    let yes = sign_in_if-ok w ctx n b t k₁ in
    asserted-true w k.id _ s {u = t} (
      subst
        (λ b.
          asserted documented w k.id
            (wa.verify_authentication input.response challenge k.public_key k.counter) s
          ≡ ok b t)
        yes
        (subst (λ o. assert_with documented w wa input.response challenge o s ≡ ok b t) found
          (subst
            (λ o.
              assert_with documented w wa input.response challenge (passkey_of documented o s.db) s
              ≡ ok b t)
            named e₁)))

owner-Authenticated :
    (automatic : Bool) (r : Option ChallengeRedis)
    → IsUsable automatic r
    → (w : World) (wa : WebAuthn) (input : PasskeyInput) (ctx : Ctx) (credential : ℕ)
      (o : Option Passkey) (cs : Challenges) (s : State) {out : PasskeyOutput} {u : State}
    → wa.credential_of input.response ≡ some credential
    → find (λ k. k.credential_id == credential) s.db.passkeys ≡ o
    → (authenticate_owner documented w r wa input ctx o cs s).0 ≡ ok out u
    → Authenticated r w wa input cs (authenticate_owner documented w r wa input ctx o cs s).1 s
unfolding authenticate_owner after_consuming login_failed
owner-Authenticated automatic r d w wa input ctx credential none cs s named found e =
    absurd (ground arith)
owner-Authenticated automatic r d w wa input ctx credential (some k) cs s named found e =
    let (c, pending, same, run) =
      with_challenge-ok k.identity_id input.challenge_id
        (authenticate_with documented w wa input ctx k.identity_id) _ s e in
    let (n, verified) =
      authenticate_with-ok w wa input ctx k.identity_id c.challenge credential k s named found
        run in
    record {
      credential = credential;
      named = named;
      passkey = k;
      registered = found;
      challenge = c;
      pending = pending;
      same_ceremony = same;
      new_counter = n;
      verified = verified;
      taken = λ now. consumed_taken automatic r d w.now now (key_of k.identity_id) cs;
    }

by-Authenticated :
    (automatic : Bool) (r : Option ChallengeRedis)
    → IsUsable automatic r
    → (w : World) (wa : WebAuthn) (input : PasskeyInput) (ctx : Ctx) (o : Option ℕ)
      (cs : Challenges) (s : State) {out : PasskeyOutput} {u : State}
    → wa.credential_of input.response ≡ o
    → (authenticate_by documented w r wa input ctx o cs s).0 ≡ ok out u
    → Authenticated r w wa input cs (authenticate_by documented w r wa input ctx o cs s).1 s
unfolding authenticate_by
by-Authenticated automatic r d w wa input ctx none cs s named e = absurd (ground arith)
by-Authenticated automatic r d w wa input ctx (some credential) cs s named e =
    owner-Authenticated automatic r d w wa input ctx credential _ cs s named refl e

-- A sign-in with a passkey that succeeds found the credential registered, and pending for its owner
-- the very challenge that the client names; the library verified the response against that challenge
-- and the registered key and counter; and after it no challenge is pending for the owner, at any
-- time. The store is the memory of the process, or a Redis whose client keeps to its documentation,
-- with or without the deserialisation of its answers.
pub passkey_authenticate-Authenticated :
    (q : Prisma)
    → IsDocumented q
    → (automatic : Bool) (r : Option ChallengeRedis) → IsUsable automatic r
    → (w : World) (wa : WebAuthn) (input : PasskeyInput) (ctx : Ctx) (cs : Challenges) (s : State)
      {out : PasskeyOutput} {u : State}
    → (passkey_authenticate q w r wa input ctx cs s).0 ≡ ok out u
    → Authenticated r w wa input cs (passkey_authenticate q w r wa input ctx cs s).1 s
unfolding passkey_authenticate
passkey_authenticate-Authenticated q d automatic r usable w wa input ctx cs s {out} {u} =
    by_documentation
      (λ q.
        (passkey_authenticate q w r wa input ctx cs s).0 ≡ ok out u
        → Authenticated r w wa input cs (passkey_authenticate q w r wa input ctx cs s).1 s)
      d (by-Authenticated automatic r usable w wa input ctx _ cs s refl)
