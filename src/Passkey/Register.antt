-- ===== src/Passkey/Register.antt =====
-- src/modules/auth/flows/passkey-register.flow.ts, and `verifyRegistration` of passkey.service.ts.
use arc_id.Base.{ℕ, ◌+◌, Bool, true, false, ◌||◌, Option, none, some, ◌==◌, if◌then◌else◌}
use arc_id.Db.{Passkey, TenantPolicy, Db}
use arc_id.Db.Prisma.{Prisma}
use arc_id.Challenge.{CeremonyType, ChallengeRedis}
use arc_id.Flow.Errors.{prisma, unauthorized_error, forbidden_error}
use arc_id.Flow.Monad.{Flow, ◌>>=◌, ◌>>◌, pure, start, ok, err, audit}
use arc_id.Flow.World.{World, Ctx}
use arc_id.Passkey.{Ceremony, Credential, PasskeyInput, WebAuthn, after_consuming, client_error}

abbrev pub new_passkey : World → ℕ → ℕ → Credential → Passkey
new_passkey w id identity_id c = record {
  id = id;
  identity_id = identity_id;
  credential_id = c.id;
  public_key = c.public_key;
  counter = c.counter;
  last_used_at = w.now;
}

-- `passkey.create`, whose credential is unique.
unfoldable pub add_passkey : Prisma → World → ℕ → Credential → Flow Bool
add_passkey q w identity_id c s =
    let row = new_passkey w (w.random s.drawn) identity_id c in
    elim (q.create Passkey (λ k. k.id == row.id || k.credential_id == c.id) row s.db.passkeys) [
      | none ↦ err (prisma "P2002") s
      | some rows ↦ ok true (record s { db = record s.db { passkeys = rows }; drawn = s.drawn + 1 })
    ]

-- `PasskeyService.verifyRegistration`.
unfoldable pub register_verified :
    Prisma → World → ℕ → Option (Bool × Option Credential) → Flow Bool
unfolding add_passkey
register_verified q w identity_id none s = err client_error s
register_verified q w identity_id (some (true, some c)) s = add_passkey q w identity_id c s
register_verified q w identity_id (some (true, none)) s = ok false s
register_verified q w identity_id (some (false, info)) s = ok false s

unfoldable pub register_audited : ℕ → Bool → Flow Bool
register_audited identity_id verified =
    start
      (audit (if verified then "PASSKEY_REGISTERED" else "USER_LOGIN_FAILED") (some identity_id))
    >> pure verified

unfoldable pub register_with : Prisma → World → WebAuthn → PasskeyInput → ℕ → ℕ → Flow Bool
register_with q w wa input identity_id challenge =
    register_verified q w identity_id (wa.verify_registration input.response challenge)
    >>= register_audited identity_id

-- `TenantPolicy.allowPasskeys`.
unfoldable pub passkeys_allowed : Prisma → Option ℕ → Db → Bool
passkeys_allowed q none db = true
passkeys_allowed q (some tenant_id) db =
    elim (q.find_first TenantPolicy (λ p. p.tenant_id == tenant_id) db.policies) [
      | none ↦ true
      | some p ↦ p.allow_passkeys
    ]

unfoldable pub register_for :
    Prisma
    → World
    → Option ChallengeRedis
    → WebAuthn
    → PasskeyInput
    → Ctx
    → Option ℕ
    → Ceremony Bool
unfolding passkeys_allowed after_consuming
register_for q w r wa input ctx none cs s =
    (err (unauthorized_error "Authentication required to register passkeys") s, cs)
register_for q w r wa input ctx (some identity_id) cs s =
    if passkeys_allowed q ctx.tenant_id s.db
    then after_consuming r w CeremonyType.registration identity_id input.challenge_id
        (register_with q w wa input identity_id) cs s
    else (err (forbidden_error "Passkey registration is disabled for this tenant") s, cs)

-- `passkeyRegisterFlow`.
unfoldable pub passkey_register :
    Prisma → World → Option ChallengeRedis → WebAuthn → PasskeyInput → Ctx → Ceremony Bool
unfolding register_for
passkey_register q w r wa input ctx cs s = register_for q w r wa input ctx ctx.identity_id cs s
