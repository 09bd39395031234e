-- ===== src/Recovery.antt =====
-- src/modules/auth/services/mfa.service.ts: the recovery codes and the enrolment of a second factor;
-- and src/modules/auth/flows/mfa-setup.flow.ts. Of the functions on texts, `sha256` and the capitals of
-- letters outside ASCII are parameters.
pub mod Text
pub mod Laws
use arc_id.Base.{
  ℕ, zero, suc, ◌+◌, ◌≡◌, Bool, true, false, ◌&&◌, not, Option, none, some, List, [], ◌∷◌, ◌++◌,
  ◌==◌, map, if◌then◌else◌,
}
use arc_id.Db.{MfaType, RecoveryCode, Mfa, Db}
use arc_id.Db.Prisma.{Prisma, take}
use arc_id.Flow.Errors.{prisma, unauthorized_error, bad_request_error}
use arc_id.Flow.Monad.{Flow, State, Result, ok, err, audit}
use arc_id.Flow.World.{World, Ctx}
use arc_id.Login.Verify.{is_totp}
use arc_id.Recovery.Text.{trim, to_upper_case}

abbrev pub is_unused : ℕ → RecoveryCode → Bool
is_unused identity_id c = c.identity_id == identity_id && not c.used

abbrev pub used_now : World → RecoveryCode → RecoveryCode
used_now w c = record c { used = true; used_at = some w.now }

pub record Texts : Type 0 where
  pub sha256 : List ℕ → ℕ
  pub upper_other : ℕ → List ℕ

-- `generateToken(16).toUpperCase().slice(0, 32)`.
abbrev pub recovery_code : Texts → World → ℕ → List ℕ
recovery_code x w drawn = take 32 (to_upper_case x.upper_other (w.random_text drawn))

-- The loop of `generateRecoveryCodes`: each code draws itself and its row's identifier.
abbrev pub new_codes : Texts → World → ℕ → ℕ → List (List ℕ)
new_codes x w zero drawn = []
new_codes x w (suc n) drawn = recovery_code x w drawn ∷ new_codes x w n (drawn + 2)

abbrev pub new_rows : Texts → World → ℕ → ℕ → ℕ → List RecoveryCode
new_rows x w identity_id zero drawn = []
new_rows x w identity_id (suc n) drawn =
    record {
      id = w.random (drawn + 1);
      identity_id = identity_id;
      code_hash = x.sha256 (recovery_code x w drawn);
      used = false;
      used_at = none;
    }
    ∷ new_rows x w identity_id n (drawn + 2)

-- `createMany` adds the rows; their generated identifiers are taken to be new.
unfoldable pub generate_recovery_codes :
    Prisma → Texts → World → ℕ → ℕ → State → List (List ℕ) × State
generate_recovery_codes q x w identity_id n s =
    let kept =
      (q.update_many RecoveryCode (is_unused identity_id) (used_now w) s.db.recovery_codes).0 in
    (
      new_codes x w n s.drawn,
      record s {
        db = record s.db { recovery_codes = kept ++ new_rows x w identity_id n s.drawn };
        drawn = s.drawn + n + n;
      },
    )

abbrev pub is_match : ℕ → ℕ → RecoveryCode → Bool
is_match identity_id hash c = c.identity_id == identity_id && c.code_hash == hash && not c.used

unfoldable pub use_code : Prisma → World → Option RecoveryCode → State → Bool × State
use_code q w none s = (false, s)
use_code q w (some c) s = (
  true,
  record s {
    db = record s.db {
      recovery_codes =
          (q.update_many RecoveryCode (λ x. x.id == c.id) (used_now w) s.db.recovery_codes).0;
    };
  },
)

-- `code.trim().toUpperCase()`.
abbrev pub normal : Texts → List ℕ → List ℕ
normal x code = to_upper_case x.upper_other (trim code)

-- `consumeRecoveryCode`.
unfoldable pub consume_recovery_code : Prisma → Texts → World → ℕ → List ℕ → State → Bool × State
unfolding use_code
consume_recovery_code q x w identity_id code s =
    use_code q w
      (q.find_first RecoveryCode (is_match identity_id (x.sha256 (normal x code)))
        s.db.recovery_codes)
      s

-- `setupTotp`: a disabled factor with the generated secret.
unfoldable pub setup_totp : Prisma → World → ℕ → Flow ℕ
setup_totp q w identity_id s =
    let row : Mfa = record {
      id = w.random (s.drawn + 1);
      identity_id = identity_id;
      type = MfaType.totp;
      secret = some (w.random s.drawn);
      enabled = false;
    } in
    elim (q.create Mfa (λ m. m.id == row.id) row s.db.mfas) [
      | none ↦ err (prisma "P2002") s
      | some rows ↦
          ok (w.random s.drawn) (record s { db = record s.db { mfas = rows }; drawn = s.drawn + 2 })
    ]

abbrev pub is_pending : ℕ → Mfa → Bool
is_pending identity_id m = m.identity_id == identity_id && is_totp m.type && not m.enabled

-- `mfa?.secret`, and the row to enable.
unfoldable pub secret_row : Option Mfa → Option (ℕ × ℕ)
secret_row none = none
secret_row (some m) = elim m.secret [ none ↦ none | some secret ↦ some (m.id, secret) ]

unfoldable pub enable_if : Prisma → World → ℕ → Option (ℕ × ℕ) → State → Bool × State
enable_if q w code none s = (false, s)
enable_if q w code (some (id, secret)) s =
    if w.totp_verify secret code
    then (
      true,
      record s {
        db = record s.db {
          mfas =
              (q.update_many Mfa (λ m. m.id == id) (λ m. record m { enabled = true }) s.db.mfas).0;
        };
      },
    )
    else (false, s)

-- `confirmTotp`.
unfoldable pub confirm_totp : Prisma → World → ℕ → ℕ → State → Bool × State
unfolding secret_row enable_if
confirm_totp q w identity_id code s =
    enable_if q w code (secret_row (q.find_first Mfa (is_pending identity_id) s.db.mfas)) s

-- `mfaConfirmFlow` after the check of its caller: ten codes for a factor that was confirmed.
unfoldable pub confirmed_codes : Prisma → Texts → World → ℕ → Bool × State → Result (List (List ℕ))
unfolding generate_recovery_codes
confirmed_codes q x w identity_id (false, s) =
    err (bad_request_error "Invalid TOTP code — confirm failed") s
confirmed_codes q x w identity_id (true, s) =
    let made = generate_recovery_codes q x w identity_id 10 s in
    ok made.0 (record made.1 { effects = audit "MFA_ENABLED" (some identity_id) ∷ made.1.effects })

unfoldable pub mfa_confirm : Prisma → Texts → World → ℕ → Ctx → Flow (List (List ℕ))
unfolding confirm_totp confirmed_codes
mfa_confirm q x w code ctx s = elim ctx.identity_id [
  | none ↦ err (unauthorized_error "Unauthorized") s
  | some identity_id ↦ confirmed_codes q x w identity_id (confirm_totp q w identity_id code s)
]
