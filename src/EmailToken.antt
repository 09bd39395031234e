-- ===== src/EmailToken.antt =====
-- src/modules/auth/services/email-token.service.ts.
pub mod Calls
pub mod Single
use arc_id.Base.{
  ℕ, ◌+◌, ◌*◌, ◌≤◌, ◌≡◌, refl, Bool, true, false, ◌&&◌, ◌||◌, not, Option, none, some, List, [],
  ◌∷◌, ◌++◌, ltb, ◌==◌, opt_eq, find, modify, count, any, if◌then◌else◌, arith, Bool-cases, inl,
  inr, ==_self, count-append, find_sound, ◌∙◌,
}
use arc_id.Db.{TokenType, EmailToken, Db}
use arc_id.Db.Prisma.{Prisma, IsDocumented, documented, by_documentation}
use arc_id.Flow.Errors.{Thrown, prisma, bad_request_error}
use arc_id.Flow.Monad.{Flow, State, Result, ok, err}
use arc_id.Flow.World.{World}

abbrev pub type_eq : TokenType → TokenType → Bool
type_eq TokenType.verify_email TokenType.verify_email = true
type_eq TokenType.reset_password TokenType.reset_password = true
type_eq TokenType.magic_link TokenType.magic_link = true
type_eq TokenType.tenant_invite TokenType.tenant_invite = true
type_eq _ _ = false

-- `...(tenantId ? { tenantId } : {})` of the `where`.
abbrev pub same_tenant : Option ℕ → EmailToken → Bool
same_tenant none t = true
same_tenant (some tenant) t = opt_eq t.tenant_id (some tenant)

-- The unused tokens that a new one replaces.
abbrev pub is_outstanding : ℕ → TokenType → Option ℕ → EmailToken → Bool
is_outstanding identity_id type tenant t =
    t.identity_id == identity_id && type_eq t.type type && not t.consumed && same_tenant tenant t

abbrev pub consumed : EmailToken → EmailToken
consumed t = record t { consumed = true }

-- The new row, by the identifier and the value that were drawn.
abbrev pub new_token : World → ℕ → TokenType → ℕ → Option ℕ → ℕ → ℕ → EmailToken
new_token w identity_id type ttl_hours tenant id token = record {
  id = id;
  identity_id = identity_id;
  type = type;
  token = token;
  tenant_id = tenant;
  expires_at = w.now + ttl_hours * 3600000;
  consumed = false;
}

unfoldable pub add_token : Prisma → EmailToken → State → Result ℕ
add_token q row s =
    elim (q.create EmailToken (λ t. t.token == row.token || t.id == row.id) row s.db.email_tokens) [
      | none ↦ err (prisma "P2002") s
      | some rows ↦ ok row.token (record s { db = record s.db { email_tokens = rows } })
    ]

-- `EmailTokenService.issue`.
unfoldable pub issue_token : Prisma → World → ℕ → TokenType → ℕ → Option ℕ → Flow ℕ
unfolding add_token
issue_token q w identity_id type ttl_hours tenant s =
    let token = w.random s.drawn in
    let id = w.random (s.drawn + 1) in
    let rows =
      (q.update_many EmailToken (is_outstanding identity_id type tenant) consumed
        s.db.email_tokens).0 in
    add_token q (new_token w identity_id type ttl_hours tenant id token)
      (record s { db = record s.db { email_tokens = rows }; drawn = s.drawn + 2 })

abbrev pub is_redeemable : World → ℕ → TokenType → EmailToken → Bool
is_redeemable w token type t =
    t.token == token && type_eq t.type type && not t.consumed && ltb w.now t.expires_at

-- `EmailTokenService.consume`.
unfoldable pub consume : Prisma → World → ℕ → TokenType → Flow EmailToken
consume q w token type s =
    elim (q.find_first EmailToken (is_redeemable w token type) s.db.email_tokens) [
      | none ↦ err (bad_request_error "Token is invalid or has expired") s
      | some t ↦ ok t (record s {
        db = record s.db {
          email_tokens =
              (q.update_many EmailToken (λ x. x.id == t.id) consumed s.db.email_tokens).0;
        };
      })
    ]
