-- ===== src/Guard.antt =====
-- src/api/plugins/auth-guard.plugin.ts: `requireUser`, which every check before a route's handler
-- begins with. A header is the list of its character codes; `jwt` is the verification of @fastify/jwt,
-- whose claims carry the words of `scope`.
pub mod Checks
pub mod Refused
pub mod Levels
use arc_id.Base.{
  ℕ, Bool, true, false, ◌||◌, String, Option, none, some, List, [], ◌∷◌, ◌==◌, get_or, is_some,
  if◌then◌else◌,
}
use arc_id.Db.{Plan, free, KeyStatus, Subscription, RevokedJti, ApiKey, Db}
use arc_id.Db.Prisma.{Prisma}
use arc_id.Blocklist.{Blocklist, is_jti_blocked}
use arc_id.Flow.Errors.{Thrown, unauthorized_error}
use arc_id.Flow.World.{World}

pub record Payload : Type 0 where
  pub sub : Option ℕ
  pub jti : Option ℕ
  pub sid : Option ℕ
  pub tid : Option ℕ
  pub plan : Option Plan
  pub scope : List String

-- `req.identity`, and `req.user`, which a request with an API key leaves undefined. An API key
-- without an identity has the empty identifier, `none`.
pub record Caller : Type 0 where
  pub id : Option ℕ
  pub tenant_id : Option ℕ
  pub scope : List String
  pub plan : Plan
  pub user : Option Payload

pub record Server : Type 0 where
  pub db : Db
  pub blocklist : Blocklist

-- How a check ends: it lets the request through, throws, answers 402, or fails on a TypeError.
pub data Verdict : Type 0 where
  admit : Caller → Server → Verdict
  refuse : Thrown → Server → Verdict
  upgrade_required : Plan → Server → Verdict
  type_error : Server → Verdict

abbrev pub bearer_prefix : List ℕ
bearer_prefix = b'B' ∷ b'e' ∷ b'a' ∷ b'r' ∷ b'e' ∷ b'r' ∷ b' ' ∷ []

abbrev pub key_prefix : List ℕ
key_prefix = b'a' ∷ b'r' ∷ b'c' ∷ b'_' ∷ b's' ∷ b'k' ∷ b'_' ∷ []

-- `startsWith(prefix)` and then `slice(prefix.length)`.
unfoldable pub after_prefix : List ℕ → List ℕ → Option (List ℕ)
after_prefix [] cs = some cs
after_prefix (p ∷ ps) [] = none
after_prefix (p ∷ ps) (c ∷ cs) = let rest = after_prefix ps cs in if p == c then rest else none

-- The plan of a tenant's subscription, or the one given where there is none that is active.
abbrev pub active_plan : Prisma → ℕ → Plan → Db → Plan
active_plan q tenant_id otherwise db =
    elim (q.find_first Subscription (λ x. x.tenant_id == tenant_id) db.subscriptions) [
      | none ↦ otherwise
      | some x ↦ if x.is_active then x.plan else otherwise
    ]

unfoldable pub key_plan : Prisma → Option ℕ → Db → Plan
key_plan q none db = free
key_plan q (some tenant_id) db = active_plan q tenant_id free db

-- `repo.updateLastUsed`, not awaited.
abbrev pub touch : Prisma → World → ℕ → Db → Db
touch q w id db = record db {
  api_keys =
      (q.update_many ApiKey (λ k. k.id == id) (λ k. record k { last_used_at = some w.now })
        db.api_keys).0;
}

unfoldable pub admit_key : Prisma → World → ApiKey → Server → Verdict
unfolding key_plan
admit_key q w k sv = elim k.status [
  | KeyStatus.revoked ↦ refuse (unauthorized_error "Invalid or revoked API key") sv
  | KeyStatus.live ↦
      admit
        (record {
          id = k.identity_id;
          tenant_id = k.tenant_id;
          scope = k.scopes;
          plan = key_plan q k.tenant_id sv.db;
          user = none;
        })
        (record sv { db = touch q w k.id sv.db })
]

unfoldable pub by_key : Prisma → World → Option ApiKey → Server → Verdict
unfolding admit_key
by_key q w none sv = refuse (unauthorized_error "Invalid or revoked API key") sv
by_key q w (some k) sv = admit_key q w k sv

-- `payload.plan ?? …`: the claim, else the subscription of a tenant that is not the system's.
unfoldable pub plan_for : Prisma → World → Payload → Db → Plan
plan_for q w p db = elim p.plan [
  | some plan ↦ plan
  | none ↦
      if get_or p.tid w.system_tenant_id == w.system_tenant_id
      then free
      else active_plan q (get_or p.tid w.system_tenant_id) free db
]

unfoldable pub admit_user : Prisma → World → Payload → ℕ → Server → Verdict
unfolding plan_for
admit_user q w p sub sv =
    admit
      (record {
        id = some sub;
        tenant_id = p.tid;
        scope = p.scope;
        plan = plan_for q w p sv.db;
        user = some p;
      })
      sv

abbrev pub revoked_in_db : Prisma → ℕ → Db → Bool
revoked_in_db q jti db = is_some (q.find_first RevokedJti (λ r. r.jti == jti) db.revoked_jtis)

-- The two tiers: Redis or memory first, then the table.
unfoldable pub check_jti : Prisma → World → Option ℕ → Server → Bool × Server
check_jti q w none sv = (false, sv)
check_jti q w (some jti) sv =
    let (blocked, left) = is_jti_blocked w.redis w.now jti sv.blocklist in
    (blocked || revoked_in_db q jti sv.db, record sv { blocklist = left })

unfoldable pub admit_unless : Prisma → World → Payload → ℕ → Bool × Server → Verdict
unfolding admit_user
admit_unless q w p sub (true, sv) = refuse (unauthorized_error "Token has been revoked") sv
admit_unless q w p sub (false, sv) = admit_user q w p sub sv

unfoldable pub by_sub : Prisma → World → Payload → Option ℕ → Server → Verdict
unfolding check_jti admit_unless
by_sub q w p none sv = refuse (unauthorized_error "Malformed token payload signature") sv
by_sub q w p (some sub) sv = admit_unless q w p sub (check_jti q w p.jti sv)

unfoldable pub by_jwt : Prisma → World → Option Payload → Server → Verdict
unfolding by_sub
by_jwt q w none sv = refuse (unauthorized_error "Invalid or expired access token") sv
by_jwt q w (some p) sv = by_sub q w p p.sub sv

-- The token of the header, if it is an API key.
unfoldable pub api_key_of : List ℕ → Option (List ℕ)
unfolding after_prefix
api_key_of header = elim (after_prefix bearer_prefix header) [
  | none ↦ none
  | some token ↦ if is_some (after_prefix key_prefix token) then some token else none
]

abbrev pub Jwt : Type 0
Jwt = List ℕ → Option Payload

unfoldable pub require_user : Prisma → World → Jwt → List ℕ → Server → Verdict
unfolding api_key_of by_key by_jwt
require_user q w jwt header sv = elim (api_key_of header) [
  | none ↦ by_jwt q w (jwt header) sv
  | some token ↦
      by_key q w (q.find_first ApiKey (λ k. k.key_hash == w.sha256_hex token) sv.db.api_keys) sv
]
