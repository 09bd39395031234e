-- ===== src/Token/Issue.antt =====
-- `TokenService.issue`: signs the tokens, writes their rows, and binds the refresh token to the
-- session.
pub mod Keeps
pub mod Lineage
use text.Mathlib.Text.{◌==◌ as str_eq}
use arc_id.Base.{
  ℕ, ◌+◌, ◌*◌, ◌≡◌, Bool, true, false, ◌||◌, String, Option, none, some, List, [], ◌∷◌, ◌==◌,
  opt_eq, any, get_or, if◌then◌else◌,
}
use arc_id.Db.{
  Aal, Plan, free, Client, Identity, Subscription, Session, AccessToken, RefreshToken, IdToken, Db,
}
use arc_id.Db.Prisma.{Prisma}
use arc_id.Token.Ttl.{parse_ttl_to_minutes, parse_ttl_to_days}
use arc_id.Flow.Errors.{Thrown, prisma, not_found_error}
use arc_id.Flow.Monad.{
  Flow, ◌>>=◌, ◌>>◌, pure, throw, reads, or_throw, written, writes, State, Result, ok, err,
}
use arc_id.Flow.World.{World, Ctx, Claims, draw}

pub record IssueTokensParams : Type 0 where
  pub identity_id : ℕ
  pub client_id : ℕ
  pub session_id : ℕ
  pub scopes : List String
  pub audience : List ℕ
  pub tenant_id : Option ℕ
  pub nonce : Option ℕ
  pub family_id : Option ℕ
  pub parent_jti : Option ℕ
  pub auth_level : Option Aal

pub record TokenBundle : Type 0 where
  pub access_token : ℕ
  pub refresh_token : ℕ
  pub id_token : Option ℕ
  pub expires_in : ℕ
  pub auth_level : Option Aal

abbrev pub includes : String → List String → Bool
includes s scopes = any (λ t. str_eq t s) scopes

-- `scopes.includes("openid") ? db.identity.findUniqueOrThrow(…) : null`.
unfoldable pub identity_found : Bool → Option Identity → Flow (Option Identity)
identity_found false i s = ok none s
identity_found true none s = err (prisma "P2025") s
identity_found true (some i) s = ok (some i) s

unfoldable pub identity_for_id_token : Prisma → IssueTokensParams → Flow (Option Identity)
unfolding identity_found
identity_for_id_token q p s =
    identity_found (includes "openid" p.scopes)
      (q.find_first Identity (λ i. i.id == p.identity_id) s.db.identities) s

abbrev pub plan_of : Option Subscription → Plan
plan_of none = free
plan_of (some sub) = if sub.is_active then sub.plan else free

-- `incomingFamilyId ?? randomUUID()`.
abbrev pub family_or_new : World → Option ℕ → Flow ℕ
family_or_new w none = draw w
family_or_new w (some family) = pure family

abbrev pub create_access_token : Prisma → AccessToken → Db → Option Db
create_access_token q row db =
    elim (q.create AccessToken (λ t. t.token == row.token || opt_eq t.jti row.jti) row
      db.access_tokens) [ none ↦ none | some rows ↦ some (record db { access_tokens = rows }) ]

abbrev pub create_refresh_token : Prisma → RefreshToken → Db → Option Db
create_refresh_token q row db =
    elim (q.create RefreshToken (λ t. t.token == row.token || t.jti == row.jti) row
      db.refresh_tokens) [ none ↦ none | some rows ↦ some (record db { refresh_tokens = rows }) ]

abbrev pub create_id_token : Prisma → IdToken → Db → Option Db
create_id_token q row db = elim (q.create IdToken (λ t. t.jti == row.jti) row db.id_tokens) [
  | none ↦ none
  | some rows ↦ some (record db { id_tokens = rows })
]

-- `session.updateMany({ where: { id }, data: { refreshTokenId } })`.
abbrev pub bind_to_session : Prisma → ℕ → ℕ → Db → Db
bind_to_session q session_id refresh_id db = record db {
  sessions =
      (q.update_many Session (λ s. s.id == session_id)
        (λ s. record s { refresh_token_id = some refresh_id }) db.sessions).0;
}

-- The rows that one issue writes.
pub record Drafts : Type 0 where
  pub access : AccessToken
  pub refresh : RefreshToken
  pub id : Option IdToken
  pub id_jwt : Option ℕ

unfoldable pub id_draft : World → IssueTokensParams → ℕ → ℕ → Option Identity → Option IdToken
id_draft w p client_row jti none = none
id_draft w p client_row jti (some i) = some (record {
  jti = jti;
  client_id = client_row;
  identity_id = p.identity_id;
  issued_at = w.now;
  expires_at = w.now + 3600000;
})

unfoldable pub id_signed : World → IssueTokensParams → Option Identity → Option ℕ
id_signed w p none = none
id_signed w p (some i) = some (w.sign_id p.identity_id p.nonce p.auth_level)

-- Lookups, random values and signatures, before anything is written.
unfoldable pub prepare : Prisma → World → IssueTokensParams → Flow Drafts
unfolding id_draft id_signed
prepare q w p = do
  found ← reads (λ db. q.find_first Client (λ c. c.client_id == p.client_id) db.clients)
  let tenant = get_or p.tenant_id w.system_tenant_id
  sub ← reads (λ db.
      q.find_latest Subscription (λ x. x.started_at) (λ x. x.tenant_id == tenant) db.subscriptions)
  identity ← identity_for_id_token q p
  client ← or_throw found (not_found_error "OAuth Client not found.")
  access_jti ← draw w
  id_jti ← draw w
  refresh_jti ← draw w
  family ← family_or_new w p.family_id
  value ← draw w
  access_row ← draw w
  refresh_row ← draw w
  pure (record {
    access = record {
      id = access_row;
      token = w.sign_access (record {
        sub = p.identity_id;
        jti = access_jti;
        sid = p.session_id;
        scope = p.scopes;
        aud = p.audience;
        plan = plan_of sub;
        tid = p.tenant_id;
        aal = p.auth_level;
      });
      jti = some access_jti;
      client_id = client.id;
      identity_id = p.identity_id;
      session_id = some p.session_id;
      scopes = p.scopes;
      issued_at = w.now;
      expires_at = w.now + parse_ttl_to_minutes w.access_ttl * 60000;
      revoked = false;
    };
    refresh = record {
      id = refresh_row;
      token = value;
      jti = refresh_jti;
      family_id = family;
      parent_jti = p.parent_jti;
      client_id = client.id;
      identity_id = p.identity_id;
      session_id = some p.session_id;
      issued_at = w.now;
      expires_at = w.now + parse_ttl_to_days w.refresh_ttl * 86400000;
      rotated_at = none;
      revoked = false;
    };
    id = id_draft w p client.id id_jti identity;
    id_jwt = id_signed w p identity;
  })

unfoldable pub write_id : Prisma → Option IdToken → Flow (Unit {0})
write_id q none s = ok tt s
write_id q (some row) s = written (create_id_token q row s.db) s

-- The ledger writes.
unfoldable pub commit : Prisma → IssueTokensParams → Drafts → Flow (Unit {0})
unfolding write_id
commit q p d = do
  (λ s. written (create_access_token q d.access s.db) s)
  (λ s. written (create_refresh_token q d.refresh s.db) s)
  writes (bind_to_session q p.session_id d.refresh.id)
  write_id q d.id

unfoldable pub issue : Prisma → World → IssueTokensParams → Flow TokenBundle
issue q w p = do
  d ← prepare q w p
  commit q p d
  pure (record {
    access_token = d.access.token;
    refresh_token = d.refresh.token;
    id_token = d.id_jwt;
    expires_in = parse_ttl_to_minutes w.access_ttl * 60;
    auth_level = p.auth_level;
  })
