-- ===== src/Db.antt =====
-- The database: one list of rows for each table of prisma/schema.prisma that the modelled flows
-- read or write, and the client by which they do it. Identifiers, tokens, hashes and e-mail
-- addresses are opaque numbers, and times are milliseconds.
mod Rows
pub mod Prisma
pub use Rows.*
use arc_id.Base.{List, []}

pub record Db : Type 0 where
  pub clients : List Client
  pub identities : List Identity
  pub local_accounts : List LocalAccount
  pub mfas : List Mfa
  pub policies : List TenantPolicy
  pub subscriptions : List Subscription
  pub sessions : List Session
  pub access_tokens : List AccessToken
  pub refresh_tokens : List RefreshToken
  pub id_tokens : List IdToken
  pub revoked_jtis : List RevokedJti
  pub codes : List AuthorizationCode
  pub email_tokens : List EmailToken
  pub consents : List OAuthConsent
  pub passkeys : List Passkey
  pub recovery_codes : List RecoveryCode
  pub api_keys : List ApiKey
  pub roles : List Role
  pub memberships : List Membership

abbrev pub empty_db : Db
empty_db = record {
  clients = [];
  identities = [];
  local_accounts = [];
  mfas = [];
  policies = [];
  subscriptions = [];
  sessions = [];
  access_tokens = [];
  refresh_tokens = [];
  id_tokens = [];
  revoked_jtis = [];
  codes = [];
  email_tokens = [];
  consents = [];
  passkeys = [];
  recovery_codes = [];
  api_keys = [];
  roles = [];
  memberships = [];
}
