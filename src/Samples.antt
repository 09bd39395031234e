-- ===== src/Samples.antt =====
-- A small world and database on which the theorems are applied.
use arc_id.Base.{ℕ, ◌+◌, Bool, true, false, ◌==◌, none, some, [], ◌∷◌, length}
use arc_id.Db.{
  aal1, UserStatus, MfaType, TokenType, Client, Identity, LocalAccount, Mfa, Session, RefreshToken,
  AuthorizationCode, EmailToken, empty_db,
}
use arc_id.Token.Ttl.{minutes}
use arc_id.LoginAttempt.Commands.{documented as redis_documented}
use arc_id.Flow.Monad.{State, Result, ok, err}
use arc_id.Flow.World.{World, Ctx}

-- Passwords and secrets verify where they are equal to the hash; a digest is the value plus one.
abbrev pub world : World
world = record {
  now = 5000;
  random = λ n. 9000 + n;
  argon2_verify = λ hash given. hash == given;
  totp_verify = λ secret code. secret == code;
  sha256_base64url = λ n. n + 1;
  sha256_hex = λ text. length text;
  random_text = λ n. b'a' ∷ n ∷ [];
  sign_access = λ c. c.jti + 100000;
  sign_id = λ sub nonce aal. sub + 200000;
  direct_client_id = some 50;
  redis = some redis_documented;
  system_tenant_id = 1;
  access_ttl = minutes 15;
  refresh_ttl = minutes 1440;
}

abbrev pub ctx : Ctx
ctx = record { identity_id = none; tenant_id = none; session_id = none }

abbrev pub alice : Identity
alice = record {
  id = 1;
  status = UserStatus.active;
  primary_email = some 11;
  email_verified = true;
  has_passkey = false;
}

abbrev pub account : LocalAccount
account = record { id = 2; identity_id = 1; email = 11; password_hash = 77 }

abbrev pub totp : Mfa
totp = record { id = 3; identity_id = 1; type = MfaType.totp; secret = some 33; enabled = true }

-- A client whose row identifier is `id`, named 50.
abbrev pub client : ℕ → Client
client id = record {
  id = id;
  client_id = 50;
  tenant_id = none;
  client_secret = none;
  is_public = true;
  require_pkce = false;
  scopes = "openid" ∷ [];
  redirect_uris = 8 ∷ [];
}

abbrev pub session : Session
session = record {
  id = 20;
  identity_id = 1;
  local_account_id = none;
  refresh_token_id = none;
  created_at = 1000;
  expires_at = 900000;
  valid = true;
  auth_level = some aal1;
  elevated_at = none;
}

abbrev pub refresh_token : Bool → RefreshToken
refresh_token revoked = record {
  id = 30;
  token = 7;
  jti = 31;
  family_id = 32;
  parent_jti = none;
  client_id = 50;
  identity_id = 1;
  session_id = some 20;
  issued_at = 1000;
  expires_at = 900000;
  rotated_at = none;
  revoked = revoked;
}

abbrev pub code : AuthorizationCode
code = record {
  id = 40;
  code = 41;
  client_id = 50;
  identity_id = 1;
  redirect_uri = 8;
  scopes = [];
  nonce = none;
  state = none;
  code_challenge = some 61;
  code_challenge_method = none;
  expires_at = 900000;
  consumed = false;
}

abbrev pub email_token : EmailToken
email_token = record {
  id = 70;
  identity_id = 1;
  type = TokenType.magic_link;
  token = 71;
  tenant_id = none;
  expires_at = 900000;
  consumed = false;
}

abbrev pub state : Bool → State
state revoked = record {
  db = record empty_db {
    clients = client 50 ∷ [];
    identities = alice ∷ [];
    local_accounts = account ∷ [];
    mfas = totp ∷ [];
    sessions = session ∷ [];
    refresh_tokens = refresh_token revoked ∷ [];
    codes = code ∷ [];
    email_tokens = email_token ∷ [];
  };
  effects = [];
  drawn = 0;
  store = [];
}

-- What a run ended with.
abbrev pub outcome_or : {A : Type 0} → A → Result A → A
outcome_or d (ok a s) = a
outcome_or d (err e s) = d
