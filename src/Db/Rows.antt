-- ===== src/Db/Rows.antt =====
-- The rows of prisma/schema.prisma, with the columns that the modelled flows use.
use arc_id.Base.{ℕ, Bool, String, List, Option}

-- `authLevel`: password only, or a second factor. The column may be null.
pub data Aal : Type 0 where
  aal1 aal2 : Aal

pub data UserStatus : Type 0 where
  active pending suspended banned deleted inactive : UserStatus

pub data Plan : Type 0 where
  free pro enterprise : Plan

pub data KeyStatus : Type 0 where
  live revoked : KeyStatus

pub data TokenType : Type 0 where
  verify_email reset_password magic_link tenant_invite : TokenType

pub data MfaType : Type 0 where
  totp sms email_otp : MfaType

pub record Client : Type 0 where
  pub id : ℕ
  pub client_id : ℕ
  pub tenant_id : Option ℕ
  pub client_secret : Option ℕ
  pub is_public : Bool
  pub require_pkce : Bool
  pub scopes : List String
  pub redirect_uris : List ℕ

pub record Identity : Type 0 where
  pub id : ℕ
  pub status : UserStatus
  pub primary_email : Option ℕ
  pub email_verified : Bool
  pub has_passkey : Bool

pub record LocalAccount : Type 0 where
  pub id : ℕ
  pub identity_id : ℕ
  pub email : ℕ
  pub password_hash : ℕ

pub record Mfa : Type 0 where
  pub id : ℕ
  pub identity_id : ℕ
  pub type : MfaType
  pub secret : Option ℕ
  pub enabled : Bool

pub record PasswordRules : Type 0 where
  pub min_length : Option ℕ
  pub require_uppercase : Bool
  pub require_lowercase : Bool
  pub require_number : Bool
  pub require_symbol : Bool

-- `password_rules` is JSON: null, or a value that the rules' schema reads or rejects (`some none`).
pub record TenantPolicy : Type 0 where
  pub tenant_id : ℕ
  pub require_mfa : Bool
  pub session_ttl_minutes : ℕ
  pub max_sessions_per_user : ℕ
  pub allow_passkeys : Bool
  pub password_rules : Option (Option PasswordRules)

pub record Subscription : Type 0 where
  pub tenant_id : ℕ
  pub plan : Plan
  pub is_active : Bool
  pub started_at : ℕ

pub record Session : Type 0 where
  pub id : ℕ
  pub identity_id : ℕ
  pub local_account_id : Option ℕ
  pub refresh_token_id : Option ℕ
  pub created_at : ℕ
  pub expires_at : ℕ
  pub valid : Bool
  pub auth_level : Option Aal
  pub elevated_at : Option ℕ

pub record AccessToken : Type 0 where
  pub id : ℕ
  pub token : ℕ
  pub jti : Option ℕ
  pub client_id : ℕ
  pub identity_id : ℕ
  pub session_id : Option ℕ
  pub scopes : List String
  pub issued_at : ℕ
  pub expires_at : ℕ
  pub revoked : Bool

pub record RefreshToken : Type 0 where
  pub id : ℕ
  pub token : ℕ
  pub jti : ℕ
  pub family_id : ℕ
  pub parent_jti : Option ℕ
  pub client_id : ℕ
  pub identity_id : ℕ
  pub session_id : Option ℕ
  pub issued_at : ℕ
  pub expires_at : ℕ
  pub rotated_at : Option ℕ
  pub revoked : Bool

pub record IdToken : Type 0 where
  pub jti : ℕ
  pub client_id : ℕ
  pub identity_id : ℕ
  pub issued_at : ℕ
  pub expires_at : ℕ

pub record RevokedJti : Type 0 where
  pub jti : ℕ
  pub expires_at : ℕ

pub record AuthorizationCode : Type 0 where
  pub id : ℕ
  pub code : ℕ
  pub client_id : ℕ
  pub identity_id : ℕ
  pub redirect_uri : ℕ
  pub scopes : List String
  pub nonce : Option ℕ
  pub state : Option ℕ
  pub code_challenge : Option ℕ
  pub code_challenge_method : Option String
  pub expires_at : ℕ
  pub consumed : Bool

pub record EmailToken : Type 0 where
  pub id : ℕ
  pub identity_id : ℕ
  pub type : TokenType
  pub token : ℕ
  pub tenant_id : Option ℕ
  pub expires_at : ℕ
  pub consumed : Bool

pub record OAuthConsent : Type 0 where
  pub id : ℕ
  pub identity_id : ℕ
  pub client_id : ℕ
  pub scopes : List String
  pub granted_at : ℕ
  pub revoked_at : Option ℕ

pub record RecoveryCode : Type 0 where
  pub id : ℕ
  pub identity_id : ℕ
  pub code_hash : ℕ
  pub used : Bool
  pub used_at : Option ℕ

pub record ApiKey : Type 0 where
  pub id : ℕ
  pub tenant_id : Option ℕ
  pub identity_id : Option ℕ
  pub name : String
  pub key_hash : ℕ
  pub scopes : List String
  pub status : KeyStatus
  pub last_used_at : Option ℕ
  pub created_at : ℕ

-- A role with the actions of its permissions.
pub record Role : Type 0 where
  pub id : ℕ
  pub tenant_id : ℕ
  pub name : String
  pub actions : List String

pub record Membership : Type 0 where
  pub id : ℕ
  pub identity_id : ℕ
  pub tenant_id : ℕ
  pub role_id : ℕ
  pub status : UserStatus

pub record Passkey : Type 0 where
  pub id : ℕ
  pub identity_id : ℕ
  pub credential_id : ℕ
  pub public_key : ℕ
  pub counter : ℕ
  pub last_used_at : ℕ
