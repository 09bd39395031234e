-- ===== src/Flow/World.antt =====
-- What flows take from outside: configuration, the clock, randomness, password hashing, the token
-- signer, and the request's context (src/core/flows/flow-context.ts). One run of a flow sees one
-- time.
use arc_id.Base.{ℕ, ◌+◌, Bool, String, List, Option}
use arc_id.Db.{Aal, Plan}
use arc_id.LoginAttempt.Commands.{Redis}
use arc_id.Token.Ttl.{Ttl}
use arc_id.Flow.Monad.{Flow, ok}

-- The claims that TokenService signs.
pub record Claims : Type 0 where
  pub sub : ℕ
  pub jti : ℕ
  pub sid : ℕ
  pub scope : List String
  pub aud : List ℕ
  pub plan : Plan
  pub tid : Option ℕ
  pub aal : Option Aal

pub record World : Type 0 where
  pub now : ℕ
  pub random : ℕ → ℕ
  pub argon2_verify : ℕ → ℕ → Bool
  pub totp_verify : ℕ → ℕ → Bool
  pub sha256_base64url : ℕ → ℕ
  pub sha256_hex : List ℕ → ℕ
  pub random_text : ℕ → List ℕ
  pub sign_access : Claims → ℕ
  pub sign_id : ℕ → Option ℕ → Option Aal → ℕ
  pub direct_client_id : Option ℕ
  pub redis : Option Redis
  pub system_tenant_id : ℕ
  pub access_ttl : Ttl
  pub refresh_ttl : Ttl

pub record Ctx : Type 0 where
  pub identity_id : Option ℕ
  pub tenant_id : Option ℕ
  pub session_id : Option ℕ

-- `randomUUID()`, `generateToken(n)` and the identifiers that the database gives to new rows.
abbrev pub draw : World → Flow ℕ
draw w s = ok (w.random s.drawn) (record s { drawn = s.drawn + 1 })
