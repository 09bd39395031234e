-- ===== src/ApiKey.antt =====
-- src/modules/api-key: the service, the repository and the three flows. A key is the list of its
-- character codes.
pub mod Laws
use arc_id.Base.{
  ℕ, ◌+◌, ◌≡◌, Bool, true, false, ◌&&◌, ◌||◌, not, String, Option, none, some, List, [], ◌∷◌, ◌++◌,
  ◌==◌, opt_eq, if◌then◌else◌,
}
use arc_id.Db.{KeyStatus, ApiKey, Db}
use arc_id.Db.Prisma.{Prisma}
use arc_id.Flow.Errors.{Thrown, prisma, unauthorized_error, bad_request_error, not_found_error}
use arc_id.Flow.Monad.{Flow, State, Result, ok, err, audit}
use arc_id.Flow.World.{World, Ctx}
use arc_id.Guard.{key_prefix}

-- `generate`: the prefix and 32 random bytes as base64url.
abbrev pub generate : World → ℕ → List ℕ
generate w drawn = key_prefix ++ w.random_text drawn

pub record CreateApiKeyInput : Type 0 where
  pub name : String
  pub scopes : List String

abbrev pub is_live : KeyStatus → Bool
is_live KeyStatus.live = true
is_live KeyStatus.revoked = false

abbrev pub new_key : World → CreateApiKeyInput → ℕ → ℕ → ℕ → List ℕ → ApiKey
new_key w input tenant_id identity_id id key = record {
  id = id;
  tenant_id = some tenant_id;
  identity_id = some identity_id;
  name = input.name;
  key_hash = w.sha256_hex key;
  scopes = input.scopes;
  status = KeyStatus.live;
  last_used_at = none;
  created_at = w.now;
}

-- `createApiKey` of the repository: the hash is unique.
unfoldable pub add_key : Prisma → ApiKey → List ℕ → Flow (ℕ × List ℕ)
add_key q row key s =
    elim (q.create ApiKey (λ k. k.id == row.id || k.key_hash == row.key_hash) row s.db.api_keys) [
      | none ↦ err (prisma "P2002") s
      | some rows ↦
          ok (row.id, key)
            (record s {
              db = record s.db { api_keys = rows };
              effects = audit "API_KEY_CREATED" row.identity_id ∷ s.effects;
            })
    ]

-- The two checks that the flows begin with.
unfoldable pub with_tenant : {A : Type 0} → Option ℕ → Option ℕ → (ℕ → ℕ → Flow A) → Flow A
with_tenant none tenant k s = err (unauthorized_error "Not authenticated") s
with_tenant (some identity_id) none k s = err (bad_request_error "Tenant context required") s
with_tenant (some identity_id) (some tenant_id) k s = k identity_id tenant_id s

-- `createApiKeyFlow`, which answers the row's identifier and the key.
unfoldable pub create_api_key : Prisma → World → CreateApiKeyInput → Ctx → Flow (ℕ × List ℕ)
unfolding with_tenant add_key
create_api_key q w input ctx = with_tenant ctx.identity_id ctx.tenant_id λ identity_id tenant_id s.
    let key = generate w s.drawn in
    add_key q (new_key w input tenant_id identity_id (w.random (s.drawn + 1)) key) key
      (record s { drawn = s.drawn + 2 })

-- `revokeApiKey` of the repository.
unfoldable pub revoke_key : Prisma → ℕ → ℕ → ℕ → Flow (Unit {0})
revoke_key q id identity_id tenant_id s =
    let (rows, n) =
      q.update_many ApiKey
        (λ k. k.id == id && opt_eq k.tenant_id (some tenant_id) && is_live k.status)
        (λ k. record k { status = KeyStatus.revoked }) s.db.api_keys in
    if n == 0
    then err (not_found_error "API key not found or already revoked") s
    else ok tt (record s {
      db = record s.db { api_keys = rows };
      effects = audit "API_KEY_REVOKED" (some identity_id) ∷ s.effects;
    })

-- `revokeApiKeyFlow`.
unfoldable pub revoke_api_key : Prisma → ℕ → Ctx → Flow (Unit {0})
unfolding with_tenant revoke_key
revoke_api_key q id ctx = with_tenant ctx.identity_id ctx.tenant_id (revoke_key q id)

-- `listApiKeysFlow`, but for the order.
unfoldable pub list_api_keys : Prisma → Ctx → Flow (List ApiKey)
list_api_keys q ctx s = elim ctx.identity_id [
  | none ↦ err (unauthorized_error "Not authenticated") s
  | some identity_id ↦
      ok
        (q.find_many ApiKey (λ k. opt_eq k.identity_id (some identity_id) && is_live k.status)
          s.db.api_keys)
        s
]
