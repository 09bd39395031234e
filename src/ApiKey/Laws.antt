-- ===== src/ApiKey/Laws.antt =====
-- A key that was made opens the guard until it is revoked.
use arc_id.Base.{
  ℕ, ◌+◌, ◌≡◌, refl, false, ◌&&◌, ◌||◌, none, some, List, [], ◌∷◌, ◌++◌, ◌==◌, opt_eq, find, any,
  modify, count, arith, Bool-cases, inl, inr, ==_self, ap, sym, subst, count-append,
}
use arc_id.Db.{KeyStatus, ApiKey, Db}
use arc_id.Db.Prisma.{Prisma, IsDocumented, documented, by_documentation}
use arc_id.Blocklist.{Blocklist}
use arc_id.Flow.Monad.{State, ok, audit}
use arc_id.Flow.World.{World, Ctx}
use arc_id.Guard.{
  Caller, Server, admit, Jwt, bearer_prefix, after_prefix, api_key_of, admit_key, by_key,
  require_user, key_plan, touch,
}
use arc_id.Guard.Refused.{admits}
use arc_id.ApiKey.{
  generate, CreateApiKeyInput, is_live, new_key, add_key, with_tenant, create_api_key, revoke_key,
  revoke_api_key,
}

-- The header that carries a key.
abbrev pub bearing : List ℕ → List ℕ
bearing key = bearer_prefix ++ key

generated_key : (w : World) (n : ℕ) → api_key_of (bearing (generate w n)) ≡ some (generate w n)
unfolding api_key_of after_prefix
generated_key w n = refl

-- The caller that the key stands for.
abbrev pub owner : Prisma → CreateApiKeyInput → ℕ → ℕ → Db → Caller
owner q input identity_id tenant_id db = record {
  id = some identity_id;
  tenant_id = some tenant_id;
  scope = input.scopes;
  plan = key_plan q (some tenant_id) db;
  user = none;
}

find-appended :
    (h : ℕ) (id : ℕ) (ks : List ApiKey) (k : ApiKey)
    → any (λ x. x.id == id || x.key_hash == h) ks ≡ false
    → k.key_hash ≡ h
    → find (λ x. x.key_hash == h) (ks ++ k ∷ []) ≡ some k
find-appended h id [] k e same = ground (arith, ==_self h)
find-appended h id (x ∷ xs) k e same = ground (arith, find-appended h id xs k)

record Added (row : ApiKey) (key : List ℕ) (out : ℕ × List ℕ) (s u : State) : Type 0 where
  same : out ≡ (row.id, key)
  unused : any (λ k. k.id == row.id || k.key_hash == row.key_hash) s.db.api_keys ≡ false
  rows : u.db.api_keys ≡ s.db.api_keys ++ row ∷ []

add_key-Added :
    (row : ApiKey) (key : List ℕ) (s : State) {out : ℕ × List ℕ} {u : State}
    → add_key documented row key s ≡ ok out u
    → Added row key out s u
unfolding add_key
add_key-Added row key s e =
    elim (Bool-cases
      (any (λ (k : ApiKey). k.id == row.id || k.key_hash == row.key_hash) s.db.api_keys)) [
        | inl k ↦ absurd (ground arith)
        | inr k ↦ record { same = ground arith; unused = k; rows = ground arith }
      ]

abbrev revoked_key : ApiKey → ApiKey
revoked_key k = record k { status = KeyStatus.revoked }

find-revoked :
    (id tenant_id : ℕ) (ks : List ApiKey) (k : ApiKey)
    → any (λ x. x.id == k.id || x.key_hash == k.key_hash) ks ≡ false
    → k.id ≡ id
    → k.tenant_id ≡ some tenant_id
    → k.status ≡ KeyStatus.live
    → find
        (λ x. x.key_hash == k.key_hash)
        (modify
          (λ x. x.id == id && opt_eq x.tenant_id (some tenant_id) && is_live x.status)
          revoked_key
          (ks ++ k ∷ []))
      ≡ some (revoked_key k)
find-revoked id tenant_id [] k e i t l =
    ground (arith, ==_self k.id, ==_self tenant_id, ==_self k.key_hash)
find-revoked id tenant_id (x ∷ xs) k e i t l = ground (arith, find-revoked id tenant_id xs k)

key_admitted :
    (w : World) (jwt : Jwt) (key : List ℕ) (k : ApiKey) (input : CreateApiKeyInput) (n t : ℕ)
    (sv : Server)
    → api_key_of (bearing key) ≡ some key
    → find (λ x. x.key_hash == w.sha256_hex key) sv.db.api_keys ≡ some k
    → k.status ≡ KeyStatus.live
    → k.identity_id ≡ some n
    → k.tenant_id ≡ some t
    → k.scopes ≡ input.scopes
    → require_user documented w jwt (bearing key) sv
      ≡ admit (owner documented input n t sv.db) (record sv { db = touch documented w k.id sv.db })
unfolding require_user by_key admit_key
key_admitted w jwt key k input n t sv a f l i o c = rw (a, f) (rw (l, i, o, c) refl)

key_refused :
    (w : World) (jwt : Jwt) (key : List ℕ) (k : ApiKey) (sv : Server)
    → api_key_of (bearing key) ≡ some key
    → find (λ x. x.key_hash == w.sha256_hex key) sv.db.api_keys ≡ some k
    → k.status ≡ KeyStatus.revoked
    → admits (require_user documented w jwt (bearing key) sv) ≡ false
unfolding require_user by_key admit_key
key_refused w jwt key k sv a f l = rw (a, f) (rw (l) refl)

revoked_rows :
    (id n t : ℕ) (s : State) {u : State}
    → revoke_key documented id n t s ≡ ok tt u
    → u.db.api_keys
      ≡ modify
          (λ k. k.id == id && opt_eq k.tenant_id (some t) && is_live k.status)
          revoked_key
          s.db.api_keys
unfolding revoke_key
revoked_rows id n t s e = ground arith

revoke_key-ok :
    (id n t : ℕ) (s : State) (ks : List ApiKey) (k : ApiKey)
    → s.db.api_keys ≡ ks ++ k ∷ []
    → k.id ≡ id
    → k.tenant_id ≡ some t
    → k.status ≡ KeyStatus.live
    → (x : State) × (revoke_key documented id n t s ≡ ok tt x)
unfolding revoke_key
revoke_key-ok id n t s ks k rows i te l =
    let live : (count (λ k. k.id == id && opt_eq k.tenant_id (some t) && is_live k.status)
            s.db.api_keys
          == 0)
        ≡ false =
      rw
        (
          rows,
          count-append (λ k. k.id == id && opt_eq k.tenant_id (some t) && is_live k.status) ks
              (k ∷ []),
        )
        (ground (arith, ==_self id, ==_self t)) in
    let x : State = record s {
      db = record s.db {
        api_keys =
            modify (λ k. k.id == id && opt_eq k.tenant_id (some t) && is_live k.status) revoked_key
              s.db.api_keys;
      };
      effects = audit "API_KEY_REVOKED" (some n) ∷ s.effects;
    } in
    (x, rw (live) refl)

created :
    (w later : World) (input : CreateApiKeyInput) (n t : ℕ) (s : State) (jwt : Jwt) (b : Blocklist)
    {id : ℕ} {key : List ℕ} {u : State}
    → later.sha256_hex ≡ w.sha256_hex
    → (let key₀ = generate w s.drawn in
        add_key documented
          (new_key w input t n (w.random (s.drawn + 1)) key₀)
          key₀
          (record s { drawn = s.drawn + 2 }))
      ≡ ok (id, key) u
    → (require_user documented later jwt (bearing key) (record { db = u.db; blocklist = b })
        ≡ admit
            (owner documented input n t u.db)
            (record { db = touch documented later id u.db; blocklist = b }))
      × (x : State) × (revoke_key documented id n t u ≡ ok tt x)
      × (admits
            (require_user documented later jwt (bearing key) (record { db = x.db; blocklist = b }))
          ≡ false)
created w later input n t s jwt b {id} {key} {u} h e =
    let key₀ = generate w s.drawn in
    let k : ApiKey = new_key w input t n (w.random (s.drawn + 1)) key₀ in
    let a = add_key-Added k key₀ (record s { drawn = s.drawn + 2 }) {u = u} e in
    let same_id : id ≡ k.id = ap (λ p. p.0) a.same in
    let same_key : key ≡ key₀ = ap (λ p. p.1) a.same in
    let reads : api_key_of (bearing key) ≡ some key =
      subst (λ x. api_key_of (bearing x) ≡ some x) (sym same_key) (generated_key w s.drawn) in
    let found : find (λ x. x.key_hash == later.sha256_hex key) u.db.api_keys ≡ some k =
      rw (h, same_key, a.rows)
        (find-appended (w.sha256_hex key₀) k.id s.db.api_keys k a.unused refl) in
    let (x, run) = revoke_key-ok id n t u s.db.api_keys k a.rows (sym same_id) refl refl in
    let after : find (λ x. x.key_hash == later.sha256_hex key) x.db.api_keys
        ≡ some (revoked_key k) =
      rw (h, same_key, revoked_rows id n t u run, a.rows)
        (find-revoked id t s.db.api_keys k a.unused (sym same_id) refl refl) in
    (
      subst
          (λ i.
            require_user documented later jwt (bearing key) (record { db = u.db; blocklist = b })
            ≡ admit (owner documented input n t u.db)
                (record { db = touch documented later i u.db; blocklist = b }))
          (sym same_id)
          (key_admitted later jwt key k input n t (record { db = u.db; blocklist = b }) reads found
            refl refl refl refl),
      x,
      run,
      key_refused later jwt key (revoked_key k) (record { db = x.db; blocklist = b }) reads after
          refl,
    )

-- A key that was made for an identity and a tenant is let through the guard, as that identity in that
-- tenant with the key's scopes; its revocation by the tenant succeeds, and then the guard refuses it.
pub create_api_key-require_user :
    (q : Prisma)
    → IsDocumented q
    → (w later : World) (input : CreateApiKeyInput) (ctx : Ctx) (n t : ℕ) (s : State) (jwt : Jwt)
      (b : Blocklist) {id : ℕ} {key : List ℕ} {u : State}
    → later.sha256_hex ≡ w.sha256_hex
    → ctx.identity_id ≡ some n
    → ctx.tenant_id ≡ some t
    → create_api_key q w input ctx s ≡ ok (id, key) u
    → (require_user q later jwt (bearing key) (record { db = u.db; blocklist = b })
        ≡ admit (owner q input n t u.db) (record { db = touch q later id u.db; blocklist = b }))
      × (x : State) × (revoke_api_key q id ctx u ≡ ok tt x)
      × (admits (require_user q later jwt (bearing key) (record { db = x.db; blocklist = b }))
          ≡ false)
unfolding create_api_key with_tenant revoke_api_key
create_api_key-require_user q d w later input ctx n t s jwt b {id} {key} {u} h i o =
    by_documentation
      (λ q.
        create_api_key q w input ctx s ≡ ok (id, key) u
        → (require_user q later jwt (bearing key) (record { db = u.db; blocklist = b })
            ≡ admit (owner q input n t u.db) (record { db = touch q later id u.db; blocklist = b }))
          × (x : State) × (revoke_api_key q id ctx u ≡ ok tt x)
          × (admits (require_user q later jwt (bearing key) (record { db = x.db; blocklist = b }))
              ≡ false))
      d (rw (i, o) (created w later input n t s jwt b {id = id} {key = key} {u = u} h))
