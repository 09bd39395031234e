-- ===== src/Revocation/Laws.antt =====
-- What a revocation leaves and starts, and when the guard refuses what was revoked.
use arc_id.Base.{
  ℕ, ◌+◌, ◌*◌, ◌≤◌, ◌<◌, ◌≡◌, refl, true, false, ◌&&◌, not, Option, none, some, List, [], ◌∷◌, ◌++◌,
  ◌==◌, find, count, modify, max, arith, Option-cases, Bool-cases, inl, inr, subst, ◌⊎◌,
}
use arc_id.Db.{AccessToken}
use arc_id.Db.Prisma.{Prisma, IsDocumented, documented, by_documentation}
use arc_id.Blocklist.{block}
use arc_id.Blocklist.Blocked.{IsUsable, block-Blocks}
use arc_id.Flow.Monad.{State, ok, state_of, Effect, audit, block_jti, record_jti}
use arc_id.Flow.World.{World, Ctx}
use arc_id.Refresh.KillChain.{remaining_ttl_sec, record_revoked_jti, revoke_access}
use arc_id.Guard.{Payload, Jwt, Server, require_user}
use arc_id.Guard.Refused.{
  admits, Bears, require_user-listed, require_user-blocked, record_revoked_jti-listed,
}
use arc_id.Revocation.{
  owned, block_token, revoke_access_row, revoke_found, token_revoke, revoke_own, revoke_token_by_id,
}

-- The two calls that a revocation starts and does not wait for.
abbrev pub calls_of : World → AccessToken → Option ℕ → List Effect
calls_of w t none = []
calls_of w t (some jti) =
    record_jti jti t.expires_at ∷ block_jti jti (remaining_ttl_sec w.now t.expires_at) ∷ []

-- The token's row is revoked, and the calls for its identifier, if it has one, are started.
pub record IsRevoked (w : World) (t : AccessToken) (s u : State) : Type 0 where
  pub row : count (λ a. a.id == t.id && not a.revoked) u.db.access_tokens ≡ 0
  pub started :
      u.effects ≡ audit "TOKEN_REVOKED" (some t.identity_id) ∷ (calls_of w t t.jti ++ s.effects)

-- What the guard reads once a started call is carried out.
abbrev pub land : Prisma → World → Effect → Server → Server
land q w (record_jti jti t) sv = record sv { db = record_revoked_jti q jti t sv.db }
land q w (block_jti jti secs) sv = record sv {
  blocklist = block w.redis w.now jti secs sv.blocklist;
}
land q w _ sv = sv

row-revoked :
    (id : ℕ) (ts : List AccessToken)
    → count
        (λ a. a.id == id && not a.revoked)
        (modify (λ a. a.id == id) (λ a. record a { revoked = true }) ts)
      ≡ 0
row-revoked id [] = refl
row-revoked id (t ∷ ts) = ground (arith, row-revoked id ts)

block_token-started :
    (w : World) (t : AccessToken) (s : State)
    → ((block_token w t s).db ≡ s.db)
      × ((block_token w t s).effects ≡ calls_of w t t.jti ++ s.effects)
unfolding block_token
block_token-started w t s = elim (Option-cases t.jti) [
  | inl k ↦ rw (k) (refl, refl)
  | inr (jti, k) ↦ rw (k) (refl, refl)
]

revoke_access_row-IsRevoked :
    (w : World) (t : AccessToken) (s : State) → IsRevoked w t s (revoke_access_row documented w t s)
unfolding revoke_access_row
revoke_access_row-IsRevoked w t s =
    let (same, started) =
      block_token-started w t
        (record s { db = revoke_access documented (λ a. a.id == t.id) s.db }) in
    record { row = rw (same) (row-revoked t.id s.db.access_tokens); started = rw (started) refl }

value-IsRevoked :
    (w : World) (token : ℕ) (ctx : Ctx) (s : State) (t : AccessToken)
    → find (λ a. a.token == token && owned ctx.identity_id a.identity_id) s.db.access_tokens
      ≡ some t
    → IsRevoked w t s (state_of (token_revoke documented w token ctx s))
unfolding token_revoke revoke_found
value-IsRevoked w token ctx s t f = rw (f) (revoke_access_row-IsRevoked w t s)

-- The blocklist's entry lasts as long as the token.
lasts :
    (now later t : ℕ)
    → now ≤ later
    → later < t
    → later < now + max (remaining_ttl_sec now t) 1 * 1000
lasts now later t x y = ground arith

-- A token revoked by value, where the value belongs to an access token that is the caller's own, or
-- any one for a caller that is not logged in, has a revoked row; and the calls that list its jti, in
-- the table and on the blocklist, are started. Either of them, where it is carried out, on whatever
-- else the guard reads, makes the guard refuse every request that bears a token of that jti: the row
-- in the table at any time, the entry of the blocklist from then until the token's end, where Redis
-- keeps to its documentation or is not there.
pub token_revoke-IsRevoked :
    (q : Prisma)
    → IsDocumented q
    → (w later : World) (token : ℕ) (ctx : Ctx) (s : State) (t : AccessToken) (jwt : Jwt)
      (header : List ℕ) (p : Payload) (jti : ℕ) (sv : Server)
    → find (λ a. a.token == token && owned ctx.identity_id a.identity_id) s.db.access_tokens
      ≡ some t
    → t.jti ≡ some jti
    → p.jti ≡ some jti
    → Bears jwt header p
    → IsUsable w.redis
    → later.redis ≡ w.redis
    → w.now ≤ later.now
    → later.now < t.expires_at
    → IsRevoked w t s (state_of (token_revoke q w token ctx s))
      × (admits (require_user q later jwt header (land q w (record_jti jti t.expires_at) sv))
          ≡ false)
      × (admits (
            require_user q later jwt header
              (land q w (block_jti jti (remaining_ttl_sec w.now t.expires_at)) sv))
          ≡ false)
token_revoke-IsRevoked q d w later token ctx s t jwt header p jti sv f j k bears usable same x y =
    by_documentation
      (λ q.
        IsRevoked w t s (state_of (token_revoke q w token ctx s))
        × (admits (require_user q later jwt header (land q w (record_jti jti t.expires_at) sv))
            ≡ false)
        × (admits (
              require_user q later jwt header
                (land q w (block_jti jti (remaining_ttl_sec w.now t.expires_at)) sv))
            ≡ false))
      d
      (
        value-IsRevoked w token ctx s t f,
        require_user-listed later jwt header p jti _ bears k
            (record_revoked_jti-listed jti t.expires_at sv.db),
        require_user-blocked later jwt header p jti _ bears k (
            rw (same) (
              block-Blocks w.redis usable w.now later.now jti (remaining_ttl_sec w.now t.expires_at)
                sv.blocklist x (lasts w.now later.now t.expires_at x y))),
      )

own-IsRevoked :
    (w : World) (o : Option AccessToken) (s : State) {u : State}
    → revoke_own documented w o s ≡ ok tt u
    → (t : AccessToken) × (o ≡ some t) × ((t.revoked ≡ true) × (u ≡ s) ⊎ IsRevoked w t s u)
unfolding revoke_own
own-IsRevoked w none s e = absurd (ground arith)
own-IsRevoked w (some t) s {u} e = elim (Bool-cases t.revoked) [
  | inl k ↦ (t, refl, inl (k, ground arith))
  | inr k ↦
      let same : revoke_access_row documented w t s ≡ u = ground arith in
      (t, refl, inr (subst (λ v. IsRevoked w t s v) same (revoke_access_row-IsRevoked w t s)))
]

-- A revocation by identifier that succeeds found the access token among the caller's own; the token
-- was revoked before and nothing changes, or its row is now revoked and the calls that list its jti are
-- started.
pub revoke_token_by_id-IsRevoked :
    (q : Prisma)
    → IsDocumented q
    → (w : World) (id : ℕ) (ctx : Ctx) (s : State) {u : State}
    → revoke_token_by_id q w id ctx s ≡ ok tt u
    → (n : ℕ) × (ctx.identity_id ≡ some n)
      × (t : AccessToken) × (find (λ a. a.id == id && a.identity_id == n) s.db.access_tokens
          ≡ some t)
      × ((t.revoked ≡ true) × (u ≡ s) ⊎ IsRevoked w t s u)
unfolding revoke_token_by_id
revoke_token_by_id-IsRevoked q d w id ctx s {u} =
    by_documentation
      (λ q.
        revoke_token_by_id q w id ctx s ≡ ok tt u
        → (n : ℕ) × (ctx.identity_id ≡ some n)
          × (t : AccessToken) × (find (λ a. a.id == id && a.identity_id == n) s.db.access_tokens
              ≡ some t)
          × ((t.revoked ≡ true) × (u ≡ s) ⊎ IsRevoked w t s u))
      d
      λ e. elim (Option-cases ctx.identity_id) [
        | inl k ↦ absurd (ground arith)
        | inr (n, k) ↦
            let (t, f, h) =
              own-IsRevoked w (find (λ a. a.id == id && a.identity_id == n) s.db.access_tokens) s
                {u = u} (ground arith) in
            (n, k, t, f, h)
      ]
