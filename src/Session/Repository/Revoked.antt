-- ===== src/Session/Repository/Revoked.antt =====
-- What a revocation of all sessions leaves.
use arc_id.Base.{
  ℕ, ◌≡◌, refl, Bool, true, false, ◌&&◌, not, Option, none, some, List, [], ◌∷◌, ◌++◌, ◌==◌, any,
  All, All-imp, select, modify, count, arith, Option-cases, Bool-cases, inl, inr, ==_self, subst,
  sym,
}
use arc_id.Db.{AccessToken, RefreshToken, Session, Db}
use arc_id.Db.Prisma.{Prisma, IsDocumented, documented, by_documentation}
use arc_id.Flow.Monad.{State, ok, block_jti}
use arc_id.Flow.World.{World}
use arc_id.Refresh.KillChain.{remaining_ttl_sec}
use arc_id.Session.Repository.{
  is_valid_of, in_sessions, revoke_rows, record_jtis, block_all, settle_batch, revoke_sessions,
  revoke_all_for_identity,
}

abbrev Same : Db → Db → Type 0
Same a b =
    (a.access_tokens ≡ b.access_tokens)
    × (a.refresh_tokens ≡ b.refresh_tokens)
    × (a.sessions ≡ b.sessions)

record_jtis-Same :
    (ts : List AccessToken) (db : Db) {after : Db}
    → record_jtis documented ts db ≡ some after
    → Same after db
unfolding record_jtis
record_jtis-Same [] db e = (ground arith, ground arith, ground arith)
record_jtis-Same (t ∷ ts) db {after} e = elim (Option-cases t.jti) [
  | inl k ↦ record_jtis-Same ts db {after = after} (ground arith)
  | inr (jti, k) ↦ elim (Bool-cases (any (λ r. r.jti == jti) db.revoked_jtis)) [
    | inl c ↦ absurd (ground arith)
    | inr c ↦
        record_jtis-Same ts
          (record db {
            revoked_jtis = db.revoked_jtis ++ record { jti = jti; expires_at = t.expires_at } ∷ [];
          })
          {after = after} (ground arith)
  ]
]

block_all-db : (w : World) (ts : List AccessToken) (s : State) → (block_all w ts s).db ≡ s.db
unfolding block_all
block_all-db w [] s = refl
block_all-db w (t ∷ ts) s = elim (Option-cases t.jti) [
  | inl k ↦ rw (k) (block_all-db w ts s)
  | inr (jti, k) ↦ rw (k) (
      block_all-db w ts
        (record s { effects = block_jti jti (remaining_ttl_sec w.now t.expires_at) ∷ s.effects }))
]

count-access :
    (i : ℕ) (ts : List AccessToken)
    → count
        (λ t. t.identity_id == i && not t.revoked)
        (modify (λ t. t.identity_id == i && not t.revoked) (λ t. record t { revoked = true }) ts)
      ≡ 0
count-access i [] = refl
count-access i (t ∷ ts) = ground (arith, count-access i ts)

count-refresh :
    (now : ℕ) (xs : List Session) (ts : List RefreshToken)
    → count
        (λ t. in_sessions xs t.session_id && not t.revoked)
        (modify
          (λ t. in_sessions xs t.session_id && not t.revoked)
          (λ t. record t { revoked = true; rotated_at = some now })
          ts)
      ≡ 0
count-refresh now xs [] = refl
count-refresh now xs (t ∷ ts) = ground (arith, count-refresh now xs ts)

abbrev reached : List Session → Session → Bool
reached xs x = any (λ y. y.id == x.id) xs

valid-reached :
    (p : Session → Bool) (ts : List Session)
    → All (λ x. p x ≡ true → reached (select p ts) x ≡ true) ts
valid-reached p [] = tt
valid-reached p (t ∷ ts) = (
  λ h. ground (arith, ==_self t.id),
  All-imp ts (λ a k h. ground (arith, k h)) (valid-reached p ts),
)

count-valid :
    (i : ℕ) (xs ts : List Session)
    → All (λ x. is_valid_of i x ≡ true → reached xs x ≡ true) ts
    → count (is_valid_of i) (modify (reached xs) (λ x. record x { valid = false }) ts) ≡ 0
count-valid i xs [] h = refl
count-valid i xs (t ∷ ts) h = ground (arith, h.0, count-valid i xs ts h.1)

-- The sessions that were valid before.
abbrev pub were_valid : ℕ → Db → List Session
were_valid identity_id db = select (is_valid_of identity_id) db.sessions

-- Nothing of an identity is live: no valid session, no access token, and no refresh token of the
-- sessions `xs`.
abbrev pub AllRevoked : ℕ → List Session → Db → Type 0
AllRevoked identity_id xs db =
    (count (is_valid_of identity_id) db.sessions ≡ 0)
    × (count (λ t. t.identity_id == identity_id && not t.revoked) db.access_tokens ≡ 0)
    × (count (λ t. in_sessions xs t.session_id && not t.revoked) db.refresh_tokens ≡ 0)

settle_batch-ok :
    (w : World) (live : List AccessToken) (o : Option Db) (s : State) {u : State}
    → settle_batch documented w live o s ≡ ok tt u
    → (after : Db) × (o ≡ some after) × (u.db ≡ after)
unfolding settle_batch
settle_batch-ok w live none s e = absurd (ground arith)
settle_batch-ok w live (some after) s e =
    (after, refl, ground (arith, block_all-db w live (record s { db = after })))

rows-AllRevoked :
    (w : World) (i : ℕ) (db after : Db)
    → Same after (revoke_rows documented w i (were_valid i db) db)
    → AllRevoked i (were_valid i db) after
rows-AllRevoked w i db after (a, r, x) = (
  rw (x) (count-valid i (were_valid i db) db.sessions (valid-reached (is_valid_of i) db.sessions)),
  rw (a) (count-access i db.access_tokens),
  rw (r) (count-refresh w.now (were_valid i db) db.refresh_tokens),
)

revoke_sessions-ok :
    (w : World) (i : ℕ) (xs : List Session) (s : State) {u : State}
    → any (λ x. true) xs ≡ true
    → revoke_sessions documented w i xs s ≡ ok tt u
    → Same u.db (revoke_rows documented w i xs s.db)
unfolding revoke_sessions
revoke_sessions-ok w i [] s h e = absurd (ground arith)
revoke_sessions-ok w i (x ∷ xs) s {u} h e =
    let (after, listed, same) = settle_batch-ok w _ _ s e in
    subst (λ db. Same db (revoke_rows documented w i (x ∷ xs) s.db)) (sym same)
      (record_jtis-Same _ (revoke_rows documented w i (x ∷ xs) s.db) listed)

-- Where an identity has a valid session, a revocation that succeeds leaves it none, no access token
-- that is not revoked, and no refresh token that is not revoked of a session that was valid.
pub revoke_all_for_identity-AllRevoked :
    (q : Prisma)
    → IsDocumented q
    → (w : World) (identity_id : ℕ) (s : State) {u : State}
    → any (λ x. true) (were_valid identity_id s.db) ≡ true
    → revoke_all_for_identity q w identity_id s ≡ ok tt u
    → AllRevoked identity_id (were_valid identity_id s.db) u.db
unfolding revoke_all_for_identity
revoke_all_for_identity-AllRevoked q d w i s {u} h =
    by_documentation
      (λ p. revoke_all_for_identity p w i s ≡ ok tt u → AllRevoked i (were_valid i s.db) u.db) d
      (λ e. rows-AllRevoked w i s.db u.db (revoke_sessions-ok w i (were_valid i s.db) s h e))
