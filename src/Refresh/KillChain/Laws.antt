-- ===== src/Refresh/KillChain/Laws.antt =====
-- What the kill chain leaves of refresh tokens, sessions and access tokens.
use arc_id.Base.{
  ℕ, ◌≡◌, refl, Bool, true, false, ◌&&◌, not, Option, none, some, List, [], ◌∷◌, ◌==◌, any, All,
  All-imp, select, modify, count, ◌∙◌, arith, ==_self, Bool-cases, inl, inr,
}
use arc_id.Db.{AccessToken, RefreshToken, Session, Db}
use arc_id.Db.Prisma.{documented}
use arc_id.Flow.Monad.{State}
use arc_id.Flow.World.{World}
use arc_id.Refresh.KillChain.{
  target_of, invalidate_session, block_one, block_each, blocklist_live_access_tokens, kill_family,
  killed, is_live_access, revoke_access,
}

-- The loop touches neither refresh tokens, nor sessions, nor access tokens.
abbrev pub Same : State → State → Type 0
Same s t =
    (t.db.refresh_tokens ≡ s.db.refresh_tokens)
    × (t.db.sessions ≡ s.db.sessions)
    × (t.db.access_tokens ≡ s.db.access_tokens)

block_one-Same : (w : World) (t : AccessToken) (s : State) → Same s (block_one w t s)
unfolding block_one
block_one-Same w t s = ground arith

pub block_each-Same : (w : World) (ts : List AccessToken) (s : State) → Same s (block_each w ts s)
unfolding block_each
block_each-Same w [] s = (refl, refl, refl)
block_each-Same w (t ∷ ts) s =
    let one = block_one-Same w t s in
    let rest = block_each-Same w ts (block_one w t s) in
    (rest.0 ∙ one.0, rest.1 ∙ one.1, rest.2 ∙ one.2)

-- The rows that the update by identifiers reaches cover all that were live.
abbrev reached : List AccessToken → AccessToken → Bool
reached live a = any (λ l. l.id == a.id) live

live-reached :
    (p : AccessToken → Bool) (ts : List AccessToken)
    → All (λ a. p a ≡ true → reached (select p ts) a ≡ true) ts
live-reached p [] = tt
live-reached p (t ∷ ts) = (
  λ h. ground (arith, ==_self t.id),
  All-imp ts (λ a k h. ground (arith, k h)) (live-reached p ts),
)

pub count-revoked :
    (p r : AccessToken → Bool) (ts : List AccessToken)
    → ((a : AccessToken) → p (record a { revoked = true }) ≡ false)
    → All (λ a. p a ≡ true → r a ≡ true) ts
    → count p (modify r (λ a. record a { revoked = true }) ts) ≡ 0
count-revoked p r [] dead h = refl
count-revoked p r (t ∷ ts) dead h = ground (arith, dead t, h.0, count-revoked p r ts dead h.1)

pub count-none :
    (p : AccessToken → Bool) (ts : List AccessToken)
    → All (λ a. p a ≡ true → false ≡ true) ts
    → count p ts ≡ 0
count-none p [] k = refl
count-none p (t ∷ ts) k = elim (Bool-cases (p t)) [
  | inl e ↦ cc (k.0 e)
  | inr e ↦ ground (arith, count-none p ts k.1)
]

revoked-not-live :
    (w : World) (i c : ℕ) (a : AccessToken)
    → is_live_access w i c (record a { revoked = true }) ≡ false
revoked-not-live w i c a = ground arith

module _ (w : World) (i c : ℕ) (s : State) where
  abbrev live_now : List AccessToken
  live_now = select (is_live_access w i c) s.db.access_tokens

  -- The branches of the sweep by the list of live tokens.
  abbrev swept : List AccessToken → State
  swept live = elim live [
    | [] ↦ s
    | t ∷ ts ↦
        block_each w (t ∷ ts)
          (record s { db = revoke_access documented (λ a. reached (t ∷ ts) a) s.db })
  ]

  swept-Same :
      (live : List AccessToken)
      → ((swept live).db.refresh_tokens ≡ s.db.refresh_tokens)
        × ((swept live).db.sessions ≡ s.db.sessions)
  swept-Same [] = (refl, refl)
  swept-Same (t ∷ ts) = let same = block_each-Same w (t ∷ ts) _ in (same.0, same.1)

  swept-count :
      (live : List AccessToken)
      → All (λ a. is_live_access w i c a ≡ true → reached live a ≡ true) s.db.access_tokens
      → count (is_live_access w i c) (swept live).db.access_tokens ≡ 0
  swept-count [] h = count-none _ s.db.access_tokens h
  swept-count (t ∷ ts) h = rw (block_each-Same w (t ∷ ts) _).2 (
      count-revoked (is_live_access w i c) (reached (t ∷ ts)) s.db.access_tokens
        (revoked-not-live w i c) h)

  pub blocklist-Same :
      ((blocklist_live_access_tokens documented w i c s).db.refresh_tokens ≡ s.db.refresh_tokens)
      × ((blocklist_live_access_tokens documented w i c s).db.sessions ≡ s.db.sessions)
  unfolding blocklist_live_access_tokens
  blocklist-Same = swept-Same live_now

  -- No live access token of the pair is left.
  pub blocklist-count :
      count
        (is_live_access w i c)
        (blocklist_live_access_tokens documented w i c s).db.access_tokens
      ≡ 0
  unfolding blocklist_live_access_tokens
  blocklist-count = swept-count live_now (live-reached (is_live_access w i c) s.db.access_tokens)

revoke-count :
    (family : ℕ) (ts : List RefreshToken)
    → count
        (λ r. r.family_id == family && not r.revoked)
        (modify (λ r. r.family_id == family) (λ r. record r { revoked = true }) ts)
      ≡ 0
revoke-count family [] = refl
revoke-count family (t ∷ ts) = ground (arith, revoke-count family ts)

invalidate-count :
    (session : ℕ) (xs : List Session)
    → count
        (λ x. x.id == session && x.valid)
        (modify (λ x. x.id == session) (λ x. record x { valid = false }) xs)
      ≡ 0
invalidate-count session [] = refl
invalidate-count session (x ∷ xs) = ground (arith, invalidate-count session xs)

invalidate_session-rows :
    (o : Option ℕ) (db : Db)
    → (invalidate_session documented o db).refresh_tokens ≡ db.refresh_tokens
invalidate_session-rows none db = refl
invalidate_session-rows (some x) db = refl

-- After the kill chain of a token record no refresh token of its family is live, its session is not
-- valid, and no live access token of its identity and client is left.
pub killed-nothing-live :
    (w : World) (raw : ℕ) (t : RefreshToken) (s : State)
    → let u = (killed documented w raw (target_of t) s).db in
      (count (λ r. r.family_id == t.family_id && not r.revoked) u.refresh_tokens ≡ 0)
      × ((session : ℕ)
          → t.session_id ≡ some session
          → count (λ x. x.id == session && x.valid) u.sessions ≡ 0)
      × (count (is_live_access w t.identity_id t.client_id) u.access_tokens ≡ 0)
unfolding killed
killed-nothing-live w raw t s =
    let k = kill_family documented w raw (target_of t) s in
    let same = blocklist-Same w t.identity_id t.client_id k in
    (
      rw (same.0, invalidate_session-rows t.session_id)
          (revoke-count t.family_id s.db.refresh_tokens),
      (λ session e. rw (same.1, e) (invalidate-count session s.db.sessions)),
      blocklist-count w t.identity_id t.client_id k,
    )
