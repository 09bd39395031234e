-- ===== src/Switch/Laws.antt =====
-- What a change of context finds and leaves.
use arc_id.Base.{
  ℕ, ◌≡◌, refl, Bool, true, false, ◌&&◌, not, Option, none, some, List, [], ◌∷◌, ◌==◌, any, find,
  select, modify, count, All, is_some, or_else, arith, Option-cases, Bool-cases, inl, inr,
}
use arc_id.Db.{AccessToken, RefreshToken, Session, Membership, Db}
use arc_id.Db.Prisma.{Prisma, IsDocumented, documented, by_documentation}
use arc_id.Flow.Executor.{resolved, run-ok}
use arc_id.Flow.Monad.{State, ok, audit, >>=-eq-ok}
use arc_id.Flow.World.{World, Ctx}
use arc_id.Refresh.KillChain.Laws.{block_each-Same, count-revoked}
use arc_id.Token.Issue.{TokenBundle, issue}
use arc_id.Switch.{
  active_membership, is_usable, of_session, live_access_tokens, revoke_current, block_old,
  switch_params, switch_session, switch_context, route_ctx, switch_context_route,
}

abbrev pub is_unspent : ℕ → RefreshToken → Bool
is_unspent id t = t.id == id && not t.revoked

-- The refresh token that the session was bound to was unspent before and is spent after.
abbrev pub Spent : Option ℕ → Db → Db → Type 0
Spent none before after = Unit {0}
Spent (some id) before after =
    (any (is_unspent id) before.refresh_tokens ≡ true)
    × (count (is_unspent id) after.refresh_tokens ≡ 0)

abbrev pub is_blockable : ℕ → ℕ → AccessToken → Bool
is_blockable session_id identity_id t = of_session session_id identity_id t && is_some t.jti

-- What a change of the session's context has found, and the state on which it issued its tokens.
pub record Reissued (w : World) (identity_id tenant_id : ℕ) (x : Session) (before : Db)
    (bundle : TokenBundle) (after : Db) : Type 0 where
  pub between : State
  pub spent : Spent x.refresh_token_id before between.db
  pub blocked : count (is_blockable x.id identity_id) between.db.access_tokens ≡ 0
  pub issued : State
  pub issues :
      issue documented w (switch_params w identity_id tenant_id x) between ≡ ok bundle issued
  pub leaves : after ≡ issued.db

pub record Switched (w : World) (tenant_id : ℕ) (metadata : Option ℕ) (ctx : Ctx) (before : Db)
    (bundle : TokenBundle) (after : Db) : Type 0 where
  pub identity_id : ℕ
  pub caller : ctx.identity_id ≡ some identity_id
  pub membership : Membership
  pub member : active_membership documented tenant_id identity_id before ≡ some membership
  pub session_id : ℕ
  pub named : or_else ctx.session_id metadata ≡ some session_id
  pub session : Session
  pub usable : find (is_usable w session_id identity_id) before.sessions ≡ some session
  pub reissued : Reissued w identity_id tenant_id session before bundle after

spent-count :
    (id now : ℕ) (ts : List RefreshToken)
    → count
        (is_unspent id)
        (modify (is_unspent id) (λ t. record t { revoked = true; rotated_at = some now }) ts)
      ≡ 0
spent-count id now [] = refl
spent-count id now (t ∷ ts) = ground (arith, spent-count id now ts)

counted :
    (id : ℕ) (ts : List RefreshToken)
    → (count (is_unspent id) ts == 0) ≡ false
    → any (is_unspent id) ts ≡ true
counted id [] e = absurd (ground arith)
counted id (t ∷ ts) e = ground (arith, counted id ts)

revoke_current-ok :
    (w : World) (i : ℕ) (o : Option ℕ) (s : State) {a : Unit {0}} {t : State}
    → revoke_current documented w i o s ≡ ok a t
    → Spent o s.db t.db × (t.db.access_tokens ≡ s.db.access_tokens)
unfolding revoke_current
revoke_current-ok w i none s {a} {t} e = (tt, ground arith)
revoke_current-ok w i (some id) s {a} {t} e =
    elim (Bool-cases (count (is_unspent id) s.db.refresh_tokens == 0)) [
      | inl k ↦ absurd (ground arith)
      | inr k ↦ (
        (
          counted id s.db.refresh_tokens k,
          ground (arith, spent-count id w.now s.db.refresh_tokens),
        ),
        ground arith,
      )
    ]

block_old-Spent :
    (w : World) (sid i : ℕ) (o : Option ℕ) (ts : List AccessToken) (before : Db) (t : State)
    → Spent o before t.db
    → Spent o before (block_old documented w sid i ts t).db
unfolding block_old
block_old-Spent w sid i o [] before t h = h
block_old-Spent w sid i none (x ∷ xs) before t h = tt
block_old-Spent w sid i (some id) (x ∷ xs) before t h =
    (h.0, rw ((block_each-Same w (x ∷ xs) _).0) (h.1))

none_selected : (p : AccessToken → Bool) (ts : List AccessToken) → select p ts ≡ [] → count p ts ≡ 0
none_selected p [] e = refl
none_selected p (t ∷ ts) e = ground (arith, none_selected p ts)

implied :
    (sid i : ℕ) (ts : List AccessToken)
    → All (λ a. is_blockable sid i a ≡ true → of_session sid i a ≡ true) ts
implied sid i [] = tt
implied sid i (t ∷ ts) = (λ h. ground arith, implied sid i ts)

block_old-blocked :
    (w : World) (sid i : ℕ) (live : List AccessToken) (t : State)
    → select (is_blockable sid i) t.db.access_tokens ≡ live
    → count (is_blockable sid i) (block_old documented w sid i live t).db.access_tokens ≡ 0
unfolding block_old
block_old-blocked w sid i [] t e = none_selected (is_blockable sid i) t.db.access_tokens e
block_old-blocked w sid i (x ∷ xs) t e = rw ((block_each-Same w (x ∷ xs) _).2) (
    count-revoked (is_blockable sid i) (of_session sid i) t.db.access_tokens (λ a. ground arith)
      (implied sid i t.db.access_tokens))

session-Reissued :
    (w : World) (i tenant_id : ℕ) (x : Session) (s : State) {b : TokenBundle} {u : State}
    → switch_session documented w i tenant_id x s ≡ ok b u
    → Reissued w i tenant_id x s.db b u.db
unfolding switch_session
session-Reissued w i tenant_id x s {b} {u} e =
    let live : List AccessToken = live_access_tokens documented x i s.db in
    let (a, t, f, g) =
      >>=-eq-ok (revoke_current documented w i x.refresh_token_id)
        (λ _ t.
          issue documented w (switch_params w i tenant_id x) (block_old documented w x.id i live t))
        {s = s} {b = b} {u = u} e in
    let (spent, kept) = revoke_current-ok w i x.refresh_token_id s {a = a} {t = t} f in
    record {
      between = block_old documented w x.id i live t;
      spent = block_old-Spent w x.id i x.refresh_token_id live s.db t spent;
      blocked = block_old-blocked w x.id i live t (rw (kept) refl);
      issued = u;
      issues = g;
      leaves = refl;
    }

module _ (w : World) (tenant_id : ℕ) (metadata : Option ℕ) (ctx : Ctx) (s : State) where
  context-Switched :
      {b : TokenBundle} {u : State}
      → switch_context documented w tenant_id metadata ctx s ≡ ok b u
      → Switched w tenant_id metadata ctx s.db b u.db
  unfolding switch_context
  context-Switched {b} {u} e = elim (Option-cases ctx.identity_id) [
    | inl k ↦ absurd (ground arith)
    | inr (i, k) ↦ elim (Option-cases (active_membership documented tenant_id i s.db)) [
      | inl k₁ ↦ absurd (ground arith)
      | inr (m, k₁) ↦ elim (Option-cases (or_else ctx.session_id metadata)) [
        | inl k₂ ↦ absurd (ground arith)
        | inr (sid, k₂) ↦ elim (Option-cases (find (is_usable w sid i) s.db.sessions)) [
          | inl k₃ ↦ absurd (ground arith)
          | inr (x, k₃) ↦
              let (b', t, f, g) =
                >>=-eq-ok (switch_session documented w i tenant_id x)
                  (λ b t.
                    ok b (record t { effects = audit "SESSION_CREATED" (some i) ∷ t.effects }))
                  {s = s} {b = b} {u = u} (ground arith) in
              let same : b' ≡ b = ground arith in
              let r = session-Reissued w i tenant_id x s {b = b'} {u = t} f in
              record {
                identity_id = i;
                caller = k;
                membership = m;
                member = k₁;
                session_id = sid;
                named = k₂;
                session = x;
                usable = k₃;
                reissued = record {
                  between = r.between;
                  spent = r.spent;
                  blocked = r.blocked;
                  issued = r.issued;
                  issues = cc (r.issues, same);
                  leaves = ground (arith, r.leaves);
                };
              }
        ]
      ]
    ]
  ]

route-Switched :
    (w : World) (tenant_id identity_id : ℕ) (current : Option ℕ) (s : State) {b : TokenBundle}
    {u : State}
    → switch_context_route documented w tenant_id identity_id current s ≡ ok b u
    → Switched w tenant_id none
        (resolved w (route_ctx documented identity_id current s.db))
        s.db
        b
        u.db
unfolding switch_context_route
route-Switched w tenant_id identity_id current s e =
    let ctx : Ctx = route_ctx documented identity_id current s.db in
    context-Switched w tenant_id none (resolved w ctx) s
      (run-ok w (switch_context documented w tenant_id none) ctx true s e)

-- A change of context that succeeds found an active membership of the caller in the tenant asked for
-- and, as the caller's newest valid session, one that is not past its end. If the session was bound
-- to a refresh token, that token was unspent before and is spent when the new tokens are issued, and
-- by then no unrevoked access token of the caller with a jti is left on the session. The tokens are
-- those that the token service issues on that state for the caller, the session and the tenant.
pub switch_context_route-Switched :
    (q : Prisma)
    → IsDocumented q
    → (w : World) (tenant_id identity_id : ℕ) (current : Option ℕ) (s : State) {b : TokenBundle}
      {u : State}
    → switch_context_route q w tenant_id identity_id current s ≡ ok b u
    → Switched w tenant_id none
        (resolved w (route_ctx documented identity_id current s.db))
        s.db
        b
        u.db
switch_context_route-Switched q d w tenant_id identity_id current s {b} {u} =
    by_documentation
      (λ q.
        switch_context_route q w tenant_id identity_id current s ≡ ok b u
        → Switched w tenant_id none (resolved w (route_ctx documented identity_id current s.db))
            s.db b u.db)
      d (route-Switched w tenant_id identity_id current s)
