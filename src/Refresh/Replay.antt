-- ===== src/Refresh/Replay.antt =====
-- A refresh token that is presented again: what the kill chain does, and what is left of it under
-- `FlowExecutor.run`, by which src/modules/oauth/routes/tokens.route.ts runs the flow.
use arc_id.Base.{ℕ, ◌≡◌, refl, true, ◌&&◌, not, some, ◌==◌, find, count, arith}
use arc_id.Db.{RefreshToken, Db}
use arc_id.Db.Prisma.{Prisma, IsDocumented, documented, by_documentation}
use arc_id.Flow.Errors.{Thrown, invalid_grant_error}
use arc_id.Flow.Monad.{Flow, State, ok, err}
use arc_id.Flow.World.{World, Ctx}
use arc_id.Flow.Executor.{run, run-ok, with_tx, caught, rethrow, resolved}
use arc_id.Token.Issue.{TokenBundle}
use arc_id.Refresh.KillChain.{trigger_kill_chain, target_of, is_live_access}
use arc_id.Refresh.KillChain.Laws.{killed-nothing-live}
use arc_id.Refresh.Rotate.{resolve_token, check_usable, token_refresh}
use arc_id.Refresh.Rotate.Laws.{Rotated, token_refresh-Rotated}
use arc_id.Refresh.Spent.{Spent, spent_in_found}

abbrev pub replay_error : Thrown
replay_error = invalid_grant_error "Refresh token is invalid, expired, or already used"

-- Nothing of a token's family, session and access tokens is live.
abbrev pub NothingLive : World → RefreshToken → Db → Type 0
NothingLive w t db =
    (count (λ r. r.family_id == t.family_id && not r.revoked) db.refresh_tokens ≡ 0)
    × ((session : ℕ)
        → t.session_id ≡ some session
        → count (λ x. x.id == session && x.valid) db.sessions ≡ 0)
    × (count (is_live_access w t.identity_id t.client_id) db.access_tokens ≡ 0)

refused :
    (w : World) (raw : ℕ) (ctx : Ctx) (t : RefreshToken) (s : State)
    → find (λ r. r.token == raw) s.db.refresh_tokens ≡ some t
    → t.revoked ≡ true
    → token_refresh documented w raw ctx s ≡ trigger_kill_chain documented w raw (target_of t) s
unfolding token_refresh resolve_token check_usable trigger_kill_chain
refused w raw ctx t s f r = ground arith

-- The flow's answer to a spent token, as a client `q` of the database runs it.
abbrev pub Refuses : Prisma → World → ℕ → Ctx → State → Type 0
Refuses q w raw ctx s =
    (t : RefreshToken) × (u : State) × (find (λ r. r.token == raw) s.db.refresh_tokens ≡ some t)
    × (token_refresh q w raw ctx s ≡ err replay_error u)
    × NothingLive w t u.db

documented-Refuses :
    (w : World) (raw : ℕ) (ctx : Ctx) (s : State) → Spent raw s.db → Refuses documented w raw ctx s
unfolding trigger_kill_chain
documented-Refuses w raw ctx s h =
    let (t, f, r) = spent_in_found raw s.db.refresh_tokens h in
    (t, _, f, refused w raw ctx t s f r, killed-nothing-live w raw t s)

-- A refresh with a spent token fails with invalid_grant, and in the database that the flow leaves
-- to its caller nothing is live of the token's family, of its session, and of the access tokens of
-- its identity and client.
pub token_refresh-Refuses :
    (q : Prisma)
    → IsDocumented q
    → (w : World) (raw : ℕ) (ctx : Ctx) (s : State) → Spent raw s.db
    → Refuses q w raw ctx s
token_refresh-Refuses q d w raw ctx s h =
    by_documentation (λ p. Refuses p w raw ctx s) d (documented-Refuses w raw ctx s h)

-- What the route does: the flow in the executor's transaction.
abbrev pub refresh_route : Prisma → World → ℕ → Ctx → Flow TokenBundle
refresh_route q w raw ctx = run q w (token_refresh q w raw) ctx true

-- The failure comes back to the client, and the database is the one before the request.
abbrev pub Forgets : Prisma → World → ℕ → Ctx → State → Type 0
Forgets q w raw ctx s =
    (u : State) × (refresh_route q w raw ctx s ≡ err replay_error u) × (u.db ≡ s.db)

documented-Forgets :
    (w : World) (raw : ℕ) (ctx : Ctx) (s : State) → Spent raw s.db → Forgets documented w raw ctx s
unfolding run with_tx caught rethrow
documented-Forgets w raw ctx s h =
    let (t, u, f, e, n) = documented-Refuses w raw (resolved w ctx) s h in
    (record u { db = s.db }, ground arith, refl)

-- Through the route a replay of a spent token fails with invalid_grant and changes nothing in the
-- database: the transaction takes the kill chain's revocations back, so the family's live tokens,
-- the session and the access tokens stay as they were.
pub refresh_route-Forgets :
    (q : Prisma)
    → IsDocumented q
    → (w : World) (raw : ℕ) (ctx : Ctx) (s : State) → Spent raw s.db
    → Forgets q w raw ctx s
refresh_route-Forgets q d w raw ctx s h =
    by_documentation (λ p. Forgets p w raw ctx s) d (documented-Forgets w raw ctx s h)

-- A refresh that succeeds through the route was given a listed, live, unexpired token; that token is
-- spent in the new database, and the token handed out is a live child of it: same family, the
-- parent's jti as its parent, the parent's session (or the parent's row, if it has none).
pub refresh_route-Rotated :
    (q : Prisma)
    → IsDocumented q
    → (w : World) (raw : ℕ) (ctx : Ctx) (s : State) {b : TokenBundle} {u : State}
    → refresh_route q w raw ctx s ≡ ok b u
    → Rotated w raw s b u
refresh_route-Rotated q d w raw ctx s {b} {u} =
    by_documentation (λ p. refresh_route p w raw ctx s ≡ ok b u → Rotated w raw s b u) d
      (λ e. token_refresh-Rotated w raw (resolved w ctx) s (run-ok w _ ctx true s e))
