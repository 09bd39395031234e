-- ===== src/System/Spent.antt =====
-- A spent refresh token stays spent, whatever is served.
use arc_id.Base.{ℕ, ◌≡◌, refl, true, ◌&&◌, not, some, List, ◌==◌, arith}
use arc_id.Db.{RefreshToken}
use arc_id.Db.Prisma.{Prisma, IsDocumented, documented, documented-IsDocumented, by_documentation}
use arc_id.Flow.Monad.{State, ok}
use arc_id.Flow.World.{World, Ctx}
use arc_id.Token.Issue.{TokenBundle}
use arc_id.Refresh.KillChain.{trigger_kill_chain}
use arc_id.Refresh.Spent.{Spent, spent_in-modify}
use arc_id.Refresh.Rotate.{swap_revoked}
use arc_id.Refresh.Rotate.Laws.{issue-Spent}
use arc_id.Refresh.Replay.{refresh_route, refresh_route-Rotated, refresh_route-Forgets, Forgets}
use arc_id.System.{Call, serve_all}
use arc_id.System.Invariant.{IsInvariant}
use arc_id.System.Kept.{kept_by_all}

swap_revoked-keeps :
    (raw : ℕ) (w : World) (other : ℕ) (t : RefreshToken) (s : State) {u : State}
    → Spent raw s.db
    → swap_revoked documented w other t s ≡ ok tt u
    → Spent raw u.db
unfolding swap_revoked trigger_kill_chain
swap_revoked-keeps raw w other t s h e = ground (
  arith,
  spent_in-modify raw (λ r. r.id == t.id && not r.revoked)
      (λ r. record r { revoked = true; rotated_at = some w.now }) s.db.refresh_tokens
      (λ r. (refl, λ x. refl)) h,
)

Spent-IsInvariant : (raw : ℕ) → IsInvariant (Spent raw)
Spent-IsInvariant raw = record {
  sessions = λ db rows h. h;
  swapped = λ w other t s h e. swap_revoked-keeps raw w other t s h e;
  issued = λ w p. issue-Spent raw w p;
  consumed = λ id db h. h;
}

-- The token is refused, and the refusal changes nothing in the database, after any calls.
abbrev pub RefusedForever : Prisma → ℕ → State → Type 0
RefusedForever q raw u =
    (calls : List Call) (later : World) (ctx : Ctx) → Forgets q later raw ctx (serve_all q calls u)

-- A refresh token buys tokens at most once: after a refresh through the route has accepted it, every
-- further refresh with it is refused, whatever refreshes, code exchanges, logins and verifications
-- are served in between, successful or not.
pub refresh_route-at_most_once :
    (q : Prisma)
    → IsDocumented q
    → (w : World) (raw : ℕ) (ctx : Ctx) (s : State) {b : TokenBundle} {u : State}
    → refresh_route q w raw ctx s ≡ ok b u
    → RefusedForever q raw u
refresh_route-at_most_once q d w raw ctx s {b} {u} =
    by_documentation (λ p. refresh_route p w raw ctx s ≡ ok b u → RefusedForever p raw u) d
      (λ e calls later again.
        refresh_route-Forgets documented documented-IsDocumented later raw again
          (serve_all documented calls u)
          (kept_by_all (Spent-IsInvariant raw) calls u
            (refresh_route-Rotated documented documented-IsDocumented w raw ctx s e).spent))
