-- ===== src/Flow/Executor.antt =====
-- src/core/flows/flow-executor.ts: `FlowExecutor.run`.
use arc_id.Base.{◌≡◌, Bool, true, false, some, or_else, if◌then◌else◌, arith}
use arc_id.Db.{Db}
use arc_id.Db.Prisma.{Prisma, documented}
use arc_id.Flow.Errors.{Code, api_error, Thrown, api, prisma}
use arc_id.Flow.Monad.{State, Result, ok, err, Flow, state_of}
use arc_id.Flow.World.{World, Ctx}

-- `prisma.$transaction(fn)`: a throw inside takes every write of `fn` back. What was started on other
-- connections stays.
unfoldable pub with_tx : {A : Type 0} → Prisma → Flow A → Flow A
with_tx q m s = elim (m s) [
  | ok a t ↦ ok a (record t { db = q.settle Db true s.db t.db })
  | err e t ↦ err e (record t { db = q.settle Db false s.db t.db })
]

-- The `catch` of `run`: an operational error passes, any other becomes FLOW_RUNTIME_ERROR.
unfoldable pub rethrow : Thrown → Thrown
rethrow (api e) = api e
rethrow (prisma code) = api (api_error code 500 Code.flow_runtime_error)

unfoldable pub caught : {A : Type 0} → Result A → Result A
unfolding rethrow
caught (ok a s) = ok a s
caught (err e s) = err (rethrow e) s

-- `ctx.tenantId ?? SYSTEM_TENANT_ID`.
abbrev pub resolved : World → Ctx → Ctx
resolved w ctx = record ctx { tenant_id = or_else ctx.tenant_id (some w.system_tenant_id) }

unfoldable pub run : {A : Type 0} → Prisma → World → (Ctx → Flow A) → Ctx → Bool → Flow A
unfolding with_tx caught
run q w flow ctx use_transaction s =
    caught
      (if use_transaction then with_tx q (flow (resolved w ctx)) s else flow (resolved w ctx) s)

-- A run in a transaction that fails leaves the database as it was, whatever the flow wrote.
pub run-err-db :
    {A : Type 0} (w : World) (flow : Ctx → Flow A) (ctx : Ctx) (s : State) {e : Thrown} {t : State}
    → run documented w flow ctx true s ≡ err e t
    → t.db ≡ s.db
unfolding run
run-err-db w flow ctx s h = ground arith

-- Without one, the writes before the failure stay.
pub run-false-state :
    {A : Type 0} (w : World) (flow : Ctx → Flow A) (ctx : Ctx) (s : State)
    → state_of (run documented w flow ctx false s) ≡ state_of (flow (resolved w ctx) s)
unfolding run
run-false-state w flow ctx s = ground arith

-- Where a flow ends well, the transaction changes nothing.
pub run-ok :
    {A : Type 0} (w : World) (flow : Ctx → Flow A) (ctx : Ctx) (b : Bool) (s : State) {a : A}
    {t : State}
    → run documented w flow ctx b s ≡ ok a t
    → flow (resolved w ctx) s ≡ ok a t
unfolding run
run-ok w flow ctx b s h = ground arith
