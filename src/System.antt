-- ===== src/System.antt =====
-- The token-issuing requests together, as their routes run them: with the executor's transaction,
-- but for login, which src/modules/auth/routes/login.route.ts runs without one.
pub mod Invariant
pub mod Accounts
pub mod Kept
pub mod Spent
use arc_id.Base.{ℕ, true, false, List, [], ◌∷◌}
use arc_id.Db.Prisma.{Prisma}
use arc_id.Flow.Executor.{run}
use arc_id.Flow.Monad.{State, state_of}
use arc_id.Flow.World.{World, Ctx}
use arc_id.Refresh.Replay.{refresh_route}
use arc_id.Exchange.{ExchangeInput, token_exchange}
use arc_id.Login.{LoginInput, login}
use arc_id.Login.Verify.{MfaInput, mfa_verify}

pub data Request : Type 0 where
  refresh : ℕ → Request
  exchange : ExchangeInput → Request
  log_in : LoginInput → Request
  verify : MfaInput → Request

-- A request with the world at its time and its context.
pub record Call : Type 0 where
  pub world : World
  pub ctx : Ctx
  pub request : Request

abbrev pub served : Prisma → World → Ctx → Request → State → State
served q w ctx (refresh raw) s = state_of (refresh_route q w raw ctx s)
served q w ctx (exchange input) s = state_of (run q w (token_exchange q w input) ctx true s)
served q w ctx (log_in input) s = state_of (run q w (login q w input) ctx false s)
served q w ctx (verify input) s = state_of (run q w (mfa_verify q w input) ctx true s)

-- Calls one after another, whether they succeed or fail.
abbrev pub serve_all : Prisma → List Call → State → State
serve_all q [] s = s
serve_all q (c ∷ cs) s = serve_all q cs (served q c.world c.ctx c.request s)
