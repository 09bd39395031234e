-- ===== src/System/Invariant.antt =====
-- What a property of the database must survive for every request to keep it.
use arc_id.Base.{ℕ, ◌≡◌, List}
use arc_id.Db.{RefreshToken, Session, Db}
use arc_id.Db.Prisma.{documented}
use arc_id.Exchange.{consume_code}
use arc_id.Flow.Keeps.{Keeps}
use arc_id.Flow.Monad.{State, ok}
use arc_id.Flow.World.{World}
use arc_id.Refresh.Rotate.{swap_revoked}
use arc_id.Token.Issue.{IssueTokensParams, issue}

pub record IsInvariant (S : Db → Type 0) : Type 0 where
  pub sessions : (db : Db) (rows : List Session) → S db → S (record db { sessions = rows })
  pub swapped :
      (w : World) (raw : ℕ) (t : RefreshToken) (s : State) {u : State}
      → S s.db
      → swap_revoked documented w raw t s ≡ ok tt u
      → S u.db
  pub issued : (w : World) (p : IssueTokensParams) → Keeps S (issue documented w p)
  pub consumed : (id : ℕ) (db : Db) → S db → S (consume_code documented id db)
