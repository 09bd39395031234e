-- ===== src/Login/Laws.antt =====
-- What a login that succeeds has checked.
use arc_id.Base.{◌≡◌, refl, true, false, Option, none, some, ◌≢◌, arith}
use arc_id.Db.{Identity, LocalAccount, UserStatus}
use arc_id.Db.Prisma.{Prisma}
use arc_id.Flow.Monad.{State, ok}
use arc_id.Flow.World.{World, Ctx}
use arc_id.LoginAttempt.{check_lockout}
use arc_id.Login.{
  LoginInput, LoginOutput, login_session, login_password, login_account, login_found, login,
  find_for_auth,
}

-- The account that the credentials open, and the rest of the flow from it.
pub record Admitted (q : Prisma) (w : World) (input : LoginInput) (ctx : Ctx) (s : State)
    (out : LoginOutput) (u : State) : Type 0 where
  pub identity : Identity
  pub account : LocalAccount
  pub found : find_for_auth q input.email s.db ≡ some (identity, account)
  pub unlocked : (check_lockout w.redis w.now input.email s.store).locked ≡ false
  pub password : w.argon2_verify account.password_hash input.password ≡ true
  pub not_banned : identity.status ≢ UserStatus.banned
  pub not_suspended : identity.status ≢ UserStatus.suspended
  pub not_deleted : identity.status ≢ UserStatus.deleted
  pub session : login_session q w input ctx identity account s ≡ ok out u

module _ (q : Prisma) (w : World) (input : LoginInput) (ctx : Ctx) (s : State) where
  login_password-ok :
      (i : Identity) (a : LocalAccount) {out : LoginOutput} {u : State}
      → login_password q w input ctx i a s ≡ ok out u
      → (w.argon2_verify a.password_hash input.password ≡ true)
        × (login_session q w input ctx i a s ≡ ok out u)
  unfolding login_password
  login_password-ok i a e = (ground arith, ground arith)

  abbrev Open : UserStatus → Type 0
  Open x = (x ≢ UserStatus.banned) × (x ≢ UserStatus.suspended) × (x ≢ UserStatus.deleted)

  login_account-ok :
      (i : Identity) (a : LocalAccount) {out : LoginOutput} {u : State}
      → login_account q w input ctx i a s ≡ ok out u
      → Open i.status × (login_password q w input ctx i a s ≡ ok out u)
  unfolding login_account
  login_account-ok i a e = ((λ k. ground arith, λ k. ground arith, λ k. ground arith), ground arith)

  login_found-ok :
      (o : Option (Identity × LocalAccount)) {out : LoginOutput} {u : State}
      → login_found q w input ctx o s ≡ ok out u
      → (i : Identity) × (a : LocalAccount) × (o ≡ some (i, a))
        × (login_account q w input ctx i a s ≡ ok out u)
  unfolding login_found
  login_found-ok none e = absurd (ground arith)
  login_found-ok (some (i, a)) e = (i, a, refl, e)

  login-split :
      {out : LoginOutput} {u : State}
      → login q w input ctx s ≡ ok out u
      → ((check_lockout w.redis w.now input.email s.store).locked ≡ false)
        × (login_found q w input ctx (find_for_auth q input.email s.db) s ≡ ok out u)
  unfolding login
  login-split e = (ground arith, ground arith)

  -- A login that succeeds was not locked out, found an identity with a local account that is
  -- neither banned nor suspended nor deleted, and verified the password against that account; its
  -- output and state are those of the session step for that identity.
  pub login-Admitted :
      {out : LoginOutput} {u : State}
      → login q w input ctx s ≡ ok out u
      → Admitted q w input ctx s out u
  login-Admitted e =
      let (unlocked, e₁) = login-split e in
      let (i, a, found, e₂) = login_found-ok (find_for_auth q input.email s.db) e₁ in
      let (not_closed, e₃) = login_account-ok i a e₂ in
      let (password, e₄) = login_password-ok i a e₃ in
      record {
        identity = i;
        account = a;
        found = found;
        unlocked = unlocked;
        password = password;
        not_banned = not_closed.0;
        not_suspended = not_closed.1;
        not_deleted = not_closed.2;
        session = e₄;
      }
