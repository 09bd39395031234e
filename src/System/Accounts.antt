-- ===== src/System/Accounts.antt =====
-- Logins and verifications keep an invariant, on every path.
use arc_id.Base.{
  ℕ, Bool, true, false, Option, none, some, List, ◌==◌, find, Bool-cases, inl, inr, if◌then◌else◌,
  count, ◌+◌,
}
use arc_id.Db.{UserStatus, Identity, LocalAccount, Mfa, TenantPolicy, Session, Db}
use arc_id.Db.Prisma.{documented}
use arc_id.Flow.Errors.{prisma}
use arc_id.Flow.Monad.{State, Result, ok, err, state_of, Effect}
use arc_id.Flow.World.{World, Ctx}
use arc_id.Flow.Keeps.{
  Keeps, Keeps-bind, Keeps-then, Keeps-pure, Keeps-reads, Keeps-start, Keeps-or_throw,
}
use arc_id.Token.Issue.{IssueTokensParams, TokenBundle, issue}
use arc_id.Session.{CreateSessionInput, create, create_with, update_session, promote_to_aal2}
use arc_id.LoginAttempt.{check_lockout}
use arc_id.Login.{
  LoginInput, issue_by, issue_direct, active_mfas, policy_for, finish_pending, finish_issued,
  finish, login_session, login_password, login_account, login_found, login, needs_mfa,
  find_for_auth, session_input,
}
use arc_id.System.Invariant.{IsInvariant}
use arc_id.Login.Verify.{
  MfaInput, totp_secret, promote_and_issue, verify_code, verify_by, verify_with, verify_session,
  mfa_verify,
}

module _ {S : Db → Type 0} (inv : IsInvariant S) where
  -- Either branch of a test.
  if_kept :
      {A : Type 0} (b : Bool) (x y : Result A)
      → S (state_of x).db
      → S (state_of y).db
      → S (state_of (if b then x else y)).db
  if_kept true x y h k = h
  if_kept false x y h k = k

  -- Login and verification, on every path.
  update_session-Keeps : (id : ℕ) (f : Session → Session) → Keeps S (update_session documented id f)
  unfolding update_session
  update_session-Keeps id f = record {
    keeps =
        λ s h. if_kept (count (λ x. x.id == id) s.db.sessions == 0) _ _ h (inv.sessions s.db _ h);
  }

  created_kept :
      (o : Option (List Session)) (row : Session) (kept : List Session) (s : State)
      → S s.db
      → S
          (state_of (elim o [
            | none ↦ err (prisma "P2002") (record s { db = record s.db { sessions = kept } })
            | some rows ↦ ok row (record s { db = record s.db { sessions = rows } })
          ])).db
  created_kept none row kept s h = inv.sessions s.db kept h
  created_kept (some rows) row kept s h = inv.sessions s.db rows h

  create-Keeps : (w : World) (input : CreateSessionInput) → Keeps S (create documented w input)
  unfolding create create_with
  create-Keeps w input = record {
    keeps = λ s h. created_kept _ _ _ (record s { drawn = s.drawn + 1 }) h;
  }

  relabelled :
      (r : Result TokenBundle)
      → S (state_of r).db
      → S (state_of (elim r [ ok b t ↦ ok (some b) t | err e t ↦ err e t ])).db
  relabelled (ok b t) k = k
  relabelled (err e t) k = k

  issue_by-Keeps :
      (w : World) (params : ℕ → IssueTokensParams) (o : Option ℕ)
      → Keeps S (issue_by documented w params o)
  unfolding issue_by
  issue_by-Keeps w params none = record { keeps = λ s h. h }
  issue_by-Keeps w params (some c) = record {
    keeps =
        λ s h. relabelled (issue documented w (params c) s) ((inv.issued w (params c)).keeps s h);
  }

  issue_direct-Keeps :
      (w : World) (params : ℕ → IssueTokensParams) → Keeps S (issue_direct documented w params)
  unfolding issue_direct
  issue_direct-Keeps w params = record {
    keeps = (issue_by-Keeps w params w.direct_client_id).keeps;
  }

  finish_pending-Keeps :
      (i : Identity) (mfas : List Mfa) (policy : Option TenantPolicy) (x : Session)
      → Keeps S (finish_pending documented i mfas policy x)
  unfolding finish_pending
  finish_pending-Keeps i mfas policy x =
      Keeps-then (update_session-Keeps x.id _) (Keeps-then (Keeps-start _) (Keeps-pure _))

  finish_issued-Keeps :
      (w : World) (ctx : Ctx) (i : Identity) (x : Session)
      → Keeps S (finish_issued documented w ctx i x)
  unfolding finish_issued
  finish_issued-Keeps w ctx i x =
      Keeps-bind (issue_direct-Keeps w _)
        λ tokens. Keeps-then (Keeps-start _) (Keeps-then (Keeps-start _) (Keeps-pure _))

  finish-Keeps :
      (w : World) (ctx : Ctx) (i : Identity) (mfas : List Mfa) (policy : Option TenantPolicy)
      (x : Session)
      → Keeps S (finish documented w ctx i mfas policy x)
  unfolding finish
  finish-Keeps w ctx i mfas policy x = record {
    keeps = λ s h. elim (Bool-cases (needs_mfa mfas policy)) [
      | inl e ↦ rw (e) ((finish_pending-Keeps i mfas policy x).keeps s h)
      | inr e ↦ rw (e) ((finish_issued-Keeps w ctx i x).keeps s h)
    ];
  }

  login_session-Keeps :
      (w : World) (input : LoginInput) (ctx : Ctx) (i : Identity) (a : LocalAccount)
      → Keeps S (login_session documented w input ctx i a)
  unfolding login_session
  login_session-Keeps w input ctx i a =
      Keeps-then (Keeps-start (Effect.clear_attempts input.email)) (
        Keeps-bind (Keeps-reads (active_mfas documented i.id)) λ mfas.
          Keeps-bind (Keeps-reads (policy_for documented ctx.tenant_id)) λ policy.
            Keeps-bind (create-Keeps w (session_input i a policy))
              λ x. finish-Keeps w ctx i mfas policy x)

  login_password-Keeps :
      (w : World) (input : LoginInput) (ctx : Ctx) (i : Identity) (a : LocalAccount)
      → Keeps S (login_password documented w input ctx i a)
  unfolding login_password
  login_password-Keeps w input ctx i a = record {
    keeps = λ s h. elim (Bool-cases (w.argon2_verify a.password_hash input.password)) [
      | inl e ↦ rw (e) ((login_session-Keeps w input ctx i a).keeps s h)
      | inr e ↦ rw (e) h
    ];
  }

  login_account-Keeps :
      (w : World) (input : LoginInput) (ctx : Ctx) (i : Identity) (a : LocalAccount)
      → Keeps S (login_account documented w input ctx i a)
  unfolding login_account
  login_account-Keeps w input ctx i a = record { keeps = λ s h. by_status i.status s h }
    where
      by_status :
          (x : UserStatus) (s : State)
          → S s.db
          → S (state_of (login_account documented w input ctx (record i { status = x }) a s)).db
      by_status UserStatus.active s h = (login_password-Keeps w input ctx _ a).keeps s h
      by_status UserStatus.pending s h = (login_password-Keeps w input ctx _ a).keeps s h
      by_status UserStatus.inactive s h = (login_password-Keeps w input ctx _ a).keeps s h
      by_status UserStatus.suspended s h = h
      by_status UserStatus.banned s h = h
      by_status UserStatus.deleted s h = h

  login_found-Keeps :
      (w : World) (input : LoginInput) (ctx : Ctx) (o : Option (Identity × LocalAccount))
      → Keeps S (login_found documented w input ctx o)
  unfolding login_found
  login_found-Keeps w input ctx none = record { keeps = λ s h. h }
  login_found-Keeps w input ctx (some (i, a)) = login_account-Keeps w input ctx i a

  pub login-Keeps :
      (w : World) (input : LoginInput) (ctx : Ctx) → Keeps S (login documented w input ctx)
  unfolding login
  login-Keeps w input ctx = record {
    keeps = λ s h. elim (Bool-cases ((check_lockout w.redis w.now input.email s.store).locked)) [
      | inl e ↦ rw (e) h
      | inr e ↦
          rw (e)
            ((login_found-Keeps w input ctx (find_for_auth documented input.email s.db)).keeps s h)
    ];
  }

  promote-Keeps : (id : ℕ) → Keeps S (promote_to_aal2 documented id)
  unfolding promote_to_aal2
  promote-Keeps id = update_session-Keeps id _

  promote_and_issue-Keeps :
      (w : World) (ctx : Ctx) (x : Session) → Keeps S (promote_and_issue documented w ctx x)
  unfolding promote_and_issue
  promote_and_issue-Keeps w ctx x = Keeps-then (promote-Keeps x.id) (
      Keeps-bind (issue_direct-Keeps w _)
        λ o. Keeps-bind (Keeps-or_throw o _) λ tokens. Keeps-then (Keeps-start _) (Keeps-pure _))

  verify_code-Keeps :
      (w : World) (input : MfaInput) (ctx : Ctx) (x : Session) (secret : ℕ)
      → Keeps S (verify_code documented w input ctx x secret)
  unfolding verify_code
  verify_code-Keeps w input ctx x secret = record {
    keeps = λ s h. elim (Bool-cases (w.totp_verify secret input.code)) [
      | inl e ↦ rw (e) ((promote_and_issue-Keeps w ctx x).keeps s h)
      | inr e ↦ rw (e) h
    ];
  }

  verify_by-Keeps :
      (w : World) (input : MfaInput) (ctx : Ctx) (x : Session) (o : Option ℕ)
      → Keeps S (verify_by documented w input ctx x o)
  unfolding verify_by
  verify_by-Keeps w input ctx x none = record { keeps = λ s h. h }
  verify_by-Keeps w input ctx x (some secret) = record {
    keeps = (verify_code-Keeps w input ctx x secret).keeps;
  }

  verify_with-Keeps :
      (w : World) (input : MfaInput) (ctx : Ctx) (x : Session)
      → Keeps S (verify_with documented w input ctx x)
  unfolding verify_with
  verify_with-Keeps w input ctx x = record {
    keeps = λ s h.
        (verify_by-Keeps w input ctx x (totp_secret documented x.identity_id s.db)).keeps s h;
  }

  verify_session-Keeps :
      (w : World) (input : MfaInput) (ctx : Ctx) (o : Option Session)
      → Keeps S (verify_session documented w input ctx o)
  unfolding verify_session
  verify_session-Keeps w input ctx none = record { keeps = λ s h. h }
  verify_session-Keeps w input ctx (some x) = record {
    keeps = λ s h. if_kept x.valid _ _ ((verify_with-Keeps w input ctx x).keeps s h) h;
  }

  pub mfa_verify-Keeps :
      (w : World) (input : MfaInput) (ctx : Ctx) → Keeps S (mfa_verify documented w input ctx)
  unfolding mfa_verify
  mfa_verify-Keeps w input ctx = record {
    keeps = λ s h.
        (verify_session-Keeps w input ctx
            (find (λ (x : Session). x.id == input.session_id) s.db.sessions)).keeps
          s h;
  }
