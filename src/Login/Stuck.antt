-- ===== src/Login/Stuck.antt =====
-- A login that waits for a second factor, and what `mfaVerifyFlow` answers to it.
use arc_id.Base.{
  ℕ, ◌≡◌, refl, true, false, not, Option, none, some, List, [], ◌∷◌, ◌==◌, find, count, modify, map,
  ◌&&◌, Bool-cases, inl, inr, arith,
}
use arc_id.Db.{Identity, LocalAccount, Mfa, TenantPolicy, Session}
use arc_id.Db.Prisma.{Prisma, IsDocumented, documented, by_documentation}
use arc_id.Flow.Errors.{unauthorized_error}
use arc_id.Flow.Monad.{State, ok, err, >>=-eq-ok, ◌>>◌, pure, start, audit, Effect}
use arc_id.Flow.World.{World, Ctx}
use arc_id.Session.{create, update_session}
use arc_id.Login.{
  LoginInput, LoginOutput, finish_pending, finish_issued, finish, login_session, login,
  session_input, policy_for, active_mfas, needs_mfa, requires_by_policy, is_empty, issue_direct,
  login_params,
}
use arc_id.Login.Laws.{login-Admitted}
use arc_id.Login.Verify.{MfaInput, mfa_verify, verify_session}

-- The session that waits is listed, and not valid.
abbrev pub Pending : LoginOutput → State → Type 0
Pending out u =
    (x : Session) × (find (λ (y : Session). y.id == out.session_id) u.db.sessions ≡ some x)
    × (x.valid ≡ false)

find-invalidated :
    (id : ℕ) (xs : List Session)
    → (count (λ y. y.id == id) xs == 0) ≡ false
    → (x : Session) × (find
          (λ y. y.id == id)
          (modify (λ y. y.id == id) (λ y. record y { valid = false }) xs)
        ≡ some x)
      × (x.valid ≡ false)
find-invalidated id [] h = absurd (ground arith)
find-invalidated id (y ∷ ys) h = elim (Bool-cases (y.id == id)) [
  | inl e ↦ (record y { valid = false }, ground arith, refl)
  | inr e ↦ let (x, f, v) = find-invalidated id ys (ground arith) in (x, ground arith, v)
]

update_session-ok :
    (id : ℕ) (f : Session → Session) (s : State) {u : State}
    → update_session documented id f s ≡ ok tt u
    → ((count (λ y. y.id == id) s.db.sessions == 0) ≡ false)
      × (u.db.sessions ≡ modify (λ y. y.id == id) f s.db.sessions)
unfolding update_session
update_session-ok id f s e = (ground arith, ground arith)

-- Everything after the update.
abbrev pended : Identity → List Mfa → Option TenantPolicy → Session → LoginOutput
pended i mfas policy x = record {
  identity_id = i.id;
  session_id = x.id;
  requires_mfa = true;
  mfa_enrollment_required = requires_by_policy policy && is_empty mfas && not i.has_passkey;
  mfa_types = map (λ m. m.type) mfas;
  tokens = none;
}

finish_pending-Pending :
    (i : Identity) (mfas : List Mfa) (policy : Option TenantPolicy) (x : Session) (s : State)
    {out : LoginOutput} {u : State}
    → finish_pending documented i mfas policy x s ≡ ok out u
    → Pending out u × (out.tokens ≡ none)
unfolding finish_pending
finish_pending-Pending i mfas policy x s {out} {u} e =
    let (_, t, e₁, k₁) =
      >>=-eq-ok (update_session documented x.id (λ y. record y { valid = false }))
        (λ _. start (audit "SESSION_CREATED" (some i.id)) >> pure (pended i mfas policy x)) {s = s}
        e in
    let (there, rows) = update_session-ok x.id (λ y. record y { valid = false }) s e₁ in
    let (y, f, v) = find-invalidated x.id s.db.sessions there in
    ((y, ground arith, v), ground arith)

finish_issued_complete :
    (w : World) (ctx : Ctx) (i : Identity) (x : Session) (s : State) {out : LoginOutput} {u : State}
    → finish_issued documented w ctx i x s ≡ ok out u
    → out.requires_mfa ≡ false
unfolding finish_issued
finish_issued_complete w ctx i x s e =
    let (tokens, t, e₁, k₁) =
      >>=-eq-ok (issue_direct documented w (login_params ctx i x)) _ {s = s} e in
    ground arith

finish-Pending :
    (w : World) (ctx : Ctx) (i : Identity) (mfas : List Mfa) (policy : Option TenantPolicy)
    (x : Session) (s : State) {out : LoginOutput} {u : State}
    → finish documented w ctx i mfas policy x s ≡ ok out u
    → out.requires_mfa ≡ true
    → Pending out u × (out.tokens ≡ none)
unfolding finish
finish-Pending w ctx i mfas policy x s {out} {u} e h = elim (Bool-cases (needs_mfa mfas policy)) [
  | inl k ↦ finish_pending-Pending i mfas policy x s {out = out} {u = u} (ground arith)
  | inr k ↦
      let complete = finish_issued_complete w ctx i x s {out = out} {u = u} (ground arith) in
      absurd (ground arith)
]

login_session-Pending :
    (w : World) (input : LoginInput) (ctx : Ctx) (i : Identity) (a : LocalAccount) (s : State)
    {out : LoginOutput} {u : State}
    → login_session documented w input ctx i a s ≡ ok out u
    → out.requires_mfa ≡ true
    → Pending out u × (out.tokens ≡ none)
unfolding login_session
login_session-Pending w input ctx i a s {out} {u} e h =
    let mfas = active_mfas documented i.id s.db in
    let policy = policy_for documented ctx.tenant_id s.db in
    let (x, t, e₁, k₁) =
      >>=-eq-ok (create documented w (session_input i a policy))
        (finish documented w ctx i mfas policy)
        {s = record s { effects = Effect.clear_attempts input.email ∷ s.effects }} e in
    finish-Pending w ctx i mfas policy x t k₁ h

login-Pending :
    (w : World) (input : LoginInput) (ctx : Ctx) (s : State) {out : LoginOutput} {u : State}
    → login documented w input ctx s ≡ ok out u
    → out.requires_mfa ≡ true
    → Pending out u × (out.tokens ≡ none)
login-Pending w input ctx s e h =
    let a = login-Admitted documented w input ctx s e in
    login_session-Pending w input ctx a.identity a.account s a.session h

-- The login's state refuses the second factor: there are no tokens, and a verification of the
-- session fails the same way whatever the code.
abbrev pub Stuck : Prisma → LoginOutput → State → Type 0
Stuck q out u =
    (out.tokens ≡ none)
    × ((later : World) (input : MfaInput) (ctx : Ctx)
        → input.session_id ≡ out.session_id
        → mfa_verify q later input ctx u ≡ err (unauthorized_error "Session is no longer valid") u)

Pending-Stuck :
    (out : LoginOutput) (u : State) → Pending out u → out.tokens ≡ none → Stuck documented out u
unfolding mfa_verify verify_session
Pending-Stuck out u (x, f, v) no_tokens = (no_tokens, λ later input ctx same. rw (same, f, v) refl)

-- A login that requires a second factor hands out no tokens, and from the state it leaves the TOTP
-- verification of its session is refused with "Session is no longer valid", whatever the code: the
-- login marks the session invalid and the verification asks for a valid one.
pub login-Stuck :
    (q : Prisma)
    → IsDocumented q
    → (w : World) (input : LoginInput) (ctx : Ctx) (s : State) {out : LoginOutput} {u : State}
    → login q w input ctx s ≡ ok out u
    → out.requires_mfa ≡ true
    → Stuck q out u
login-Stuck q d w input ctx s {out} {u} =
    by_documentation
      (λ p. login p w input ctx s ≡ ok out u → out.requires_mfa ≡ true → Stuck p out u) d
      (λ e h. let (p, n) = login-Pending w input ctx s e h in Pending-Stuck out u p n)
