-- ===== src/System/Kept.antt =====
-- Every request keeps an invariant of the database.
use arc_id.Base.{
  ℕ, ◌≡◌, refl, true, ◌==◌, List, [], ◌∷◌, find, Option-cases, inl, inr, arith, subst, sym, ◌∙◌,
}
use arc_id.Db.{Client, Identity, RefreshToken, Db}
use arc_id.Db.Prisma.{documented, documented-IsDocumented}
use arc_id.Flow.Monad.{State, Result, ok, err, state_of, >>=-eq-ok, ◌>>◌}
use arc_id.Flow.World.{World, Ctx}
use arc_id.Flow.Executor.{run, run-err-db, run-false-state, run-ok, resolved}
use arc_id.Flow.Monad.{Flow}
use arc_id.Flow.Keeps.{Keeps-ok}
use arc_id.Token.Issue.{TokenBundle}
use arc_id.Refresh.Rotate.{
  resolve_token, check_usable, check_status, scopes_now, swap_revoked, issue_child, rotate_for,
  rotate, rotate_checked, token_refresh,
}
use arc_id.Refresh.Rotate.Laws.{resolve_token-ok, check_usable-ok, check_status-ok}
use arc_id.Exchange.{ExchangeInput, token_exchange}
use arc_id.Exchange.Laws.{token_exchange-Exchanged}
use arc_id.System.{Request, refresh, exchange, log_in, verify, Call, served, serve_all}
use arc_id.System.Accounts.{login-Keeps, mfa_verify-Keeps}
use arc_id.System.Invariant.{IsInvariant}
use arc_id.Login.{login}
use arc_id.Login.Verify.{mfa_verify}

module _ {S : Db → Type 0} (inv : IsInvariant S) where
  -- Refresh, on success: the state of the checks, the swap, and the issue.
  rotate_for-keeps :
      (w : World) (ctx : Ctx) (other : ℕ) (t : RefreshToken) (c : Client) (s : State)
      {b : TokenBundle} {u : State}
      → S s.db
      → rotate_for documented w ctx other t c s ≡ ok b u
      → S u.db
  unfolding rotate_for issue_child
  rotate_for-keeps w ctx other t c s h e =
      let (_, v, e₁, k₁) =
        >>=-eq-ok (swap_revoked documented w other t)
          (λ _. issue_child documented w ctx t c (scopes_now documented t c s.db)) {s = s} e in
      Keeps-ok (inv.issued w _) k₁ (inv.swapped w other t s h e₁)

  rotate-keeps :
      (w : World) (ctx : Ctx) (other : ℕ) (t : RefreshToken) (s : State) {b : TokenBundle}
      {u : State}
      → S s.db
      → rotate documented w ctx other t s ≡ ok b u
      → S u.db
  unfolding rotate
  rotate-keeps w ctx other t s {b} {u} h e =
      elim (Option-cases (find (λ (c : Client). c.id == t.client_id) s.db.clients)) [
        | inl missing ↦ absurd (ground arith)
        | inr (c, found) ↦ rotate_for-keeps w ctx other t c s {b = b} {u = u} h (ground arith)
      ]

  token_refresh-keeps :
      (w : World) (other : ℕ) (ctx : Ctx) (s : State) {b : TokenBundle} {u : State}
      → S s.db
      → token_refresh documented w other ctx s ≡ ok b u
      → S u.db
  unfolding token_refresh rotate_checked
  token_refresh-keeps w other ctx s {b} {u} h e =
      let (t, s₁, e₁, k₁) =
        >>=-eq-ok (resolve_token documented other)
          (λ t. check_usable documented w other t >> rotate_checked documented w ctx other t)
          {s = s} e in
      let (_, s₂, e₂, k₂) =
        >>=-eq-ok (check_usable documented w other t) (λ _. rotate_checked documented w ctx other t)
          {s = s₁} k₁ in
      let same₁ = (resolve_token-ok other s e₁).0 in
      let same₂ = (check_usable-ok w other t s₁ e₂).0 in
      let i = find (λ (i : Identity). i.id == t.identity_id) s₂.db.identities in
      let (_, s₃, e₃, k₃) =
        >>=-eq-ok (check_status i) (λ _. rotate documented w ctx other t) {s = s₂} k₂ in
      let same₃ = check_status-ok i s₂ e₃ in
      rotate-keeps w ctx other t s₃ (subst (λ x. S x.db) (sym (same₃ ∙ same₂ ∙ same₁)) h) k₃

  token_exchange-keeps :
      (w : World) (input : ExchangeInput) (ctx : Ctx) (s : State) {b : TokenBundle} {u : State}
      → S s.db
      → token_exchange documented w input ctx s ≡ ok b u
      → S u.db
  token_exchange-keeps w input ctx s h e =
      let x = token_exchange-Exchanged documented documented-IsDocumented w input ctx s e in
      subst (λ db. S db) (sym x.kept)
        (Keeps-ok (inv.issued w _) x.issued (inv.consumed x.code.id s.db h))

  -- In a transaction a flow that throws leaves the database alone.
  run-keeps :
      {A : Type 0} (w : World) (flow : Ctx → Flow A) (ctx : Ctx) (s : State)
      → S s.db
      → ((a : A) (u : State) → flow (resolved w ctx) s ≡ ok a u → S u.db)
      → (r : Result A) → run documented w flow ctx true s ≡ r
      → S (state_of r).db
  run-keeps w flow ctx s h k (ok a u) e = k a u (run-ok w flow ctx true s e)
  run-keeps w flow ctx s h k (err x u) e = subst (λ db. S db) (sym (run-err-db w flow ctx s e)) h

  kept_by_served :
      (w : World) (ctx : Ctx) (r : Request) (s : State)
      → S s.db
      → S (served documented w ctx r s).db
  kept_by_served w ctx (refresh other) s h =
      run-keeps w (token_refresh documented w other) ctx s h
        (λ a u e. token_refresh-keeps w other (resolved w ctx) s h e) _ refl
  kept_by_served w ctx (exchange input) s h =
      run-keeps w (token_exchange documented w input) ctx s h
        (λ a u e. token_exchange-keeps w input (resolved w ctx) s h e) _ refl
  kept_by_served w ctx (log_in input) s h =
      subst (λ x. S x.db) (sym (run-false-state w (login documented w input) ctx s))
        ((login-Keeps inv w input (resolved w ctx)).keeps s h)
  kept_by_served w ctx (verify input) s h =
      run-keeps w (mfa_verify documented w input) ctx s h
        (λ a u e. Keeps-ok (mfa_verify-Keeps inv w input (resolved w ctx)) e h) _ refl

  pub kept_by_all : (calls : List Call) (s : State) → S s.db → S (serve_all documented calls s).db
  kept_by_all [] s h = h
  kept_by_all (c ∷ cs) s h =
      kept_by_all cs (served documented c.world c.ctx c.request s)
        (kept_by_served c.world c.ctx c.request s h)
