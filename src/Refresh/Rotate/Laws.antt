-- ===== src/Refresh/Rotate/Laws.antt =====
-- Rotation: what a refresh that succeeds has done, and what becomes of a spent token.
use arc_id.Base.{
  ℕ, ◌≡◌, ◌<◌, refl, true, false, ◌&&◌, not, Option, some, String, List, [], ◌∷◌, ◌==◌, find,
  modify, subst, ◌∙◌, arith, Option-cases, inl, inr, get_or,
}
use arc_id.Db.{Aal, RefreshToken, Identity, Client}
use arc_id.Db.Prisma.{documented}
use arc_id.Flow.Monad.{State, ok, >>=-eq-ok, ◌>>◌}
use arc_id.Flow.World.{World, Ctx}
use arc_id.Flow.Keeps.{Keeps, Keeps-ok}
use arc_id.Token.Issue.{TokenBundle, IssueTokensParams, issue}
use arc_id.Token.Issue.Lineage.{issue-lineage}
use arc_id.Token.Issue.Keeps.{issue-Keeps}
use arc_id.Refresh.KillChain.{trigger_kill_chain}
use arc_id.Refresh.Rotate.{
  resolve_token, check_usable, check_status, swap_revoked, scopes_now, child_params, issue_child,
  rotate_for, rotate, rotate_checked, token_refresh,
}
use arc_id.Refresh.Spent.{Spent, spent_in, spent_in-append}

pub issue-Spent :
    (raw : ℕ) (w : World) (p : IssueTokensParams) → Keeps (Spent raw) (issue documented w p)
issue-Spent raw w p = issue-Keeps (λ ts. spent_in raw ts ≡ true) (spent_in-append raw) w p

pub resolve_token-ok :
    (raw : ℕ) (s : State) {t : RefreshToken} {u : State}
    → resolve_token documented raw s ≡ ok t u
    → (u ≡ s) × (find (λ r. r.token == raw) s.db.refresh_tokens ≡ some t)
unfolding resolve_token
resolve_token-ok raw s e = (ground arith, ground arith)

pub check_usable-ok :
    (w : World) (raw : ℕ) (t : RefreshToken) (s : State) {u : State}
    → check_usable documented w raw t s ≡ ok tt u
    → (u ≡ s) × (t.revoked ≡ false) × (w.now < t.expires_at)
unfolding check_usable trigger_kill_chain
check_usable-ok w raw t s e = (ground arith, ground arith, ground arith)

pub check_status-ok :
    (o : Option Identity) (s : State) {u : State} → check_status o s ≡ ok tt u → u ≡ s
unfolding check_status
check_status-ok o s e = ground arith

-- The compare-and-swap revokes the row that the raw token finds.
swapped-spent :
    (raw now : ℕ) (t : RefreshToken) (ts : List RefreshToken)
    → find (λ r. r.token == raw) ts ≡ some t
    → t.revoked ≡ false
    → spent_in raw (
        modify
          (λ r. r.id == t.id && not r.revoked)
          (λ r. record r { revoked = true; rotated_at = some now })
          ts)
      ≡ true
swapped-spent raw now t [] f live = ground arith
swapped-spent raw now t (x ∷ xs) f live = ground (arith, swapped-spent raw now t xs)

swap_revoked-Spent :
    (w : World) (raw : ℕ) (t : RefreshToken) (s : State) {u : State}
    → find (λ r. r.token == raw) s.db.refresh_tokens ≡ some t
    → t.revoked ≡ false
    → swap_revoked documented w raw t s ≡ ok tt u
    → Spent raw u.db
unfolding swap_revoked trigger_kill_chain
swap_revoked-Spent w raw t s f live e =
    ground (arith, swapped-spent raw w.now t s.db.refresh_tokens f live)

-- What a rotation has established: the token's row, that it was usable, that it is spent now, and
-- the child's row.
pub record Rotated (w : World) (raw : ℕ) (s : State) (b : TokenBundle) (u : State) : Type 0 where
  pub parent : RefreshToken
  pub listed : find (λ r. r.token == raw) s.db.refresh_tokens ≡ some parent
  pub live : parent.revoked ≡ false
  pub unexpired : w.now < parent.expires_at
  pub spent : Spent raw u.db
  pub child : RefreshToken
  pub found : find (λ r. r.token == b.refresh_token) u.db.refresh_tokens ≡ some child
  pub family : child.family_id ≡ parent.family_id
  pub lineage : child.parent_jti ≡ some parent.jti
  pub session : child.session_id ≡ some (get_or parent.session_id parent.id)
  pub fresh : child.revoked ≡ false

module _ (w : World) (raw : ℕ) (ctx : Ctx) (t : RefreshToken) (s : State)
    (listed : find (λ r. r.token == raw) s.db.refresh_tokens ≡ some t) (live : t.revoked ≡ false)
    (unexpired : w.now < t.expires_at) where
  issued-Rotated :
      (c : Client) (scopes : List String) (level : Option Aal) (v : State) {b : TokenBundle}
      {u : State}
      → Spent raw v.db
      → issue documented w (child_params ctx t c scopes level) v ≡ ok b u
      → Rotated w raw s b u
  issued-Rotated c scopes level v spent e =
      let (child, found, family, lineage, session, fresh) =
        issue-lineage w (child_params ctx t c scopes level) t.family_id v refl e in
      record {
        parent = t;
        listed = listed;
        live = live;
        unexpired = unexpired;
        spent = Keeps-ok (issue-Spent raw w _) e spent;
        child = child;
        found = found;
        family = family;
        lineage = lineage;
        session = session;
        fresh = fresh;
      }

  rotate_for-Rotated :
      (c : Client) {b : TokenBundle} {u : State}
      → rotate_for documented w ctx raw t c s ≡ ok b u
      → Rotated w raw s b u
  unfolding rotate_for issue_child
  rotate_for-Rotated c e =
      let (_, v, e₁, k₁) =
        >>=-eq-ok (swap_revoked documented w raw t)
          (λ _. issue_child documented w ctx t c (scopes_now documented t c s.db)) {s = s} e in
      issued-Rotated c _ _ v (swap_revoked-Spent w raw t s listed live e₁) k₁

  rotate-Rotated :
      {b : TokenBundle} {u : State} → rotate documented w ctx raw t s ≡ ok b u → Rotated w raw s b u
  unfolding rotate
  rotate-Rotated e = elim (Option-cases (find (λ c. c.id == t.client_id) s.db.clients)) [
    | inl missing ↦ absurd (ground arith)
    | inr (c, found) ↦ rotate_for-Rotated c (ground arith)
  ]

  rotate_checked-Rotated :
      {b : TokenBundle} {u : State}
      → rotate_checked documented w ctx raw t s ≡ ok b u
      → Rotated w raw s b u
  unfolding rotate_checked
  rotate_checked-Rotated {b} {u} e =
      let i = find (λ (i : Identity). i.id == t.identity_id) s.db.identities in
      let (_, v, e₁, k₁) =
        >>=-eq-ok (check_status i) (λ _. rotate documented w ctx raw t) {s = s} e in
      rotate-Rotated
        (subst (λ x. rotate documented w ctx raw t x ≡ ok b u) (check_status-ok i s e₁) k₁)

-- A refresh that succeeds was given a listed, live, unexpired token; that token is spent in the new
-- database, and the token handed out is a live child of it: same family, the parent's jti as its
-- parent, the parent's session (or the parent's row, if it has none).
pub token_refresh-Rotated :
    (w : World) (raw : ℕ) (ctx : Ctx) (s : State) {b : TokenBundle} {u : State}
    → token_refresh documented w raw ctx s ≡ ok b u
    → Rotated w raw s b u
unfolding token_refresh
token_refresh-Rotated w raw ctx s {b} {u} e =
    let (t, s₁, e₁, k₁) =
      >>=-eq-ok (resolve_token documented raw)
        (λ t. check_usable documented w raw t >> rotate_checked documented w ctx raw t) {s = s} e in
    let (_, s₂, e₂, k₂) =
      >>=-eq-ok (check_usable documented w raw t) (λ _. rotate_checked documented w ctx raw t)
        {s = s₁} k₁ in
    let (same₁, listed) = resolve_token-ok raw s e₁ in
    let (same₂, live, unexpired) = check_usable-ok w raw t s₁ e₂ in
    rotate_checked-Rotated w raw ctx t s listed live unexpired
      (subst (λ x. rotate_checked documented w ctx raw t x ≡ ok b u) (same₂ ∙ same₁) k₂)
