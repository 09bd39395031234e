-- ===== src/Token/Issue/Lineage.antt =====
-- The refresh token that an issue hands out: its row, its family and its parent.
use arc_id.Base.{ℕ, ◌≡◌, false, ◌||◌, some, List, [], ◌∷◌, ◌++◌, ◌==◌, any, find, arith, ==_self}
use arc_id.Db.{RefreshToken}
use arc_id.Db.Prisma.{documented}
use arc_id.Flow.Monad.{State, ok, >>=-eq-ok}
use arc_id.Flow.World.{World}
use arc_id.Token.Issue.{IssueTokensParams, Drafts, TokenBundle, prepare, commit, issue}

find-new :
    (r : RefreshToken) (ts : List RefreshToken)
    → any (λ t. t.token == r.token || t.jti == r.jti) ts ≡ false
    → find (λ t. t.token == r.token) (ts ++ r ∷ []) ≡ some r
find-new r [] h = ground (arith, ==_self r.token)
find-new r (t ∷ ts) h = ground (arith, find-new r ts)

-- A row that would repeat a unique column is never written; the new row is found by its token.
commit-found :
    (p : IssueTokensParams) (d : Drafts) (s : State) {u : State}
    → commit documented p d s ≡ ok tt u
    → find (λ t. t.token == d.refresh.token) u.db.refresh_tokens ≡ some d.refresh
unfolding commit
commit-found p d s e = ground (arith, find-new d.refresh s.db.refresh_tokens)

prepare-lineage :
    (w : World) (p : IssueTokensParams) (family : ℕ) (s : State) {d : Drafts} {u : State}
    → p.family_id ≡ some family
    → prepare documented w p s ≡ ok d u
    → (d.refresh.family_id ≡ family)
      × (d.refresh.parent_jti ≡ p.parent_jti)
      × (d.refresh.session_id ≡ some p.session_id)
      × (d.refresh.revoked ≡ false)
unfolding prepare
prepare-lineage w p family s f e = (ground arith, ground arith, ground arith, ground arith)

-- With a family given, the new row has that family, the given parent and the given session, is not
-- revoked, and is found by the token of the bundle.
pub issue-lineage :
    (w : World) (p : IssueTokensParams) (family : ℕ) (s : State) {b : TokenBundle} {u : State}
    → p.family_id ≡ some family
    → issue documented w p s ≡ ok b u
    → (r : RefreshToken) × (find (λ t. t.token == b.refresh_token) u.db.refresh_tokens ≡ some r)
      × (r.family_id ≡ family)
      × (r.parent_jti ≡ p.parent_jti)
      × (r.session_id ≡ some p.session_id)
      × (r.revoked ≡ false)
unfolding issue
issue-lineage w p family s {b} {u} f e =
    let (d, s₁, e₁, k₁) = >>=-eq-ok (prepare documented w p) _ e in
    let (_, s₂, e₂, k₂) = >>=-eq-ok (commit documented p d) _ k₁ in
    let (same_family, parent, session, live) = prepare-lineage w p family s f e₁ in
    let found = commit-found p d s₁ e₂ in
    (d.refresh, ground arith, same_family, parent, session, live)
