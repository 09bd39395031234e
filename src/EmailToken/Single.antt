-- ===== src/EmailToken/Single.antt =====
-- E-mail tokens are single: one outstanding for its purpose, one redemption.
use arc_id.Base.{
  ℕ, ◌+◌, ◌≤◌, ◌≡◌, refl, Bool, true, Option, none, some, List, [], ◌∷◌, ◌==◌, find, modify, count,
  arith, Bool-cases, inl, inr, ==_self, count-append, find_sound, ◌∙◌,
}
use arc_id.Db.{TokenType, EmailToken}
use arc_id.Db.Prisma.{Prisma, IsDocumented, documented, by_documentation}
use arc_id.Flow.Errors.{bad_request_error}
use arc_id.Flow.Monad.{State, ok, err}
use arc_id.Flow.World.{World}
use arc_id.EmailToken.Calls.{Call, served_all, is_open, Used, unused-modify, served_all-Used}
use arc_id.EmailToken.{
  type_eq, is_outstanding, consumed, new_token, add_token, issue_token, is_redeemable, consume,
}

abbrev pub redeemed : ℕ → List EmailToken → List EmailToken
redeemed id ts = modify (λ x. x.id == id) consumed ts

unused_counted :
    (token : ℕ) (ts : List EmailToken)
    → count (λ x. x.token == token) ts ≡ 0
    → count (is_open token) ts ≡ 0
unused_counted token [] h = refl
unused_counted token (t ∷ ts) h = ground (arith, unused_counted token ts)

found_counted :
    (w : World) (token : ℕ) (type : TokenType) (ts : List EmailToken) (a : EmailToken)
    → find (is_redeemable w token type) ts ≡ some a
    → 1 ≤ count (λ x. x.token == token) ts
found_counted w token type [] a f = absurd (ground arith)
found_counted w token type (t ∷ ts) a f = ground (arith, found_counted w token type ts a)

all_consumed :
    (w : World) (token : ℕ) (type : TokenType) (ts : List EmailToken) (a : EmailToken)
    → count (λ x. x.token == token) ts ≤ 1
    → find (is_redeemable w token type) ts ≡ some a
    → Used token (redeemed a.id ts)
all_consumed w token type [] a few f = absurd (ground arith)
all_consumed w token type (t ∷ ts) a few f = elim (Bool-cases (is_redeemable w token type t)) [
  | inl e ↦ (
    ground arith,
    ground
        (arith, ==_self t.id, unused-modify token (λ x. x.id == a.id) ts, unused_counted token ts),
  )
  | inr e ↦
      let rest =
        all_consumed w token type ts a (ground (arith, found_counted w token type ts a))
          (ground arith) in
      (ground (arith, rest.0), ground (arith, found_counted w token type ts a, rest.1))
]

none_redeemable :
    (later : World) (token : ℕ) (other : TokenType) (ts : List EmailToken)
    → count (is_open token) ts ≡ 0
    → find (is_redeemable later token other) ts ≡ none
none_redeemable later token other [] h = refl
none_redeemable later token other (t ∷ ts) h = ground (arith, none_redeemable later token other ts)

-- What a redemption found, and that the token is refused from then on, for every use, after any calls.
abbrev pub Redeems : Prisma → World → ℕ → TokenType → State → EmailToken → State → Type 0
Redeems q w token type s t u =
    (is_redeemable w token type t ≡ true)
    × ((calls : List Call) (later : World) (other : TokenType)
        → consume q later token other (served_all q calls u)
          ≡ err (bad_request_error "Token is invalid or has expired") (served_all q calls u))

consume-ok :
    (w : World) (token : ℕ) (type : TokenType) (s : State) {t : EmailToken} {u : State}
    → consume documented w token type s ≡ ok t u
    → (find (is_redeemable w token type) s.db.email_tokens ≡ some t)
      × (u.db.email_tokens ≡ redeemed t.id s.db.email_tokens)
unfolding consume
consume-ok w token type s e = (ground arith, ground arith)

consume-none :
    (w : World) (token : ℕ) (type : TokenType) (s : State)
    → find (is_redeemable w token type) s.db.email_tokens ≡ none
    → consume documented w token type s
      ≡ err (bad_request_error "Token is invalid or has expired") s
unfolding consume
consume-none w token type s e = ground arith

documented-Redeems :
    (w : World) (token : ℕ) (type : TokenType) (s : State) {t : EmailToken} {u : State}
    → count (λ x. x.token == token) s.db.email_tokens ≤ 1
    → consume documented w token type s ≡ ok t u
    → Redeems documented w token type s t u
documented-Redeems w token type s {t} {u} few e =
    let (f, rows) = consume-ok w token type s e in
    (
      find_sound (is_redeemable w token type) s.db.email_tokens t f,
      λ calls later other.
          let used : Used token u.db.email_tokens =
            rw (rows) (all_consumed w token type s.db.email_tokens t few f) in
          consume-none later token other (served_all documented calls u) (
            none_redeemable later token other (served_all documented calls u).db.email_tokens
              (served_all-Used token calls u used).1),
    )

-- Where token values are unique, a redemption that succeeds was of a token of that value and type,
-- unconsumed and unexpired, and every later redemption of the value is refused, for any type and at
-- any time, whatever tokens are issued and redeemed in between, successfully or not.
pub consume-Redeems :
    (q : Prisma)
    → IsDocumented q
    → (w : World) (token : ℕ) (type : TokenType) (s : State) {t : EmailToken} {u : State}
    → count (λ x. x.token == token) s.db.email_tokens ≤ 1
    → consume q w token type s ≡ ok t u
    → Redeems q w token type s t u
consume-Redeems q d w token type s {t} {u} few =
    by_documentation (λ p. consume p w token type s ≡ ok t u → Redeems p w token type s t u) d
      (documented-Redeems w token type s few)

outstanding-replaced :
    (identity_id : ℕ) (type : TokenType) (tenant : Option ℕ) (ts : List EmailToken)
    → count
        (is_outstanding identity_id type tenant)
        (modify (is_outstanding identity_id type tenant) consumed ts)
      ≡ 0
outstanding-replaced identity_id type tenant [] = refl
outstanding-replaced identity_id type tenant (t ∷ ts) =
    ground (arith, outstanding-replaced identity_id type tenant ts)

add_token-count :
    (p : EmailToken → Bool) (row : EmailToken) (s : State) {token : ℕ} {u : State}
    → add_token documented row s ≡ ok token u
    → (count p u.db.email_tokens ≡ count p s.db.email_tokens + count p (row ∷ []))
unfolding add_token
add_token-count p row s e = ground (arith, count-append p s.db.email_tokens (row ∷ []))

type_eq_self : (type : TokenType) → type_eq type type ≡ true
type_eq_self TokenType.verify_email = refl
type_eq_self TokenType.reset_password = refl
type_eq_self TokenType.magic_link = refl
type_eq_self TokenType.tenant_invite = refl

new-outstanding :
    (w : World) (identity_id : ℕ) (type : TokenType) (ttl_hours : ℕ) (tenant : Option ℕ)
    (id token : ℕ)
    → is_outstanding identity_id type tenant
        (new_token w identity_id type ttl_hours tenant id token)
      ≡ true
new-outstanding w identity_id type ttl_hours none id token =
    ground (arith, ==_self identity_id, type_eq_self type)
new-outstanding w identity_id type ttl_hours (some tenant) id token =
    ground (arith, ==_self identity_id, ==_self tenant, type_eq_self type)

documented-single :
    (w : World) (identity_id : ℕ) (type : TokenType) (ttl_hours : ℕ) (tenant : Option ℕ) (s : State)
    {token : ℕ} {u : State}
    → issue_token documented w identity_id type ttl_hours tenant s ≡ ok token u
    → count (is_outstanding identity_id type tenant) u.db.email_tokens ≡ 1
unfolding issue_token
documented-single w identity_id type ttl_hours tenant s e =
    let row =
      new_token w identity_id type ttl_hours tenant (w.random (s.drawn + 1)) (w.random s.drawn) in
    let counted = add_token-count (is_outstanding identity_id type tenant) row _ e in
    counted
    ∙ rw
        (
          outstanding-replaced identity_id type tenant s.db.email_tokens,
          new-outstanding w identity_id type ttl_hours tenant (w.random (s.drawn + 1))
              (w.random s.drawn),
        )
        refl

-- After an issue the new token is the only unused one of its identity, type and (for a tenant's
-- token) tenant.
pub issue_token-single :
    (q : Prisma)
    → IsDocumented q
    → (w : World) (identity_id : ℕ) (type : TokenType) (ttl_hours : ℕ) (tenant : Option ℕ)
      (s : State) {token : ℕ} {u : State}
    → issue_token q w identity_id type ttl_hours tenant s ≡ ok token u
    → count (is_outstanding identity_id type tenant) u.db.email_tokens ≡ 1
issue_token-single q d w identity_id type ttl_hours tenant s {token} {u} =
    by_documentation
      (λ p.
        issue_token p w identity_id type ttl_hours tenant s ≡ ok token u
        → count (is_outstanding identity_id type tenant) u.db.email_tokens ≡ 1)
      d (documented-single w identity_id type ttl_hours tenant s)
