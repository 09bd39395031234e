-- ===== src/EmailToken/Calls.antt =====
-- A value that no unconsumed e-mail token has, but some token, stays so.
use arc_id.Base.{
  ℕ, ◌≡◌, refl, Bool, true, false, ◌&&◌, ◌||◌, not, Option, none, some, List, [], ◌∷◌, ◌++◌, ◌==◌,
  find, any, modify, count, arith, Bool-cases, inl, inr,
}
use arc_id.Db.{TokenType, EmailToken}
use arc_id.Db.Prisma.{Prisma, documented}
use arc_id.Flow.Monad.{State, state_of}
use arc_id.Flow.World.{World}
use arc_id.EmailToken.{is_outstanding, consumed, add_token, issue_token, is_redeemable, consume}

pub data Call : Type 0 where
  issued : World → ℕ → TokenType → ℕ → Option ℕ → Call
  redeemed : World → ℕ → TokenType → Call

abbrev pub served : Prisma → Call → State → State
served q (issued w identity_id type ttl_hours tenant) s =
    state_of (issue_token q w identity_id type ttl_hours tenant s)
served q (redeemed w token type) s = state_of (consume q w token type s)

-- Calls one after another, whether they succeed or fail.
abbrev pub served_all : Prisma → List Call → State → State
served_all q [] s = s
served_all q (c ∷ cs) s = served_all q cs (served q c s)

abbrev pub is_open : ℕ → EmailToken → Bool
is_open token t = t.token == token && not t.consumed

-- The value is taken, and no row of it is unconsumed.
abbrev pub Used : ℕ → List EmailToken → Type 0
Used token ts = (any (λ t. t.token == token) ts ≡ true) × (count (is_open token) ts ≡ 0)

taken-modify :
    (token : ℕ) (p : EmailToken → Bool) (ts : List EmailToken)
    → any (λ t. t.token == token) (modify p consumed ts) ≡ any (λ t. t.token == token) ts
taken-modify token p [] = refl
taken-modify token p (t ∷ ts) = ground (arith, taken-modify token p ts)

pub unused-modify :
    (token : ℕ) (p : EmailToken → Bool) (ts : List EmailToken)
    → count (is_open token) ts ≡ 0
    → count (is_open token) (modify p consumed ts) ≡ 0
unused-modify token p [] h = refl
unused-modify token p (t ∷ ts) h = ground (arith, unused-modify token p ts)

Used-modify :
    (token : ℕ) (p : EmailToken → Bool) (ts : List EmailToken)
    → Used token ts
    → Used token (modify p consumed ts)
Used-modify token p ts h = (rw (taken-modify token p ts) h.0, unused-modify token p ts h.1)

-- A row that clashes with none has another value.
other_value :
    (token : ℕ) (row : EmailToken) (ts : List EmailToken)
    → any (λ t. t.token == token) ts ≡ true
    → any (λ t. t.token == row.token || t.id == row.id) ts ≡ false
    → row.token == token ≡ false
other_value token row [] h k = absurd (ground arith)
other_value token row (t ∷ ts) h k = elim (Bool-cases (t.token == token)) [
  | inl e ↦ ground arith
  | inr e ↦ other_value token row ts (ground arith) (ground arith)
]

Used-append :
    (token : ℕ) (row : EmailToken) (ts : List EmailToken)
    → Used token ts
    → row.token == token ≡ false
    → Used token (ts ++ row ∷ [])
Used-append token row [] h k = absurd (ground (arith, h.0))
Used-append token row (t ∷ ts) h k = (any-append (t ∷ ts) h.0, none-append (t ∷ ts) h.1)
  where
    any-append :
        (us : List EmailToken)
        → any (λ t. t.token == token) us ≡ true
        → any (λ t. t.token == token) (us ++ row ∷ []) ≡ true
    any-append [] h = absurd (ground arith)
    any-append (u ∷ us) h = ground (arith, any-append us)

    none-append :
        (us : List EmailToken)
        → count (is_open token) us ≡ 0
        → count (is_open token) (us ++ row ∷ []) ≡ 0
    none-append [] h = ground (arith, k)
    none-append (u ∷ us) h = ground (arith, none-append us)

add_token-Used :
    (token : ℕ) (row : EmailToken) (s : State)
    → Used token s.db.email_tokens
    → Used token (state_of (add_token documented row s)).db.email_tokens
unfolding add_token
add_token-Used token row s h =
    elim (Bool-cases (any (λ t. t.token == row.token || t.id == row.id) s.db.email_tokens)) [
      | inl e ↦ rw (e, state_of) h
      | inr e ↦
          rw (e, state_of)
            (Used-append token row s.db.email_tokens h
              (other_value token row s.db.email_tokens h.0 e))
    ]

found-Used :
    (token : ℕ) (w : World) (value : ℕ) (type : TokenType) (s : State) (o : Option EmailToken)
    → find (is_redeemable w value type) s.db.email_tokens ≡ o
    → Used token s.db.email_tokens
    → Used token (state_of (consume documented w value type s)).db.email_tokens
unfolding consume
found-Used token w value type s none f h = rw (f, state_of) h
found-Used token w value type s (some t) f h =
    rw (f, state_of) (Used-modify token (λ x. x.id == t.id) s.db.email_tokens h)

served-Used :
    (token : ℕ) (c : Call) (s : State)
    → Used token s.db.email_tokens
    → Used token (served documented c s).db.email_tokens
unfolding issue_token
served-Used token (issued w identity_id type ttl_hours tenant) s h =
    add_token-Used token _ _
      (Used-modify token (is_outstanding identity_id type tenant) s.db.email_tokens h)
served-Used token (redeemed w value type) s h = found-Used token w value type s _ refl h

pub served_all-Used :
    (token : ℕ) (cs : List Call) (s : State)
    → Used token s.db.email_tokens
    → Used token (served_all documented cs s).db.email_tokens
served_all-Used token [] s h = h
served_all-Used token (c ∷ cs) s h =
    served_all-Used token cs (served documented c s) (served-Used token c s h)
