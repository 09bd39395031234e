-- ===== src/Exchange/Laws.antt =====
-- What a code exchange that succeeds has checked, and the client that it issues for.
use arc_id.Base.{
  ℕ, ◌≡◌, true, Option, none, some, ◌==◌, find, Option-cases, inl, inr, arith, subst, ◌∙◌,
}
use arc_id.Db.{Client, Session, AuthorizationCode}
use arc_id.Db.Prisma.{Prisma, IsDocumented, documented, by_documentation}
use arc_id.Flow.Errors.{Thrown}
use arc_id.Flow.Monad.{State, ok, >>=-eq-ok, ◌>>◌, ◌>>=◌, pure, start, audit, or_throw}
use arc_id.Flow.World.{World, Ctx}
use arc_id.Token.Issue.{TokenBundle, IssueTokensParams, Drafts, prepare, issue}
use arc_id.Exchange.{
  ExchangeInput, is_usable, redirect_allowed, secret_error, pkce_error, state_matches,
  check_request, consume_code, newest_session, exchange_params, issue_for_code, find_code,
  client_of, exchange_with, exchange_found, token_exchange,
}

-- What holds between a request, the code and the code's client.
pub record Authorised (w : World) (input : ExchangeInput) (a : AuthorizationCode) (c : Client)
    : Type 0 where
  pub client : c.client_id ≡ input.client_id
  pub redirect : redirect_allowed input.redirect_uri c.redirect_uris ≡ true
  pub secret : secret_error w c.is_public c.client_secret input.client_secret ≡ none
  pub pkce :
      pkce_error w c.require_pkce a.code_challenge a.code_challenge_method input.code_verifier
      ≡ none
  pub state : state_matches a.state input.state ≡ true

-- The client that an issue runs for is the one whose public identifier it was given.
prepare-client :
    (w : World) (p : IssueTokensParams) (s : State) {d : Drafts} {u : State}
    → prepare documented w p s ≡ ok d u
    → (c : Client) × (find (λ x. x.client_id == p.client_id) s.db.clients ≡ some c)
unfolding prepare
prepare-client w p s e =
    elim (Option-cases (find (λ (x : Client). x.client_id == p.client_id) s.db.clients)) [
      | inl k ↦ absurd (ground arith)
      | inr (c, k) ↦ (c, k)
    ]

check_request-ok :
    (w : World) (input : ExchangeInput) (a : AuthorizationCode) (c : Client) (s : State) {u : State}
    → check_request w input a c s ≡ ok tt u
    → Authorised w input a c × (u ≡ s)
unfolding check_request
check_request-ok w input a c s e = (
  record {
    client = ground arith;
    redirect = ground arith;
    secret = ground arith;
    pkce = ground arith;
    state = ground arith;
  },
  ground arith,
)

issue-client :
    (w : World) (p : IssueTokensParams) (s : State) {b : TokenBundle} {u : State}
    → issue documented w p s ≡ ok b u
    → (c : Client) × (find (λ x. x.client_id == p.client_id) s.db.clients ≡ some c)
unfolding issue
issue-client w p s e =
    let (d, t, e₁, k₁) = >>=-eq-ok (prepare documented w p) _ {s = s} e in prepare-client w p s e₁

or_throw-ok :
    {A : Type 0} (o : Option A) (e : Thrown) (s : State) {a : A} {u : State}
    → or_throw o e s ≡ ok a u
    → (o ≡ some a) × (u ≡ s)
or_throw-ok none e s h = absurd (ground arith)
or_throw-ok (some x) e s h = (ground arith, ground arith)

-- What an exchange that succeeds has found and checked, and the client it issued for, which it
-- looks up by the public identifier. `x` is the session of the tokens.
pub record Exchanged (q : Prisma) (w : World) (input : ExchangeInput) (ctx : Ctx) (s : State)
    (b : TokenBundle) (u : State) : Type 0 where
  pub code : AuthorizationCode
  pub client : Client
  pub session : Session
  pub usable : find (is_usable w input.code) s.db.codes ≡ some code
  pub owner : find (λ c. c.id == code.client_id) s.db.clients ≡ some client
  pub authorised : Authorised w input code client
  pub newest : newest_session q code.identity_id s.db ≡ some session
  pub issued_for : Client
  pub same_name : find (λ c. c.client_id == code.client_id) s.db.clients ≡ some issued_for
  pub issued_in : State
  pub issued :
      issue q w
        (exchange_params ctx code client session)
        (record s { db = consume_code q code.id s.db })
      ≡ ok b issued_in
  pub kept : u.db ≡ issued_in.db

issue_for_code-ok :
    (w : World) (input : ExchangeInput) (ctx : Ctx) (a : AuthorizationCode) (c : Client) (s : State)
    {b : TokenBundle} {u : State}
    → find (is_usable w input.code) s.db.codes ≡ some a
    → find (λ x. x.id == a.client_id) s.db.clients ≡ some c
    → Authorised w input a c
    → issue_for_code documented w ctx a c s ≡ ok b u
    → Exchanged documented w input ctx s b u
unfolding issue_for_code
issue_for_code-ok w input ctx a c s {b} {u} f g h e =
    let s₁ : State = record s { db = consume_code documented a.id s.db } in
    let (x, s₂, e₁, k₁) =
      >>=-eq-ok (or_throw (newest_session documented a.identity_id s₁.db) _)
        (λ x. issue documented w (exchange_params ctx a c x) >>= λ b.
          start (audit "SESSION_CREATED" (some a.identity_id)) >> pure b)
        {s = s₁} e in
    let (there, same) = or_throw-ok (newest_session documented a.identity_id s₁.db) _ s₁ e₁ in
    let (b₁, s₃, e₂, k₂) =
      >>=-eq-ok (issue documented w (exchange_params ctx a c x))
        (λ b. start (audit "SESSION_CREATED" (some a.identity_id)) >> pure b) {s = s₂} k₁ in
    let run : issue documented w (exchange_params ctx a c x) s₁ ≡ ok b s₃ = ground arith in
    let (other, named) = issue-client w (exchange_params ctx a c x) s₁ run in
    record {
      code = a;
      client = c;
      session = x;
      usable = f;
      owner = g;
      authorised = h;
      newest = there;
      issued_for = other;
      same_name = named;
      issued_in = s₃;
      issued = run;
      kept = ground arith;
    }

find_code-ok :
    (w : World) (code : ℕ) (s : State) {a : AuthorizationCode} {u : State}
    → find_code documented w code s ≡ ok a u
    → (find (is_usable w code) s.db.codes ≡ some a) × (u ≡ s)
unfolding find_code
find_code-ok w code s e = or_throw-ok (find (is_usable w code) s.db.codes) _ s e

client_of-ok :
    (a : AuthorizationCode) (s : State) {c : Client} {u : State}
    → client_of documented a s ≡ ok c u
    → (find (λ x. x.id == a.client_id) s.db.clients ≡ some c) × (u ≡ s)
unfolding client_of
client_of-ok a s e = or_throw-ok (find (λ (x : Client). x.id == a.client_id) s.db.clients) _ s e

exchange_found-ok :
    (w : World) (input : ExchangeInput) (ctx : Ctx) (a : AuthorizationCode) (s : State)
    {b : TokenBundle} {u : State}
    → find (is_usable w input.code) s.db.codes ≡ some a
    → exchange_found documented w input ctx a s ≡ ok b u
    → Exchanged documented w input ctx s b u
unfolding exchange_found exchange_with
exchange_found-ok w input ctx a s {b} {u} f e =
    let (c, s₁, e₁, k₁) =
      >>=-eq-ok (client_of documented a) (exchange_with documented w input ctx a) {s = s} e in
    let (g, same₁) = client_of-ok a s e₁ in
    let (_, s₂, e₂, k₂) =
      >>=-eq-ok (check_request w input a c) (λ _. issue_for_code documented w ctx a c) {s = s₁}
        k₁ in
    let (h, same₂) = check_request-ok w input a c s₁ e₂ in
    issue_for_code-ok w input ctx a c s f g h
      (subst (λ x. issue_for_code documented w ctx a c x ≡ ok b u) (same₂ ∙ same₁) k₂)

documented-Exchanged :
    (w : World) (input : ExchangeInput) (ctx : Ctx) (s : State) {b : TokenBundle} {u : State}
    → token_exchange documented w input ctx s ≡ ok b u
    → Exchanged documented w input ctx s b u
unfolding token_exchange
documented-Exchanged w input ctx s {b} {u} e =
    let (a, s₁, e₁, k₁) =
      >>=-eq-ok (find_code documented w input.code) (exchange_found documented w input ctx) {s = s}
        e in
    let (f, same) = find_code-ok w input.code s e₁ in
    exchange_found-ok w input ctx a s f
      (subst (λ x. exchange_found documented w input ctx a x ≡ ok b u) same k₁)

-- A code exchange that succeeds found an unconsumed, unexpired code and the client of its row; the
-- request's client, redirect URI, secret, proof key and state passed their checks; the tokens were
-- issued in the database with the code consumed, for the newest valid session. They were issued for
-- a client whose public identifier equals the row identifier of the code's client.
pub token_exchange-Exchanged :
    (q : Prisma)
    → IsDocumented q
    → (w : World) (input : ExchangeInput) (ctx : Ctx) (s : State) {b : TokenBundle} {u : State}
    → token_exchange q w input ctx s ≡ ok b u
    → Exchanged q w input ctx s b u
token_exchange-Exchanged q d w input ctx s {b} {u} =
    by_documentation (λ p. token_exchange p w input ctx s ≡ ok b u → Exchanged p w input ctx s b u)
      d (documented-Exchanged w input ctx s)
