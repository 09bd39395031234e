-- ===== src/Authorize/Redeemed.antt =====
-- A code that an authorization issued is accepted by the exchange.
use arc_id.Base.{
  ℕ, ◌+◌, ◌≤◌, ◌<◌, ◌≡◌, refl, Bool, true, false, ◌&&◌, ◌||◌, not, String, Option, none, some, List,
  [], ◌∷◌, ◌++◌, ltb, ◌==◌, any, is_some, find, count, get_or, arith, Bool-cases, inl, inr, ==_self,
  find_sound, subst, ◌∙◌,
}
use arc_id.Db.{Client, AuthorizationCode, Session, Db}
use arc_id.Db.Prisma.{Prisma, IsDocumented, documented, documented-IsDocumented, by_documentation}
use arc_id.Flow.Monad.{Flow, State, ok, ◌>>=◌, ◌>>◌, start, pure, audit}
use arc_id.Flow.World.{World, Ctx}
use arc_id.Exchange.{
  ExchangeInput, is_usable, redirect_allowed, secret_error, pkce_error, verify_pkce, state_matches,
  throw_some, check_request, issue_for_code, find_code, client_of, exchange_with, exchange_found,
  token_exchange, exchange_params, newest_session, consume_code,
}
use arc_id.Token.Issue.{TokenBundle, issue}
use arc_id.Authorize.{AuthorizeInput, issued, find_by_client_id, new_code, requested, authorize}
use arc_id.Authorize.Laws.{Issued, authorize-Issued}

-- The request that a client makes with the code.
abbrev pub redemption : AuthorizeInput → ℕ → Option ℕ → Option ℕ → ExchangeInput
redemption input code secret verifier = record {
  code = code;
  redirect_uri = some input.redirect_uri;
  client_id = input.client_id;
  client_secret = secret;
  code_verifier = verifier;
  state = input.state;
}

-- The proof fits the challenge of the authorization, if it had one.
abbrev pub Fits : World → Option ℕ → Option ℕ → Type 0
Fits w none verifier = Unit {0}
Fits w (some challenge) none = false ≡ true
Fits w (some challenge) (some v) = w.sha256_base64url v ≡ challenge

abbrev pub UniqueIds : List Client → Type 0
UniqueIds cs = (id : ℕ) → count (λ c. c.id == id) cs ≤ 1

unused_code :
    (w : World) (code id : ℕ) (cs : List AuthorizationCode)
    → any (λ x. x.code == code || x.id == id) cs ≡ false
    → find (is_usable w code) cs ≡ none
unused_code w code id [] e = refl
unused_code w code id (c ∷ cs) e = ground (arith, unused_code w code id cs)

find-appended :
    (w : World) (code : ℕ) (a : AuthorizationCode) (cs : List AuthorizationCode)
    → find (is_usable w code) cs ≡ none
    → is_usable w code a ≡ true
    → find (is_usable w code) (cs ++ a ∷ []) ≡ some a
find-appended w code a [] n h = ground arith
find-appended w code a (c ∷ cs) n h = ground (arith, find-appended w code a cs)

found_counted :
    (p : Client → Bool) (cs : List Client) (c : Client)
    → find p cs ≡ some c
    → 1 ≤ count (λ x. x.id == c.id) cs
found_counted p [] c f = absurd (ground arith)
found_counted p (x ∷ xs) c f = elim (Bool-cases (p x)) [
  | inl k ↦ ground (arith, ==_self c.id)
  | inr k ↦ ground (arith, found_counted p xs c)
]

found_by_id :
    (p : Client → Bool) (cs : List Client) (c : Client)
    → count (λ x. x.id == c.id) cs ≤ 1
    → find p cs ≡ some c
    → find (λ x. x.id == c.id) cs ≡ some c
found_by_id p [] c u f = absurd (ground arith)
found_by_id p (x ∷ xs) c u f = elim (Bool-cases (p x)) [
  | inl k ↦ ground (arith, ==_self c.id)
  | inr k ↦ ground (arith, found_by_id p xs c, found_counted p xs c)
]

registered_any :
    (uri : ℕ) (uris : List ℕ)
    → ltb 0 (count (λ u. u == uri) uris) ≡ true
    → any (λ u. u == uri) uris ≡ true
registered_any uri [] h = absurd (ground arith)
registered_any uri (u ∷ us) h = ground (arith, registered_any uri us)

client-named :
    (k : ℕ) (tenant : Option ℕ) (db : Db) (c : Client)
    → find_by_client_id documented k tenant db ≡ some c
    → (c.client_id == k ≡ true)
      × (UniqueIds db.clients → find (λ x. x.id == c.id) db.clients ≡ some c)
unfolding find_by_client_id
client-named k none db c f =
    (find_sound _ db.clients c f, λ u. found_by_id _ db.clients c (u c.id) f)
client-named k (some t) db c f =
    (ground (arith, find_sound _ db.clients c f), λ u. found_by_id _ db.clients c (u c.id) f)

pkce_passes :
    (w : World) (required : Bool) (method : Option String) (challenge verifier : Option ℕ)
    → get_or method "S256" ≡ "S256"
    → required && not (is_some challenge) ≡ false
    → Fits w challenge verifier
    → pkce_error w required challenge method verifier ≡ none
unfolding pkce_error verify_pkce
pkce_passes w required method none verifier m r p = ground arith
pkce_passes w required method (some ch) none m r p = absurd (ground (arith, p))
pkce_passes w required method (some ch) (some v) m r p = rw (m, p) (ground (arith, ==_self ch))

state_passes : (o : Option ℕ) → state_matches o o ≡ true
unfolding state_matches
state_passes none = refl
state_passes (some st) = ==_self st

-- All the checks of the exchange pass.
request_passes :
    (w : World) (x : ExchangeInput) (a : AuthorizationCode) (c : Client) (t : State)
    → c.client_id == x.client_id ≡ true
    → redirect_allowed x.redirect_uri c.redirect_uris ≡ true
    → secret_error w c.is_public c.client_secret x.client_secret ≡ none
    → pkce_error w c.require_pkce a.code_challenge a.code_challenge_method x.code_verifier ≡ none
    → state_matches a.state x.state ≡ true
    → check_request w x a c t ≡ ok tt t
unfolding check_request throw_some
request_passes w x a c t h₁ h₂ h₃ h₄ h₅ = ground arith

exchange_passes :
    (w : World) (x : ExchangeInput) (ctx : Ctx) (a : AuthorizationCode) (c : Client) (t : State)
    → find (is_usable w x.code) t.db.codes ≡ some a
    → find (λ y. y.id == a.client_id) t.db.clients ≡ some c
    → check_request w x a c t ≡ ok tt t
    → token_exchange documented w x ctx t ≡ issue_for_code documented w ctx a c t
unfolding token_exchange find_code exchange_found client_of exchange_with
exchange_passes w x ctx a c t f g h = ground arith

redeemed :
    (w v : World) (input : AuthorizeInput) (ctx later : Ctx) (s u t : State) (c : Client) {code : ℕ}
    {state : Option ℕ} (secret verifier : Option ℕ)
    → UniqueIds s.db.clients
    → find_by_client_id documented input.client_id ctx.tenant_id s.db ≡ some c
    → secret_error v c.is_public c.client_secret secret ≡ none
    → get_or input.code_challenge_method "S256" ≡ "S256"
    → Fits v input.code_challenge verifier
    → v.now < w.now + 300000
    → t.db.codes ≡ u.db.codes
    → t.db.clients ≡ u.db.clients
    → (i : Issued w input ctx s u code state)
    → token_exchange documented v (redemption input code secret verifier) later t
      ≡ issue_for_code documented v later
          (new_code w input i.identity_id c (requested input c) i.row_id code)
          c
          t
unfolding redirect_allowed
redeemed w v input ctx later s u t c {code} secret verifier unique f secret_ok method fits now same
      kept i =
    let is_c : i.client ≡ c = ground (arith, i.found, f) in
    let (named, by_id) = client-named input.client_id ctx.tenant_id s.db c f in
    let row : AuthorizationCode =
      new_code w input i.identity_id c (requested input c) i.row_id code in
    let rows : t.db.codes ≡ s.db.codes ++ row ∷ [] =
      subst
        (λ k.
          t.db.codes
          ≡ s.db.codes ++ new_code w input i.identity_id k (requested input k) i.row_id code ∷ [])
        is_c (same ∙ i.rows) in
    exchange_passes v (redemption input code secret verifier) later row c t
      (rw (rows) (
        find-appended v code row s.db.codes (unused_code v code i.row_id s.db.codes i.unused)
          (ground (arith, ==_self code, now))))
      (rw (kept, i.same_clients) (by_id unique))
      (request_passes v (redemption input code secret verifier) row c t named
        (registered_any input.redirect_uri c.redirect_uris (
          subst
            (λ (k : Client). ltb 0 (count (λ u. u == input.redirect_uri) k.redirect_uris) ≡ true)
            is_c i.registered))
        secret_ok
        (pkce_passes v c.require_pkce input.code_challenge_method input.code_challenge verifier
          method
          (subst (λ (k : Client). k.require_pkce && not (is_some input.code_challenge) ≡ false) is_c
            i.proof_key)
          fits)
        (state_passes input.state))

-- The row of the code, by its identifier.
abbrev pub issued_row : World → AuthorizeInput → ℕ → Client → ℕ → ℕ → AuthorizationCode
issued_row w input n c row_id code = new_code w input n c (requested input c) row_id code

-- What is left of an exchange after its checks: the tokens, and the audit.
abbrev pub issue_and_audit :
    Prisma → World → Ctx → AuthorizationCode → Client → Session → Flow TokenBundle
issue_and_audit q v ctx a c x = issue q v (exchange_params ctx a c x) >>= λ b.
    start (audit "SESSION_CREATED" (some a.identity_id)) >> pure b

issues :
    (v : World) (ctx : Ctx) (a : AuthorizationCode) (c : Client) (x : Session) (t : State)
    → newest_session documented a.identity_id t.db ≡ some x
    → issue_for_code documented v ctx a c t
      ≡ issue_and_audit documented v ctx a c x (record t { db = consume_code documented a.id t.db })
unfolding issue_for_code
issues v ctx a c x t e = ground arith

-- A code that an authorization issued is good: where client identifiers are unique, an exchange with
-- it within five minutes, while the rows of codes and clients are as the authorization left them, by
-- the client that it was issued for, with that client's secret if it needs one and, if there was a
-- challenge, which must be an S256 one, a verifier that fits it, passes every check of the request;
-- and where the identity has a valid session, the code is consumed, and the exchange ends as the issue
-- of tokens for the code's row, the client and the newest session ends.
pub authorize-token_exchange :
    (q : Prisma)
    → IsDocumented q
    → (w v : World) (input : AuthorizeInput) (ctx later : Ctx) (s u t : State) (c : Client) (n : ℕ)
      (x : Session) {code : ℕ} {state : Option ℕ} (secret verifier : Option ℕ)
    → UniqueIds s.db.clients
    → find_by_client_id q input.client_id ctx.tenant_id s.db ≡ some c
    → secret_error v c.is_public c.client_secret secret ≡ none
    → get_or input.code_challenge_method "S256" ≡ "S256"
    → Fits v input.code_challenge verifier
    → v.now < w.now + 300000
    → t.db.codes ≡ u.db.codes
    → t.db.clients ≡ u.db.clients
    → ctx.identity_id ≡ some n
    → newest_session q n t.db ≡ some x
    → authorize q w input ctx s ≡ ok (issued code state) u
    → (row_id : ℕ) × (token_exchange q v (redemption input code secret verifier) later t
        ≡ issue_and_audit q v later
            (issued_row w input n c row_id code)
            c
            x
            (record t { db = consume_code q row_id t.db }))
authorize-token_exchange q d w v input ctx later s u t c n x {code} {state} secret verifier unique f
      secret_ok method fits now same kept by live =
    by_documentation
      (λ q.
        find_by_client_id q input.client_id ctx.tenant_id s.db ≡ some c
        → newest_session q n t.db ≡ some x
        → authorize q w input ctx s ≡ ok (issued code state) u
        → (row_id : ℕ) × (token_exchange q v (redemption input code secret verifier) later t
            ≡ issue_and_audit q v later (issued_row w input n c row_id code) c x
                (record t { db = consume_code q row_id t.db })))
      d
      (λ f live e.
        let i = authorize-Issued documented documented-IsDocumented w input ctx s {u = u} e in
        let caller : i.identity_id ≡ n = ground (arith, i.authenticated, by) in
        let passed =
          redeemed w v input ctx later s u t c secret verifier unique f secret_ok method fits now
            same kept i in
        (
          i.row_id,
          subst
                (λ m.
                  token_exchange documented v (redemption input code secret verifier) later t
                  ≡ issue_for_code documented v later (issued_row w input m c i.row_id code) c t)
                caller passed
              ∙ issues v later (issued_row w input n c i.row_id code) c x t live,
        ))
      f live
