-- ===== src/Authorize/Laws.antt =====
-- What an authorization that issues a code has checked, and the code's row.
use arc_id.Base.{
  ℕ, ◌+◌, ◌≡◌, refl, true, false, ◌&&◌, ◌||◌, not, String, Option, none, some, List, [], ◌∷◌, ◌++◌,
  ltb, ◌==◌, all, any, is_some, find, count, arith, Option-cases, Bool-cases, inl, inr,
}
use arc_id.Db.{Client, AuthorizationCode, OAuthConsent, Db}
use arc_id.Db.Prisma.{Prisma, IsDocumented, documented, by_documentation}
use arc_id.Flow.Monad.{State, ok}
use arc_id.Flow.World.{World, Ctx}
use arc_id.Token.Issue.{includes}
use arc_id.Authorize.{
  AuthorizeInput, issued, find_by_client_id, is_granted, covers, has_consent, demands_login,
  forces_consent, too_old, newest_live, needs_reauth, new_code, issue_code, authorize_scopes,
  requested, authorize_client, authorize_found, authorize,
}

-- The consent that an identity gave a client, not withdrawn, with every requested scope.
pub record HasConsent (identity_id client_id : ℕ) (scopes : List String) (db : Db) : Type 0 where
  pub consent : OAuthConsent
  pub given : find (is_granted identity_id client_id) db.consents ≡ some consent
  pub covered : all (λ s. includes s consent.scopes) scopes ≡ true

-- What holds of a request, its client and the new code.
pub record Issued (w : World) (input : AuthorizeInput) (ctx : Ctx) (s u : State) (code : ℕ)
    (state : Option ℕ) : Type 0 where
  pub identity_id : ℕ
  pub authenticated : ctx.identity_id ≡ some identity_id
  pub client : Client
  pub found : find_by_client_id documented input.client_id ctx.tenant_id s.db ≡ some client
  pub registered : ltb 0 (count (λ u. u == input.redirect_uri) client.redirect_uris) ≡ true
  pub proof_key : client.require_pkce && not (is_some input.code_challenge) ≡ false
  pub no_login : demands_login input.prompt ≡ false
  pub no_screen : forces_consent input.prompt ≡ false
  pub fresh : too_old w input.max_age (newest_live documented w identity_id s.db) ≡ false
  pub consent : HasConsent identity_id client.id (requested input client) s.db
  pub row_id : ℕ
  pub unused : any (λ x. x.code == code || x.id == row_id) s.db.codes ≡ false
  pub rows :
      u.db.codes
      ≡ s.db.codes ++ new_code w input identity_id client (requested input client) row_id code ∷ []
  pub same_state : state ≡ input.state
  pub same_clients : u.db.clients ≡ s.db.clients

covers-some :
    (scopes : List String) (o : Option OAuthConsent)
    → covers scopes o ≡ true
    → (c : OAuthConsent) × (o ≡ some c) × (all (λ s. includes s c.scopes) scopes ≡ true)
unfolding covers
covers-some scopes none e = absurd (ground arith)
covers-some scopes (some c) e = (c, refl, e)

has_consent-HasConsent :
    (n k : ℕ) (scopes : List String) (db : Db)
    → has_consent documented n k scopes db ≡ true
    → HasConsent n k scopes db
unfolding has_consent
has_consent-HasConsent n k scopes db e =
    let (c, f, h) = covers-some scopes _ e in record { consent = c; given = f; covered = h }

record Coded (w : World) (input : AuthorizeInput) (n : ℕ) (c : Client) (scopes : List String)
    (s u : State) (code : ℕ) (state : Option ℕ) : Type 0 where
  row_id : ℕ
  unused : any (λ x. x.code == code || x.id == row_id) s.db.codes ≡ false
  rows : u.db.codes ≡ s.db.codes ++ new_code w input n c scopes row_id code ∷ []
  same_state : state ≡ input.state
  same_clients : u.db.clients ≡ s.db.clients

issue_code-Coded :
    (w : World) (input : AuthorizeInput) (n : ℕ) (c : Client) (scopes : List String) (s : State)
    {code : ℕ} {state : Option ℕ} {u : State}
    → issue_code documented w input n c scopes s ≡ ok (issued code state) u
    → Coded w input n c scopes s u code state
unfolding issue_code
issue_code-Coded w input n c scopes s {code} {state} {u} e =
    let id : ℕ = w.random (s.drawn + 1) in
    let drawn : ℕ = w.random s.drawn in
    elim (Bool-cases (any (λ (x : AuthorizationCode). x.code == drawn || x.id == id) s.db.codes)) [
      | inl k ↦ absurd (ground arith)
      | inr k ↦ record {
        row_id = id;
        unused = ground arith;
        rows = ground arith;
        same_state = ground arith;
        same_clients = ground arith;
      }
    ]

scopes-Coded :
    (w : World) (input : AuthorizeInput) (n : ℕ) (c : Client) (scopes : List String) (s : State)
    {code : ℕ} {state : Option ℕ} {u : State}
    → authorize_scopes documented w input n c scopes s ≡ ok (issued code state) u
    → (forces_consent input.prompt ≡ false)
      × (has_consent documented n c.id scopes s.db ≡ true)
      × (issue_code documented w input n c scopes s ≡ ok (issued code state) u)
unfolding authorize_scopes
scopes-Coded w input n c scopes s e = (ground arith, ground arith, ground arith)

record Passed (w : World) (input : AuthorizeInput) (n : ℕ) (c : Client) (s u : State) (code : ℕ)
    (state : Option ℕ) : Type 0 where
  registered : ltb 0 (count (λ u. u == input.redirect_uri) c.redirect_uris) ≡ true
  proof_key : c.require_pkce && not (is_some input.code_challenge) ≡ false
  no_login : demands_login input.prompt ≡ false
  fresh : too_old w input.max_age (newest_live documented w n s.db) ≡ false
  rest : authorize_scopes documented w input n c (requested input c) s ≡ ok (issued code state) u

client-Passed :
    (w : World) (input : AuthorizeInput) (n : ℕ) (c : Client) (s : State) {code : ℕ}
    {state : Option ℕ} {u : State}
    → authorize_client documented w input n c s ≡ ok (issued code state) u
    → Passed w input n c s u code state
unfolding authorize_client needs_reauth
client-Passed w input n c s e = record {
  registered = ground arith;
  proof_key = ground arith;
  no_login = ground arith;
  fresh = ground arith;
  rest = ground arith;
}

found-Issued :
    (w : World) (input : AuthorizeInput) (ctx : Ctx) (n : ℕ) (o : Option Client) (s : State)
    {code : ℕ} {state : Option ℕ} {u : State}
    → ctx.identity_id ≡ some n
    → find_by_client_id documented input.client_id ctx.tenant_id s.db ≡ o
    → authorize_found documented w input n o s ≡ ok (issued code state) u
    → Issued w input ctx s u code state
unfolding authorize_found
found-Issued w input ctx n none s h f e = absurd (ground arith)
found-Issued w input ctx n (some c) s h f e =
    let p = client-Passed w input n c s e in
    let (screen, consented, run) = scopes-Coded w input n c (requested input c) s p.rest in
    let coded = issue_code-Coded w input n c (requested input c) s run in
    record {
      identity_id = n;
      authenticated = h;
      client = c;
      found = f;
      registered = p.registered;
      proof_key = p.proof_key;
      no_login = p.no_login;
      no_screen = screen;
      fresh = p.fresh;
      consent = has_consent-HasConsent n c.id (requested input c) s.db consented;
      row_id = coded.row_id;
      unused = coded.unused;
      rows = coded.rows;
      same_state = coded.same_state;
      same_clients = coded.same_clients;
    }

authorize-cases :
    (w : World) (input : AuthorizeInput) (ctx : Ctx) (s : State) {code : ℕ} {state : Option ℕ}
    {u : State}
    → authorize documented w input ctx s ≡ ok (issued code state) u
    → Issued w input ctx s u code state
unfolding authorize
authorize-cases w input ctx s {code} {state} {u} e = elim (Option-cases ctx.identity_id) [
  | inl k ↦ absurd (ground arith)
  | inr (n, k) ↦
      found-Issued w input ctx n (find_by_client_id documented input.client_id ctx.tenant_id s.db) s
        {code = code} {state = state} {u = u} k refl (ground arith)
]

-- An authorization that issues a code was asked by an identity, for a client of its tenant or of the
-- platform and a redirect URI registered for it, with a challenge where the client requires one, with
-- no prompt that demands a login or the consent screen, and with a consent that covers every
-- requested scope. Where it has a `max_age`, the identity's newest live session is no older, or there
-- is no live session and the `max_age` is not zero. The code is a new one, and its row records the
-- request and ends after five minutes.
pub authorize-Issued :
    (q : Prisma)
    → IsDocumented q
    → (w : World) (input : AuthorizeInput) (ctx : Ctx) (s : State) {code : ℕ} {state : Option ℕ}
      {u : State}
    → authorize q w input ctx s ≡ ok (issued code state) u
    → Issued w input ctx s u code state
authorize-Issued q d w input ctx s {code} {state} {u} =
    by_documentation
      (λ q.
        authorize q w input ctx s ≡ ok (issued code state) u → Issued w input ctx s u code state)
      d (authorize-cases w input ctx s)
