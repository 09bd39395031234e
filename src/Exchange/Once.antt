-- ===== src/Exchange/Once.antt =====
-- An authorization code buys tokens once.
use arc_id.Base.{
  ℕ, ◌≤◌, ◌≡◌, refl, true, Option, none, some, List, [], ◌∷◌, ◌==◌, find, modify, count, Bool-cases,
  inl, inr, arith, ap, subst, sym, Bool, not, ◌&&◌, ◌∙◌, ==_self,
}
use arc_id.Db.{AuthorizationCode, AccessToken, RefreshToken, IdToken, Db}
use arc_id.Db.Prisma.{Prisma, IsDocumented, documented, documented-IsDocumented, by_documentation}
use arc_id.Flow.Errors.{invalid_grant_error}
use arc_id.Flow.Monad.{State, Result, ok, err, written, state_of}
use arc_id.Flow.World.{World, Ctx}
use arc_id.Flow.Keeps.{Keeps, Keeps-bind, Keeps-then, Keeps-pure, Keeps-writes, Keeps-ok}
use arc_id.Token.Issue.{
  TokenBundle, IssueTokensParams, Drafts, commit, write_id, create_access_token,
  create_refresh_token, issue,
}
use arc_id.Token.Issue.Keeps.{prepare-Keeps}
use arc_id.Refresh.KillChain.{trigger_kill_chain}
use arc_id.Refresh.Rotate.{swap_revoked}
use arc_id.System.{Call, serve_all}
use arc_id.System.Invariant.{IsInvariant}
use arc_id.System.Kept.{kept_by_all}
use arc_id.Exchange.{ExchangeInput, is_usable, find_code, token_exchange}
use arc_id.Exchange.Laws.{token_exchange-Exchanged}

module _ (codes : List AuthorizationCode) where
  abbrev Same : Db → Type 0
  Same db = db.codes ≡ codes

  abbrev codes_after : {A : Type 0} → Result A → List AuthorizationCode
  codes_after r = (state_of r).db.codes

  write_id-codes :
      (o : Option IdToken) (s : State) → codes_after (write_id documented o s) ≡ s.db.codes
  unfolding write_id
  write_id-codes none s = refl
  write_id-codes (some r) s = ground arith

  access-codes :
      (r : AccessToken) (s : State)
      → codes_after (written (create_access_token documented r s.db) s) ≡ s.db.codes
  access-codes r s = ground arith

  refresh-codes :
      (r : RefreshToken) (s : State)
      → codes_after (written (create_refresh_token documented r s.db) s) ≡ s.db.codes
  refresh-codes r s = ground arith

  access-Same :
      (r : AccessToken) → Keeps Same (λ s. written (create_access_token documented r s.db) s)
  access-Same r = record { keeps = λ s h. access-codes r s ∙ h }

  refresh-Same :
      (r : RefreshToken) → Keeps Same (λ s. written (create_refresh_token documented r s.db) s)
  refresh-Same r = record { keeps = λ s h. refresh-codes r s ∙ h }

  write_id-Same : (o : Option IdToken) → Keeps Same (write_id documented o)
  write_id-Same o = record { keeps = λ s h. write_id-codes o s ∙ h }

  commit-Same : (p : IssueTokensParams) (d : Drafts) → Keeps Same (commit documented p d)
  unfolding commit
  commit-Same p d = Keeps-then (access-Same d.access) (
      Keeps-then (refresh-Same d.refresh)
        (Keeps-then (Keeps-writes _ (λ db h. h)) (write_id-Same d.id)))

  issue-Same : (w : World) (p : IssueTokensParams) → Keeps Same (issue documented w p)
  unfolding issue
  issue-Same w p = Keeps-bind (prepare-Keeps w p) λ d. Keeps-then (commit-Same p d) (Keeps-pure _)

abbrev consumed_by : ℕ → List AuthorizationCode → List AuthorizationCode
consumed_by id cs = modify (λ c. c.id == id) (λ c. record c { consumed = true }) cs

abbrev pub is_open : ℕ → AuthorizationCode → Bool
is_open k c = c.code == k && not c.consumed

-- No row of the code is unconsumed.
abbrev pub Used : ℕ → Db → Type 0
Used k db = count (is_open k) db.codes ≡ 0

consumed-unused :
    (k id : ℕ) (cs : List AuthorizationCode)
    → count (is_open k) cs ≡ 0
    → count (is_open k) (consumed_by id cs) ≡ 0
consumed-unused k id [] h = refl
consumed-unused k id (c ∷ cs) h = ground (arith, consumed-unused k id cs)

unused_counted :
    (k : ℕ) (cs : List AuthorizationCode)
    → count (λ c. c.code == k) cs ≡ 0
    → count (is_open k) cs ≡ 0
unused_counted k [] h = refl
unused_counted k (c ∷ cs) h = ground (arith, unused_counted k cs)

found_counted :
    (w : World) (k : ℕ) (cs : List AuthorizationCode) (a : AuthorizationCode)
    → find (is_usable w k) cs ≡ some a
    → 1 ≤ count (λ c. c.code == k) cs
found_counted w k [] a f = absurd (ground arith)
found_counted w k (c ∷ cs) a f = ground (arith, found_counted w k cs a)

all_consumed :
    (w : World) (k : ℕ) (cs : List AuthorizationCode) (a : AuthorizationCode)
    → count (λ c. c.code == k) cs ≤ 1
    → find (is_usable w k) cs ≡ some a
    → count (is_open k) (consumed_by a.id cs) ≡ 0
all_consumed w k [] a few f = refl
all_consumed w k (c ∷ cs) a few f = elim (Bool-cases (is_usable w k c)) [
  | inl e ↦ ground (arith, ==_self c.id, consumed-unused k a.id cs, unused_counted k cs)
  | inr e ↦ ground (arith, found_counted w k cs a, all_consumed w k cs a)
]

none_usable :
    (later : World) (k : ℕ) (cs : List AuthorizationCode)
    → count (is_open k) cs ≡ 0
    → find (is_usable later k) cs ≡ none
none_usable later k [] h = refl
none_usable later k (c ∷ cs) h = ground (arith, none_usable later k cs)

swap_revoked-codes :
    (w : World) (raw : ℕ) (t : RefreshToken) (s : State) {u : State}
    → swap_revoked documented w raw t s ≡ ok tt u
    → u.db.codes ≡ s.db.codes
unfolding swap_revoked trigger_kill_chain
swap_revoked-codes w raw t s e = ground arith

Used-IsInvariant : (k : ℕ) → IsInvariant (Used k)
Used-IsInvariant k = record {
  sessions = λ db rows h. h;
  swapped = λ w raw t s h e.
      subst (λ cs. count (is_open k) cs ≡ 0) (sym (swap_revoked-codes w raw t s e)) h;
  issued = λ w p. record {
    keeps = λ s h.
        subst (λ cs. count (is_open k) cs ≡ 0) (sym ((issue-Same s.db.codes w p).keeps s refl)) h;
  };
  consumed = λ id db h. consumed-unused k id db.codes h;
}

-- The code is refused, and the refusal changes nothing in the database, after any calls.
abbrev pub Refused : Prisma → ℕ → State → Type 0
Refused q code u =
    (calls : List Call) (later : World) (input : ExchangeInput) (ctx : Ctx)
    → token_exchange q later (record input { code = code }) ctx (serve_all q calls u)
      ≡ err (invalid_grant_error "Authorization code is invalid or expired") (serve_all q calls u)

not_found :
    (later : World) (code : ℕ) (u : State)
    → find (is_usable later code) u.db.codes ≡ none
    → find_code documented later code u
      ≡ err (invalid_grant_error "Authorization code is invalid or expired") u
unfolding find_code
not_found later code u e = ground arith

refused_now :
    (later : World) (input : ExchangeInput) (ctx : Ctx) (u : State)
    → find (is_usable later input.code) u.db.codes ≡ none
    → token_exchange documented later input ctx u
      ≡ err (invalid_grant_error "Authorization code is invalid or expired") u
unfolding token_exchange
refused_now later input ctx u e = ground (arith, not_found later input.code u e)

documented-Refused :
    (w : World) (input : ExchangeInput) (ctx : Ctx) (s : State) {b : TokenBundle} {u : State}
    → count (λ c. c.code == input.code) s.db.codes ≤ 1
    → token_exchange documented w input ctx s ≡ ok b u
    → Refused documented input.code u
documented-Refused w input ctx s {b} {u} few e =
    let x = token_exchange-Exchanged documented documented-IsDocumented w input ctx s e in
    let cs = consumed_by x.code.id s.db.codes in
    let after = Keeps-ok (issue-Same cs w _) x.issued refl in
    let used : Used input.code u.db =
      rw (ap (λ db. db.codes) x.kept ∙ after)
        (all_consumed w input.code s.db.codes x.code few x.usable) in
    λ calls later again ctx'.
      refused_now later (record again { code = input.code }) ctx' (serve_all documented calls u)
        (none_usable later input.code (serve_all documented calls u).db.codes
          (kept_by_all (Used-IsInvariant input.code) calls u used))

-- Where codes are unique, a code that an exchange accepted is refused by every later exchange, at
-- whatever time and by whatever client, whatever refreshes, code exchanges, logins and verifications
-- are served in between, successful or not.
pub token_exchange-once :
    (q : Prisma)
    → IsDocumented q
    → (w : World) (input : ExchangeInput) (ctx : Ctx) (s : State) {b : TokenBundle} {u : State}
    → count (λ c. c.code == input.code) s.db.codes ≤ 1
    → token_exchange q w input ctx s ≡ ok b u
    → Refused q input.code u
token_exchange-once q d w input ctx s {b} {u} few =
    by_documentation (λ p. token_exchange p w input ctx s ≡ ok b u → Refused p input.code u) d
      (documented-Refused w input ctx s few)
