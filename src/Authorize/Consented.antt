-- ===== src/Authorize/Consented.antt =====
-- What a consent that was given or withdrawn means for the next authorization.
use arc_id.Base.{
  ℕ, ◌≤◌, ◌≡◌, refl, true, false, String, none, some, List, [], ◌∷◌, ◌++◌, ◌==◌, all, any, find,
  modify, count, arith, Option-cases, Bool-cases, inl, inr, ==_self,
}
use arc_id.Db.{OAuthConsent}
use arc_id.Db.Prisma.{Prisma, IsDocumented, documented, by_documentation}
use arc_id.Flow.Monad.{State, ok, state_of}
use arc_id.Flow.World.{World}
use arc_id.Token.Issue.{includes}
use arc_id.Authorize.{
  is_granted, covers, has_consent, of_pair, granted_now, grant_on, grant, revoke,
}

no_pair :
    (n k : ℕ) (cs : List OAuthConsent)
    → find (of_pair n k) cs ≡ none
    → find (is_granted n k) cs ≡ none
no_pair n k [] e = refl
no_pair n k (c ∷ cs) e = ground (arith, no_pair n k cs)

pair_counted :
    (n k : ℕ) (cs : List OAuthConsent) (c : OAuthConsent)
    → find (of_pair n k) cs ≡ some c
    → 1 ≤ count (of_pair n k) cs
pair_counted n k [] c e = absurd (ground arith)
pair_counted n k (x ∷ xs) c e = ground (arith, pair_counted n k xs c)

find-appended :
    (n k : ℕ) (cs : List OAuthConsent) (c : OAuthConsent)
    → find (is_granted n k) cs ≡ none
    → is_granted n k c ≡ true
    → find (is_granted n k) (cs ++ c ∷ []) ≡ some c
find-appended n k [] c e h = ground arith
find-appended n k (x ∷ xs) c e h = ground (arith, find-appended n k xs c)

-- The one row of the pair is found renewed.
found_renewed :
    (w : World) (n k : ℕ) (scopes : List String) (cs : List OAuthConsent) (c : OAuthConsent)
    → find (of_pair n k) cs ≡ some c
    → find (is_granted n k) (modify (λ x. x.id == c.id) (granted_now w scopes) cs)
      ≡ some (granted_now w scopes c)
found_renewed w n k scopes [] c e = absurd (ground arith)
found_renewed w n k scopes (x ∷ xs) c e = elim (Bool-cases (of_pair n k x)) [
  | inl h ↦ ground (arith, ==_self c.id)
  | inr h ↦ ground (arith, found_renewed w n k scopes xs c)
]

grant-covers :
    (w : World) (n k : ℕ) (scopes req : List String) (s : State) {u : State}
    → grant documented w n k scopes s ≡ ok tt u
    → all (λ x. includes x scopes) req ≡ true
    → has_consent documented n k req u.db ≡ true
unfolding grant grant_on has_consent covers
grant-covers w n k scopes req s {u} e h = elim (Option-cases (find (of_pair n k) s.db.consents)) [
  | inl f ↦ elim (Bool-cases (any (λ (x : OAuthConsent). x.id == w.random s.drawn) s.db.consents)) [
    | inl g ↦ absurd (ground arith)
    | inr g ↦ ground (
      arith,
      no_pair n k s.db.consents f,
      find-appended n k s.db.consents (record {
        id = w.random s.drawn;
        identity_id = n;
        client_id = k;
        scopes = scopes;
        granted_at = w.now;
        revoked_at = none;
      }),
      ==_self n,
      ==_self k,
    )
  ]
  | inr (c, f) ↦ ground (arith, found_renewed w n k scopes s.db.consents c f)
]

none_granted :
    (w : World) (n k : ℕ) (cs : List OAuthConsent)
    → find (is_granted n k) (modify (of_pair n k) (λ c. record c { revoked_at = some w.now }) cs)
      ≡ none
none_granted w n k [] = refl
none_granted w n k (c ∷ cs) = ground (arith, none_granted w n k cs)

revoke-covers :
    (w : World) (n k : ℕ) (req : List String) (s : State)
    → has_consent documented n k req (state_of (revoke documented w n k s)).db ≡ false
unfolding revoke has_consent covers
revoke-covers w n k req s = rw (none_granted w n k s.db.consents) refl

-- A consent that was given covers every request for scopes among its own, whatever the pair's row
-- said before; and one that was withdrawn covers none, not even a request for no scope.
pub grant-has_consent :
    (q : Prisma)
    → IsDocumented q
    → (w : World) (n k : ℕ) (scopes req : List String) (s : State) {u : State}
    → grant q w n k scopes s ≡ ok tt u
    → all (λ x. includes x scopes) req ≡ true
    → (has_consent q n k req u.db ≡ true)
      × (has_consent q n k req (state_of (revoke q w n k u)).db ≡ false)
grant-has_consent q d w n k scopes req s {u} e h = (
  by_documentation (λ q. grant q w n k scopes s ≡ ok tt u → has_consent q n k req u.db ≡ true) d
      (λ e. grant-covers w n k scopes req s {u = u} e h) e,
  by_documentation (λ q. has_consent q n k req (state_of (revoke q w n k u)).db ≡ false) d
      (revoke-covers w n k req u),
)
