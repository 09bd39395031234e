-- ===== src/Cleanup/Kept.antt =====
-- What a clean-up leaves as it was.
use text.Mathlib.Text.{◌==◌ as str_eq}
use arc_id.Base.{
  ℕ, zero, suc, ◌≡◌, refl, Bool, true, false, ◌&&◌, not, String, Option, none, some, List, [], ◌∷◌,
  ltb, ◌==◌, find, arith, Bool-cases, inl, inr,
}
use arc_id.Db.{Db}
use arc_id.Db.Prisma.{Prisma, IsDocumented, documented, by_documentation, discard}
use arc_id.Flow.Monad.{State, Result, state_of}
use arc_id.Flow.World.{World}
use arc_id.Cleanup.{
  Attempts, old_access, old_refresh, old_jti, old_session, purge, clean_if, attempt,
  TokenCleanupResult, clean_from, run_token_cleanup,
}

-- What the flows and the guard can still ask for: every revocation, session and token whose time has
-- not passed.
pub record Kept (w : World) (before after : Db) : Type 0 where
  pub revocations :
      (jti : ℕ)
      → find (λ r. r.jti == jti && not (ltb r.expires_at w.now)) after.revoked_jtis
        ≡ find (λ r. r.jti == jti && not (ltb r.expires_at w.now)) before.revoked_jtis
  pub sessions :
      (id : ℕ)
      → find (λ x. x.id == id && not (ltb x.expires_at w.now)) after.sessions
        ≡ find (λ x. x.id == id && not (ltb x.expires_at w.now)) before.sessions
  pub access_tokens :
      (token : ℕ)
      → find
          (λ t. t.token == token && not t.revoked && not (ltb t.expires_at w.now))
          after.access_tokens
        ≡ find
            (λ t. t.token == token && not t.revoked && not (ltb t.expires_at w.now))
            before.access_tokens
  pub refresh_tokens :
      (token : ℕ)
      → find
          (λ t. t.token == token && not t.revoked && not (ltb t.expires_at w.now))
          after.refresh_tokens
        ≡ find
            (λ t. t.token == token && not t.revoked && not (ltb t.expires_at w.now))
            before.refresh_tokens

find-discard :
    {A : Type 0} (p d : A → Bool) (xs : List A)
    → ((x : A) → p x && d x ≡ false)
    → find p (discard d xs) ≡ find p xs
find-discard p d [] h = refl
find-discard p d (x ∷ xs) h = ground (arith, h x, find-discard p d xs h)

purge-Kept : (w : World) (db : Db) → Kept w db (purge documented w db).0
unfolding purge
purge-Kept w db = record {
  revocations = λ jti. find-discard _ (old_jti w) db.revoked_jtis λ r. ground arith;
  sessions = λ id. find-discard _ (old_session w) db.sessions λ x. ground arith;
  access_tokens = λ token. find-discard _ (old_access w) db.access_tokens λ t. ground arith;
  refresh_tokens = λ token. find-discard _ (old_refresh w) db.refresh_tokens λ t. ground arith;
}

same-Kept : (w : World) (db : Db) → Kept w db db
same-Kept w db = record {
  revocations = λ jti. refl;
  sessions = λ id. refl;
  access_tokens = λ token. refl;
  refresh_tokens = λ token. refl;
}

clean_if-Kept :
    (w : World) (b : Bool) (s : State) → Kept w s.db (state_of (clean_if documented w b s)).db
unfolding clean_if
clean_if-Kept w false s = same-Kept w s.db
clean_if-Kept w true s = purge-Kept w s.db

attempt-Kept :
    (w : World) (acquired : Bool) (again : State → Result TokenCleanupResult) (o : Option String)
    (s : State)
    → Kept w s.db (state_of (again s)).db
    → Kept w s.db (state_of (attempt documented w acquired again o s)).db
unfolding attempt
attempt-Kept w acquired again none s h = clean_if-Kept w acquired s
attempt-Kept w acquired again (some code) s h = elim (Bool-cases (str_eq code "P2028")) [
  | inl k ↦ rw (k) h
  | inr k ↦ rw (k) (same-Kept w s.db)
]

clean_from-Kept :
    (w : World) (a : Attempts) (left n : ℕ) (s : State)
    → Kept w s.db (state_of (clean_from documented w a left n s)).db
unfolding clean_from
clean_from-Kept w a zero n s = attempt-Kept w (a.acquired n) _ (a.start n) s (same-Kept w s.db)
clean_from-Kept w a (suc left) n s =
    attempt-Kept w (a.acquired n) (clean_from documented w a left (suc n)) (a.start n) s
      (clean_from-Kept w a left (suc n) s)

-- A clean-up, however its attempts go, takes away nothing whose time has not passed: every lookup of
-- an unexpired revocation or session, and of an unexpired, unrevoked access or refresh token, answers
-- as it did before.
pub run_token_cleanup-Kept :
    (q : Prisma)
    → IsDocumented q
    → (w : World) (a : Attempts) (s : State) → Kept w s.db (state_of (run_token_cleanup q w a s)).db
unfolding run_token_cleanup
run_token_cleanup-Kept q d w a s =
    by_documentation (λ q. Kept w s.db (state_of (run_token_cleanup q w a s)).db) d
      (clean_from-Kept w a 3 0 s)
