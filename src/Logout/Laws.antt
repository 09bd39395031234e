-- ===== src/Logout/Laws.antt =====
-- What a logout leaves.
use arc_id.Base.{
  ℕ, ◌≡◌, ◌≢◌, refl, true, false, ◌&&◌, not, Option, none, some, List, [], ◌∷◌, ◌==◌, opt_eq, find,
  count, modify, arith, Bool-cases, inl, inr, subst, sym,
}
use arc_id.Db.{RefreshToken, Session, Db}
use arc_id.Db.Prisma.{Prisma, IsDocumented, documented, documented-IsDocumented, by_documentation}
use arc_id.Blocklist.{Blocklist}
use arc_id.Flow.Monad.{State, state_of}
use arc_id.Flow.World.{World, Ctx}
use arc_id.Guard.{Payload, Jwt, Server, require_user, revoked_in_db}
use arc_id.Guard.Checks.{require_elevated}
use arc_id.Guard.Levels.{require_elevated-MayElevate}
use arc_id.Guard.Refused.{admits, Bears, require_user-listed, record_revoked_jti-listed}
use arc_id.Revocation.{owned}
use arc_id.Logout.{
  LogoutInput, access_token_of, spend, spend_bound, end_session, upsert_jti, logout_writes,
  block_access, logout_found, logout,
}

-- The access token of a request, if it has one, is in the table.
abbrev Listed : Option (ℕ × ℕ) → Db → Type 0
Listed none db = Unit {0}
Listed (some (jti, t)) db = revoked_in_db documented jti db ≡ true

-- Nothing of the session is live, and the access token of the request is listed.
pub record IsLoggedOut (i : LogoutInput) (db : Db) : Type 0 where
  pub session : count (λ x. x.id == i.session_id && x.valid) db.sessions ≡ 0
  pub refresh_tokens :
      count (λ t. opt_eq t.session_id (some i.session_id) && not t.revoked) db.refresh_tokens ≡ 0
  pub access : Listed (access_token_of i) db

session-ended :
    (id : ℕ) (xs : List Session)
    → count
        (λ x. x.id == id && x.valid)
        (modify (λ x. x.id == id) (λ x. record x { valid = false }) xs)
      ≡ 0
session-ended id [] = refl
session-ended id (x ∷ xs) = ground (arith, session-ended id xs)

others-kept :
    (id other : ℕ) (xs : List Session)
    → other ≢ id
    → find (λ x. x.id == other) (modify (λ x. x.id == id) (λ x. record x { valid = false }) xs)
      ≡ find (λ x. x.id == other) xs
others-kept id other [] n = refl
others-kept id other (x ∷ xs) n = ground (arith, others-kept id other xs n)

tokens-spent :
    (now : ℕ) (sid : ℕ) (ts : List RefreshToken)
    → count
        (λ t. opt_eq t.session_id (some sid) && not t.revoked)
        (modify
          (λ t. opt_eq t.session_id (some sid) && not t.revoked)
          (λ t. record t { revoked = true; rotated_at = some now })
          ts)
      ≡ 0
tokens-spent now sid [] = refl
tokens-spent now sid (t ∷ ts) = ground (arith, tokens-spent now sid ts)

upsert_jti-rest :
    (o : Option (ℕ × ℕ)) (db : Db)
    → ((upsert_jti documented o db).sessions ≡ db.sessions)
      × ((upsert_jti documented o db).refresh_tokens ≡ db.refresh_tokens)
unfolding upsert_jti
upsert_jti-rest none db = (refl, refl)
upsert_jti-rest (some (jti, t)) db = (ground arith, ground arith)

upsert_jti-Listed : (o : Option (ℕ × ℕ)) (db : Db) → Listed o (upsert_jti documented o db)
unfolding upsert_jti
upsert_jti-Listed none db = tt
upsert_jti-Listed (some (jti, t)) db = record_revoked_jti-listed jti t db

spend_bound-sessions :
    (w : World) (o : Option ℕ) (db : Db) → (spend_bound documented w o db).sessions ≡ db.sessions
unfolding spend_bound
spend_bound-sessions w none db = refl
spend_bound-sessions w (some id) db = refl

writes-IsLoggedOut :
    (w : World) (i : LogoutInput) (x : Session) (db : Db)
    → x.id ≡ i.session_id
    → IsLoggedOut i (logout_writes documented w x (access_token_of i) db)
unfolding logout_writes
writes-IsLoggedOut w i x db e =
    let bound : Db = spend_bound documented w x.refresh_token_id db in
    let spent : Db = spend documented w (λ t. opt_eq t.session_id (some x.id)) bound in
    let ended : Db = end_session documented x.id spent in
    let (a, b) = upsert_jti-rest (access_token_of i) ended in
    record {
      session = rw (a, ← e) (session-ended x.id bound.sessions);
      refresh_tokens = rw (b, ← e) (tokens-spent w.now x.id bound.refresh_tokens);
      access = upsert_jti-Listed (access_token_of i) ended;
    }

writes-others :
    (w : World) (x : Session) (o : Option (ℕ × ℕ)) (db : Db) (id : ℕ)
    → id ≢ x.id
    → find (λ x. x.id == id) (logout_writes documented w x o db).sessions
      ≡ find (λ x. x.id == id) db.sessions
unfolding logout_writes
writes-others w x o db id n =
    let bound : Db = spend_bound documented w x.refresh_token_id db in
    let spent : Db = spend documented w (λ t. opt_eq t.session_id (some x.id)) bound in
    let (a, b) = upsert_jti-rest o (end_session documented x.id spent) in
    rw (a, spend_bound-sessions w x.refresh_token_id db) (others-kept x.id id db.sessions n)

block_access-db : (w : World) (o : Option (ℕ × ℕ)) (s : State) → (block_access w o s).db ≡ s.db
unfolding block_access
block_access-db w none s = refl
block_access-db w (some (jti, t)) s = refl

found_id :
    (o : Option ℕ) (id : ℕ) (xs : List Session) (x : Session)
    → find (λ y. y.id == id && owned o y.identity_id) xs ≡ some x
    → x.id ≡ id
found_id o id [] x f = absurd (ground arith)
found_id o id (y ∷ ys) x f = ground (arith, found_id o id ys x)

none_valid :
    (id : ℕ) (xs : List Session) (x : Session)
    → count (λ y. y.id == id && y.valid) xs ≡ 0
    → find (λ y. y.id == id) xs ≡ some x
    → x.valid ≡ false
none_valid id [] x c f = absurd (ground arith)
none_valid id (y ∷ ys) x c f = ground (arith, none_valid id ys x)

not_elevated :
    (i : LogoutInput) (db : Db) (w : World) (jwt : Jwt) (header : List ℕ) (p : Payload)
    (b : Blocklist)
    → IsLoggedOut i db
    → p.sid ≡ some i.session_id
    → Bears jwt header p
    → admits (require_elevated documented w jwt header (record { db = db; blocklist = b })) ≡ false
not_elevated i db w jwt header p b out k bears =
    let sv : Server = record { db = db; blocklist = b } in
    elim (Bool-cases (admits (require_elevated documented w jwt header sv))) [
      | inr e ↦ e
      | inl e ↦
          let m =
            (require_elevated-MayElevate documented documented-IsDocumented w jwt header sv).0 e in
          let sid : m.session_id ≡ i.session_id =
            cc (k, m.bound, bears.verified, m.bears.verified) in
          let dead =
            none_valid i.session_id db.sessions m.session out.session
              (subst (λ n. find (λ x. x.id == n) db.sessions ≡ some m.session) sid m.found) in
          absurd (ground (arith, m.elevated.valid))
    ]

found-logout :
    (w : World) (i : LogoutInput) (ctx : Ctx) (s : State) (x : Session)
    → find (λ y. y.id == i.session_id && owned ctx.identity_id y.identity_id) s.db.sessions ≡ some x
    → IsLoggedOut i (state_of (logout documented w i ctx s)).db
unfolding logout logout_found
found-logout w i ctx s x f = rw (f) (
    rw (block_access-db w (access_token_of i) _)
      (writes-IsLoggedOut w i x s.db (found_id ctx.identity_id i.session_id s.db.sessions x f)))

-- Where a logout finds its session, the session is no longer valid, no refresh token of it is left
-- unrevoked, and the request's access token is in the table of revoked ones; from then on, at any
-- time and with any blocklist, no request that bears a token of that jti is let through by the guard,
-- and none that bears a token of the session by the guard of the most privileged routes.
pub logout-IsLoggedOut :
    (q : Prisma)
    → IsDocumented q
    → (w later : World) (i : LogoutInput) (ctx : Ctx) (s : State) (x : Session) (jti t : ℕ)
      (jwt : Jwt) (header own_header : List ℕ) (p own : Payload) (b : Blocklist)
    → find (λ y. y.id == i.session_id && owned ctx.identity_id y.identity_id) s.db.sessions ≡ some x
    → access_token_of i ≡ some (jti, t)
    → p.jti ≡ some jti
    → Bears jwt header p
    → own.sid ≡ some i.session_id
    → Bears jwt own_header own
    → IsLoggedOut i (state_of (logout q w i ctx s)).db
      × (admits (
            require_user q later jwt header
              (record { db = (state_of (logout q w i ctx s)).db; blocklist = b }))
          ≡ false)
      × (admits (
            require_elevated q later jwt own_header
              (record { db = (state_of (logout q w i ctx s)).db; blocklist = b }))
          ≡ false)
logout-IsLoggedOut q d w later i ctx s x jti t jwt header own_header p own b f a j bears sid
      own_bears =
    by_documentation
      (λ q.
        IsLoggedOut i (state_of (logout q w i ctx s)).db
        × (admits (
              require_user q later jwt header
                (record { db = (state_of (logout q w i ctx s)).db; blocklist = b }))
            ≡ false)
        × (admits (
              require_elevated q later jwt own_header
                (record { db = (state_of (logout q w i ctx s)).db; blocklist = b }))
            ≡ false))
      d
      (let out = found-logout w i ctx s x f in
        (
          out,
          require_user-listed later jwt header p jti _ bears j
              (subst (λ o. Listed o (state_of (logout documented w i ctx s)).db) a out.access),
          not_elevated i _ later jwt own_header own b out sid own_bears,
        ))

other-kept :
    (w : World) (i : LogoutInput) (ctx : Ctx) (o : Option Session) (s : State) (id : ℕ)
    → ((x : Session) → o ≡ some x → id ≢ x.id)
    → find (λ x. x.id == id) (state_of (logout_found documented w i ctx o s)).db.sessions
      ≡ find (λ x. x.id == id) s.db.sessions
unfolding logout_found
other-kept w i ctx none s id n = refl
other-kept w i ctx (some x) s id n =
    rw (block_access-db w (access_token_of i) _)
      (writes-others w x (access_token_of i) s.db id (n x refl))

-- A logout leaves every other session as it was, whether it finds its own or not.
pub logout-others :
    (q : Prisma)
    → IsDocumented q
    → (w : World) (i : LogoutInput) (ctx : Ctx) (s : State) (id : ℕ) → id ≢ i.session_id
    → find (λ x. x.id == id) (state_of (logout q w i ctx s)).db.sessions
      ≡ find (λ x. x.id == id) s.db.sessions
unfolding logout
logout-others q d w i ctx s id n =
    by_documentation
      (λ q.
        find (λ x. x.id == id) (state_of (logout q w i ctx s)).db.sessions
        ≡ find (λ x. x.id == id) s.db.sessions)
      d
      (other-kept w i ctx _ s id λ x f.
        subst (λ k. id ≢ k) (sym (found_id ctx.identity_id i.session_id s.db.sessions x f)) n)
