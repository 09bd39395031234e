-- ===== src/Guard/Levels.antt =====
-- When the guard's strongest check lets a request through.
use arc_id.Base.{
  ℕ, ◌-◌, ◌<◌, ◌≤◌, ◌≡◌, ◌↔◌, refl, Bool, true, false, Option, none, some, List, ◌==◌, find, arith,
  Option-cases, inl, inr, subst,
}
use arc_id.Db.{aal2, Session, ApiKey, Db}
use arc_id.Db.Prisma.{Prisma, IsDocumented, documented, by_documentation}
use arc_id.Blocklist.{is_jti_blocked}
use arc_id.Flow.World.{World}
use arc_id.Guard.{
  Payload, Caller, Server, Verdict, Jwt, revoked_in_db, check_jti, admit_unless, admit_user,
  plan_for, by_sub, by_jwt, admit_key, by_key, api_key_of, require_user,
}
use arc_id.Guard.Checks.{
  and_then, by_sid, with_sid, if_live, live_session, recently_elevated, elevated_session,
  require_elevated,
}
use arc_id.Guard.Refused.{admits, Bears}

-- The session is valid, unexpired, of the second level, and was elevated less than fifteen minutes
-- ago.
pub record IsElevated (w : World) (x : Session) : Type 0 where
  pub valid : x.valid ≡ true
  pub unexpired : w.now ≤ x.expires_at
  pub level : x.auth_level ≡ some aal2
  pub elevated_at : ℕ
  pub elevated : x.elevated_at ≡ some elevated_at
  pub recent : w.now - elevated_at < 900000

-- The token's identifier, if it has one, is neither on the blocklist nor in the table.
abbrev pub Unlisted : World → Option ℕ → Server → Type 0
Unlisted w none sv = Unit {0}
Unlisted w (some jti) sv =
    ((is_jti_blocked w.redis w.now jti sv.blocklist).0 ≡ false)
    × (revoked_in_db documented jti sv.db ≡ false)

-- A token that verifies, names an identity, is on neither revocation list, and is bound to an
-- elevated session.
pub record MayElevate (w : World) (jwt : Jwt) (header : List ℕ) (sv : Server) : Type 0 where
  pub payload : Payload
  pub bears : Bears jwt header payload
  pub subject : ℕ
  pub named : payload.sub ≡ some subject
  pub unlisted : Unlisted w payload.jti sv
  pub session_id : ℕ
  pub bound : payload.sid ≡ some session_id
  pub session : Session
  pub found : find (λ x. x.id == session_id) sv.db.sessions ≡ some session
  pub elevated : IsElevated w session

session-IsElevated :
    (w : World) (c : Caller) (sv : Server) (o : Option Session)
    → admits (elevated_session w c sv (if_live w o)) ≡ true
    → (x : Session) × (o ≡ some x) × IsElevated w x
unfolding elevated_session recently_elevated if_live
session-IsElevated w c sv none e = absurd (ground arith)
session-IsElevated w c sv (some x) e = elim (Option-cases x.elevated_at) [
  | inl k ↦ absurd (ground arith)
  | inr (t, k) ↦ (
    x,
    refl,
    record {
      valid = ground arith;
      unexpired = ground arith;
      level = ground arith;
      elevated_at = t;
      elevated = k;
      recent = ground arith;
    },
  )
]

session-admitted :
    (w : World) (c : Caller) (sv : Server) (x : Session)
    → IsElevated w x
    → admits (elevated_session w c sv (if_live w (some x))) ≡ true
unfolding elevated_session recently_elevated if_live
session-admitted w c sv x h = ground (arith, h.valid, h.level, h.elevated, h.unexpired, h.recent)

record BoundTo (w : World) (sid : Option ℕ) (db : Db) : Type 0 where
  session_id : ℕ
  bound : sid ≡ some session_id
  session : Session
  found : find (λ x. x.id == session_id) db.sessions ≡ some session
  elevated : IsElevated w session

abbrev sid_check : World → Caller → Server → Option ℕ → Verdict
sid_check w c sv sid =
    by_sid sv sid λ sid. elevated_session w c sv (live_session documented w sid sv.db)

sid_check-BoundTo :
    (w : World) (c : Caller) (sv : Server) (sid : Option ℕ)
    → admits (sid_check w c sv sid) ≡ true
    → BoundTo w sid sv.db
unfolding by_sid live_session
sid_check-BoundTo w c sv none e = absurd (ground arith)
sid_check-BoundTo w c sv (some sid) e =
    let (x, f, h) = session-IsElevated w c sv (find (λ x. x.id == sid) sv.db.sessions) e in
    record { session_id = sid; bound = refl; session = x; found = f; elevated = h }

sid_check-admitted :
    (w : World) (c : Caller) (sv : Server) (sid : ℕ) (x : Session)
    → find (λ x. x.id == sid) sv.db.sessions ≡ some x
    → IsElevated w x
    → admits (sid_check w c sv (some sid)) ≡ true
unfolding by_sid live_session
sid_check-admitted w c sv sid x f h = rw (f) (session-admitted w c sv x h)

abbrev level_check : World → Verdict → Verdict
level_check w v =
    and_then v
      λ c sv. with_sid c sv λ sid. elevated_session w c sv (live_session documented w sid sv.db)

by_key-refused :
    (w : World) (o : Option ApiKey) (sv : Server)
    → admits (level_check w (by_key documented w o sv)) ≡ false
unfolding by_key admit_key and_then with_sid
by_key-refused w none sv = refl
by_key-refused w (some k) sv = ground arith

check_jti-Unlisted :
    (w : World) (o : Option ℕ) (sv : Server)
    → (check_jti documented w o sv).0 ≡ false
    → Unlisted w o sv
unfolding check_jti
check_jti-Unlisted w none sv e = tt
check_jti-Unlisted w (some j) sv e = (ground arith, ground arith)

check_jti-db : (w : World) (o : Option ℕ) (sv : Server) → (check_jti documented w o sv).1.db ≡ sv.db
unfolding check_jti
check_jti-db w none sv = refl
check_jti-db w (some j) sv = refl

Unlisted-check_jti :
    (w : World) (o : Option ℕ) (sv : Server)
    → Unlisted w o sv
    → (check_jti documented w o sv).0 ≡ false
unfolding check_jti
Unlisted-check_jti w none sv h = refl
Unlisted-check_jti w (some j) sv h = ground (arith, h.0, h.1)

admit_unless-level :
    (w : World) (p : Payload) (sub : ℕ) (checked : Bool × Server)
    → admits (level_check w (admit_unless documented w p sub checked)) ≡ true
    → (checked.0 ≡ false) × BoundTo w p.sid checked.1.db
unfolding admit_unless admit_user and_then with_sid
admit_unless-level w p sub (true, sv) e = absurd (ground arith)
admit_unless-level w p sub (false, sv) e = (refl, sid_check-BoundTo w _ sv p.sid e)

by_sub-level :
    (w : World) (p : Payload) (sub : Option ℕ) (sv : Server)
    → admits (level_check w (by_sub documented w p sub sv)) ≡ true
    → (n : ℕ) × (sub ≡ some n) × Unlisted w p.jti sv × BoundTo w p.sid sv.db
unfolding by_sub and_then
by_sub-level w p none sv e = absurd (ground arith)
by_sub-level w p (some n) sv e =
    let (k, b) = admit_unless-level w p n (check_jti documented w p.jti sv) e in
    (n, refl, check_jti-Unlisted w p.jti sv k, subst (BoundTo w p.sid) (check_jti-db w p.jti sv) b)

by_jwt-level :
    (w : World) (o : Option Payload) (sv : Server)
    → admits (level_check w (by_jwt documented w o sv)) ≡ true
    → (p : Payload) × (o ≡ some p)
      × (n : ℕ) × (p.sub ≡ some n)
      × Unlisted w p.jti sv
      × BoundTo w p.sid sv.db
unfolding by_jwt and_then
by_jwt-level w none sv e = absurd (ground arith)
by_jwt-level w (some p) sv e =
    let (n, named, unlisted, b) = by_sub-level w p p.sub sv e in (p, refl, n, named, unlisted, b)

header-level :
    (w : World) (jwt : Jwt) (header : List ℕ) (sv : Server)
    → admits (require_elevated documented w jwt header sv) ≡ true
    → MayElevate w jwt header sv
unfolding require_elevated require_user
header-level w jwt header sv e = go (api_key_of header) refl e
  where
    go :
        (o : Option (List ℕ))
        → api_key_of header ≡ o
        → admits (
            level_check w (elim o [
              | none ↦ by_jwt documented w (jwt header) sv
              | some token ↦
                  by_key documented w
                    (find (λ k. k.key_hash == w.sha256_hex token) sv.db.api_keys)
                    sv
            ]))
          ≡ true
        → MayElevate w jwt header sv
    go (some token) k e =
        let no : false ≡ true = subst (λ b. b ≡ true) (by_key-refused w _ sv) e in
        absurd (ground arith)
    go none k e =
        let (p, v, n, named, unlisted, b) = by_jwt-level w (jwt header) sv e in
        record {
          payload = p;
          bears = record { no_key = k; verified = v };
          subject = n;
          named = named;
          unlisted = unlisted;
          session_id = b.session_id;
          bound = b.bound;
          session = b.session;
          found = b.found;
          elevated = b.elevated;
        }

admit_unless-admitted :
    (w : World) (p : Payload) (sub : ℕ) (checked : Bool × Server)
    → checked.0 ≡ false
    → admits (
        sid_check w
          (record {
            id = some sub;
            tenant_id = p.tid;
            scope = p.scope;
            plan = plan_for documented w p checked.1.db;
            user = some p;
          })
          checked.1
          p.sid)
      ≡ true
    → admits (level_check w (admit_unless documented w p sub checked)) ≡ true
unfolding admit_unless admit_user and_then with_sid
admit_unless-admitted w p sub (true, sv) k e = absurd (ground arith)
admit_unless-admitted w p sub (false, sv) k e = e

by_sub-admitted :
    (w : World) (p : Payload) (sub : Option ℕ) (n sid : ℕ) (x : Session) (sv : Server)
    → sub ≡ some n
    → Unlisted w p.jti sv
    → p.sid ≡ some sid
    → find (λ x. x.id == sid) sv.db.sessions ≡ some x
    → IsElevated w x
    → admits (level_check w (by_sub documented w p sub sv)) ≡ true
unfolding by_sub
by_sub-admitted w p none n sid x sv e u b f h = absurd (ground arith)
by_sub-admitted w p (some m) n sid x sv e u b f h =
    admit_unless-admitted w p m (check_jti documented w p.jti sv) (Unlisted-check_jti w p.jti sv u)
      (rw (b) (sid_check-admitted w _ _ sid x (rw (check_jti-db w p.jti sv) f) h))

MayElevate-admits :
    (w : World) (jwt : Jwt) (header : List ℕ) (sv : Server)
    → MayElevate w jwt header sv
    → admits (require_elevated documented w jwt header sv) ≡ true
unfolding require_elevated require_user by_jwt
MayElevate-admits w jwt header sv h =
    rw (h.bears.no_key, h.bears.verified)
      (by_sub-admitted w h.payload h.payload.sub h.subject h.session_id h.session sv h.named
        h.unlisted h.bound h.found h.elevated)

-- The guard of the most privileged routes lets a request through exactly if its token verifies,
-- names an identity, is on neither revocation list, and is bound to a session that is valid,
-- unexpired, of the second level and elevated less than fifteen minutes ago. A request with an API
-- key is never let through.
pub require_elevated-MayElevate :
    (q : Prisma)
    → IsDocumented q
    → (w : World) (jwt : Jwt) (header : List ℕ) (sv : Server)
    → (admits (require_elevated q w jwt header sv) ≡ true) ↔ MayElevate w jwt header sv
require_elevated-MayElevate q d w jwt header sv =
    by_documentation
      (λ q. (admits (require_elevated q w jwt header sv) ≡ true) ↔ MayElevate w jwt header sv) d
      (header-level w jwt header sv, MayElevate-admits w jwt header sv)
