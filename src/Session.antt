-- ===== src/Session.antt =====
-- src/modules/auth/services/session.service.ts and the session queries of the flows.
pub mod Cap
pub mod Repository
use arc_id.Base.{
  ℕ, ◌+◌, ◌-◌, ◌*◌, ◌≡◌, Bool, true, false, ◌&&◌, Option, none, some, List, [], ◌∷◌, ltb, ◌==◌, any,
  get_or, if◌then◌else◌,
}
use arc_id.Db.{Aal, aal1, aal2, Session, Db}
use arc_id.Db.Prisma.{Prisma}
use arc_id.Flow.Errors.{Thrown, prisma}
use arc_id.Flow.Monad.{Flow, State, Result, ok, err}
use arc_id.Flow.World.{World}

pub record CreateSessionInput : Type 0 where
  pub identity_id : ℕ
  pub local_account_id : Option ℕ
  pub auth_level : Option Aal
  pub session_ttl_minutes : Option ℕ
  pub max_sessions_per_user : Option ℕ

-- `{ identityId, valid: true, expiresAt: { gt: new Date() } }`.
abbrev pub is_active : ℕ → ℕ → Session → Bool
is_active now identity_id x = x.identity_id == identity_id && x.valid && ltb now x.expires_at

-- `updateMany({ where: { id: { in: … } }, data: { valid: false } })`.
abbrev pub invalidate_all : Prisma → List Session → List Session → List Session
invalidate_all q xs rows =
    (q.update_many Session (λ s. any (λ x. x.id == s.id) xs) (λ s. record s { valid = false })
      rows).0

-- `if (oldestSessions.length > 0)`.
unfoldable pub invalidate_found : Prisma → List Session → List Session → List Session
invalidate_found q [] rows = rows
invalidate_found q (x ∷ xs) rows = invalidate_all q (x ∷ xs) rows

-- Over the cap the oldest sessions go, one more than the excess.
unfoldable pub evict : Prisma → ℕ → ℕ → ℕ → List Session → List Session
unfolding invalidate_found
evict q now identity_id cap rows =
    let active = q.count_rows Session (is_active now identity_id) rows in
    let oldest =
      q.find_oldest Session (λ x. x.created_at) (is_active now identity_id) (active - cap + 1)
        rows in
    if ltb active cap then rows else invalidate_found q oldest rows

-- `if (input.maxSessionsPerUser && input.maxSessionsPerUser > 0)`.
unfoldable pub enforce_cap : Prisma → ℕ → ℕ → Option ℕ → List Session → List Session
unfolding evict
enforce_cap q now identity_id none rows = rows
enforce_cap q now identity_id (some cap) rows =
    if ltb 0 cap then evict q now identity_id cap rows else rows

abbrev pub new_session : World → CreateSessionInput → ℕ → Session
new_session w input token = record {
  id = token;
  identity_id = input.identity_id;
  local_account_id = input.local_account_id;
  refresh_token_id = none;
  created_at = w.now;
  expires_at = w.now + get_or input.session_ttl_minutes 10080 * 60000;
  valid = true;
  auth_level = some (get_or input.auth_level aal1);
  elevated_at = none;
}

-- `SessionService.create`, with the token that `generateToken(64)` drew.
unfoldable pub create_with : Prisma → World → CreateSessionInput → ℕ → Flow Session
unfolding enforce_cap
create_with q w input token s =
    let row = new_session w input token in
    let kept = enforce_cap q w.now input.identity_id input.max_sessions_per_user s.db.sessions in
    elim (q.create Session (λ x. x.id == token) row kept) [
      | none ↦ err (prisma "P2002") (record s { db = record s.db { sessions = kept } })
      | some rows ↦ ok row (record s { db = record s.db { sessions = rows } })
    ]

unfoldable pub create : Prisma → World → CreateSessionInput → Flow Session
unfolding create_with
create q w input s = create_with q w input (w.random s.drawn) (record s { drawn = s.drawn + 1 })

-- `session.update({ where: { id } })`, which fails where there is no row.
unfoldable pub update_session : Prisma → ℕ → (Session → Session) → Flow (Unit {0})
update_session q session_id f s =
    let (rows, n) = q.update_many Session (λ x. x.id == session_id) f s.db.sessions in
    if n == 0
    then err (prisma "P2025") s
    else ok tt (record s { db = record s.db { sessions = rows } })

unfoldable pub elevate : Prisma → World → ℕ → Flow (Unit {0})
unfolding update_session
elevate q w session_id s =
    update_session q session_id (λ x. record x { auth_level = some aal2; elevated_at = some w.now })
      s

unfoldable pub promote_to_aal2 : Prisma → ℕ → Flow (Unit {0})
unfolding update_session
promote_to_aal2 q session_id s =
    update_session q session_id (λ x. record x { auth_level = some aal2 }) s

unfoldable pub validate : Prisma → World → ℕ → Db → Option Session
validate q w token db =
    q.find_first Session (λ x. x.id == token && x.valid && ltb w.now x.expires_at) db.sessions
