-- ===== src/Guard/Checks.antt =====
-- The checks of src/api/plugins/auth-guard.plugin.ts that follow `requireUser`, and `hasPermission`
-- of src/lib/security/rbac.ts.

use arc_id.Base.{
  ℕ, ◌-◌, ◌*◌, Bool, true, false, ◌&&◌, ◌||◌, not, String, Option, none, some, List, ltb, ◌==◌,
  opt_eq, get_or, or_else, if◌then◌else◌,
}
use arc_id.Db.{aal1, aal2, Plan, free, pro, enterprise, UserStatus, Session, Role, Membership, Db}
use arc_id.Db.Prisma.{Prisma}
use arc_id.Flow.Errors.{Code, api_error, Thrown, api, unauthorized_error, forbidden_error}
use arc_id.Flow.World.{World}
use arc_id.Token.Issue.{includes}
use arc_id.Guard.{
  Caller, Jwt, Server, Verdict, admit, refuse, require_user, type_error, upgrade_required,
}

-- `await requireUser(req, reply)`, and then a check of what it let through.
unfoldable pub and_then : Verdict → (Caller → Server → Verdict) → Verdict
and_then (admit c sv) k = k c sv
and_then (refuse e sv) k = refuse e sv
and_then (upgrade_required plan sv) k = upgrade_required plan sv
and_then (type_error sv) k = type_error sv

unfoldable pub require_scope : Prisma → World → Jwt → String → List ℕ → Server → Verdict
unfolding require_user and_then
require_scope q w jwt scope header sv = and_then (require_user q w jwt header sv) λ c sv.
    if includes scope c.scope then admit c sv else refuse (forbidden_error "Scope is required") sv

abbrev pub plan_order : Plan → ℕ
plan_order free = 0
plan_order pro = 1
plan_order enterprise = 2

unfoldable pub require_plan : Prisma → World → Jwt → Plan → List ℕ → Server → Verdict
unfolding require_user and_then
require_plan q w jwt least header sv = and_then (require_user q w jwt header sv) λ c sv.
    if ltb (plan_order c.plan) (plan_order least) then upgrade_required least sv else admit c sv

-- `!session || !session.valid || session.expiresAt < new Date()`.
unfoldable pub if_live : World → Option Session → Option Session
if_live w none = none
if_live w (some x) = if not x.valid || ltb x.expires_at w.now then none else some x

-- The session that the claims name.
unfoldable pub live_session : Prisma → World → ℕ → Db → Option Session
unfolding if_live
live_session q w sid db = if_live w (q.find_first Session (λ x. x.id == sid) db.sessions)

abbrev pub at_aal2 : Session → Bool
at_aal2 x = elim (get_or x.auth_level aal1) [ aal1 ↦ false | aal2 ↦ true ]

abbrev pub aal2_required : Thrown
aal2_required =
    api (api_error "This action requires a stronger authentication level" 403 Code.aal2_required)

abbrev pub step_up_required : Thrown
step_up_required =
    api (api_error "This action requires recent re-authentication" 403 Code.step_up_required)

abbrev pub step_up_window_ms : ℕ
step_up_window_ms = 15 * 60 * 1000

unfoldable pub recently_elevated : World → Option ℕ → Bool
recently_elevated w none = false
recently_elevated w (some t) = ltb (w.now - t) step_up_window_ms

-- What follows on the session, for the two levels.
unfoldable pub aal2_session : Caller → Server → Option Session → Verdict
aal2_session c sv none = refuse (unauthorized_error "Session is invalid or expired") sv
aal2_session c sv (some x) = if at_aal2 x then admit c sv else refuse aal2_required sv

unfoldable pub elevated_session : World → Caller → Server → Option Session → Verdict
unfolding recently_elevated
elevated_session w c sv none = refuse (unauthorized_error "Session is invalid or expired") sv
elevated_session w c sv (some x) =
    if at_aal2 x
    then (if recently_elevated w x.elevated_at then admit c sv else refuse step_up_required sv)
    else refuse aal2_required sv

unfoldable pub by_sid : Server → Option ℕ → (ℕ → Verdict) → Verdict
by_sid sv none k = refuse (forbidden_error "No session bound to this token") sv
by_sid sv (some sid) k = k sid

-- `payload.sid` of an undefined `req.user` is a TypeError.
unfoldable pub with_sid : Caller → Server → (ℕ → Verdict) → Verdict
unfolding by_sid
with_sid c sv k = elim c.user [ none ↦ type_error sv | some p ↦ by_sid sv p.sid k ]

unfoldable pub require_aal2 : Prisma → World → Jwt → List ℕ → Server → Verdict
unfolding require_user and_then with_sid live_session aal2_session
require_aal2 q w jwt header sv =
    and_then (require_user q w jwt header sv)
      λ c sv. with_sid c sv λ sid. aal2_session c sv (live_session q w sid sv.db)

unfoldable pub require_elevated : Prisma → World → Jwt → List ℕ → Server → Verdict
unfolding require_user and_then with_sid live_session elevated_session
require_elevated q w jwt header sv =
    and_then (require_user q w jwt header sv)
      λ c sv. with_sid c sv λ sid. elevated_session w c sv (live_session q w sid sv.db)

abbrev pub is_active_member : Option ℕ → ℕ → Membership → Bool
is_active_member identity_id tenant_id m =
    opt_eq (some m.identity_id) identity_id
    && m.tenant_id == tenant_id
    && elim m.status [ UserStatus.active ↦ true | _ ↦ false ]

-- The membership's role, which a foreign key holds in place.
unfoldable pub role_grants : Prisma → Option Membership → String → Db → Bool
role_grants q none action db = false
role_grants q (some m) action db = elim (q.find_first Role (λ r. r.id == m.role_id) db.roles) [
  | none ↦ false
  | some r ↦ includes action r.actions
]

-- `hasPermission`.
unfoldable pub has_permission : Prisma → Option ℕ → ℕ → String → Db → Bool
unfolding role_grants
has_permission q identity_id tenant_id action db =
    role_grants q (q.find_first Membership (is_active_member identity_id tenant_id) db.memberships)
      action db

unfoldable pub permit : Prisma → String → Caller → Server → Option ℕ → Verdict
unfolding has_permission
permit q action c sv none = refuse (forbidden_error "No tenant context for this request") sv
permit q action c sv (some tenant_id) =
    if has_permission q c.id tenant_id action sv.db
    then admit c sv
    else (if includes action c.scope
        then admit c sv
        else refuse (forbidden_error "Permission is required") sv)

-- The tenant is the one given, else the route's, else the caller's.
unfoldable pub require_permission :
    Prisma → World → Jwt → String → Option ℕ → Option ℕ → List ℕ → Server → Verdict
unfolding require_user and_then permit
require_permission q w jwt action explicit params header sv =
    and_then (require_user q w jwt header sv)
      λ c sv. permit q action c sv (or_else explicit (or_else params c.tenant_id))
