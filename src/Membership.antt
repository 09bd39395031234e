-- ===== src/Membership.antt =====
-- src/modules/tenant/services/membership.service.ts, over the shared client with its isolation check,
-- and src/config/plan-caps.ts.
pub mod Capped
pub mod Calls
use text.Mathlib.Text.{◌==◌ as str_eq}
use arc_id.Base.{
  ℕ, ◌+◌, ◌≡◌, Bool, true, false, ◌&&◌, ◌||◌, not, String, Option, none, some, List, [], ◌∷◌, ltb,
  leb, get_or, ◌==◌, if◌then◌else◌,
}
use arc_id.Db.{Plan, free, pro, enterprise, UserStatus, Role, Membership, Db}
use arc_id.Db.Prisma.{Prisma}
use arc_id.Flow.Errors.{Code, api_error, Thrown, api, prisma, conflict_error, not_found_error}
use arc_id.Flow.Executor.{with_tx}
use arc_id.Flow.Monad.{Flow, State, Result, ok, err}
use arc_id.Flow.World.{World}
use arc_id.TenantIsolation.{Model, create, update, update_many, isolation_error}

-- `PLAN_CAPS[plan].members`; `none` is Infinity.
abbrev pub member_cap : Plan → Option ℕ
member_cap free = some 3
member_cap pro = some 50
member_cap enterprise = none

abbrev pub is_active : UserStatus → Bool
is_active UserStatus.active = true
is_active _ = false

abbrev pub is_pending : UserStatus → Bool
is_pending UserStatus.pending = true
is_pending _ = false

abbrev pub is_between : ℕ → ℕ → Membership → Bool
is_between tenant_id identity_id m = m.tenant_id == tenant_id && m.identity_id == identity_id

-- `status: { in: ["ACTIVE", "PENDING"] }`.
abbrev pub takes_seat : ℕ → Membership → Bool
takes_seat tenant_id m = m.tenant_id == tenant_id && (is_active m.status || is_pending m.status)

abbrev pub plan_limit_exceeded : Thrown
plan_limit_exceeded = api (api_error "MEMBER_CAP_REACHED" 400 Code.plan_cap)

unfoldable pub over_cap : Prisma → ℕ → Option ℕ → Db → Bool
over_cap q tenant_id none db = false
over_cap q tenant_id (some cap) db =
    leb cap (q.count_rows Membership (takes_seat tenant_id) db.memberships)

-- The isolation check of one write, and then the write.
unfoldable pub checked : {A : Type 0} → Option Thrown → Flow A → Flow A
checked none m s = m s
checked (some e) m s = err e s

abbrev pub new_membership : World → ℕ → ℕ → Role → ℕ → Membership
new_membership w tenant_id identity_id r id = record {
  id = id;
  identity_id = identity_id;
  tenant_id = tenant_id;
  role_id = r.id;
  status = UserStatus.pending;
}

-- The `data` of an update: a field that it leaves out stays as it is.
pub record MembershipData : Type 0 where
  pub tenant_id : Option ℕ
  pub role_id : Option ℕ
  pub status : Option UserStatus

unfoldable pub status_or : Option UserStatus → UserStatus → UserStatus
status_or none s = s
status_or (some t) s = t

unfoldable pub changed : MembershipData → Membership → Membership
unfolding status_or
changed d m = record m {
  tenant_id = get_or d.tenant_id m.tenant_id;
  role_id = get_or d.role_id m.role_id;
  status = status_or d.status m.status;
}

-- `{ roleId: role.id }` and `{ status: "INACTIVE" }`.
abbrev pub role_data : Role → MembershipData
role_data r = record { tenant_id = none; role_id = some r.id; status = none }

abbrev pub inactive_data : MembershipData
inactive_data = record { tenant_id = none; role_id = none; status = some UserStatus.inactive }

-- `tenantMembership.create`: one row for each identity and tenant.
unfoldable pub add_row : Prisma → World → ℕ → ℕ → Role → Flow Membership
unfolding checked isolation_error
add_row q w tenant_id identity_id r =
    checked (isolation_error Model.tenant_membership (create (some tenant_id))) λ s.
      let row = new_membership w tenant_id identity_id r (w.random s.drawn) in
      elim (q.create Membership (λ m. m.id == row.id || is_between tenant_id identity_id m) row
        s.db.memberships) [
          | none ↦ err (prisma "P2002") s
          | some rows ↦
              ok row (record s { db = record s.db { memberships = rows }; drawn = s.drawn + 1 })
        ]

-- `tenantMembership.update` by the identifier.
unfoldable pub change_role : Prisma → Membership → Role → Flow Membership
unfolding checked isolation_error changed
change_role q m r =
    checked (isolation_error Model.tenant_membership (update (role_data r).tenant_id)) λ s.
      ok (changed (role_data r) m) (record s {
        db = record s.db {
          memberships =
              (q.update_many Membership (λ x. x.id == m.id) (changed (role_data r))
                s.db.memberships).0;
        };
      })

unfoldable pub add_with_role :
    Prisma → World → ℕ → ℕ → Option Membership → Option Role → Flow Membership
unfolding add_row change_role
add_with_role q w tenant_id identity_id existing none s =
    err (not_found_error "Role not found for this tenant") s
add_with_role q w tenant_id identity_id none (some r) s = add_row q w tenant_id identity_id r s
add_with_role q w tenant_id identity_id (some m) (some r) s =
    if is_pending m.status then change_role q m r s else add_row q w tenant_id identity_id r s

abbrev pub role_named : Prisma → ℕ → String → Db → Option Role
role_named q tenant_id name db =
    q.find_first Role (λ r. str_eq r.name name && r.tenant_id == tenant_id) db.roles

abbrev pub has_status : (UserStatus → Bool) → Option Membership → Bool
has_status p none = false
has_status p (some m) = p m.status

unfoldable pub add_found :
    Prisma → World → ℕ → ℕ → String → Plan → Option Membership → Flow Membership
unfolding over_cap add_with_role
add_found q w tenant_id identity_id role_name plan existing s =
    if has_status is_active existing
    then err (conflict_error "Identity is already an active member of this tenant") s
    else (if not (has_status is_pending existing) && over_cap q tenant_id (member_cap plan) s.db
        then err plan_limit_exceeded s
        else add_with_role q w tenant_id identity_id existing
            (role_named q tenant_id role_name s.db) s)

-- `MembershipService.add`.
unfoldable pub add : Prisma → World → ℕ → ℕ → String → Plan → Flow Membership
unfolding with_tx add_found
add q w tenant_id identity_id role_name plan = with_tx q λ s.
    add_found q w tenant_id identity_id role_name plan
      (q.find_first Membership (is_between tenant_id identity_id) s.db.memberships) s

-- `MembershipService.remove`.
unfoldable pub remove : Prisma → ℕ → ℕ → Flow (Unit {0})
unfolding checked isolation_error changed
remove q tenant_id identity_id =
    checked (isolation_error Model.tenant_membership (update_many inactive_data.tenant_id)) λ s.
      let (rows, n) =
        q.update_many Membership (λ m. is_between tenant_id identity_id m && is_active m.status)
          (changed inactive_data) s.db.memberships in
      if n == 0
      then err (not_found_error "Active membership not found for this identity") s
      else ok tt (record s { db = record s.db { memberships = rows } })
