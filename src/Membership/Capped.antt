-- ===== src/Membership/Capped.antt =====
-- When a member is added.
use arc_id.Base.{
  ℕ, ◌≤◌, ◌≡◌, refl, Bool, true, false, ◌||◌, String, Option, none, some, List, [], ◌∷◌, ◌++◌, ◌==◌,
  find, any, count, count-append, arith, Option-cases, Bool-cases, inl, inr, ==_self,
}
use arc_id.Db.{Plan, Role, Membership, Db}
use arc_id.Db.Prisma.{Prisma, IsDocumented, documented, by_documentation}
use arc_id.Flow.Executor.{with_tx}
use arc_id.Flow.Monad.{State, ok, err}
use arc_id.Flow.World.{World}
use arc_id.TenantIsolation.{isolation_error, extract_tenant_id, isolation_violation}
use arc_id.Membership.{
  member_cap, is_pending, is_between, takes_seat, over_cap, checked, add_row, change_role,
  add_with_role, role_named, add_found, add,
}

-- The seats of a tenant are within its plan's cap.
abbrev pub WithinCap : Option ℕ → ℕ → Db → Type 0
WithinCap none tenant_id db = Unit {0}
WithinCap (some cap) tenant_id db = count (takes_seat tenant_id) db.memberships ≤ cap

-- What an addition that succeeds has found and done.
pub record Added (tenant_id identity_id : ℕ) (role_name : String) (plan : Plan) (before : Db)
    (m : Membership) (after : Db) : Type 0 where
  pub stranger : any (is_between tenant_id identity_id) before.memberships ≡ false
  pub role : Role
  pub named : role_named documented tenant_id role_name before ≡ some role
  pub of_role : m.role_id ≡ role.id
  pub pending : is_pending m.status ≡ true
  pub between : is_between tenant_id identity_id m ≡ true
  pub rows : after.memberships ≡ before.memberships ++ m ∷ []
  pub seats : WithinCap (member_cap plan) tenant_id after

any-or :
    {A : Type 0} (p q : A → Bool) (xs : List A)
    → any (λ x. p x || q x) xs ≡ false
    → any q xs ≡ false
any-or p q [] e = refl
any-or p q (x ∷ xs) e = ground (arith, any-or p q xs)

none_between :
    (t n : ℕ) (xs : List Membership) (m : Membership)
    → find (is_between t n) xs ≡ some m
    → any (is_between t n) xs ≡ true
none_between t n [] m f = absurd (ground arith)
none_between t n (x ∷ xs) m f = ground (arith, none_between t n xs m)

record Row (t n : ℕ) (r : Role) (before : Db) (m : Membership) (after : Db) : Type 0 where
  stranger : any (is_between t n) before.memberships ≡ false
  of_role : m.role_id ≡ r.id
  pending : is_pending m.status ≡ true
  between : is_between t n m ≡ true
  seat : takes_seat t m ≡ true
  rows : after.memberships ≡ before.memberships ++ m ∷ []

add_row-Row :
    (w : World) (t n : ℕ) (r : Role) (s : State) {m : Membership} {u : State}
    → add_row documented w t n r s ≡ ok m u
    → Row t n r s.db m u.db
unfolding add_row checked isolation_error extract_tenant_id
add_row-Row w t n r s {m} {u} e =
    elim (Bool-cases
      (any (λ (x : Membership). x.id == w.random s.drawn || is_between t n x) s.db.memberships)) [
        | inl k ↦ absurd (ground arith)
        | inr k ↦ record {
          stranger = any-or (λ x. x.id == w.random s.drawn) (is_between t n) s.db.memberships k;
          of_role = ground arith;
          pending = ground arith;
          between = ground (arith, ==_self t, ==_self n);
          seat = ground (arith, ==_self t);
          rows = ground arith;
        }
      ]

change_role-fails :
    (m : Membership) (r : Role) (s : State)
    → change_role documented m r s ≡ err isolation_violation s
unfolding change_role checked isolation_error extract_tenant_id
change_role-fails m r s = refl

seats_within :
    (o : Option ℕ) (t : ℕ) (before after : Db) (m : Membership)
    → over_cap documented t o before ≡ false
    → after.memberships ≡ before.memberships ++ m ∷ []
    → WithinCap o t after
unfolding over_cap
seats_within none t before after m e rows = tt
seats_within (some cap) t before after m e rows =
    rw (rows, count-append (takes_seat t) before.memberships (m ∷ [])) (ground arith)

found-Added :
    (w : World) (t n : ℕ) (name : String) (plan : Plan) (o : Option Membership) (s : State)
    {m : Membership} {u : State}
    → find (is_between t n) s.db.memberships ≡ o
    → add_found documented w t n name plan o s ≡ ok m u
    → Added t n name plan s.db m u.db
unfolding add_found add_with_role
found-Added w t n name plan none s {m} {u} f e =
    elim (Option-cases (role_named documented t name s.db)) [
      | inl k ↦ absurd (ground arith)
      | inr (r, k) ↦
          let row = add_row-Row w t n r s {m = m} {u = u} (ground arith) in
          record {
            stranger = row.stranger;
            role = r;
            named = k;
            of_role = row.of_role;
            pending = row.pending;
            between = row.between;
            rows = row.rows;
            seats = seats_within (member_cap plan) t s.db u.db m (ground arith) row.rows;
          }
    ]
found-Added w t n name plan (some x) s {m} {u} f e =
    elim (Option-cases (role_named documented t name s.db)) [
      | inl k ↦ absurd (ground arith)
      | inr (r, k) ↦ elim (Bool-cases (is_pending x.status)) [
        | inl h ↦ absurd (ground (arith, change_role-fails x r s))
        | inr h ↦
            let row = add_row-Row w t n r s {m = m} {u = u} (ground arith) in
            absurd (ground (arith, row.stranger, none_between t n s.db.memberships x f))
      ]
    ]

pub add-cases :
    (w : World) (t n : ℕ) (name : String) (plan : Plan) (s : State) {m : Membership} {u : State}
    → add documented w t n name plan s ≡ ok m u
    → Added t n name plan s.db m u.db
unfolding add with_tx
add-cases w t n name plan s {m} {u} e =
    found-Added w t n name plan (find (is_between t n) s.db.memberships) s {m = m} {u = u} refl
      (ground arith)

-- A membership that is added is a new one: the identity had no membership of the tenant, whatever its
-- status; it is pending, with the tenant's role of that name; and the tenant's active and pending
-- members, this one among them, are within the cap of the caller's plan.
pub add-Added :
    (q : Prisma)
    → IsDocumented q
    → (w : World) (tenant_id identity_id : ℕ) (role_name : String) (plan : Plan) (s : State)
      {m : Membership} {u : State}
    → add q w tenant_id identity_id role_name plan s ≡ ok m u
    → Added tenant_id identity_id role_name plan s.db m u.db
add-Added q d w t n name plan s {m} {u} =
    by_documentation (λ q. add q w t n name plan s ≡ ok m u → Added t n name plan s.db m u.db) d
      (add-cases w t n name plan s)
