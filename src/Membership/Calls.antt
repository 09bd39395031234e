-- ===== src/Membership/Calls.antt =====
-- What any calls of the membership service leave of the memberships.
use arc_id.Base.{
  ℕ, ◌≡◌, refl, Bool, true, String, List, [], ◌∷◌, ◌++◌, all, arith, sym, subst, ◌∙◌, ap,
}
use arc_id.Db.{Plan, Membership, Db}
use arc_id.Db.Prisma.{Prisma, IsDocumented, documented, by_documentation}
use arc_id.Flow.Executor.{with_tx}
use arc_id.Flow.Monad.{State, Result, ok, err, state_of}
use arc_id.Flow.World.{World}
use arc_id.TenantIsolation.{isolation_error, extract_tenant_id}
use arc_id.Membership.{is_pending, checked, add, remove}
use arc_id.Membership.Capped.{add-cases}

pub data Call : Type 0 where
  add_member : World → ℕ → ℕ → String → Plan → Call
  remove_member : ℕ → ℕ → Call

abbrev pub served : Prisma → Call → State → State
served q (add_member w tenant_id identity_id role_name plan) s =
    state_of (add q w tenant_id identity_id role_name plan s)
served q (remove_member tenant_id identity_id) s = state_of (remove q tenant_id identity_id s)

-- Calls one after another, whether they succeed or fail.
abbrev pub served_all : Prisma → List Call → State → State
served_all q [] s = s
served_all q (c ∷ cs) s = served_all q cs (served q c s)

-- The memberships from before, in their order and unchanged, and behind them pending ones.
pub record Appended (before after : Db) : Type 0 where
  pub new : List Membership
  pub rows : after.memberships ≡ before.memberships ++ new
  pub pending : all (λ m. is_pending m.status) new ≡ true

none_new : (db : Db) → Appended db db
none_new db = record { new = []; rows = sym (append_nil db.memberships); pending = refl }
  where
    append_nil : (ms : List Membership) → ms ++ [] ≡ ms
    append_nil [] = refl
    append_nil (m ∷ ms) = ap (λ xs. m ∷ xs) (append_nil ms)

append_assoc : (xs ys zs : List Membership) → (xs ++ ys) ++ zs ≡ xs ++ (ys ++ zs)
append_assoc [] ys zs = refl
append_assoc (x ∷ xs) ys zs = ap (λ us. x ∷ us) (append_assoc xs ys zs)

all-append :
    (p : Membership → Bool) (xs ys : List Membership)
    → all p xs ≡ true
    → all p ys ≡ true
    → all p (xs ++ ys) ≡ true
all-append p [] ys h k = k
all-append p (x ∷ xs) ys h k = ground (arith, all-append p xs ys)

both : {a b c : Db} → Appended a b → Appended b c → Appended a c
both {a} {b} {c} x y = record {
  new = x.new ++ y.new;
  rows = y.rows ∙ ap (λ ms. ms ++ y.new) x.rows ∙ append_assoc a.memberships x.new y.new;
  pending = all-append (λ m. is_pending m.status) x.new y.new x.pending y.pending;
}

add-Appended :
    (w : World) (t n : ℕ) (name : String) (plan : Plan) (s : State) (r : Result Membership)
    → add documented w t n name plan s ≡ r
    → Appended s.db (state_of r).db
unfolding add with_tx
add-Appended w t n name plan s (ok m u) e =
    let x = add-cases w t n name plan s {m = m} {u = u} e in
    record { new = m ∷ []; rows = x.rows; pending = ground (arith, x.pending) }
add-Appended w t n name plan s (err e' u) e =
    let same : u.db ≡ s.db = ground arith in
    subst (λ db. Appended s.db db) (sym same) (none_new s.db)

served-Appended : (c : Call) (s : State) → Appended s.db (served documented c s).db
unfolding remove checked isolation_error extract_tenant_id
served-Appended (add_member w t n name plan) s = add-Appended w t n name plan s _ refl
served-Appended (remove_member t n) s = none_new s.db

all-Appended : (cs : List Call) (s : State) → Appended s.db (served_all documented cs s).db
all-Appended [] s = none_new s.db
all-Appended (c ∷ cs) s = both (served-Appended c s) (all-Appended cs (served documented c s))

-- Whatever additions and removals are called, in whatever order and with whatever outcome, every
-- membership from before is still there, with its status and its role, and each one that came is
-- pending: no member is made inactive, and none active.
pub served_all-Appended :
    (q : Prisma)
    → IsDocumented q
    → (cs : List Call) (s : State) → Appended s.db (served_all q cs s).db
served_all-Appended q d cs s =
    by_documentation (λ q. Appended s.db (served_all q cs s).db) d (all-Appended cs s)
