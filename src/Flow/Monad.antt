-- ===== src/Flow/Monad.antt =====
-- Flows as functions of the state: `Promise<A>` with the database, the Redis store
-- and the unawaited calls explicit.
use arc_id.Base.{ℕ, ◌≡◌, refl, Bool, true, false, String, Option, none, some, List, ◌∷◌}
use arc_id.Db.{Db}
use arc_id.LoginAttempt.Commands.{Store}
use arc_id.Flow.Errors.{Thrown}

-- A call that the flow starts and does not wait for.
pub data Effect : Type 0 where
  audit : String → Option ℕ → Effect
  block_jti record_jti : ℕ → ℕ → Effect
  clear_attempts : ℕ → Effect
  new_device_login : Option ℕ → Effect

pub record State : Type 0 where
  pub db : Db
  pub effects : List Effect
  pub drawn : ℕ
  pub store : Store

pub data Result (A : Type 0) : Type 0 where
  ok : A → State → Result A
  err : Thrown → State → Result A

abbrev pub Flow : Type 0 → Type 0
Flow A = State → Result A

infixl 5 ◌>>=◌ ◌>>◌
abbrev pub ◌>>=◌ : {A B : Type 0} → Flow A → (A → Flow B) → Flow B
◌>>=◌ m f s = elim (m s) [ ok a t ↦ f a t | err e t ↦ err e t ]

abbrev pub ◌>>◌ : {B : Type 0} → Flow (Unit {0}) → Flow B → Flow B
◌>>◌ m k = m >>= λ _. k

abbrev pub pure : {A : Type 0} → A → Flow A
pure a s = ok a s

abbrev pub throw : {A : Type 0} → Thrown → Flow A
throw e s = err e s

abbrev pub reads : {A : Type 0} → (Db → A) → Flow A
reads f s = ok (f s.db) s

abbrev pub writes : (Db → Db) → Flow (Unit {0})
writes f s = ok tt (record s { db = f s.db })

abbrev pub start : Effect → Flow (Unit {0})
start e s = ok tt (record s { effects = e ∷ s.effects })

-- `if (test) throw error`.
abbrev pub throw_if : Bool → Thrown → Flow (Unit {0})
throw_if true e s = err e s
throw_if false e s = ok tt s

-- `if (!value) throw error`, and then the value.
abbrev pub or_throw : {A : Type 0} → Option A → Thrown → Flow A
or_throw none e s = err e s
or_throw (some a) e s = ok a s

-- A write that may fail on a unique column, with Prisma's code for it.
abbrev pub written : Option Db → Flow (Unit {0})
written none s = err (Thrown.prisma "P2002") s
written (some db) s = ok tt (record s { db = db })

abbrev pub state_of : {A : Type 0} → Result A → State
state_of (ok a s) = s
state_of (err e s) = s

-- Inversion of a successful bind.
pub >>=-eq-ok :
    {A B : Type 0} (m : Flow A) (f : A → Flow B) {s : State} {b : B} {u : State}
    → (m >>= f) s ≡ ok b u
    → (a : A) × (t : State) × (m s ≡ ok a t) × (f a t ≡ ok b u)
>>=-eq-ok {A} {B} m f {s} {b} {u} h = go (m s) refl h
  where
    go :
        (r : Result A)
        → m s ≡ r
        → (elim r [ ok a t ↦ f a t | err e t ↦ err e t ]) ≡ ok b u
        → (a : A) × (t : State) × (m s ≡ ok a t) × (f a t ≡ ok b u)
    go (ok a t) e k = (a, t, e, k)
    go (err x t) e k = cc
