-- ===== src/Flow/Keeps.antt =====
-- Properties of the database that a flow keeps, whether it ends well or throws.
use arc_id.Base.{◌≡◌, Bool, true, false, Option, none, some, subst}
use arc_id.Db.{Db}
use arc_id.Flow.Errors.{Thrown}
use arc_id.Flow.Monad.{
  Flow, State, Result, ok, err, ◌>>=◌, ◌>>◌, pure, throw, reads, writes, start, throw_if, or_throw,
  state_of, Effect,
}
use arc_id.Flow.World.{World, draw}

-- A record, so that the rules below are found by the shape of the flow.
pub record Keeps (I : Db → Type 0) {A : Type 0} (m : Flow A) : Type 0 where
  pub keeps : (s : State) → I s.db → I (state_of (m s)).db

module _ {I : Db → Type 0} where
  bind_result :
      {A B : Type 0} (r : Result A) (f : A → Flow B)
      → ((a : A) → Keeps I (f a))
      → I (state_of r).db
      → I (state_of (elim r [ ok a t ↦ f a t | err e t ↦ err e t ])).db
  bind_result (ok a t) f k h = (k a).keeps t h
  bind_result (err e t) f k h = h

  pub Keeps-bind :
      {A B : Type 0} {m : Flow A} {f : A → Flow B}
      → Keeps I m
      → ((a : A) → Keeps I (f a))
      → Keeps I (m >>= f)
  Keeps-bind {m} {f} k l = record { keeps = λ s h. bind_result (m s) f l (k.keeps s h) }

  pub Keeps-then :
      {B : Type 0} {m : Flow (Unit {0})} {k : Flow B} → Keeps I m → Keeps I k → Keeps I (m >> k)
  Keeps-then h l = Keeps-bind h (λ _. l)

  pub Keeps-pure : {A : Type 0} (a : A) → Keeps I (pure a)
  Keeps-pure a = record { keeps = λ s h. h }

  pub Keeps-throw : {A : Type 0} (e : Thrown) → Keeps I (throw {A = A} e)
  Keeps-throw e = record { keeps = λ s h. h }

  pub Keeps-reads : {A : Type 0} (g : Db → A) → Keeps I (reads g)
  Keeps-reads g = record { keeps = λ s h. h }

  pub Keeps-writes : (g : Db → Db) → ((db : Db) → I db → I (g db)) → Keeps I (writes g)
  Keeps-writes g k = record { keeps = λ s h. k s.db h }

  pub Keeps-start : (e : Effect) → Keeps I (start e)
  Keeps-start e = record { keeps = λ s h. h }

  pub Keeps-draw : (w : World) → Keeps I (draw w)
  Keeps-draw w = record { keeps = λ s h. h }

  pub Keeps-throw_if : (b : Bool) (e : Thrown) → Keeps I (throw_if b e)
  Keeps-throw_if true e = record { keeps = λ s h. h }
  Keeps-throw_if false e = record { keeps = λ s h. h }

  pub Keeps-or_throw : {A : Type 0} (o : Option A) (e : Thrown) → Keeps I (or_throw o e)
  Keeps-or_throw none e = record { keeps = λ s h. h }
  Keeps-or_throw (some a) e = record { keeps = λ s h. h }

  -- A kept property holds in the state of a run that ended well.
  pub Keeps-ok :
      {A : Type 0} {m : Flow A} {s t : State} {a : A} → Keeps I m → m s ≡ ok a t → I s.db → I t.db
  Keeps-ok {s} k e h = subst (λ r. I (state_of r).db) e (k.keeps s h)
