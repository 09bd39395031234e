-- ===== src/Base/Rules.antt =====
-- What a search finds satisfies its test.
use mathlib.Core.Path.{◌≡◌}
use mathlib.Core.Bool.{Bool, true}
use mathlib.Core.List.{List, [], ◌∷◌}
use mathlib.Core.Option.{some}
use native.Mathlib.Omega.{arith}
use arc_id.Base.Lists.{find}

module _ {ℓ} {A : Type ℓ} where
  pub find_sound : (p : A → Bool) (xs : List A) (x : A) → find p xs ≡ some x → p x ≡ true
  find_sound p [] x e = ground arith
  find_sound p (y ∷ ys) x e = ground (arith, find_sound p ys x)
