-- ===== src/PasswordRules.antt =====
-- src/lib/security/password-rules.ts. A password is the list of its UTF-16 code units.
use arc_id.Base.{
  ℕ, ◌≤◌, ◌≡◌, ◌↔◌, refl, Bool, true, false, ◌&&◌, ◌||◌, not, Option, none, some, List, [], ◌∷◌,
  ◌++◌, ltb, leb, ◌==◌, any, length, arith, if◌then◌else◌, sym, ◌∙◌,
}
use arc_id.Db.{PasswordRules, TenantPolicy, Db}
use arc_id.Db.Prisma.{Prisma, IsDocumented, documented, by_documentation}
use arc_id.Flow.Errors.{bad_request_error}
use arc_id.Flow.Monad.{Flow, State, ok, err}
use arc_id.Flow.World.{World}

pub data Violation : Type 0 where
  too_short no_uppercase no_lowercase no_number no_symbol : Violation

abbrev pub is_upper : ℕ → Bool
is_upper c = leb b'A' c && leb c b'Z'

abbrev pub is_lower : ℕ → Bool
is_lower c = leb b'a' c && leb c b'z'

abbrev pub is_number : ℕ → Bool
is_number c = leb b'0' c && leb c b'9'

abbrev pub is_symbol : ℕ → Bool
is_symbol c = not (is_upper c || is_lower c || is_number c)

abbrev pub push_if : Bool → Violation → List Violation → List Violation
push_if broken v errors = if broken then errors ++ v ∷ [] else errors

-- `rules.minLength && password.length < rules.minLength`, where a minimum of 0 counts as none.
unfoldable pub is_short : Option ℕ → List ℕ → Bool
is_short none password = false
is_short (some n) password = not (n == 0) && ltb (length password) n

unfoldable pub violations : PasswordRules → List ℕ → List Violation
unfolding is_short
violations r password =
    push_if (r.require_symbol && not (any is_symbol password)) Violation.no_symbol (
      push_if (r.require_number && not (any is_number password)) Violation.no_number (
        push_if (r.require_lowercase && not (any is_lower password)) Violation.no_lowercase (
          push_if (r.require_uppercase && not (any is_upper password)) Violation.no_uppercase
            (push_if (is_short r.min_length password) Violation.too_short []))))

-- `validatePassword`.
unfoldable pub validate_password : List ℕ → Option PasswordRules → List Violation
unfolding violations
validate_password password none = []
validate_password password (some r) = violations r password

-- `parsed?.success ? parsed.data : undefined`.
unfoldable pub rules_of : Option TenantPolicy → Option PasswordRules
rules_of none = none
rules_of (some p) = elim p.password_rules [ none ↦ none | some rules ↦ rules ]

abbrev pub system_rules : Prisma → World → Db → Option PasswordRules
system_rules q w db =
    rules_of (q.find_first TenantPolicy (λ p. p.tenant_id == w.system_tenant_id) db.policies)

unfoldable pub refuse_any : List Violation → Flow (Unit {0})
refuse_any [] s = ok tt s
refuse_any (v ∷ vs) s = err (bad_request_error "Password violates the rules") s

-- `enforceSystemPasswordRules`.
unfoldable pub enforce_system_password_rules : Prisma → World → List ℕ → Flow (Unit {0})
unfolding rules_of refuse_any validate_password
enforce_system_password_rules q w password s =
    refuse_any (validate_password password (system_rules q w s.db)) s

-- A required class of characters has a member in the password.
abbrev pub Shown : Bool → Bool → Type 0
Shown false found = Unit {0}
Shown true found = found ≡ true

abbrev pub LongEnough : Option ℕ → List ℕ → Type 0
LongEnough none password = Unit {0}
LongEnough (some n) password = n ≤ length password

-- What the rules ask for.
abbrev pub Satisfies : Option PasswordRules → List ℕ → Type 0
Satisfies none password = Unit {0}
Satisfies (some r) password =
    LongEnough r.min_length password
    × Shown r.require_uppercase (any is_upper password)
    × Shown r.require_lowercase (any is_lower password)
    × Shown r.require_number (any is_number password)
    × Shown r.require_symbol (any is_symbol password)

abbrev is_empty : List Violation → Bool
is_empty [] = true
is_empty (v ∷ vs) = false

push_if-empty :
    (b : Bool) (v : Violation) (vs : List Violation)
    → is_empty (push_if b v vs) ≡ not b && is_empty vs
push_if-empty true v [] = refl
push_if-empty true v (x ∷ xs) = refl
push_if-empty false v [] = refl
push_if-empty false v (x ∷ xs) = refl

Shown-iff : (b f : Bool) → (b && not f ≡ false) ↔ Shown b f
Shown-iff true f = (λ e. ground (arith, e), λ e. ground (arith, e))
Shown-iff false f = (λ e. tt, λ e. refl)

LongEnough-iff : (o : Option ℕ) (p : List ℕ) → (is_short o p ≡ false) ↔ LongEnough o p
unfolding is_short
LongEnough-iff none p = (λ e. tt, λ e. refl)
LongEnough-iff (some n) p = (λ e. ground (arith, e), λ e. ground (arith, e))

all_false :
    (a b c d e : Bool)
    → not a && (not b && (not c && (not d && (not e && true)))) ≡ true
    → (a ≡ false) × (b ≡ false) × (c ≡ false) × (d ≡ false) × (e ≡ false)
all_false a b c d e h = ground arith

empty_violations :
    (r : PasswordRules) (p : List ℕ)
    → is_empty (violations r p)
      ≡ not (r.require_symbol && not (any is_symbol p))
        && (not (r.require_number && not (any is_number p))
            && (not (r.require_lowercase && not (any is_lower p))
                && (not (r.require_uppercase && not (any is_upper p))
                    && (not (is_short r.min_length p) && true))))
unfolding violations
empty_violations r p = simp (push_if-empty) refl

to_Satisfies :
    (o : Option PasswordRules) (p : List ℕ)
    → is_empty (validate_password p o) ≡ true
    → Satisfies o p
unfolding validate_password
to_Satisfies none p e = tt
to_Satisfies (some r) p e =
    let (a, b, c, d, f) = all_false _ _ _ _ _ (sym (empty_violations r p) ∙ e) in
    (
      (LongEnough-iff r.min_length p).0 f,
      (Shown-iff r.require_uppercase _).0 d,
      (Shown-iff r.require_lowercase _).0 c,
      (Shown-iff r.require_number _).0 b,
      (Shown-iff r.require_symbol _).0 a,
    )

from_Satisfies :
    (o : Option PasswordRules) (p : List ℕ)
    → Satisfies o p
    → is_empty (validate_password p o) ≡ true
unfolding validate_password
from_Satisfies none p h = refl
from_Satisfies (some r) p (l, u, w, n, s) =
    empty_violations r p
    ∙ rw
        (
          (LongEnough-iff r.min_length p).1 l,
          (Shown-iff r.require_uppercase _).1 u,
          (Shown-iff r.require_lowercase _).1 w,
          (Shown-iff r.require_number _).1 n,
          (Shown-iff r.require_symbol _).1 s,
        )
        refl

refuse_any_iff :
    (vs : List Violation) (s : State) → (refuse_any vs s ≡ ok tt s) ↔ (is_empty vs ≡ true)
unfolding refuse_any
refuse_any_iff [] s = (λ e. refl, λ e. refl)
refuse_any_iff (v ∷ vs) s = (λ e. absurd (ground arith), λ e. absurd (ground arith))

-- A password passes exactly if it satisfies the rules of the system tenant's policy: its length is
-- the minimum at least, and each class of characters that they require has a member in it. Where the
-- tenant has no rules, or their schema rejects them, every password passes.
pub enforce_system_password_rules-Satisfies :
    (q : Prisma)
    → IsDocumented q
    → (w : World) (password : List ℕ) (s : State)
    → (enforce_system_password_rules q w password s ≡ ok tt s)
      ↔ Satisfies (system_rules q w s.db) password
unfolding enforce_system_password_rules
enforce_system_password_rules-Satisfies q d w password s =
    by_documentation
      (λ q.
        (enforce_system_password_rules q w password s ≡ ok tt s)
        ↔ Satisfies (system_rules q w s.db) password)
      d
      (let rules = system_rules documented w s.db in
        let (there, back) = refuse_any_iff (validate_password password rules) s in
        (λ e. to_Satisfies rules password (there e), λ h. back (from_Satisfies rules password h)))
