-- ===== src/Guard/Refused.antt =====
-- What the checks refuse, and what a request that they let through has shown.
use arc_id.Base.{
  ℕ, ◌≡◌, refl, Bool, true, false, Option, none, some, List, [], ◌∷◌, ◌++◌, ◌==◌, find, any,
  is_some, arith, Bool-cases, inl, inr, ==_self,
}
use arc_id.Db.{RevokedJti, Db}
use arc_id.Db.Prisma.{documented}
use arc_id.Blocklist.{is_jti_blocked}
use arc_id.Flow.World.{World}
use arc_id.Refresh.KillChain.{record_revoked_jti}
use arc_id.Guard.{
  Payload, Caller, Server, Verdict, admit, refuse, upgrade_required, type_error, Jwt, revoked_in_db,
  admit_unless, admit_user, by_sub, by_jwt, api_key_of, require_user,
}

abbrev pub admits : Verdict → Bool
admits (admit c sv) = true
admits (refuse e sv) = false
admits (upgrade_required plan sv) = false
admits (type_error sv) = false

-- A request whose header holds no API key, but a token that verifies with the claims `p`.
pub record Bears (jwt : Jwt) (header : List ℕ) (p : Payload) : Type 0 where
  pub no_key : api_key_of header ≡ none
  pub verified : jwt header ≡ some p

listed-append :
    (jti : ℕ) (r : RevokedJti) (rows : List RevokedJti)
    → r.jti ≡ jti
    → is_some (find (λ x. x.jti == jti) (rows ++ r ∷ [])) ≡ true
listed-append jti r [] h = ground (arith, ==_self jti)
listed-append jti r (x ∷ xs) h = ground (arith, listed-append jti r xs h)

listed-any :
    (jti : ℕ) (rows : List RevokedJti)
    → any (λ x. x.jti == jti) rows ≡ true
    → is_some (find (λ x. x.jti == jti) rows) ≡ true
listed-any jti [] h = absurd (ground arith)
listed-any jti (x ∷ xs) h = ground (arith, listed-any jti xs)

-- After the write a jti is in the table, whether it was there before or not.
pub record_revoked_jti-listed :
    (jti t : ℕ) (db : Db)
    → revoked_in_db documented jti (record_revoked_jti documented jti t db) ≡ true
record_revoked_jti-listed jti t db = elim (Bool-cases (any (λ x. x.jti == jti) db.revoked_jtis)) [
  | inl k ↦ ground (arith, listed-any jti db.revoked_jtis k)
  | inr k ↦
      ground (arith, listed-append jti (record { jti = jti; expires_at = t }) db.revoked_jtis refl)
]

by_sub-listed :
    (w : World) (p : Payload) (sub : Option ℕ) (jti : ℕ) (sv : Server)
    → p.jti ≡ some jti
    → revoked_in_db documented jti sv.db ≡ true
    → admits (by_sub documented w p sub sv) ≡ false
unfolding by_sub
by_sub-listed w p none jti sv j l = refl
by_sub-listed w p (some sub) jti sv j l = ground arith

-- The table alone is enough to refuse, whatever the blocklist answers.
pub require_user-listed :
    (w : World) (jwt : Jwt) (header : List ℕ) (p : Payload) (jti : ℕ) (sv : Server)
    → Bears jwt header p
    → p.jti ≡ some jti
    → revoked_in_db documented jti sv.db ≡ true
    → admits (require_user documented w jwt header sv) ≡ false
unfolding require_user by_jwt
require_user-listed w jwt header p jti sv b j l =
    rw (b.no_key) (rw (b.verified) (by_sub-listed w p p.sub jti sv j l))

by_sub-blocked :
    (w : World) (p : Payload) (sub : Option ℕ) (jti : ℕ) (sv : Server)
    → p.jti ≡ some jti
    → (is_jti_blocked w.redis w.now jti sv.blocklist).0 ≡ true
    → admits (by_sub documented w p sub sv) ≡ false
unfolding by_sub
by_sub-blocked w p none jti sv j l = refl
by_sub-blocked w p (some sub) jti sv j l = ground arith

-- The blocklist alone is enough to refuse, whatever the table holds.
pub require_user-blocked :
    (w : World) (jwt : Jwt) (header : List ℕ) (p : Payload) (jti : ℕ) (sv : Server)
    → Bears jwt header p
    → p.jti ≡ some jti
    → (is_jti_blocked w.redis w.now jti sv.blocklist).0 ≡ true
    → admits (require_user documented w jwt header sv) ≡ false
unfolding require_user by_jwt
require_user-blocked w jwt header p jti sv b j l =
    rw (b.no_key) (rw (b.verified) (by_sub-blocked w p p.sub jti sv j l))

admit_unless-user :
    (w : World) (p : Payload) (sub : ℕ) (checked : Bool × Server) {c : Caller} {sv : Server}
    → admit_unless documented w p sub checked ≡ admit c sv
    → (c.user ≡ some p) × (c.id ≡ some sub) × (sv ≡ checked.1) × (checked.0 ≡ false)
unfolding admit_unless admit_user
admit_unless-user w p sub (true, sv₁) e = absurd (ground arith)
admit_unless-user w p sub (false, sv₁) e = (ground arith, ground arith, ground arith, refl)
