-- ===== src/Refresh/Spent.antt =====
-- Spent refresh tokens: the row that a token value finds is revoked. Every write of the token
-- service and of the kill chain keeps that.
use arc_id.Base.{
  ℕ, ◌≡◌, Bool, true, false, some, List, [], ◌∷◌, ◌++◌, ◌==◌, find, modify, Bool-cases, inl, inr,
  if◌then◌else◌, arith,
}
use arc_id.Db.{RefreshToken, Db}

abbrev pub spent_in : ℕ → List RefreshToken → Bool
spent_in raw [] = false
spent_in raw (t ∷ ts) = if t.token == raw then t.revoked else spent_in raw ts

abbrev pub Spent : ℕ → Db → Type 0
Spent raw db = spent_in raw db.refresh_tokens ≡ true

pub spent_in-append :
    (raw : ℕ) (ts us : List RefreshToken) → spent_in raw ts ≡ true → spent_in raw (ts ++ us) ≡ true
spent_in-append raw [] us h = ground arith
spent_in-append raw (t ∷ ts) us h = ground (arith, spent_in-append raw ts us)

-- A change that keeps the token's value and revokes or leaves it.
abbrev pub OnlyRevokes : (RefreshToken → RefreshToken) → Type 0
OnlyRevokes f =
    (t : RefreshToken) → ((f t).token ≡ t.token) × (t.revoked ≡ true → (f t).revoked ≡ true)

pub spent_in-modify :
    (raw : ℕ) (p : RefreshToken → Bool) (f : RefreshToken → RefreshToken) (ts : List RefreshToken)
    → OnlyRevokes f
    → spent_in raw ts ≡ true
    → spent_in raw (modify p f ts) ≡ true
spent_in-modify raw p f [] o h = h
spent_in-modify raw p f (t ∷ ts) o h =
    ground (arith, (o t).0, (o t).1, spent_in-modify raw p f ts o)

pub spent_in_found :
    (raw : ℕ) (ts : List RefreshToken)
    → spent_in raw ts ≡ true
    → (t : RefreshToken) × (find (λ r. r.token == raw) ts ≡ some t) × (t.revoked ≡ true)
spent_in_found raw [] h = absurd (ground arith)
spent_in_found raw (t ∷ ts) h = elim (Bool-cases (t.token == raw)) [
  | inl e ↦ (t, ground arith, ground arith)
  | inr e ↦ let (u, f, r) = spent_in_found raw ts (ground arith) in (u, ground arith, r)
]
