-- ===== src/UrlSafety/Ranges.antt =====
-- Which IPv4 addresses the patterns call private.
use arc_id.Base.{
  ℕ, ◌+◌, ◌/◌, ◌%◌, ◌<◌, ◌≡◌, refl, Bool, true, false, ◌&&◌, ◌||◌, not, List, [], ◌∷◌, ◌++◌, ltb,
  leb, ◌==◌, arith, Bool-cases, inl, inr, if◌then◌else◌, ◌∙◌, sym, subst, ◌⊎◌,
}
use arc_id.Multibase.Value.{all_below, all_below_lem}
use arc_id.UrlSafety.{is_private_ipv4}

-- An octet in decimal.
abbrev pub decimal : ℕ → List ℕ
decimal n =
    if ltb n 10
    then (b'0' + n) ∷ []
    else (if ltb n 100
        then (b'0' + n / 10) ∷ (b'0' + n % 10) ∷ []
        else (b'0' + n / 100) ∷ (b'0' + (n / 10) % 10) ∷ (b'0' + n % 10) ∷ [])

-- The blocks by number: this network, loopback, private, shared, link-local, and 255.
abbrev pub in_block : ℕ → ℕ → Bool
in_block a b =
    (a == 0)
    || (a == 127)
    || (a == 10)
    || (a == 172 && leb 16 b && leb b 31)
    || (a == 192 && b == 168)
    || (a == 169 && b == 254)
    || (a == 100 && leb 64 b && leb b 127)
    || (a == 255)

abbrev same : Bool → Bool → Bool
same true b = b
same false b = not b

abbrev pub address : ℕ → ℕ → List ℕ → List ℕ
address a b rest = decimal a ++ b'.' ∷ (decimal b ++ b'.' ∷ rest)

-- Where the second octet matters, a table for each first octet; elsewhere it is not looked at.
abbrev depends : ℕ → Bool
depends a = (a == 172) || (a == 192) || (a == 169) || (a == 100)

first_octets :
    (rest : List ℕ)
    → all_below
        (λ a. depends a || same (is_private_ipv4 (decimal a ++ b'.' ∷ rest)) (in_block a 0))
        256
      ≡ true
unfolding is_private_ipv4
first_octets rest = refl

second_octets :
    (rest : List ℕ)
    → all_below
        (λ b.
          same (is_private_ipv4 (address 172 b rest)) (in_block 172 b)
          && same (is_private_ipv4 (address 192 b rest)) (in_block 192 b)
          && same (is_private_ipv4 (address 169 b rest)) (in_block 169 b)
          && same (is_private_ipv4 (address 100 b rest)) (in_block 100 b))
        256
      ≡ true
unfolding is_private_ipv4
second_octets rest = refl

same_eq : (x y : Bool) → same x y ≡ true → x ≡ y
same_eq x y e = ground (arith, e)

first_octet :
    (a b : ℕ) (rest : List ℕ)
    → a < 256
    → depends a ≡ false
    → is_private_ipv4 (decimal a ++ b'.' ∷ rest) ≡ in_block a b
first_octet a b rest l e =
    let row =
      all_below_lem
        (λ a. depends a || same (is_private_ipv4 (decimal a ++ b'.' ∷ rest)) (in_block a 0)) 256 a
        (first_octets rest) l in
    let now : is_private_ipv4 (decimal a ++ b'.' ∷ rest) ≡ in_block a 0 =
      same_eq _ _ (ground (arith, row)) in
    let later : in_block a 0 ≡ in_block a b = ground arith in now ∙ later

second_octet :
    (a b : ℕ) (rest : List ℕ)
    → b < 256
    → depends a ≡ true
    → is_private_ipv4 (address a b rest) ≡ in_block a b
second_octet a b rest l e =
    let row =
      all_below_lem
        (λ b.
          same (is_private_ipv4 (address 172 b rest)) (in_block 172 b)
          && same (is_private_ipv4 (address 192 b rest)) (in_block 192 b)
          && same (is_private_ipv4 (address 169 b rest)) (in_block 169 b)
          && same (is_private_ipv4 (address 100 b rest)) (in_block 100 b))
        256 b (second_octets rest) l in
    let (p, q, r, s) = four _ _ _ _ row in
    elim (one_of a e) [
      | inl h ↦
          subst (λ a. is_private_ipv4 (address a b rest) ≡ in_block a b) (sym h) (same_eq _ _ p)
      | inr (inl h) ↦
          subst (λ a. is_private_ipv4 (address a b rest) ≡ in_block a b) (sym h) (same_eq _ _ q)
      | inr (inr (inl h)) ↦
          subst (λ a. is_private_ipv4 (address a b rest) ≡ in_block a b) (sym h) (same_eq _ _ r)
      | inr (inr (inr h)) ↦
          subst (λ a. is_private_ipv4 (address a b rest) ≡ in_block a b) (sym h) (same_eq _ _ s)
    ]
  where
    four :
        (p q r s : Bool)
        → p && q && r && s ≡ true
        → (p ≡ true) × (q ≡ true) × (r ≡ true) × (s ≡ true)
    four p q r s e = ground arith

    one_of : (a : ℕ) → depends a ≡ true → (a ≡ 172) ⊎ (a ≡ 192) ⊎ (a ≡ 169) ⊎ (a ≡ 100)
    one_of a e = ground arith

-- The patterns say of every dotted address what the numbers of its first two octets say: private are
-- 0/8, 10/8, 100.64/10, 127/8, 169.254/16, 172.16/12, 192.168/16 and 255/8, and no other.
pub is_private_ipv4-in_block :
    (a b : ℕ) (rest : List ℕ)
    → a < 256
    → b < 256
    → is_private_ipv4 (address a b rest) ≡ in_block a b
is_private_ipv4-in_block a b rest la lb = elim (Bool-cases (depends a)) [
  | inl h ↦ second_octet a b rest lb h
  | inr h ↦ first_octet a b (decimal b ++ b'.' ∷ rest) la h
]
