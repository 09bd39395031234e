-- ===== src/StatusList/Codec.antt =====
-- A bit list answers what its entries say.
use arc_id.Base.{
  ℕ, zero, suc, ◌+◌, ◌-◌, ◌/◌, ◌%◌, ◌^◌, ◌<◌, ◌≡◌, refl, Bool, true, ◌&&◌, ◌||◌, List, [], ◌∷◌, All,
  any, length, get_elem?, get_or, ◌==◌, if◌then◌else◌, arith, Bool-cases, inl, inr, ap, ◌∙◌,
}
use arc_id.StatusList.{
  Zlib, StatusEntry, alloc, or_bit, or_at, set_bit, mark, encode_list, bit_at, check_bits,
}

abbrev all_below : (ℕ → Bool) → ℕ → Bool
all_below p zero = true
all_below p (suc n) = p n && all_below p n

all_below_lem : (p : ℕ → Bool) (n d : ℕ) → all_below p n ≡ true → d < n → p d ≡ true
all_below_lem p zero d h l = absurd (ground arith)
all_below_lem p (suc n) d h l = elim (Bool-cases (d == n)) [
  | inl e ↦ ground arith
  | inr e ↦ ground (arith, all_below_lem p n d)
]

-- Every byte and every two places in it: the written place reads 1, the others read as before.
abbrev place_ok : ℕ → ℕ → ℕ → Bool
place_ok b k l = or_bit b k / 2 ^ l % 2 == (if k == l then 1 else b / 2 ^ l % 2)

table : all_below (λ b. all_below (λ k. all_below (λ l. place_ok b k l) 8) 8) 256 ≡ true
unfolding or_bit
table = refl

or_bit-reads :
    (b k l : ℕ)
    → b < 256
    → k < 8
    → l < 8
    → or_bit b k / 2 ^ l % 2 ≡ (if k == l then 1 else b / 2 ^ l % 2)
or_bit-reads b k l x y z =
    let byte =
      all_below_lem (λ b. all_below (λ k. all_below (λ l. place_ok b k l) 8) 8) 256 b table x in
    let place = all_below_lem (λ k. all_below (λ l. place_ok b k l) 8) 8 k byte y in
    equal (or_bit b k / 2 ^ l % 2) (if k == l then 1 else b / 2 ^ l % 2)
      (all_below_lem (λ l. place_ok b k l) 8 l place z)
  where
    equal : (m n : ℕ) → (m == n) ≡ true → m ≡ n
    equal m n e = ground arith

abbrev AreBytes : List ℕ → Type 0
AreBytes bs = All (λ b. b < 256) bs

abbrev byte_at : List ℕ → ℕ → ℕ
byte_at bits n = get_or (get_elem? bits n) 0

or_at-reads :
    (n k m l : ℕ) (bits : List ℕ)
    → k < 8
    → l < 8
    → m < length bits
    → AreBytes bits
    → byte_at (or_at n k bits) m / 2 ^ l % 2
      ≡ (if n == m && k == l then 1 else byte_at bits m / 2 ^ l % 2)
unfolding or_at
or_at-reads n k m l [] x y z h = absurd (ground arith)
or_at-reads zero k zero l (b ∷ bs) x y z h = or_bit-reads b k l h.0 x y
or_at-reads zero k (suc m) l (b ∷ bs) x y z h = ground arith
or_at-reads (suc n) k zero l (b ∷ bs) x y z h = ground arith
or_at-reads (suc n) k (suc m) l (b ∷ bs) x y z h =
    or_at-reads n k m l bs x y (omega (arith, z)) h.1
    ∙ ap (λ c. if c && k == l then 1 else byte_at bs m / 2 ^ l % 2) (suc_eq n m)
  where
    suc_eq : (a b : ℕ) → (a == b) ≡ (suc a == suc b)
    suc_eq a b = ground arith

or_at-length : (n k : ℕ) (bits : List ℕ) → length (or_at n k bits) ≡ length bits
unfolding or_at
or_at-length n k [] = refl
or_at-length zero k (b ∷ bs) = refl
or_at-length (suc n) k (b ∷ bs) = ap (λ m. suc m) (or_at-length n k bs)

or_at-AreBytes : (n k : ℕ) (bits : List ℕ) → AreBytes bits → AreBytes (or_at n k bits)
unfolding or_at or_bit
or_at-AreBytes n k [] h = tt
or_at-AreBytes zero k (b ∷ bs) h = (ground arith, h.1)
or_at-AreBytes (suc n) k (b ∷ bs) h = (h.0, or_at-AreBytes n k bs h.1)

same_place : (i j : ℕ) → (i / 8 == j / 8 && 7 - i % 8 == 7 - j % 8) ≡ (i == j)
same_place i j = ground arith

set_bit-reads :
    (i j : ℕ) (bits : List ℕ)
    → j / 8 < length bits
    → AreBytes bits
    → bit_at (set_bit i bits) j ≡ (if i == j then 1 else bit_at bits j)
unfolding set_bit bit_at
set_bit-reads i j bits z h =
    or_at-reads (i / 8) (7 - i % 8) (j / 8) (7 - j % 8) bits (omega arith) (omega arith) z h
    ∙ ap (λ c. if c then 1 else byte_at bits (j / 8) / 2 ^ (7 - j % 8) % 2) (same_place i j)

set_bit-length : (i : ℕ) (bits : List ℕ) → length (set_bit i bits) ≡ length bits
unfolding set_bit
set_bit-length i bits = or_at-length (i / 8) (7 - i % 8) bits

set_bit-AreBytes : (i : ℕ) (bits : List ℕ) → AreBytes bits → AreBytes (set_bit i bits)
unfolding set_bit
set_bit-AreBytes i bits h = or_at-AreBytes (i / 8) (7 - i % 8) bits h

-- An entry that sets the bit of an index.
abbrev pub sets : ℕ → StatusEntry → Bool
sets j e = e.value == 1 && e.index == j

mark-reads :
    (es : List StatusEntry) (bits : List ℕ) (j : ℕ)
    → j / 8 < length bits
    → AreBytes bits
    → bit_at (mark es bits) j ≡ (if any (sets j) es then 1 else bit_at bits j)
unfolding mark
mark-reads [] bits j z h = refl
mark-reads (e ∷ es) bits j z h = elim (Bool-cases (e.value == 1)) [
  | inl v ↦ rw (v) (
      mark-reads es (set_bit e.index bits) j (rw (set_bit-length e.index bits) z)
        (set_bit-AreBytes e.index bits h)
      ∙ ap (λ n. if any (sets j) es then 1 else n) (set_bit-reads e.index j bits z h)
      ∙ nested (any (sets j) es) (e.index == j) (bit_at bits j))
  | inr v ↦ rw (v) (mark-reads es bits j z h)
]
  where
    nested :
        (a b : Bool) (n : ℕ) → (if a then 1 else (if b then 1 else n)) ≡ (if b || a then 1 else n)
    nested a b n = ground arith

alloc-length : (n : ℕ) → length (alloc n) ≡ n
unfolding alloc
alloc-length zero = refl
alloc-length (suc n) = ap (λ m. suc m) (alloc-length n)

alloc-AreBytes : (n : ℕ) → AreBytes (alloc n)
unfolding alloc
alloc-AreBytes zero = tt
alloc-AreBytes (suc n) = (omega arith, alloc-AreBytes n)

byte_at-alloc : (n m : ℕ) → byte_at (alloc n) m ≡ 0
unfolding alloc
byte_at-alloc zero m = refl
byte_at-alloc (suc n) zero = refl
byte_at-alloc (suc n) (suc m) = byte_at-alloc n m

zero_table : all_below (λ k. 0 / 2 ^ k % 2 == 0) 8 ≡ true
zero_table = refl

zero_bit : (k : ℕ) → k < 8 → 0 / 2 ^ k % 2 ≡ 0
zero_bit k h = equal (0 / 2 ^ k % 2) (all_below_lem (λ k. 0 / 2 ^ k % 2 == 0) 8 k zero_table h)
  where
    equal : (m : ℕ) → (m == 0) ≡ true → m ≡ 0
    equal m e = ground arith

bit_at-alloc : (n j : ℕ) → bit_at (alloc n) j ≡ 0
unfolding bit_at
bit_at-alloc n j = rw (byte_at-alloc n (j / 8)) (zero_bit (7 - j % 8) (omega arith))

-- Where inflating undoes deflating, the list encoded from a set of entries answers 1 at an index
-- below its size exactly if some entry of that index has the value 1, and else 0.
pub encode_list-check_bits :
    (z : Zlib)
    → ((bytes : List ℕ) → z.inflate (z.deflate bytes) ≡ bytes)
    → (entries : List StatusEntry) (max_size j : ℕ) → j < max_size
    → check_bits z (encode_list z entries max_size) j ≡ (if any (sets j) entries then 1 else 0)
unfolding check_bits encode_list
encode_list-check_bits z inverse entries max_size j h =
    let n = (max_size + 7) / 8 in
    rw (inverse (mark entries (alloc n))) (
      mark-reads entries (alloc n) j (rw (alloc-length n) (omega (arith, h))) (alloc-AreBytes n)
      ∙ ap (λ m. if any (sets j) entries then 1 else m) (bit_at-alloc n j))
