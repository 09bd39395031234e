-- ===== src/Multibase/Value.antt =====
-- What a base58btc text denotes.
use arc_id.Base.{
  ℕ, zero, suc, ◌+◌, ◌*◌, ◌/◌, ◌%◌, ◌≤◌, ◌<◌, ◌≡◌, refl, Bool, true, ◌&&◌, List, [], ◌∷◌, ◌++◌,
  ◌==◌, if◌then◌else◌, arith, All, All-append, Bool-cases, inl, inr, ◌∙◌, ap,
}
use arc_id.Multibase.{
  base58_alphabet, char_at, shift_in, push_carry, add_byte, add_bytes, push_digits, encode_body,
}

-- The reading that the encoding is to invert: a character's place in the alphabet, and positional
-- values in base 58 and base 256.
abbrev pub index_of : ℕ → List ℕ → ℕ
index_of c [] = 0
index_of c (x ∷ xs) = if x == c then 0 else suc (index_of c xs)

abbrev pub digit_of : ℕ → ℕ
digit_of c = index_of c base58_alphabet

abbrev pub value58 : ℕ → List ℕ → ℕ
value58 acc [] = acc
value58 acc (c ∷ cs) = value58 (acc * 58 + digit_of c) cs

abbrev pub value256 : ℕ → List ℕ → ℕ
value256 acc [] = acc
value256 acc (b ∷ bs) = value256 (acc * 256 + b) bs

abbrev pub leading_ones : List ℕ → ℕ
leading_ones [] = 0
leading_ones (c ∷ cs) = if c == b'1' then suc (leading_ones cs) else 0

-- Little-endian digits over a high part.
abbrev low : ℕ → List ℕ → ℕ
low high [] = high
low high (d ∷ ds) = low high ds * 58 + d

abbrev pub AreDigits : List ℕ → Type 0
AreDigits ds = All (λ d. d < 58) ds

-- Digits below 58 and a carry below 256 stay far below 32 bits.
shift_in-low :
    (carry : ℕ) (ds : List ℕ)
    → carry < 256
    → AreDigits ds
    → (low (shift_in carry ds).1 (shift_in carry ds).0 ≡ low 0 ds * 256 + carry)
      × AreDigits (shift_in carry ds).0
      × ((shift_in carry ds).1 < 256)
unfolding shift_in
shift_in-low carry [] c h = (omega arith, tt, c)
shift_in-low carry (d ∷ ds) c h =
    let sum = carry + d * 256 % 4294967296 in
    let next = sum / 58 % 4294967296 in
    let d_small : d < 58 = h.0 in
    let (v, a, b) = shift_in-low next ds (omega (arith, c, d_small)) h.1 in
    (omega (arith, v, c, d_small), (omega arith, a), b)

push_carry-low :
    (fuel carry : ℕ)
    → carry ≤ fuel
    → carry < 256
    → (low 0 (push_carry fuel carry) ≡ carry) × AreDigits (push_carry fuel carry)
unfolding push_carry
push_carry-low zero carry f c = (omega (arith, f), tt)
push_carry-low (suc fuel) carry f c = elim (Bool-cases (carry == 0)) [
  | inl e ↦ (ground arith, rw (e) tt)
  | inr e ↦
      let (v, a) =
        push_carry-low fuel (carry / 58 % 4294967296) (ground arith) (omega (arith, c)) in
      (rw (e, v) (omega (arith, c)), rw (e) (omega arith, a))
]

low-append : (high : ℕ) (ds es : List ℕ) → low high (ds ++ es) ≡ low (low high es) ds
low-append high [] es = refl
low-append high (d ∷ ds) es = ap (λ v. v * 58 + d) (low-append high ds es)

pub add_byte-low :
    (b : ℕ) (ds : List ℕ)
    → b < 256
    → AreDigits ds
    → (low 0 (add_byte b ds) ≡ low 0 ds * 256 + b) × AreDigits (add_byte b ds)
unfolding add_byte
add_byte-low b ds small h =
    let (v, a, c) = shift_in-low b ds small h in
    let k = (shift_in b ds).1 in
    let (w, e) = push_carry-low k k (omega arith) c in
    (
      low-append 0 (shift_in b ds).0 (push_carry k k) ∙ rw (w) v,
      All-append (λ d. d < 58) (shift_in b ds).0 (push_carry k k) a e,
    )

abbrev pub AreBytes : List ℕ → Type 0
AreBytes bs = All (λ b. b < 256) bs

add_bytes-low :
    (bs ds : List ℕ)
    → AreBytes bs
    → AreDigits ds
    → (low 0 (add_bytes bs ds) ≡ value256 (low 0 ds) bs) × AreDigits (add_bytes bs ds)
unfolding add_bytes
add_bytes-low [] ds s h = (refl, h)
add_bytes-low (b ∷ bs) ds s h =
    let (v, a) = add_byte-low b ds s.0 h in
    let (w, e) = add_bytes-low bs (add_byte b ds) s.1 a in (w ∙ ap (λ x. value256 x bs) v, e)

pub add_bytes-digits : (bs ds : List ℕ) → AreBytes bs → AreDigits ds → AreDigits (add_bytes bs ds)
add_bytes-digits bs ds s h = (add_bytes-low bs ds s h).1

-- Every digit's character stands at its place: a table of 58 entries.
abbrev pub all_below : (ℕ → Bool) → ℕ → Bool
all_below p zero = true
all_below p (suc n) = p n && all_below p n

pub all_below_lem : (p : ℕ → Bool) (n d : ℕ) → all_below p n ≡ true → d < n → p d ≡ true
all_below_lem p zero d h l = absurd (ground arith)
all_below_lem p (suc n) d h l = elim (Bool-cases (d == n)) [
  | inl e ↦ ground arith
  | inr e ↦ ground (arith, all_below_lem p n d)
]

abbrev is_placed : ℕ → Bool
is_placed d = digit_of (char_at d) == d

table : all_below is_placed 58 ≡ true
unfolding char_at
table = refl

pub digit_of-char_at : (d : ℕ) → d < 58 → digit_of (char_at d) ≡ d
digit_of-char_at d h = ==_true (digit_of (char_at d)) d (all_below_lem is_placed 58 d table h)
  where
    ==_true : (a b : ℕ) → (a == b) ≡ true → a ≡ b
    ==_true a b e = ground arith

push_digits-value :
    (ds out : List ℕ) (acc : ℕ)
    → AreDigits ds
    → value58 acc (push_digits ds out) ≡ value58 (low acc ds) out
unfolding push_digits
push_digits-value [] out acc h = refl
push_digits-value (d ∷ ds) out acc h =
    push_digits-value ds (char_at d ∷ out) acc h.1
    ∙ ap (λ k. value58 (low acc ds * 58 + k) out) (digit_of-char_at d h.0)

pub encode_body-value : (bs : List ℕ) → AreBytes bs → value58 0 (encode_body bs) ≡ value256 0 bs
unfolding encode_body
encode_body-value [] h = refl
encode_body-value (b ∷ bs) h =
    let (v, a) = add_bytes-low (b ∷ bs) (0 ∷ []) h (omega arith, tt) in
    push_digits-value (add_bytes (b ∷ bs) (0 ∷ [])) [] 0 a ∙ v
