-- ===== src/Multibase/Reading.antt =====
-- A base58btc text reads back as the bytes: their value, and as many leading ones as there were
-- leading zero bytes.
use arc_id.Base.{
  ℕ, zero, suc, ◌+◌, ◌*◌, ◌/◌, ◌%◌, ◌≤◌, ◌<◌, ◌≡◌, refl, Bool, true, false, ◌||◌, not, List, [],
  ◌∷◌, ◌++◌, ◌==◌, arith, Bool-cases, inl, inr, ◌∙◌, ap,
}
use arc_id.Multibase.{
  char_at, leading_zeros, drop, shift_in, push_carry, add_byte, add_bytes, ones, push_digits,
  encode_body, base58btc_encode,
}
use arc_id.Multibase.Value.{
  AreBytes, AreDigits, value58, value256, leading_ones, encode_body-value, add_byte-low,
  add_bytes-digits, all_below, all_below_lem,
}

value58-ones : (n : ℕ) (cs : List ℕ) → value58 0 (ones n ++ cs) ≡ value58 0 cs
value58-ones zero cs = refl
value58-ones (suc n) cs = value58-ones n cs

first_zero : (b : ℕ) → (b == 0) ≡ true → 0 ≡ 0 + b
first_zero b e = ground arith

value256-drop : (bs : List ℕ) → value256 0 (drop (leading_zeros bs) bs) ≡ value256 0 bs
unfolding leading_zeros drop
value256-drop [] = refl
value256-drop (b ∷ bs) = elim (Bool-cases (b == 0)) [
  | inl e ↦ rw (e) (value256-drop bs ∙ ap (λ x. value256 x bs) (first_zero b e))
  | inr e ↦ rw (e) refl
]

drop-AreBytes : (n : ℕ) (bs : List ℕ) → AreBytes bs → AreBytes (drop n bs)
unfolding drop
drop-AreBytes zero bs h = h
drop-AreBytes (suc n) [] h = tt
drop-AreBytes (suc n) (b ∷ bs) h = drop-AreBytes n bs h.1

-- The last digit, which the text begins with, is not zero.
abbrev has_top : List ℕ → Bool
has_top [] = false
has_top (d ∷ []) = not (d == 0)
has_top (d ∷ e ∷ ds) = has_top (e ∷ ds)

has_top-cons : (d : ℕ) (ds : List ℕ) → has_top ds ≡ true → has_top (d ∷ ds) ≡ true
has_top-cons d [] h = absurd (ground arith)
has_top-cons d (e ∷ ds) h = h

push_carry_zero : (fuel : ℕ) → push_carry fuel 0 ≡ []
unfolding push_carry
push_carry_zero zero = refl
push_carry_zero (suc fuel) = refl

-- A digit over what a carry leaves, where either is not zero.
top_over :
    (fuel d carry : ℕ)
    → carry ≤ fuel
    → carry < 256
    → 1 ≤ d + carry
    → has_top (d ∷ push_carry fuel carry) ≡ true
unfolding push_carry
top_over zero d carry f c p = ground arith
top_over (suc fuel) d carry f c p = elim (Bool-cases (carry == 0)) [
  | inl e ↦ rw (e) (ground arith)
  | inr e ↦ rw (e) (
      top_over fuel (carry % 58) (carry / 58 % 4294967296) (ground arith) (omega (arith, c))
        (split_positive carry c e))
]
  where
    split_positive : (n : ℕ) → n < 256 → (n == 0) ≡ false → 1 ≤ n % 58 + n / 58 % 4294967296
    split_positive n small e = ground arith

add_byte-top_single :
    (b d : ℕ) → b < 256 → d < 58 → 1 ≤ b + d → has_top (add_byte b (d ∷ [])) ≡ true
unfolding add_byte shift_in
add_byte-top_single b d x y p =
    let sum = b + d * 256 % 4294967296 in
    let k = sum / 58 % 4294967296 in
    top_over k (sum % 58) k (omega arith) (omega (arith, x, y)) (omega (arith, x, y, p))

add_byte-top :
    (b : ℕ) (ds : List ℕ)
    → b < 256
    → AreDigits ds
    → has_top ds ≡ true
    → has_top (add_byte b ds) ≡ true
unfolding add_byte shift_in
add_byte-top b [] x a h = absurd (ground arith)
add_byte-top b (d ∷ []) x a h = add_byte-top_single b d x a.0 (ground arith)
add_byte-top b (d ∷ e ∷ ds) x a h =
    let d_small : d < 58 = a.0 in
    let sum = b + d * 256 % 4294967296 in
    let next = sum / 58 % 4294967296 in
    has_top-cons (sum % 58) (add_byte next (e ∷ ds))
      (add_byte-top next (e ∷ ds) (omega (arith, x, d_small)) a.1 h)

add_bytes-top :
    (bs ds : List ℕ)
    → AreBytes bs
    → AreDigits ds
    → has_top ds ≡ true
    → has_top (add_bytes bs ds) ≡ true
unfolding add_bytes
add_bytes-top [] ds s a h = h
add_bytes-top (b ∷ bs) ds s a h =
    add_bytes-top bs (add_byte b ds) s.1 (add_byte-low b ds s.0 a).1 (add_byte-top b ds s.0 a h)

-- Only the digit 0 is written "1".
table : all_below (λ d. (d == 0) || not (char_at d == b'1')) 58 ≡ true
unfolding char_at
table = refl

leading_ones-push :
    (ds out : List ℕ) → AreDigits ds → has_top ds ≡ true → leading_ones (push_digits ds out) ≡ 0
unfolding push_digits
leading_ones-push [] out a h = absurd (ground arith)
leading_ones-push (d ∷ []) out a h =
    ground (arith, all_below_lem (λ d. (d == 0) || not (char_at d == b'1')) 58 d table a.0)
leading_ones-push (d ∷ e ∷ ds) out a h = leading_ones-push (e ∷ ds) (char_at d ∷ out) a.1 h

leading_ones-ones : (n : ℕ) (cs : List ℕ) → leading_ones (ones n ++ cs) ≡ n + leading_ones cs
leading_ones-ones zero cs = omega arith
leading_ones-ones (suc n) cs = omega (arith, leading_ones-ones n cs)

-- The body that is left begins with a byte that is not zero.
abbrev starts_positive : List ℕ → Bool
starts_positive [] = true
starts_positive (b ∷ bs) = not (b == 0)

drop-positive : (bs : List ℕ) → starts_positive (drop (leading_zeros bs) bs) ≡ true
unfolding leading_zeros drop
drop-positive [] = refl
drop-positive (b ∷ bs) = elim (Bool-cases (b == 0)) [
  | inl e ↦ rw (e) (drop-positive bs)
  | inr e ↦ rw (e) (ground arith)
]

leading_ones-body :
    (bs : List ℕ) → AreBytes bs → starts_positive bs ≡ true → leading_ones (encode_body bs) ≡ 0
unfolding encode_body add_bytes
leading_ones-body [] h p = refl
leading_ones-body (b ∷ bs) h p =
    let b_small : b < 256 = h.0 in
    let ds = add_byte b (0 ∷ []) in
    let digits = (add_byte-low b (0 ∷ []) b_small (omega arith, tt)).1 in
    let top = add_byte-top_single b 0 b_small (omega arith) (ground arith) in
    leading_ones-push (add_bytes bs ds) [] (add_bytes-digits bs ds h.1 digits)
      (add_bytes-top bs ds h.1 digits top)

-- The text of a list of bytes has the bytes' value, read in base 58 by each character's place in
-- the alphabet, and begins with as many ones as the bytes begin with zeros.
pub base58btc_encode-reads :
    (bytes : List ℕ)
    → AreBytes bytes
    → (value58 0 (base58btc_encode bytes) ≡ value256 0 bytes)
      × (leading_ones (base58btc_encode bytes) ≡ leading_zeros bytes)
unfolding base58btc_encode
base58btc_encode-reads bytes h =
    let body = drop (leading_zeros bytes) bytes in
    let small = drop-AreBytes (leading_zeros bytes) bytes h in
    (
      value58-ones (leading_zeros bytes) (encode_body body)
          ∙ encode_body-value body small
          ∙ value256-drop bytes,
      leading_ones-ones (leading_zeros bytes) (encode_body body)
          ∙ rw (leading_ones-body body small (drop-positive bytes)) (omega arith),
    )
