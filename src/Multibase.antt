-- ===== src/Multibase.antt =====
-- src/lib/multibase.ts: base58btc. A byte and a character are numbers, a text is the list of its
-- character codes, and digits are little-endian as in the source.
pub mod Value
pub mod Reading
use arc_id.Base.{
  ℕ, zero, suc, ◌+◌, ◌*◌, ◌/◌, ◌%◌, ◌≡◌, Bool, true, false, Option, none, some, List, [], ◌∷◌, ◌++◌,
  get_elem?, get_or, length, ◌==◌, if◌then◌else◌,
}

-- A string's characters, the string itself written as a list.
abbrev pub base58_alphabet : List ℕ
base58_alphabet =
    b'1' ∷ b'2' ∷ b'3' ∷ b'4' ∷ b'5' ∷ b'6' ∷ b'7' ∷ b'8' ∷ b'9' ∷ b'A' ∷ b'B' ∷ b'C' ∷ b'D' ∷ b'E'
    ∷ b'F' ∷ b'G' ∷ b'H' ∷ b'J' ∷ b'K' ∷ b'L' ∷ b'M' ∷ b'N' ∷ b'P' ∷ b'Q' ∷ b'R' ∷ b'S' ∷ b'T'
    ∷ b'U' ∷ b'V' ∷ b'W' ∷ b'X' ∷ b'Y' ∷ b'Z' ∷ b'a' ∷ b'b' ∷ b'c' ∷ b'd' ∷ b'e' ∷ b'f' ∷ b'g'
    ∷ b'h' ∷ b'i' ∷ b'j' ∷ b'k' ∷ b'm' ∷ b'n' ∷ b'o' ∷ b'p' ∷ b'q' ∷ b'r' ∷ b's' ∷ b't' ∷ b'u'
    ∷ b'v' ∷ b'w' ∷ b'x' ∷ b'y' ∷ b'z' ∷ []

-- `BASE58_ALPHABET[d]`; past its end, where no digit is, the code is 0.
unfoldable pub char_at : ℕ → ℕ
char_at d = get_or (get_elem? base58_alphabet d) 0

unfoldable pub leading_zeros : List ℕ → ℕ
leading_zeros [] = 0
leading_zeros (b ∷ bs) = let rest = leading_zeros bs in if b == 0 then suc rest else 0

-- `bytes.slice(leadingZeros)`.
unfoldable pub drop : ℕ → List ℕ → List ℕ
drop zero bs = bs
drop (suc n) [] = []
drop (suc n) (b ∷ bs) = drop n bs

-- The inner `for`: `digits[j] << 8` and `| 0` are of 32 bits. The digits and the last carry.
unfoldable pub shift_in : ℕ → List ℕ → List ℕ × ℕ
shift_in carry [] = ([], carry)
shift_in carry (d ∷ ds) =
    let sum = carry + d * 256 % 4294967296 in
    let rest = shift_in (sum / 58 % 4294967296) ds in (sum % 58 ∷ rest.0, rest.1)

-- `while (carry)`, with fuel; a carry is fuel enough for itself.
unfoldable pub push_carry : ℕ → ℕ → List ℕ
push_carry zero carry = []
push_carry (suc fuel) carry =
    let rest = push_carry fuel (carry / 58 % 4294967296) in
    if carry == 0 then [] else carry % 58 ∷ rest

unfoldable pub add_byte : ℕ → List ℕ → List ℕ
unfolding shift_in push_carry
add_byte b ds = let shifted = shift_in b ds in shifted.0 ++ push_carry shifted.1 shifted.1

unfoldable pub add_bytes : List ℕ → List ℕ → List ℕ
unfolding add_byte
add_bytes [] ds = ds
add_bytes (b ∷ bs) ds = add_bytes bs (add_byte b ds)

abbrev pub ones : ℕ → List ℕ
ones zero = []
ones (suc n) = b'1' ∷ ones n

-- The last loop, from the last digit to the first.
unfoldable pub push_digits : List ℕ → List ℕ → List ℕ
unfolding char_at
push_digits [] out = out
push_digits (d ∷ ds) out = push_digits ds (char_at d ∷ out)

unfoldable pub encode_body : List ℕ → List ℕ
unfolding add_bytes push_digits
encode_body [] = []
encode_body (b ∷ bs) = push_digits (add_bytes (b ∷ bs) (0 ∷ [])) []

unfoldable pub base58btc_encode : List ℕ → List ℕ
unfolding leading_zeros drop encode_body
base58btc_encode bytes =
    ones (leading_zeros bytes) ++ encode_body (drop (leading_zeros bytes) bytes)

unfoldable pub multibase_encode : List ℕ → List ℕ
unfolding base58btc_encode
multibase_encode bytes = b'z' ∷ base58btc_encode bytes

abbrev pub ed25519_pub_prefix : List ℕ
ed25519_pub_prefix = 237 ∷ 1 ∷ []

-- The text after "did:key:" is the multibase of the prefix and the key.
unfoldable pub encode_did_key : List ℕ → List ℕ → List ℕ
unfolding multibase_encode
encode_did_key raw_key prefix =
    b'd' ∷ b'i' ∷ b'd' ∷ b':' ∷ b'k' ∷ b'e' ∷ b'y' ∷ b':' ∷ multibase_encode (prefix ++ raw_key)
