-- ===== src/StatusList.antt =====
-- The bit list of src/modules/credentials/services/status-list.service.ts. A buffer is a list of
-- bytes; zlib is a parameter.
pub mod Codec
use arc_id.Base.{
  ℕ, zero, suc, ◌+◌, ◌-◌, ◌*◌, ◌/◌, ◌%◌, ◌^◌, ◌≡◌, Bool, true, false, Option, none, some, List, [],
  ◌∷◌, get_elem?, get_or, ◌==◌, if◌then◌else◌,
}

pub record Zlib : Type 0 where
  pub deflate : List ℕ → List ℕ
  pub inflate : List ℕ → List ℕ

pub record StatusEntry : Type 0 where
  pub index : ℕ
  pub value : ℕ

-- `Buffer.alloc(n, 0)`.
unfoldable pub alloc : ℕ → List ℕ
alloc zero = []
alloc (suc n) = 0 ∷ alloc n

-- `b | (1 << k)` in a byte.
unfoldable pub or_bit : ℕ → ℕ → ℕ
or_bit b k = (if b / 2 ^ k % 2 == 1 then b else b + 2 ^ k) % 256

-- `bits[byteIndex] |= 1 << bitOffset`, which past the end of a buffer does nothing.
unfoldable pub or_at : ℕ → ℕ → List ℕ → List ℕ
unfolding or_bit
or_at n k [] = []
or_at zero k (b ∷ bs) = or_bit b k ∷ bs
or_at (suc n) k (b ∷ bs) = b ∷ or_at n k bs

unfoldable pub set_bit : ℕ → List ℕ → List ℕ
unfolding or_at
set_bit index bits = or_at (index / 8) (7 - index % 8) bits

unfoldable pub mark : List StatusEntry → List ℕ → List ℕ
unfolding set_bit
mark [] bits = bits
mark (e ∷ es) bits = mark es (if e.value == 1 then set_bit e.index bits else bits)

-- `encodeList`.
unfoldable pub encode_list : Zlib → List StatusEntry → ℕ → List ℕ
unfolding mark alloc
encode_list z entries max_size = z.deflate (mark entries (alloc ((max_size + 7) / 8)))

-- `(bits[byteIndex] >> bitOffset) & 1`, which past the end is 0.
unfoldable pub bit_at : List ℕ → ℕ → ℕ
bit_at bits index = get_or (get_elem? bits (index / 8)) 0 / 2 ^ (7 - index % 8) % 2

-- The end of `checkEntry`, on the list's bytes.
unfoldable pub check_bits : Zlib → List ℕ → ℕ → ℕ
unfolding bit_at
check_bits z encoded index = bit_at (z.inflate encoded) index
