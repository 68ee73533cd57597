-- ===== src/Storage/Crc.antt =====
-- The checksum of the log's records: `crc32`, `crc32_update` and `crc32_parts` of src/storage.rs.
use neural_sgdb.Prelude.{
  ℕ, zero, suc, ◌-◌, ◌/◌, ◌%◌, ◌^◌, ◌≡◌, refl, List, [], ◌∷◌, ◌++◌, arith, ◌==◌, if◌then◌else◌,
}
use Prim.Native.Nat.{bit_xor}
use neural_sgdb.Prelude.Bytes.{IsU32}

-- One of the eight rounds of a table entry: a shift, and the polynomial if a one leaves.
unfoldable pub crc32_round : ℕ → ℕ
crc32_round crc = if crc % 2 == 1 then bit_xor (crc / 2) 0xEDB88320 else crc / 2

abbrev rounds : ℕ → ℕ → ℕ
rounds zero crc = crc
rounds (suc j) crc = rounds j (crc32_round crc)

-- `CRC32_TABLE[i]`
unfoldable pub crc32_table : ℕ → ℕ
crc32_table i = rounds 8 i

unfoldable pub crc32_update : ℕ → List ℕ → ℕ
crc32_update crc [] = crc
crc32_update crc (b ∷ bs) =
    crc32_update (bit_xor (crc / 256) (crc32_table (bit_xor crc b % 256))) bs

-- `!x` of a `u32`.
unfoldable pub not_u32 : ℕ → ℕ
not_u32 x = 2 ^ 32 - 1 - x

unfoldable pub crc32 : List ℕ → ℕ
crc32 bs = not_u32 (crc32_update 0xFFFFFFFF bs)

unfoldable pub crc32_parts : List ℕ → List ℕ → ℕ
crc32_parts a b = not_u32 (crc32_update (crc32_update 0xFFFFFFFF a) b)

crc32_update-append :
    (a b : List ℕ) (crc : ℕ) → crc32_update crc (a ++ b) ≡ crc32_update (crc32_update crc a) b
unfolding crc32_update
crc32_update-append [] b crc = refl
crc32_update-append (x ∷ a) b crc =
    crc32_update-append a b (bit_xor (crc / 256) (crc32_table (bit_xor crc x % 256)))

-- The checksum of a key and a value, taken one behind the other, is the checksum of the two
-- concatenated.
pub crc32_parts-append : (a b : List ℕ) → crc32_parts a b ≡ crc32 (a ++ b)
unfolding crc32_parts crc32
crc32_parts-append a b = rw (crc32_update-append a b 0xFFFFFFFF)

pub crc32_parts-nil : (a : List ℕ) → crc32_parts a [] ≡ crc32 a
unfolding crc32_parts crc32 crc32_update
crc32_parts-nil a = refl

pub crc32_parts-IsU32 : (a b : List ℕ) → IsU32 (crc32_parts a b)
unfolding crc32_parts not_u32
crc32_parts-IsU32 a b = omega arith
