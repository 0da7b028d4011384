-- ===== src/Zip/Words.antt =====
-- Words of two and four bytes, as they lie in memory, and the check sum of zip_store.cpp.
use Prim.Native.Nat.{bit_and, bit_xor}
use openpak_client.Shared.{
  ℕ, zero, suc, ◌+◌, ◌*◌, ◌/◌, ◌%◌, ◌<◌, ◌≡◌, refl, [], ◌∷◌, arith, ◌==◌, if◌then◌else◌, Bytes,
}

-- A byte behind the end has no place in the callers' reads; it is 0 here.
abbrev pub byte_of : Bytes → ℕ
byte_of [] = 0
byte_of (x ∷ xs) = x

abbrev pub rest_of : Bytes → Bytes
rest_of [] = []
rest_of (x ∷ xs) = xs

abbrev pub get16 : Bytes → ℕ
get16 s = byte_of s + 256 * byte_of (rest_of s)

abbrev pub rest16 : Bytes → Bytes
rest16 s = rest_of (rest_of s)

abbrev pub get32 : Bytes → ℕ
get32 s = get16 s + 65536 * get16 (rest16 s)

abbrev pub rest32 : Bytes → Bytes
rest32 s = rest16 (rest16 s)

-- A value of the type is below 2 ^ 16 or 2 ^ 32; a cast to it takes the rest.
abbrev pub put16 : ℕ → Bytes
put16 n = (n % 256) ∷ (n / 256 % 256) ∷ []

abbrev pub put32 : ℕ → Bytes
put32 n = (n % 256) ∷ (n / 256 % 256) ∷ (n / 65536 % 256) ∷ (n / 16777216 % 256) ∷ []

pub value16 : (n : ℕ) → n < 65536 → n % 256 + 256 * (n / 256 % 256) ≡ n
value16 n h = omega arith

pub value32 :
    (n : ℕ)
    → n < 4294967296
    → n % 256 + 256 * (n / 256 % 256) + 65536 * (n / 65536 % 256 + 256 * (n / 16777216 % 256)) ≡ n
value32 n h = omega arith

-- An entry of `table`: eight rounds from its index.
crc_rounds : ℕ → ℕ → ℕ
crc_rounds zero c = c
crc_rounds (suc k) c = crc_rounds k (if c % 2 == 0 then c / 2 else bit_xor 0xEDB88320 (c / 2))

-- `Crc32` on from a register; the table's entries are computed where they are read.
crc_from : Bytes → ℕ → ℕ
unfolding crc_rounds
crc_from [] crc = bit_xor crc 0xFFFFFFFF
crc_from (x ∷ xs) crc =
    crc_from xs (bit_xor (crc_rounds 8 (bit_and (bit_xor crc x) 0xFF)) (crc / 256))

pub crc32 : Bytes → ℕ
unfolding crc_from
crc32 bytes = crc_from bytes 0xFFFFFFFF

check_sum : crc32 (49 ∷ 50 ∷ 51 ∷ 52 ∷ 53 ∷ 54 ∷ 55 ∷ 56 ∷ 57 ∷ []) ≡ 0xCBF43926
unfolding crc32
check_sum = refl
