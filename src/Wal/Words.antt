-- ===== src/Wal/Words.antt =====
-- Go's `binary.BigEndian` and `crc32.ChecksumIEEE`, as the records of internal/wal/wal.go use them.
use Prim.Native.Nat.{bit_xor}
use native.Mathlib.Nat.{pow-suc}
use omni_logging.Common.{
  ℕ, zero, suc, ◌+◌, ◌*◌, ◌/◌, ◌%◌, ◌^◌, ◌<◌, ◌≡◌, refl, [], ◌∷◌, ◌++◌, arith, ◌==◌, if◌then◌else◌,
  Bytes, length, length-append, codes,
}

-- The `w` bytes of a word, the most significant first.
unfoldable pub put_be : ℕ → ℕ → Bytes
put_be zero n = []
put_be (suc w) n = put_be w (n / 256) ++ (n % 256) ∷ []

unfoldable pub read_be : ℕ → Bytes → ℕ
read_be acc [] = acc
read_be acc (b ∷ bs) = read_be (acc * 256 + b) bs

unfoldable pub get_be : Bytes → ℕ
get_be bs = read_be 0 bs

pub length-put_be : (w n : ℕ) → length (put_be w n) ≡ w
unfolding put_be
length-put_be zero n = refl
length-put_be (suc w) n =
    omega (arith, length-append (put_be w (n / 256)) ((n % 256) ∷ []), length-put_be w (n / 256))

read_be-append : (acc : ℕ) (bs cs : Bytes) → read_be acc (bs ++ cs) ≡ read_be (read_be acc bs) cs
unfolding read_be
read_be-append acc [] cs = refl
read_be-append acc (b ∷ bs) cs = read_be-append (acc * 256 + b) bs cs

div_below : (w n : ℕ) → n < 256 ^ suc w → n / 256 < 256 ^ w
div_below w n h = let e : n < 256 ^ w * 256 = rw pow-suc at h in omega arith

-- A word that fits is read back.
pub get_be-put_be : (w n : ℕ) → n < 256 ^ w → get_be (put_be w n) ≡ n
unfolding get_be put_be read_be
get_be-put_be zero n h = omega arith
get_be-put_be (suc w) n h =
    rw read_be-append (omega (arith, get_be-put_be w (n / 256) (div_below w n h)))

-- One byte into the reflected CRC-32 register, by the polynomial 0xedb88320.
unfoldable pub crc_bits : ℕ → ℕ → ℕ
crc_bits zero c = c
crc_bits (suc k) c = crc_bits k (if c % 2 == 1 then bit_xor (c / 2) 0xedb88320 else c / 2)

unfoldable pub crc_bytes : ℕ → Bytes → ℕ
crc_bytes c [] = c
crc_bytes c (b ∷ bs) = crc_bytes (crc_bits 8 (bit_xor c b)) bs

unfoldable pub checksum : Bytes → ℕ
checksum bs = bit_xor (crc_bytes 0xffffffff bs) 0xffffffff % 2 ^ 32

pub checksum_lt : (bs : Bytes) → checksum bs < 2 ^ 32
unfolding checksum
checksum_lt bs = omega arith

-- The check value of CRC-32.
checksum_check : checksum (codes "123456789") ≡ 0xcbf43926
unfolding checksum crc_bytes crc_bits
checksum_check = refl
