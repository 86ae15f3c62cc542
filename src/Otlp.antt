-- ===== src/Otlp.antt =====
-- The protobuf reader of the OTLP receiver (internal/otlp/protowire.go). A reader is the bytes from its
-- position on; every read gives its value and the bytes behind it, or an error.
pub mod Depth
pub mod Encoding
pub mod Entries
pub mod Events
pub mod Fields
pub mod Leaves
pub mod Logs
pub mod Progress
pub mod RoundTrip
pub mod Mapping
pub mod Nesting
pub mod Records
pub mod Rounds
pub mod Trees
pub mod Values
mod Samples
use omni_logging.Common.{
  ℕ, ◌+◌, ◌*◌, ◌/◌, ◌%◌, ◌^◌, Bool, Option, none, some, List, [], ◌∷◌, if◌then◌else◌, ◌>>=◌, ltb,
  ◌==◌, Bytes, length, take, drop,
}

unfoldable pub done : Bytes → Bool
done buf = length buf == 0

-- The seven bits of a byte above those of `v`, cut off at 64 bits.
abbrev pub with_bits : ℕ → ℕ → ℕ → ℕ
with_bits v shift b = (v + b % 128 * 2 ^ shift) % 2 ^ 64

-- The loop of `varint`.
unfoldable pub varint_from : ℕ → ℕ → Bytes → Option (ℕ × Bytes)
varint_from v shift [] = none
varint_from v shift (b ∷ rest) =
    let more = varint_from (with_bits v shift b) (shift + 7) rest in
    if ltb b 128
    then some (with_bits v shift b, rest)
    else if ltb 63 (shift + 7)
    then none
    else more

unfoldable pub varint : Bytes → Option (ℕ × Bytes)
unfolding varint_from
varint buf = varint_from 0 0 buf

-- The field number and the wire type; a field number is not 0.
unfoldable pub tag : Bytes → Option (ℕ × ℕ × Bytes)
unfolding varint
tag buf = do (v, rest) ← varint buf; if v / 8 == 0 then none else some (v / 8, v % 8, rest)

unfoldable pub bytes : Bytes → Option (Bytes × Bytes)
unfolding varint
bytes buf = do
  (n, rest) ← varint buf
  if ltb (length rest) n then none else some (take n rest, drop n rest)

-- binary.LittleEndian
unfoldable pub get_le : Bytes → ℕ
get_le [] = 0
get_le (b ∷ bs) = b + 256 * get_le bs

unfoldable pub fixed64 : Bytes → Option (ℕ × Bytes)
unfolding get_le
fixed64 buf = if ltb (length buf) 8 then none else some (get_le (take 8 buf), drop 8 buf)

unfoldable pub fixed32 : Bytes → Option (ℕ × Bytes)
unfolding get_le
fixed32 buf = if ltb (length buf) 4 then none else some (get_le (take 4 buf), drop 4 buf)

abbrev pub rest_of : {A : Type 0} → Option (A × Bytes) → Option Bytes
rest_of none = none
rest_of (some (a, rest)) = some rest

-- The bytes behind a field of a wire type.
unfoldable pub skip : ℕ → Bytes → Option Bytes
unfolding varint fixed64 bytes fixed32
skip wire buf =
    if wire == 0
    then rest_of (varint buf)
    else if wire == 1
    then rest_of (fixed64 buf)
    else if wire == 2
    then rest_of (bytes buf)
    else if wire == 5
    then rest_of (fixed32 buf)
    else none
