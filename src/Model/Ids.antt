-- ===== src/Model/Ids.antt =====
-- ULIDs (internal/model/id.go). Bytes are numbers below 256; `b & mask` and the shifts are the
-- quotients and remainders that they are on bytes.
use omni_logging.Common.{
  ℕ, ◌+◌, ◌*◌, ◌/◌, ◌%◌, ◌^◌, none, some, List, [], ◌∷◌, ◌++◌, map, Text, Bytes, codes, get_elem?,
}

abbrev pub crockford : Text
crockford = codes "0123456789ABCDEFGHJKMNPQRSTVWXYZ"

-- crockford[d]; the code's indexes are below 32.
unfoldable pub digit_char : ℕ → ℕ
digit_char d = elim (get_elem? crockford d) [ none ↦ 0 | some c ↦ c ]

-- The first ten digits: three bits and five of the first byte, then eight digits of five bytes.
unfoldable pub head_digits : ℕ → List ℕ
head_digits b = b / 32 ∷ b % 32 ∷ []

-- The eight digits of five bytes, which the code writes three times.
unfoldable pub group_digits : ℕ → ℕ → ℕ → ℕ → ℕ → List ℕ
group_digits a b c d e =
    a / 8
    ∷ (a % 8 * 4 + b / 64)
    ∷ b / 2 % 32
    ∷ (b % 2 * 16 + c / 16)
    ∷ (c % 16 * 2 + d / 128)
    ∷ d / 4 % 32
    ∷ (d % 4 * 8 + e / 32)
    ∷ e % 32
    ∷ []

-- The groups of five bytes. Sixteen bytes make one digit pair and three groups.
unfoldable pub groups : Bytes → List ℕ
unfolding group_digits
groups (a ∷ b ∷ c ∷ d ∷ e ∷ bytes) = group_digits a b c d e ++ groups bytes
groups _ = []

-- `encodeCrockford`
unfoldable pub encode_crockford : Bytes → Text
unfolding head_digits groups digit_char
encode_crockford [] = []
encode_crockford (b ∷ bytes) = map digit_char (head_digits b ++ groups bytes)

-- The first six bytes: `byte(ms >> 40)` and so on.
unfoldable pub time_bytes : ℕ → Bytes
time_bytes ms =
    ms / 2 ^ 40 % 256
    ∷ ms / 2 ^ 32 % 256
    ∷ ms / 2 ^ 24 % 256
    ∷ ms / 2 ^ 16 % 256
    ∷ ms / 2 ^ 8 % 256
    ∷ ms % 256
    ∷ []

-- `newIDAt`, with the random bytes.
unfoldable pub new_id_at : ℕ → Bytes → Text
unfolding time_bytes encode_crockford
new_id_at ms random = encode_crockford (time_bytes ms ++ random)
