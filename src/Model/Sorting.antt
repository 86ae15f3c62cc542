-- ===== src/Model/Sorting.antt =====
-- The order of ULIDs as texts: `newIDAt` of internal/model/id.go.
use omni_logging.Common.{
  ℕ, zero, suc, ◌+◌, ◌*◌, ◌/◌, ◌%◌, ◌^◌, ◌<◌, ◌≡◌, refl, ◌∙◌, ◌⊎◌, inl, inr, none, some, List, [],
  ◌∷◌, map, Bool, true, ◌&&◌, arith, ltb, Text, Bytes, get_elem?, length,
}
use omni_logging.Query.Match.{less, compare_text}
use omni_logging.Model.Ids.{
  crockford, digit_char, head_digits, group_digits, groups, encode_crockford, time_bytes, new_id_at,
}

-- The digits of a number in base 32, one and `k` more, in front of a list.
abbrev digits : ℕ → ℕ → List ℕ → List ℕ
digits zero n rest = n ∷ rest
digits (suc k) n rest = digits k (n / 32) (n % 32 ∷ rest)

-- The time's six bytes are written as the ten digits of its milliseconds.
new_id_at-digits :
    (ms : ℕ) (random : Bytes)
    → ms < 2 ^ 48
    → new_id_at ms random ≡ map digit_char (digits 9 ms (groups random))
unfolding new_id_at encode_crockford head_digits group_digits groups time_bytes
new_id_at-digits ms random h =
    let d0 : ms / 2 ^ 40 % 256 / 32 ≡ ms / 32 / 32 / 32 / 32 / 32 / 32 / 32 / 32 / 32 =
      omega arith in
    let d1 : ms / 2 ^ 40 % 256 % 32 ≡ ms / 32 / 32 / 32 / 32 / 32 / 32 / 32 / 32 % 32 =
      omega arith in
    let d2 : ms / 2 ^ 32 % 256 / 8 ≡ ms / 32 / 32 / 32 / 32 / 32 / 32 / 32 % 32 = omega arith in
    let d3 : ms / 2 ^ 32 % 256 % 8 * 4 + ms / 2 ^ 24 % 256 / 64
        ≡ ms / 32 / 32 / 32 / 32 / 32 / 32 % 32 =
      omega arith in
    let d4 : ms / 2 ^ 24 % 256 / 2 % 32 ≡ ms / 32 / 32 / 32 / 32 / 32 % 32 = omega arith in
    let d5 : ms / 2 ^ 24 % 256 % 2 * 16 + ms / 2 ^ 16 % 256 / 16 ≡ ms / 32 / 32 / 32 / 32 % 32 =
      omega arith in
    let d6 : ms / 2 ^ 16 % 256 % 16 * 2 + ms / 2 ^ 8 % 256 / 128 ≡ ms / 32 / 32 / 32 % 32 =
      omega arith in
    let d7 : ms / 2 ^ 8 % 256 / 4 % 32 ≡ ms / 32 / 32 % 32 = omega arith in
    let d8 : ms / 2 ^ 8 % 256 % 4 * 8 + ms % 256 / 32 ≡ ms / 32 % 32 = omega arith in
    let d9 : ms % 256 % 32 ≡ ms % 32 = omega arith in
    λ i.
      map digit_char
        (d0 i ∷ d1 i ∷ d2 i ∷ d3 i ∷ d4 i ∷ d5 i ∷ d6 i ∷ d7 i ∷ d8 i ∷ d9 i ∷ groups random)

-- The letters of a table, each above the one before.
abbrev rising : ℕ → Text → Bool
rising x [] = true
rising x (y ∷ ys) = ltb x y && rising y ys

abbrev char_at : Text → ℕ → ℕ
char_at table d = elim (get_elem? table d) [ none ↦ 0 | some c ↦ c ]

char_at-rising : (x : ℕ) (xs : Text) (d : ℕ) → rising x xs ≡ true → d < length xs → x < char_at xs d
char_at-rising x [] d h k = absurd (omega arith)
char_at-rising x (y ∷ ys) zero h k = ground arith
char_at-rising x (y ∷ ys) (suc d) h k = ground (arith, char_at-rising y ys d)

char_at-lt :
    (x : ℕ) (xs : Text) (a b : ℕ)
    → rising x xs ≡ true
    → a < b
    → b < length xs
    → char_at xs a < char_at xs b
char_at-lt x [] a b h l k = absurd (omega arith)
char_at-lt x (y ∷ ys) a zero h l k = absurd (omega arith)
char_at-lt x (y ∷ ys) zero (suc b) h l k = ground (arith, char_at-rising y ys b)
char_at-lt x (y ∷ ys) (suc a) (suc b) h l k = ground (arith, char_at-lt y ys a b)

digit_char-lt : (a b : ℕ) → a < b → b < 32 → digit_char a < digit_char b
unfolding digit_char
digit_char-lt a b h k = char_at-lt 0 crockford a b refl h k

compare_text-same : (c : ℕ) (s t : Text) → compare_text (c ∷ s) (c ∷ t) ≡ compare_text s t
unfolding compare_text
compare_text-same c s t = ground arith

compare_text-less : (c d : ℕ) (s t : Text) → c < d → compare_text (c ∷ s) (d ∷ t) ≡ less
unfolding compare_text
compare_text-less c d s t h = ground arith

-- Texts of digits compare as what stands behind a number that both begin with.
compare_text-digits :
    (k n : ℕ) (s t : List ℕ)
    → compare_text (map digit_char (digits k n s)) (map digit_char (digits k n t))
      ≡ compare_text (map digit_char s) (map digit_char t)
compare_text-digits zero n s t =
    compare_text-same (digit_char n) (map digit_char s) (map digit_char t)
compare_text-digits (suc k) n s t =
    compare_text-digits k (n / 32) (n % 32 ∷ s) (n % 32 ∷ t)
    ∙ compare_text-same (digit_char (n % 32)) (map digit_char s) (map digit_char t)

quotient_cases : (n m : ℕ) → n < m → (n / 32 < m / 32) ⊎ ((n / 32 ≡ m / 32) × (n % 32 < m % 32))
quotient_cases n m h = ground arith

digits-less :
    (k n m : ℕ) (s t : List ℕ)
    → n < m
    → m < 32 ^ suc k
    → compare_text (map digit_char (digits k n s)) (map digit_char (digits k m t)) ≡ less
digits-less zero n m s t h l =
    compare_text-less (digit_char n) (digit_char m) (map digit_char s) (map digit_char t)
      (digit_char-lt n m h (omega (arith, l)))
digits-less (suc k) n m s t h l = elim (quotient_cases n m h) [
  | inl q ↦ digits-less k (n / 32) (m / 32) (n % 32 ∷ s) (m % 32 ∷ t) q (omega (arith, l))
  | inr (q, r) ↦ rw q (
      compare_text-digits k (m / 32) (n % 32 ∷ s) (m % 32 ∷ t)
      ∙ compare_text-less (digit_char (n % 32)) (digit_char (m % 32)) (map digit_char s)
          (map digit_char t) (digit_char-lt (n % 32) (m % 32) r (omega arith)))
]

-- Of two IDs the one of the earlier millisecond is the lesser text, whatever the random bytes of both
-- are, up to the year 10889, when the milliseconds no longer fit 48 bits.
pub new_id_at-sorted :
    (ms later : ℕ) (random other : Bytes)
    → ms < later
    → later < 2 ^ 48
    → compare_text (new_id_at ms random) (new_id_at later other) ≡ less
new_id_at-sorted ms later random other h k =
    rw (new_id_at-digits ms random (omega arith), new_id_at-digits later other k)
      (digits-less 9 ms later (groups random) (groups other) h (omega arith))
