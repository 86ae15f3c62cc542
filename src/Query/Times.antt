-- ===== src/Query/Times.antt =====
-- Time bounds of internal/query/parse.go: `ParseRelative`, `ParseTime` and `parseTimeDirective`. The
-- layout RFC3339Nano of Go's `time.Parse` is a parameter, from a text to nanoseconds since the zero time.
use omni_logging.Common.{
  ℕ, suc, ◌+◌, ◌*◌, ◌/◌, ◌^◌, Bool, ◌||◌, Option, none, some, [], ◌∷◌, ltb, ◌==◌, if◌then◌else◌,
  ◌>>=◌, Text, codes, same,
}
use omni_logging.Common.Int.{ℤ, pos, negsuc, sub_ℕ}
use omni_logging.Common.Strings.{Unicode, trim_space, parse_int}
use omni_logging.Query.{TimeSpec, is_empty}

abbrev pub second : ℕ
second = 10 ^ 9

-- A hundred years of 365 days.
abbrev pub max_relative : ℕ
max_relative = 100 * 365 * 24 * 3600 * 10 ^ 9

-- The last character, and what stands before it.
unfoldable pub split_last : ℕ → Text → Text × ℕ
split_last c [] = ([], c)
split_last c (d ∷ s) = let (front, unit) = split_last d s in (c ∷ front, unit)

unfoldable pub scale_of : ℕ → Option ℕ
scale_of unit =
    if unit == b's'
    then some second
    else if unit == b'm'
    then some (60 * second)
    else if unit == b'h'
    then some (3600 * second)
    else if unit == b'd'
    then some (24 * 3600 * second)
    else none

-- The number and the unit: a negative number and one past the bound are errors. The product is an
-- int64.
unfoldable pub relative_of : ℤ → ℕ → Option ℕ
unfolding scale_of
relative_of (negsuc n) unit = none
relative_of (pos n) unit = do
  scale ← scale_of unit
  if ltb (max_relative / scale) n then none else some (n * scale)

unfoldable pub relative_text : Text → Option ℕ
unfolding split_last relative_of parse_int
relative_text [] = none
relative_text (c ∷ s) =
    let (digits, unit) = split_last c s in do n ← parse_int digits; relative_of n unit

-- `ParseRelative`, in nanoseconds.
unfoldable pub parse_relative : Unicode → Text → Option ℕ
unfolding relative_text trim_space
parse_relative u s = relative_text (trim_space u s)

-- Nanoseconds from the zero time to a number of seconds since 1970.
abbrev pub from_unix : ℤ → ℤ
from_unix (pos n) = pos ((62135596800 + n) * second)
from_unix (negsuc n) = sub_ℕ (62135596800 * second) (suc n * second)

-- `ParseTime`.
unfoldable pub parse_time : Unicode → (Text → Option ℤ) → Text → Option ℤ
unfolding trim_space parse_int
parse_time u rfc3339 s =
    let t = trim_space u s in
    elim (rfc3339 t) [ some ns ↦ some ns | none ↦ (do n ← parse_int t; some (from_unix n)) ]

-- What a key of a time bound does with its value: it must be one that parses, given once.
unfoldable pub time_value : Unicode → (Text → Option ℤ) → TimeSpec → Text → Text → Option TimeSpec
unfolding parse_relative parse_time is_empty
time_value u rfc3339 spec key val =
    if same key (codes "last")
    then (do
      _ ← parse_relative u val
      if is_empty spec.last then some (record spec { last = val }) else none)
    else if same key (codes "from")
    then (do
      _ ← parse_time u rfc3339 val
      if is_empty spec.from then some (record spec { from = val }) else none)
    else (do
      _ ← parse_time u rfc3339 val
      if is_empty spec.to then some (record spec { to = val }) else none)

unfoldable pub is_time_key : Text → Bool
unfolding same
is_time_key key = same key (codes "last") || (same key (codes "from") || same key (codes "to"))
