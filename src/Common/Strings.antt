-- ===== src/Common/Strings.antt =====
-- What the program uses of Go's `strings`, `unicode` and `strconv`, over texts as code points. The
-- tables of Unicode are a parameter.
use omni_logging.Common.Tests.{ltb, leb, ◌==◌, if◌then◌else◌, ◌>>=◌}
use omni_logging.Common.Texts.{Text}
use omni_logging.Common.Int.{ℤ, pos, sub_ℕ}
use Prim.Native.Nat.{ℕ, ◌+◌, ◌-◌, ◌*◌, ◌^◌}
use mathlib.Core.Bool.{Bool, false, ◌&&◌, ◌||◌}
use mathlib.Core.Option.{Option, none, some}
use mathlib.Core.List.{List, [], ◌∷◌, ◌++◌, map, reverse}

pub record Unicode : Type 0 where
  pub is_space : ℕ → Bool
  pub is_letter : ℕ → Bool
  pub is_digit : ℕ → Bool
  pub to_lower : ℕ → ℕ

-- The tables below 128.
abbrev pub ascii : Unicode
ascii = record {
  is_space = λ c. (leb 9 c && leb c 13) || c == 32;
  is_letter = λ c. (leb b'a' c && leb c b'z') || (leb b'A' c && leb c b'Z');
  is_digit = λ c. leb b'0' c && leb c b'9';
  to_lower = λ c. if leb b'A' c && leb c b'Z' then c + 32 else c;
}

-- strings.TrimLeftFunc
unfoldable pub trim_left : (ℕ → Bool) → Text → Text
trim_left p [] = []
trim_left p (c ∷ s) = let rest = trim_left p s in if p c then rest else c ∷ s

-- strings.TrimFunc: both ends.
unfoldable pub trim : (ℕ → Bool) → Text → Text
unfolding trim_left
trim p s = reverse (trim_left p (reverse (trim_left p s)))

-- strings.TrimSpace
unfoldable pub trim_space : Unicode → Text → Text
unfolding trim
trim_space u s = trim u.is_space s

-- strings.Trim(s, `"`)
unfoldable pub trim_quotes : Text → Text
unfolding trim
trim_quotes s = trim (λ c. c == b'"') s

unfoldable pub lower : Unicode → Text → Text
lower u s = map u.to_lower s

-- strings.HasSuffix(s, t) for one character.
unfoldable pub ends_with : ℕ → Text → Bool
ends_with c [] = false
ends_with c (x ∷ []) = x == c
ends_with c (x ∷ y ∷ s) = ends_with c (y ∷ s)

unfoldable pub contains : ℕ → Text → Bool
contains c [] = false
contains c (x ∷ s) = x == c || contains c s

-- strings.Split(s, sep) for one character: one part at least.
unfoldable pub split_on : ℕ → Text → Text → List Text
split_on sep cur [] = cur ∷ []
split_on sep cur (c ∷ s) =
    let next = split_on sep [] s in
    let more = split_on sep (cur ++ c ∷ []) s in if c == sep then cur ∷ next else more

-- The first index of a character, as the text before it and the text behind it.
unfoldable pub cut_at : ℕ → Text → Text → Option (Text × Text)
cut_at sep cur [] = none
cut_at sep cur (c ∷ s) =
    let more = cut_at sep (cur ++ c ∷ []) s in if c == sep then some (cur, s) else more

-- strings.Fields
unfoldable pub fields_from : Unicode → Text → Text → List Text
fields_from u cur [] = elim cur [ [] ↦ [] | c ∷ cs ↦ (c ∷ cs) ∷ [] ]
fields_from u cur (c ∷ s) =
    let next = fields_from u [] s in
    let more = fields_from u (cur ++ c ∷ []) s in
    if u.is_space c then elim cur [ [] ↦ next | x ∷ xs ↦ (x ∷ xs) ∷ next ] else more

unfoldable pub fields : Unicode → Text → List Text
unfolding fields_from
fields u s = fields_from u [] s

-- The digits of a number behind those read so far.
unfoldable pub read_digits : ℕ → Text → Option ℕ
read_digits n [] = some n
read_digits n (c ∷ s) =
    let more = read_digits (n * 10 + (c - b'0')) s in
    if leb b'0' c && leb c b'9' then more else none

unfoldable pub read_number : Text → Option ℕ
unfolding read_digits
read_number [] = none
read_number (c ∷ s) = read_digits 0 (c ∷ s)

-- strconv.ParseInt(s, 10, 64), which `strconv.Atoi` agrees with on a 64-bit machine.
unfoldable pub parse_int : Text → Option ℤ
unfolding read_number
parse_int [] = none
parse_int (c ∷ s) =
    if c == b'-'
    then (do n ← read_number s; if leb n (2 ^ 63) then some (sub_ℕ 0 n) else none)
    else (do
      n ← read_number (if c == b'+' then s else c ∷ s)
      if ltb n (2 ^ 63) then some (pos n) else none)
