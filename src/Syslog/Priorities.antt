-- ===== src/Syslog/Priorities.antt =====
-- The priority of a message: `parsePRI` of internal/syslog/parse.go.
use omni_logging.Common.{
  ℕ, zero, suc, ◌<◌, ◌≤◌, ◌≡◌, refl, ap, ◌∙◌, ◌⊎◌, inl, inr, Bool, true, false, not, ◌&&◌, ◌||◌,
  Option, none, some, [], ◌∷◌, ◌++◌, ltb, leb, ◌==◌, length, length-append, ◌+◌, arith, Text, All,
}
use omni_logging.Common.Strings.{parse_int}
use omni_logging.Syslog.{itoa, priority, in_range, bracketed, parse_pri}
use omni_logging.Syslog.Params.{cut_at-name}

abbrev all_below : (ℕ → Bool) → ℕ → Bool
all_below p zero = true
all_below p (suc n) = p n && all_below p n

last_or_below : (n i : ℕ) → i < suc n → (i ≡ n) ⊎ (i < n)
last_or_below n i k = ground arith

and_left : (a b : Bool) → a && b ≡ true → a ≡ true
and_left a b h = ground arith

and_right : (a b : Bool) → a && b ≡ true → b ≡ true
and_right a b h = ground arith

all_below-at : (p : ℕ → Bool) (n i : ℕ) → all_below p n ≡ true → i < n → p i ≡ true
all_below-at p zero i h k = absurd (omega arith)
all_below-at p (suc n) i h k = elim (last_or_below n i k) [
  | inl e ↦ ap p e ∙ and_left (p n) (all_below p n) h
  | inr l ↦ all_below-at p n i (and_right (p n) (all_below p n) h) l
]

abbrev is_number : ℕ → Option ℕ → Bool
is_number n none = false
is_number n (some m) = m == n

abbrev has_no : ℕ → Text → Bool
has_no sep [] = true
has_no sep (c ∷ s) = not (c == sep) && has_no sep s

-- What a priority's digits are: one to three, none of them the bracket, and read as the number.
abbrev is_readable : ℕ → Bool
is_readable n =
    leb 1 (length (itoa n))
    && (leb (length (itoa n)) 3
        && (has_no b'>' (itoa n) && is_number n (in_range (parse_int (itoa n)))))

readable : (n : ℕ) → n ≤ 191 → is_readable n ≡ true
unfolding itoa parse_int in_range
readable n h = all_below-at is_readable 192 n refl (omega (arith, h))

same_number : (m n : ℕ) → (m == n) ≡ true → m ≡ n
same_number m n h = ground arith

not_head : (a b : Bool) → not a && b ≡ true → a ≡ false
not_head a b h = ground arith

is_number-some : (n : ℕ) (o : Option ℕ) → is_number n o ≡ true → o ≡ some n
is_number-some n none h = absurd (grind (arith, h))
is_number-some n (some m) h = ap some (same_number m n h)

short : (n : ℕ) → leb 1 n ≡ true → leb n 3 ≡ true → (ltb (suc n) 2 || ltb 4 (suc n)) ≡ false
short n h k = ground arith

bracketed-number :
    (digits rest : Text) (n : ℕ)
    → leb 1 (length digits) ≡ true
    → leb (length digits) 3 ≡ true
    → in_range (parse_int digits) ≡ some n
    → bracketed digits rest ≡ priority n rest
unfolding bracketed
bracketed-number digits rest n h k e =
    let fits : (ltb (suc (length digits)) 2 || ltb 4 (suc (length digits))) ≡ false =
      short (length digits) h k in
    rw (bracketed, fits, e) refl

has_no-All : (sep : ℕ) (s : Text) → has_no sep s ≡ true → All (λ c. (c == sep) ≡ false) s
has_no-All sep [] h = tt
has_no-All sep (c ∷ s) h = (
  not_head (c == sep) (has_no sep s) h,
  has_no-All sep s (and_right (not (c == sep)) (has_no sep s) h),
)

long_enough : (a b c : ℕ) → leb 1 a ≡ true → c ≡ a + suc b → ltb (suc c) 3 ≡ false
long_enough a b c h e = ground arith

-- Every priority from 0 to 191 is read back from its brackets, with what follows it.
pub parse_pri-written :
    (n : ℕ) (rest : Text) → n ≤ 191 → parse_pri (b'<' ∷ itoa n ++ (b'>' ∷ rest)) ≡ priority n rest
unfolding parse_pri
parse_pri-written n rest h =
    let d : Text = itoa n in
    let all : is_readable n ≡ true = readable n h in
    let more : leb 1 (length d) ≡ true = and_left _ _ all in
    let less_all : leb (length d) 3 ≡ true = and_left _ _ (and_right _ _ all) in
    let free : has_no b'>' d ≡ true = and_left _ _ (and_right _ _ (and_right _ _ all)) in
    let number : is_number n (in_range (parse_int d)) ≡ true =
      and_right (has_no b'>' d) _
        (and_right (leb (length d) 3) _ (and_right (leb 1 (length d)) _ all)) in
    let long : ltb (suc (length (d ++ (b'>' ∷ rest)))) 3 ≡ false =
      long_enough (length d) (length rest) _ more (length-append d (b'>' ∷ rest)) in
    rw (long, cut_at-name b'>' [] d rest (has_no-All b'>' d free) refl)
      (bracketed-number d rest n more less_all (is_number-some n (in_range (parse_int d)) number))
