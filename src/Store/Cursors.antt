-- ===== src/Store/Cursors.antt =====
-- The cursor of internal/query/cursor.go: `EncodeCursor`, against `DecodeCursor`. The base64 is a parameter, and a
-- time is its UnixNano.
use omni_logging.Common.{
  ℕ, zero, suc, ◌+◌, ◌-◌, ◌*◌, ◌/◌, ◌%◌, ◌^◌, ◌<◌, ◌≤◌, ◌≡◌, ◌≢◌, refl, sym, ap, ◌∙◌, false, ◌&&◌,
  Option, none, some, [], ◌∷◌, ◌++◌, append_assoc, append-nil, arith, if◌then◌else◌, if-elim, ◌>>=◌,
  ltb, ltb→lt, ltb→le, leb, lt→ltb, ◌==◌, Text, All,
}
use omni_logging.Common.Int.{ℤ, pos, negsuc, sub_ℕ}
use omni_logging.Common.Strings.{cut_at, read_digits, read_number, parse_int}
use omni_logging.Query.Build.{decode_cursor}
use omni_logging.Syslog.{itoa, digits_of}
use omni_logging.Otlp.Values.{format_int}

-- `EncodeCursor`
unfoldable pub encode_cursor : (Text → Text) → ℤ → Text → Text
unfolding format_int
encode_cursor base64 ns id = base64 (format_int ns ++ b'|' ∷ id)

abbrev IsDigit : ℕ → Type 0
IsDigit c = (b'0' ≤ c) × (c ≤ b'9')

IsDigits-digits_of : (k n : ℕ) (rest : Text) → All IsDigit rest → All IsDigit (digits_of k n rest)
unfolding digits_of
IsDigits-digits_of zero n rest h = h
IsDigits-digits_of (suc k) n rest h =
    if-elim (All IsDigit) (ltb n 10)
      (λ e. let small = ltb→lt n 10 e in ((omega arith, omega (arith, small)), h))
      (λ _. IsDigits-digits_of k (n / 10) ((n % 10 + b'0') ∷ rest) ((omega arith, omega arith), h))

read_one :
    (n d : ℕ) (rest : Text)
    → d < 10
    → read_digits n ((d + b'0') ∷ rest) ≡ read_digits (n * 10 + d) rest
unfolding read_digits
read_one n d rest small =
    if-elim (λ o. o ≡ read_digits (n * 10 + d) rest) (leb b'0' (d + b'0') && leb (d + b'0') b'9')
      (λ _. ap (λ m. read_digits (n * 10 + m) rest) (back d))
      (λ e. absurd (grind (arith, e, small)))
  where
    back : (d : ℕ) → d + b'0' - b'0' ≡ d
    back d = omega arith

read_digits-digits_of :
    (k n : ℕ) (rest : Text) → n < k → read_digits 0 (digits_of k n rest) ≡ read_digits n rest
unfolding digits_of
read_digits-digits_of zero n rest h = absurd (omega arith)
read_digits-digits_of (suc k) n rest h =
    if-elim (λ t. read_digits 0 t ≡ read_digits n rest) (ltb n 10)
      (λ e. read_one 0 n rest (ltb→lt n 10 e) ∙ ap (λ m. read_digits m rest) (plain n))
      (λ e.
        let big = ltb→le n 10 e in
        read_digits-digits_of k (n / 10) ((n % 10 + b'0') ∷ rest) (omega (arith, big))
        ∙ read_one (n / 10) (n % 10) rest (omega arith)
        ∙ ap (λ m. read_digits m rest) (parts n))
  where
    plain : (n : ℕ) → 0 * 10 + n ≡ n
    plain n = omega arith

    parts : (n : ℕ) → n / 10 * 10 + n % 10 ≡ n
    parts n = omega arith

digits_of-ne-nil : (k n c : ℕ) (rest : Text) → digits_of k n (c ∷ rest) ≢ []
unfolding digits_of
digits_of-ne-nil zero n c rest = cc
digits_of-ne-nil (suc k) n c rest =
    if-elim (λ t. t ≢ []) (ltb n 10) (λ _. cc)
      (λ _. digits_of-ne-nil k (n / 10) (n % 10 + b'0') (c ∷ rest))

IsDigits-itoa : (n : ℕ) → All IsDigit (itoa n)
unfolding itoa
IsDigits-itoa n = IsDigits-digits_of (suc n) n [] tt

itoa-ne-nil : (n : ℕ) → itoa n ≢ []
unfolding itoa digits_of
itoa-ne-nil n =
    if-elim (λ t. t ≢ []) (ltb n 10) (λ _. cc) (λ _. digits_of-ne-nil n (n / 10) (n % 10 + b'0') [])

read_number-some : (t : Text) (o : Option ℕ) → t ≢ [] → read_digits 0 t ≡ o → read_number t ≡ o
unfolding read_number
read_number-some [] o ne h = absurd (ne refl)
read_number-some (c ∷ t) o ne h = h

read_number-itoa : (n : ℕ) → read_number (itoa n) ≡ some n
unfolding itoa read_digits
read_number-itoa n =
    read_number-some (itoa n) (some n) (itoa-ne-nil n)
      (read_digits-digits_of (suc n) n [] (omega arith))

-- A text of digits that reads as a number of 63 bits.
parse_int-digits :
    (t : Text) (n : ℕ)
    → All IsDigit t
    → t ≢ []
    → read_number t ≡ some n
    → n < 2 ^ 63
    → parse_int t ≡ some (pos n)
unfolding parse_int
parse_int-digits [] n d ne h small = absurd (ne refl)
parse_int-digits (c ∷ t) n ((low, high), ds) ne h small =
    if-elim (λ o. o ≡ some (pos n)) (c == b'-') (λ e. absurd (grind (arith, e, low)))
      (λ _.
        if-elim
          (λ s.
            (read_number s >>= λ (m : ℕ). if ltb m (2 ^ 63) then some (pos m) else none)
            ≡ some (pos n))
          (c == b'+') (λ e. absurd (grind (arith, e, low)))
          (λ _. rw (h, lt→ltb n (2 ^ 63) small) refl))

-- A time that is an int64.
abbrev pub IsInt64 : ℤ → Type 0
IsInt64 (pos n) = n < 2 ^ 63
IsInt64 (negsuc n) = n < 2 ^ 63

parse_int-minus :
    (t : Text) (n : ℕ)
    → read_number t ≡ some n
    → n ≤ 2 ^ 63
    → parse_int (b'-' ∷ t) ≡ some (sub_ℕ 0 n)
unfolding parse_int
parse_int-minus t n h small = rw h (ground arith)

under : (n : ℕ) → sub_ℕ 0 (suc n) ≡ negsuc n
under n =
    if-elim (λ z. z ≡ negsuc n) (leb (suc n) 0) (λ e. absurd (grind (arith, e)))
      (λ _. ap negsuc (back n))
  where
    back : (n : ℕ) → suc n - 0 - 1 ≡ n
    back n = omega arith

parse_int-format_int : (ns : ℤ) → IsInt64 ns → parse_int (format_int ns) ≡ some ns
unfolding format_int
parse_int-format_int (pos n) h =
    parse_int-digits (itoa n) n (IsDigits-itoa n) (itoa-ne-nil n) (read_number-itoa n) h
parse_int-format_int (negsuc n) h =
    parse_int-minus (itoa (suc n)) (suc n) (read_number-itoa (suc n)) (omega arith)
    ∙ ap some (under n)

cut_at-bar :
    (cur s t : Text)
    → All (λ c. (c == b'|') ≡ false) s
    → cut_at b'|' cur (s ++ b'|' ∷ t) ≡ some (cur ++ s, t)
unfolding cut_at
cut_at-bar cur [] t h = ap (λ x. some (x, t)) (sym (append-nil cur))
cut_at-bar cur (c ∷ s) t (h, hs) =
    rw h (cut_at-bar (cur ++ c ∷ []) s t hs ∙ ap (λ x. some (x, t)) (append_assoc cur (c ∷ []) s))

digits_without_bar : (t : Text) → All IsDigit t → All (λ c. (c == b'|') ≡ false) t
digits_without_bar [] h = tt
digits_without_bar (c ∷ t) ((low, high), hs) = (ground (arith, low, high), digits_without_bar t hs)

format_int_without_bar : (ns : ℤ) → All (λ c. (c == b'|') ≡ false) (format_int ns)
unfolding format_int
format_int_without_bar (pos n) = digits_without_bar (itoa n) (IsDigits-itoa n)
format_int_without_bar (negsuc n) =
    (refl, digits_without_bar (itoa (suc n)) (IsDigits-itoa (suc n)))

-- A cursor that is made of a time and an ID is read back as these, whatever the ID holds: a bar in it, too. The
-- base64 is undone by its decoding, and the time is an int64.
pub decode_cursor-encode_cursor :
    (encode : Text → Text) (decode : Text → Option Text) (ns : ℤ) (id : Text)
    → ((s : Text) → decode (encode s) ≡ some s)
    → IsInt64 ns
    → decode_cursor decode (encode_cursor encode ns id) ≡ some (ns, id)
unfolding decode_cursor encode_cursor
decode_cursor-encode_cursor encode decode ns id h small =
    rw
      (
        h (format_int ns ++ b'|' ∷ id),
        cut_at-bar [] (format_int ns) id (format_int_without_bar ns),
        parse_int-format_int ns small,
      )
      refl
