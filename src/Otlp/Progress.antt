-- ===== src/Otlp/Progress.antt =====
-- Where the reader of internal/otlp/protowire.go stands after each read.
use omni_logging.Common.{
  ℕ, zero, suc, ◌+◌, ◌*◌, ◌/◌, ◌%◌, ◌^◌, ◌≤◌, ◌<◌, ◌≡◌, refl, sym, ap, ◌∙◌, Option, none, some, [],
  ◌∷◌, ◌++◌, append_assoc, arith, if◌then◌else◌, ◌>>=◌, if-elim, OnSuccess, OnSuccess-map, ltb,
  ltb→le, ◌==◌, Bytes, length, take, drop, take-append-drop, length-drop, length-append,
}
use omni_logging.Otlp.{with_bits, varint_from, varint, tag, bytes, fixed64, fixed32, rest_of, skip}

-- Some bytes were read, one at least, and `rest` is what follows them.
pub record IsBehind (buf rest : Bytes) : Type 0 where
  pub read : Bytes
  pub whole : buf ≡ read ++ rest
  pub some_read : 0 < length read

IsBehind-cons : (b : ℕ) (buf rest : Bytes) → IsBehind buf rest → IsBehind (b ∷ buf) rest
IsBehind-cons b buf rest h = record {
  read = b ∷ h.read;
  whole = λ i. b ∷ h.whole i;
  some_read = omega arith;
}

varint_from-IsBehind :
    (v shift : ℕ) (buf : Bytes)
    → OnSuccess (λ (r : ℕ × Bytes). (r.0 < 2 ^ 64) × IsBehind buf r.1) (varint_from v shift buf)
unfolding varint_from
varint_from-IsBehind v shift [] = tt
varint_from-IsBehind v shift (b ∷ rest) =
    let later = varint_from-IsBehind (with_bits v shift b) (shift + 7) rest in
    if-elim (OnSuccess (λ (r : ℕ × Bytes). (r.0 < 2 ^ 64) × IsBehind (b ∷ rest) r.1)) (ltb b 128)
      (λ _. (omega arith, record { read = b ∷ []; whole = refl; some_read = omega arith }))
      (λ _.
        if-elim (OnSuccess (λ (r : ℕ × Bytes). (r.0 < 2 ^ 64) × IsBehind (b ∷ rest) r.1))
          (ltb 63 (shift + 7)) (λ _. tt)
          (λ _.
            OnSuccess-map (varint_from (with_bits v shift b) (shift + 7) rest)
              (λ r h. (h.0, IsBehind-cons b rest r.1 h.1)) later))

-- `n` more bytes are enough for the groups of seven bits that are left.
varint_from-short :
    (n v shift : ℕ) (buf : Bytes)
    → shift ≤ 63
    → 70 ≤ shift + 7 * n
    → OnSuccess (λ (r : ℕ × Bytes). length buf ≤ length r.1 + n) (varint_from v shift buf)
unfolding varint_from
varint_from-short n v shift [] low room = tt
varint_from-short zero v shift (b ∷ rest) low room = absurd (omega arith)
varint_from-short (suc n) v shift (b ∷ rest) low room =
    if-elim (OnSuccess (λ (r : ℕ × Bytes). length (b ∷ rest) ≤ length r.1 + suc n)) (ltb b 128)
      (λ _. omega arith)
      (λ _.
        if-elim (OnSuccess (λ (r : ℕ × Bytes). length (b ∷ rest) ≤ length r.1 + suc n))
          (ltb 63 (shift + 7)) (λ _. tt)
          (λ below.
            OnSuccess-map (varint_from (with_bits v shift b) (shift + 7) rest)
              (λ r h. omega (arith, h))
              (varint_from-short n (with_bits v shift b) (shift + 7) rest
                (ltb→le 63 (shift + 7) below) (omega arith))))

-- A number that is read is a uint64, from one to ten bytes of the message, and the reader stands behind
-- these.
pub varint-IsBehind :
    (buf : Bytes)
    → OnSuccess (λ (r : ℕ × Bytes). (r.0 < 2 ^ 64) × IsBehind buf r.1) (varint buf)
      × OnSuccess (λ (r : ℕ × Bytes). length buf ≤ length r.1 + 10) (varint buf)
unfolding varint
varint-IsBehind buf =
    (varint_from-IsBehind 0 0 buf, varint_from-short 10 0 0 buf (omega arith) (omega arith))

length-take_within : (n : ℕ) (buf : Bytes) → n ≤ length buf → length (take n buf) ≡ n
length-take_within n buf fits = omega (
  arith,
  length-append (take n buf) (drop n buf),
  ap length (take-append-drop n buf),
  length-drop n buf,
)

IsBehind-drop : (n : ℕ) (buf : Bytes) → 0 < n → n ≤ length buf → IsBehind buf (drop n buf)
IsBehind-drop n buf positive fits = record {
  read = take n buf;
  whole = sym (take-append-drop n buf);
  some_read = omega (arith, length-take_within n buf fits);
}

-- A payload stands in its message, behind a header of one byte at least and before the rest.
pub record IsFramed (buf payload rest : Bytes) : Type 0 where
  pub header : Bytes
  pub whole : buf ≡ header ++ (payload ++ rest)
  pub some_header : 0 < length header

-- A length-delimited field that is read stands whole in its message, behind its header, and the reader
-- stands behind it.
pub bytes-IsFramed :
    (buf : Bytes) → OnSuccess (λ (r : Bytes × Bytes). IsFramed buf r.0 r.1) (bytes buf)
unfolding bytes
bytes-IsFramed buf = framed (varint buf) (varint-IsBehind buf).0
  where
    framed :
        (o : Option (ℕ × Bytes))
        → OnSuccess (λ (r : ℕ × Bytes). (r.0 < 2 ^ 64) × IsBehind buf r.1) o
        → OnSuccess
            (λ (r : Bytes × Bytes). IsFramed buf r.0 r.1)
            (o >>= λ (r : ℕ × Bytes).
              if ltb (length r.1) r.0 then none else some (take r.0 r.1, drop r.0 r.1))
    framed none h = tt
    framed (some (n, rest)) (_, h) =
        if-elim (OnSuccess (λ (r : Bytes × Bytes). IsFramed buf r.0 r.1)) (ltb (length rest) n)
          (λ _. tt)
          (λ _. record {
            header = h.read;
            whole = h.whole ∙ ap (λ t. h.read ++ t) (sym (take-append-drop n rest));
            some_header = h.some_read;
          })

pub IsBehind-frame : (buf payload rest : Bytes) → IsFramed buf payload rest → IsBehind buf rest
IsBehind-frame buf payload rest f = record {
  read = f.header ++ payload;
  whole = f.whole ∙ sym (append_assoc f.header payload rest);
  some_read = omega (arith, length-append f.header payload, f.some_header);
}

rest_of-OnSuccess :
    {A : Type 0} (P : Bytes → Type 0) (o : Option (A × Bytes))
    → OnSuccess (λ (r : A × Bytes). P r.1) o
    → OnSuccess P (rest_of o)
rest_of-OnSuccess P none h = tt
rest_of-OnSuccess P (some (a, rest)) h = h

fixed64-IsBehind : (buf : Bytes) → OnSuccess (λ (r : ℕ × Bytes). IsBehind buf r.1) (fixed64 buf)
unfolding fixed64
fixed64-IsBehind buf =
    if-elim (OnSuccess (λ (r : ℕ × Bytes). IsBehind buf r.1)) (ltb (length buf) 8) (λ _. tt)
      (λ h. IsBehind-drop 8 buf (omega arith) (ltb→le (length buf) 8 h))

fixed32-IsBehind : (buf : Bytes) → OnSuccess (λ (r : ℕ × Bytes). IsBehind buf r.1) (fixed32 buf)
unfolding fixed32
fixed32-IsBehind buf =
    if-elim (OnSuccess (λ (r : ℕ × Bytes). IsBehind buf r.1)) (ltb (length buf) 4) (λ _. tt)
      (λ h. IsBehind-drop 4 buf (omega arith) (ltb→le (length buf) 4 h))

-- A field of any wire type that is skipped takes one byte at least, and never runs past the end of the
-- message: what is left is what follows the bytes that were read.
pub skip-IsBehind : (wire : ℕ) (buf : Bytes) → OnSuccess (IsBehind buf) (skip wire buf)
unfolding skip
skip-IsBehind wire buf =
    if-elim (OnSuccess (IsBehind buf)) (wire == 0)
      (λ _.
        rest_of-OnSuccess (IsBehind buf) (varint buf)
          (OnSuccess-map (varint buf) (λ r h. h.1) (varint-IsBehind buf).0))
      (λ _.
        if-elim (OnSuccess (IsBehind buf)) (wire == 1)
          (λ _. rest_of-OnSuccess (IsBehind buf) (fixed64 buf) (fixed64-IsBehind buf))
          (λ _.
            if-elim (OnSuccess (IsBehind buf)) (wire == 2)
              (λ _. rest_of-OnSuccess (IsBehind buf) (bytes buf) (
                OnSuccess-map (bytes buf) (λ r f. IsBehind-frame buf r.0 r.1 f)
                  (bytes-IsFramed buf)))
              (λ _.
                if-elim (OnSuccess (IsBehind buf)) (wire == 5)
                  (λ _. rest_of-OnSuccess (IsBehind buf) (fixed32 buf) (fixed32-IsBehind buf))
                  (λ _. tt))))

-- A tag that is read has a field number above 0 and a wire type below 8, and the reader stands behind
-- it, one byte further at least.
pub tag-IsBehind :
    (buf : Bytes)
    → OnSuccess (λ (r : ℕ × ℕ × Bytes). (0 < r.0) × (r.1 < 8) × IsBehind buf r.2) (tag buf)
unfolding tag
tag-IsBehind buf = field (varint buf) (varint-IsBehind buf).0
  where
    field :
        (o : Option (ℕ × Bytes))
        → OnSuccess (λ (r : ℕ × Bytes). (r.0 < 2 ^ 64) × IsBehind buf r.1) o
        → OnSuccess
            (λ (r : ℕ × ℕ × Bytes). (0 < r.0) × (r.1 < 8) × IsBehind buf r.2)
            (o >>= λ (r : ℕ × Bytes). if r.0 / 8 == 0 then none else some (r.0 / 8, r.0 % 8, r.1))
    field none h = tt
    field (some (v, rest)) (_, h) =
        if-elim (OnSuccess (λ (r : ℕ × ℕ × Bytes). (0 < r.0) × (r.1 < 8) × IsBehind buf r.2))
          (v / 8 == 0) (λ _. tt) (λ n. (grind (arith, n), omega arith, h))
