-- ===== src/Otlp/Leaves.antt =====
-- `decodeAnyValue` of internal/otlp/logs.go on the field of a value.
use omni_logging.Common.{
  ℕ, zero, suc, ◌+◌, ◌^◌, ◌<◌, ◌≡◌, refl, sym, ap, ◌∙◌, Bool, true, false, not, ◌==◌, Option, none,
  some, [], ◌∷◌, ◌++◌, append-nil, arith, if◌then◌else◌, ◌>>=◌, inl, leb, Bytes, length,
}
use omni_logging.Otlp.{done, tag, varint}
use omni_logging.Otlp.Fields.{Probe, first_field, first_field_on}
use omni_logging.Otlp.Values.{
  AnyValue, bool_value, Codec, max_nesting_depth, decode_array_value, decode_kvlist,
  decode_key_value, decode_any_value_on, any_value_field, or_no_value, answer,
}
use omni_logging.Otlp.Encoding.{
  put_varint, put_bytes, put_le, str, boolean, int, double, blob, put_value,
}
use omni_logging.Otlp.RoundTrip.{
  framed, done-put_bytes, tag-put_bytes, varint-put_varint, bytes-put_payload, fixed64-put_le,
  done-cons,
}
use omni_logging.Otlp.Trees.{meaning}

unfoldable pub found : Option AnyValue → Option (Option AnyValue)
found o = do a ← o; some (some a)

first_field_on-answer :
    (n : ℕ) (p : Probe AnyValue) (buf : Bytes) (field wire : ℕ) (rest : Bytes) (o : Option AnyValue)
    → 0 < n
    → done buf ≡ false
    → tag buf ≡ some (field, wire, rest)
    → p field wire rest ≡ (do a ← o; some (inl a))
    → first_field_on n p buf ≡ found o
unfolding first_field_on found
first_field_on-answer zero p buf field wire rest o positive open_ read h = absurd (omega arith)
first_field_on-answer (suc n) p buf field wire rest none positive open_ read h =
    rw (open_, read, h) refl
first_field_on-answer (suc n) p buf field wire rest (some a) positive open_ read h =
    rw (open_, read, h) refl

some_bytes : (buf : Bytes) → done buf ≡ false → 0 < length buf
unfolding done
some_bytes buf h = ground arith

first_field-answer :
    (p : Probe AnyValue) (buf : Bytes) (field wire : ℕ) (rest : Bytes) (o : Option AnyValue)
    → done buf ≡ false
    → tag buf ≡ some (field, wire, rest)
    → p field wire rest ≡ (do a ← o; some (inl a))
    → first_field p buf ≡ found o
unfolding first_field
first_field-answer p buf field wire rest o open_ read h =
    first_field_on-answer (length buf) p buf field wire rest o (some_bytes buf open_) open_ read h

-- The answer of a probe on a length-delimited field that stands alone.
pub first_field-put_bytes :
    (p : Probe AnyValue) (field : ℕ) (payload : Bytes) (o : Option AnyValue)
    → 0 < field
    → field < 2 ^ 60
    → p field 2 (framed payload ++ []) ≡ (do a ← o; some (inl a))
    → first_field p (put_bytes field payload) ≡ found o
first_field-put_bytes p field payload o positive small h =
    ap (first_field p) (sym (append-nil (put_bytes field payload)))
    ∙ first_field-answer p (put_bytes field payload ++ []) field 2 (framed payload ++ []) o
        (done-put_bytes field payload []) (tag-put_bytes field payload [] positive small) h

tag_small :
    (rest : Bytes)
    → (tag (16 ∷ rest) ≡ some (2, 0, rest))
      × (tag (24 ∷ rest) ≡ some (3, 0, rest))
      × (tag (33 ∷ rest) ≡ some (4, 1, rest))
unfolding tag varint
tag_small rest = (refl, refl, refl)

varint_bit : (b : Bool) → varint ((if b then 1 else 0) ∷ []) ≡ some (if b then 1 else 0, [])
unfolding varint
varint_bit true = refl
varint_bit false = refl

module _ (c : Codec) where
  -- What `decodeAnyValue` looks for at a depth, with fuel for what is nested.
  abbrev pub probe_at : ℕ → ℕ → Probe AnyValue
  probe_at n depth =
      any_value_field c (decode_array_value c (decode_any_value_on c n (depth + 2)))
        (decode_kvlist c (decode_key_value c (decode_any_value_on c n (depth + 3)) (depth + 2)))

  pub value_read :
      (n depth : ℕ) (b : Bytes) (o : Option AnyValue)
      → first_field (probe_at n depth) b ≡ found o
      → decode_any_value_on c (suc n) depth b ≡ (if leb depth max_nesting_depth then o else none)
  unfolding decode_any_value_on or_no_value found
  value_read n depth b none h = rw h (ground arith)
  value_read n depth b (some a) h = rw h (ground arith)

  -- A value whose field stands alone and is read at once.
  pub str_read :
      (n depth : ℕ) (b : Bytes)
      → length b < 2 ^ 64
      → first_field (probe_at n depth) (put_value (str b)) ≡ found (some (meaning c (str b)))
  unfolding put_value meaning any_value_field
  str_read n depth b fits =
      first_field-put_bytes (probe_at n depth) 1 b (some (meaning c (str b))) (omega arith)
        (omega arith) (rw (bytes-put_payload b [] fits) refl)

  pub blob_read :
      (n depth : ℕ) (b : Bytes)
      → length b < 2 ^ 64
      → first_field (probe_at n depth) (put_value (blob b)) ≡ found (some (meaning c (blob b)))
  unfolding put_value meaning any_value_field
  blob_read n depth b fits =
      first_field-put_bytes (probe_at n depth) 7 b (some (meaning c (blob b))) (omega arith)
        (omega arith) (rw (bytes-put_payload b [] fits) refl)

  pub boolean_read :
      (n depth : ℕ) (b : Bool)
      → first_field (probe_at n depth) (put_value (boolean b))
        ≡ found (some (meaning c (boolean b)))
  unfolding put_value meaning any_value_field
  boolean_read n depth b =
      first_field-answer (probe_at n depth) (put_value (boolean b)) 2 0 ((if b then 1 else 0) ∷ [])
        (some (meaning c (boolean b))) (done-cons 16 ((if b then 1 else 0) ∷ []))
        (tag_small ((if b then 1 else 0) ∷ [])).0
        (ap (answer (λ v. bool_value (not (v == 0)))) (varint_bit b) ∙ bit b)
    where
      bit :
          (b : Bool)
          → answer {A = ℕ} (λ v. bool_value (not (v == 0))) (some (if b then 1 else 0, []))
            ≡ some (inl (bool_value b))
      bit true = refl
      bit false = refl

  pub int_read :
      (n depth v : ℕ)
      → v < 2 ^ 64
      → first_field (probe_at n depth) (put_value (int v)) ≡ found (some (meaning c (int v)))
  unfolding put_value meaning any_value_field
  int_read n depth v fits =
      first_field-answer (probe_at n depth) (put_value (int v)) 3 0 (put_varint v)
        (some (meaning c (int v))) (done-cons 24 (put_varint v)) (tag_small (put_varint v)).1
        (rw (sym (append-nil (put_varint v)), varint-put_varint v [] fits) refl)

  pub double_read :
      (n depth v : ℕ)
      → v < 2 ^ 64
      → first_field (probe_at n depth) (put_value (double v)) ≡ found (some (meaning c (double v)))
  unfolding put_value meaning any_value_field
  double_read n depth v fits =
      first_field-answer (probe_at n depth) (put_value (double v)) 4 1 (put_le 8 v)
        (some (meaning c (double v))) (done-cons 33 (put_le 8 v)) (tag_small (put_le 8 v)).2
        (rw (sym (append-nil (put_le 8 v)), fixed64-put_le v [] fits) refl)
