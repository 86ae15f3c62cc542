-- ===== src/Otlp/Depth.antt =====
-- The recursion of `decodeAnyValue` through lists and maps (internal/otlp/logs.go) ends at the limit of depth:
-- the fuel that it is given decides nothing.
use omni_logging.Common.{
  ℕ, zero, suc, ◌+◌, ◌≤◌, ◌≡◌, refl, Option, none, some, arith, if◌then◌else◌, ◌>>=◌, ltb, lt→ltb,
  Bytes,
}
use omni_logging.Otlp.Fields.{first_field}
use omni_logging.Otlp.Values.{
  AnyValue, Codec, max_nesting_depth, decode_array_value, decode_kvlist, decode_key_value,
  decode_any_value_on, decode_any_value, any_value_field, or_no_value,
}

module _ (c : Codec) where
  -- The decoding of a value, given that of the values in a list and of those in a map.
  abbrev value_body :
      ℕ → (Bytes → Option AnyValue) → (Bytes → Option AnyValue) → Bytes → Option AnyValue
  value_body depth decode_item decode_entry b = if ltb max_nesting_depth depth then none else (do
    found ←
        first_field
          (any_value_field c (decode_array_value c decode_item)
            (decode_kvlist c (decode_key_value c decode_entry (depth + 2))))
          b
    some (or_no_value c found))

  fuel_agrees :
      (n m depth : ℕ)
      → 17 ≤ n + depth
      → 17 ≤ m + depth
      → (b : Bytes) → decode_any_value_on c n depth b ≡ decode_any_value_on c m depth b
  unfolding decode_any_value_on
  fuel_agrees zero zero depth p q b = refl
  fuel_agrees zero (suc m) depth p q b = rw (lt→ltb 16 depth (omega arith)) refl
  fuel_agrees (suc n) zero depth p q b = rw (lt→ltb 16 depth (omega arith)) refl
  fuel_agrees (suc n) (suc m) depth p q b =
      let inner = fuel_agrees n m (depth + 2) (omega arith) (omega arith) in
      let deeper = fuel_agrees n m (depth + 3) (omega arith) (omega arith) in
      λ i. value_body depth (λ v. inner v i) (λ v. deeper v i) b

  -- The decoding of a value is the recursion of the code, and ends: beyond the limit of 16 a value is refused
  -- whatever it holds, and at any depth up to it the elements of a list are decoded two deeper, and
  -- the values of a map three deeper, as values of their own.
  pub decode_any_value-recursion :
      (depth : ℕ) (b : Bytes)
      → decode_any_value c depth b ≡ (
          if ltb max_nesting_depth depth then none else (do
            found ←
                first_field
                  (any_value_field c (decode_array_value c (decode_any_value c (depth + 2))) (
                    decode_kvlist c
                      (decode_key_value c (decode_any_value c (depth + 3)) (depth + 2))))
                  b
            some (or_no_value c found)))
  unfolding decode_any_value decode_any_value_on
  decode_any_value-recursion depth b =
      let inner = fuel_agrees 16 17 (depth + 2) (omega arith) (omega arith) in
      let deeper = fuel_agrees 16 17 (depth + 3) (omega arith) (omega arith) in
      λ i. value_body depth (λ v. inner v i) (λ v. deeper v i) b
