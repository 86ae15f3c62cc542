-- ===== src/Otlp/Values.antt =====
-- The values of OTLP attributes: `decodeKeyValue`, `decodeAnyValue`, `decodeArrayValue`, `decodeKvlist` and
-- `valueToString` of internal/otlp/logs.go. The conversion of bytes to a string and the printing of a
-- float64 and of a nested value are parameters; a float64 is its 64 bits.
use omni_logging.Common.{
  ℕ, zero, suc, ◌+◌, ◌/◌, ◌%◌, ◌⊎◌, inl, Bool, not, ◌&&◌, ◌||◌, Option, none, some, [], ◌∷◌,
  if◌then◌else◌, ◌>>=◌, ltb, ◌==◌, Text, Bytes, codes, same,
}
use omni_logging.Common.Int.{ℤ, pos, negsuc}
use omni_logging.Query.{is_empty}
use omni_logging.Query.Match.{Value, text, flag, null, other}
use omni_logging.Model.Json.{wrap_64}
use omni_logging.Syslog.{itoa}
use omni_logging.Otlp.{varint, bytes, fixed64}
use omni_logging.Otlp.Fields.{each_field, skipped, first_field, passed}

-- What an attribute holds once it is decoded; a list keeps its order, a map has each key once.
mutual
  pub data AnyValue : Type 0 where
    no_value : AnyValue
    string_value : Text → AnyValue
    bool_value : Bool → AnyValue
    int_value : ℤ → AnyValue
    double_value : ℕ → AnyValue
    array_value : Items → AnyValue
    kvlist_value : Pairs → AnyValue

  pub data Items : Type 0 where
    no_item : Items
    item : AnyValue → Items → Items

  pub data Pairs : Type 0 where
    no_pair : Pairs
    pair : Text → AnyValue → Pairs → Pairs

-- What the decoder takes from Go: `string(b)`, `strconv.FormatFloat(t, 'f', -1, 64)`, and `%v`.
pub record Codec : Type 0 where
  pub text_of : Bytes → Text
  pub format_float : ℕ → Text
  pub print : AnyValue → Text

-- append(out, v)
unfoldable pub append_item : Items → AnyValue → Items
append_item no_item v = item v no_item
append_item (item x xs) v = item x (append_item xs v)

-- out[k] = v
unfoldable pub set_pair : Text → AnyValue → Pairs → Pairs
unfolding same
set_pair k v no_pair = pair k v no_pair
set_pair k v (pair j x ps) = if same j k then pair j v ps else pair j x (set_pair k v ps)

-- maxNestingDepth
abbrev pub max_nesting_depth : ℕ
max_nesting_depth = 16

unfoldable pub hex_digit : ℕ → ℕ
hex_digit n = if ltb n 10 then b'0' + n else 87 + n

-- hex.EncodeToString
unfoldable pub hex : Bytes → Text
unfolding hex_digit
hex [] = []
hex (b ∷ bs) = hex_digit (b / 16) ∷ hex_digit (b % 16) ∷ hex bs

-- strconv.FormatInt(t, 10)
unfoldable pub format_int : ℤ → Text
unfolding itoa
format_int (pos n) = itoa n
format_int (negsuc n) = b'-' ∷ itoa (suc n)

unfoldable pub answer :
    {A : Type 0} → (A → AnyValue) → Option (A × Bytes) → Option (AnyValue ⊎ Bytes)
answer f none = none
answer f (some (a, rest)) = some (inl (f a))

module _ (c : Codec) where
  -- The switch of `decodeKeyValue`.
  unfoldable pub key_or_value :
      (Bytes → Option AnyValue) → (Text × AnyValue) → ℕ → Bytes → Option (Text × AnyValue)
  key_or_value decode (key, val) field payload =
      if field == 1
      then some (c.text_of payload, val)
      else if field == 2
      then (do v ← decode payload; some (key, v))
      else some (key, val)

  unfoldable pub key_value_field :
      (Bytes → Option AnyValue)
      → (Text × AnyValue)
      → ℕ
      → ℕ
      → Bytes
      → Option ((Text × AnyValue) × Bytes)
  unfolding skipped bytes key_or_value
  key_value_field decode entry field wire rest =
      if not (wire == 2) then skipped entry wire rest else (do
        (payload, behind) ← bytes rest
        next ← key_or_value decode entry field payload
        some (next, behind))

  -- `decodeKeyValue`; `decode` decodes its value, one deeper.
  unfoldable pub decode_key_value : (Bytes → Option AnyValue) → ℕ → Bytes → Option (Text × AnyValue)
  unfolding key_value_field each_field
  decode_key_value decode depth b =
      if ltb max_nesting_depth depth
      then none
      else each_field (key_value_field decode) ([], no_value) b

  unfoldable pub array_field :
      (Bytes → Option AnyValue) → Items → ℕ → ℕ → Bytes → Option (Items × Bytes)
  unfolding skipped bytes append_item
  array_field decode out field wire rest =
      if not (field == 1) || not (wire == 2)
      then skipped out wire rest
      else (do (payload, behind) ← bytes rest; v ← decode payload; some (append_item out v, behind))

  -- `decodeArrayValue`; `decode` decodes an element, one deeper.
  unfoldable pub decode_array_value : (Bytes → Option AnyValue) → Bytes → Option AnyValue
  unfolding array_field each_field
  decode_array_value decode b = do
    out ← each_field (array_field decode) no_item b
    some (array_value out)

  unfoldable pub kvlist_field :
      (Bytes → Option (Text × AnyValue)) → Pairs → ℕ → ℕ → Bytes → Option (Pairs × Bytes)
  unfolding skipped bytes set_pair is_empty
  kvlist_field decode out field wire rest =
      if not (field == 1) || not (wire == 2) then skipped out wire rest else (do
        (payload, behind) ← bytes rest
        (k, v) ← decode payload
        some (if is_empty k then out else set_pair k v out, behind))

  -- `decodeKvlist`; `decode` decodes an entry, one deeper.
  unfoldable pub decode_kvlist : (Bytes → Option (Text × AnyValue)) → Bytes → Option AnyValue
  unfolding kvlist_field each_field
  decode_kvlist decode b = do
    out ← each_field (kvlist_field decode) no_pair b
    some (kvlist_value out)

  unfoldable pub enclosed : (Bytes → Option AnyValue) → Bytes → Option (AnyValue ⊎ Bytes)
  enclosed decode rest = do (v, behind) ← bytes rest; a ← decode v; some (inl a)

  -- The switch of `decodeAnyValue`.
  unfoldable pub any_value_field :
      (Bytes → Option AnyValue)
      → (Bytes → Option AnyValue)
      → ℕ
      → ℕ
      → Bytes
      → Option (AnyValue ⊎ Bytes)
  unfolding answer enclosed
  any_value_field array kvlist field wire rest =
      if field == 1 && wire == 2
      then answer (λ v. string_value (c.text_of v)) (bytes rest)
      else if field == 2 && wire == 0
      then answer (λ v. bool_value (not (v == 0))) (varint rest)
      else if field == 3 && wire == 0
      then answer (λ v. int_value (wrap_64 v)) (varint rest)
      else if field == 4 && wire == 1
      then answer double_value (fixed64 rest)
      else if field == 7 && wire == 2
      then answer (λ v. string_value (hex v)) (bytes rest)
      else if field == 5 && wire == 2
      then enclosed array rest
      else if field == 6 && wire == 2
      then enclosed kvlist rest
      else passed wire rest

  unfoldable pub or_no_value : Option AnyValue → AnyValue
  or_no_value none = no_value
  or_no_value (some v) = v

  -- `decodeAnyValue`, on fuel: every call of itself is two deeper at least.
  unfoldable pub decode_any_value_on : ℕ → ℕ → Bytes → Option AnyValue
  unfolding first_field any_value_field decode_array_value decode_kvlist decode_key_value
      or_no_value
  decode_any_value_on zero depth b = none
  decode_any_value_on (suc n) depth b = if ltb max_nesting_depth depth then none else (do
    found ←
        first_field
          (any_value_field (decode_array_value (decode_any_value_on n (depth + 2)))
            (decode_kvlist (decode_key_value (decode_any_value_on n (depth + 3)) (depth + 2))))
          b
    some (or_no_value found))

  unfoldable pub decode_any_value : ℕ → Bytes → Option AnyValue
  unfolding decode_any_value_on
  decode_any_value depth b = decode_any_value_on (suc max_nesting_depth) depth b

  -- `valueToString`
  unfoldable pub value_to_string : AnyValue → Text
  unfolding format_int
  value_to_string no_value = []
  value_to_string (string_value t) = t
  value_to_string (bool_value b) = if b then codes "true" else codes "false"
  value_to_string (int_value n) = format_int n
  value_to_string (double_value bits) = c.format_float bits
  value_to_string (array_value xs) = c.print (array_value xs)
  value_to_string (kvlist_value ps) = c.print (kvlist_value ps)

  -- The attribute of an event: a value that is no text, boolean or null is what `%v` makes of it.
  unfoldable pub attribute : AnyValue → Value
  unfolding format_int
  attribute no_value = null
  attribute (string_value t) = text t
  attribute (bool_value b) = flag b
  attribute (int_value n) = other (format_int n)
  attribute (double_value bits) = other (c.print (double_value bits))
  attribute (array_value xs) = other (c.print (array_value xs))
  attribute (kvlist_value ps) = other (c.print (kvlist_value ps))
