-- ===== src/Otlp/Samples.antt =====
-- The reader of internal/otlp/protowire.go and the decoders of internal/otlp/logs.go at concrete inputs.
use omni_logging.Common.{
  ◌≤◌, ◌≡◌, refl, true, false, none, some, [], ◌∷◌, arith, Bytes, OnSuccess, All, codes,
  if◌then◌else◌,
}
use omni_logging.Common.Int.{pos}
use omni_logging.Common.Strings.{ascii}
use omni_logging.Model.{Moment, is_zero, is_level, rank}
use omni_logging.Model.Levels.{IsNormal}
use omni_logging.Otlp.Values.{bool_value, Codec, decode_any_value}
use omni_logging.Otlp.Encoding.{
  put_varint, put_bytes, Tree, str, boolean, int, arr, kvs, tree, no_tree, entry, no_entry,
  put_value,
}
use omni_logging.Otlp.Trees.{IsSized, is_within, meaning}
use omni_logging.Otlp.Nesting.{decode_any_value-put_value}
use omni_logging.Otlp.Events.{decode_protobuf-IsNormal}
use omni_logging.Otlp.Mapping.{severity_to_level-IsLevel}
use omni_logging.Otlp.Records.{Attributes, severity_to_level}
use omni_logging.Otlp.Logs.{decode_protobuf}

-- Field 1 of wire type 2, with two bytes, and a number of two bytes.
abbrev message : Bytes
message = 10 ∷ 2 ∷ 104 ∷ 105 ∷ 172 ∷ 2 ∷ []

abbrev field : Bytes
field = 2 ∷ 104 ∷ 105 ∷ 172 ∷ 2 ∷ []

abbrev number : Bytes
number = 172 ∷ 2 ∷ []

-- A codec that takes bytes for code points.
abbrev plain : Codec
plain = record { text_of = λ b. b; format_float = λ b. []; print = λ v. [] }

-- {"k": [true, 300, "hi"]}
abbrev nested : Tree
nested = kvs (
    entry (107 ∷ [])
      (arr (tree (boolean true) (tree (int 300) (tree (str (104 ∷ 105 ∷ [])) no_tree)))) no_entry)

nested-IsSized : IsSized nested
unfolding IsSized put_value put_bytes put_varint
nested-IsSized = (
  omega arith,
  (
    omega arith,
    omega arith,
    omega arith,
    (omega arith, (omega arith, tt, (omega arith, omega arith, (omega arith, omega arith, tt)))),
    tt,
  ),
)

decode_any_value-put_value_example :
    decode_any_value plain 12 (put_value nested)
    ≡ (if is_within 12 nested then some (meaning plain nested) else none)
decode_any_value-put_value_example = decode_any_value-put_value plain 12 nested nested-IsSized

fails_at_twelve : is_within 12 nested ≡ false
unfolding is_within
fails_at_twelve = refl

fits_at_eleven : is_within 11 nested ≡ true
unfolding is_within
fits_at_eleven = refl

-- A resource with one scope and one record, of severity 9 with the text "hi".
abbrev request : Bytes
request = 10 ∷ 12 ∷ 18 ∷ 10 ∷ 18 ∷ 8 ∷ 16 ∷ 9 ∷ 42 ∷ 4 ∷ 10 ∷ 2 ∷ 104 ∷ 105 ∷ []

abbrev moment : Moment
moment = record { at = pos 1; unix_milli = 5; random = 1 ∷ [] }

decode_protobuf-IsNormal_example :
    OnSuccess (All IsNormal) (decode_protobuf plain ascii moment request)
unfolding is_zero
decode_protobuf-IsNormal_example = decode_protobuf-IsNormal plain ascii moment refl request

severity_to_level-IsLevel_example :
    (is_level (severity_to_level ascii 0 (codes "warn")) ≡ true)
    × (is_level (severity_to_level ascii 9 (codes "warn")) ≡ true)
    × (severity_to_level ascii 9 (codes "warn") ≡ severity_to_level ascii 9 [])
    × (rank (severity_to_level ascii 9 (codes "warn")) ≤ rank (severity_to_level ascii 17 []))
severity_to_level-IsLevel_example =
    severity_to_level-IsLevel ascii 9 17 (codes "warn") [] (omega arith) (omega arith)

abbrev resource : Attributes
resource = (codes "host", bool_value true) ∷ (codes "zone", bool_value false) ∷ []

abbrev own : Attributes
own = (codes "host", bool_value false) ∷ []
