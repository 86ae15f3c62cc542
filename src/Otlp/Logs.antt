-- ===== src/Otlp/Logs.antt =====
-- The decoding of an ExportLogsServiceRequest: `DecodeProtobuf`, `decodeResourceLogs`, `decodeResource`, `decodeScopeLogs`
-- and `decodeScopeName` of internal/otlp/logs.go. A decoder returns its value or fails; the texts of the errors
-- are left out.
use omni_logging.Common.{
  ℕ, ◌+◌, ◌⊎◌, inl, not, ◌&&◌, ◌||◌, Option, none, some, List, [], ◌∷◌, ◌++◌, if◌then◌else◌, ◌>>=◌,
  ltb, ◌==◌, Text, Bytes,
}
use omni_logging.Common.Strings.{Unicode}
use omni_logging.Model.{LogEvent, Moment}
use omni_logging.Otlp.{bytes}
use omni_logging.Otlp.Fields.{each_field, skipped, first_field, passed}
use omni_logging.Otlp.Values.{Codec, max_nesting_depth}
use omni_logging.Otlp.Records.{Attributes, set_named, key_value_at, decode_log_record}

module _ (c : Codec) (u : Unicode) where
  unfoldable pub scope_name_field : ℕ → ℕ → Bytes → Option (Text ⊎ Bytes)
  unfolding bytes passed
  scope_name_field field wire rest =
      if field == 1 && wire == 2
      then (do (v, behind) ← bytes rest; some (inl (c.text_of v)))
      else passed wire rest

  -- `decodeScopeName`
  unfoldable pub decode_scope_name : Bytes → Text
  unfolding first_field scope_name_field
  decode_scope_name b = elim (first_field scope_name_field b) [
    | none ↦ []
    | some found ↦ elim found [ none ↦ [] | some name ↦ name ]
  ]

  unfoldable pub scope_field :
      (Text × List Bytes) → ℕ → ℕ → Bytes → Option ((Text × List Bytes) × Bytes)
  unfolding skipped bytes decode_scope_name
  scope_field (name, records) field wire rest =
      if not (wire == 2) then skipped (name, records) wire rest else (do
        (payload, behind) ← bytes rest
        some (
          if field == 1
              then (decode_scope_name payload, records)
              else if field == 2
              then (name, records ++ payload ∷ [])
              else (name, records),
          behind,
        ))

  unfoldable pub decode_records :
      Moment → Attributes → Text → ℕ → List Bytes → Option (List LogEvent)
  unfolding decode_log_record
  decode_records now resource scope_name depth [] = some []
  decode_records now resource scope_name depth (rec ∷ recs) = do
    e ← decode_log_record c u now resource scope_name depth rec
    es ← decode_records now resource scope_name depth recs
    some (e ∷ es)

  -- `decodeScopeLogs`
  unfoldable pub decode_scope_logs : Moment → Attributes → ℕ → Bytes → Option (List LogEvent)
  unfolding each_field scope_field decode_records
  decode_scope_logs now resource depth b = if ltb max_nesting_depth depth then none else (do
    (name, records) ← each_field scope_field ([], []) b
    decode_records now resource name (depth + 1) records)

  unfoldable pub attribute_field : ℕ → Attributes → ℕ → ℕ → Bytes → Option (Attributes × Bytes)
  unfolding skipped bytes key_value_at set_named
  attribute_field depth attrs field wire rest =
      if not (field == 1) || not (wire == 2) then skipped attrs wire rest else (do
        (kv, behind) ← bytes rest
        (k, v) ← key_value_at c u (depth + 1) kv
        some (set_named k v attrs, behind))

  -- `decodeResource`
  unfoldable pub decode_resource : ℕ → Attributes → Bytes → Option Attributes
  unfolding each_field attribute_field
  decode_resource depth attrs b =
      if ltb max_nesting_depth depth then none else each_field (attribute_field depth) attrs b

  -- The switch of `decodeResourceLogs`.
  unfoldable pub resource_or_scope :
      ℕ → (Attributes × List Bytes) → ℕ → Bytes → Option (Attributes × List Bytes)
  unfolding decode_resource
  resource_or_scope depth (attrs, scopes) field payload =
      if field == 1
      then (do a ← decode_resource (depth + 1) attrs payload; some (a, scopes))
      else if field == 2
      then some (attrs, scopes ++ payload ∷ [])
      else some (attrs, scopes)

  unfoldable pub resource_field :
      ℕ → (Attributes × List Bytes) → ℕ → ℕ → Bytes → Option ((Attributes × List Bytes) × Bytes)
  unfolding skipped bytes resource_or_scope
  resource_field depth s field wire rest = if not (wire == 2) then skipped s wire rest else (do
    (payload, behind) ← bytes rest
    next ← resource_or_scope depth s field payload
    some (next, behind))

  unfoldable pub decode_scopes : Moment → Attributes → ℕ → List Bytes → Option (List LogEvent)
  unfolding decode_scope_logs
  decode_scopes now resource depth [] = some []
  decode_scopes now resource depth (scope ∷ scopes) = do
    es ← decode_scope_logs now resource depth scope
    more ← decode_scopes now resource depth scopes
    some (es ++ more)

  -- `decodeResourceLogs`
  unfoldable pub decode_resource_logs : Moment → ℕ → Bytes → Option (List LogEvent)
  unfolding each_field resource_field decode_scopes
  decode_resource_logs now depth b = if ltb max_nesting_depth depth then none else (do
    (resource, scopes) ← each_field (resource_field depth) ([], []) b
    decode_scopes now resource (depth + 1) scopes)

  unfoldable pub request_field :
      Moment → List LogEvent → ℕ → ℕ → Bytes → Option (List LogEvent × Bytes)
  unfolding skipped bytes decode_resource_logs
  request_field now out field wire rest =
      if not (field == 1) || not (wire == 2) then skipped out wire rest else (do
        (body, behind) ← bytes rest
        events ← decode_resource_logs now 0 body
        some (out ++ events, behind))

  -- `DecodeProtobuf`
  unfoldable pub decode_protobuf : Moment → Bytes → Option (List LogEvent)
  unfolding each_field request_field
  decode_protobuf now b = each_field (request_field now) [] b
