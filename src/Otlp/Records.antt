-- ===== src/Otlp/Records.antt =====
-- The decoding of a log record: `decodeLogRecord`, `finishEvent`, `firstAttr` and `severityToLevel` of
-- internal/otlp/logs.go.
use omni_logging.Common.{
  ℕ, ◌+◌, ◌&&◌, Option, none, some, List, [], ◌∷◌, if◌then◌else◌, ◌>>=◌, ltb, leb, ◌==◌, Text,
  Bytes, codes,
}
use omni_logging.Common.Int.{ℤ, ◌+ℤ◌}
use omni_logging.Common.Strings.{Unicode}
use omni_logging.Common.Maps.{get_entry, set_entry}
use omni_logging.Query.{is_empty}
use omni_logging.Query.Match.{Value}
use omni_logging.Model.{
  LogEvent, Moment, normalize, parse_level, level_debug, level_info, level_warn, level_error,
  level_fatal, zero_time,
}
use omni_logging.Model.Json.{wrap_64, unix_epoch}
use omni_logging.Otlp.{varint, bytes, fixed64}
use omni_logging.Otlp.Fields.{each_field, skipped}
use omni_logging.Otlp.Values.{
  AnyValue, string_value, Codec, hex, decode_any_value, decode_key_value, value_to_string,
  attribute,
}

-- The attributes of a resource or of a record: a map.
abbrev pub Attributes : Type 0
Attributes = List (Text × AnyValue)

abbrev pub resource_service_keys : List Text
resource_service_keys =
    codes "service.name"
    ∷ codes "service_name"
    ∷ codes "k8s.deployment.name"
    ∷ codes "k8s.container.name"
    ∷ []

abbrev pub resource_host_keys : List Text
resource_host_keys =
    codes "host.name" ∷ codes "host" ∷ codes "k8s.pod.name" ∷ codes "k8s.node.name" ∷ []

-- What `decodeLogRecord` has read of a record.
pub record Draft : Type 0 where
  pub attributes : Attributes
  pub message : Text
  pub time_nano : ℕ
  pub observed_nano : ℕ
  pub severity_number : ℕ
  pub severity_text : Text

abbrev pub empty_draft : Draft
empty_draft = record {
  attributes = [];
  message = [];
  time_nano = 0;
  observed_nano = 0;
  severity_number = 0;
  severity_text = [];
}

-- time.Unix(0, int64(nano))
unfoldable pub at_nano : ℕ → ℤ
unfolding wrap_64 ◌+ℤ◌
at_nano nano = unix_epoch +ℤ wrap_64 nano

-- `severityToLevel`
unfoldable pub severity_to_level : Unicode → ℕ → Text → Text
unfolding parse_level is_empty
severity_to_level u number text =
    if number == 0
    then (if is_empty text then level_info else parse_level u text)
    else if leb number 4
    then level_debug
    else if leb number 8
    then level_debug
    else if leb number 12
    then level_info
    else if leb number 16
    then level_warn
    else if leb number 20
    then level_error
    else level_fatal

-- Keep an entry under its key unless the key is empty.
unfoldable pub set_named : Text → AnyValue → Attributes → Attributes
unfolding set_entry is_empty
set_named k v m = if is_empty k then m else set_entry k v m

unfoldable pub fill_unless : Option AnyValue → Text → AnyValue → Attributes → Attributes
unfolding set_entry
fill_unless none k v m = set_entry k v m
fill_unless (some taken) k v m = m

unfoldable pub fill_entry : Text → AnyValue → Attributes → Attributes
unfolding get_entry fill_unless
fill_entry k v m = fill_unless (get_entry k m) k v m

-- for k, v := range resourceAttrs { if _, taken := m[k]; !taken { m[k] = v } }
unfoldable pub fill_entries : Attributes → Attributes → Attributes
unfolding fill_entry
fill_entries [] m = m
fill_entries ((k, v) ∷ kvs) m = fill_entries kvs (fill_entry k v m)

unfoldable pub with_draft : {A : Type 0} → (A → Draft) → Option (A × Bytes) → Option (Draft × Bytes)
with_draft f o = do (a, behind) ← o; some (f a, behind)

-- A trace or span ID under its name; an empty one is left out.
unfoldable pub set_hex : Text → Bytes → Draft → Draft
unfolding set_entry hex
set_hex name [] d = d
set_hex name (b ∷ bs) d = record d {
  attributes = set_entry name (string_value (hex (b ∷ bs))) d.attributes;
}

module _ (c : Codec) (u : Unicode) where
  -- `firstAttr`
  unfoldable pub first_attr : Attributes → List Text → Text
  unfolding get_entry value_to_string is_empty
  first_attr attrs [] = []
  first_attr attrs (k ∷ ks) =
      let rest = first_attr attrs ks in
      elim (get_entry k attrs) [
        | none ↦ rest
        | some v ↦ if is_empty (value_to_string c v) then rest else value_to_string c v
      ]

  unfoldable pub attributes_of : Attributes → List (Text × Value)
  unfolding attribute
  attributes_of [] = []
  attributes_of ((k, v) ∷ kvs) = (k, attribute c v) ∷ attributes_of kvs

  unfoldable pub or_scope : Text → Text → Text
  or_scope service scope_name = if is_empty service then scope_name else service

  unfoldable pub record_time : Draft → ℤ
  unfolding at_nano
  record_time d =
      if ltb 0 d.time_nano
      then at_nano d.time_nano
      else if ltb 0 d.observed_nano
      then at_nano d.observed_nano
      else zero_time

  unfoldable pub received_time : Draft → ℤ
  unfolding at_nano
  received_time d = if ltb 0 d.observed_nano then at_nano d.observed_nano else zero_time

  -- The fields that `finishEvent` sets, before `Normalize`.
  unfoldable pub draft_event : Attributes → Text → Draft → LogEvent
  unfolding first_attr attributes_of or_scope record_time received_time severity_to_level
      fill_entries
  draft_event resource scope_name d = record {
    id = [];
    timestamp = record_time d;
    received_at = received_time d;
    source = first_attr resource resource_host_keys;
    service = or_scope (first_attr resource resource_service_keys) scope_name;
    level = severity_to_level u d.severity_number d.severity_text;
    message = d.message;
    attributes = attributes_of (fill_entries resource d.attributes);
    raw = [];
  }

  -- `finishEvent`
  unfoldable pub finish_event : Moment → Attributes → Text → Draft → LogEvent
  unfolding normalize draft_event
  finish_event now resource scope_name d = normalize u now (draft_event resource scope_name d)

  -- `decodeKeyValue` at its depth.
  unfoldable pub key_value_at : ℕ → Bytes → Option (Text × AnyValue)
  unfolding decode_key_value decode_any_value
  key_value_at depth b = decode_key_value c (decode_any_value c (depth + 1)) depth b

  -- The switch of `decodeLogRecord`.
  unfoldable pub record_field : ℕ → Draft → ℕ → ℕ → Bytes → Option (Draft × Bytes)
  unfolding with_draft fixed64 varint bytes skipped key_value_at decode_any_value set_named set_hex
      value_to_string
  record_field depth d field wire rest =
      if field == 1 && wire == 1
      then with_draft (λ v. record d { time_nano = v }) (fixed64 rest)
      else if field == 11 && wire == 1
      then with_draft (λ v. record d { observed_nano = v }) (fixed64 rest)
      else if field == 2 && wire == 0
      then with_draft (λ v. record d { severity_number = v }) (varint rest)
      else if field == 3 && wire == 2
      then with_draft (λ v. record d { severity_text = c.text_of v }) (bytes rest)
      else if field == 5 && wire == 2
      then (do
        (v, behind) ← bytes rest
        body ← decode_any_value c (depth + 1) v
        some (record d { message = value_to_string c body }, behind))
      else if field == 6 && wire == 2
      then (do
        (v, behind) ← bytes rest
        (k, val) ← key_value_at (depth + 1) v
        some (record d { attributes = set_named k val d.attributes }, behind))
      else if field == 9 && wire == 2
      then with_draft (λ v. set_hex (codes "trace_id") v d) (bytes rest)
      else if field == 10 && wire == 2
      then with_draft (λ v. set_hex (codes "span_id") v d) (bytes rest)
      else skipped d wire rest

  -- `decodeLogRecord`
  unfoldable pub decode_log_record : Moment → Attributes → Text → ℕ → Bytes → Option LogEvent
  unfolding each_field record_field finish_event
  decode_log_record now resource scope_name depth b = do
    d ← each_field (record_field depth) empty_draft b
    some (finish_event now resource scope_name d)
