-- ===== src/Model/Json.antt =====
-- Events from JSON objects (internal/model/event.go): `EventFromJSON` with its timestamps. The decoding of
-- JSON and the layout RFC3339 are parameters.
use omni_logging.Common.{
  ℕ, ◌+◌, ◌*◌, ◌%◌, ◌^◌, Option, none, some, List, [], ◌∷◌, if◌then◌else◌, ltb, leb, Text, Bytes,
  codes,
}
use omni_logging.Common.Int.{ℤ, pos, negsuc, sub_ℕ, ◌+ℤ◌, ltb_ℤ}
use omni_logging.Common.Strings.{Unicode, trim_space, parse_int}
use omni_logging.Common.Maps.{get_entry, set_entry, set_entries}
use omni_logging.Query.{is_empty}
use omni_logging.Query.Match.{Value}
use omni_logging.Model.{LogEvent, empty_event, Moment, is_among, normalize, parse_level, zero_time}

-- encoding/json and time: `string_of` and its like decode a value as a type; an int64 is what the
-- conversion of a decoded float64 gives.
pub record Decoder (R : Type 0) : Type 0 where
  pub object : Bytes → Option (List (Text × R))
  pub string_of : R → Option Text
  pub int_of : R → Option ℤ
  pub object_of : R → Option (List (Text × Value))
  pub value_of : R → Option Value
  pub text_of : R → Text
  pub parse_rfc3339 : Text → Option ℤ

-- What `EventFromJSON` answers.
pub data Decoded : Type 0 where
  decoded : LogEvent → Decoded
  not_object : Decoded
  bad_time : Decoded
  future_time : Decoded

abbrev pub second : ℕ
second = 10 ^ 9

-- maxFutureTimestampSkew
abbrev pub max_future_skew : ℤ
max_future_skew = pos (24 * 3600 * second)

-- The first of January 1970.
abbrev pub unix_epoch : ℤ
unix_epoch = pos (62135596800 * second)

-- An int64 product of a number that is not negative.
unfoldable pub wrap_64 : ℕ → ℤ
wrap_64 n = if ltb (n % 2 ^ 64) (2 ^ 63) then pos (n % 2 ^ 64) else sub_ℕ (n % 2 ^ 64) (2 ^ 64)

unfoldable pub scale_seconds : ℤ → ℤ
scale_seconds (pos n) = pos (n * second)
scale_seconds (negsuc n) = sub_ℕ 0 ((n + 1) * second)

-- `unixAuto` on an int64.
unfoldable pub unix_auto : ℤ → ℤ
unfolding wrap_64 scale_seconds
unix_auto (pos n) =
    if leb (10 ^ 18) n
    then unix_epoch +ℤ pos n
    else if leb (10 ^ 15) n
    then unix_epoch +ℤ wrap_64 (n * 10 ^ 3)
    else if leb (10 ^ 12) n
    then unix_epoch +ℤ wrap_64 (n * 10 ^ 6)
    else unix_epoch +ℤ scale_seconds (pos n)
unix_auto (negsuc n) = unix_epoch +ℤ scale_seconds (negsuc n)

abbrev pub reserved : List Text
reserved =
    codes "id"
    ∷ codes "timestamp"
    ∷ codes "time"
    ∷ codes "ts"
    ∷ codes "@timestamp"
    ∷ codes "received_at"
    ∷ codes "source"
    ∷ codes "host"
    ∷ codes "hostname"
    ∷ codes "service"
    ∷ codes "logger"
    ∷ codes "level"
    ∷ codes "severity"
    ∷ codes "lvl"
    ∷ codes "message"
    ∷ codes "msg"
    ∷ codes "raw"
    ∷ codes "attributes"
    ∷ []

abbrev pub source_keys : List Text
source_keys = codes "source" ∷ codes "host" ∷ codes "hostname" ∷ []

abbrev pub service_keys : List Text
service_keys = codes "service" ∷ codes "logger" ∷ []

abbrev pub level_keys : List Text
level_keys = codes "level" ∷ codes "severity" ∷ codes "lvl" ∷ []

abbrev pub message_keys : List Text
message_keys = codes "message" ∷ codes "msg" ∷ []

abbrev pub time_keys : List Text
time_keys = codes "timestamp" ∷ codes "time" ∷ codes "ts" ∷ codes "@timestamp" ∷ []

-- get(keys...): the first of the keys that the object has.
unfoldable pub get : {R : Type 0} → List Text → List (Text × R) → Option R
unfolding get_entry
get [] fields = none
get (k ∷ ks) fields =
    let rest = get ks fields in elim (get_entry k fields) [ none ↦ rest | some v ↦ some v ]

module _ {R : Type 0} (j : Decoder R) (u : Unicode) where
  -- `jsonToString`
  unfoldable pub json_to_string : R → Text
  unfolding trim_space
  json_to_string v = elim (j.string_of v) [ some s ↦ s | none ↦ trim_space u (j.text_of v) ]

  -- A field under one of the keys, empty where there is none.
  unfoldable pub text_field : List Text → List (Text × R) → Text
  unfolding get json_to_string
  text_field keys fields = elim (get keys fields) [ none ↦ [] | some v ↦ json_to_string v ]

  unfoldable pub level_field : List (Text × R) → Text
  unfolding get json_to_string parse_level
  level_field fields = elim (get level_keys fields) [
    | none ↦ []
    | some v ↦ parse_level u (json_to_string v)
  ]

  unfoldable pub time_of_text : Text → Option ℤ
  unfolding is_empty parse_int unix_auto
  time_of_text s = if is_empty s then some zero_time else elim (j.parse_rfc3339 s) [
    | some t ↦ some t
    | none ↦ elim (parse_int s) [ none ↦ none | some n ↦ some (unix_auto n) ]
  ]

  -- `parseTimestamp`
  unfoldable pub parse_timestamp : R → Option ℤ
  unfolding time_of_text trim_space unix_auto
  parse_timestamp v = elim (j.string_of v) [
    | some s ↦ time_of_text (trim_space u s)
    | none ↦ elim (j.int_of v) [ none ↦ none | some n ↦ some (unix_auto n) ]
  ]

  unfoldable pub explicit_attributes : List (Text × R) → List (Text × Value)
  unfolding get_entry set_entries
  explicit_attributes fields = elim (get_entry (codes "attributes") fields) [
    | none ↦ []
    | some v ↦ elim (j.object_of v) [ none ↦ [] | some attrs ↦ set_entries attrs [] ]
  ]

  -- The loop over the other top-level keys.
  unfoldable pub other_attributes : List (Text × R) → List (Text × Value) → List (Text × Value)
  unfolding is_among set_entry
  other_attributes [] attrs = attrs
  other_attributes ((k, v) ∷ fields) attrs = other_attributes fields (
      if is_among k reserved
      then attrs
      else elim (j.value_of v) [ none ↦ attrs | some x ↦ set_entry k x attrs ])

  unfoldable pub event_of : List (Text × R) → ℤ → LogEvent
  unfolding text_field level_field explicit_attributes other_attributes
  event_of fields timestamp = record empty_event {
    source = text_field source_keys fields;
    service = text_field service_keys fields;
    level = level_field fields;
    message = text_field message_keys fields;
    raw = text_field (codes "raw" ∷ []) fields;
    timestamp = timestamp;
    attributes = other_attributes fields (explicit_attributes fields);
  }

  unfoldable pub event_at : Moment → List (Text × R) → Option ℤ → Decoded
  unfolding event_of normalize
  event_at now fields none = bad_time
  event_at now fields (some t) =
      if ltb_ℤ (now.at +ℤ max_future_skew) t
      then future_time
      else decoded (normalize u now (event_of fields t))

  unfoldable pub event_from_fields : Moment → List (Text × R) → Decoded
  unfolding get parse_timestamp event_at event_of normalize
  event_from_fields now fields = elim (get time_keys fields) [
    | none ↦ decoded (normalize u now (event_of fields zero_time))
    | some v ↦ event_at now fields (parse_timestamp v)
  ]

  -- `EventFromJSON`
  unfoldable pub event_from_json : Moment → Bytes → Decoded
  unfolding event_from_fields
  event_from_json now bytes = elim (j.object bytes) [
    | none ↦ not_object
    | some fields ↦ event_from_fields now fields
  ]
