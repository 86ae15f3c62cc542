-- ===== src/Model/Samples.antt =====
-- Events of internal/model at concrete inputs.
use omni_logging.Common.{◌<◌, ◌*◌, ◌^◌, ◌≡◌, refl, arith, none, some, List, [], ◌∷◌, Text, codes}
use omni_logging.Common.Int.{pos, ◌<ℤ◌, ◌+ℤ◌}
use omni_logging.Common.Strings.{ascii}
use omni_logging.Query.Match.{text, less, compare_text}
use omni_logging.Model.{LogEvent, Moment, normalize, zero_time}
use omni_logging.Model.Ids.{new_id_at}
use omni_logging.Model.Json.{Decoder, decoded, event_from_json, event_of}
use omni_logging.Model.Levels.{IsIngested, event_from_json-IsIngested}
use omni_logging.Model.Sorting.{new_id_at-sorted}

earlier : 1700000000000 < 1700000000001
earlier = omega arith

in_time : 1700000000001 < 2 ^ 48
in_time = omega arith

new_id_at-sorted_example :
    compare_text (new_id_at 1700000000000 (255 ∷ 3 ∷ [])) (new_id_at 1700000000001 (0 ∷ 7 ∷ []))
    ≡ less
new_id_at-sorted_example =
    new_id_at-sorted 1700000000000 1700000000001 (255 ∷ 3 ∷ []) (0 ∷ 7 ∷ []) earlier in_time

-- A decoder of one object, whose values are texts; it holds an ID, which does not count.
abbrev pairs : List (Text × Text)
pairs =
    (codes "id", codes "mine")
    ∷ (codes "lvl", codes " WARNING ")
    ∷ (codes "msg", codes "disk full")
    ∷ (codes "ts", codes "1700000000")
    ∷ (codes "disk", codes "sda")
    ∷ []

abbrev texts : Decoder Text
texts = record {
  object = λ bytes. some pairs;
  string_of = λ t. some t;
  int_of = λ t. none;
  object_of = λ t. none;
  value_of = λ t. some (text t);
  text_of = λ t. t;
  parse_rfc3339 = λ t. none;
}

abbrev now : Moment
now = record {
  at = pos (63835596860 * 10 ^ 9);
  unix_milli = 1700000060000;
  random = 1 ∷ 2 ∷ 3 ∷ 4 ∷ 5 ∷ 6 ∷ 7 ∷ 8 ∷ 9 ∷ 10 ∷ [];
}

abbrev read_event : LogEvent
read_event = normalize ascii now (event_of texts ascii pairs (pos (63835596800 * 10 ^ 9)))

after_zero : zero_time <ℤ now.at
after_zero = omega arith

decodes : event_from_json texts ascii now [] ≡ decoded read_event
unfolding event_from_json ◌+ℤ◌
decodes = refl

event_from_json-IsIngested_example : IsIngested now read_event
event_from_json-IsIngested_example =
    event_from_json-IsIngested texts ascii now [] read_event after_zero decodes
