-- ===== src/Syslog/Message.antt =====
-- The two formats of syslog messages: `parse5424`, `parse3164` and `Parse` of
-- internal/syslog/parse.go. The layouts of the package time are parameters.
use mathlib.Core.List.{reverse}
use omni_logging.Common.{
  ℕ, zero, suc, ◌+◌, ◌*◌, ◌/◌, ◌%◌, Bool, not, ◌&&◌, ◌||◌, Option, none, some, List, [], ◌∷◌,
  if◌then◌else◌, ltb, leb, ◌==◌, take, drop, Text, codes,
}
use omni_logging.Common.Int.{ℤ, pos, ◌+ℤ◌, ltb_ℤ}
use omni_logging.Common.Strings.{Unicode, trim_space, trim_left, cut_at, contains, ends_with}
use omni_logging.Common.Maps.{set_entry, set_entries}
use omni_logging.Query.{is_empty}
use omni_logging.Query.Match.{text}
use omni_logging.Model.{LogEvent, empty_event, Moment, is_zero, normalize, parse_level}
use omni_logging.Model.Json.{second}
use omni_logging.Syslog.{
  facility_names, severity_names, itoa, name_of, Priority, priority, no_priority, parse_pri,
  is_rfc5424, un_nil,
}
use omni_logging.Syslog.Elements.{split_structured_data, parse_structured_data}

-- A time without a zone that a layout read: its year, where the year is 0 the same in another one, and
-- the instant.
pub record Stamp : Type 0 where
  pub year : ℕ
  pub in_year : ℕ → ℤ
  pub at : ℤ

-- What the parser takes from the package time: RFC3339, the three layouts of `rfc3164Layouts` in their
-- order, the year of an instant, and the instant a year before.
pub record Clock : Type 0 where
  pub parse_rfc3339 : Text → Option ℤ
  pub layouts : List (Text → Option Stamp)
  pub year_of : ℤ → ℕ
  pub year_before : ℤ → ℤ

abbrev pub is_space_char : ℕ → Bool
is_space_char c = c == 32

-- strings.TrimRight(line, "\r\n\x00")
unfoldable pub trim_line : Text → Text
unfolding trim_left
trim_line s = reverse (trim_left (λ c. c == 13 || c == 10 || c == 0) (reverse s))

-- The fields before a number of spaces, and the remainder.
pub record Fields : Type 0 where
  pub fields : List Text
  pub remainder : Text

unfoldable pub take_fields : ℕ → Text → Fields
unfolding cut_at
take_fields zero s = record { fields = []; remainder = s }
take_fields (suc n) s = elim (cut_at 32 [] s) [
  | none ↦ record { fields = s ∷ []; remainder = [] }
  | some (f, rest) ↦ record {
    fields = f ∷ (take_fields n rest).fields;
    remainder = (take_fields n rest).remainder;
  }
]

-- e.Attributes[key] = value, unless it is empty.
unfoldable pub note_text : Text → Text → LogEvent → LogEvent
unfolding is_empty set_entry
note_text key value e =
    if is_empty value then e else record e { attributes = set_entry key (text value) e.attributes }

-- `stripBOM`
unfoldable pub strip_bom : Text → Text
strip_bom [] = []
strip_bom (c ∷ s) = if c == 65279 then s else c ∷ s

-- The length in bytes, in UTF-8.
unfoldable pub utf8_length : Text → ℕ
utf8_length [] = 0
utf8_length (c ∷ s) =
    (if ltb c 128 then 1 else if ltb c 2048 then 2 else if ltb c 65536 then 3 else 4)
    + utf8_length s

-- The event so far and the text that is left.
pub record Rest : Type 0 where
  pub event : LogEvent
  pub left : Text

module _ (u : Unicode) (clock : Clock) where
  unfoldable pub set_time : Text → LogEvent → LogEvent
  unfolding is_empty
  set_time ts e =
      if is_empty ts
      then e
      else elim (clock.parse_rfc3339 ts) [ none ↦ e | some t ↦ record e { timestamp = t } ]

  -- The end of `parse5424`, behind the header.
  unfoldable pub set_data : Text → LogEvent → LogEvent
  unfolding split_structured_data parse_structured_data set_entries strip_bom trim_space
  set_data remainder e =
      let halves = split_structured_data remainder in
      record e {
        attributes = set_entries (parse_structured_data u halves.data_part) e.attributes;
        message = trim_space u (strip_bom halves.message);
      }

  unfoldable pub parse_header : LogEvent → Text → List Text → Text → LogEvent
  unfolding set_time un_nil note_text set_data trim_space
  parse_header e rest (version ∷ ts ∷ host ∷ app ∷ proc ∷ msg_id ∷ []) remainder =
      set_data remainder (
        note_text (codes "msgid") (un_nil msg_id) (
          note_text (codes "procid") (un_nil proc)
            (record (set_time (un_nil ts) e) { source = un_nil host; service = un_nil app })))
  parse_header e rest _ remainder = record e { message = trim_space u rest }

  -- `parse5424`
  unfoldable pub parse_5424 : LogEvent → Text → LogEvent
  unfolding parse_header take_fields
  parse_5424 e rest = parse_header e rest (take_fields 6 rest).fields (take_fields 6 rest).remainder

  -- An RFC3339 timestamp in front of a message of RFC3164.
  unfoldable pub take_iso : LogEvent → Text → Rest
  unfolding cut_at is_empty trim_left
  take_iso e rest = elim (cut_at 32 [] rest) [
    | none ↦ record { event = e; left = rest }
    | some (word, behind) ↦
        if is_empty word
        then record { event = e; left = rest }
        else elim (clock.parse_rfc3339 word) [
          | none ↦ record { event = e; left = rest }
          | some t ↦ record {
            event = record e { timestamp = t };
            left = trim_left is_space_char behind;
          }
        ]
  ]

  -- The instant of a stamp without a year: one more than a day ahead belongs to the year before.
  unfoldable pub resolve_year : ℤ → Stamp → ℤ
  resolve_year now s =
      if s.year == 0
      then (let t = s.in_year (clock.year_of now) in
          if ltb_ℤ (now +ℤ pos (24 * 3600 * second)) t then clock.year_before t else t)
      else s.at

  -- The loop over the layouts, on the first 15 bytes.
  unfoldable pub try_layouts : ℤ → List (Text → Option Stamp) → LogEvent → Text → Rest
  unfolding resolve_year trim_left
  try_layouts now [] e rest = record { event = e; left = rest }
  try_layouts now (layout ∷ layouts) e rest =
      let others = try_layouts now layouts e rest in
      elim (layout (take 15 rest)) [
        | none ↦ others
        | some s ↦ record {
          event = record e { timestamp = resolve_year now s };
          left = trim_left is_space_char (drop 15 rest);
        }
      ]

  -- A stamp that a layout reads is ASCII, so that its bytes are its characters.
  unfoldable pub take_stamp : ℤ → Rest → Rest
  unfolding try_layouts is_zero utf8_length
  take_stamp now r =
      if is_zero r.event.timestamp && leb 15 (utf8_length r.left)
      then try_layouts now clock.layouts r.event r.left
      else r

  unfoldable pub take_host : Rest → Rest
  unfolding cut_at is_empty trim_left
  take_host r = elim (cut_at 32 [] r.left) [
    | none ↦ r
    | some (host, behind) ↦ if is_empty host then r else record {
      event = record r.event { source = host };
      left = trim_left is_space_char behind;
    }
  ]

  unfoldable pub drop_last : Text → Text
  drop_last [] = []
  drop_last (c ∷ []) = []
  drop_last (c ∷ d ∷ s) = c ∷ drop_last (d ∷ s)

  -- A tag, with the process in brackets behind it.
  unfoldable pub set_tag : Text → LogEvent → LogEvent
  unfolding cut_at is_empty ends_with drop_last set_entry
  set_tag tag e = elim (cut_at b'[' [] tag) [
    | none ↦ record e { service = tag }
    | some (name, behind) ↦
        if not (is_empty name) && ends_with b']' tag
        then record e {
          service = name;
          attributes = set_entry (codes "procid") (text (drop_last behind)) e.attributes;
        }
        else record e { service = tag }
  ]

  unfoldable pub take_tag : Rest → Rest
  unfolding cut_at is_empty utf8_length contains set_tag trim_left
  take_tag r = elim (cut_at b':' [] r.left) [
    | none ↦ r
    | some (tag, behind) ↦
        if not (is_empty tag) && leb (utf8_length tag) 48 && not (contains 32 tag)
        then record { event = set_tag tag r.event; left = trim_left is_space_char behind }
        else r
  ]

  unfoldable pub set_message : Rest → LogEvent
  unfolding trim_space
  set_message r = record r.event { message = trim_space u r.left }

  -- `parse3164`
  unfoldable pub parse_3164 : ℤ → LogEvent → Text → LogEvent
  unfolding take_iso take_stamp take_host take_tag set_message trim_left
  parse_3164 now e rest =
      set_message
        (take_tag (take_host (take_stamp now (take_iso e (trim_left is_space_char rest)))))

  -- The event of a message with a priority, before its rest is read.
  unfoldable pub with_priority : Text → ℕ → LogEvent
  unfolding name_of itoa parse_level
  with_priority line pri = record empty_event {
    raw = line;
    attributes =
        (codes "syslog_facility", text (name_of facility_names (pri / 8)))
        ∷ (codes "syslog_severity", text (name_of severity_names (pri % 8)))
        ∷ [];
    level = parse_level u (itoa (pri % 8));
  }

  unfoldable pub parse_rest : ℤ → LogEvent → Text → LogEvent
  unfolding is_rfc5424 parse_5424 parse_3164
  parse_rest now e rest = if is_rfc5424 rest then parse_5424 e rest else parse_3164 now e rest

  unfoldable pub of_priority : ℤ → Text → Priority → LogEvent
  unfolding with_priority parse_rest trim_space
  of_priority now line no_priority = record empty_event { raw = line; message = trim_space u line }
  of_priority now line (priority pri rest) = parse_rest now (with_priority line pri) rest

  -- The event of a line without its end.
  unfoldable pub parse_line : ℤ → Text → LogEvent
  unfolding parse_pri of_priority
  parse_line now line = of_priority now line (parse_pri line)

  -- `Parse`
  unfoldable pub parse : Moment → Text → LogEvent
  unfolding parse_line trim_line normalize
  parse now line = normalize u now (parse_line now.at (trim_line line))
