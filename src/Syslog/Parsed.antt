-- ===== src/Syslog/Parsed.antt =====
-- The event that `parse5424` of internal/syslog/parse.go makes of a message of Header.
use omni_logging.Common.{
  ◌≡◌, refl, sym, ap, subst, ◌∙◌, true, false, some, List, [], ◌∷◌, ◌++◌, if◌then◌else◌, if-elim,
  ◌/◌, ◌%◌, arith, Text, codes,
}
use omni_logging.Common.Int.{ℤ}
use omni_logging.Common.Strings.{Unicode, trim_space}
use omni_logging.Common.Maps.{set_entry, set_entries}
use omni_logging.Query.{is_empty}
use omni_logging.Query.Match.{Value, text}
use omni_logging.Model.{LogEvent, parse_level}
use omni_logging.Syslog.{facility_names, severity_names, name_of, itoa, is_rfc5424, un_nil}
use omni_logging.Syslog.Elements.{split_structured_data}
use omni_logging.Syslog.Message.{
  Clock, Fields, take_fields, note_text, strip_bom, set_time, set_data, parse_header, parse_5424,
  with_priority, parse_rest, of_priority, parse_line,
}
use omni_logging.Syslog.Priorities.{parse_pri-written}
use omni_logging.Syslog.RoundTrip.{attributes_of, IsRead, split_structured_data-IsRead}
use omni_logging.Syslog.Header.{
  Message, elements, header_words, data_and_body, behind_pri, line_of, IsSendable,
  is_rfc5424-version, take_fields_all,
}

-- An attribute for a word of the header, unless it is "-" or empty.
abbrev pub word_attribute : Text → Text → List (Text × Value)
word_attribute key w = if is_empty (un_nil w) then [] else (key, text (un_nil w)) ∷ []

abbrev pub header_attributes : Message → List (Text × Value)
header_attributes m =
    (codes "syslog_facility", text (name_of facility_names (m.pri / 8)))
    ∷ (codes "syslog_severity", text (name_of severity_names (m.pri % 8)))
    ∷ (word_attribute (codes "procid") m.process ++ word_attribute (codes "msgid") m.id)

module _ (u : Unicode) (clock : Clock) where
  -- What is read of a message.
  pub record IsParsed (m : Message) (e : LogEvent) : Type 0 where
    pub source : e.source ≡ un_nil m.host
    pub service : e.service ≡ un_nil m.app
    pub message : e.message ≡ trim_space u (strip_bom m.body)
    pub level : e.level ≡ parse_level u (itoa (m.pri % 8))
    pub attributes :
        e.attributes
        ≡ set_entries (set_entries (attributes_of (elements m)) []) (header_attributes m)
    pub timestamp :
        (t : ℤ)
        → is_empty (un_nil m.stamp) ≡ false
        → clock.parse_rfc3339 (un_nil m.stamp) ≡ some t
        → e.timestamp ≡ t

  abbrev headed : Message → LogEvent → LogEvent
  headed m e = note_text (codes "msgid") (un_nil m.id) (
      note_text (codes "procid") (un_nil m.process) (record (set_time u clock (un_nil m.stamp) e) {
        source = un_nil m.host;
        service = un_nil m.app;
      }))

  parse_rest-header :
      (now : ℤ) (m : Message) (e : LogEvent)
      → IsSendable u m
      → parse_rest u clock now e (behind_pri m) ≡ set_data u clock (data_and_body m) (headed m e)
  unfolding parse_rest parse_5424 parse_header
  parse_rest-header now m e h =
      let v5424 : is_rfc5424 (behind_pri m) ≡ true =
        is_rfc5424-version m.version _ h.digits h.has_version in
      let split : take_fields 6 (behind_pri m)
          ≡ record { fields = header_words m; remainder = data_and_body m } =
        take_fields_all (header_words m) (data_and_body m) h.words in
      rw (parse_rest, v5424)
        (ap (λ (f : Fields). parse_header u clock e (behind_pri m) f.fields f.remainder) split)

  parse_line-header :
      (now : ℤ) (m : Message)
      → IsSendable u m
      → parse_line u clock now (line_of m)
        ≡ set_data u clock (data_and_body m) (headed m (with_priority u clock (line_of m) m.pri))
  unfolding parse_line of_priority
  parse_line-header now m h =
      ap (of_priority u clock now (line_of m)) (parse_pri-written m.pri (behind_pri m) h.in_range)
      ∙ parse_rest-header now m (with_priority u clock (line_of m) m.pri) h

  note_text-fields :
      (key value : Text) (e : LogEvent)
      → ((note_text key value e).source ≡ e.source)
        × ((note_text key value e).service ≡ e.service)
        × ((note_text key value e).level ≡ e.level)
        × ((note_text key value e).timestamp ≡ e.timestamp)
  unfolding note_text
  note_text-fields key value e =
      if-elim
        (λ (x : LogEvent).
          (x.source ≡ e.source)
          × (x.service ≡ e.service)
          × (x.level ≡ e.level)
          × (x.timestamp ≡ e.timestamp))
        (is_empty value) (λ _. (refl, refl, refl, refl)) (λ _. (refl, refl, refl, refl))

  set_time-fields :
      (ts : Text) (e : LogEvent)
      → ((set_time u clock ts e).level ≡ e.level)
        × ((set_time u clock ts e).attributes ≡ e.attributes)
  unfolding set_time
  set_time-fields ts e = ground arith

  set_time-read :
      (ts : Text) (e : LogEvent) (t : ℤ)
      → is_empty ts ≡ false
      → clock.parse_rfc3339 ts ≡ some t
      → (set_time u clock ts e).timestamp ≡ t
  unfolding set_time
  set_time-read ts e t h k = rw (set_time, h, k) refl

  note_text-attributes :
      (proc id : Text) (e : LogEvent) (a b : Value)
      → e.attributes ≡ (codes "syslog_facility", a) ∷ (codes "syslog_severity", b) ∷ []
      → (note_text (codes "msgid") id (note_text (codes "procid") proc e)).attributes
        ≡ (codes "syslog_facility", a)
          ∷ (codes "syslog_severity", b)
          ∷ ((if is_empty proc then [] else (codes "procid", text proc) ∷ [])
              ++ (if is_empty id then [] else (codes "msgid", text id) ∷ []))
  unfolding note_text set_entry
  note_text-attributes [] [] e a b h = h
  note_text-attributes [] (c ∷ s) e a b h = ap (set_entry (codes "msgid") (text (c ∷ s))) h
  note_text-attributes (c ∷ s) [] e a b h = ap (set_entry (codes "procid") (text (c ∷ s))) h
  note_text-attributes (c ∷ s) (d ∷ t) e a b h =
      ap
        (λ m.
          set_entry (codes "msgid") (text (d ∷ t)) (set_entry (codes "procid") (text (c ∷ s)) m))
        h

  headed-attributes :
      (m : Message) (line : Text)
      → (headed m (with_priority u clock line m.pri)).attributes ≡ header_attributes m
  unfolding with_priority
  headed-attributes m line =
      note_text-attributes (un_nil m.process) (un_nil m.id)
        (record (set_time u clock (un_nil m.stamp) (with_priority u clock line m.pri)) {
          source = un_nil m.host;
          service = un_nil m.app;
        })
        (text (name_of facility_names (m.pri / 8))) (text (name_of severity_names (m.pri % 8)))
        (set_time-fields (un_nil m.stamp) (with_priority u clock line m.pri)).1

  headed-fields :
      (m : Message) (e : LogEvent)
      → ((headed m e).source ≡ un_nil m.host)
        × ((headed m e).service ≡ un_nil m.app)
        × ((headed m e).level ≡ e.level)
        × ((headed m e).timestamp ≡ (set_time u clock (un_nil m.stamp) e).timestamp)
  headed-fields m e =
      let base : LogEvent = record (set_time u clock (un_nil m.stamp) e) {
        source = un_nil m.host;
        service = un_nil m.app;
      } in
      let (s1, s2, s3, s4) =
        note_text-fields (codes "msgid") (un_nil m.id)
          (note_text (codes "procid") (un_nil m.process) base) in
      let (p1, p2, p3, p4) = note_text-fields (codes "procid") (un_nil m.process) base in
      (s1 ∙ p1, s2 ∙ p2, s3 ∙ p3 ∙ (set_time-fields (un_nil m.stamp) e).0, s4 ∙ p4)

  IsParsed-data :
      (m : Message) (line : Text)
      → IsSendable u m
      → u.is_space b'"' ≡ false
      → IsParsed m
          (set_data u clock (data_and_body m) (headed m (with_priority u clock line m.pri)))
  unfolding set_data with_priority
  IsParsed-data m line h q =
      let read : IsRead u (elements m) m.body (split_structured_data (data_and_body m)) =
        split_structured_data-IsRead u m.first m.others m.body h.writable q in
      let (source, service, level, stamp) = headed-fields m (with_priority u clock line m.pri) in
      record {
        source = source;
        service = service;
        level = level;
        message = ap (λ t. trim_space u (strip_bom t)) read.message;
        attributes = λ i. set_entries (read.attributes i) (headed-attributes m line i);
        timestamp = λ t k e.
            stamp ∙ set_time-read (un_nil m.stamp) (with_priority u clock line m.pri) t k e;
      }

  -- A message written as RFC5424 says, with a priority up to 191, a version, five words without spaces and
  -- structured data, is read back: source, service, level and body, the instant if its timestamp is one,
  -- and as attributes the names of its facility and severity, its process and its ID unless they are "-",
  -- and the parameters of its structured data, unescaped. The body loses a byte order mark and the spaces
  -- around it. Names in structured data are as the parser reads them, and a quote is no space.
  pub parse_line-IsParsed :
      (now : ℤ) (m : Message)
      → IsSendable u m
      → u.is_space b'"' ≡ false
      → IsParsed m (parse_line u clock now (line_of m))
  parse_line-IsParsed now m h q =
      subst (IsParsed m) (sym (parse_line-header now m h)) (IsParsed-data m (line_of m) h q)
