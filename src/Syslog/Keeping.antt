-- ===== src/Syslog/Keeping.antt =====
-- What every message becomes: `Parse` of internal/syslog/parse.go on lines of any form.
use omni_logging.Common.{
  ◌≡◌, refl, ap, ◌∙◌, false, not, ◌&&◌, ◌==◌, Option, List, [], ◌∷◌, if-elim, Option-cases, inl,
  inr, leb, arith, Text, codes,
}
use omni_logging.Common.Int.{ℤ}
use omni_logging.Common.Strings.{Unicode, trim_space, trim_left, cut_at, contains}
use omni_logging.Query.{is_empty}
use omni_logging.Model.{LogEvent, Moment, is_zero, normalize}
use omni_logging.Model.Levels.{IsNormal, normalize-IsNormal}
use omni_logging.Syslog.{Priority, priority, no_priority, parse_pri, is_rfc5424, un_nil}
use omni_logging.Syslog.Message.{
  Clock, Stamp, Rest, trim_line, take_fields, note_text, utf8_length, set_time, set_data,
  parse_header, parse_5424, take_iso, try_layouts, take_stamp, take_host, set_tag, take_tag,
  set_message, parse_3164, with_priority, parse_rest, of_priority, parse_line, parse,
}

raw-note : (key value : Text) (e : LogEvent) → (note_text key value e).raw ≡ e.raw
unfolding note_text
raw-note key value e = ground arith

raw-tag :
    (u : Unicode) (clock : Clock) (tag : Text) (e : LogEvent) → (set_tag u clock tag e).raw ≡ e.raw
unfolding set_tag
raw-tag u clock tag e = ground arith

module _ (u : Unicode) (clock : Clock) where
  raw-time : (ts : Text) (e : LogEvent) → (set_time u clock ts e).raw ≡ e.raw
  unfolding set_time
  raw-time ts e = ground arith

  raw-iso : (e : LogEvent) (rest : Text) → (take_iso u clock e rest).event.raw ≡ e.raw
  unfolding take_iso
  raw-iso e rest = ground arith

  raw-layouts :
      (now : ℤ) (layouts : List (Text → Option Stamp)) (e : LogEvent) (rest : Text)
      → (try_layouts u clock now layouts e rest).event.raw ≡ e.raw
  unfolding try_layouts
  raw-layouts now [] e rest = refl
  raw-layouts now (layout ∷ layouts) e rest = ground (arith, raw-layouts now layouts e rest)

  raw-stamp : (now : ℤ) (r : Rest) → (take_stamp u clock now r).event.raw ≡ r.event.raw
  unfolding take_stamp
  raw-stamp now r = ground (arith, raw-layouts now clock.layouts r.event r.left)

  raw-host : (r : Rest) → (take_host u clock r).event.raw ≡ r.event.raw
  unfolding take_host
  raw-host r = ground arith

  raw-take_tag : (r : Rest) → (take_tag u clock r).event.raw ≡ r.event.raw
  unfolding take_tag
  raw-take_tag r = elim (Option-cases (cut_at b':' [] r.left)) [
    | inl e ↦ rw (take_tag, e) refl
    | inr ((tag, behind), e) ↦
        rw (take_tag, e)
          (if-elim (λ (x : Rest). x.event.raw ≡ r.event.raw)
            (not (is_empty tag) && leb (utf8_length tag) 48 && not (contains 32 tag))
            (λ _. raw-tag u clock tag r.event) (λ _. refl))
  ]

  raw-3164 : (now : ℤ) (e : LogEvent) (rest : Text) → (parse_3164 u clock now e rest).raw ≡ e.raw
  unfolding parse_3164 set_message
  raw-3164 now e rest =
      let iso : Rest = take_iso u clock e (trim_left (λ c. c == 32) rest) in
      let stamp : Rest = take_stamp u clock now iso in
      raw-take_tag (take_host u clock stamp)
      ∙ raw-host stamp
      ∙ raw-stamp now iso
      ∙ raw-iso e (trim_left (λ c. c == 32) rest)

  raw-header :
      (e : LogEvent) (rest : Text) (fields : List Text) (remainder : Text)
      → (parse_header u clock e rest fields remainder).raw ≡ e.raw
  unfolding parse_header set_data
  raw-header e rest [] remainder = refl
  raw-header e rest (a ∷ []) remainder = refl
  raw-header e rest (a ∷ b ∷ []) remainder = refl
  raw-header e rest (a ∷ b ∷ c ∷ []) remainder = refl
  raw-header e rest (a ∷ b ∷ c ∷ d ∷ []) remainder = refl
  raw-header e rest (a ∷ b ∷ c ∷ d ∷ f ∷ []) remainder = refl
  raw-header e rest (a ∷ ts ∷ host ∷ app ∷ proc ∷ msg ∷ []) remainder =
      raw-note (codes "msgid") (un_nil msg) _
      ∙ raw-note (codes "procid") (un_nil proc) _
      ∙ raw-time (un_nil ts) e
  raw-header e rest (a ∷ b ∷ c ∷ d ∷ f ∷ g ∷ h ∷ hs) remainder = refl

  raw-rest : (now : ℤ) (e : LogEvent) (rest : Text) → (parse_rest u clock now e rest).raw ≡ e.raw
  unfolding parse_rest parse_5424
  raw-rest now e rest =
      if-elim (λ (x : LogEvent). x.raw ≡ e.raw) (is_rfc5424 rest)
        (λ _. raw-header e rest (take_fields 6 rest).fields (take_fields 6 rest).remainder)
        (λ _. raw-3164 now e rest)

  raw-priority :
      (now : ℤ) (line : Text) (p : Priority) → (of_priority u clock now line p).raw ≡ line
  unfolding of_priority with_priority
  raw-priority now line no_priority = refl
  raw-priority now line (priority pri rest) = raw-rest now (with_priority u clock line pri) rest

  -- What is kept of a line.
  pub record IsKept (line : Text) (e : LogEvent) : Type 0 where
    pub raw : e.raw ≡ trim_line line
    pub normal : IsNormal e
    pub message :
        parse_pri (trim_line line) ≡ no_priority → e.message ≡ trim_space u (trim_line line)

  -- Every line, whatever it holds, becomes an event that keeps the line without its end as it came, and is
  -- normal: it has an ID, one of the five levels, and its times. A line without a priority is the event's
  -- message, but for the spaces around it. The clock is not at Go's zero time.
  pub parse-IsKept :
      (now : Moment) (line : Text) → is_zero now.at ≡ false → IsKept line (parse u clock now line)
  unfolding parse parse_line of_priority normalize
  parse-IsKept now line h = record {
    raw = raw-priority now.at (trim_line line) (parse_pri (trim_line line));
    normal = normalize-IsNormal u now (parse_line u clock now.at (trim_line line)) h;
    message = λ e. ap (λ p. (of_priority u clock now.at (trim_line line) p).message) e;
  }
