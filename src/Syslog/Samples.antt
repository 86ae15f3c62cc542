-- ===== src/Syslog/Samples.antt =====
-- Messages of internal/syslog at concrete inputs.
use omni_logging.Common.{
  ℕ, ◌*◌, ◌^◌, ◌≡◌, refl, arith, Bool, true, false, ◌&&◌, not, ◌==◌, some, [], ◌∷◌, Text, codes,
  All,
}
use omni_logging.Common.Int.{pos}
use omni_logging.Common.Strings.{Unicode, ascii}
use omni_logging.Query.{is_empty}
use omni_logging.Model.{Moment, is_zero}
use omni_logging.Syslog.Elements.{Element}
use omni_logging.Syslog.Message.{Clock, parse, parse_line}
use omni_logging.Syslog.Quoting.{IsNameChar}
use omni_logging.Syslog.Header.{Message, IsWord, line_of, IsSendable}
use omni_logging.Syslog.Parsed.{IsParsed, parse_line-IsParsed}
use omni_logging.Syslog.Keeping.{IsKept, parse-IsKept}

-- A clock that knows one timestamp.
abbrev clock : Clock
clock = record {
  parse_rfc3339 = λ t. some (pos 5);
  layouts = [];
  year_of = λ t. 2026;
  year_before = λ t. t;
}

abbrev now : Moment
now = record { at = pos (63835596860 * 10 ^ 9); unix_milli = 1700000060000; random = [] }

-- Two elements, the first with a value of quotes, brackets and backslashes, the second without parameters.
abbrev web : Element
web = record {
  id = codes "web@1";
  params = (codes "path", b'a' ∷ b'"' ∷ b']' ∷ b'\\' ∷ []) ∷ (codes "ip", []) ∷ [];
}

abbrev mark : Element
mark = record { id = codes "mark"; params = [] }

abbrev note : Message
note = record {
  pri = 165;
  version = codes "1";
  stamp = codes "2026-01-02T03:04:05Z";
  host = codes "web1";
  app = codes "-";
  process = codes "77";
  id = codes "-";
  first = web;
  others = mark ∷ [];
  body = codes " disk [sda] full";
}

-- The test of a character of a name.
abbrev is_name_char : Unicode → ℕ → Bool
is_name_char u c =
    not (u.is_space c)
    && (not (c == 32)
        && (not (c == b'=')
            && (not (c == b'"') && (not (c == b'\\') && (not (c == b'[') && not (c == b']'))))))

abbrev all_name_chars : Unicode → Text → Bool
all_name_chars u [] = true
all_name_chars u (c ∷ s) = is_name_char u c && all_name_chars u s

first_of : (a b : Bool) → a && b ≡ true → a ≡ true
first_of a b h = ground arith

rest_of : (a b : Bool) → a && b ≡ true → b ≡ true
rest_of a b h = ground arith

not_blank : (a b : Bool) → not a && b ≡ true → a ≡ false
not_blank a b h = ground arith

abbrev is_word : Text → Bool
is_word [] = true
is_word (c ∷ s) = not (c == 32) && is_word s

IsWord-test : (s : Text) → is_word s ≡ true → IsWord s
IsWord-test [] h = tt
IsWord-test (c ∷ s) h =
    (not_blank (c == 32) (is_word s) h, IsWord-test s (rest_of (not (c == 32)) (is_word s) h))

is_name_char-IsNameChar : (u : Unicode) (c : ℕ) → is_name_char u c ≡ true → IsNameChar u c
is_name_char-IsNameChar u c h = record {
  no_space = ground arith;
  no_blank = ground arith;
  no_equals = ground arith;
  no_quote = ground arith;
  no_escape = ground arith;
  no_opening = ground arith;
  no_closing = ground arith;
}

IsNameChar-all : (u : Unicode) (s : Text) → all_name_chars u s ≡ true → All (IsNameChar u) s
IsNameChar-all u [] h = tt
IsNameChar-all u (c ∷ s) h = (
  is_name_char-IsNameChar u c (first_of _ (all_name_chars u s) h),
  IsNameChar-all u s (rest_of (is_name_char u c) _ h),
)

note-IsSendable : IsSendable ascii note
unfolding is_empty
note-IsSendable = record {
  in_range = omega arith;
  digits = (refl, tt);
  has_version = refl;
  words = (
    IsWord-test note.version refl,
    (
      IsWord-test note.stamp refl,
      (
        IsWord-test note.host refl,
        (
          IsWord-test note.app refl,
          (IsWord-test note.process refl, (IsWord-test note.id refl, tt)),
        ),
      ),
    ),
  );
  writable = (
    record {
      id_chars = IsNameChar-all ascii (codes "web@1") refl;
      has_id = refl;
      key_chars =
          (IsNameChar-all ascii (codes "path") refl, (IsNameChar-all ascii (codes "ip") refl, tt));
    },
    (
      record { id_chars = IsNameChar-all ascii (codes "mark") refl; has_id = refl; key_chars = tt },
      tt,
    ),
  );
}

quote_no_space : ascii.is_space b'"' ≡ false
quote_no_space = refl

parse_line-IsParsed_example :
    IsParsed ascii clock note (parse_line ascii clock (pos 0) (line_of note))
parse_line-IsParsed_example =
    parse_line-IsParsed ascii clock (pos 0) note note-IsSendable quote_no_space

clock_runs : is_zero now.at ≡ false
unfolding is_zero
clock_runs = refl

parse-IsKept_example :
    IsKept ascii clock (codes "disk full\n") (parse ascii clock now (codes "disk full\n"))
parse-IsKept_example = parse-IsKept ascii clock now (codes "disk full\n") clock_runs
