-- ===== src/Syslog.antt =====
-- The parser of syslog messages (internal/syslog/parse.go): the priority, the framing and the names.
-- Elements is the structured data, Message the two formats and `Parse`. The server of
-- internal/syslog/server.go is sockets.
pub mod Elements
pub mod Message
pub mod Quoting
pub mod Reading
pub mod Params
pub mod RoundTrip
pub mod Keeping
pub mod Header
pub mod Parsed
pub mod Priorities
mod Samples
use omni_logging.Common.{
  ℕ, zero, suc, ◌+◌, ◌*◌, ◌/◌, ◌%◌, Bool, true, false, not, ◌&&◌, ◌||◌, Option, none, some, List,
  [], ◌∷◌, ◌++◌, if◌then◌else◌, ltb, leb, ◌==◌, length, get_elem?, Text, codes, same,
}
use omni_logging.Common.Int.{ℤ, pos, negsuc}
use omni_logging.Common.Strings.{parse_int, cut_at, trim_left}

abbrev pub facility_names : List Text
facility_names =
    codes "kern"
    ∷ codes "user"
    ∷ codes "mail"
    ∷ codes "daemon"
    ∷ codes "auth"
    ∷ codes "syslog"
    ∷ codes "lpr"
    ∷ codes "news"
    ∷ codes "uucp"
    ∷ codes "cron"
    ∷ codes "authpriv"
    ∷ codes "ftp"
    ∷ codes "ntp"
    ∷ codes "audit"
    ∷ codes "alert"
    ∷ codes "clock"
    ∷ codes "local0"
    ∷ codes "local1"
    ∷ codes "local2"
    ∷ codes "local3"
    ∷ codes "local4"
    ∷ codes "local5"
    ∷ codes "local6"
    ∷ codes "local7"
    ∷ []

abbrev pub severity_names : List Text
severity_names =
    codes "emerg"
    ∷ codes "alert"
    ∷ codes "crit"
    ∷ codes "err"
    ∷ codes "warning"
    ∷ codes "notice"
    ∷ codes "info"
    ∷ codes "debug"
    ∷ []

-- strconv.Itoa of a number that is not negative, with one digit for each of the fuel at most.
unfoldable pub digits_of : ℕ → ℕ → Text → Text
digits_of zero n rest = rest
digits_of (suc fuel) n rest =
    let more = digits_of fuel (n / 10) ((n % 10 + b'0') ∷ rest) in
    if ltb n 10 then (n + b'0') ∷ rest else more

unfoldable pub itoa : ℕ → Text
unfolding digits_of
itoa n = digits_of (suc n) n []

-- `facilityName` and `severityName`
unfoldable pub name_of : List Text → ℕ → Text
unfolding itoa
name_of names n = elim (get_elem? names n) [ some t ↦ t | none ↦ itoa n ]

-- A priority that was read, and what follows it.
pub data Priority : Type 0 where
  priority : ℕ → Text → Priority
  no_priority : Priority

unfoldable pub in_range : Option ℤ → Option ℕ
in_range none = none
in_range (some (negsuc n)) = none
in_range (some (pos n)) = if ltb 191 n then none else some n

-- The number between the brackets, which is one to three characters long.
unfoldable pub bracketed : Text → Text → Priority
unfolding in_range parse_int
bracketed digits rest =
    if ltb (suc (length digits)) 2 || ltb 4 (suc (length digits))
    then no_priority
    else elim (in_range (parse_int digits)) [ none ↦ no_priority | some n ↦ priority n rest ]

-- `parsePRI`
unfoldable pub parse_pri : Text → Priority
unfolding bracketed cut_at
parse_pri [] = no_priority
parse_pri (c ∷ s) =
    if ltb (suc (length s)) 3 || not (c == b'<') then no_priority else elim (cut_at b'>' [] s) [
      | none ↦ no_priority
      | some (digits, rest) ↦ bracketed digits rest
    ]

-- The text behind its leading digits.
unfoldable pub behind_digits : Text → Text
unfolding trim_left
behind_digits s = trim_left (λ c. leb b'0' c && leb c b'9') s

-- `isRFC5424`: a digit, more digits, and a space.
unfoldable pub is_rfc5424 : Text → Bool
unfolding behind_digits
is_rfc5424 [] = false
is_rfc5424 (c ∷ s) =
    if leb b'0' c && leb c b'9'
    then elim (behind_digits s) [ [] ↦ false | d ∷ t ↦ d == 32 ]
    else false

-- `unNil`
unfoldable pub un_nil : Text → Text
unfolding same
un_nil s = if same s (codes "-") then [] else s
