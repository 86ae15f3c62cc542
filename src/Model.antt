-- ===== src/Model.antt =====
-- The canonical log event (internal/model): its level, its ID and its times. An instant is the number of
-- nanoseconds since Go's zero time, the first of January of the year 1.
pub mod Ids
pub mod Json
pub mod Levels
pub mod Sorting
mod Samples
use omni_logging.Common.{
  ℕ, ◌==◌, Bool, true, false, ◌||◌, List, [], ◌∷◌, if◌then◌else◌, Text, codes, same,
}
use omni_logging.Common.Int.{ℤ, pos, negsuc}
use omni_logging.Common.Strings.{Unicode, trim_space, lower}
use omni_logging.Query.{is_empty}
use omni_logging.Query.Match.{Value}
use omni_logging.Model.Ids.{new_id_at}

abbrev pub level_debug : Text
level_debug = codes "debug"

abbrev pub level_info : Text
level_info = codes "info"

abbrev pub level_warn : Text
level_warn = codes "warn"

abbrev pub level_error : Text
level_error = codes "error"

abbrev pub level_fatal : Text
level_fatal = codes "fatal"

-- `Levels`
abbrev pub levels : List Text
levels = level_debug ∷ level_info ∷ level_warn ∷ level_error ∷ level_fatal ∷ []

unfoldable pub is_among : Text → List Text → Bool
unfolding same
is_among s [] = false
is_among s (t ∷ ts) = same s t || is_among s ts

-- `Rank`: the map's zero for a text that is no level.
unfoldable pub rank : Text → ℕ
unfolding same
rank l =
    if same l level_debug
    then 0
    else if same l level_info
    then 1
    else if same l level_warn
    then 2
    else if same l level_error
    then 3
    else if same l level_fatal
    then 4
    else 0

-- `Valid`
unfoldable pub is_level : Text → Bool
unfolding is_among
is_level l = is_among l levels

abbrev pub debug_words : List Text
debug_words = codes "trace" ∷ codes "debug" ∷ codes "dbg" ∷ codes "verbose" ∷ codes "7" ∷ []

abbrev pub info_words : List Text
info_words =
    codes "info"
    ∷ codes "information"
    ∷ codes "informational"
    ∷ codes "notice"
    ∷ codes "5"
    ∷ codes "6"
    ∷ []

abbrev pub warn_words : List Text
warn_words = codes "warn" ∷ codes "warning" ∷ codes "4" ∷ []

abbrev pub error_words : List Text
error_words = codes "err" ∷ codes "error" ∷ codes "3" ∷ []

abbrev pub fatal_words : List Text
fatal_words =
    codes "fatal"
    ∷ codes "crit"
    ∷ codes "critical"
    ∷ codes "alert"
    ∷ codes "emerg"
    ∷ codes "emergency"
    ∷ codes "panic"
    ∷ codes "0"
    ∷ codes "1"
    ∷ codes "2"
    ∷ []

-- The switch of `ParseLevel`.
unfoldable pub level_of_word : Text → Text
unfolding is_among
level_of_word w =
    if is_among w debug_words
    then level_debug
    else if is_among w info_words
    then level_info
    else if is_among w warn_words
    then level_warn
    else if is_among w error_words
    then level_error
    else if is_among w fatal_words
    then level_fatal
    else level_info

-- `ParseLevel`
unfoldable pub parse_level : Unicode → Text → Text
unfolding level_of_word lower trim_space
parse_level u s = level_of_word (lower u (trim_space u s))

abbrev pub zero_time : ℤ
zero_time = pos 0

unfoldable pub is_zero : ℤ → Bool
is_zero t = elim t [ pos n ↦ n == 0 | negsuc n ↦ false ]

pub record LogEvent : Type 0 where
  pub id : Text
  pub timestamp : ℤ
  pub received_at : ℤ
  pub source : Text
  pub service : Text
  pub level : Text
  pub message : Text
  pub attributes : List (Text × Value)
  pub raw : Text

abbrev pub empty_event : LogEvent
empty_event = record {
  id = [];
  timestamp = zero_time;
  received_at = zero_time;
  source = [];
  service = [];
  level = [];
  message = [];
  attributes = [];
  raw = [];
}

-- Now: the instant, its Unix milliseconds, and the ten random bytes that an ID takes.
pub record Moment : Type 0 where
  pub at : ℤ
  pub unix_milli : ℕ
  pub random : List ℕ

unfoldable pub default_time : ℤ → ℤ → ℤ
unfolding is_zero
default_time t other = if is_zero t then other else t

unfoldable pub default_level : Unicode → Text → Text
unfolding is_level parse_level
default_level u l = if is_level l then l else parse_level u l

unfoldable pub default_id : Moment → Text → Text
unfolding new_id_at is_empty
default_id now i = if is_empty i then new_id_at now.unix_milli now.random else i

-- `Normalize`
unfoldable pub normalize : Unicode → Moment → LogEvent → LogEvent
unfolding default_time default_level default_id
normalize u now e =
    let received = default_time e.received_at now.at in
    record e {
      id = default_id now e.id;
      received_at = received;
      timestamp = default_time e.timestamp received;
      level = default_level u e.level;
    }
