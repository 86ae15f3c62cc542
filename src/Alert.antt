-- ===== src/Alert.antt =====
-- Alert rules (internal/alert/alert.go): conditions, rules and channels with their validation. Durations
-- and times are nanoseconds. The floats of a condition are not NaN, and stand behind `Measures`.
pub mod Evaluate
pub mod Scheduler
pub mod Extremes
pub mod Reports
pub mod Transitions
pub mod Spacing
mod Samples
use omni_logging.Common.{
  ℕ, ◌+◌, ◌*◌, ◌^◌, ◌≡◌, Bool, true, false, not, ◌&&◌, ◌||◌, List, [], ◌∷◌, ◌++◌, if◌then◌else◌,
  Text, codes, same, has_prefix,
}
use omni_logging.Common.Int.{ℤ, pos, negsuc, ltb_ℤ}
use omni_logging.Common.Strings.{Unicode, trim_space}
use omni_logging.Query.{is_empty}

-- `unknown_op` stands for every text that is none of the six.
pub data CompareOp : Type 0 where
  gt gte lt lte eq ne unknown_op : CompareOp

-- What the alerts use of `float64`, over values that are not NaN: the comparisons, and the conversion of
-- a count, with the laws of a linear order.
pub record Measures (F : Type 0) : Type 0 where
  pub lt : F → F → Bool
  pub le : F → F → Bool
  pub eq : F → F → Bool
  pub of_count : ℕ → F
  pub of_ℤ : ℤ → F
  pub zero : F
  pub lt_irrefl : (x : F) → lt x x ≡ false
  pub lt_trans : (x y z : F) → lt x y ≡ true → lt y z ≡ true → lt x z ≡ true

pub record Condition (F : Type 0) : Type 0 where
  pub op : CompareOp
  pub value : F

pub data State : Type 0 where
  ok firing unknown : State

-- `unset` is the empty text, `unknown_severity` any text that is no severity.
pub data Severity : Type 0 where
  critical error warning info debug unset unknown_severity : Severity

abbrev pub second : ℕ
second = 10 ^ 9

abbrev pub min_interval : ℤ
min_interval = pos (10 * second)

abbrev pub min_window : ℤ
min_window = pos (10 * second)

abbrev pub max_window : ℤ
max_window = pos (30 * 24 * 3600 * second)

abbrev pub default_severity : Severity
default_severity = warning

pub record Rule (F : Type 0) : Type 0 where
  pub id : Text
  pub name : Text
  pub query : Text
  pub window : ℤ
  pub interval : ℤ
  pub cond : Condition F
  pub severity : Severity
  pub channels : List Text
  pub enabled : Bool
  pub state : State
  pub state_from : ℤ
  pub last_eval : ℤ
  pub last_value : F
  pub last_error : Text

-- `Match`.
unfoldable pub match_by : {F : Type 0} → Measures F → CompareOp → F → F → Bool
match_by m gt v bound = m.lt bound v
match_by m gte v bound = m.le bound v
match_by m lt v bound = m.lt v bound
match_by m lte v bound = m.le v bound
match_by m eq v bound = m.eq v bound
match_by m ne v bound = not (m.eq v bound)
match_by m unknown_op v bound = false

abbrev pub matches : {F : Type 0} → Measures F → Condition F → F → Bool
matches m c v = match_by m c.op v c.value

-- `Valid`.
unfoldable pub is_valid_severity : Severity → Bool
is_valid_severity unset = false
is_valid_severity unknown_severity = false
is_valid_severity _ = true

unfoldable pub is_known_op : CompareOp → Bool
is_known_op unknown_op = false
is_known_op _ = true

unfoldable pub or_default : Severity → Severity
or_default unset = default_severity
or_default s = s

-- What `Validate` answers.
pub data Verdict : Type 0 where
  valid : Verdict
  no_name no_query bad_op bad_severity short_interval bad_window narrow_window : Verdict

-- `Validate` of a rule: it fills in the severity before it looks at it.
unfoldable pub validate : {F : Type 0} → Unicode → Rule F → Rule F × Verdict
unfolding trim_space is_empty is_known_op or_default is_valid_severity
validate u r =
    if is_empty (trim_space u r.name)
    then (r, no_name)
    else if is_empty (trim_space u r.query)
    then (r, no_query)
    else if not (is_known_op r.cond.op)
    then (r, bad_op)
    else (let s = record r { severity = or_default r.severity } in
        if not (is_valid_severity s.severity)
        then (s, bad_severity)
        else if ltb_ℤ s.interval min_interval
        then (s, short_interval)
        else if ltb_ℤ s.window min_window || ltb_ℤ max_window s.window
        then (s, bad_window)
        else if ltb_ℤ s.window s.interval
        then (s, narrow_window)
        else (s, valid))

-- `unknown_type` stands for every text that is none of the three.
pub data ChannelType : Type 0 where
  webhook slack omni_notify unknown_type : ChannelType

pub record Channel : Type 0 where
  pub id : Text
  pub name : Text
  pub type : ChannelType
  pub url : Text
  pub token : Text

-- Eight times the bullet U+2022.
abbrev pub token_mask : Text
token_mask = 8226 ∷ 8226 ∷ 8226 ∷ 8226 ∷ 8226 ∷ 8226 ∷ 8226 ∷ 8226 ∷ []

unfoldable pub is_known_type : ChannelType → Bool
is_known_type unknown_type = false
is_known_type _ = true

unfoldable pub needs_token : ChannelType → Bool
needs_token omni_notify = true
needs_token _ = false

-- `Validate` of a channel: whether it is accepted.
unfoldable pub accepts_channel : Unicode → Channel → Bool
unfolding trim_space is_empty is_known_type needs_token has_prefix same
accepts_channel u c =
    if is_empty (trim_space u c.name)
    then false
    else if not (is_known_type c.type)
    then false
    else if not (has_prefix c.url (codes "http://")) && not (has_prefix c.url (codes "https://"))
    then false
    else if needs_token c.type && is_empty (trim_space u c.token)
    then false
    else if same c.token token_mask
    then false
    else true

-- `Masked`.
unfoldable pub masked : Channel → Channel
unfolding is_empty
masked c = if is_empty c.token then c else record c { token = token_mask }
