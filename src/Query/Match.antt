-- ===== src/Query/Match.antt =====
-- Whether an event satisfies a query: internal/query/match.go. Floats, regular expressions and the
-- tables of Unicode are parameters; the cache of compiled expressions does not show. An attribute that
-- is no text, boolean or null is the text that Go's `%v` makes of it. The attributes stand in the order
-- of Go's walk over the map.
use mathlib.Core.List.{reverse}
use omni_logging.Common.{
  ◌-◌, Bool, true, false, not, ◌||◌, Option, none, some, List, [], ◌∷◌, ◌++◌, if◌then◌else◌, ltb,
  Text, codes, same, has_prefix, length, take,
}
use omni_logging.Common.Int.{ℤ}
use omni_logging.Common.Strings.{Unicode, lower, split_on}
use omni_logging.Query.{
  Field, level, service, source, message, raw, attr, Op, eq, neq, gt, gte, lt, lte, like, exists,
  in_set, regex, Filter, is_empty,
}

-- A JSON value of an attribute.
pub data Value : Type 0 where
  text : Text → Value
  flag : Bool → Value
  null : Value
  other : Text → Value

-- The fields of an event that the matching reads.
pub record Event : Type 0 where
  pub timestamp : ℤ
  pub level : Text
  pub service : Text
  pub source : Text
  pub message : Text
  pub raw : Text
  pub attributes : List (Text × Value)

-- What the matching takes from Go's library: `strconv.ParseFloat` with its success, the comparisons of
-- float64, `regexp.Compile` with `MatchString`, and `regexp.QuoteMeta`.
pub record Engine (F : Type 0) : Type 0 where
  pub unicode : Unicode
  pub parse_float : Text → F × Bool
  pub lt : F → F → Bool
  pub le : F → F → Bool
  pub compile : Text → Option (Text → Bool)
  pub quote_meta : Text → Text

unfoldable pub stringify : Value → Text
stringify (text t) = t
stringify (flag b) = if b then codes "true" else codes "false"
stringify null = []
stringify (other t) = t

unfoldable pub compare_string : Value → Text
unfolding stringify
compare_string (flag b) = if b then codes "1" else codes "0"
compare_string (text t) = t
compare_string null = []
compare_string (other t) = t

-- strings.Compare, as an order: less, the same, greater. The order of UTF-8 is that of code points.
pub data Sense : Type 0 where
  less same_as greater : Sense

unfoldable pub compare_text : Text → Text → Sense
compare_text [] [] = same_as
compare_text [] (d ∷ t) = less
compare_text (c ∷ s) [] = greater
compare_text (c ∷ s) (d ∷ t) =
    let rest = compare_text s t in if ltb c d then less else if ltb d c then greater else rest

-- `boolEqual`.
unfoldable pub bool_equal : Unicode → Text → Text → Bool
unfolding lower same
bool_equal u actual want =
    let w = lower u want in
    let a = lower u actual in
    if same w (codes "true")
    then same a (codes "true") || same a (codes "1")
    else if same w (codes "false")
    then same a (codes "false") || same a (codes "0")
    else false

unfoldable pub norm : Unicode → Field → Text → Text
unfolding lower
norm u level v = lower u v
norm u _ v = v

unfoldable pub find_attribute : Text → List (Text × Value) → Option Value
unfolding same
find_attribute key [] = none
find_attribute key ((k, v) ∷ m) = if same k key then some v else find_attribute key m

-- `actual`; `none` is an absent attribute.
unfoldable pub actual_of : Field → Text → Event → Option Text
unfolding find_attribute compare_string
actual_of level key e = some e.level
actual_of service key e = some e.service
actual_of source key e = some e.source
actual_of message key e = some e.message
actual_of raw key e = some e.raw
actual_of attr key e = elim (find_attribute key e.attributes) [
  | none ↦ none
  | some v ↦ some (compare_string v)
]

unfoldable pub trim_suffix : Text → Text → Text
unfolding has_prefix
trim_suffix suffix s =
    if has_prefix (reverse s) (reverse suffix) then take (length s - length suffix) s else s

module _ {F : Type 0} (g : Engine F) where
  -- `globToRegex`, over the parts between stars.
  unfoldable pub glob_parts : List Text → Text
  glob_parts [] = []
  glob_parts (p ∷ ps) = g.quote_meta p ++ (codes ".*" ++ glob_parts ps)

  unfoldable pub glob_to_regex : Text → Text
  unfolding glob_parts trim_suffix split_on
  glob_to_regex pattern = trim_suffix (codes ".*") (glob_parts (split_on b'*' [] pattern))

  -- An expression that does not compile matches nothing.
  unfoldable pub regex_match : Text → Text → Bool
  regex_match pattern s = elim (g.compile pattern) [ none ↦ false | some re ↦ re s ]

  unfoldable pub glob_match : Text → Text → Bool
  unfolding glob_to_regex regex_match
  glob_match pattern s = regex_match (codes "(?i)^" ++ (glob_to_regex pattern ++ codes "$")) s

  unfoldable pub compare_floats : Op → F → F → Bool
  compare_floats gt a w = g.lt w a
  compare_floats gte a w = g.le w a
  compare_floats lt a w = g.lt a w
  compare_floats lte a w = g.le a w
  compare_floats _ a w = false

  unfoldable pub compare_sense : Op → Sense → Bool
  compare_sense gt c = elim c [ greater ↦ true | _ ↦ false ]
  compare_sense gte c = elim c [ less ↦ false | _ ↦ true ]
  compare_sense lt c = elim c [ less ↦ true | _ ↦ false ]
  compare_sense lte c = elim c [ greater ↦ false | _ ↦ true ]
  compare_sense _ c = false

  -- `compareMatch`: as numbers where the filter's value is one.
  unfoldable pub compare_match : Op → Text → Text → Bool
  unfolding compare_floats compare_sense compare_text
  compare_match op actual want =
      let (wf, is_number) = g.parse_float want in
      if is_number
      then compare_floats op (g.parse_float actual).0 wf
      else compare_sense op (compare_text actual want)

  unfoldable pub any_value : Field → Text → List Text → Bool
  unfolding norm same
  any_value f actual [] = false
  any_value f actual (v ∷ vs) =
      let rest = any_value f actual vs in if same actual (norm g.unicode f v) then true else rest

  unfoldable pub equal_to : Text → Text → Bool
  unfolding bool_equal same
  equal_to actual want = if bool_equal g.unicode actual want then true else same actual want

  -- An operator on a value that is there.
  unfoldable pub present_matches : Filter → Op → Text → Bool
  unfolding equal_to any_value glob_match regex_match compare_match norm is_empty bool_equal same
  present_matches f exists actual = elim f.field [ attr ↦ true | _ ↦ not (is_empty actual) ]
  present_matches f neq actual =
      if bool_equal g.unicode actual (norm g.unicode f.field f.value)
      then false
      else not (same actual (norm g.unicode f.field f.value))
  present_matches f eq actual = equal_to actual (norm g.unicode f.field f.value)
  present_matches f in_set actual = any_value f.field actual f.values
  present_matches f like actual = glob_match f.value actual
  present_matches f regex actual = regex_match f.value actual
  present_matches f gt actual = compare_match gt actual (norm g.unicode f.field f.value)
  present_matches f gte actual = compare_match gte actual (norm g.unicode f.field f.value)
  present_matches f lt actual = compare_match lt actual (norm g.unicode f.field f.value)
  present_matches f lte actual = compare_match lte actual (norm g.unicode f.field f.value)

  -- `matches` of a filter: of the operators only `!=` accepts an absent attribute.
  unfoldable pub value_matches : Filter → Option Text → Bool
  unfolding present_matches
  value_matches f none = elim f.op [ neq ↦ true | _ ↦ false ]
  value_matches f (some actual) = present_matches f f.op actual

  unfoldable pub filter_matches : Filter → Event → Bool
  unfolding value_matches actual_of
  filter_matches f e = value_matches f (actual_of f.field f.attr_key e)
