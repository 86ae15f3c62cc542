-- ===== src/Pipeline/Stages.antt =====
-- The stages of a pipeline on an event (internal/pipeline/pipeline.go, and Match of grok.go). An error of a
-- stage is `none`: it has not changed the event. Go walks over a map of captures in random order; here they
-- stand in the order of the groups.
use omni_logging.Common.{
  ℕ, Bool, true, false, not, ◌&&◌, ◌||◌, Option, none, some, ◌>>=◌, List, [], ◌∷◌, if◌then◌else◌,
  leb, ◌==◌, Text, codes, same, has_prefix, drop,
}
use omni_logging.Common.Int.{ℤ}
use omni_logging.Common.Strings.{Unicode, lower, trim_space, parse_int}
use omni_logging.Common.Maps.{get_entry, set_entry}
use omni_logging.Query.{is_empty}
use omni_logging.Query.Match.{Value, text, other, stringify}
use omni_logging.Model.{LogEvent, is_among, parse_level}
use omni_logging.Model.Json.{unix_auto}
use omni_logging.Pipeline.{
  StageSpec, Regexp, CompiledGrok, Tools, Work, extract_grok, extract_regexp, read_timestamp,
  set_level, set_service, move, discard, fill, Stage,
}

-- A field that has a value.
unfoldable pub present : Text → Option Text
unfolding is_empty
present t = if is_empty t then none else some t

-- strings.TrimPrefix(name, "attr.")
unfoldable pub attr_key : Text → Text
unfolding has_prefix
attr_key name = if has_prefix name (codes "attr.") then drop 5 name else name

unfoldable pub read_attribute : LogEvent → Text → Option Text
unfolding get_entry stringify
read_attribute e key = elim (get_entry key e.attributes) [
  | none ↦ none
  | some v ↦ some (stringify v)
]

-- `readField`
unfoldable pub read_field : Unicode → LogEvent → Text → Option Text
unfolding lower is_among present read_attribute attr_key same
read_field u e name =
    let n = lower u name in
    if is_among n (codes "message" ∷ codes "msg" ∷ [])
    then present e.message
    else if same n (codes "raw")
    then present e.raw
    else if same n (codes "service")
    then present e.service
    else if is_among n (codes "source" ∷ codes "host" ∷ [])
    then present e.source
    else if same n (codes "level")
    then present e.level
    else read_attribute e (attr_key name)

unfoldable pub is_numeric_char : ℕ → Bool
is_numeric_char c = (leb b'0' c && leb c b'9') || (c == b'.' || (c == b'-' || c == b'+'))

unfoldable pub all_numeric : Text → Bool
unfolding is_numeric_char
all_numeric [] = true
all_numeric (c ∷ s) = is_numeric_char c && all_numeric s

-- A zero in front of anything but a point.
unfoldable pub has_leading_zero : Text → Bool
has_leading_zero [] = false
has_leading_zero (c ∷ []) = false
has_leading_zero (c ∷ d ∷ s) = c == b'0' && not (d == b'.')

-- `looksNumeric`
unfoldable pub looks_numeric : Text → Bool
unfolding is_empty has_leading_zero all_numeric
looks_numeric s = if is_empty s || has_leading_zero s then false else all_numeric s

-- delete(m, key)
unfoldable pub delete_entry : Text → List (Text × Value) → List (Text × Value)
unfolding same
delete_entry k [] = []
delete_entry k ((j, v) ∷ m) =
    let rest = delete_entry k m in if same j k then rest else (j, v) ∷ rest

unfoldable pub delete_entries : List Text → List (Text × Value) → List (Text × Value)
unfolding delete_entry attr_key
delete_entries [] m = m
delete_entries (f ∷ fs) m = delete_entries fs (delete_entry (attr_key f) m)

-- The submatches with the names of their groups, without those that are empty.
unfoldable pub captures :
    (Text → Text) → List Text → List Text → List (Text × Text) → List (Text × Text)
unfolding is_empty set_entry
captures name_of [] ms fields = fields
captures name_of (n ∷ names) [] fields = fields
captures name_of (n ∷ names) (m ∷ ms) fields =
    captures name_of names ms
      (if is_empty n || is_empty m then fields else set_entry (name_of n) m fields)

unfoldable pub written_name : List (Text × Text) → Text → Text
unfolding get_entry
written_name names n = elim (get_entry n names) [ none ↦ n | some w ↦ w ]

-- `Match` of grok.go.
unfoldable pub match_grok : CompiledGrok → Text → Option (List (Text × Text))
unfolding captures written_name
match_grok g s = elim (g.re.submatch s) [
  | none ↦ none
  | some m ↦ some (captures (written_name g.names) g.re.subexp_names m [])
]

unfoldable pub match_regexp : Regexp → Text → Option (List (Text × Text))
unfolding captures
match_regexp re s = elim (re.submatch s) [
  | none ↦ none
  | some m ↦ some (captures (λ n. n) re.subexp_names m [])
]

-- The event behind the stages, and whether one failed the pipeline.
pub record Applied : Type 0 where
  pub event : LogEvent
  pub failed : Bool

module _ (u : Unicode) (tools : Tools) where
  unfoldable pub attribute_of : Text → Value
  unfolding looks_numeric
  attribute_of value = elim (tools.float_text value) [
    | none ↦ text value
    | some shown ↦ if looks_numeric value then other shown else text value
  ]

  -- `writeAttr`
  unfoldable pub write_attr : Text → Text → LogEvent → LogEvent
  unfolding attribute_of set_entry
  write_attr key value e = record e { attributes = set_entry key (attribute_of value) e.attributes }

  unfoldable pub put_capture : Text → Text → LogEvent → LogEvent
  unfolding lower same is_among parse_level write_attr
  put_capture name value e =
      let n = lower u name in
      if same n (codes "message")
      then record e { message = value }
      else if same n (codes "service")
      then record e { service = value }
      else if is_among n (codes "source" ∷ codes "host" ∷ [])
      then record e { source = value }
      else if same n (codes "level")
      then record e { level = parse_level u value }
      else write_attr name value e

  -- The loop over the fields, in the order in which Go's range walks their map.
  unfoldable pub put_captures : List (Text × Text) → LogEvent → LogEvent
  unfolding put_capture
  put_captures [] e = e
  put_captures ((name, value) ∷ fields) e = put_captures fields (put_capture name value e)

  -- The loop over the layouts. Without a year it is that of the receipt.
  unfoldable pub read_time : ℤ → Text → List Text → Option ℤ
  read_time received raw [] = none
  read_time received raw (layout ∷ layouts) =
      let others = read_time received raw layouts in
      elim (tools.parse_layout layout raw) [
        | none ↦ others
        | some s ↦ some (if s.year == 0 then s.in_year (tools.year_of received) else s.at)
      ]

  unfoldable pub time_of : ℤ → List Text → Text → Option ℤ
  unfolding parse_int unix_auto read_time
  time_of received layouts raw = elim (parse_int raw) [
    | some n ↦ some (unix_auto n)
    | none ↦ read_time received raw layouts
  ]

  -- What a stage does, with the value of its field if there is one.
  unfoldable pub work_on : Work → StageSpec → LogEvent → Option Text → Option LogEvent
  unfolding match_grok match_regexp put_captures time_of trim_space parse_level write_attr
      delete_entry delete_entries attr_key
  work_on (extract_grok g) s e field = do
    v ← field
    fields ← match_grok g v
    some (put_captures (tools.map_order fields) e)
  work_on (extract_regexp re) s e field = do
    v ← field
    fields ← match_regexp re v
    some (put_captures (tools.map_order fields) e)
  work_on (read_timestamp layouts) s e field = do
    v ← field
    t ← time_of e.received_at layouts (trim_space u v)
    some (record e { timestamp = t })
  work_on set_level s e field = do v ← field; some (record e { level = parse_level u v })
  work_on set_service s e field = do v ← field; some (record e { service = v })
  work_on move s e field = do
    v ← field
    some (record (write_attr (attr_key s.to) v e) {
      attributes = delete_entry (attr_key s.field) (write_attr (attr_key s.to) v e).attributes;
    })
  work_on discard s e field = some (record e { attributes = delete_entries s.fields e.attributes })
  work_on fill s e field = some (write_attr (attr_key s.to) s.value e)

  -- `apply` of a stage.
  unfoldable pub apply_stage : Stage → LogEvent → Option LogEvent
  unfolding work_on read_field
  apply_stage st e = work_on st.work st.spec e (read_field u e st.spec.field)

  -- `Apply` of a pipeline, over its stages.
  unfoldable pub apply_stages : List Stage → LogEvent → Applied
  unfolding apply_stage
  apply_stages [] e = record { event = e; failed = false }
  apply_stages (st ∷ sts) e = elim (apply_stage st e) [
    | some e' ↦ apply_stages sts e'
    | none ↦
        if st.spec.fail_pipeline then record { event = e; failed = true } else apply_stages sts e
  ]
