-- ===== src/Query/Filters.antt =====
-- Filters of internal/query/parse.go: `splitOp`, `parseFilter` and `splitList`. Whether a pattern is a
-- regular expression is a parameter, `regexp.Compile`.
use omni_logging.Common.{
  ℕ, Bool, ◌&&◌, Option, none, some, List, [], ◌∷◌, ◌++◌, ◌==◌, if◌then◌else◌, Text, codes, same,
  has_prefix, drop,
}
use omni_logging.Common.Strings.{
  Unicode, trim_space, trim_quotes, lower, ends_with, contains, split_on,
}
use omni_logging.Query.{
  Field, level, service, source, message, raw, attr, Op, eq, neq, gt, gte, lt, lte, like, exists,
  in_set, regex, Filter, is_empty,
}

-- An operator as it is written.
pub data Sign : Type 0 where
  eq_sign neq_sign gt_sign gte_sign lt_sign lte_sign match_sign : Sign

pub record Split : Type 0 where
  pub sign : Sign
  pub key : Text
  pub val : Text

abbrev found : Sign → Text → Text → Option Split
found sign key val = some (record { sign = sign; key = key; val = val })

-- The sign that begins with a character, by the text behind it; `none` where there is none.
unfoldable pub sign_at : Text → ℕ → Text → Option Split
sign_at key c [] =
    if c == b'>'
    then found gt_sign key []
    else if c == b'<'
    then found lt_sign key []
    else if c == b'='
    then found eq_sign key []
    else none
sign_at key c (d ∷ rest) =
    if c == b'!'
    then (if d == b'=' then found neq_sign key rest else none)
    else if c == b'>'
    then (if d == b'=' then found gte_sign key rest else found gt_sign key (d ∷ rest))
    else if c == b'<'
    then (if d == b'=' then found lte_sign key rest else found lt_sign key (d ∷ rest))
    else if c == b'='
    then (if d == b'~' then found match_sign key rest else found eq_sign key (d ∷ rest))
    else none

-- The loop of `splitOp` behind the first character.
unfoldable pub split_op_from : Text → Text → Option Split
unfolding sign_at
split_op_from key [] = none
split_op_from key (c ∷ rest) =
    let more = split_op_from (key ++ c ∷ []) rest in
    elim (sign_at key c rest) [ some s ↦ some s | none ↦ more ]

-- `splitOp`: the key is not empty, so a sign at the front is not one.
unfoldable pub split_op : Text → Option Split
unfolding split_op_from
split_op [] = none
split_op (c ∷ rest) = split_op_from (c ∷ []) rest

-- knownFields
unfoldable pub known_field : Text → Option Field
unfolding same
known_field key =
    if same key (codes "level")
    then some level
    else if same key (codes "service")
    then some service
    else if same key (codes "source")
    then some source
    else if same key (codes "host")
    then some source
    else if same key (codes "message")
    then some message
    else if same key (codes "msg")
    then some message
    else if same key (codes "raw")
    then some raw
    else none

-- The field and the attribute that a key names.
unfoldable pub resolve_key : Unicode → Text → Field × Text
unfolding known_field lower has_prefix
resolve_key u key = elim (known_field (lower u key)) [
  | some f ↦ (f, [])
  | none ↦ if has_prefix (lower u key) (codes "attr.") then (attr, drop 5 key) else (attr, key)
]

-- `splitList`, over the parts between commas.
unfoldable pub split_list_parts : Unicode → List Text → List Text
unfolding trim_space trim_quotes
split_list_parts u [] = []
split_list_parts u (p ∷ ps) =
    let rest = split_list_parts u ps in
    elim (trim_quotes (trim_space u p)) [ [] ↦ rest | c ∷ cs ↦ (c ∷ cs) ∷ rest ]

unfoldable pub split_list : Unicode → Text → List Text
unfolding split_list_parts split_on
split_list u s = split_list_parts u (split_on b',' [] s)

-- All but the last character.
unfoldable pub drop_last : Text → Text
drop_last [] = []
drop_last (c ∷ []) = []
drop_last (c ∷ d ∷ s) = c ∷ drop_last (d ∷ s)

abbrev filter_of : Field → Text → Op → Text → List Text → Filter
filter_of f key op val vals = record {
  field = f;
  attr_key = key;
  op = op;
  value = val;
  values = vals;
}

-- The meaning of `=` by the value: any, one of a set, a pattern, a text.
unfoldable pub eq_filter : Unicode → Field → Text → Text → Filter
unfolding split_list drop_last contains ends_with has_prefix same
eq_filter u f key val =
    if same val (codes "*")
    then filter_of f key exists [] []
    else if has_prefix val (codes "(") && ends_with b')' val
    then filter_of f key in_set [] (split_list u (drop_last (drop 1 val)))
    else if contains b'*' val
    then filter_of f key like val []
    else filter_of f key eq val []

unfoldable pub sign_filter : Unicode → (Text → Bool) → Sign → Field → Text → Text → Option Filter
unfolding eq_filter
sign_filter u compiles eq_sign f key val = some (eq_filter u f key val)
sign_filter u compiles neq_sign f key val = some (filter_of f key neq val [])
sign_filter u compiles gt_sign f key val = some (filter_of f key gt val [])
sign_filter u compiles gte_sign f key val = some (filter_of f key gte val [])
sign_filter u compiles lt_sign f key val = some (filter_of f key lt val [])
sign_filter u compiles lte_sign f key val = some (filter_of f key lte val [])
sign_filter u compiles match_sign f key val =
    if compiles val then some (filter_of f key regex val []) else none

-- A bare term, a filter, or an error.
pub data Parsed : Type 0 where
  bare : Parsed
  filter : Filter → Parsed
  refused : Parsed

unfoldable pub filter_of_split : Unicode → (Text → Bool) → Sign → Text → Text → Parsed
unfolding resolve_key sign_filter is_empty
filter_of_split u compiles sign [] val = bare
filter_of_split u compiles sign (c ∷ cs) val =
    let (f, key) = resolve_key u (c ∷ cs) in
    let made : Parsed = elim (sign_filter u compiles sign f key val) [
      | none ↦ refused
      | some x ↦ filter x
    ] in
    elim f [ attr ↦ if is_empty key then refused else made | _ ↦ made ]

-- `parseFilter`.
unfoldable pub parse_filter : Unicode → (Text → Bool) → Text → Parsed
unfolding split_op filter_of_split trim_space trim_quotes
parse_filter u compiles tok = elim (split_op tok) [
  | none ↦ bare
  | some s ↦
      filter_of_split u compiles s.sign (trim_space u s.key) (trim_quotes (trim_space u s.val))
]
