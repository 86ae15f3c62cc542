-- ===== src/Store/Conditions.antt =====
-- The conditions of internal/store/sqlite/search.go: `filterCond` with what it takes. `strconv.ParseFloat` and
-- `strings.EqualFold` are parameters, and a time is bound as the instant whose UnixNano the code takes.
use omni_logging.Common.{
  Bool, true, false, ◌&&◌, ◌||◌, Option, none, some, List, [], ◌∷◌, ◌++◌, if◌then◌else◌, ◌==◌, Text,
  codes,
}
use omni_logging.Common.Int.{ℤ}
use omni_logging.Common.Strings.{Unicode}
use omni_logging.Query.{
  Field, level, service, source, message, raw, attr, Op, eq, neq, gt, gte, lt, lte, like, exists,
  in_set, regex, Filter,
}
use omni_logging.Query.Match.{norm}

-- A bound value.
pub data Arg (F : Type 0) : Type 0 where
  text_arg : Text → Arg F
  time_arg : ℤ → Arg F
  number_arg : F → Arg F
  int_arg : ℤ → Arg F

-- What the statements take from Go's library.
pub record Go (F : Type 0) : Type 0 where
  pub unicode : Unicode
  pub parse_float : Text → Option F
  pub equal_fold : Text → Text → Bool

-- A statement, or a part of one, with its arguments.
abbrev pub Sql : Type 0 → Type 0
Sql F = Text × List (Arg F)

-- strings.ReplaceAll(s, `"`, `""`)
unfoldable pub double_quotes : Text → Text
double_quotes [] = []
double_quotes (c ∷ s) =
    let rest = double_quotes s in if c == b'"' then b'"' ∷ b'"' ∷ rest else c ∷ rest

-- `jsonPath`
unfoldable pub json_path : Text → Text
unfolding double_quotes
json_path key = codes "$.\"" ++ (double_quotes key ++ codes "\"")

-- `columnFor`
unfoldable pub column_for : Field → Text
column_for level = codes "logs.level"
column_for service = codes "logs.service"
column_for source = codes "logs.source"
column_for message = codes "logs.message"
column_for raw = codes "logs.raw"
column_for attr = []

unfoldable pub is_attr : Field → Bool
is_attr attr = true
is_attr _ = false

-- `compareSym`
unfoldable pub compare_sym : Op → Text
compare_sym gt = codes ">"
compare_sym gte = codes ">="
compare_sym lt = codes "<"
compare_sym lte = codes "<="
compare_sym _ = codes "="

-- `globToLike`
unfoldable pub glob_to_like : Text → Text
glob_to_like [] = []
glob_to_like (c ∷ glob) =
    let rest = glob_to_like glob in
    if c == b'*'
    then b'%' ∷ rest
    else if c == b'%' || (c == b'_' || c == b'\\')
    then b'\\' ∷ c ∷ rest
    else c ∷ rest

-- One `?` for each value, with commas between them.
unfoldable pub marks_for : {A : Type 0} → List A → Text
marks_for [] = []
marks_for (v ∷ []) = codes "?"
marks_for (v ∷ w ∷ vs) = codes "?," ++ marks_for (w ∷ vs)

unfoldable pub attr_bool_text : Text
attr_bool_text =
    codes
      "(json_type(logs.attributes, ?) = ? OR lower(CAST(json_extract(logs.attributes, ?) AS TEXT)) = ?)"

module _ {F : Type 0} (g : Go F) where
  -- `isBoolLiteral`
  unfoldable pub is_bool_literal : Text → Bool
  is_bool_literal v = g.equal_fold v (codes "true") || g.equal_fold v (codes "false")

  -- `attrBoolCond`
  unfoldable pub attr_bool_cond : Text → Text → Sql F
  attr_bool_cond path value =
      let want : Text = if g.equal_fold value (codes "true") then codes "true" else codes "false" in
      (attr_bool_text, text_arg path ∷ text_arg want ∷ text_arg path ∷ text_arg want ∷ [])

  -- `textExpr`
  unfoldable pub text_expr : Field → Text → Sql F
  unfolding column_for
  text_expr attr path = (codes "CAST(json_extract(logs.attributes, ?) AS TEXT)", text_arg path ∷ [])
  text_expr field path = (column_for field, [])

  -- A comparison of the text of a field with what follows.
  unfoldable pub compared : Sql F → Text → List (Arg F) → Sql F
  compared (e, a) rest args = (e ++ rest, a ++ args)

  unfoldable pub texts : Field → List Text → List (Arg F)
  unfolding norm
  texts field [] = []
  texts field (v ∷ vs) = text_arg (norm g.unicode field v) ∷ texts field vs

  unfoldable pub eq_cond : Bool → Filter → Text → Sql F
  unfolding attr_bool_cond compared text_expr
  eq_cond as_bool f path =
      if as_bool
      then attr_bool_cond path f.value
      else compared (text_expr f.field path) (codes " = ?")
          (text_arg (norm g.unicode f.field f.value) ∷ [])

  unfoldable pub neq_cond : Bool → Bool → Filter → Text → Sql F
  unfolding attr_bool_cond column_for
  neq_cond of_attr as_bool f path =
      if of_attr
      then (if as_bool
          then (
            codes "(json_extract(logs.attributes, ?) IS NULL OR NOT "
                ++ ((attr_bool_cond path f.value).0 ++ codes ")"),
            text_arg path ∷ (attr_bool_cond path f.value).1,
          )
          else (
            codes
                "(json_extract(logs.attributes, ?) IS NULL OR CAST(json_extract(logs.attributes, ?) AS TEXT) != ?)",
            text_arg path ∷ text_arg path ∷ text_arg f.value ∷ [],
          ))
      else (column_for f.field ++ codes " != ?", text_arg (norm g.unicode f.field f.value) ∷ [])

  unfoldable pub exists_cond : Bool → Filter → Text → Sql F
  unfolding column_for
  exists_cond of_attr f path =
      if of_attr
      then (codes "json_extract(logs.attributes, ?) IS NOT NULL", text_arg path ∷ [])
      else (
        codes "("
            ++ (column_for f.field
                ++ (codes " IS NOT NULL AND " ++ (column_for f.field ++ codes " != '')"))),
        [],
      )

  unfoldable pub order_cond : Option F → Bool → Text → Filter → Text → Sql F
  unfolding column_for compared text_expr
  order_cond (some n) of_attr sym f path =
      if of_attr
      then (
        codes "CAST(json_extract(logs.attributes, ?) AS REAL) " ++ (sym ++ codes " ?"),
        text_arg path ∷ number_arg n ∷ [],
      )
      else (
        codes "CAST(" ++ (column_for f.field ++ (codes " AS REAL) " ++ (sym ++ codes " ?"))),
        number_arg n ∷ [],
      )
  order_cond none of_attr sym f path =
      compared (text_expr f.field path) (codes " " ++ (sym ++ codes " ?"))
        (text_arg (norm g.unicode f.field f.value) ∷ [])

  unfoldable pub cond_of : Op → Filter → Text → Sql F
  unfolding eq_cond neq_cond exists_cond order_cond is_attr is_bool_literal compare_sym glob_to_like
      texts marks_for
  cond_of eq f path = eq_cond (is_attr f.field && is_bool_literal f.value) f path
  cond_of neq f path = neq_cond (is_attr f.field) (is_bool_literal f.value) f path
  cond_of in_set f path =
      compared (text_expr f.field path) (codes " IN (" ++ (marks_for f.values ++ codes ")"))
        (texts f.field f.values)
  cond_of exists f path = exists_cond (is_attr f.field) f path
  cond_of like f path =
      compared (text_expr f.field path) (codes " LIKE ? ESCAPE '\\'")
        (text_arg (glob_to_like f.value) ∷ [])
  cond_of regex f path =
      compared (text_expr f.field path) (codes " REGEXP ?") (text_arg f.value ∷ [])
  cond_of gt f path = order_cond (g.parse_float f.value) (is_attr f.field) (compare_sym gt) f path
  cond_of gte f path = order_cond (g.parse_float f.value) (is_attr f.field) (compare_sym gte) f path
  cond_of lt f path = order_cond (g.parse_float f.value) (is_attr f.field) (compare_sym lt) f path
  cond_of lte f path = order_cond (g.parse_float f.value) (is_attr f.field) (compare_sym lte) f path

  -- `filterCond`
  unfoldable pub filter_cond : Filter → Sql F
  unfolding cond_of json_path
  filter_cond f = cond_of f.op f (json_path f.attr_key)
