-- ===== src/Query/Agg.antt =====
-- The aggregation stage (internal/query/agg.go): `ParseAggregation` and its parts.
use omni_logging.Common.{
  ℕ, Bool, false, not, ◌||◌, Option, none, some, List, [], ◌∷◌, ◌++◌, map, ltb, leb, if◌then◌else◌,
  ◌>>=◌, Text, codes, same, has_prefix, length, drop,
}
use omni_logging.Common.Int.{ℤ, pos, leb_ℤ, ltb_ℤ}
use omni_logging.Common.Strings.{
  Unicode, trim_space, lower, fields, split_on, ends_with, cut_at, parse_int,
}
use omni_logging.Query.{
  attr, AggFunc, count, sum, avg, min, max, dc, AggKind, stats, timechart, top, rare, FieldRef,
  AggExpr, Aggregation, default_timechart_span, max_groups,
}
use omni_logging.Query.Times.{parse_relative}
use omni_logging.Query.Filters.{known_field, drop_last}

abbrev pub default_top_limit : ℤ
default_top_limit = pos 10

-- `resolveRef`.
unfoldable pub resolve_ref : Unicode → Text → FieldRef
unfolding trim_space lower known_field has_prefix
resolve_ref u name =
    let n = trim_space u name in
    let low = lower u n in
    elim (known_field low) [
      | some f ↦ record { field = f; attr_key = []; name = low }
      | none ↦
          let key = if has_prefix low (codes "attr.") then drop 5 n else n in
          record { field = attr; attr_key = key; name = key }
    ]

-- The parts between commas that are not blank.
unfoldable pub comma_parts : Unicode → List Text → List Text
unfolding trim_space
comma_parts u [] = []
comma_parts u (p ∷ ps) =
    let rest = comma_parts u ps in elim (trim_space u p) [ [] ↦ rest | c ∷ cs ↦ (c ∷ cs) ∷ rest ]

-- `splitCommaList`.
unfoldable pub split_comma_list : Unicode → List Text → List Text
unfolding comma_parts split_on
split_comma_list u [] = []
split_comma_list u (t ∷ ts) = comma_parts u (split_on b',' [] t) ++ split_comma_list u ts

unfoldable pub agg_func : Text → Option AggFunc
unfolding same
agg_func name =
    if same name (codes "count")
    then some count
    else if same name (codes "sum")
    then some sum
    else if same name (codes "avg")
    then some avg
    else if same name (codes "min")
    then some min
    else if same name (codes "max")
    then some max
    else if same name (codes "dc")
    then some dc
    else none

abbrev pub bare_count : AggExpr
bare_count = record { func = count; ref = none; alias = codes "count" }

-- `name(arg)`, by the name in lower case and the argument without blanks at its ends. No argument is
-- fine for `count` alone.
unfoldable pub agg_call : Unicode → Text → Text → Option AggExpr
unfolding agg_func resolve_ref same
agg_call u name [] = if same name (codes "count") then some bare_count else none
agg_call u name (c ∷ arg) = do
  f ← agg_func name
  let ref = resolve_ref u (c ∷ arg)
  some (record { func = f; ref = some ref; alias = name ++ (codes "(" ++ (ref.name ++ codes ")")) })

-- `parseAggExpr`: the argument stands between the first `(` and the `)` at the end.
unfoldable pub parse_agg_expr : Unicode → Text → Option AggExpr
unfolding agg_call trim_space lower same ends_with cut_at drop_last
parse_agg_expr u text =
    let s = trim_space u text in
    if same (lower u s) (codes "count") || same (lower u s) (codes "count()")
    then some bare_count
    else if ends_with b')' s
    then (do
      (name, rest) ← cut_at b'(' [] s
      agg_call u (lower u (trim_space u name)) (trim_space u (drop_last rest)))
    else none

unfoldable pub parse_exprs : Unicode → List Text → Option (List AggExpr)
unfolding parse_agg_expr
parse_exprs u [] = some []
parse_exprs u (m ∷ ms) = do e ← parse_agg_expr u m; es ← parse_exprs u ms; some (e ∷ es)

-- The words before `by` and those behind it, in any case of letters.
unfoldable pub split_by : Unicode → List Text → List Text × List Text
unfolding same lower
split_by u [] = ([], [])
split_by u (f ∷ fs) =
    let (before, behind) = split_by u fs in
    if same (lower u f) (codes "by") then ([], fs) else (f ∷ before, behind)

-- The leading `span=` words of a timechart, with the width of its buckets.
unfoldable pub take_spans : Unicode → AggKind → ℕ → List Text → Option (ℕ × List Text)
unfolding parse_relative lower has_prefix
take_spans u kind span [] = some (span, [])
take_spans u kind span (a ∷ args) =
    if has_prefix (lower u a) (codes "span=")
    then elim kind [
      | timechart ↦ (do
        d ← parse_relative u (drop 5 a)
        if leb d 0 then none else take_spans u kind d args)
      | _ ↦ none
    ]
    else some (span, a ∷ args)

abbrev too_many : AggKind → List FieldRef → Bool
too_many kind groups = elim kind [ timechart ↦ ltb 1 (length groups) | _ ↦ false ]

abbrev start_span : AggKind → ℕ
start_span kind = elim kind [ timechart ↦ default_timechart_span | _ ↦ 0 ]

abbrev keep_if : Bool → Aggregation → Option Aggregation
keep_if ok a = if ok then some a else none

-- The aggregation of the measures and the groups that `splitBy` found.
unfoldable pub stats_of : Unicode → AggKind → ℕ → List Text × List Text → Option Aggregation
unfolding parse_exprs split_comma_list resolve_ref
stats_of u kind span ([], by) = none
stats_of u kind span (m ∷ ms, by) =
    let groups = map (resolve_ref u) (split_comma_list u by) in
    do
      exprs ← parse_exprs u (split_comma_list u (m ∷ ms))
      keep_if (not (too_many kind groups))
          (record { kind = kind; exprs = exprs; group_by = groups; span = span; limit = pos 0 })

-- `parseStats`, for `stats` and `timechart`.
unfoldable pub parse_stats : Unicode → AggKind → List Text → Option Aggregation
unfolding take_spans split_by stats_of
parse_stats u kind args = do
  (span, rest) ← take_spans u kind (start_span kind) args
  stats_of u kind span (split_by u rest)

-- The row count of `top` and `rare`, where the first word is a number.
unfoldable pub take_count : List Text → Option (ℤ × List Text)
unfolding parse_int
take_count [] = some (default_top_limit, [])
take_count (a ∷ args) = elim (parse_int a) [
  | none ↦ some (default_top_limit, a ∷ args)
  | some n ↦ if leb_ℤ n (pos 0) then none else some (n, args)
]

-- `parseTopRare`.
unfoldable pub parse_top_rare : Unicode → AggKind → List Text → Option Aggregation
unfolding take_count split_comma_list resolve_ref
parse_top_rare u kind args = do
  (limit, rest) ← take_count args
  elim (split_comma_list u rest) [
    | [] ↦ none
    | r ∷ rs ↦ some (record {
      kind = kind;
      exprs = bare_count ∷ [];
      group_by = map (resolve_ref u) (r ∷ rs);
      span = 0;
      limit = if ltb_ℤ max_groups limit then max_groups else limit;
    })
  ]

unfoldable pub parse_command : Unicode → Text → List Text → Option Aggregation
unfolding parse_stats parse_top_rare same
parse_command u name args =
    if same name (codes "stats")
    then parse_stats u stats args
    else if same name (codes "timechart")
    then parse_stats u timechart args
    else if same name (codes "top")
    then parse_top_rare u top args
    else if same name (codes "rare")
    then parse_top_rare u rare args
    else none

-- `ParseAggregation`.
unfoldable pub parse_aggregation : Unicode → Text → Option Aggregation
unfolding parse_command fields lower
parse_aggregation u stage = elim (fields u stage) [
  | [] ↦ none
  | name ∷ args ↦ parse_command u (lower u name) args
]
