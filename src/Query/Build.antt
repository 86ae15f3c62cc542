-- ===== src/Query/Build.antt =====
-- `Params.Build` of internal/query/build.go. The decoding of the pagination cursor's base64 is a
-- parameter.
use omni_logging.Common.{
  Bool, false, not, Option, none, some, List, [], ◌∷◌, if◌then◌else◌, ◌==◌, ◌>>=◌, Text, codes,
  same,
}
use omni_logging.Common.Int.{ℤ, pos, negsuc, ◌-ℤ◌}
use omni_logging.Common.Strings.{Unicode, trim_space, cut_at, parse_int}
use omni_logging.Query.{TimeSpec, Query, oldest, is_empty, has_lower_bound, normalize}
use omni_logging.Query.Lexer.{split_pipeline}
use omni_logging.Query.Times.{parse_relative, parse_time}
use omni_logging.Query.Parse.{Host, parse}
use omni_logging.Query.Agg.{parse_aggregation}

pub record Params : Type 0 where
  pub q : Text
  pub from : Text
  pub to : Text
  pub last : Text
  pub limit : Text
  pub order : Text
  pub interval : Text
  pub after : Text

-- The stages behind the filter: blank ones are skipped, and one at most is an aggregation.
unfoldable pub add_stages : Unicode → Query → List Text → Option Query
unfolding parse_aggregation trim_space is_empty
add_stages u q [] = some q
add_stages u q (stage ∷ stages) =
    let skip = add_stages u q stages in
    let more : Option Query = elim q.agg [
      | some a ↦ none
      | none ↦ elim (parse_aggregation u stage) [
        | none ↦ none
        | some a ↦ add_stages u (record q { agg = some a }) stages
      ]
    ] in
    if is_empty (trim_space u stage) then skip else more

-- The filter and the pipeline.
unfoldable pub build_expr : Host → Text → Option Query
unfolding parse add_stages split_pipeline
build_expr host expr = elim (split_pipeline expr) [
  | [] ↦ none
  | first ∷ stages ↦ (do q ← parse host first; add_stages host.unicode q stages)
]

-- The upper bound: the expression's, else the request's.
unfoldable pub upper_text : TimeSpec → Params → Text
unfolding is_empty
upper_text t p = if is_empty t.to then p.to else t.to

unfoldable pub set_upper : Host → Params → Query → Option Query
unfolding upper_text parse_time is_empty
set_upper host p q =
    let text = upper_text q.time p in
    if is_empty text
    then some q
    else (do t ← parse_time host.unicode host.rfc3339 text; some (record q { to = t }))

-- The lower bound's two forms, from one source: the expression if it names either.
unfoldable pub lower_texts : TimeSpec → Params → Text × Text
unfolding has_lower_bound
lower_texts t p = if has_lower_bound t then (t.from, t.last) else (p.from, p.last)

abbrev pub is_zero : ℤ → Bool
is_zero (pos n) = n == 0
is_zero (negsuc n) = false

-- A relative window ends at the upper bound, or now where there is none.
unfoldable pub set_lower : Host → ℤ → Params → Query → Option Query
unfolding lower_texts parse_time parse_relative is_empty ◌-ℤ◌
set_lower host now p q =
    let (from, last) = lower_texts q.time p in
    if not (is_empty from)
    then (do t ← parse_time host.unicode host.rfc3339 from; some (record q { from = t }))
    else if not (is_empty last)
    then (do
      d ← parse_relative host.unicode last
      let upper : ℤ = if is_zero q.to then now else q.to
      some (record q { from = upper -ℤ pos d }))
    else some q

unfoldable pub set_limit : Params → Query → Option Query
unfolding parse_int is_empty
set_limit p q =
    if is_empty p.limit then some q else (do n ← parse_int p.limit; some (record q { limit = n }))

unfoldable pub set_order : Params → Query → Query
unfolding same
set_order p q = if same p.order (codes "oldest") then record q { order = oldest } else q

unfoldable pub set_interval : Host → Params → Query → Option Query
unfolding parse_relative is_empty
set_interval host p q =
    if is_empty p.interval
    then some q
    else (do d ← parse_relative host.unicode p.interval; some (record q { interval = d }))

-- `DecodeCursor` of internal/query/cursor.go behind the base64: the time, a bar, the ID.
unfoldable pub decode_cursor : (Text → Option Text) → Text → Option (ℤ × Text)
unfolding cut_at parse_int
decode_cursor base64 s = do
  text ← base64 s
  (number, id) ← cut_at b'|' [] text
  ns ← parse_int number
  some (ns, id)

unfoldable pub set_cursor : (Text → Option Text) → Params → Query → Option Query
unfolding decode_cursor is_empty
set_cursor base64 p q = if is_empty p.after then some q else (do
  (ts, id) ← decode_cursor base64 p.after
  some (record q { after_ts = ts; after_id = id }))

unfoldable pub build : Host → (Text → Option Text) → ℤ → Params → Option Query
unfolding build_expr set_upper set_lower set_limit set_order set_interval set_cursor normalize
build host base64 now p = do
  q1 ← build_expr host p.q
  q2 ← set_upper host p q1
  q3 ← set_lower host now p q2
  q4 ← set_limit p q3
  q5 ← set_interval host p (set_order p q4)
  q6 ← set_cursor base64 p q5
  some (normalize q6)
