-- ===== src/Store/Search.antt =====
-- The statements of internal/store/sqlite/search.go as wholes: `buildWhere` with the clauses around it, `searchSQL`,
-- `countSQL`, `streamSQL`, `histogramSQL` and `facetSQL`.
use omni_logging.Common.{
  ℕ, ◌+◌, Bool, true, false, List, [], ◌∷◌, ◌++◌, map, if◌then◌else◌, Text, codes,
}
use omni_logging.Common.Int.{ℤ, pos}
use omni_logging.Query.{Filter, Order, oldest, Query, is_empty}
use omni_logging.Model.{is_zero}
use omni_logging.Syslog.{itoa}
use omni_logging.Store.Conditions.{
  Arg, text_arg, time_arg, int_arg, Go, Sql, double_quotes, filter_cond,
}

-- `whereClause`
pub record WhereClause (F : Type 0) : Type 0 where
  pub conds : List Text
  pub args : List (Arg F)
  pub need_fts : Bool

-- strings.Join
unfoldable pub join : Text → List Text → Text
join sep [] = []
join sep (x ∷ []) = x
join sep (x ∷ y ∷ xs) = x ++ (sep ++ join sep (y ∷ xs))

-- `sqlStr`
unfoldable pub where_text : List Text → Text
unfolding join
where_text [] = []
where_text (c ∷ cs) = codes "WHERE " ++ join (codes " AND ") (c ∷ cs)

unfoldable pub quote_term : Text → Text
unfolding double_quotes
quote_term t = codes "\"" ++ (double_quotes t ++ codes "\"*")

-- `ftsMatchExpr`
unfoldable pub fts_match_expr : List Text → Text
unfolding join quote_term
fts_match_expr terms = join (codes " AND ") (map quote_term terms)

-- `fromClause`
unfoldable pub from_clause : Bool → Text
from_clause need_fts =
    if need_fts
    then codes "FROM logs JOIN logs_fts ON logs_fts.rowid = logs.rowid"
    else codes "FROM logs"

unfoldable pub keyset_text : Order → Text
keyset_text oldest = codes "(logs.ts > ? OR (logs.ts = ? AND logs.id > ?))"
keyset_text _ = codes "(logs.ts < ? OR (logs.ts = ? AND logs.id < ?))"

unfoldable pub direction : Order → Text
direction oldest = codes "ASC"
direction _ = codes "DESC"

abbrev pub event_columns : Text
event_columns =
    codes
      "SELECT logs.id, logs.ts, logs.received_at, logs.source, logs.service, logs.level, logs.message, logs.attributes, logs.raw "

-- MaxExactCount
abbrev pub max_exact_count : ℕ
max_exact_count = 50000

unfoldable pub ordered : Query → Text
unfolding direction
ordered q =
    codes " ORDER BY logs.ts " ++ (direction q.order ++ (codes ", logs.id " ++ direction q.order))

module _ {F : Type 0} (g : Go F) where
  unfoldable pub with_cond : Sql F → WhereClause F → WhereClause F
  unfolding is_empty
  with_cond (cond, args) w =
      if is_empty cond then w else record w { conds = w.conds ++ cond ∷ []; args = w.args ++ args }

  -- The loop over the filters in `buildWhere`.
  unfoldable pub with_filters : List Filter → WhereClause F → WhereClause F
  unfolding with_cond filter_cond
  with_filters [] w = w
  with_filters (f ∷ fs) w = with_filters fs (with_cond (filter_cond g f) w)

  unfoldable pub terms_where : List Text → WhereClause F
  unfolding fts_match_expr
  terms_where [] = record { conds = []; args = []; need_fts = false }
  terms_where (t ∷ ts) = record {
    conds = codes "logs_fts MATCH ?" ∷ [];
    args = text_arg (fts_match_expr (t ∷ ts)) ∷ [];
    need_fts = true;
  }

  unfoldable pub time_cond : ℤ → Text → Sql F
  unfolding is_zero
  time_cond t cond = if is_zero t then ([], []) else (cond, time_arg t ∷ [])

  -- `buildWhere`
  unfoldable pub build_where : Query → WhereClause F
  unfolding terms_where with_cond time_cond with_filters
  build_where q = with_filters q.filters (
      with_cond (time_cond q.to (codes "logs.ts <= ?"))
        (with_cond (time_cond q.from (codes "logs.ts >= ?")) (terms_where q.terms)))

  -- `keysetCond`; the time of a cursor is held as its nanoseconds.
  unfoldable pub keyset_cond : Query → Sql F
  unfolding keyset_text is_empty
  keyset_cond q =
      if is_empty q.after_id
      then ([], [])
      else (keyset_text q.order, int_arg q.after_ts ∷ int_arg q.after_ts ∷ text_arg q.after_id ∷ [])

  -- The table and the conditions of a statement.
  unfoldable pub selection : WhereClause F → Text
  unfolding from_clause where_text
  selection w = from_clause w.need_fts ++ (codes " " ++ where_text w.conds)

  -- `streamSQL`
  unfoldable pub stream_sql : Query → Sql F
  unfolding build_where keyset_cond with_cond selection ordered
  stream_sql q =
      let w : WhereClause F = with_cond (keyset_cond q) (build_where q) in
      (event_columns ++ (selection w ++ ordered q), w.args)

  -- `searchSQL`
  unfoldable pub search_sql : Query → Sql F
  unfolding build_where keyset_cond with_cond selection ordered
  search_sql q =
      let w : WhereClause F = with_cond (keyset_cond q) (build_where q) in
      (
        event_columns ++ (selection w ++ (ordered q ++ codes " LIMIT ?")),
        w.args ++ int_arg q.limit ∷ [],
      )

  -- `countSQL`
  unfoldable pub count_sql : Query → Sql F
  unfolding build_where selection
  count_sql q =
      let w : WhereClause F = build_where q in
      (
        codes "SELECT COUNT(*) FROM (SELECT 1 " ++ (selection w ++ codes " LIMIT ?)"),
        w.args ++ int_arg (pos (max_exact_count + 1)) ∷ [],
      )

  -- `histogramSQL`
  unfoldable pub histogram_sql : Query → ℕ → Sql F
  unfolding build_where selection itoa
  histogram_sql q bucket =
      let w : WhereClause F = build_where q in
      (
        codes "SELECT (logs.ts / "
            ++ (itoa bucket
                ++ (codes ") * "
                    ++ (itoa bucket
                        ++ (codes " AS bucket, COUNT(*) "
                            ++ (selection w ++ codes " GROUP BY bucket ORDER BY bucket ASC"))))),
        w.args,
      )

  -- `facetSQL`
  unfoldable pub facet_sql : Query → Text → Sql F
  unfolding build_where selection
  facet_sql q col =
      let w : WhereClause F = build_where q in
      (
        codes "SELECT logs."
            ++ (col
                ++ (codes " AS v, COUNT(*) AS c "
                    ++ (selection w ++ codes " GROUP BY v ORDER BY c DESC LIMIT 20"))),
        w.args,
      )
