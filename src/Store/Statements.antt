-- ===== src/Store/Statements.antt =====
-- The statements of internal/store/sqlite/search.go as wholes: their placeholders and their arguments.
use omni_logging.Common.{
  ℕ, ◌+◌, ◌≡◌, refl, sym, ap, ◌∙◌, Bool, true, false, List, [], ◌∷◌, ◌++◌, arith, if-elim, Text,
  codes, append-nil, length, length-append,
}
use omni_logging.Common.Int.{ℤ, pos}
use omni_logging.Query.{Filter, Order, newest, oldest, unset, Query, is_empty}
use omni_logging.Model.{is_zero}
use omni_logging.Syslog.{itoa}
use omni_logging.Store.Conditions.{int_arg, Go, Sql, json_path, filter_cond}
use omni_logging.Store.Search.{
  WhereClause, join, where_text, from_clause, with_cond, with_filters, terms_where, time_cond,
  build_where, keyset_text, keyset_cond, direction, selection, ordered, stream_sql, search_sql,
  count_sql, histogram_sql, facet_sql,
}
use omni_logging.Store.Placeholders.{
  marks, marks-append, IsBound, unmarked, marks-itoa, cond_of-IsBound,
}

marks_all : List Text → ℕ
marks_all [] = 0
marks_all (c ∷ cs) = marks c + marks_all cs

marks_all-append : (cs ds : List Text) → marks_all (cs ++ ds) ≡ marks_all cs + marks_all ds
unfolding marks_all
marks_all-append [] ds = omega arith
marks_all-append (c ∷ cs) ds = omega (arith, marks_all-append cs ds)

marks-join : (cs : List Text) → marks (join (codes " AND ") cs) ≡ marks_all cs
unfolding marks join marks_all
marks-join [] = refl
marks-join (c ∷ []) = omega arith
marks-join (c ∷ d ∷ cs) = marks-append c _ ∙ omega (arith, marks-join (d ∷ cs))

marks-where_text : (cs : List Text) → marks (where_text cs) ≡ marks_all cs
unfolding marks where_text marks_all
marks-where_text [] = refl
marks-where_text (c ∷ cs) = marks-join (c ∷ cs)

marks-keyset_text : (o : Order) → marks (keyset_text o) ≡ 3
unfolding marks keyset_text
marks-keyset_text newest = refl
marks-keyset_text oldest = refl
marks-keyset_text unset = refl

marks-ordered : (q : Query) (t : Text) → marks (ordered q ++ t) ≡ marks t
unfolding marks ordered direction
marks-ordered q t = by_order q.order t
  where
    by_order :
        (o : Order) (t : Text)
        → marks (
            (codes " ORDER BY logs.ts " ++ (direction o ++ (codes ", logs.id " ++ direction o)))
            ++ t)
          ≡ marks t
    by_order newest t = refl
    by_order oldest t = refl
    by_order unset t = refl

module _ {F : Type 0} (g : Go F) where
  -- Each condition of the clause has its arguments.
  abbrev Balanced : WhereClause F → Type 0
  Balanced w = marks_all w.conds ≡ length w.args

  with_cond-Balanced :
      (c : Sql F) (w : WhereClause F) → IsBound c → Balanced w → Balanced (with_cond g c w)
  unfolding with_cond marks_all
  with_cond-Balanced (cond, args) w h b =
      if-elim Balanced (is_empty cond) (λ _. b)
        (λ _. omega (arith, marks_all-append w.conds (cond ∷ []), length-append w.args args, h, b))

  with_filters-Balanced :
      (fs : List Filter) (w : WhereClause F) → Balanced w → Balanced (with_filters g fs w)
  unfolding with_filters filter_cond
  with_filters-Balanced [] w b = b
  with_filters-Balanced (f ∷ fs) w b =
      with_filters-Balanced fs (with_cond g (filter_cond g f) w)
        (with_cond-Balanced (filter_cond g f) w (cond_of-IsBound g f.op f (json_path f.attr_key)) b)

  terms_where-Balanced : (ts : List Text) → Balanced (terms_where g ts)
  unfolding terms_where marks marks_all
  terms_where-Balanced [] = refl
  terms_where-Balanced (t ∷ ts) = refl

  time_cond-IsBound : (t : ℤ) (cond : Text) → marks cond ≡ 1 → IsBound (time_cond g t cond)
  unfolding time_cond marks
  time_cond-IsBound t cond h = if-elim IsBound (is_zero t) (λ _. refl) (λ _. h)

  build_where-Balanced : (q : Query) → Balanced (build_where g q)
  unfolding build_where marks
  build_where-Balanced q = with_filters-Balanced q.filters _ (
      with_cond-Balanced (time_cond g q.to (codes "logs.ts <= ?")) _
        (time_cond-IsBound q.to (codes "logs.ts <= ?") refl)
        (with_cond-Balanced (time_cond g q.from (codes "logs.ts >= ?")) _
          (time_cond-IsBound q.from (codes "logs.ts >= ?") refl) (terms_where-Balanced q.terms)))

  keyset_cond-IsBound : (q : Query) → IsBound (keyset_cond g q)
  unfolding keyset_cond marks
  keyset_cond-IsBound q =
      if-elim IsBound (is_empty q.after_id) (λ _. refl) (λ _. marks-keyset_text q.order)

  marks-from : (b : Bool) (t : Text) → marks (from_clause b ++ t) ≡ marks t
  unfolding from_clause marks
  marks-from true t = refl
  marks-from false t = refl

  marks-selection :
      (w : WhereClause F) (t : Text)
      → Balanced w
      → marks (selection g w ++ t) ≡ length w.args + marks t
  unfolding selection marks
  marks-selection w t b =
      marks-append (selection g w) t
      ∙ ap (λ (k : ℕ). k + marks t)
          (marks-from w.need_fts (codes " " ++ where_text w.conds) ∙ marks-where_text w.conds ∙ b)

  abbrev paged : Query → WhereClause F
  paged q = with_cond g (keyset_cond g q) (build_where g q)

  paged-Balanced : (q : Query) → Balanced (paged q)
  paged-Balanced q =
      with_cond-Balanced (keyset_cond g q) (build_where g q) (keyset_cond-IsBound q)
        (build_where-Balanced q)

  search_sql-IsBound : (q : Query) → IsBound (search_sql g q)
  unfolding search_sql marks
  search_sql-IsBound q =
      marks-selection (paged q) (ordered q ++ codes " LIMIT ?") (paged-Balanced q)
      ∙ ap (λ (k : ℕ). length (paged q).args + k) (marks-ordered q (codes " LIMIT ?"))
      ∙ sym (length-append (paged q).args (int_arg q.limit ∷ []))

  stream_sql-IsBound : (q : Query) → IsBound (stream_sql g q)
  unfolding stream_sql marks
  stream_sql-IsBound q =
      marks-selection (paged q) (ordered q) (paged-Balanced q)
      ∙ omega (arith, ap marks (append-nil (ordered q)), marks-ordered q [])

  count_sql-IsBound : (q : Query) → IsBound (count_sql g q)
  unfolding count_sql marks
  count_sql-IsBound q =
      marks-selection (build_where g q) (codes " LIMIT ?)") (build_where-Balanced q)
      ∙ sym (length-append (build_where g q).args (int_arg (pos 50001) ∷ []))

  whole :
      (w : WhereClause F) (t : Text)
      → Balanced w
      → marks t ≡ 0
      → marks (selection g w ++ t) ≡ length w.args
  whole w t b h = omega (arith, marks-selection w t b, h)

  histogram_sql-IsBound : (q : Query) (bucket : ℕ) → IsBound (histogram_sql g q bucket)
  unfolding histogram_sql marks
  histogram_sql-IsBound q bucket =
      let w : WhereClause F = build_where g q in
      let end : Text = selection g w ++ codes " GROUP BY bucket ORDER BY bucket ASC" in
      unmarked (itoa bucket)
        (codes ") * " ++ (itoa bucket ++ (codes " AS bucket, COUNT(*) " ++ end)))
        (marks-itoa bucket)
      ∙ unmarked (itoa bucket) (codes " AS bucket, COUNT(*) " ++ end) (marks-itoa bucket)
      ∙ whole w (codes " GROUP BY bucket ORDER BY bucket ASC") (build_where-Balanced q) refl

  facet_sql-IsBound : (q : Query) (col : Text) → marks col ≡ 0 → IsBound (facet_sql g q col)
  unfolding facet_sql marks
  facet_sql-IsBound q col h =
      let w : WhereClause F = build_where g q in
      unmarked col
        (codes " AS v, COUNT(*) AS c "
          ++ (selection g w ++ codes " GROUP BY v ORDER BY c DESC LIMIT 20"))
        h
      ∙ whole w (codes " GROUP BY v ORDER BY c DESC LIMIT 20") (build_where-Balanced q) refl

  -- Whatever a query asks for, each of the statements has exactly one placeholder for each argument that is bound to
  -- it: the search, the export, the count, the histogram and the facets, whose column has none in its name.
  pub statements-IsBound :
      (q : Query) (bucket : ℕ) (col : Text)
      → marks col ≡ 0
      → IsBound (search_sql g q)
        × IsBound (stream_sql g q)
        × IsBound (count_sql g q)
        × IsBound (histogram_sql g q bucket)
        × IsBound (facet_sql g q col)
  statements-IsBound q bucket col h = (
    search_sql-IsBound q,
    stream_sql-IsBound q,
    count_sql-IsBound q,
    histogram_sql-IsBound q bucket,
    facet_sql-IsBound q col h,
  )
