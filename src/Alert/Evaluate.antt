-- ===== src/Alert/Evaluate.antt =====
-- One evaluation of a rule (internal/alert/evaluate.go). The store's answers to the query are
-- parameters, and so is the text that `%v` makes of a cell.
use omni_logging.Common.{
  ℕ, zero, suc, Bool, true, false, not, ◌||◌, Option, none, some, List, [], ◌∷◌, ◌++◌,
  if◌then◌else◌, leb, Text, length, get_elem?,
}
use omni_logging.Common.Int.{ℤ, pos, ◌-ℤ◌}
use omni_logging.Query.{Query, normalize}
use omni_logging.Query.Parse.{Host}
use omni_logging.Query.Build.{Params, build}
use omni_logging.Alert.{
  CompareOp, gt, gte, lt, lte, ne, Measures, Condition, Rule, matches, match_by,
}

-- A cell of a table: int64 or int, float64, or anything else.
pub data Cell (F : Type 0) : Type 0 where
  int : ℤ → Cell F
  float : F → Cell F
  other : Text → Cell F

pub record Table (F : Type 0) : Type 0 where
  pub columns : List Text
  pub rows : List (List (Cell F))
  pub group_columns : ℕ

pub record GroupHit (F : Type 0) : Type 0 where
  pub labels : List (Text × Text)
  pub value : F

pub record Evaluation (F : Type 0) : Type 0 where
  pub at : ℤ
  pub value : F
  pub firing : Bool
  pub groups : List (GroupHit F)

-- `Evaluate` returns an evaluation or the text of an error.
pub data Outcome (F : Type 0) : Type 0 where
  evaluated : Evaluation F → Outcome F
  failed : Text → Outcome F

-- What the store answers: a value, or the text of an error.
pub data Answer (A : Type 0) : Type 0 where
  answer : A → Answer A
  refused : Text → Answer A

-- The store, and what it prints.
pub record Runner (F : Type 0) : Type 0 where
  pub search : Query → Answer ℕ
  pub aggregate : Query → Answer (Table F)
  pub show : Cell F → Text
  pub invalid_query : Text
  pub no_measure : Text

-- The loop's variables: the evaluation so far, and whether a value was seen.
pub record Scan (F : Type 0) : Type 0 where
  pub value : F
  pub seen : Bool
  pub firing : Bool
  pub groups : List (GroupHit F)

-- `labelsFor`: the group columns that the row and the header both have.
unfoldable pub labels_for :
    {F : Type 0} → (Cell F → Text) → ℕ → List Text → List (Cell F) → List (Text × Text)
labels_for show zero cols row = []
labels_for show (suc n) [] row = []
labels_for show (suc n) (c ∷ cols) [] = []
labels_for show (suc n) (c ∷ cols) (x ∷ row) = (c, show x) ∷ labels_for show n cols row

module _ {F : Type 0} (m : Measures F) where
  unfoldable pub to_float : Cell F → Option F
  to_float (int n) = some (m.of_ℤ n)
  to_float (float x) = some x
  to_float (other t) = none

  unfoldable pub more_extreme : CompareOp → F → F → Bool
  more_extreme gt a b = m.lt b a
  more_extreme gte a b = m.lt b a
  more_extreme ne a b = m.lt b a
  more_extreme lt a b = m.lt a b
  more_extreme lte a b = m.lt a b
  more_extreme _ a b = false

  -- A round of the loop on a value, with the labels of its row.
  unfoldable pub see : Condition F → List (Text × Text) → F → Scan F → Scan F
  unfolding more_extreme match_by
  see c labels v s =
      let t : Scan F =
        if not s.seen || more_extreme c.op v s.value
        then record s { value = v; seen = true }
        else s in
      if matches m c v
      then record t {
        firing = true;
        groups = t.groups ++ record { labels = labels; value = v } ∷ [];
      }
      else t

  -- The measure of a row: a row that is too short, or whose cell is no number, is skipped.
  unfoldable pub measure_of : ℕ → List (Cell F) → Option F
  unfolding to_float
  measure_of at row = elim (get_elem? row at) [ none ↦ none | some cell ↦ to_float cell ]

  -- The loop over the rows.
  unfoldable pub scan_rows :
      (Cell F → Text) → Condition F → ℕ → List Text → List (List (Cell F)) → Scan F → Scan F
  unfolding see measure_of labels_for
  scan_rows show c at cols [] s = s
  scan_rows show c at cols (row ∷ rows) s =
      scan_rows show c at cols rows
        (elim (measure_of at row) [ none ↦ s | some v ↦ see c (labels_for show at cols row) v s ])

  abbrev pub nothing_seen : Scan F
  nothing_seen = record { value = m.zero; seen = false; firing = false; groups = [] }

  -- The end of `evaluateAggregation`: an empty table compares as zero.
  unfoldable pub conclude : Condition F → ℤ → Scan F → Evaluation F
  unfolding match_by
  conclude c now s =
      if s.seen
      then record { at = now; value = s.value; firing = s.firing; groups = s.groups }
      else record { at = now; value = m.zero; firing = matches m c m.zero; groups = s.groups }

  unfoldable pub evaluate_table : Runner F → Condition F → ℤ → Table F → Outcome F
  unfolding scan_rows conclude
  evaluate_table r c now t =
      if leb (length t.columns) t.group_columns
      then failed r.no_measure
      else evaluated
          (conclude c now (scan_rows r.show c t.group_columns t.columns t.rows nothing_seen))

  unfoldable pub evaluate_count : Runner F → Rule F → Query → ℤ → Outcome F
  unfolding match_by
  evaluate_count r rule q now = elim (r.search (record q { limit = pos 1 })) [
    | refused e ↦ failed e
    | answer n ↦ evaluated (record {
      at = now;
      value = m.of_count n;
      firing = matches m rule.cond (m.of_count n);
      groups = [];
    })
  ]

  unfoldable pub evaluate_aggregation : Runner F → Rule F → Query → ℤ → Outcome F
  unfolding evaluate_table
  evaluate_aggregation r rule q now = elim (r.aggregate q) [
    | refused e ↦ failed e
    | answer t ↦ evaluate_table r rule.cond now t
  ]

  -- A request that holds nothing but the expression.
  abbrev pub params_of : Text → Params
  params_of text = record {
    q = text;
    from = [];
    to = [];
    last = [];
    limit = [];
    order = [];
    interval = [];
    after = [];
  }

  -- The rule's own window wins over the expression's.
  abbrev pub over_window : Rule F → ℤ → Query → Query
  over_window rule now q = record q { from = now -ℤ rule.window; to = now }

  unfoldable pub evaluate_query : Runner F → Rule F → Query → ℤ → Outcome F
  unfolding evaluate_count evaluate_aggregation
  evaluate_query r rule q now = elim q.agg [
    | none ↦ evaluate_count r rule q now
    | some a ↦ evaluate_aggregation r rule q now
  ]

  -- `Evaluate`.
  unfoldable pub evaluate : Host → (Text → Option Text) → Runner F → Rule F → ℤ → Outcome F
  unfolding build normalize evaluate_query
  evaluate host base64 r rule now = elim (build host base64 now (params_of rule.query)) [
    | none ↦ failed r.invalid_query
    | some q ↦ evaluate_query r rule (normalize (over_window rule now q)) now
  ]
