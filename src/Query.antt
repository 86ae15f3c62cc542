-- ===== src/Query.antt =====
-- The query language (internal/query). A text is the list of its code points; the code's walks over
-- bytes stop at ASCII characters only, which are the same in both views.
pub mod Lexer
pub mod Times
pub mod Filters
pub mod Parse
pub mod Agg
pub mod Build
pub mod Match
pub mod Phrase
pub mod Matching
pub mod Bounds
pub mod Cuts
pub mod Window
mod Samples
use omni_logging.Common.{
  ℕ, zero, suc, ◌+◌, ◌*◌, ◌^◌, Bool, true, false, Option, none, some, List, [], ◌∷◌, Text, codes,
  same, ltb, leb, if◌then◌else◌,
}
use omni_logging.Common.Int.{ℤ, pos, negsuc, leb_ℤ, ltb_ℤ}

pub data Field : Type 0 where
  level service source message raw attr : Field

pub data Op : Type 0 where
  eq neq gt gte lt lte like exists in_set regex : Op

pub record Filter : Type 0 where
  pub field : Field
  pub attr_key : Text
  pub op : Op
  pub value : Text
  pub values : List Text

-- The time directives of an expression, as they were typed; empty where there is none.
pub record TimeSpec : Type 0 where
  pub last : Text
  pub from : Text
  pub to : Text

pub data AggFunc : Type 0 where
  count sum avg min max dc : AggFunc

pub data AggKind : Type 0 where
  stats timechart top rare : AggKind

pub record FieldRef : Type 0 where
  pub field : Field
  pub attr_key : Text
  pub name : Text

pub record AggExpr : Type 0 where
  pub func : AggFunc
  pub ref : Option FieldRef
  pub alias : Text

pub record Aggregation : Type 0 where
  pub kind : AggKind
  pub exprs : List AggExpr
  pub group_by : List FieldRef
  pub span : ℕ
  pub limit : ℤ

pub data Order : Type 0 where
  newest oldest unset : Order

-- Times are nanoseconds from the zero time of Go's `time.Time`, which stands for "no bound".
pub record Query : Type 0 where
  pub terms : List Text
  pub filters : List Filter
  pub time : TimeSpec
  pub from : ℤ
  pub to : ℤ
  pub limit : ℤ
  pub order : Order
  pub interval : ℕ
  pub after_ts : ℤ
  pub after_id : Text
  pub agg : Option Aggregation

abbrev pub default_limit : ℤ
default_limit = pos 100

abbrev pub max_limit : ℤ
max_limit = pos 5000

abbrev pub max_groups : ℤ
max_groups = pos 1000

-- A minute.
abbrev pub default_timechart_span : ℕ
default_timechart_span = 60 * 10 ^ 9

abbrev pub empty_query : Query
empty_query = record {
  terms = [];
  filters = [];
  time = record { last = []; from = []; to = [] };
  from = pos 0;
  to = pos 0;
  limit = pos 0;
  order = unset;
  interval = 0;
  after_ts = pos 0;
  after_id = [];
  agg = none;
}

unfoldable pub is_empty : Text → Bool
is_empty [] = true
is_empty (c ∷ s) = false

unfoldable pub has_lower_bound : TimeSpec → Bool
unfolding is_empty
has_lower_bound t = if is_empty t.from then (if is_empty t.last then false else true) else true

-- `Normalize` of an aggregation.
unfoldable pub normalize_agg : Aggregation → Aggregation
normalize_agg a = record a {
  span = elim a.kind [
    | timechart ↦ if leb a.span 0 then default_timechart_span else a.span
    | _ ↦ a.span
  ];
  limit =
      if leb_ℤ a.limit (pos 0)
      then max_groups
      else if ltb_ℤ max_groups a.limit
      then max_groups
      else a.limit;
}

unfoldable pub clamp_limit : ℤ → ℤ
clamp_limit n =
    let m : ℤ = if leb_ℤ n (pos 0) then default_limit else n in
    if ltb_ℤ max_limit m then max_limit else m

-- `Normalize` of a query.
unfoldable pub normalize : Query → Query
unfolding normalize_agg clamp_limit
normalize q = record q {
  limit = clamp_limit q.limit;
  order = elim q.order [ oldest ↦ oldest | _ ↦ newest ];
  agg = elim q.agg [ none ↦ none | some a ↦ some (normalize_agg a) ];
}
