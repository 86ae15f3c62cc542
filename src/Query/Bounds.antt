-- ===== src/Query/Bounds.antt =====
-- The bounds of what a request can ask for: `ParseRelative` of internal/query/parse.go and
-- `Params.Build` of internal/query/build.go.
use omni_logging.Common.{
  OnSuccess, OnSuccess-bind, ℕ, ◌^◌, ◌≤◌, ◌<◌, Option, none, some, [], ◌∷◌, arith, if◌then◌else◌,
  leb, Text,
}
use omni_logging.Common.Int.{ℤ, pos, negsuc, ◌≤ℤ◌, leb_ℤ, ltb_ℤ}
use omni_logging.Common.Strings.{Unicode, trim_space, parse_int}
use omni_logging.Query.{
  Query, Order, newest, oldest, unset, AggKind, timechart, Aggregation, normalize_agg, clamp_limit,
  normalize, default_timechart_span, max_limit, max_groups,
}
use omni_logging.Query.Times.{
  max_relative, scale_of, relative_of, relative_text, split_last, parse_relative,
}
use omni_logging.Query.Parse.{Host}
use omni_logging.Query.Build.{
  Params, build, build_expr, set_upper, set_lower, set_limit, set_interval, set_order, set_cursor,
}

-- A window in nanoseconds that an int64 holds.
abbrev pub IsWindow : ℕ → Type 0
IsWindow d = (d ≤ max_relative) × (d < 2 ^ 63)

relative_of-IsWindow : (n : ℤ) (unit : ℕ) → OnSuccess IsWindow (relative_of n unit)
unfolding relative_of scale_of
relative_of-IsWindow (negsuc n) unit = tt
relative_of-IsWindow (pos n) unit = ground arith

-- A relative window that parses is at most a hundred years, so that its nanoseconds do not overflow.
pub parse_relative-IsWindow : (u : Unicode) (s : Text) → OnSuccess IsWindow (parse_relative u s)
unfolding parse_relative relative_text
parse_relative-IsWindow u s = text (trim_space u s)
  where
    text : (t : Text) → OnSuccess IsWindow (relative_text t)
    text [] = tt
    text (c ∷ t) =
        OnSuccess-bind IsWindow (parse_int (split_last c t).0) _
          (λ n. relative_of-IsWindow n (split_last c t).1)

-- Counts from one to a largest.
abbrev pub IsCount : ℤ → ℤ → Type 0
IsCount most n = (pos 1 ≤ℤ n) × (n ≤ℤ most)

-- Only a timechart has buckets.
abbrev pub HasSpan : AggKind → ℕ → Type 0
HasSpan timechart span = 1 ≤ span
HasSpan _ span = Unit

abbrev pub IsBoundedAgg : Option Aggregation → Type 0
IsBoundedAgg none = Unit
IsBoundedAgg (some a) = IsCount max_groups a.limit × HasSpan a.kind a.span

normalize_agg-rows : (a : Aggregation) → IsCount max_groups (normalize_agg a).limit
unfolding normalize_agg
normalize_agg-rows a = rows a.limit
  where
    rows :
        (n : ℤ)
        → IsCount max_groups
            (if leb_ℤ n (pos 0) then max_groups else if ltb_ℤ max_groups n then max_groups else n)
    rows (pos n) = ground arith
    rows (negsuc n) = ground arith

normalize_agg-span : (a : Aggregation) → HasSpan (normalize_agg a).kind (normalize_agg a).span
unfolding normalize_agg
normalize_agg-span a = buckets a.kind a.span
  where
    buckets :
        (k : AggKind) (n : ℕ)
        → HasSpan k (elim k [ timechart ↦ if leb n 0 then default_timechart_span else n | _ ↦ n ])
    buckets timechart n = ground arith
    buckets _ n = tt

clamp_limit-IsCount : (n : ℤ) → IsCount max_limit (clamp_limit n)
unfolding clamp_limit
clamp_limit-IsCount (pos n) = ground arith
clamp_limit-IsCount (negsuc n) = ground arith

abbrev pub IsOrdered : Order → Type 0
IsOrdered unset = ⊥
IsOrdered _ = Unit

-- A query that the store can run: from one to 5000 rows, in a chosen order, and an aggregation within
-- its limits.
pub record IsRunnable (q : Query) : Type 0 where
  pub rows : IsCount max_limit q.limit
  pub ordered : IsOrdered q.order
  pub agg : IsBoundedAgg q.agg

normalize-IsRunnable : (q : Query) → IsRunnable (normalize q)
unfolding normalize
normalize-IsRunnable q = record {
  rows = clamp_limit-IsCount q.limit;
  ordered = order q.order;
  agg = bounded q.agg;
}
  where
    order : (o : Order) → IsOrdered (elim o [ oldest ↦ oldest | _ ↦ newest ])
    order newest = tt
    order oldest = tt
    order unset = tt

    bounded :
        (o : Option Aggregation)
        → IsBoundedAgg (elim o [ none ↦ none | some a ↦ some (normalize_agg a) ])
    bounded none = tt
    bounded (some a) = (normalize_agg-rows a, normalize_agg-span a)

-- Whatever a request asks for, the query that `Build` makes of it, if it makes one, asks for one to
-- 5000 rows in the order newest or oldest, and its aggregation for one to 1000 rows, and for buckets
-- of some length where it is a timechart.
pub build-IsRunnable :
    (host : Host) (base64 : Text → Option Text) (now : ℤ) (p : Params)
    → OnSuccess IsRunnable (build host base64 now p)
unfolding build
build-IsRunnable host base64 now p = OnSuccess-bind IsRunnable (build_expr host p.q) _ (λ q1.
    OnSuccess-bind IsRunnable (set_upper host p q1) _ (λ q2.
      OnSuccess-bind IsRunnable (set_lower host now p q2) _ (λ q3.
        OnSuccess-bind IsRunnable (set_limit p q3) _ (λ q4.
          OnSuccess-bind IsRunnable (set_interval host p (set_order p q4)) _ (λ q5.
            OnSuccess-bind IsRunnable (set_cursor base64 p q5) _
              (λ q6. normalize-IsRunnable q6))))))
