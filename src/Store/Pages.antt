-- ===== src/Store/Pages.antt =====
-- What `Search`, `Stream`, `count`, `Stats` and `facet` of internal/store/sqlite/search.go make of the rows that SQLite
-- answers. The database is an argument: the rows of a statement with its arguments, or an error.
use omni_logging.Common.{
  ℕ, ◌+◌, ◌*◌, ◌^◌, Bool, true, false, Option, none, some, List, [], ◌∷◌, if◌then◌else◌, ◌>>=◌, ltb,
  ◌==◌, Text, codes, length,
}
use omni_logging.Common.Int.{ℤ, pos, negsuc, ◌-ℤ◌}
use omni_logging.Model.Json.{unix_epoch}
use omni_logging.Store.Cursors.{encode_cursor}
use omni_logging.Query.{Query, normalize}
use omni_logging.Model.{LogEvent}
use omni_logging.Store.Conditions.{Go, Sql}
use omni_logging.Store.Search.{
  search_sql, stream_sql, count_sql, histogram_sql, facet_sql, max_exact_count,
}

-- What SQLite answers to the statements, where one row that cannot be read fails the whole; and the base64 of cursors.
pub record Db (F : Type 0) : Type 0 where
  pub events : Sql F → Option (List LogEvent)
  pub count : Sql F → Option ℕ
  pub buckets : Sql F → Option (List (ℤ × ℕ))
  pub facets : Sql F → Option (List (Text × ℕ))
  pub base64 : Text → Text

-- `UnixNano`, of a time that has one.
unfoldable pub unix_nano : ℤ → ℤ
unix_nano t = t -ℤ unix_epoch

-- `SearchResult`, less the time that it took.
pub record SearchResult : Type 0 where
  pub events : List LogEvent
  pub count : ℕ
  pub total : ℕ
  pub total_capped : Bool
  pub next_cursor : Text

pub record StatsResult : Type 0 where
  pub histogram : List (ℤ × ℕ)
  pub total : ℕ
  pub levels : List (Text × ℕ)
  pub services : List (Text × ℕ)

-- The end of `count`: the matches up to the cap, and whether there are more.
unfoldable pub capped_count : ℕ → ℕ × Bool
capped_count n = if ltb max_exact_count n then (max_exact_count, true) else (n, false)

unfoldable pub last_of : List LogEvent → Option LogEvent
last_of [] = none
last_of (e ∷ []) = some e
last_of (e ∷ f ∷ es) = last_of (f ∷ es)

-- `len(events) == q.Limit`
unfoldable pub is_full : ℤ → ℕ → Bool
is_full (pos limit) n = n == limit
is_full (negsuc m) n = false

unfoldable pub total_of : List (ℤ × ℕ) → ℕ
total_of [] = 0
total_of ((start, n) ∷ bs) = n + total_of bs

unfoldable pub minute_if_none : ℕ → ℕ
minute_if_none interval = if interval == 0 then 60 * 10 ^ 9 else interval

module _ {F : Type 0} (g : Go F) (db : Db F) where
  -- `count`
  unfoldable pub count_matches : Query → Option (ℕ × Bool)
  unfolding count_sql capped_count
  count_matches q = do n ← db.count (count_sql g q); some (capped_count n)

  -- The cursor of a full page, behind its last event.
  unfoldable pub next_cursor : Bool → Option LogEvent → Text
  unfolding encode_cursor unix_nano
  next_cursor full none = []
  next_cursor full (some e) =
      if full then encode_cursor db.base64 (unix_nano e.timestamp) e.id else []

  unfoldable pub page : Query → Option (List LogEvent) → Option SearchResult
  unfolding count_matches next_cursor is_full last_of
  page q rows = do
    es ← rows
    (total, capped) ← count_matches q
    some (record {
      events = es;
      count = length es;
      total = total;
      total_capped = capped;
      next_cursor = next_cursor (is_full q.limit (length es)) (last_of es);
    })

  -- `Search`
  unfoldable pub search : Query → Option SearchResult
  unfolding normalize search_sql page
  search q = page (normalize q) (db.events (search_sql g (normalize q)))

  -- The loop of `Stream`: the callback on each event until its first error.
  unfoldable pub stream_rows :
      {S : Type 0} → (LogEvent → S → S × Bool) → List LogEvent → S → S × Bool
  stream_rows fn [] s = (s, true)
  stream_rows fn (e ∷ es) s =
      let (t, ok) = fn e s in let rest = stream_rows fn es t in if ok then rest else (t, false)

  unfoldable pub stream_if :
      {S : Type 0} → (LogEvent → S → S × Bool) → Option (List LogEvent) → S → S × Bool
  unfolding stream_rows
  stream_if fn none s = (s, false)
  stream_if fn (some es) s = stream_rows fn es s

  -- `Stream`, and whether it succeeds.
  unfoldable pub stream : {S : Type 0} → (LogEvent → S → S × Bool) → Query → S → S × Bool
  unfolding normalize stream_sql stream_if
  stream fn q s = stream_if fn (db.events (stream_sql g (normalize q))) s

  -- `Stats`
  unfoldable pub stats : Query → Option StatsResult
  unfolding normalize histogram_sql facet_sql minute_if_none total_of
  stats q = do
    bs ← db.buckets (histogram_sql g (normalize q) (minute_if_none q.interval))
    ls ← db.facets (facet_sql g (normalize q) (codes "level"))
    ss ← db.facets (facet_sql g (normalize q) (codes "service"))
    some (record { histogram = bs; total = total_of bs; levels = ls; services = ss })
