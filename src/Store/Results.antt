-- ===== src/Store/Results.antt =====
-- What `Search` of internal/store/sqlite/search.go answers, whatever the database does.
use omni_logging.Common.{
  ℕ, ◌≤◌, ◌≡◌, ◌≢◌, refl, ap, ◌∙◌, Bool, true, false, Option, none, some, List, [], arith, if-elim,
  OnSuccess, OnSuccess-bind, OnSuccess-then, ltb, ltb→le, ◌==◌, ==_iff, length,
}
use omni_logging.Common.Int.{ℤ, pos, negsuc}
use omni_logging.Query.{Query, normalize}
use omni_logging.Model.{LogEvent}
use omni_logging.Store.Conditions.{Go}
use omni_logging.Store.Search.{search_sql, count_sql, max_exact_count}
use omni_logging.Store.Pages.{
  Db, SearchResult, capped_count, last_of, is_full, count_matches, next_cursor, page, search,
}

-- A page of a query with a limit.
pub record IsPage (limit : ℤ) (r : SearchResult) : Type 0 where
  pub counted : r.count ≡ length r.events
  pub bounded : r.total ≤ max_exact_count
  pub capped : r.total_capped ≡ true → r.total ≡ max_exact_count
  pub ended : pos r.count ≢ limit → r.next_cursor ≡ []

IsFull-pos : (limit : ℤ) (n : ℕ) → pos n ≢ limit → is_full limit n ≡ false
unfolding is_full
IsFull-pos (pos m) n h =
    elim (n == m) as (λ b. (n == m) ≡ b → b ≡ false) [
      | true ↦ λ e. absurd (h (ap pos ((==_iff n m).0 e)))
      | false ↦ λ _. refl
    ]
      refl
IsFull-pos (negsuc m) n h = refl

capped_count-bounded :
    (n : ℕ)
    → ((capped_count n).0 ≤ max_exact_count)
      × ((capped_count n).1 ≡ true → (capped_count n).0 ≡ max_exact_count)
unfolding capped_count
capped_count-bounded n =
    if-elim (λ (r : ℕ × Bool). (r.0 ≤ max_exact_count) × (r.1 ≡ true → r.0 ≡ max_exact_count))
      (ltb max_exact_count n) (λ _. (omega arith, λ _. refl))
      (λ h. (ltb→le max_exact_count n h, λ e. absurd (cc e)))

module _ {F : Type 0} (g : Go F) (db : Db F) where
  no_cursor : (o : Option LogEvent) → next_cursor g db false o ≡ []
  unfolding next_cursor
  no_cursor none = refl
  no_cursor (some e) = refl

  count_matches-bounded :
      (q : Query)
      → OnSuccess
          (λ (r : ℕ × Bool). (r.0 ≤ max_exact_count) × (r.1 ≡ true → r.0 ≡ max_exact_count))
          (count_matches g db q)
  unfolding count_matches
  count_matches-bounded q =
      OnSuccess-bind
        (λ (r : ℕ × Bool). (r.0 ≤ max_exact_count) × (r.1 ≡ true → r.0 ≡ max_exact_count))
        (db.count (count_sql g q)) (λ (n : ℕ). some (capped_count n)) capped_count-bounded

  page-IsPage :
      (q : Query) (rows : Option (List LogEvent)) → OnSuccess (IsPage q.limit) (page g db q rows)
  unfolding page
  page-IsPage q none = tt
  page-IsPage q (some es) =
      OnSuccess-then {P = λ r. (r.0 ≤ max_exact_count) × (r.1 ≡ true → r.0 ≡ max_exact_count)}
        (IsPage q.limit) (count_matches g db q)
        (λ (r : ℕ × Bool). some (record {
          events = es;
          count = length es;
          total = r.0;
          total_capped = r.1;
          next_cursor = next_cursor g db (is_full q.limit (length es)) (last_of es);
        }))
        (count_matches-bounded q)
        (λ r h. record {
          counted = refl;
          bounded = h.0;
          capped = h.1;
          ended = λ ne.
              ap (λ b. next_cursor g db b (last_of es)) (IsFull-pos q.limit (length es) ne)
              ∙ no_cursor (last_of es);
        })

  -- A search that is answered, whatever the database answers, reports as many events as it gives, at most 50000
  -- matches, exactly 50000 where it says that there are more, and no cursor for a next page unless the page is full
  -- to the limit of the normalized query.
  pub search-IsPage : (q : Query) → OnSuccess (IsPage (normalize q).limit) (search g db q)
  unfolding search
  search-IsPage q = page-IsPage (normalize q) (db.events (search_sql g (normalize q)))
