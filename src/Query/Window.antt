-- ===== src/Query/Window.antt =====
-- Which source sets the time window of a query: `Params.Build` of internal/query/build.go.
use omni_logging.Common.{◌≡◌, refl, ap, ◌∙◌, true, Option, none, some, if-elim, ◌>>=◌, Text}
use omni_logging.Common.Int.{ℤ}
use omni_logging.Query.{Query, is_empty, has_lower_bound, normalize}
use omni_logging.Query.Times.{parse_time}
use omni_logging.Query.Parse.{Host}
use omni_logging.Query.Build.{
  Params, build, build_expr, upper_text, set_upper, lower_texts, set_lower, set_limit, set_interval,
  set_order, set_cursor,
}

-- A request with another `from` and another `last`.
abbrev pub with_lower : Text → Text → Params → Params
with_lower from last p = record p { from = from; last = last }

-- Two continuations that agree on every result of a step that keeps the time directives.
module _ (host : Host) (p : Params) where
  same_after_upper :
      (q : Query) (f g : Query → Option Query)
      → ((r : Query) → r.time ≡ q.time → f r ≡ g r)
      → (set_upper host p q >>= f) ≡ (set_upper host p q >>= g)
  unfolding set_upper
  same_after_upper q f g h =
      if-elim (λ (o : Option Query). (o >>= f) ≡ (o >>= g)) (is_empty (upper_text q.time p))
        (λ _. h q refl) (λ _. parsed (parse_time host.unicode host.rfc3339 (upper_text q.time p)))
    where
      parsed :
          (t : Option ℤ)
          → ((t >>= λ x. some (record q { to = x })) >>= f)
            ≡ ((t >>= λ x. some (record q { to = x })) >>= g)
      parsed none = refl
      parsed (some x) = h (record q { to = x }) refl

set_lower_named :
    (host : Host) (now : ℤ) (p : Params) (from last : Text) (q : Query)
    → has_lower_bound q.time ≡ true
    → set_lower host now (with_lower from last p) q ≡ set_lower host now p q
unfolding set_lower lower_texts
set_lower_named host now p from last q h = rw h refl

-- What `Build` does behind the window.
abbrev settle : Host → (Text → Option Text) → Params → Query → Option Query
settle host base64 p q3 = do
  q4 ← set_limit p q3
  q5 ← set_interval host p (set_order p q4)
  q6 ← set_cursor base64 p q5
  some (normalize q6)

-- Once the expression names a lower bound, as `from` or as `last`, the request's own `from` and `last`
-- do not change the query that is built, nor whether one is.
pub build-with_lower :
    (host : Host) (base64 : Text → Option Text) (now : ℤ) (p : Params) (from last : Text)
    (q : Query)
    → build_expr host p.q ≡ some q
    → has_lower_bound q.time ≡ true
    → build host base64 now (with_lower from last p) ≡ build host base64 now p
unfolding build set_upper set_limit set_order set_interval set_cursor upper_text
build-with_lower host base64 now p from last q e h = rw e (
    same_after_upper host p q _ _ (λ r same.
      ap (λ o. o >>= settle host base64 p)
        (set_lower_named host now p from last r (ap has_lower_bound same ∙ h))))
