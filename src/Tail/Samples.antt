-- ===== src/Tail/Samples.antt =====
-- The hub of internal/tail/hub.go at concrete inputs: events and queries are numbers.
use omni_logging.Common.{ℕ, Bool, false, [], ◌∷◌, arith, leb}
use omni_logging.Tail.{Subscriber, publish_subs}
use omni_logging.Tail.Publishing.{IsActive, Published, publish_subs-Published}

abbrev at_least : ℕ → ℕ → Bool
at_least q e = leb q e

-- A subscriber with one place left, one drop below the limit.
abbrev slow_one : Subscriber ℕ ℕ
slow_one = record {
  id = 0;
  query = 3;
  capacity = 2;
  channel = 8 ∷ [];
  dropped = 1;
  evicted = false;
}

slow_one-IsActive : IsActive 2 slow_one
slow_one-IsActive = record { fits = omega arith; below = λ _. omega arith }

publish_subs-Published_example :
    Published at_least 2
      (4 ∷ 1 ∷ 5 ∷ [])
      1
      (slow_one ∷ [])
      (publish_subs at_least 2 (4 ∷ 1 ∷ 5 ∷ []) 1 (slow_one ∷ []))
publish_subs-Published_example =
    publish_subs-Published at_least 2 (4 ∷ 1 ∷ 5 ∷ []) 1 (slow_one ∷ []) (slow_one-IsActive, tt)
