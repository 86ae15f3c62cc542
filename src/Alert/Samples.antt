-- ===== src/Alert/Samples.antt =====
-- The alerts of internal/alert at concrete inputs: measures are natural numbers.
use omni_logging.Common.{
  ℕ, true, false, ◌≡◌, refl, List, [], ◌∷◌, none, leb, ltb, ◌==◌, ◌<◌, arith, Text, codes, length,
}
use omni_logging.Common.Int.{ℤ, pos, negsuc}
use omni_logging.Alert.{Measures, Condition, gt, firing, warning, Rule}
use omni_logging.Alert.Evaluate.{
  Cell, int, other, Table, Evaluation, evaluated, failed, Runner, refused, evaluate_table,
}
use omni_logging.Alert.Extremes.{measured_rows}
use omni_logging.Alert.Reports.{Reports, evaluate_table-Reports}
use omni_logging.Alert.Transitions.{
  Attempt, history, awaited, IsAlternating, Resolves, history-IsAlternating, history-Resolves,
}
use omni_logging.Alert.Spacing.{Request, evaluations, IsSpaced, evaluations-IsSpaced}

abbrev clamp : ℤ → ℕ
clamp (pos n) = n
clamp (negsuc n) = 0

irrefl : (x : ℕ) → ltb x x ≡ false
irrefl x = ground arith

trans_lt : (x y z : ℕ) → ltb x y ≡ true → ltb y z ≡ true → ltb x z ≡ true
trans_lt x y z h k = ground arith

abbrev naturals : Measures ℕ
naturals = record {
  lt = ltb;
  le = leb;
  eq = λ a b. a == b;
  of_count = λ n. n;
  of_ℤ = clamp;
  zero = 0;
  lt_irrefl = irrefl;
  lt_trans = trans_lt;
}

abbrev too_many : Condition ℕ
too_many = record { op = gt; value = 5 }

-- Errors by service: one row is no number.
abbrev by_service : Table ℕ
by_service = record {
  columns = codes "service" ∷ codes "count" ∷ [];
  rows =
      (other (codes "web") ∷ int (pos 3) ∷ [])
      ∷ (other (codes "db") ∷ int (pos 9) ∷ [])
      ∷ (other (codes "mail") ∷ other (codes "none") ∷ [])
      ∷ (other (codes "auth") ∷ int (pos 7) ∷ [])
      ∷ [];
  group_columns = 1;
}

abbrev shown : Cell ℕ → Text
shown (other t) = t
shown _ = []

abbrev no_store : Runner ℕ
no_store = record {
  search = λ q. refused [];
  aggregate = λ q. refused [];
  show = shown;
  invalid_query = [];
  no_measure = [];
}

one_measure : by_service.group_columns < length by_service.columns
one_measure = omega arith

evaluate_table-Reports_example :
    (ev : Evaluation ℕ) × (evaluate_table naturals no_store too_many (pos 0) by_service
      ≡ evaluated ev)
    × Reports naturals too_many
        (pos 0)
        (measured_rows naturals shown 1 by_service.columns by_service.rows)
        ev
evaluate_table-Reports_example =
    evaluate_table-Reports naturals no_store too_many (pos 0) by_service one_measure

abbrev watch : Rule ℕ
watch = record {
  id = codes "r1";
  name = codes "errors";
  query = codes "level:error";
  window = pos 60000000000;
  interval = pos 15000000000;
  cond = too_many;
  severity = warning;
  channels = [];
  enabled = true;
  state = firing;
  state_from = pos 0;
  last_eval = pos 0;
  last_value = 0;
  last_error = [];
}

abbrev calm : Evaluation ℕ
calm = record { at = pos 1; value = 2; firing = false; groups = [] }

abbrev busy : Evaluation ℕ
busy = record { at = pos 2; value = 8; firing = true; groups = [] }

-- A firing whose state the store does not take, and that is sent again.
abbrev rounds : List (Attempt ℕ)
rounds =
    (pos 1, (evaluated calm, true))
    ∷ (pos 2, (evaluated busy, false))
    ∷ (pos 3, (evaluated busy, true))
    ∷ (pos 4, (evaluated busy, true))
    ∷ (pos 5, (evaluated calm, true))
    ∷ []

history-IsAlternating_example : IsAlternating (awaited watch.state) (history watch rounds)
history-IsAlternating_example = history-IsAlternating watch rounds (tt, (tt, (tt, (tt, (tt, tt)))))

-- A resolution whose state the store does not take, and a failed evaluation.
abbrev troubled : List (Attempt ℕ)
troubled =
    (pos 1, (evaluated calm, false))
    ∷ (pos 2, (evaluated calm, true))
    ∷ (pos 3, (evaluated busy, true))
    ∷ (pos 4, (failed [], true))
    ∷ (pos 5, (evaluated calm, true))
    ∷ []

history-Resolves_example : Resolves true (history watch troubled)
history-Resolves_example = history-Resolves watch troubled true (λ _. refl)

abbrev calls : List Request
calls =
    record { id = codes "a"; interval = pos 10; now = pos 0 }
    ∷ record { id = codes "b"; interval = pos 15; now = pos 0 }
    ∷ record { id = codes "a"; interval = pos 10; now = pos 5 }
    ∷ record { id = codes "a"; interval = pos 10; now = pos 12 }
    ∷ []

evaluations-IsSpaced_example : IsSpaced (pos 10) none (evaluations (codes "a") calls [])
evaluations-IsSpaced_example =
    evaluations-IsSpaced (codes "a") (pos 10) calls
      (λ _. refl, (λ h. absurd (grind (arith, h)), (λ _. refl, (λ _. refl, tt))))
