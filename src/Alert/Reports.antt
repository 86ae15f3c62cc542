-- ===== src/Alert/Reports.antt =====
-- What `evaluateAggregation` of internal/alert/evaluate.go reports of a table.
use omni_logging.Common.{
  ℕ, ◌<◌, ◌≡◌, refl, sym, ◌∙◌, inl, inr, true, false, List, [], if◌then◌else◌, Bool-cases, arith,
  leb, length,
}
use omni_logging.Common.Int.{ℤ}
use omni_logging.Alert.{Measures, Condition, matches}
use omni_logging.Alert.Evaluate.{
  Table, Evaluation, evaluated, Runner, Scan, scan_rows, nothing_seen, conclude, evaluate_table,
}
use omni_logging.Alert.Extremes.{
  Measured, measured_rows, hits, is_some, IsExtreme, Scanned, Scanned-rows,
}

module _ {F : Type 0} (m : Measures F) where
  -- What an evaluation reports of the measured rows.
  pub record Reports (c : Condition F) (now : ℤ) (vs : List (Measured F)) (ev : Evaluation F)
      : Type 0 where
    pub at : ev.at ≡ now
    pub groups : ev.groups ≡ hits m c vs
    pub firing : ev.firing ≡ (if is_some vs then is_some (hits m c vs) else matches m c m.zero)
    pub extreme : is_some vs ≡ true → IsExtreme m c vs ev.value
    pub empty : is_some vs ≡ false → ev.value ≡ m.zero

  conclude-Reports :
      (c : Condition F) (now : ℤ) (vs : List (Measured F)) (s : Scan F)
      → Scanned m c vs s
      → Reports c now vs (conclude m c now s)
  unfolding conclude
  conclude-Reports c now vs s h = elim (Bool-cases s.seen) [
    | inl e ↦
        let k : is_some vs ≡ true = sym h.seen ∙ e in
        rw e (record {
          at = refl;
          groups = h.groups;
          firing = rw k h.firing;
          extreme = λ _. h.extreme e;
          empty = λ n. absurd (grind (arith, n, k));
        })
    | inr e ↦
        let k : is_some vs ≡ false = sym h.seen ∙ e in
        rw e (record {
          at = refl;
          groups = h.groups;
          firing = rw k refl;
          extreme = λ n. absurd (grind (arith, n, k));
          empty = λ _. refl;
        })
  ]

  Scanned-nothing : (c : Condition F) → Scanned m c [] (nothing_seen m)
  Scanned-nothing c = record {
    seen = refl;
    groups = refl;
    firing = refl;
    extreme = λ h. absurd (grind (arith, h));
  }

  leb_not : (a b : ℕ) → b < a → leb a b ≡ false
  leb_not a b h = ground arith

  -- An aggregation with a measure column is evaluated to this report of its measured rows, the rows whose
  -- cell in that column is a number: the groups are the rows that meet the condition, in order; the rule
  -- fires if there is one; and the value is one of the measured values that no other exceeds in the
  -- direction of the condition. Without a measured row the value is zero, and the rule fires if zero meets
  -- the condition.
  pub evaluate_table-Reports :
      (r : Runner F) (c : Condition F) (now : ℤ) (t : Table F)
      → t.group_columns < length t.columns
      → (ev : Evaluation F) × (evaluate_table m r c now t ≡ evaluated ev)
        × Reports c now (measured_rows m r.show t.group_columns t.columns t.rows) ev
  unfolding evaluate_table
  evaluate_table-Reports r c now t h = (
    conclude m c now (scan_rows m r.show c t.group_columns t.columns t.rows (nothing_seen m)),
    rw (leb_not (length t.columns) t.group_columns h) refl,
    conclude-Reports c now _ _ (
        Scanned-rows m r.show c t.group_columns t.columns t.rows [] (nothing_seen m)
          (Scanned-nothing c)),
  )
