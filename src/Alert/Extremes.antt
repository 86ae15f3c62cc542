-- ===== src/Alert/Extremes.antt =====
-- What an evaluation of a table reports: `evaluateAggregation` of internal/alert/evaluate.go against a
-- description that has no loop.
use omni_logging.Common.{
  ℕ, ◌≡◌, refl, sym, ap, subst, ◌∙◌, inl, inr, Bool, true, false, not, ◌||◌, Option, none, some,
  List, [], ◌∷◌, ◌++◌, append-nil, append_assoc, map, if◌then◌else◌, if-elim, Bool-cases,
  Option-cases, arith, Text, keep, All, All-append, All-map, Any, Any-append_left, Any-append_right,
}
use omni_logging.Alert.{
  CompareOp, gt, gte, lt, lte, eq, ne, unknown_op, Measures, Condition, matches,
}
use omni_logging.Alert.Evaluate.{
  Cell, GroupHit, Scan, more_extreme, see, labels_for, measure_of, scan_rows,
}

-- A measured row: its labels and its value.
abbrev pub Measured : Type 0 → Type 0
Measured F = List (Text × Text) × F

abbrev pub some_first : {A : Type 0} → Option A → List A → List A
some_first none xs = xs
some_first (some x) xs = x ∷ xs

abbrev pub is_some : {A : Type 0} → List A → Bool
is_some [] = false
is_some (x ∷ xs) = true

module _ {F : Type 0} (m : Measures F) where
  -- The rows with a measure, in order.
  unfoldable pub measured_rows :
      (Cell F → Text) → ℕ → List Text → List (List (Cell F)) → List (Measured F)
  unfolding measure_of labels_for
  measured_rows show at cols [] = []
  measured_rows show at cols (row ∷ rows) =
      some_first
        (elim (measure_of m at row) [
          | none ↦ none
          | some v ↦ some (labels_for show at cols row, v)
        ])
        (measured_rows show at cols rows)

  abbrev pub meets : Condition F → Measured F → Bool
  meets c (labels, v) = matches m c v

  abbrev pub hit : Measured F → GroupHit F
  hit (labels, v) = record { labels = labels; value = v }

  -- What the condition holds of.
  abbrev pub hits : Condition F → List (Measured F) → List (GroupHit F)
  hits c vs = map hit (keep (meets c) vs)

  -- `best` is one of the values, and none is further in the direction of the condition.
  pub record IsExtreme (c : Condition F) (vs : List (Measured F)) (best : F) : Type 0 where
    pub among : Any (λ (v : Measured F). v.1 ≡ best) vs
    pub beyond : All (λ (v : Measured F). more_extreme m c.op v.1 best ≡ false) vs

  -- What is known when the rows `vs` are scanned.
  pub record Scanned (c : Condition F) (vs : List (Measured F)) (s : Scan F) : Type 0 where
    pub seen : s.seen ≡ is_some vs
    pub groups : s.groups ≡ hits c vs
    pub firing : s.firing ≡ is_some (hits c vs)
    pub extreme : s.seen ≡ true → IsExtreme c vs s.value

  more_extreme_irrefl : (op : CompareOp) (x : F) → more_extreme m op x x ≡ false
  unfolding more_extreme
  more_extreme_irrefl gt x = m.lt_irrefl x
  more_extreme_irrefl gte x = m.lt_irrefl x
  more_extreme_irrefl ne x = m.lt_irrefl x
  more_extreme_irrefl lt x = m.lt_irrefl x
  more_extreme_irrefl lte x = m.lt_irrefl x
  more_extreme_irrefl eq x = refl
  more_extreme_irrefl unknown_op x = refl

  -- What a value does not exceed, a more extreme one does not either.
  more_extreme_mono :
      (op : CompareOp) (x old new : F)
      → more_extreme m op new old ≡ true
      → more_extreme m op x old ≡ false
      → more_extreme m op x new ≡ false
  unfolding more_extreme
  more_extreme_mono gt x old new h k = ground (arith, m.lt_trans old new x)
  more_extreme_mono gte x old new h k = ground (arith, m.lt_trans old new x)
  more_extreme_mono ne x old new h k = ground (arith, m.lt_trans old new x)
  more_extreme_mono lt x old new h k = ground (arith, m.lt_trans x new old)
  more_extreme_mono lte x old new h k = ground (arith, m.lt_trans x new old)
  more_extreme_mono eq x old new h k = refl
  more_extreme_mono unknown_op x old new h k = refl

  more_extreme-step :
      (c : Condition F) (vs : List (Measured F)) (old new : F)
      → more_extreme m c.op new old ≡ true
      → All (λ (v : Measured F). more_extreme m c.op v.1 old ≡ false) vs
      → All (λ (v : Measured F). more_extreme m c.op v.1 new ≡ false) vs
  more_extreme-step c vs old new h = All-map vs (λ v k. more_extreme_mono c.op v.1 old new h k)

  is_some-snoc : {A : Type 0} (xs : List A) (x : A) → is_some (xs ++ x ∷ []) ≡ true
  is_some-snoc [] x = refl
  is_some-snoc (y ∷ xs) x = refl

  hits-snoc :
      (c : Condition F) (vs : List (Measured F)) (l : List (Text × Text)) (v : F)
      → hits c (vs ++ (l, v) ∷ [])
        ≡ hits c vs ++ (if matches m c v then record { labels = l; value = v } ∷ [] else [])
  hits-snoc c [] l v = ground arith
  hits-snoc c (w ∷ vs) l v = ground (arith, hits-snoc c vs l v)

  IsExtreme-new :
      (c : Condition F) (vs : List (Measured F)) (l : List (Text × Text)) (v : F)
      → All (λ (w : Measured F). more_extreme m c.op w.1 v ≡ false) vs
      → IsExtreme c (vs ++ (l, v) ∷ []) v
  IsExtreme-new c vs l v h = record {
    among = Any-append_right _ vs ((l, v) ∷ []) (inl refl);
    beyond = All-append _ vs ((l, v) ∷ []) h (more_extreme_irrefl c.op v, tt);
  }

  is_some-none : {A : Type 0} (P : A → Type 0) (xs : List A) → is_some xs ≡ false → All P xs
  is_some-none P [] h = tt
  is_some-none P (x ∷ xs) h = absurd (grind (arith, h))

  -- The value of a scan behind one more row.
  IsExtreme-see :
      (c : Condition F) (vs : List (Measured F)) (l : List (Text × Text)) (v : F) (s : Scan F)
      → Scanned c vs s
      → IsExtreme c
          (vs ++ (l, v) ∷ [])
          (if not s.seen || more_extreme m c.op v s.value then v else s.value)
  IsExtreme-see c vs l v s h = elim (Bool-cases s.seen) [
    | inr e ↦ rw e (IsExtreme-new c vs l v (is_some-none _ vs (sym h.seen ∙ e)))
    | inl e ↦ rw e (
        if-elim (IsExtreme c (vs ++ (l, v) ∷ [])) (more_extreme m c.op v s.value)
          (λ k. IsExtreme-new c vs l v (more_extreme-step c vs s.value v k (h.extreme e).beyond))
          (λ k. record {
            among = Any-append_left _ vs ((l, v) ∷ []) (h.extreme e).among;
            beyond = All-append _ vs ((l, v) ∷ []) (h.extreme e).beyond (k, tt);
          }))
  ]

  see-seen :
      (c : Condition F) (l : List (Text × Text)) (v : F) (s : Scan F) → (see m c l v s).seen ≡ true
  unfolding see
  see-seen c l v s = ground arith

  see-groups :
      (c : Condition F) (l : List (Text × Text)) (v : F) (s : Scan F)
      → (see m c l v s).groups
        ≡ s.groups ++ (if matches m c v then record { labels = l; value = v } ∷ [] else [])
  unfolding see
  see-groups c l v s = ground (arith, append-nil s.groups)

  see-firing :
      (c : Condition F) (l : List (Text × Text)) (v : F) (s : Scan F)
      → (see m c l v s).firing ≡ (if matches m c v then true else s.firing)
  unfolding see
  see-firing c l v s = ground arith

  see-value :
      (c : Condition F) (l : List (Text × Text)) (v : F) (s : Scan F)
      → (see m c l v s).value ≡ (if not s.seen || more_extreme m c.op v s.value then v else s.value)
  unfolding see
  see-value c l v s = ground arith

  firing-snoc :
      (b f : Bool) (xs : List (GroupHit F)) (x : GroupHit F)
      → f ≡ is_some xs
      → (if b then true else f) ≡ is_some (xs ++ (if b then x ∷ [] else []))
  firing-snoc true f xs x h = sym (is_some-snoc xs x)
  firing-snoc false f xs x h = h ∙ ap is_some (sym (append-nil xs))

  Scanned-see :
      (c : Condition F) (vs : List (Measured F)) (l : List (Text × Text)) (v : F) (s : Scan F)
      → Scanned c vs s
      → Scanned c (vs ++ (l, v) ∷ []) (see m c l v s)
  Scanned-see c vs l v s h = record {
    seen = see-seen c l v s ∙ sym (is_some-snoc vs (l, v));
    groups =
        see-groups c l v s
        ∙ ap (λ g. g ++ (if matches m c v then record { labels = l; value = v } ∷ [] else []))
            h.groups
        ∙ sym (hits-snoc c vs l v);
    firing =
        see-firing c l v s
        ∙ firing-snoc (matches m c v) s.firing (hits c vs) (record { labels = l; value = v })
            h.firing
        ∙ ap is_some (sym (hits-snoc c vs l v));
    extreme = λ _.
        subst (IsExtreme c (vs ++ (l, v) ∷ [])) (sym (see-value c l v s))
          (IsExtreme-see c vs l v s h);
  }

  pub Scanned-rows :
      (show : Cell F → Text) (c : Condition F) (at : ℕ) (cols : List Text)
      (rows : List (List (Cell F))) (vs : List (Measured F)) (s : Scan F)
      → Scanned c vs s
      → Scanned c (vs ++ measured_rows show at cols rows) (scan_rows m show c at cols rows s)
  unfolding scan_rows measured_rows
  Scanned-rows show c at cols [] vs s h = subst (λ ws. Scanned c ws s) (sym (append-nil vs)) h
  Scanned-rows show c at cols (row ∷ rows) vs s h = elim (Option-cases (measure_of m at row)) [
    | inl e ↦ rw e (Scanned-rows show c at cols rows vs s h)
    | inr (v, e) ↦ rw e (
        subst
          (λ ws.
            Scanned c ws
              (scan_rows m show c at cols rows (see m c (labels_for show at cols row) v s)))
          (append_assoc vs ((labels_for show at cols row, v) ∷ [])
            (measured_rows show at cols rows))
          (Scanned-rows show c at cols rows (vs ++ (labels_for show at cols row, v) ∷ [])
            (see m c (labels_for show at cols row) v s)
            (Scanned-see c vs (labels_for show at cols row) v s h)))
  ]
