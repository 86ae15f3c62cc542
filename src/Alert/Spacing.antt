-- ===== src/Alert/Spacing.antt =====
-- The times between the evaluations of a rule: `due` of internal/alert/scheduler.go.
use omni_logging.Common.{
  Bool, false, ◌&&◌, ◌≡◌, ◌≢◌, refl, sym, ap, ◌∙◌, Option, none, some, List, [], ◌∷◌, if◌then◌else◌,
  if-elim, Bool-cases, inl, inr, subst, arith, Text, same, same_iff, All,
}
use omni_logging.Common.Int.{ℤ, ◌+ℤ◌, ◌≤ℤ◌}
use omni_logging.Alert.Scheduler.{Slots, find_slot, put_slot, is_early, due}

-- A call of `due`: a rule's ID, its interval and the time.
pub record Request : Type 0 where
  pub id : Text
  pub interval : ℤ
  pub now : ℤ

-- The times at which a rule is evaluated over a run of calls.
abbrev pub evaluations : Text → List Request → Slots → List ℤ
evaluations id [] next = []
evaluations id (q ∷ qs) next =
    let rest = evaluations id qs (due q.id q.interval q.now next).0 in
    if (due q.id q.interval q.now next).1 && same q.id id then q.now ∷ rest else rest

abbrev pub NotBefore : Option ℤ → ℤ → Type 0
NotBefore none t = Unit
NotBefore (some at) t = at ≤ℤ t

-- Times from `at` on, each at least `d` behind the one before.
abbrev pub IsSpaced : ℤ → Option ℤ → List ℤ → Type 0
IsSpaced d at [] = Unit
IsSpaced d at (t ∷ ts) = NotBefore at t × IsSpaced d (some (t +ℤ d)) ts

find_slot-put_self :
    (id : Text) (at : ℤ) (next : Slots) → find_slot id (put_slot id at next) ≡ some at
unfolding find_slot put_slot
find_slot-put_self id at [] = rw (same_iff id id).1 refl
find_slot-put_self id at ((j, t) ∷ next) = elim (Bool-cases (same j id)) [
  | inl e ↦ rw (e, e)
  | inr e ↦ rw (e, e) (find_slot-put_self id at next)
]

find_slot-put_ne :
    (id j : Text) (at : ℤ) (next : Slots)
    → id ≢ j
    → find_slot j (put_slot id at next) ≡ find_slot j next
unfolding find_slot put_slot
find_slot-put_ne id j at [] h = ground (arith, same_iff id j)
find_slot-put_ne id j at ((k, t) ∷ next) h =
    ground (arith, same_iff id j, same_iff k id, same_iff k j, find_slot-put_ne id j at next h)

is_early_not : (now : ℤ) (o : Option ℤ) → is_early now o ≡ false → NotBefore o now
unfolding is_early
is_early_not now none h = tt
is_early_not now (some at) h = ground arith

evaluations-IsSpaced_from :
    (id : Text) (d : ℤ) (qs : List Request) (next : Slots)
    → All (λ (q : Request). q.id ≡ id → q.interval ≡ d) qs
    → IsSpaced d (find_slot id next) (evaluations id qs next)
unfolding due
evaluations-IsSpaced_from id d [] next _ = tt
evaluations-IsSpaced_from id d (q ∷ qs) next (h, hs) =
    let later = λ (n : Slots). evaluations-IsSpaced_from id d qs n hs in
    if-elim
      (λ (r : Slots × Bool).
        IsSpaced d (find_slot id next)
          (if r.1 && same q.id id then q.now ∷ evaluations id qs r.0 else evaluations id qs r.0))
      (is_early q.now (find_slot q.id next)) (λ _. later next)
      (λ due_now. elim (Bool-cases (same q.id id)) [
        | inl s ↦
            let w : q.id ≡ id = (same_iff q.id id).0 s in
            rw s (
              subst (λ j. NotBefore (find_slot j next) q.now) w
                  (is_early_not q.now (find_slot q.id next) due_now),
              subst
                  (λ o. IsSpaced d o (evaluations id qs (put_slot q.id (q.now +ℤ q.interval) next)))
                  ((λ i. find_slot (sym w i) (put_slot q.id (q.now +ℤ q.interval) next))
                    ∙ find_slot-put_self q.id (q.now +ℤ q.interval) next
                    ∙ ap (λ x. some (q.now +ℤ x)) (h w))
                  (later (put_slot q.id (q.now +ℤ q.interval) next)),
            )
        | inr s ↦ rw s (
            subst (λ o. IsSpaced d o (evaluations id qs (put_slot q.id (q.now +ℤ q.interval) next)))
              (find_slot-put_ne q.id id (q.now +ℤ q.interval) next
                (λ w. absurd (grind (arith, w, s, (same_iff q.id id).1 w))))
              (later (put_slot q.id (q.now +ℤ q.interval) next)))
      ])

-- Over any run of calls for rules with any IDs, the evaluations of a rule whose interval does not change
-- are at least that interval apart.
pub evaluations-IsSpaced :
    (id : Text) (d : ℤ) (qs : List Request)
    → All (λ (q : Request). q.id ≡ id → q.interval ≡ d) qs
    → IsSpaced d none (evaluations id qs [])
unfolding find_slot
evaluations-IsSpaced id d qs h = evaluations-IsSpaced_from id d qs [] h
