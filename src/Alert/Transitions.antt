-- ===== src/Alert/Transitions.antt =====
-- The notifications of one rule over its rounds (internal/alert/scheduler.go): each round reads the
-- rule from the store, evaluates it, and saves its state, if the store takes it.
use omni_logging.Common.{
  Bool, true, false, not, ◌&&◌, ◌||◌, ◌≡◌, refl, sym, subst, ◌⊎◌, inl, inr, Option, none, some,
  List, [], ◌∷◌, if◌then◌else◌, Text, All, ap, ◌∙◌, same_iff,
}
use omni_logging.Common.Int.{ℤ}
use omni_logging.Alert.{State, ok, firing, unknown, Rule, Channel}
use omni_logging.Alert.Evaluate.{Evaluation, Outcome, evaluated, failed}
use omni_logging.Alert.Scheduler.{
  Notification, same_state, next_rule, is_transition, note_of, note_for, persist, save_state,
  PassAnswers, World, evaluate_and_notify,
}

-- A round of a rule: the time, how its evaluation ends, and whether `SaveRuleState` succeeds.
abbrev pub Attempt : Type 0 → Type 0
Attempt F = ℤ × (Outcome F × Bool)

-- A notification, and whether the state that it reports was saved.
abbrev pub Sent : Type 0 → Type 0
Sent F = Notification F × Bool

-- What is sent in order, one notification or none at a time.
abbrev collect : {F : Type 0} → Option (Notification F) → Bool → List (Sent F) → List (Sent F)
collect none saved ns = ns
collect (some n) saved ns = (n, saved) ∷ ns

-- The rule as the store holds it behind a round: the old one where its state could not be saved.
abbrev pub stored_after : {F : Type 0} → Rule F → Attempt F → Rule F
stored_after r (now, (o, saved)) = if saved then next_rule r now o else r

abbrev pub history : {F : Type 0} → Rule F → List (Attempt F) → List (Sent F)
history r [] = []
history r ((now, (o, saved)) ∷ ts) =
    collect (note_for r now o) saved (history (stored_after r (now, (o, saved))) ts)

-- A pass of the scheduler leaves that rule in a store of one rule.
persist-stored_after :
    {F : Type 0} (r : Rule F) (now : ℤ) (o : Outcome F) (saved : Bool)
    → persist saved (next_rule r now o) (r ∷ []) ≡ stored_after r (now, (o, saved)) ∷ []
unfolding persist save_state next_rule
persist-stored_after r now (failed e) true = rw ((same_iff r.id r.id).1 refl) refl
persist-stored_after r now (evaluated ev) true = rw ((same_iff r.id r.id).1 refl) refl
persist-stored_after r now o false = refl

pub evaluate_and_notify-stored :
    {F : Type 0} (io : PassAnswers F) (channels : List Channel) (now : ℤ) (r : Rule F) (w : World F)
    → w.rules ≡ r ∷ []
    → (evaluate_and_notify io channels now r w).rules
      ≡ stored_after r (now, (io.evaluate r, io.saved (next_rule r now (io.evaluate r)))) ∷ []
unfolding evaluate_and_notify
evaluate_and_notify-stored io channels now r w one =
    let next = next_rule r now (io.evaluate r) in
    ap (persist (io.saved next) next) one
    ∙ persist-stored_after r now (io.evaluate r) (io.saved next)

abbrev pub IsEvaluated : {F : Type 0} → Attempt F → Type 0
IsEvaluated (now, (evaluated ev, saved)) = Unit
IsEvaluated (now, (failed e, saved)) = ⊥

-- The state that the next notification of a rule reports.
abbrev pub awaited : State → State
awaited firing = ok
awaited _ = firing

-- Firing and ok in turn, beginning with a given one. A notification whose state was not saved does not
-- count: the next one reports the same state again.
abbrev pub IsAlternating : {F : Type 0} → State → List (Sent F) → Type 0
IsAlternating s [] = Unit
IsAlternating s ((n, saved) ∷ ns) =
    (n.state ≡ s) × IsAlternating (if saved then awaited s else s) ns

IsAlternating-step :
    {F : Type 0} (prev : State) (f saved : Bool) (n : Notification F) (ns : List (Sent F))
    → n.state ≡ (if f then firing else ok)
    → IsAlternating (awaited (if saved then (if f then firing else ok) else prev)) ns
    → IsAlternating
        (awaited prev)
        (collect (if is_transition prev (if f then firing else ok) then some n else none) saved ns)
unfolding is_transition same_state
IsAlternating-step ok true true n ns e h = (e, h)
IsAlternating-step ok true false n ns e h = (e, h)
IsAlternating-step ok false true n ns e h = h
IsAlternating-step ok false false n ns e h = h
IsAlternating-step firing true true n ns e h = h
IsAlternating-step firing true false n ns e h = h
IsAlternating-step firing false true n ns e h = (e, h)
IsAlternating-step firing false false n ns e h = (e, h)
IsAlternating-step unknown true true n ns e h = (e, h)
IsAlternating-step unknown true false n ns e h = (e, h)
IsAlternating-step unknown false true n ns e h = h
IsAlternating-step unknown false false n ns e h = h

state_after :
    {F : Type 0} (r : Rule F) (now : ℤ) (ev : Evaluation F) (saved : Bool)
    → (stored_after r (now, (evaluated ev, saved))).state
      ≡ (if saved then (if ev.firing then firing else ok) else r.state)
unfolding next_rule
state_after r now ev true = refl
state_after r now ev false = refl

-- As long as no evaluation of a rule fails, its notifications report firing and ok in turn, beginning
-- with firing unless the rule is firing already, whatever the evaluations are; only a notification
-- whose state could not be saved is followed by one that reports the same state again.
pub history-IsAlternating :
    {F : Type 0} (r : Rule F) (ts : List (Attempt F))
    → All IsEvaluated ts
    → IsAlternating (awaited r.state) (history r ts)
unfolding note_for next_rule note_of
history-IsAlternating r [] _ = tt
history-IsAlternating r ((now, (failed e, saved)) ∷ ts) (h, hs) = absurd h
history-IsAlternating r ((now, (evaluated ev, saved)) ∷ ts) (h, hs) =
    let rest = stored_after r (now, (evaluated ev, saved)) in
    IsAlternating-step r.state ev.firing saved _ _ refl (
      subst (λ s. IsAlternating (awaited s) (history rest ts)) (state_after r now ev saved)
        (history-IsAlternating rest ts hs))

-- A resolution is sent only where a notification that the rule fires, or that it was firing at the
-- start, still holds: a firing state that is saved holds, and so does one that was held before; a
-- resolution whose state is saved ends it.
abbrev pub Resolves : {F : Type 0} → Bool → List (Sent F) → Type 0
Resolves fired [] = Unit
Resolves fired ((n, saved) ∷ ns) =
    ((n.state ≡ firing) × Resolves (saved || fired) ns)
    ⊎ ((n.state ≡ ok) × (fired ≡ true) × Resolves (not saved && fired) ns)

Resolves-step :
    {F : Type 0} (prev : State) (f saved : Bool) (n : Notification F) (ns : List (Sent F))
    (fired : Bool)
    → n.state ≡ (if f then firing else ok)
    → (prev ≡ firing → fired ≡ true)
    → ((b : Bool)
        → ((if saved then (if f then firing else ok) else prev) ≡ firing → b ≡ true)
        → Resolves b ns)
    → Resolves fired
        (collect (if is_transition prev (if f then firing else ok) then some n else none) saved ns)
unfolding is_transition same_state
Resolves-step ok true true n ns fired e armed h = inl (e, h true (λ _. refl))
Resolves-step ok true false n ns fired e armed h = inl (e, h fired armed)
Resolves-step ok false true n ns fired e armed h = h fired armed
Resolves-step ok false false n ns fired e armed h = h fired armed
Resolves-step firing true true n ns fired e armed h = h fired armed
Resolves-step firing true false n ns fired e armed h = h fired armed
Resolves-step firing false true n ns fired e armed h = inr (e, armed refl, h false (λ x. cc))
Resolves-step firing false false n ns fired e armed h = inr (e, armed refl, h fired armed)
Resolves-step unknown true true n ns fired e armed h = inl (e, h true (λ _. refl))
Resolves-step unknown true false n ns fired e armed h = inl (e, h fired armed)
Resolves-step unknown false true n ns fired e armed h = h fired (λ x. cc)
Resolves-step unknown false false n ns fired e armed h = h fired (λ x. cc)

-- Over any rounds of a rule, failed evaluations and failed saves included, a resolution is sent only
-- behind a notification that the rule fires, whose state was saved, or of a rule that was firing at
-- the start, with no resolution between them whose state was saved.
pub history-Resolves :
    {F : Type 0} (r : Rule F) (ts : List (Attempt F)) (fired : Bool)
    → (r.state ≡ firing → fired ≡ true)
    → Resolves fired (history r ts)
unfolding note_for next_rule note_of
history-Resolves r [] fired armed = tt
history-Resolves r ((now, (failed e, true)) ∷ ts) fired armed =
    history-Resolves (next_rule r now (failed e)) ts fired (λ x. cc)
history-Resolves r ((now, (failed e, false)) ∷ ts) fired armed = history-Resolves r ts fired armed
history-Resolves r ((now, (evaluated ev, saved)) ∷ ts) fired armed =
    let rest = stored_after r (now, (evaluated ev, saved)) in
    Resolves-step r.state ev.firing saved _ _ fired refl armed (λ b h.
      history-Resolves rest ts b
        (subst (λ s. s ≡ firing → b ≡ true) (sym (state_after r now ev saved)) h))

-- A rule that fires, cannot be evaluated once, and is well again sends nothing.
pub failed_hides_resolution :
    {F : Type 0} (r : Rule F) (now later : ℤ) (e : Text) (ev : Evaluation F)
    → ev.firing ≡ false
    → history r ((now, (failed e, true)) ∷ (later, (evaluated ev, true)) ∷ []) ≡ []
unfolding note_for next_rule is_transition same_state
failed_hides_resolution r now later e ev h = rw h refl
