-- ===== src/Alert/Scheduler.antt =====
-- The scheduler (internal/alert/scheduler.go): the rules that are due, the state of a rule, and the
-- notifications. The store is the list of its rules; the answers of its writes and of the deliveries are
-- parameters. A pass of the scheduler is one step.
use omni_logging.Common.{
  Bool, true, false, not, ◌&&◌, ◌||◌, Option, none, some, List, [], ◌∷◌, ◌++◌, if◌then◌else◌, Text,
  same,
}
use omni_logging.Common.Int.{ℤ, ◌+ℤ◌, ltb_ℤ}
use omni_logging.Alert.{State, ok, firing, unknown, Severity, or_default, Condition, Rule, Channel}
use omni_logging.Alert.Evaluate.{GroupHit, Evaluation, Outcome, evaluated, failed}

-- s.next
abbrev pub Slots : Type 0
Slots = List (Text × ℤ)

unfoldable pub find_slot : Text → Slots → Option ℤ
unfolding same
find_slot id [] = none
find_slot id ((j, at) ∷ next) = if same j id then some at else find_slot id next

unfoldable pub put_slot : Text → ℤ → Slots → Slots
unfolding same
put_slot id at [] = (id, at) ∷ []
put_slot id at ((j, t) ∷ next) = if same j id then (j, at) ∷ next else (j, t) ∷ put_slot id at next

unfoldable pub is_early : ℤ → Option ℤ → Bool
is_early now none = false
is_early now (some at) = ltb_ℤ now at

-- `due`, and the slot that it claims.
unfoldable pub due : Text → ℤ → ℤ → Slots → Slots × Bool
unfolding find_slot put_slot is_early
due id interval now next =
    if is_early now (find_slot id next)
    then (next, false)
    else (put_slot id (now +ℤ interval) next, true)

-- The condition and the window are rendered as texts when it is sent.
pub record Notification (F : Type 0) : Type 0 where
  pub rule : Text
  pub rule_id : Text
  pub state : State
  pub severity : Severity
  pub value : F
  pub condition : Condition F
  pub query : Text
  pub window : ℤ
  pub at : ℤ
  pub groups : List (GroupHit F)

unfoldable pub same_state : State → State → Bool
same_state ok ok = true
same_state firing firing = true
same_state unknown unknown = true
same_state _ _ = false

-- A notification is due on the way into firing, and from firing to ok.
unfoldable pub is_transition : State → State → Bool
unfolding same_state
is_transition prev s =
    (same_state s firing && not (same_state prev firing))
    || (same_state s ok && same_state prev firing)

-- A delivery that was tried, and whether it succeeded.
pub record Delivery (F : Type 0) : Type 0 where
  pub channel : Channel
  pub note : Notification F
  pub delivered : Bool

unfoldable pub find_channel : Text → List Channel → Option Channel
unfolding same
find_channel id [] = none
find_channel id (c ∷ cs) = if same c.id id then some c else find_channel id cs

-- The scheduler's table, the rules of the store, and what was sent.
pub record World (F : Type 0) : Type 0 where
  pub next : Slots
  pub rules : List (Rule F)
  pub sent : List (Delivery F)

-- What the surroundings answer during a pass.
pub record PassAnswers (F : Type 0) : Type 0 where
  pub evaluate : Rule F → Outcome F
  pub saved : Rule F → Bool
  pub send : Channel → Notification F → Bool

module _ {F : Type 0} where
  -- The rule behind an evaluation.
  unfoldable pub next_rule : Rule F → ℤ → Outcome F → Rule F
  unfolding same_state
  next_rule r now (failed e) = record r { last_eval = now; state = unknown; last_error = e }
  next_rule r now (evaluated ev) =
      let s = if ev.firing then firing else ok in
      record r {
        last_eval = now;
        last_error = [];
        last_value = ev.value;
        state = s;
        state_from = if same_state s r.state then r.state_from else now;
      }

  unfoldable pub note_of : Rule F → ℤ → Evaluation F → Notification F
  unfolding or_default
  note_of r now ev = record {
    rule = r.name;
    rule_id = r.id;
    state = r.state;
    severity = or_default r.severity;
    value = ev.value;
    condition = r.cond;
    query = r.query;
    window = r.window;
    at = now;
    groups = ev.groups;
  }

  unfoldable pub note_for : Rule F → ℤ → Outcome F → Option (Notification F)
  unfolding next_rule is_transition note_of
  note_for r now (failed e) = none
  note_for r now (evaluated ev) =
      let r' = next_rule r now (evaluated ev) in
      if is_transition r.state r'.state then some (note_of r' now ev) else none

  -- `SaveRuleState` of internal/store/sqlite/alerts.go, where the write succeeds: only the fields of
  -- the scheduler change.
  unfoldable pub save_state : Rule F → List (Rule F) → List (Rule F)
  unfolding same
  save_state r [] = []
  save_state r (x ∷ xs) =
      if same x.id r.id
      then record x {
        state = r.state;
        state_from = r.state_from;
        last_eval = r.last_eval;
        last_value = r.last_value;
        last_error = r.last_error;
      }
        ∷ save_state r xs
      else x ∷ save_state r xs

  unfoldable pub persist : Bool → Rule F → List (Rule F) → List (Rule F)
  unfolding save_state
  persist saved r rules = if saved then save_state r rules else rules

  -- The loop of `dispatch`: a channel that is gone or fails does not stop the others.
  unfoldable pub dispatch :
      (Channel → Notification F → Bool)
      → List Channel
      → Notification F
      → List Text
      → List (Delivery F)
  unfolding find_channel
  dispatch send channels note [] = []
  dispatch send channels note (id ∷ ids) =
      let rest = dispatch send channels note ids in
      elim (find_channel id channels) [
        | none ↦ rest
        | some c ↦ record { channel = c; note = note; delivered = send c note } ∷ rest
      ]

  unfoldable pub deliveries :
      PassAnswers F → List Channel → Rule F → Option (Notification F) → List (Delivery F)
  unfolding dispatch
  deliveries io channels r none = []
  deliveries io channels r (some note) = dispatch io.send channels note r.channels

  -- `evaluateAndNotify`.
  unfoldable pub evaluate_and_notify : PassAnswers F → List Channel → ℤ → Rule F → World F → World F
  unfolding next_rule note_for persist deliveries
  evaluate_and_notify io channels now r w =
      let outcome = io.evaluate r in
      let r' = next_rule r now outcome in
      record w {
        rules = persist (io.saved r') r' w.rules;
        sent = w.sent ++ deliveries io channels r' (note_for r now outcome);
      }

  unfoldable pub visit_rule : PassAnswers F → List Channel → ℤ → Rule F → World F → World F
  unfolding due evaluate_and_notify
  visit_rule io channels now r w =
      if not r.enabled
      then w
      else (let (next', is_due) = due r.id r.interval now w.next in
          let claimed = record w { next = next' } in
          if is_due then evaluate_and_notify io channels now r claimed else claimed)

  unfoldable pub visit_rules : PassAnswers F → List Channel → ℤ → List (Rule F) → World F → World F
  unfolding visit_rule
  visit_rules io channels now [] w = w
  visit_rules io channels now (r ∷ rs) w =
      visit_rules io channels now rs (visit_rule io channels now r w)

  -- `RunDue`: `none` is a listing that failed.
  unfoldable pub run_due : PassAnswers F → Bool → Option (List Channel) → ℤ → World F → World F
  unfolding visit_rules
  run_due io listed none now w = w
  run_due io listed (some channels) now w =
      if listed then visit_rules io channels now w.rules w else w
