-- ===== src/Admission/Fairness.antt =====
-- What the limits of internal/admission/admission.go guarantee to each key.
use omni_logging.Common.{
  ℕ, ◌+◌, ◌≡◌, ◌≢◌, refl, sym, ◌∙◌, inl, inr, false, Option, some, List, [], ◌∷◌, arith,
  if◌then◌else◌, if-elim, Bool-cases, Text, same, same_iff, All,
}
use omni_logging.Common.Float64.{Floats}
use omni_logging.Admission.{
  Limits, Decision, allowed, rate, bytes_quota, events_quota, KeyState, Limiter, find, put, rated,
  enabled_locked, start_state, refill, roll_over, state_locked, decide, spend, allow, record_usage,
}

find-put_ne :
    {F : Type 0} (key other : Text) (st : KeyState F) (m : List (Text × KeyState F))
    → key ≢ other
    → find other (put key st m) ≡ find other m
unfolding find put
find-put_ne key other st [] h = ground (arith, same_iff key other)
find-put_ne key other st ((k, old) ∷ m) h =
    ground
      (arith, same_iff key other, same_iff k key, same_iff k other, find-put_ne key other st m h)

pub find-put_self :
    {F : Type 0} (key : Text) (st : KeyState F) (m : List (Text × KeyState F))
    → find key (put key st m) ≡ some st
unfolding find put
find-put_self key st [] = rw (same_iff key key).1 refl
find-put_self key st ((k, old) ∷ m) = elim (Bool-cases (same k key)) [
  | inl e ↦ rw (e, e)
  | inr e ↦ rw (e, e) (find-put_self key st m)
]

module _ {F : Type 0} (fl : Floats F) where
  -- What a call does to the limiter's keys: one of them changes.
  allow-find_ne :
      (now : ℕ) (key other : Text) (bytes : ℕ) (lim : Limiter F)
      → key ≢ other
      → find other (allow fl now key bytes lim).0.keys ≡ find other lim.keys
  unfolding allow
  allow-find_ne now key other bytes lim h =
      if-elim (λ (r : Limiter F × Decision). find other r.0.keys ≡ find other lim.keys)
        (enabled_locked fl lim) (λ _. find-put_ne key other _ lim.keys h) (λ _. refl)

  allow-burst :
      (now : ℕ) (key : Text) (bytes : ℕ) (lim : Limiter F)
      → ((allow fl now key bytes lim).0.limits ≡ lim.limits)
        × ((allow fl now key bytes lim).0.burst ≡ lim.burst)
  unfolding allow
  allow-burst now key bytes lim =
      if-elim (λ (r : Limiter F × Decision). (r.0.limits ≡ lim.limits) × (r.0.burst ≡ lim.burst))
        (enabled_locked fl lim) (λ _. (refl, refl)) (λ _. (refl, refl))

  -- The decision over the limits, the bucket's capacity and what is known of the key.
  decision_of : ℕ → ℕ → Limits F → F → Option (KeyState F) → Decision
  decision_of now bytes l b o =
      let lim : Limiter F = record { limits = l; burst = b; keys = [] } in
      if enabled_locked fl lim
      then decide fl lim (roll_over fl now (refill fl now lim (start_state fl now b o))) bytes
      else allowed

  allow-decision_of :
      (now : ℕ) (key : Text) (bytes : ℕ) (lim : Limiter F)
      → (allow fl now key bytes lim).1
        ≡ decision_of now bytes lim.limits lim.burst (find key lim.keys)
  unfolding allow decision_of enabled_locked state_locked decide
  allow-decision_of now key bytes lim = elim (Bool-cases (enabled_locked fl lim)) [
    | inl e ↦ rw e
    | inr e ↦ rw e
  ]

  -- A request of one key does not change the decision on a request of another.
  pub allow_independent :
      (now later : ℕ) (key other : Text) (bytes more : ℕ) (lim : Limiter F)
      → key ≢ other
      → (allow fl later other more (allow fl now key bytes lim).0).1
        ≡ (allow fl later other more lim).1
  allow_independent now later key other bytes more lim h =
      let after : Limiter F = (allow fl now key bytes lim).0 in
      let same_limits = allow-burst now key bytes lim in
      allow-decision_of later other more after
      ∙ (λ i.
          decision_of later more (same_limits.0 i) (same_limits.1 i)
            (allow-find_ne now key other bytes lim h i))
      ∙ sym (allow-decision_of later other more lim)

  -- No bucket holds more than its capacity.
  abbrev pub Bucketed : F → Text × KeyState F → Type 0
  Bucketed b (k, st) = fl.lt b st.tokens ≡ false

  abbrev pub IsBounded : Limiter F → Type 0
  IsBounded lim = All (Bucketed lim.burst) lim.keys

  All-put :
      (b : F) (key : Text) (st : KeyState F) (m : List (Text × KeyState F))
      → fl.lt b st.tokens ≡ false
      → All (Bucketed b) m
      → All (Bucketed b) (put key st m)
  unfolding put
  All-put b key st [] h _ = (h, tt)
  All-put b key st ((k, old) ∷ m) h (o, os) =
      if-elim (λ x. All (Bucketed b) x) (same k key) (λ _. (h, os))
        (λ _. (o, All-put b key st m h os))

  find-Bucketed :
      (now : ℕ) (b : F) (key : Text) (m : List (Text × KeyState F))
      → All (Bucketed b) m
      → fl.lt b (start_state fl now b (find key m)).tokens ≡ false
  unfolding find start_state
  find-Bucketed now b key [] _ = fl.lt_irrefl b
  find-Bucketed now b key ((k, st) ∷ m) (h, hs) =
      if-elim (λ (o : Option (KeyState F)). fl.lt b (start_state fl now b o).tokens ≡ false)
        (same k key) (λ _. h) (λ _. find-Bucketed now b key m hs)

  state_locked-Bucketed :
      (now : ℕ) (key : Text) (lim : Limiter F)
      → IsBounded lim
      → fl.lt lim.burst (state_locked fl now key lim).tokens ≡ false
  unfolding state_locked roll_over refill
  state_locked-Bucketed now key lim h =
      let start = find-Bucketed now lim.burst key lim.keys h in
      ground (arith, start, fl.lt_irrefl lim.burst)

  spend-Bucketed :
      (lim : Limiter F) (d : Decision) (st : KeyState F)
      → fl.lt lim.burst st.tokens ≡ false
      → fl.lt lim.burst (spend fl lim d st).tokens ≡ false
  unfolding spend
  spend-Bucketed lim allowed st h =
      if-elim (λ (x : KeyState F). fl.lt lim.burst x.tokens ≡ false) (rated fl lim)
        (λ _. fl.sub_one_le lim.burst st.tokens h) (λ _. h)
  spend-Bucketed lim rate st h = h
  spend-Bucketed lim bytes_quota st h = h
  spend-Bucketed lim events_quota st h = h

  -- Where no bucket holds more than its capacity, neither a request nor its record fills one above it.
  pub IsBounded-step :
      (now : ℕ) (key : Text) (events bytes : ℕ) (lim : Limiter F)
      → IsBounded lim
      → IsBounded (allow fl now key bytes lim).0
        × IsBounded (record_usage fl now key events bytes lim)
  unfolding allow record_usage
  IsBounded-step now key events bytes lim h =
      let st = state_locked fl now key lim in
      let full = state_locked-Bucketed now key lim h in
      (
        if-elim (λ (r : Limiter F × Decision). IsBounded r.0) (enabled_locked fl lim)
            (λ _.
              All-put lim.burst key (spend fl lim (decide fl lim st bytes) st) lim.keys
                (spend-Bucketed lim (decide fl lim st bytes) st full) h)
            (λ _. h),
        if-elim IsBounded (enabled_locked fl lim)
            (λ _.
              All-put lim.burst key
                (record st { events = st.events + events; bytes = st.bytes + bytes }) lim.keys full
                h)
            (λ _. h),
      )
