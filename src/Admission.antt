-- ===== src/Admission.antt =====
-- Admission control (internal/admission/admission.go): per key a token bucket and two daily quotas.
-- Floats are a parameter with the facts that the code relies on; times are nanoseconds since the epoch,
-- so a UTC date is a number of days. The table of keys is an association list.

pub mod Fairness
mod Samples
use omni_logging.Common.{
  ℕ, zero, suc, ◌+◌, ◌*◌, ◌/◌, ◌^◌, ◌-◌, ◌<◌, Bool, true, false, not, ◌&&◌, ◌||◌, Option, none,
  some, List, [], ◌∷◌, ltb, leb, ◌==◌, if◌then◌else◌, Text, same,
}
use omni_logging.Common.Float64.{Floats}

pub record Limits (F : Type 0) : Type 0 where
  pub rate_per_sec : F
  pub burst : ℕ
  pub daily_events : ℕ
  pub daily_bytes : ℕ

pub data Decision : Type 0 where
  allowed : Decision
  rate : Decision
  bytes_quota : Decision
  events_quota : Decision

pub record KeyState (F : Type 0) : Type 0 where
  pub tokens : F
  pub last : ℕ
  pub day : ℕ
  pub events : ℕ
  pub bytes : ℕ

pub record Limiter (F : Type 0) : Type 0 where
  pub limits : Limits F
  pub burst : F
  pub keys : List (Text × KeyState F)

abbrev pub day : ℕ → ℕ
day now = now / (86400 * 10 ^ 9)

module _ {F : Type 0} where
  -- l.keys[key]
  unfoldable pub find : Text → List (Text × KeyState F) → Option (KeyState F)
  find key [] = none
  find key ((k, st) ∷ m) = if same k key then some st else find key m

  -- l.keys[key] = st
  unfoldable pub put : Text → KeyState F → List (Text × KeyState F) → List (Text × KeyState F)
  put key st [] = (key, st) ∷ []
  put key st ((k, old) ∷ m) = if same k key then (k, st) ∷ m else (k, old) ∷ put key st m

module _ {F : Type 0} (fl : Floats F) where
  -- The capacity of the bucket, in `New` and in `SetLimits`.
  unfoldable pub burst_of : Limits F → F
  burst_of l =
      if ltb l.burst 1
      then (if fl.lt fl.one l.rate_per_sec then l.rate_per_sec else fl.one)
      else fl.of_ℕ l.burst

  unfoldable pub new : Limits F → Limiter F
  unfolding burst_of
  new l = record { limits = l; burst = burst_of l; keys = [] }

  unfoldable pub set_limits : Limits F → Limiter F → Limiter F
  unfolding burst_of
  set_limits l lim = record lim { limits = l; burst = burst_of l }

  abbrev pub rated : Limiter F → Bool
  rated lim = fl.lt fl.nought lim.limits.rate_per_sec

  unfoldable pub enabled_locked : Limiter F → Bool
  enabled_locked lim = rated lim || (ltb 0 lim.limits.daily_events || ltb 0 lim.limits.daily_bytes)

  -- A key that is not known starts with a full bucket.
  unfoldable pub start_state : ℕ → F → Option (KeyState F) → KeyState F
  start_state now burst none = record {
    tokens = burst;
    last = now;
    day = day now;
    events = 0;
    bytes = 0;
  }
  start_state now burst (some st) = st

  -- The refill of the bucket, where time has passed.
  unfoldable pub refill : ℕ → Limiter F → KeyState F → KeyState F
  refill now lim st =
      if rated lim && ltb st.last now
      then (let more =
            fl.add st.tokens (fl.mul (fl.seconds (now - st.last)) lim.limits.rate_per_sec) in
          record st { tokens = if fl.lt lim.burst more then lim.burst else more; last = now })
      else st

  -- The reset of the daily counters.
  unfoldable pub roll_over : ℕ → KeyState F → KeyState F
  roll_over now st =
      if st.day == day now then st else record st { day = day now; events = 0; bytes = 0 }

  unfoldable pub state_locked : ℕ → Text → Limiter F → KeyState F
  unfolding start_state refill roll_over find
  state_locked now key lim =
      roll_over now (refill now lim (start_state now lim.burst (find key lim.keys)))

  unfoldable pub decide : Limiter F → KeyState F → ℕ → Decision
  decide lim st bytes =
      if rated lim && fl.lt st.tokens fl.one
      then rate
      else if ltb 0 lim.limits.daily_bytes && ltb lim.limits.daily_bytes (st.bytes + bytes)
      then bytes_quota
      else if ltb 0 lim.limits.daily_events && leb lim.limits.daily_events st.events
      then events_quota
      else allowed

  -- The token that an admitted request takes.
  unfoldable pub spend : Limiter F → Decision → KeyState F → KeyState F
  spend lim allowed st = if rated lim then record st { tokens = fl.sub st.tokens fl.one } else st
  spend lim rate st = st
  spend lim bytes_quota st = st
  spend lim events_quota st = st

  -- `Allow`. The state of the key is stored whatever the decision.
  unfoldable pub allow : ℕ → Text → ℕ → Limiter F → Limiter F × Decision
  unfolding enabled_locked state_locked decide spend put
  allow now key bytes lim =
      if enabled_locked lim
      then (let st = state_locked now key lim in
          let d = decide lim st bytes in
          (record lim { keys = put key (spend lim d st) lim.keys }, d))
      else (lim, allowed)

  -- `Record`, with the events and the bytes that were taken in.
  unfoldable pub record_usage : ℕ → Text → ℕ → ℕ → Limiter F → Limiter F
  unfolding enabled_locked state_locked put
  record_usage now key events bytes lim =
      if enabled_locked lim
      then (let st = state_locked now key lim in
          record lim {
            keys =
                put key (record st { events = st.events + events; bytes = st.bytes + bytes })
                  lim.keys;
          })
      else lim
