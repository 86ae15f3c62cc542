-- ===== src/Forward/Draining.antt =====
-- What `drainSpool` of internal/forward/forward.go leaves in the spool.
use omni_logging.Common.{ℕ, ◌≡◌, Bool, true, false, Option, none, some, List, [], ◌∷◌}
use omni_logging.Wal.Log.{Wal}
use omni_logging.Wal.Append.{IsValid}
use omni_logging.Forward.{Codec, Spool}
use omni_logging.Forward.Queue.{outstanding}
use omni_logging.Forward.Delivery.{Outcome, delivered, transient, permanent, abandoned, Round, post}

abbrev behind_post :
    {A : Type 0} → Option (Outcome × List Round) → List A → (List Round → List A) → List A
behind_post none queue next = queue
behind_post (some (abandoned, rest)) queue next = queue
behind_post (some (transient, rest)) queue next = queue
behind_post (some (delivered, rest)) queue next = next rest
behind_post (some (permanent, rest)) queue next = next rest

-- What is left of a queue once its batches are posted one by one, from the first on: a batch that is
-- delivered or refused is done with, and the first that is abandoned, or whose attempts run out,
-- stays, and all that stand behind it.
abbrev pub unfinished : {A : Type 0} → List A → List Round → List A
unfinished [] rounds = []
unfinished (x ∷ xs) rounds = behind_post (post true rounds) (x ∷ xs) (λ rest. unfinished xs rest)

abbrev pub is_done : {A : Type 0} → List A → Bool
is_done [] = true
is_done (x ∷ xs) = false

module _ {B D : Type 0} (codec : Codec B D) (dead_of : B → D) where
  -- A state of the drain: the spool is valid, and these batches wait in it.
  abbrev Waits : Spool → List (ℕ × B) → Type 0
  Waits s xs = IsValid s.wal × (outstanding codec s ≡ xs)

  -- Where a run of the drain ends.
  abbrev Drained : List (ℕ × B) → (Spool × List Round) × Bool → Type 0
  Drained left r = Waits r.0.0 left × (r.1 ≡ is_done left)
