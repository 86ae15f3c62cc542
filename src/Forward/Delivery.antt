-- ===== src/Forward/Delivery.antt =====
-- The delivery of batches in internal/forward/forward.go: one POST, its retries, and what becomes of the batch in
-- the spool. What the network answers, the clock and the JSON are arguments.
use omni_logging.Common.{
  ℕ, ◌+◌, ◌-◌, ◌*◌, ◌/◌, ◌%◌, ◌^◌, Bool, true, false, not, ◌&&◌, ◌||◌, Option, none, some, List, [],
  ◌∷◌, if◌then◌else◌, ltb, leb, ◌==◌,
}
use omni_logging.Forward.{
  Codec, Spool, Added, added, unsynced, refused, AddAnswers, DeadAnswers, add, ack, dead_letter,
  for_pending,
}

-- `deliveryOutcome`
pub data Outcome : Type 0 where
  delivered transient permanent abandoned : Outcome

-- How `Client.Do` ends: with a status, or with an error, the context being over or not; or the request could not
-- be built.
pub data Response : Type 0 where
  status : ℕ → Response
  broken : Bool → Response
  unsent : Response

-- One attempt: whether the context ends in the wait before it, and the response.
pub record Round : Type 0 where
  pub cancelled : Bool
  pub response : Response

-- `retryable`
unfoldable pub retryable : ℕ → Bool
retryable code = code == 429 || leb 500 code

-- The outcome of `attempt`.
unfoldable pub attempt_outcome : Response → Outcome
unfolding retryable
attempt_outcome (status code) =
    if code / 100 == 2 then delivered else if retryable code then transient else permanent
attempt_outcome (broken over) = if over then abandoned else transient
attempt_outcome unsent = transient

abbrev pub max_post_attempts : ℕ
max_post_attempts = 6

-- `baseBackoff` and `maxBackoff`, in nanoseconds.
abbrev pub base_backoff : ℕ
base_backoff = 500 * 10 ^ 6

abbrev pub max_backoff : ℕ
max_backoff = 30 * 10 ^ 9

-- The limit in place of a delay above it or not above 0.
unfoldable pub capped : ℕ → ℕ → ℕ
capped limit d = if ltb limit d || d == 0 || leb (2 ^ 63) d then limit else d

-- `backoffFor`, on the 64 bits of the product: from 2 ^ 63 on they are negative.
unfoldable pub backoff_for : ℕ → ℕ → ℕ → ℕ
unfolding capped
backoff_for backoff limit attempt = capped limit (backoff * 2 ^ (attempt - 1) % 2 ^ 64)

-- What an attempt that ends in `o` makes of the loop of `post`; `again` is what the further attempts give.
unfoldable pub conclude :
    {R : Type 0} → Outcome → Bool → R → Option (Outcome × R) → Option (Outcome × R)
conclude delivered last rest again = some (delivered, rest)
conclude permanent last rest again = some (permanent, rest)
conclude abandoned last rest again = some (abandoned, rest)
conclude transient last rest again = if last then some (transient, rest) else again

-- The loop of `post` from an attempt on, with the attempts that are left behind it. `none` while it still retries
-- when the attempts are over.
unfoldable pub post_from : Bool → ℕ → List Round → Option (Outcome × List Round)
unfolding attempt_outcome conclude
post_from spooled attempt [] = none
post_from spooled attempt (r ∷ rs) =
    let again = post_from spooled (attempt + 1) rs in
    if ltb 1 attempt && r.cancelled
    then some (abandoned, rs)
    else conclude (attempt_outcome r.response) (not spooled && leb max_post_attempts attempt) rs
        again

-- `post`
unfoldable pub post : Bool → List Round → Option (Outcome × List Round)
unfolding post_from
post spooled rounds = post_from spooled 1 rounds

-- What the surroundings answer to one `settle`.
pub record SettleAnswers : Type 0 where
  pub written : Bool
  pub dead : DeadAnswers

-- The number that `Add` returns beside its error.
unfoldable pub seq_of : Added → ℕ
seq_of (added seq) = seq
seq_of (unsynced seq) = seq
seq_of refused = 0

module _ {B D : Type 0} (codec : Codec B D) (dead_of : B → D) where
  unfoldable pub ack_if : SettleAnswers → ℕ → Spool → Spool
  unfolding ack
  ack_if io seq s = if ltb 0 seq then (ack codec io.written seq s).0 else s

  -- `settle` with a spool.
  unfoldable pub settle : SettleAnswers → B → ℕ → Outcome → Spool → Spool
  unfolding ack_if dead_letter
  settle io b seq delivered s = ack_if io seq s
  settle io b seq permanent s = ack_if io seq (dead_letter codec io.dead (dead_of b) s).0
  settle io b seq abandoned s = s
  settle io b seq transient s = s

  unfoldable pub settle_if : SettleAnswers → B → ℕ → Option (Outcome × List Round) → Spool → Spool
  unfolding settle
  settle_if io b seq none s = s
  settle_if io b seq (some (o, rest)) s = settle io b seq o s

  -- `deliver` with a spool: the spool behind it, and how `post` ended.
  unfoldable pub deliver :
      AddAnswers → SettleAnswers → List Round → B → Spool → Spool × Option (Outcome × List Round)
  unfolding add post settle_if seq_of
  deliver on_add on_settle rounds b s =
      let (kept, number) = add codec on_add b s in
      let ended = post true rounds in (settle_if on_settle b (seq_of number) ended kept, ended)

  -- `deliver` without a spool: the batch is lost unless it is delivered.
  unfoldable pub deliver_direct : List Round → Option (Outcome × List Round)
  unfolding post
  deliver_direct rounds = post false rounds

  unfoldable pub drain_on :
      SettleAnswers → ℕ → B → Option (Outcome × List Round) → Spool → (Spool × List Round) × Bool
  unfolding settle
  drain_on io seq b none s = ((s, []), false)
  drain_on io seq b (some (abandoned, rest)) s = ((settle io b seq abandoned s, rest), false)
  drain_on io seq b (some (delivered, rest)) s = ((settle io b seq delivered s, rest), true)
  drain_on io seq b (some (permanent, rest)) s = ((settle io b seq permanent s, rest), true)
  drain_on io seq b (some (transient, rest)) s = ((settle io b seq transient s, rest), true)

  -- The callback of `drainSpool`: the state is the spool and the attempts to come.
  unfoldable pub drain_one :
      (ℕ → SettleAnswers) → ℕ → B → Spool × List Round → (Spool × List Round) × Bool
  unfolding post drain_on
  drain_one io seq b (s, rounds) = drain_on (io seq) seq b (post true rounds) s

  -- `drainSpool`: whether every batch that waited was posted to its end.
  unfoldable pub drain_spool :
      (ℕ → SettleAnswers) → List Round → Spool → (Spool × List Round) × Bool
  unfolding for_pending drain_one
  drain_spool io rounds s = for_pending codec (drain_one io) s (s, rounds)
