-- ===== src/Forward.antt =====
-- The spool of the forwarder (internal/forward/spool.go): the batches that wait for delivery, in a
-- write-ahead log, and the file of those that were refused for good. The JSON of batches and of dead letters
-- is a parameter.
pub mod Batching
pub mod Delivery
pub mod Draining
pub mod Lines
pub mod Numbers
pub mod Queue
pub mod Retries
pub mod Settled
pub mod Tailing
mod Samples
use omni_logging.Common.{
  ℕ, Bool, true, false, Option, none, some, List, [], ◌∷◌, ◌++◌, if◌then◌else◌, Bytes,
}
use omni_logging.Wal.Record.{Record}
use omni_logging.Wal.Log.{Wal, Answers, append, set_checkpoint, replay, close}

-- json.Marshal and json.Unmarshal of batches and dead letters.
pub record Codec (B D : Type 0) : Type 0 where
  pub encode : B → Option Bytes
  pub decode : Bytes → Option B
  pub encode_dead : D → Option Bytes

-- `spool`: the dead-letter file with its handle.
pub record Spool : Type 0 where
  pub wal : Wal
  pub dead_open : Bool
  pub dead_file : Bytes

-- What `Add` returns: the number, the number with an error of the sync, or an error alone.
pub data Added : Type 0 where
  added : ℕ → Added
  unsynced : ℕ → Added
  refused : Added

-- What the surroundings answer to one `Add`.
pub record AddAnswers : Type 0 where
  pub log : Answers
  pub synced : Bool

-- What they answer to one `DeadLetter`: the opening of the file, the bytes that a write that fails gets
-- through, and the sync.
pub record DeadAnswers : Type 0 where
  pub opened : Bool
  pub cut_short : Option Bytes
  pub synced : Bool

-- A round of `Pending`: a record that is no batch is passed over.
unfoldable pub visited : {B S : Type 0} → (ℕ → B → S → S × Bool) → ℕ → Option B → S → S × Bool
visited fn n none st = (st, true)
visited fn n (some b) st = fn n b st

module _ {B D : Type 0} (codec : Codec B D) where
  unfoldable pub outcome_of : Bool → Option ℕ → Added
  outcome_of synced none = refused
  outcome_of synced (some seq) = if synced then added seq else unsynced seq

  -- `Add`
  unfoldable pub add : AddAnswers → B → Spool → Spool × Added
  unfolding outcome_of append
  add io b s = elim (codec.encode b) [
    | none ↦ (s, refused)
    | some payload ↦
        let (w, seq) = append io.log payload s.wal in
        (record s { wal = w }, outcome_of io.synced seq)
  ]

  -- `Ack`, and whether it succeeds.
  unfoldable pub ack : Bool → ℕ → Spool → Spool × Bool
  unfolding set_checkpoint
  ack written seq s = let (w, ok) = set_checkpoint written seq s.wal in (record s { wal = w }, ok)

  unfoldable pub visit_batch : {S : Type 0} → (ℕ → B → S → S × Bool) → Record → S → S × Bool
  unfolding visited
  visit_batch fn r st = visited fn r.seq (codec.decode r.payload) st

  -- `Pending`
  unfoldable pub for_pending : {S : Type 0} → (ℕ → B → S → S × Bool) → Spool → S → S × Bool
  unfolding replay visit_batch
  for_pending fn s st = replay (visit_batch fn) s.wal st

  -- The write of a dead letter.
  unfoldable pub write_dead : DeadAnswers → D → Spool → Spool × Bool
  write_dead io d s = elim (codec.encode_dead d) [
    | none ↦ (s, false)
    | some line ↦ elim io.cut_short [
      | some part ↦ (record s { dead_file = s.dead_file ++ part }, false)
      | none ↦ (record s { dead_file = s.dead_file ++ (line ++ 10 ∷ []) }, io.synced)
    ]
  ]

  -- `DeadLetter`, and whether it succeeds.
  unfoldable pub dead_letter : DeadAnswers → D → Spool → Spool × Bool
  unfolding write_dead
  dead_letter io d s =
      if s.dead_open
      then write_dead io d s
      else if io.opened
      then write_dead io d (record s { dead_open = true })
      else (s, false)

  -- `Close`
  unfoldable pub close_spool : Spool → Spool
  unfolding close
  close_spool s = record s { wal = close s.wal; dead_open = false }
