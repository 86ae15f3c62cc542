-- ===== src/Ingest/Ingestor.antt =====
-- The ingestor of internal/ingest/ingest.go: `Enqueue`, the rounds of `run`, `writeBatch`, `Stop` and
-- `Recover`. Events, their JSON encoding and the pipelines are parameters; the store is the list of
-- the events that `Append` put there. A run of the program is a sequence of these operations, each a
-- critical section or a round of the one writer goroutine.
use omni_logging.Common.{
  ℕ, ◌+◌, Bool, true, false, not, ◌&&◌, ◌||◌, Option, none, some, List, [], ◌∷◌, ◌++◌, ltb, leb,
  if◌then◌else◌, Bytes, length,
}
use omni_logging.Wal.Record.{Record}
use omni_logging.Ingest.Journal.{Journal}

pub record Queued (E : Type 0) : Type 0 where
  pub event : E
  pub seq : ℕ

pub record Ingestor (E S : Type 0) : Type 0 where
  pub stored : List E
  pub published : List E
  pub wal : Option S
  pub queue : List (Queued E)
  pub buffer_size : ℕ
  pub batch_size : ℕ
  pub batch : List E
  pub max_seq : ℕ
  pub closed : Bool
  pub checkpoint_stalled : Bool
  pub received : ℕ
  pub written : ℕ
  pub dropped : ℕ

-- What the WAL's sync, the store and the checkpoint's file answer while a batch is written.
pub record WriteAnswers : Type 0 where
  pub synced : Bool
  pub stored : Bool
  pub checkpointed : Bool

module _ {E S A : Type 0} (J : Journal S A) where
  -- The event goes into the buffer.
  unfoldable pub accept : E → ℕ → Ingestor E S → Ingestor E S × Option (Queued E)
  accept e seq i =
      let q : Queued E = record { event = e; seq = seq } in
      (record i { queue = i.queue ++ q ∷ []; received = i.received + 1 }, some q)

  unfoldable pub drop_event : Ingestor E S → Ingestor E S × Option (Queued E)
  drop_event i = (record i { dropped = i.dropped + 1 }, none)

  -- What follows the WAL append of an event.
  unfoldable pub logged : E → Ingestor E S → S × Option ℕ → Ingestor E S × Option (Queued E)
  unfolding accept drop_event
  logged e i (w, none) = drop_event (record i { wal = some w })
  logged e i (w, some seq) = accept e seq (record i { wal = some w })

  -- The part of `Enqueue` behind the capacity check.
  unfoldable pub enqueue_open :
      (E → Option Bytes) → A → E → Ingestor E S → Option S → Ingestor E S × Option (Queued E)
  unfolding accept drop_event logged
  enqueue_open marshal io e i none = accept e 0 i
  enqueue_open marshal io e i (some w) = elim (marshal e) [
    | none ↦ drop_event i
    | some payload ↦ logged e i (J.append io payload w)
  ]

  -- `Enqueue`: the event that was accepted, with its number, or `none`.
  unfoldable pub enqueue :
      (E → Option Bytes) → (E → E) → A → E → Ingestor E S → Ingestor E S × Option (Queued E)
  unfolding drop_event enqueue_open
  enqueue marshal pipelines io event i =
      let e = pipelines event in
      if i.closed || leb i.buffer_size (length i.queue)
      then drop_event i
      else enqueue_open marshal io e i i.wal

  -- The checkpoint behind a stored batch, where there is a WAL.
  unfoldable pub advance : Bool → ℕ → Ingestor E S → Option S → Ingestor E S
  advance ok top i none = i
  advance ok top i (some w) =
      if ltb 0 top && not i.checkpoint_stalled
      then (let (w', done) = J.set_checkpoint ok top w in
          record i { wal = some w'; checkpoint_stalled = not done })
      else i

  unfoldable pub has_wal : Ingestor E S → Bool
  has_wal i = elim i.wal [ none ↦ false | some w ↦ true ]

  -- The part of `writeBatch` behind the sync: a failed write ends the call before the batch is
  -- counted and published.
  unfoldable pub store_batch : WriteAnswers → List E → ℕ → Ingestor E S → Ingestor E S
  unfolding advance
  store_batch io batch top i =
      if io.stored
      then (let k =
            advance io.checkpointed top
              (record i { stored = i.stored ++ batch; written = i.written + length batch }) i.wal in
          record k { published = k.published ++ batch })
      else record i { checkpoint_stalled = true }

  -- `writeBatch`: a failed sync of the WAL stalls the checkpoint.
  unfoldable pub write_batch : WriteAnswers → List E → ℕ → Ingestor E S → Ingestor E S
  unfolding store_batch has_wal
  write_batch io batch top i =
      if has_wal i && not io.synced
      then store_batch io batch top (record i { checkpoint_stalled = true })
      else store_batch io batch top i

  -- The `flush` of `run` over the batch so far.
  unfoldable pub flush_batch : WriteAnswers → Ingestor E S → List E → Ingestor E S
  unfolding write_batch
  flush_batch io i [] = i
  flush_batch io i (e ∷ es) = record (write_batch io i.batch i.max_seq i) {
    batch = [];
    max_seq = 0;
  }

  unfoldable pub flush : WriteAnswers → Ingestor E S → Ingestor E S
  unfolding flush_batch
  flush io i = flush_batch io i i.batch

  -- A round of `run` that receives an event.
  unfoldable pub receive_from : WriteAnswers → Ingestor E S → List (Queued E) → Ingestor E S
  unfolding flush
  receive_from io i [] = i
  receive_from io i (q ∷ rest) =
      let j = record i {
        queue = rest;
        batch = i.batch ++ q.event ∷ [];
        max_seq = if ltb i.max_seq q.seq then q.seq else i.max_seq;
      } in
      if leb j.batch_size (length j.batch) then flush io j else j

  unfoldable pub receive : WriteAnswers → Ingestor E S → Ingestor E S
  unfolding receive_from
  receive io i = receive_from io i i.queue

  -- `Stop` closes the queue; the writer then receives what is left and flushes.
  unfoldable pub stop : Ingestor E S → Ingestor E S
  stop i = record i { closed = true }

pub record Recovery (E : Type 0) : Type 0 where
  pub stored : List E
  pub batch : List E
  pub max_seq : ℕ
  pub count : ℕ

module _ {E : Type 0} (store_answer : List E → List E → Bool) where
  -- The `flush` of `Recover` over the batch so far, and whether the store took it.
  unfoldable pub recover_flush_batch : Recovery E → List E → Recovery E × Bool
  recover_flush_batch r [] = (r, true)
  recover_flush_batch r (e ∷ es) =
      if store_answer r.stored r.batch
      then (record r { stored = r.stored ++ r.batch; batch = [] }, true)
      else (r, false)

  unfoldable pub recover_flush : Recovery E → Recovery E × Bool
  unfolding recover_flush_batch
  recover_flush r = recover_flush_batch r r.batch

  -- The callback of the replay, behind the decoding: a record that does not decode is skipped.
  unfoldable pub recover_event : ℕ → ℕ → Recovery E → Option E → Recovery E × Bool
  unfolding recover_flush
  recover_event batch_size seq r none = (r, true)
  recover_event batch_size seq r (some e) =
      let next : Recovery E = record r {
        batch = r.batch ++ e ∷ [];
        max_seq = seq;
        count = r.count + 1;
      } in
      if leb batch_size (length next.batch) then recover_flush next else (next, true)

  unfoldable pub recover_visit : (Bytes → Option E) → ℕ → Record → Recovery E → Recovery E × Bool
  unfolding recover_event
  recover_visit unmarshal batch_size rec r =
      recover_event batch_size rec.seq r (unmarshal rec.payload)

  unfoldable pub recover_replay :
      (Bytes → Option E) → ℕ → List Record → Recovery E → Recovery E × Bool
  unfolding recover_visit
  recover_replay unmarshal batch_size [] r = (r, true)
  recover_replay unmarshal batch_size (rec ∷ recs) r =
      let (r', ok) = recover_visit unmarshal batch_size rec r in
      let rest = recover_replay unmarshal batch_size recs r' in if ok then rest else (r', false)

-- `Recover`: the replay, the last batch, and the checkpoint behind the last number.
module _ {E S A : Type 0} (J : Journal S A) (store_answer : List E → List E → Bool) where
  -- The end of a recovery whose batches are all stored.
  unfoldable pub recover_end : Bool → S → Ingestor E S → Recovery E → Ingestor E S × Bool
  recover_end checkpointed w i r =
      if ltb 0 r.max_seq
      then (let (w', done) = J.set_checkpoint checkpointed r.max_seq w in
          (record i { stored = r.stored; wal = some w' }, done))
      else (record i { stored = r.stored }, true)

  unfoldable pub recover_last : Bool → S → Ingestor E S → Recovery E × Bool → Ingestor E S × Bool
  unfolding recover_flush recover_end
  recover_last checkpointed w i (r, false) = (record i { stored = r.stored }, false)
  recover_last checkpointed w i (r, true) =
      let (r', flushed) = recover_flush store_answer r in
      if flushed then recover_end checkpointed w i r' else (record i { stored = r'.stored }, false)

  unfoldable pub recover_log :
      (Bytes → Option E) → Bool → Ingestor E S → Option S → Ingestor E S × Bool
  unfolding recover_replay recover_last
  recover_log unmarshal checkpointed i none = (i, true)
  recover_log unmarshal checkpointed i (some w) =
      let start : Recovery E = record { stored = i.stored; batch = []; max_seq = 0; count = 0 } in
      recover_last checkpointed w i
        (recover_replay store_answer unmarshal i.batch_size (J.left w) start)

  unfoldable pub recover : (Bytes → Option E) → Bool → Ingestor E S → Ingestor E S × Bool
  unfolding recover_log
  recover unmarshal checkpointed i = recover_log unmarshal checkpointed i i.wal
