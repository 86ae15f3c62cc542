-- ===== src/Ingest/Samples.antt =====
-- The ingestor of internal/ingest/ingest.go over the log of internal/wal/wal.go at concrete inputs. An
-- event is a number, encoded as one byte.
use omni_logging.Common.{
  ℕ, ◌≡◌, refl, subst, inr, drop, Bool, true, false, Option, none, some, List, [], ◌∷◌, arith,
  Bytes, All, Any,
}
use omni_logging.Wal.Words.{put_be, read_be, get_be, crc_bits, crc_bytes, checksum}
use omni_logging.Wal.Record.{encode_record, next_record, read_payload, scan, scan_segment}
use omni_logging.Wal.Log.{
  Wal, in_last, truncate, open_new_segment_locked, sync_record, write_record, needs_rotation,
  ensure_active, rotate_if_full, append, set_checkpoint, all_records, pending,
}
use omni_logging.Wal.Reopen.{reopen, files_at}
use omni_logging.Wal.Samples.{empty_log, empty_log-IsValid, all_well}
use omni_logging.Ingest.Journal.{wal_journal, Admissible}
use omni_logging.Ingest.Ingestor.{
  Queued, Ingestor, WriteAnswers, accept, logged, enqueue_open, enqueue, advance, has_wal,
  store_batch, write_batch, flush_batch, flush, receive_from, receive, recover_flush_batch,
  recover_flush, recover_event, recover_visit, recover_replay, recover_end, recover_last,
  recover_log, recover,
}
use omni_logging.Ingest.Durable.{IsDurable}
use omni_logging.Ingest.Flush.{Kept}
use omni_logging.Ingest.Accept.{EnqueueKept, enqueue-Kept, receive-Kept}
use omni_logging.Ingest.Runs.{
  with_result, enqueues, receives, ticks, Reach, here, next, Reach-KeptState,
}
use omni_logging.Ingest.Recover.{restart, TornAt, crash_recovery}

abbrev marshal : ℕ → Option Bytes
marshal n = some (n ∷ [])

abbrev unmarshal : Bytes → Option ℕ
unmarshal (n ∷ []) = some n
unmarshal _ = none

abbrev pipelines : ℕ → ℕ
pipelines n = n

abbrev store_down : WriteAnswers
store_down = record { synced = true; stored = false; checkpointed = true }

abbrev store_up : WriteAnswers
store_up = record { synced = true; stored = true; checkpointed = true }

abbrev takes_all : List ℕ → List ℕ → Bool
takes_all old new = true

abbrev idle : Ingestor ℕ Wal
idle = record {
  stored = [];
  published = [];
  wal = some empty_log;
  queue = [];
  buffer_size = 2;
  batch_size = 2;
  batch = [];
  max_seq = 0;
  closed = false;
  checkpoint_stalled = false;
  received = 0;
  written = 0;
  dropped = 0;
}

idle-IsDurable : IsDurable wal_journal unmarshal [] empty_log idle
idle-IsDurable = record {
  wal_is = refl;
  good = empty_log-IsValid;
  safe = tt;
  in_hand = λ _. tt;
  rising = omega arith;
}

inside : {A : Type 0} {x y : A} → some x ≡ some y → x ≡ y
inside e = cc

takes_seven :
    (payload : Bytes)
    → marshal (pipelines 7) ≡ some payload
    → (unmarshal payload ≡ some (pipelines 7)) × Admissible all_well payload empty_log
takes_seven payload e =
    subst (λ p. (unmarshal p ≡ some 7) × Admissible all_well p empty_log) (inside e)
      (refl, (refl, omega arith, omega arith))

enqueue-Kept_example :
    EnqueueKept wal_journal unmarshal [] 7 (enqueue wal_journal marshal pipelines all_well 7 idle)
enqueue-Kept_example =
    enqueue-Kept wal_journal unmarshal [] marshal pipelines all_well 7 empty_log idle takes_seven
      idle-IsDurable

-- One accepted event, received, and flushed while the store is down.
abbrev accepted_one : List (Queued ℕ) × Ingestor ℕ Wal
accepted_one = with_result [] (enqueue wal_journal marshal pipelines all_well 7 idle)

abbrev after : Ingestor ℕ Wal
after = flush wal_journal store_down (receive wal_journal store_up accepted_one.1)

run_one : Reach wal_journal marshal unmarshal pipelines ([], idle) accepted_one
run_one = next here (
    enqueues [] idle all_well 7 (λ payload w w_is e.
      subst (λ v. (unmarshal payload ≡ some 7) × Admissible all_well payload v) (inside w_is)
        (takes_seven payload e)))

run : Reach wal_journal marshal unmarshal pipelines ([], idle) (accepted_one.0, after)
run =
    next (next run_one (receives accepted_one.0 accepted_one.1 store_up))
      (ticks accepted_one.0 (receive wal_journal store_up accepted_one.1) store_down)

-- The crash leaves three bytes of the next record, of the event 8.
abbrev part : Bytes
part = 0 ∷ 0 ∷ 0 ∷ []

abbrev unwritten : Bytes
unwritten = drop 3 (encode_record (record { seq = 2; payload = 8 ∷ [] }))

after_torn : TornAt wal_journal part after.wal
unfolding accept logged enqueue_open enqueue receive_from receive flush flush_batch write_batch
    has_wal store_batch advance append rotate_if_full ensure_active write_record sync_record
    needs_rotation open_new_segment_locked in_last truncate encode_record put_be checksum crc_bytes
    crc_bits set_checkpoint
after_torn = inr (8 ∷ [], unwritten, omega arith, refl, (λ e. cc), omega arith)

recovers :
    (recover wal_journal takes_all unmarshal true (restart wal_journal false part after)).1 ≡ true
unfolding accept logged enqueue_open enqueue receive_from receive flush flush_batch write_batch
    has_wal store_batch advance recover_flush_batch recover_flush recover_event recover_visit
    recover_replay recover_end recover_last recover_log recover append rotate_if_full ensure_active
    write_record sync_record needs_rotation open_new_segment_locked in_last truncate pending
    all_records scan_segment scan next_record read_payload encode_record put_be get_be read_be
    checksum crc_bytes crc_bits set_checkpoint restart reopen files_at
recovers = refl

crash_recovery_example :
    All
      (λ (q : Queued ℕ).
        Any
          (λ x. x ≡ q.event)
          (recover wal_journal takes_all unmarshal true
            (restart wal_journal false part after)).0.stored)
      accepted_one.0
crash_recovery_example =
    crash_recovery wal_journal marshal unmarshal pipelines takes_all accepted_one.0 idle after false
      part true (empty_log, idle-IsDurable) run after_torn recovers

-- The state behind the accepted event keeps it.
one-Kept : Kept wal_journal unmarshal accepted_one.0 accepted_one.1
one-Kept =
    Reach-KeptState wal_journal marshal unmarshal pipelines (empty_log, idle-IsDurable) run_one

receive-Kept_example :
    Kept wal_journal unmarshal accepted_one.0 (receive wal_journal store_up accepted_one.1)
receive-Kept_example =
    receive-Kept wal_journal unmarshal accepted_one.0 store_up one-Kept.0 accepted_one.1 one-Kept.1
