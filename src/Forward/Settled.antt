-- ===== src/Forward/Settled.antt =====
-- What `deliver` and `settle` of internal/forward/forward.go leave in the spool.
use omni_logging.Common.{
  ℕ, suc, ◌+◌, ◌^◌, ◌<◌, ◌≤◌, ◌≡◌, refl, sym, ap, subst, ◌∙◌, Bool, true, false, Option, none, some,
  List, [], ◌∷◌, ◌++◌, if◌then◌else◌, Bytes, length, keep, keep-append, lt→ltb, arith,
}
use omni_logging.Wal.Record.{max_record_bytes}
use omni_logging.Wal.Log.{
  Segment, Wal, append, set_checkpoint, segment_records, all_records, pending, beyond,
}
use omni_logging.Wal.Chain.{Chain, segment_records_lem}
use omni_logging.Wal.Append.{IsValid, Outcome as AppendOutcome}
use omni_logging.Wal.Accept.{append-Outcome, append-pending}
use omni_logging.Wal.Checkpoint.{set_checkpoint-Advanced, keep_none, Chain-first_start}
use omni_logging.Forward.{
  Codec, Spool, Added, added, unsynced, refused, AddAnswers, DeadAnswers, outcome_of, add, ack,
  write_dead, dead_letter,
}
use omni_logging.Forward.Queue.{batches, outstanding, QueueAfter, queue_after}
use omni_logging.Forward.Delivery.{
  Outcome, delivered, transient, permanent, abandoned, Round, post, SettleAnswers, seq_of, ack_if,
  settle, settle_if, deliver,
}

-- Nothing is pending where the checkpoint has reached the last number.
none_beyond :
    (cp : ℕ) (ss : List Segment) (hi : ℕ)
    → Chain ss hi
    → hi ≤ suc cp
    → keep (beyond cp) (all_records ss) ≡ []
unfolding all_records
none_beyond cp [] hi h e = refl
none_beyond cp (s ∷ []) hi ((rs, (e, fs, i)), _) le =
    keep-append (beyond cp) (segment_records s) []
    ∙ rw (segment_records_lem s rs e fs, keep_none cp s.start_seq rs hi i le) refl
none_beyond cp (s ∷ t ∷ ss) hi ((rs, (e, fs, i)), hs) le =
    keep-append (beyond cp) (segment_records s) (all_records (t ∷ ss))
    ∙ rw
        (
          segment_records_lem s rs e fs,
          keep_none cp s.start_seq rs t.start_seq i (omega (arith, Chain-first_start t ss hi hs)),
        )
        (none_beyond cp (t ∷ ss) hi hs le)

-- The checkpoint at the last number that was given out leaves nothing pending.
all_acknowledged :
    (written : Bool) (seq : ℕ) (w : Wal)
    → IsValid w
    → w.next_seq ≡ suc seq
    → pending (set_checkpoint written seq w).0 ≡ []
unfolding pending
all_acknowledged written seq w v e =
    let a = set_checkpoint-Advanced written seq w v (omega arith) in
    let reached : seq ≤ (set_checkpoint written seq w).0.checkpoint =
      ground (arith, a.checkpoint) in
    none_beyond (set_checkpoint written seq w).0.checkpoint
      (set_checkpoint written seq w).0.segments (set_checkpoint written seq w).0.next_seq
      a.valid.chain (omega (arith, a.next_seq))

module _ {B D : Type 0} (codec : Codec B D) (dead_of : B → D) where
  write_dead-wal : (io : DeadAnswers) (d : D) (s : Spool) → (write_dead codec io d s).0.wal ≡ s.wal
  unfolding write_dead
  write_dead-wal io d s = ground arith

  pub dead_letter-wal :
      (io : DeadAnswers) (d : D) (s : Spool) → (dead_letter codec io d s).0.wal ≡ s.wal
  unfolding dead_letter write_dead
  dead_letter-wal io d s = ground arith

  -- What `Add` has taken: under the next number, last in the queue.
  abbrev Taken : Spool → B → ℕ → Spool → Type 0
  Taken s b seq s' =
      (0 < seq)
      × IsValid s'.wal
      × (s'.wal.next_seq ≡ suc seq)
      × (outstanding codec s' ≡ outstanding codec s ++ (s.wal.next_seq, b) ∷ [])

  abbrev AddedTo : Spool → B → Spool × Added → Type 0
  AddedTo s b (s', refused) = outstanding codec s' ≡ outstanding codec s
  AddedTo s b (s', added seq) = Taken s b seq s'
  AddedTo s b (s', unsynced seq) = Taken s b seq s'

  taken :
      (s : Spool) (b : B) (payload : Bytes) (synced : Bool) (r : Wal × Option ℕ)
      → IsValid s.wal
      → AppendOutcome payload s.wal r
      → QueueAfter codec s b (record s { wal = r.0 }, outcome_of codec synced r.1)
      → AddedTo s b (record s { wal = r.0 }, outcome_of codec synced r.1)
  unfolding outcome_of
  taken s b payload synced (w, none) v o q = q
  taken s b payload true (w, some seq) v o q =
      (omega (arith, v.applied, o.0), o.1.valid, o.1.next_seq ∙ ap suc (sym o.0), q)
  taken s b payload false (w, some seq) v o q =
      (omega (arith, v.applied, o.0), o.1.valid, o.1.next_seq ∙ ap suc (sym o.0), q)

  add-AddedTo :
      (io : AddAnswers) (b : B) (payload : Bytes) (s : Spool)
      → codec.encode b ≡ some payload
      → codec.decode payload ≡ some b
      → io.log.truncated ≡ true
      → length payload ≤ max_record_bytes
      → s.wal.next_seq + 1 < 2 ^ 64
      → IsValid s.wal
      → AddedTo s b (add codec io b s)
  unfolding add
  add-AddedTo io b payload s e d t l n v =
      subst
        (λ o. AddedTo s b (elim o as (λ _. Spool × Added) [
          | none ↦ (s, refused)
          | some p ↦ (
            record s { wal = (append io.log p s.wal).0 },
            outcome_of codec io.synced (append io.log p s.wal).1,
          )
        ]))
        (sym e)
        (taken s b payload io.synced (append io.log payload s.wal) v
          (append-Outcome io.log payload s.wal t l n v)
          (queue_after codec s b payload io.synced (append io.log payload s.wal) d
            (append-pending io.log payload s.wal t l n v)))

  acknowledged :
      (io : SettleAnswers) (seq : ℕ) (s : Spool)
      → 0 < seq
      → IsValid s.wal
      → s.wal.next_seq ≡ suc seq
      → outstanding codec (ack_if codec dead_of io seq s) ≡ []
  unfolding ack_if ack
  acknowledged io seq s positive v e =
      rw (lt→ltb 0 seq positive)
        (ap (λ rs. batches codec rs) (all_acknowledged io.written seq s.wal v e))

  -- The outcomes after which a batch is taken off the queue.
  abbrev pub is_final : Option (Outcome × List Round) → Bool
  is_final (some (delivered, rest)) = true
  is_final (some (permanent, rest)) = true
  is_final _ = false

  settled :
      (io : SettleAnswers) (b : B) (seq : ℕ) (o : Option (Outcome × List Round)) (s s' : Spool)
      → Taken s b seq s'
      → outstanding codec (settle_if codec dead_of io b seq o s')
        ≡ (if is_final o then [] else outstanding codec s ++ (s.wal.next_seq, b) ∷ [])
  unfolding settle_if settle
  settled io b seq none s s' h = h.3
  settled io b seq (some (delivered, rest)) s s' (positive, v, e, q) =
      acknowledged io seq s' positive v e
  settled io b seq (some (permanent, rest)) s s' (positive, v, e, q) =
      let same = dead_letter-wal io.dead (dead_of b) s' in
      acknowledged io seq (dead_letter codec io.dead (dead_of b) s').0 positive
        (subst IsValid (sym same) v) (ap (λ (w : Wal). w.next_seq) same ∙ e)
  settled io b seq (some (abandoned, rest)) s s' h = h.3
  settled io b seq (some (transient, rest)) s s' h = h.3

  -- The queue behind a delivery.
  abbrev pub queue_behind : Spool → B → Added → Option (Outcome × List Round) → List (ℕ × B)
  queue_behind s b refused o = outstanding codec s
  queue_behind s b (added seq) o =
      if is_final o then [] else outstanding codec s ++ (s.wal.next_seq, b) ∷ []
  queue_behind s b (unsynced seq) o =
      if is_final o then [] else outstanding codec s ++ (s.wal.next_seq, b) ∷ []

  unnumbered :
      (io : SettleAnswers) (b : B) (o : Option (Outcome × List Round)) (s : Spool)
      → outstanding codec (settle_if codec dead_of io b 0 o s) ≡ outstanding codec s
  unfolding settle_if settle ack_if
  unnumbered io b none s = refl
  unnumbered io b (some (delivered, rest)) s = refl
  unnumbered io b (some (permanent, rest)) s =
      ap (λ (w : Wal). batches codec (pending w)) (dead_letter-wal io.dead (dead_of b) s)
  unnumbered io b (some (abandoned, rest)) s = refl
  unnumbered io b (some (transient, rest)) s = refl

  delivered_queue :
      (io : SettleAnswers) (b : B) (s : Spool) (r : Spool × Added)
      (o : Option (Outcome × List Round))
      → AddedTo s b r
      → outstanding codec (settle_if codec dead_of io b (seq_of r.1) o r.0) ≡ queue_behind s b r.1 o
  unfolding seq_of
  delivered_queue io b s (s', added seq) o h = settled io b seq o s s' h
  delivered_queue io b s (s', unsynced seq) o h = settled io b seq o s s' h
  delivered_queue io b s (s', refused) o h = unnumbered io b o s' ∙ h

  -- The queue behind one `deliver`, however its attempts go. A batch that `Add` refuses leaves the queue as it was. One
  -- that it takes, whether its sync fails or not, stands last in the queue where it is abandoned or still
  -- tried; where it is delivered or refused for good nothing is left, neither it nor any batch that waited before it.
  -- The dead letter of a batch that is refused may have failed. The batch is decoded from its JSON as it was, its
  -- JSON is at most 64 MiB, the rollback of the log, if it is needed, succeeds, and the log is valid, its next
  -- number below the limit.
  pub deliver-queue_behind :
      (on_add : AddAnswers) (on_settle : SettleAnswers) (rounds : List Round) (b : B)
      (payload : Bytes) (s : Spool)
      → codec.encode b ≡ some payload
      → codec.decode payload ≡ some b
      → on_add.log.truncated ≡ true
      → length payload ≤ max_record_bytes
      → s.wal.next_seq + 1 < 2 ^ 64
      → IsValid s.wal
      → outstanding codec (deliver codec dead_of on_add on_settle rounds b s).0
        ≡ queue_behind s b (add codec on_add b s).1 (post true rounds)
  unfolding deliver
  deliver-queue_behind on_add on_settle rounds b payload s e d t l n v =
      delivered_queue on_settle b s (add codec on_add b s) (post true rounds)
        (add-AddedTo on_add b payload s e d t l n v)
