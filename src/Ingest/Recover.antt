-- ===== src/Ingest/Recover.antt =====
-- `Recover` of internal/ingest/ingest.go, behind a crash and `Open` of internal/wal/wal.go.
use omni_logging.Common.{
  ℕ, ◌+◌, ◌≡◌, refl, sym, ap, subst, ◌⊎◌, inl, inr, Bool, true, false, Option, none, some, List, [],
  ◌∷◌, ◌++◌, ltb, leb, if-elim, Bytes, length, All, All-map, Any, Any-append_left, Any-append_right,
  Any-map,
}
use omni_logging.Wal.Record.{Record}
use omni_logging.Ingest.Journal.{Journal}
use omni_logging.Ingest.Ingestor.{
  Queued, Ingestor, Recovery, recover_flush_batch, recover_flush, recover_event, recover_visit,
  recover_replay, recover_end, recover_last, recover_log, recover,
}
use omni_logging.Ingest.Durable.{Safe}
use omni_logging.Ingest.Flush.{Kept}
use omni_logging.Ingest.Runs.{Reach, Reach-KeptState}

module _ {E : Type 0} (e : E) where
  abbrev Stored : Recovery E → Type 0
  Stored r = Any (λ x. x ≡ e) r.stored

  -- What a recovery holds of an event: it is in the store or waits in the batch.
  abbrev Recovered : Recovery E → Type 0
  Recovered r = Stored r ⊎ Any (λ x. x ≡ e) r.batch

  module _ (store_answer : List E → List E → Bool) where
    recover_flush_batch-Recovered :
        (r : Recovery E) (b : List E)
        → r.batch ≡ b
        → Recovered r
        → Recovered (recover_flush_batch store_answer r b).0
          × ((recover_flush_batch store_answer r b).1 ≡ true
              → Stored (recover_flush_batch store_answer r b).0)
    unfolding recover_flush_batch
    recover_flush_batch-Recovered r [] eq (inl old) = (inl old, λ _. old)
    recover_flush_batch-Recovered r [] eq (inr new) =
        absurd (subst (λ b. Any (λ x. x ≡ e) b) eq new)
    recover_flush_batch-Recovered r (x ∷ xs) eq h =
        if-elim (λ (t : Recovery E × Bool). Recovered t.0 × (t.1 ≡ true → Stored t.0))
          (store_answer r.stored r.batch) (λ _. let s = both h in (inl s, λ _. s))
          (λ _. (h, λ f. cc))
      where
        both : Recovered r → Any (λ x. x ≡ e) (r.stored ++ r.batch)
        both (inl old) = Any-append_left _ r.stored r.batch old
        both (inr new) = Any-append_right _ r.stored r.batch new

    recover_event-Recovered :
        (batch_size seq : ℕ) (r : Recovery E) (o : Option E)
        → Recovered r ⊎ (o ≡ some e)
        → Recovered (recover_event store_answer batch_size seq r o).0
    unfolding recover_event recover_flush
    recover_event-Recovered batch_size seq r none (inl h) = h
    recover_event-Recovered batch_size seq r none (inr h) = absurd (cc)
    recover_event-Recovered batch_size seq r (some y) h =
        let next : Recovery E = record r {
          batch = r.batch ++ y ∷ [];
          max_seq = seq;
          count = r.count + 1;
        } in
        if-elim (λ (t : Recovery E × Bool). Recovered t.0) (leb batch_size (length next.batch))
          (λ _. (recover_flush_batch-Recovered next next.batch refl (held h)).0) (λ _. held h)
      where
        held : Recovered r ⊎ (some y ≡ some e) → Stored r ⊎ Any (λ x. x ≡ e) (r.batch ++ y ∷ [])
        held (inl (inl old)) = inl old
        held (inl (inr new)) = inr (Any-append_left _ r.batch (y ∷ []) new)
        held (inr eq) = inr (Any-append_right _ r.batch (y ∷ []) (inl (cc)))

    -- Of a replay that ran to its end.
    recover_replay-Recovered :
        (unmarshal : Bytes → Option E) (batch_size : ℕ) (recs : List Record) (r : Recovery E)
        → (recover_replay store_answer unmarshal batch_size recs r).1 ≡ true
        → Recovered r ⊎ Any (λ (x : Record). unmarshal x.payload ≡ some e) recs
        → Recovered (recover_replay store_answer unmarshal batch_size recs r).0
    unfolding recover_replay recover_visit
    recover_replay-Recovered unmarshal batch_size [] r ok (inl h) = h
    recover_replay-Recovered unmarshal batch_size [] r ok (inr m) = absurd m
    recover_replay-Recovered unmarshal batch_size (rec ∷ recs) r ok h =
        let t = recover_event store_answer batch_size rec.seq r (unmarshal rec.payload) in
        let ih = recover_replay-Recovered unmarshal batch_size recs t.0 in
        if-elim (λ (x : Recovery E × Bool). x.1 ≡ true → Recovered x.0) t.1
          (λ _ done. ih done (later h)) (λ _ done. cc) ok
      where
        later :
            Recovered r ⊎ Any (λ (x : Record). unmarshal x.payload ≡ some e) (rec ∷ recs)
            → Recovered (recover_event store_answer batch_size rec.seq r (unmarshal rec.payload)).0
              ⊎ Any (λ (x : Record). unmarshal x.payload ≡ some e) recs
        later (inl held) =
            inl (recover_event-Recovered batch_size rec.seq r (unmarshal rec.payload) (inl held))
        later (inr (inl here)) =
            inl (recover_event-Recovered batch_size rec.seq r (unmarshal rec.payload) (inr here))
        later (inr (inr m)) = inr m

module _ {E S A : Type 0} (J : Journal S A) (store_answer : List E → List E → Bool) (e : E) where
  abbrev StoredIf : Ingestor E S × Bool → Type 0
  StoredIf (i, ok) = ok ≡ true → Any (λ x. x ≡ e) i.stored

  recover_last-stored :
      (checkpointed : Bool) (w : S) (i : Ingestor E S) (r : Recovery E) (ok : Bool)
      → (ok ≡ true → Recovered e r)
      → StoredIf (recover_last J store_answer checkpointed w i (r, ok))
  unfolding recover_last
  recover_last-stored checkpointed w i r false h = λ f. cc
  recover_last-stored checkpointed w i r true h =
      let kept = recover_flush_batch-Recovered e store_answer r r.batch refl (h refl) in
      let t : Recovery E × Bool = recover_flush_batch store_answer r r.batch in
      unfold recover_flush in
      if-elim StoredIf t.1
        (λ flushed.
          unfold recover_end in
          if-elim StoredIf (ltb 0 t.0.max_seq) (λ _ _. kept.1 flushed) (λ _ _. kept.1 flushed))
        (λ _ f. cc)

  recover-StoredIf :
      (unmarshal : Bytes → Option E) (checkpointed : Bool) (w : S) (i : Ingestor E S)
      → i.wal ≡ some w
      → Any (λ x. x ≡ e) i.stored ⊎ Any (λ (x : Record). unmarshal x.payload ≡ some e) (J.left w)
      → StoredIf (recover J store_answer unmarshal checkpointed i)
  unfolding recover recover_log
  recover-StoredIf unmarshal checkpointed w i eq h =
      subst (λ x. StoredIf (recover_log J store_answer unmarshal checkpointed i x)) (sym eq)
        (let start : Recovery E = record {
          stored = i.stored;
          batch = [];
          max_seq = 0;
          count = 0;
        } in
          recover_last-stored checkpointed w i
            (recover_replay store_answer unmarshal i.batch_size (J.left w) start).0
            (recover_replay store_answer unmarshal i.batch_size (J.left w) start).1
            (λ ok.
              recover_replay-Recovered e store_answer unmarshal i.batch_size (J.left w) start ok
                (begun h)))
    where
      begun :
          Any (λ x. x ≡ e) i.stored ⊎ Any (λ (x : Record). unmarshal x.payload ≡ some e) (J.left w)
          → (Any (λ x. x ≡ e) i.stored ⊎ ⊥)
            ⊎ Any (λ (x : Record). unmarshal x.payload ≡ some e) (J.left w)
      begun (inl old) = inl (inl old)
      begun (inr m) = inr m

  StoredIf-stored :
      (r : Ingestor E S × Bool) → StoredIf r → r.1 ≡ true → Any (λ x. x ≡ e) r.0.stored
  StoredIf-stored (i, ok) h done = h done

  -- A recovery that reports no error leaves in the store every event that was there and every event
  -- that a pending record of the log decodes to.
  pub recover-stored :
      (unmarshal : Bytes → Option E) (checkpointed : Bool) (w : S) (i : Ingestor E S)
      → i.wal ≡ some w
      → Any (λ x. x ≡ e) i.stored ⊎ Any (λ (x : Record). unmarshal x.payload ≡ some e) (J.left w)
      → (recover J store_answer unmarshal checkpointed i).1 ≡ true
      → Any (λ x. x ≡ e) (recover J store_answer unmarshal checkpointed i).0.stored
  recover-stored unmarshal checkpointed w i eq h =
      StoredIf-stored (recover J store_answer unmarshal checkpointed i)
        (recover-StoredIf unmarshal checkpointed w i eq h)

-- The log at the crash, with the beginning of a record behind its files.
abbrev pub TornAt : {S A : Type 0} → Journal S A → Bytes → Option S → Type 0
TornAt J part none = Unit
TornAt J part (some w) = J.Torn part w

unfoldable pub reopened : {S A : Type 0} → Journal S A → Bool → Bytes → Option S → Option S
reopened J created part none = none
reopened J created part (some w) = some (J.reopen created part w)

-- What the next process starts from: the store as it was, and the log that `Open` finds in the files,
-- behind which the crash may have left the beginning of a record. The queue, the batch and the log's
-- own memory are gone.
unfoldable pub restart : {E S A : Type 0} → Journal S A → Bool → Bytes → Ingestor E S → Ingestor E S
unfolding reopened
restart J created part i = record i {
  published = [];
  wal = reopened J created part i.wal;
  queue = [];
  batch = [];
  max_seq = 0;
  closed = false;
  checkpoint_stalled = false;
  received = 0;
  written = 0;
  dropped = 0;
}

module _ {E S A : Type 0} (J : Journal S A) (marshal : E → Option Bytes)
    (unmarshal : Bytes → Option E) (pipelines : E → E) (store_answer : List E → List E → Bool) where
  -- From an ingestor that keeps what it accepted, after any producers' calls, writer's rounds, ticks
  -- and stops, the process crashes, between two operations or while `Append` writes a record, so that a
  -- part of the record stands behind the files of the log, the last of which may have been created for
  -- it. The next process opens the log from its files and
  -- recovers. If the recovery reports no error, every event for which `Enqueue` returned true is in the
  -- store. Before the crash the calls of the system fail as they may, but for the truncation that takes
  -- a failed append back, which succeeds. Each payload that `Enqueue` hands to the log decodes to its
  -- event, is at most 64 MiB, and gets a number below the uint64 limit.
  pub crash_recovery :
      (acc : List (Queued E)) (i0 i : Ingestor E S) (created : Bool) (part : Bytes)
      (checkpointed : Bool)
      → Kept J unmarshal [] i0
      → Reach J marshal unmarshal pipelines ([], i0) (acc, i)
      → TornAt J part i.wal
      → (recover J store_answer unmarshal checkpointed (restart J created part i)).1 ≡ true
      → All
          (λ (q : Queued E).
            Any
              (λ x. x ≡ q.event)
              (recover J store_answer unmarshal checkpointed (restart J created part i)).0.stored)
          acc
  unfolding restart reopened
  crash_recovery acc i0 i created part checkpointed kept run torn ok =
      let (w, d) = Reach-KeptState J marshal unmarshal pipelines kept run in
      let next : Ingestor E S = restart J created part i in
      let cut : J.Torn part w = subst (λ o. TornAt J part o) d.wal_is torn in
      All-map acc
        (λ q (s : Safe J unmarshal i w q).
          recover-stored J store_answer q.event unmarshal checkpointed (J.reopen created part w)
            next (ap (reopened J created part) d.wal_is) (decodes q w d.good cut s) ok)
        d.safe
    where
      decodes :
          (q : Queued E) (w : S)
          → J.Good w
          → J.Torn part w
          → Safe J unmarshal i w q
          → Any (λ x. x ≡ q.event) i.stored
            ⊎ Any
                (λ (x : Record). unmarshal x.payload ≡ some q.event)
                (J.left (J.reopen created part w))
      decodes q w good cut (inl old) = inl old
      decodes q w good cut (inr logged) = inr (
          J.reopen_law created part w good cut (λ (x : Record). unmarshal x.payload ≡ some q.event)
            (Any-map (J.left w) (λ r h. h.1) logged))
