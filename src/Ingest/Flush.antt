-- ===== src/Ingest/Flush.antt =====
-- Writing a batch: `writeBatch` and `flush` of internal/ingest/ingest.go.
use omni_logging.Common.{
  ℕ, ◌+◌, ◌≡◌, refl, sym, subst, ◌⊎◌, inl, inr, Bool, true, false, not, ◌&&◌, Option, some, List,
  [], ◌∷◌, ◌++◌, arith, ltb, if-elim, Bytes, length, All-map, All-zip, Any, Any-append_left,
  Any-append_right,
}
use omni_logging.Ingest.Journal.{Journal}
use omni_logging.Ingest.Ingestor.{
  Queued, Ingestor, WriteAnswers, advance, has_wal, store_batch, write_batch, flush_batch, flush,
}
use omni_logging.Ingest.Durable.{
  Rising, Rising-lt, Rising-lower, Safe, Logged, InHand, IsDurable, Safe-advance,
}

-- The state behind a flush, but for its counters and its broadcast.
abbrev pub after :
    {E S : Type 0} → List E → Option S → Bool → ℕ → List E → Ingestor E S → Ingestor E S
after stored wal stalled written published i = record i {
  stored = stored;
  wal = wal;
  checkpoint_stalled = stalled;
  written = written;
  published = published;
  batch = [];
  max_seq = 0;
}

module _ {E S A : Type 0} (J : Journal S A) (unmarshal : Bytes → Option E)
    (accepted : List (Queued E)) (w : S) (i : Ingestor E S)
    (d : IsDurable J unmarshal accepted w i) where
  lowered : Rising 0 i.queue (J.next_seq w)
  lowered = Rising-lower i.max_seq 0 i.queue (J.next_seq w) (omega arith) d.rising

  -- The store refused the batch: the log still has it, and the checkpoint stays from now on.
  IsDurable-refused :
      (n : ℕ) (p : List E) → IsDurable J unmarshal accepted w (after i.stored i.wal true n p i)
  IsDurable-refused n p = record {
    wal_is = d.wal_is;
    good = d.good;
    safe = d.safe;
    in_hand = λ h. cc;
    rising = lowered;
  }

  InHand-stored :
      (q : Queued E)
      → InHand J unmarshal i q
      → Any (λ e. e ≡ q.event) (i.stored ++ i.batch) ⊎ (⊥ ⊎ Any (λ p. p ≡ q) i.queue)
  InHand-stored q (inl old) = inl (Any-append_left _ i.stored i.batch old)
  InHand-stored q (inr (inl new)) = inl (Any-append_right _ i.stored i.batch new)
  InHand-stored q (inr (inr waits)) = inr (inr waits)

  Safe-stored :
      (q : Queued E)
      → Safe J unmarshal i w q
      → Any (λ e. e ≡ q.event) (i.stored ++ i.batch) ⊎ Any (Logged J unmarshal q) (J.left w)
  Safe-stored q (inl old) = inl (Any-append_left _ i.stored i.batch old)
  Safe-stored q (inr logged) = inr logged

  -- The batch is stored and the checkpoint does not move.
  IsDurable-stored :
      (b : Bool) (n : ℕ) (p : List E)
      → (b ≡ false → i.checkpoint_stalled ≡ false)
      → IsDurable J unmarshal accepted w (after (i.stored ++ i.batch) i.wal b n p i)
  IsDurable-stored b n p same = record {
    wal_is = d.wal_is;
    good = d.good;
    safe = All-map accepted Safe-stored d.safe;
    in_hand = λ h. All-map accepted InHand-stored (d.in_hand (same h));
    rising = lowered;
  }

  -- The batch is stored and the checkpoint moves up to its last number.
  IsDurable-advanced :
      (ok b : Bool) (n : ℕ) (p : List E)
      → i.checkpoint_stalled ≡ false
      → (let w' = (J.set_checkpoint ok i.max_seq w).0 in
          IsDurable J unmarshal accepted w' (after (i.stored ++ i.batch) (some w') b n p i))
  IsDurable-advanced ok b n p running =
      let w' = (J.set_checkpoint ok i.max_seq w).0 in
      let (good', next', left') =
        J.checkpoint_law ok i.max_seq w d.good
          (Rising-lt i.max_seq i.queue (J.next_seq w) d.rising) in
      record {
        wal_is = refl;
        good = good';
        safe =
            All-zip accepted
              (λ q s h. elim (Safe-advance J unmarshal i w q d.rising s h) [
                | inl old ↦ inl old
                | inr (logged, waits) ↦
                    inr (subst (λ rs. Any (Logged J unmarshal q) rs) (sym left') logged)
              ])
              d.safe (d.in_hand running);
        in_hand = λ _. All-map accepted InHand-stored (d.in_hand running);
        rising = subst (λ n. Rising 0 i.queue n) (sym next') lowered;
      }

abbrev pub Kept :
    {E S A : Type 0} → Journal S A → (Bytes → Option E) → List (Queued E) → Ingestor E S → Type 0
Kept {S = S} J unmarshal accepted i = (w : S) × IsDurable J unmarshal accepted w i

module _ {E S A : Type 0} (J : Journal S A) (unmarshal : Bytes → Option E)
    (accepted : List (Queued E)) where
  -- The end of a round: the batch is broadcast and cleared.
  abbrev finish : List E → Ingestor E S → Ingestor E S
  finish batch k = record k { published = k.published ++ batch; batch = []; max_seq = 0 }

  running_if : (x b : Bool) → x && not b ≡ true → b ≡ false
  running_if x b h = ground arith

  -- The store took the batch; `b` says whether the checkpoint is stalled by then.
  Kept-stored :
      (ok b : Bool) (w : S) (i : Ingestor E S)
      → (b ≡ false → i.checkpoint_stalled ≡ false)
      → IsDurable J unmarshal accepted w i
      → (let j : Ingestor E S = record i {
        stored = i.stored ++ i.batch;
        written = i.written + length i.batch;
        checkpoint_stalled = b;
      } in
          Kept J unmarshal accepted (finish i.batch (advance J ok i.max_seq j i.wal)))
  Kept-stored ok b w i same d =
      let j : Ingestor E S = record i {
        stored = i.stored ++ i.batch;
        written = i.written + length i.batch;
        checkpoint_stalled = b;
      } in
      subst
        (λ (x : Option S). Kept J unmarshal accepted (finish i.batch (advance J ok i.max_seq j x)))
        (sym d.wal_is)
        (unfold advance in
          if-elim (λ (k : Ingestor E S). Kept J unmarshal accepted (finish i.batch k))
            (ltb 0 i.max_seq && not b)
            (λ t. (
              (J.set_checkpoint ok i.max_seq w).0,
              IsDurable-advanced J unmarshal accepted w i d ok
                  (not (J.set_checkpoint ok i.max_seq w).1) (i.written + length i.batch)
                  (i.published ++ i.batch) (same (running_if (ltb 0 i.max_seq) b t)),
            ))
            (λ _. (
              w,
              IsDurable-stored J unmarshal accepted w i d b (i.written + length i.batch)
                  (i.published ++ i.batch) same,
            )))

  Kept-settled :
      (io : WriteAnswers) (b : Bool) (w : S) (i : Ingestor E S)
      → (b ≡ false → i.checkpoint_stalled ≡ false)
      → IsDurable J unmarshal accepted w i
      → Kept J unmarshal accepted
          (record (store_batch J io i.batch i.max_seq (record i { checkpoint_stalled = b })) {
            batch = [];
            max_seq = 0;
          })
  unfolding store_batch
  Kept-settled io b w i same d =
      if-elim
        (λ (k : Ingestor E S). Kept J unmarshal accepted (record k { batch = []; max_seq = 0 }))
        io.stored (λ _. Kept-stored io.checkpointed b w i same d)
        (λ _. (w, IsDurable-refused J unmarshal accepted w i d i.written i.published))

  Kept-written :
      (io : WriteAnswers) (w : S) (i : Ingestor E S)
      → IsDurable J unmarshal accepted w i
      → Kept J unmarshal accepted
          (record (write_batch J io i.batch i.max_seq i) { batch = []; max_seq = 0 })
  unfolding write_batch
  Kept-written io w i d =
      if-elim
        (λ (k : Ingestor E S). Kept J unmarshal accepted (record k { batch = []; max_seq = 0 }))
        (has_wal J i && not io.synced) (λ _. Kept-settled io true w i (λ h. cc) d)
        (λ _. Kept-settled io i.checkpoint_stalled w i (λ h. h) d)

  flush_batch-IsDurable :
      (io : WriteAnswers) (w : S) (i : Ingestor E S) (b : List E)
      → IsDurable J unmarshal accepted w i
      → Kept J unmarshal accepted (flush_batch J io i b)
  unfolding flush_batch
  flush_batch-IsDurable io w i [] d = (w, d)
  flush_batch-IsDurable io w i (e ∷ es) d = Kept-written io w i d

  -- From a state that keeps every accepted event, a flush of the batch keeps them, whether the sync of
  -- the log, the write of the store and the write of the checkpoint succeed or not.
  pub flush-IsDurable :
      (io : WriteAnswers) (w : S) (i : Ingestor E S)
      → IsDurable J unmarshal accepted w i
      → Kept J unmarshal accepted (flush J io i)
  unfolding flush
  flush-IsDurable io w i d = flush_batch-IsDurable io w i i.batch d
