-- ===== src/Forward/Queue.antt =====
-- The spool of internal/forward/spool.go as a queue of batches.
use omni_logging.Common.{
  ℕ, ◌+◌, ◌^◌, ◌<◌, ◌≤◌, ◌≡◌, refl, sym, ap, subst, ◌∙◌, Bool, true, false, Option, none, some,
  List, [], ◌∷◌, ◌++◌, if◌then◌else◌, Bytes, length, keep, ltb, arith,
}
use omni_logging.Wal.Record.{Record, max_record_bytes}
use omni_logging.Wal.Log.{Wal, append, set_checkpoint, pending, beyond, replay, visit_all}
use omni_logging.Wal.Append.{IsValid}
use omni_logging.Wal.Accept.{PendingOutcome, append-pending}
use omni_logging.Wal.Checkpoint.{set_checkpoint-Advanced}
use omni_logging.Forward.{
  Codec, Spool, Added, added, unsynced, refused, AddAnswers, outcome_of, add, ack, visited,
  visit_batch, for_pending,
}

-- The callback on batches in order, until its first error.
abbrev pub each : {A S : Type 0} → (A → S → S × Bool) → List A → S → S × Bool
each fn [] st = (st, true)
each fn (x ∷ xs) st =
    let (st', ok) = fn x st in let rest = each fn xs st' in if ok then rest else (st', false)

abbrev pub or_skip : {A : Type 0} → Option A → List A → List A
or_skip none xs = xs
or_skip (some x) xs = x ∷ xs

abbrev pub numbered : {B : Type 0} → ℕ → Option B → Option (ℕ × B)
numbered n none = none
numbered n (some b) = some (n, b)

or_skip-append :
    {A : Type 0} (o : Option A) (xs ys : List A) → or_skip o (xs ++ ys) ≡ or_skip o xs ++ ys
or_skip-append none xs ys = refl
or_skip-append (some x) xs ys = refl

visit_one :
    {B S : Type 0} (fn : ℕ → B → S → S × Bool) (n : ℕ) (o : Option B) (rest : S → S × Bool)
    (xs : List (ℕ × B)) (st : S)
    → ((x : S) → rest x ≡ each (λ (q : ℕ × B). fn q.0 q.1) xs x)
    → (if (visited fn n o st).1 then rest (visited fn n o st).0 else ((visited fn n o st).0, false))
      ≡ each (λ (q : ℕ × B). fn q.0 q.1) (or_skip (numbered n o) xs) st
unfolding visited
visit_one fn n none rest xs st h = h st
visit_one fn n (some b) rest xs st h =
    ap (λ x. if (fn n b st).1 then x else ((fn n b st).0, false)) (h (fn n b st).0)

module _ {B D : Type 0} (codec : Codec B D) where
  -- The batches of a log's records, with their numbers.
  abbrev pub batches : List Record → List (ℕ × B)
  batches [] = []
  batches (r ∷ rs) = or_skip (numbered r.seq (codec.decode r.payload)) (batches rs)

  -- The batches that wait for delivery.
  abbrev pub outstanding : Spool → List (ℕ × B)
  outstanding s = batches (pending s.wal)

  abbrev pub is_beyond : ℕ → ℕ × B → Bool
  is_beyond seq (n, b) = ltb seq n

  batches-append : (rs qs : List Record) → batches (rs ++ qs) ≡ batches rs ++ batches qs
  batches-append [] qs = refl
  batches-append (r ∷ rs) qs =
      ap (or_skip (numbered r.seq (codec.decode r.payload))) (batches-append rs qs)
      ∙ or_skip-append (numbered r.seq (codec.decode r.payload)) (batches rs) (batches qs)

  batches-if :
      (b : Bool) (r : Record) (rs : List Record)
      → batches (if b then r ∷ rs else rs)
        ≡ (if b then or_skip (numbered r.seq (codec.decode r.payload)) (batches rs) else batches rs)
  batches-if true r rs = refl
  batches-if false r rs = refl

  keep-numbered :
      (cp n : ℕ) (o : Option B) (xs : List (ℕ × B))
      → keep (is_beyond cp) (or_skip (numbered n o) xs) ≡ (
          if ltb cp n
          then or_skip (numbered n o) (keep (is_beyond cp) xs)
          else keep (is_beyond cp) xs)
  keep-numbered cp n (some b) xs = refl
  keep-numbered cp n none xs = ground arith

  pub batches-keep :
      (cp : ℕ) (rs : List Record) → batches (keep (beyond cp) rs) ≡ keep (is_beyond cp) (batches rs)
  batches-keep cp [] = refl
  batches-keep cp (r ∷ rs) =
      let o : Option B = codec.decode r.payload in
      batches-if (ltb cp r.seq) r (keep (beyond cp) rs)
      ∙ ap (λ xs. if ltb cp r.seq then or_skip (numbered r.seq o) xs else xs) (batches-keep cp rs)
      ∙ sym (keep-numbered cp r.seq o (batches rs))

  pub visit_all-each :
      {S : Type 0} (fn : ℕ → B → S → S × Bool) (rs : List Record) (st : S)
      → visit_all (visit_batch codec fn) rs st ≡ each (λ (q : ℕ × B). fn q.0 q.1) (batches rs) st
  unfolding visit_all visit_batch
  visit_all-each fn [] st = refl
  visit_all-each fn (r ∷ rs) st =
      visit_one fn r.seq (codec.decode r.payload) (visit_all (visit_batch codec fn) rs) (batches rs)
        st (λ x. visit_all-each fn rs x)

  -- What Add leaves in the queue.
  abbrev pub QueueAfter : Spool → B → Spool × Added → Type 0
  QueueAfter s b (s', refused) = outstanding s' ≡ outstanding s
  QueueAfter s b (s', added seq) = outstanding s' ≡ outstanding s ++ (s.wal.next_seq, b) ∷ []
  QueueAfter s b (s', unsynced seq) = outstanding s' ≡ outstanding s ++ (s.wal.next_seq, b) ∷ []

  added_one :
      (s : Spool) (b : B) (payload : Bytes) (w : Wal)
      → pending w ≡ pending s.wal ++ record { seq = s.wal.next_seq; payload = payload } ∷ []
      → codec.decode payload ≡ some b
      → batches (pending w) ≡ outstanding s ++ (s.wal.next_seq, b) ∷ []
  added_one s b payload w h d =
      ap batches h
      ∙ batches-append (pending s.wal) (record { seq = s.wal.next_seq; payload = payload } ∷ [])
      ∙ ap (λ o. outstanding s ++ or_skip (numbered s.wal.next_seq o) []) d

  pub queue_after :
      (s : Spool) (b : B) (payload : Bytes) (synced : Bool) (r : Wal × Option ℕ)
      → codec.decode payload ≡ some b
      → PendingOutcome payload s.wal r
      → QueueAfter s b (record s { wal = r.0 }, outcome_of codec synced r.1)
  unfolding outcome_of
  queue_after s b payload synced (w, none) d h = ap batches h
  queue_after s b payload true (w, some seq) d h = added_one s b payload w h d
  queue_after s b payload false (w, some seq) d h = added_one s b payload w h d

  -- A batch that Add takes, whether its sync fails or not, is the last one that waits; where Add refuses
  -- it, the queue is what it was. The batch is decoded from its JSON as it was, its JSON is at most 64 MiB, the
  -- rollback of the log, if it is needed, succeeds, and the log is valid, its next number below the limit.
  pub add-QueueAfter :
      (io : AddAnswers) (b : B) (payload : Bytes) (s : Spool)
      → codec.encode b ≡ some payload
      → codec.decode payload ≡ some b
      → io.log.truncated ≡ true
      → length payload ≤ max_record_bytes
      → s.wal.next_seq + 1 < 2 ^ 64
      → IsValid s.wal
      → QueueAfter s b (add codec io b s)
  unfolding add
  add-QueueAfter io b payload s e d t l n v =
      subst
        (λ o. QueueAfter s b (elim o as (λ _. Spool × Added) [
          | none ↦ (s, refused)
          | some p ↦ (
            record s { wal = (append io.log p s.wal).0 },
            outcome_of codec io.synced (append io.log p s.wal).1,
          )
        ]))
        (sym e)
        (queue_after s b payload io.synced (append io.log payload s.wal) d
          (append-pending io.log payload s.wal t l n v))

  -- Once the batches up to a number that the log has given out are acknowledged, whether the checkpoint is
  -- written or not, Pending visits those of the ones that waited that are numbered above it, in order, until
  -- the callback's first error. The log is valid.
  pub ack-for_pending :
      {S : Type 0} (written : Bool) (seq : ℕ) (s : Spool) (fn : ℕ → B → S → S × Bool) (st : S)
      → IsValid s.wal
      → seq < s.wal.next_seq
      → for_pending codec fn (ack codec written seq s).0 st
        ≡ each (λ (q : ℕ × B). fn q.0 q.1) (keep (is_beyond seq) (outstanding s)) st
  unfolding for_pending ack replay
  ack-for_pending written seq s fn st v below =
      visit_all-each fn (pending (set_checkpoint written seq s.wal).0) st
      ∙ ap (λ rs. each (λ (q : ℕ × B). fn q.0 q.1) (batches rs) st)
          (set_checkpoint-Advanced written seq s.wal v below).left
      ∙ ap (λ xs. each (λ (q : ℕ × B). fn q.0 q.1) xs st) (batches-keep seq (pending s.wal))
