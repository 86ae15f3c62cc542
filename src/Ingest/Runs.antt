-- ===== src/Ingest/Runs.antt =====
-- Runs of the ingestor of internal/ingest/ingest.go up to a crash, and the recovery behind it.
use omni_logging.Common.{◌≡◌, Option, none, some, List, [], ◌∷◌, ◌++◌, Bytes}
use omni_logging.Ingest.Journal.{Journal}
use omni_logging.Ingest.Ingestor.{Queued, Ingestor, WriteAnswers, enqueue, flush, receive, stop}
use omni_logging.Ingest.Flush.{Kept, flush-IsDurable}
use omni_logging.Ingest.Accept.{EnqueueKept, enqueue-Kept, receive-Kept, stop-Kept}

-- The accepted events beside the state.
abbrev pub with_result :
    {E S : Type 0}
    → List (Queued E)
    → Ingestor E S × Option (Queued E)
    → List (Queued E) × Ingestor E S
with_result accepted (i, none) = (accepted, i)
with_result accepted (i, some q) = (accepted ++ q ∷ [], i)

module _ {E S A : Type 0} (J : Journal S A) (marshal : E → Option Bytes)
    (unmarshal : Bytes → Option E) (pipelines : E → E) where
  -- One operation: a producer's `Enqueue` of an event that the log can take, a round of the writer, a
  -- flush at a tick, or `Stop`.
  pub data Step : List (Queued E) × Ingestor E S → List (Queued E) × Ingestor E S → Type 0 where
    enqueues :
        (acc : List (Queued E)) (i : Ingestor E S) (io : A) (event : E)
        → ((payload : Bytes) (w : S)
            → i.wal ≡ some w
            → marshal (pipelines event) ≡ some payload
            → (unmarshal payload ≡ some (pipelines event)) × J.Admissible io payload w)
        → Step (acc, i) (with_result acc (enqueue J marshal pipelines io event i))
    receives :
        (acc : List (Queued E)) (i : Ingestor E S) (io : WriteAnswers)
        → Step (acc, i) (acc, receive J io i)
    ticks :
        (acc : List (Queued E)) (i : Ingestor E S) (io : WriteAnswers)
        → Step (acc, i) (acc, flush J io i)
    stops : (acc : List (Queued E)) (i : Ingestor E S) → Step (acc, i) (acc, stop J i)

  pub data Reach (s : List (Queued E) × Ingestor E S)
      : List (Queued E) × Ingestor E S → Type 0 where
    here : Reach s s
    next : {t u : List (Queued E) × Ingestor E S} → Reach s t → Step t u → Reach s u

  abbrev pub KeptState : List (Queued E) × Ingestor E S → Type 0
  KeptState (acc, i) = Kept J unmarshal acc i

  KeptState-with_result :
      (acc : List (Queued E)) (e : E) (r : Ingestor E S × Option (Queued E))
      → EnqueueKept J unmarshal acc e r
      → KeptState (with_result acc r)
  KeptState-with_result acc e (i, none) k = k
  KeptState-with_result acc e (i, some q) (_, k) = k

  Step-KeptState : {s t : List (Queued E) × Ingestor E S} → Step s t → KeptState s → KeptState t
  Step-KeptState (enqueues acc i io event fits) (w, d) =
      KeptState-with_result acc (pipelines event) (enqueue J marshal pipelines io event i) (
        enqueue-Kept J unmarshal acc marshal pipelines io event w i
          (λ payload m. fits payload w d.wal_is m) d)
  Step-KeptState (receives acc i io) (w, d) = receive-Kept J unmarshal acc io w i d
  Step-KeptState (ticks acc i io) (w, d) = flush-IsDurable J unmarshal acc io w i d
  Step-KeptState (stops acc i) (w, d) = stop-Kept J unmarshal acc w i d

  pub Reach-KeptState :
      {s t : List (Queued E) × Ingestor E S} → KeptState s → Reach s t → KeptState t
  Reach-KeptState k here = k
  Reach-KeptState k (next r st) = Step-KeptState st (Reach-KeptState k r)
