-- ===== src/Forward/Batching.antt =====
-- The batches that `send` of internal/forward/forward.go makes of the lines.
use omni_logging.Common.{
  ℕ, ◌≤◌, ◌<◌, ◌≡◌, refl, sym, ap, ◌∙◌, List, [], ◌∷◌, ◌++◌, append-nil, append_assoc, arith,
  if-elim, leb, leb→lt, Bytes, length, length-append, All, All-append,
}
use omni_logging.Forward.Tailing.{SendEvent, line, tick, closed, cancelled, flush, send}

-- The lines that come before the end of the lines or of the context.
abbrev pub lines_of : List SendEvent → List Bytes
lines_of [] = []
lines_of (line l ∷ es) = l ∷ lines_of es
lines_of (tick ∷ es) = lines_of es
lines_of (closed ∷ es) = []
lines_of (cancelled ∷ es) = []

abbrev pub concat : List (List Bytes) → List Bytes
concat [] = []
concat (b ∷ bs) = b ++ concat bs

-- A batch that is delivered is not empty and not above the limit.
abbrev pub IsBatch : ℕ → List Bytes → Type 0
IsBatch size b = (0 < length b) × (length b ≤ size)

-- What `send` has made of a batch and of events: every line is in one batch, in order, or still held.
pub record IsWhole (size : ℕ) (batch : List Bytes) (es : List SendEvent)
    (r : List (List Bytes) × List Bytes) : Type 0 where
  pub lines : concat r.0 ++ r.1 ≡ batch ++ lines_of es
  pub batches : All (IsBatch size) r.0
  pub held : length r.1 < size

concat-append : (xs ys : List (List Bytes)) → concat (xs ++ ys) ≡ concat xs ++ concat ys
concat-append [] ys = refl
concat-append (b ∷ xs) ys =
    ap (λ t. b ++ t) (concat-append xs ys) ∙ sym (append_assoc b (concat xs) (concat ys))

concat-flush : (batch : List Bytes) → concat (flush batch) ≡ batch
unfolding flush
concat-flush [] = refl
concat-flush (l ∷ ls) = append-nil (l ∷ ls)

flush-IsBatch :
    (size : ℕ) (batch : List Bytes) → length batch ≤ size → All (IsBatch size) (flush batch)
unfolding flush
flush-IsBatch size [] h = tt
flush-IsBatch size (l ∷ ls) h = ((omega arith, h), tt)

-- A flush in front of what is made of the events behind it.
flushed :
    (size : ℕ) (batch : List Bytes) (es : List SendEvent) (r : List (List Bytes) × List Bytes)
    → length batch ≤ size
    → IsWhole size [] es r
    → (concat (flush batch ++ r.0) ++ r.1 ≡ batch ++ lines_of es)
      × All (IsBatch size) (flush batch ++ r.0)
flushed size batch es r h w = (
  ap (λ t. t ++ r.1) (concat-append (flush batch) r.0)
      ∙ append_assoc (concat (flush batch)) (concat r.0) r.1
      ∙ (λ i. concat-flush batch i ++ w.lines i),
  All-append (IsBatch size) (flush batch) r.0 (flush-IsBatch size batch h) w.batches,
)

ended :
    (size : ℕ) (batch : List Bytes)
    → length batch < size
    → (concat (flush batch) ++ [] ≡ batch ++ []) × All (IsBatch size) (flush batch)
ended size batch h =
    (ap (λ t. t ++ []) (concat-flush batch), flush-IsBatch size batch (omega arith))

-- Whatever lines and ticks come, every line that comes before the end is in one batch that is delivered, or in the one
-- that is still held, in its order; no batch is empty or above the limit, and what is held is below it. The limit
-- is above 0 and the first batch below it.
pub send-IsWhole :
    (size : ℕ) (batch : List Bytes) (es : List SendEvent)
    → length batch < size
    → IsWhole size batch es (send size batch es)
unfolding send
send-IsWhole size batch [] h = record { lines = sym (append-nil batch); batches = tt; held = h }
send-IsWhole size batch (line l ∷ es) h =
    let more = send-IsWhole size (batch ++ l ∷ []) es in
    let full = send-IsWhole size [] es (omega arith) in
    let parts = append_assoc batch (l ∷ []) (lines_of es) in
    if-elim (IsWhole size batch (line l ∷ es)) (leb size (length (batch ++ l ∷ [])))
      (λ _.
        let f =
          flushed size (batch ++ l ∷ []) es (send size [] es)
            (omega (arith, length-append batch (l ∷ []))) full in
        record { lines = f.0 ∙ parts; batches = f.1; held = full.held })
      (λ low.
        let w = more (leb→lt size (length (batch ++ l ∷ [])) low) in
        record { lines = w.lines ∙ parts; batches = w.batches; held = w.held })
send-IsWhole size batch (tick ∷ es) h =
    let w = send-IsWhole size [] es (omega arith) in
    let f = flushed size batch es (send size [] es) (omega arith) w in
    record { lines = f.0; batches = f.1; held = w.held }
send-IsWhole size batch (closed ∷ es) h =
    let e = ended size batch h in record { lines = e.0; batches = e.1; held = omega arith }
send-IsWhole size batch (cancelled ∷ es) h =
    let e = ended size batch h in record { lines = e.0; batches = e.1; held = omega arith }
