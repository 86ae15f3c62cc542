-- ===== src/Ingest/Accept.antt =====
-- What `Enqueue`, `run` and `Stop` of internal/ingest/ingest.go do to the accepted events.
use omni_logging.Common.{
  ℕ, suc, ◌+◌, ◌≡◌, refl, sym, ap, subst, inl, inr, ◌||◌, Option, none, some, List, [], ◌∷◌, ◌++◌,
  ltb, leb, if◌then◌else◌, if-elim, Bytes, length, All-map, All-append, Any, Any-append_left,
  Any-append_right, lt→ltb,
}
use omni_logging.Wal.Record.{Record}
use omni_logging.Ingest.Journal.{Journal, Appended}
use omni_logging.Ingest.Ingestor.{
  Queued, Ingestor, WriteAnswers, accept, drop_event, logged, enqueue_open, enqueue, receive_from,
  receive, stop,
}
use omni_logging.Ingest.Durable.{Rising, Rising-snoc, Safe, InHand, Logged, IsDurable}
use omni_logging.Ingest.Flush.{Kept, flush-IsDurable}

-- What a caller of `Enqueue` may rely on: where it returns true, it is this event that was accepted, and
-- it joins those that are kept; else these are kept as before.
abbrev pub EnqueueKept :
    {E S A : Type 0}
    → Journal S A
    → (Bytes → Option E)
    → List (Queued E)
    → E
    → Ingestor E S × Option (Queued E)
    → Type 0
EnqueueKept J unmarshal accepted e (i, none) = Kept J unmarshal accepted i
EnqueueKept J unmarshal accepted e (i, some q) =
    (q.event ≡ e) × Kept J unmarshal (accepted ++ q ∷ []) i

module _ {E S A : Type 0} (J : Journal S A) (unmarshal : Bytes → Option E)
    (accepted : List (Queued E)) where
  IsDurable-dropped :
      (w v : S) (i : Ingestor E S) (n : ℕ)
      → IsDurable J unmarshal accepted w i
      → J.Good v
      → J.next_seq v ≡ J.next_seq w
      → J.left v ≡ J.left w
      → IsDurable J unmarshal accepted v (record i { wal = some v; dropped = n })
  IsDurable-dropped w v i n d g e l = record {
    wal_is = refl;
    good = g;
    safe =
        All-map accepted
          (λ q (s : Safe J unmarshal i w q). elim s [
            | inl old ↦ inl old
            | inr logged ↦ inr (subst (λ rs. Any (Logged J unmarshal q) rs) (sym l) logged)
          ])
          d.safe;
    in_hand = d.in_hand;
    rising = subst (λ m. Rising i.max_seq i.queue m) (sym e) d.rising;
  }

  IsDurable-accepted :
      (w v : S) (i : Ingestor E S) (e : E) (payload : Bytes) (n : ℕ)
      → IsDurable J unmarshal accepted w i
      → unmarshal payload ≡ some e
      → J.Good v
      → J.next_seq v ≡ suc (J.next_seq w)
      → J.left v ≡ J.left w ++ record { seq = J.next_seq w; payload = payload } ∷ []
      → (let q : Queued E = record { event = e; seq = J.next_seq w } in
          IsDurable J unmarshal
            (accepted ++ q ∷ [])
            v
            (record i { wal = some v; queue = i.queue ++ q ∷ []; received = n }))
  IsDurable-accepted w v i e payload n d decodes g next l =
      let q : Queued E = record { event = e; seq = J.next_seq w } in
      let r : Record = record { seq = J.next_seq w; payload = payload } in
      let j : Ingestor E S = record i { wal = some v; queue = i.queue ++ q ∷ []; received = n } in
      record {
        wal_is = refl;
        good = g;
        safe =
            All-append (Safe J unmarshal j v) accepted (q ∷ [])
              (All-map accepted
                (λ x (s : Safe J unmarshal i w x). elim s [
                  | inl old ↦ inl old
                  | inr logged ↦ inr (
                      subst (λ rs. Any (Logged J unmarshal x) rs) (sym l)
                        (Any-append_left _ (J.left w) (r ∷ []) logged))
                ])
                d.safe)
              (
                inr (
                    subst (λ rs. Any (Logged J unmarshal q) rs) (sym l)
                      (Any-append_right _ (J.left w) (r ∷ []) (inl (refl, decodes)))),
                tt,
              );
        in_hand = λ running.
            All-append (InHand J unmarshal j) accepted (q ∷ [])
              (All-map accepted
                (λ x (h : InHand J unmarshal i x). elim h [
                  | inl old ↦ inl old
                  | inr (inl new) ↦ inr (inl new)
                  | inr (inr waits) ↦ inr (inr (Any-append_left _ i.queue (q ∷ []) waits))
                ])
                (d.in_hand running))
              (inr (inr (Any-append_right _ i.queue (q ∷ []) (inl refl))), tt);
        rising =
            subst (λ m. Rising i.max_seq (i.queue ++ q ∷ []) m) (sym next)
              (Rising-snoc i.max_seq i.queue q d.rising);
      }

  logged-Kept :
      (e : E) (payload : Bytes) (w : S) (i : Ingestor E S) (r : S × Option ℕ)
      → unmarshal payload ≡ some e
      → IsDurable J unmarshal accepted w i
      → Appended J.Good J.next_seq J.left payload w r
      → EnqueueKept J unmarshal accepted e (logged J e i r)
  unfolding logged drop_event accept
  logged-Kept e payload w i (v, none) decodes d (g, n, l) =
      (v, IsDurable-dropped w v i (i.dropped + 1) d g n l)
  logged-Kept e payload w i (v, some seq) decodes d (g, s, n, l) =
      rw s (refl, (v, IsDurable-accepted w v i e payload (i.received + 1) d decodes g n l))

  IsDurable-uncounted :
      (w : S) (i : Ingestor E S) (n : ℕ)
      → IsDurable J unmarshal accepted w i
      → IsDurable J unmarshal accepted w (record i { dropped = n })
  IsDurable-uncounted w i n d = record {
    wal_is = d.wal_is;
    good = d.good;
    safe = d.safe;
    in_hand = d.in_hand;
    rising = d.rising;
  }

  enqueue_open-Kept :
      (marshal : E → Option Bytes) (io : A) (e : E) (w : S) (i : Ingestor E S)
      → ((payload : Bytes)
          → marshal e ≡ some payload
          → (unmarshal payload ≡ some e) × J.Admissible io payload w)
      → IsDurable J unmarshal accepted w i
      → EnqueueKept J unmarshal accepted e (enqueue_open J marshal io e i i.wal)
  enqueue_open-Kept marshal io e w i fits d =
      subst (λ x. EnqueueKept J unmarshal accepted e (enqueue_open J marshal io e i x))
        (sym d.wal_is) (go (marshal e) refl)
    where
      go :
          (p : Option Bytes)
          → marshal e ≡ p
          → EnqueueKept J unmarshal accepted e (enqueue_open J marshal io e i (some w))
      go none eq =
          unfold enqueue_open drop_event in
          rw (eq, enqueue_open) (w, IsDurable-uncounted w i (i.dropped + 1) d)
      go (some payload) eq =
          unfold enqueue_open in
          rw (eq, enqueue_open)
            (logged-Kept e payload w i (J.append io payload w) (fits payload eq).0 d
              (J.append_law io payload w d.good (fits payload eq).1))

  -- `Enqueue` loses nothing that was accepted before, whether it refuses the event for a full buffer, for
  -- its encoding or for the log, or accepts it. If it returns true, the event that it accepted is the
  -- one that the pipelines made of the producer's, and it is kept too. The encoding of that event
  -- decodes to it and is at most 64 MiB, its number is below the uint64 limit, and if its append fails
  -- in the write or in the sync, the truncation that takes it back succeeds.
  pub enqueue-Kept :
      (marshal : E → Option Bytes) (pipelines : E → E) (io : A) (event : E) (w : S)
      (i : Ingestor E S)
      → ((payload : Bytes)
          → marshal (pipelines event) ≡ some payload
          → (unmarshal payload ≡ some (pipelines event)) × J.Admissible io payload w)
      → IsDurable J unmarshal accepted w i
      → EnqueueKept J unmarshal accepted (pipelines event) (enqueue J marshal pipelines io event i)
  unfolding enqueue drop_event
  enqueue-Kept marshal pipelines io event w i fits d =
      if-elim (EnqueueKept J unmarshal accepted (pipelines event))
        (i.closed || leb i.buffer_size (length i.queue))
        (λ _. (w, IsDurable-uncounted w i (i.dropped + 1) d))
        (λ _. enqueue_open-Kept marshal io (pipelines event) w i fits d)

  InHand-received :
      (i : Ingestor E S) (q : Queued E) (rest : List (Queued E)) (top : ℕ) (x : Queued E)
      → i.queue ≡ q ∷ rest
      → InHand J unmarshal i x
      → InHand J unmarshal
          (record i { queue = rest; batch = i.batch ++ q.event ∷ []; max_seq = top })
          x
  InHand-received i q rest top x e (inl old) = inl old
  InHand-received i q rest top x e (inr (inl new)) =
      inr (inl (Any-append_left _ i.batch (q.event ∷ []) new))
  InHand-received i q rest top x e (inr (inr waits)) =
      elim (subst (λ qs. Any (λ p. p ≡ x) qs) e waits) [
        | inl head ↦ inr (
            inl (
              Any-append_right _ i.batch (q.event ∷ [])
                (inl (ap (λ (p : Queued E). p.event) head))))
        | inr later ↦ inr (inr later)
      ]

  receive_from-Kept :
      (io : WriteAnswers) (w : S) (i : Ingestor E S) (qs : List (Queued E))
      → i.queue ≡ qs
      → IsDurable J unmarshal accepted w i
      → Kept J unmarshal accepted (receive_from J io i qs)
  unfolding receive_from
  receive_from-Kept io w i [] e d = (w, d)
  receive_from-Kept io w i (q ∷ rest) e d =
      let rise = subst (λ qs. Rising i.max_seq qs (J.next_seq w)) e d.rising in
      let j : Ingestor E S = record i {
        queue = rest;
        batch = i.batch ++ q.event ∷ [];
        max_seq = if ltb i.max_seq q.seq then q.seq else i.max_seq;
      } in
      let kept : IsDurable J unmarshal accepted w j = record {
        wal_is = d.wal_is;
        good = d.good;
        safe = d.safe;
        in_hand = λ running.
            All-map accepted (λ x h. InHand-received i q rest j.max_seq x e h) (d.in_hand running);
        rising = rw (lt→ltb i.max_seq q.seq rise.0) rise.1;
      } in
      if-elim (Kept J unmarshal accepted) (leb i.batch_size (length j.batch))
        (λ _. flush-IsDurable J unmarshal accepted io w j kept) (λ _. (w, kept))

  -- From a state that keeps every accepted event, a round of the writer keeps them, whatever the log, the store and the file answer.
  pub receive-Kept :
      (io : WriteAnswers) (w : S) (i : Ingestor E S)
      → IsDurable J unmarshal accepted w i
      → Kept J unmarshal accepted (receive J io i)
  unfolding receive
  receive-Kept io w i d = receive_from-Kept io w i i.queue refl d

  pub stop-Kept :
      (w : S) (i : Ingestor E S)
      → IsDurable J unmarshal accepted w i
      → Kept J unmarshal accepted (stop J i)
  unfolding stop
  stop-Kept w i d = (
    w,
    record {
      wal_is = d.wal_is;
      good = d.good;
      safe = d.safe;
      in_hand = d.in_hand;
      rising = d.rising;
    },
  )
