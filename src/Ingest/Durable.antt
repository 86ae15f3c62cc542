-- ===== src/Ingest/Durable.antt =====
-- Where the accepted events of internal/ingest/ingest.go are: in the store, or in the log beyond its
-- checkpoint.
use omni_logging.Common.{
  ℕ, suc, ◌≤◌, ◌<◌, ◌≡◌, subst, ◌⊎◌, inl, inr, false, Option, some, List, [], ◌∷◌, ◌++◌, arith, ltb,
  if-elim, lt→ltb, Bytes, keep, All, Any, Any-append_left, Any-append_right,
}
use omni_logging.Wal.Record.{Record}
use omni_logging.Wal.Log.{beyond}
use omni_logging.Ingest.Journal.{Journal}
use omni_logging.Ingest.Ingestor.{Queued, Ingestor}

-- Numbers that rise from above `lo`, all below `hi`.
abbrev pub Rising : {E : Type 0} → ℕ → List (Queued E) → ℕ → Type 0
Rising lo [] hi = lo < hi
Rising lo (q ∷ qs) hi = (lo < q.seq) × Rising q.seq qs hi

module _ {E : Type 0} where
  pub Rising-lt : (lo : ℕ) (qs : List (Queued E)) (hi : ℕ) → Rising lo qs hi → lo < hi
  Rising-lt lo [] hi h = h
  Rising-lt lo (q ∷ qs) hi (h, hs) = omega (arith, Rising-lt q.seq qs hi hs)

  pub Rising-snoc :
      (lo : ℕ) (qs : List (Queued E)) (q : Queued E)
      → Rising lo qs q.seq
      → Rising lo (qs ++ q ∷ []) (suc q.seq)
  Rising-snoc lo [] q h = (h, omega arith)
  Rising-snoc lo (x ∷ qs) q (h, hs) = (h, Rising-snoc x.seq qs q hs)

  pub Rising-lower :
      (lo lo' : ℕ) (qs : List (Queued E)) (hi : ℕ) → lo' ≤ lo → Rising lo qs hi → Rising lo' qs hi
  Rising-lower lo lo' [] hi g h = omega arith
  Rising-lower lo lo' (q ∷ qs) hi g (h, hs) = (omega arith, hs)

  -- What waits in the queue has a number above the batch's.
  pub Rising-queued :
      (lo : ℕ) (qs : List (Queued E)) (hi : ℕ) (a : Queued E)
      → Rising lo qs hi
      → Any (λ p. p ≡ a) qs
      → lo < a.seq
  Rising-queued lo (q ∷ qs) hi a (h, hs) (inl e) = subst (λ (p : Queued E). lo < p.seq) e h
  Rising-queued lo (q ∷ qs) hi a (h, hs) (inr m) = omega (arith, Rising-queued q.seq qs hi a hs m)
  Rising-queued lo [] hi a h m = absurd m

module _ {E S A : Type 0} (J : Journal S A) (unmarshal : Bytes → Option E) where
  -- A record of the log that holds an accepted event under its number.
  abbrev pub Logged : Queued E → Record → Type 0
  Logged q r = (r.seq ≡ q.seq) × (unmarshal r.payload ≡ some q.event)

  abbrev pub Safe : Ingestor E S → S → Queued E → Type 0
  Safe i w q = Any (λ e. e ≡ q.event) i.stored ⊎ Any (Logged q) (J.left w)

  abbrev pub InHand : Ingestor E S → Queued E → Type 0
  InHand i q =
      Any (λ e. e ≡ q.event) i.stored ⊎ (Any (λ e. e ≡ q.event) i.batch ⊎ Any (λ p. p ≡ q) i.queue)

  -- Every accepted event is in the store or in the log beyond its checkpoint. As long as the
  -- checkpoint is not stalled, each one that is not stored is in the batch or in the queue.
  pub record IsDurable (accepted : List (Queued E)) (w : S) (i : Ingestor E S) : Type 0 where
    pub wal_is : i.wal ≡ some w
    pub good : J.Good w
    pub safe : All (Safe i w) accepted
    pub in_hand : i.checkpoint_stalled ≡ false → All (InHand i) accepted
    pub rising : Rising i.max_seq i.queue (J.next_seq w)

  Any-beyond :
      (q : Queued E) (c : ℕ) (rs : List Record)
      → c < q.seq
      → Any (Logged q) rs
      → Any (Logged q) (keep (beyond c) rs)
  Any-beyond q c (r ∷ rs) h (inl (e, d)) = rw (lt→ltb c r.seq (omega arith)) (inl (e, d))
  Any-beyond q c (r ∷ rs) h (inr m) =
      let rest = Any-beyond q c rs h m in
      if-elim (λ xs. Any (Logged q) xs) (ltb c r.seq) (λ _. inr rest) (λ _. rest)
  Any-beyond q c [] h m = absurd m

  -- An event that is in hand stays safe when its batch is stored and the checkpoint moves up to it.
  pub Safe-advance :
      (i : Ingestor E S) (w : S) (q : Queued E)
      → Rising i.max_seq i.queue (J.next_seq w)
      → Safe i w q
      → InHand i q
      → Any (λ e. e ≡ q.event) (i.stored ++ i.batch)
        ⊎ (Any (Logged q) (keep (beyond i.max_seq) (J.left w)) × Any (λ p. p ≡ q) i.queue)
  Safe-advance i w q rise s (inl old) = inl (Any-append_left _ i.stored i.batch old)
  Safe-advance i w q rise s (inr (inl new)) = inl (Any-append_right _ i.stored i.batch new)
  Safe-advance i w q rise (inl old) (inr (inr waits)) = inl (Any-append_left _ i.stored i.batch old)
  Safe-advance i w q rise (inr logged) (inr (inr waits)) = inr (
    Any-beyond q i.max_seq (J.left w) (Rising-queued i.max_seq i.queue _ q rise waits) logged,
    waits,
  )
