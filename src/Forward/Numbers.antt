-- ===== src/Forward/Numbers.antt =====
-- The numbers of the batches that wait in the spool of internal/forward/spool.go rise.
use omni_logging.Common.{
  ℕ, suc, ◌<◌, ◌≤◌, ◌≡◌, refl, ap, Bool, Option, none, some, List, [], ◌∷◌, ◌++◌, if-elim, keep,
  ltb, ltb→lt, lt→ltb, arith,
}
use omni_logging.Wal.Record.{Record}
use omni_logging.Wal.Log.{Segment, all_records, pending, beyond}
use omni_logging.Wal.Chain.{Increasing, Increasing-le, Chain, first_start, segment_records_lem}
use omni_logging.Wal.Append.{IsValid}
use omni_logging.Wal.Checkpoint.{Chain-first_start}
use omni_logging.Forward.{Codec, Spool}
use omni_logging.Forward.Queue.{or_skip, numbered, batches, outstanding, is_beyond}

-- Strictly increasing numbers from `lo` on, below `hi`.
abbrev pub Rising : {A : Type 0} → (A → ℕ) → ℕ → List A → ℕ → Type 0
Rising number lo [] hi = Unit
Rising number lo (x ∷ xs) hi =
    (lo ≤ number x) × (number x < hi) × Rising number (suc (number x)) xs hi

Rising-lower :
    {A : Type 0} (number : A → ℕ) (lo lo' : ℕ) (xs : List A) (hi : ℕ)
    → lo' ≤ lo
    → Rising number lo xs hi
    → Rising number lo' xs hi
Rising-lower number lo lo' [] hi le h = tt
Rising-lower number lo lo' (x ∷ xs) hi le (a, b, c) = (omega arith, b, c)

abbrev pub seq_of_record : Record → ℕ
seq_of_record r = r.seq

-- A segment's records, in front of the later ones.
Rising-segment :
    (lo : ℕ) (rs : List Record) (mid : ℕ) (qs : List Record) (hi : ℕ)
    → Increasing lo rs mid
    → mid ≤ hi
    → Rising seq_of_record mid qs hi
    → Rising seq_of_record lo (rs ++ qs) hi
Rising-segment lo [] mid qs hi le top h = Rising-lower seq_of_record mid lo qs hi le h
Rising-segment lo (r ∷ rs) mid qs hi (a, i) top h = (
  a,
  omega (arith, Increasing-le (suc r.seq) rs mid i, top),
  Rising-segment (suc r.seq) rs mid qs hi i top h,
)

Rising-chain :
    (ss : List Segment) (hi : ℕ)
    → Chain ss hi
    → Rising seq_of_record (first_start hi ss) (all_records ss) hi
unfolding all_records
Rising-chain [] hi h = tt
Rising-chain (s ∷ []) hi ((rs, (e, fs, i)), _) =
    rw (segment_records_lem s rs e fs) (Rising-segment s.start_seq rs hi [] hi i (omega arith) tt)
Rising-chain (s ∷ t ∷ ss) hi ((rs, (e, fs, i)), hs) = rw (segment_records_lem s rs e fs) (
    Rising-segment s.start_seq rs t.start_seq (all_records (t ∷ ss)) hi i
      (Chain-first_start t ss hi hs) (Rising-chain (t ∷ ss) hi hs))

Rising-kept :
    (p : Record → Bool) (lo : ℕ) (rs : List Record) (hi : ℕ)
    → Rising seq_of_record lo rs hi
    → Rising seq_of_record lo (keep p rs) hi
Rising-kept p lo [] hi h = tt
Rising-kept p lo (r ∷ rs) hi (a, b, c) =
    if-elim (λ xs. Rising seq_of_record lo xs hi) (p r)
      (λ _. (a, b, Rising-kept p (suc r.seq) rs hi c))
      (λ _.
        Rising-lower seq_of_record (suc r.seq) lo (keep p rs) hi (omega arith)
          (Rising-kept p (suc r.seq) rs hi c))

-- Those beyond a number rise from behind it.
Rising-keep :
    (cp lo : ℕ) (rs : List Record) (hi : ℕ)
    → Rising seq_of_record lo rs hi
    → Rising seq_of_record (suc cp) (keep (beyond cp) rs) hi
Rising-keep cp lo [] hi h = tt
Rising-keep cp lo (r ∷ rs) hi (a, b, c) =
    if-elim (λ xs. Rising seq_of_record (suc cp) xs hi) (ltb cp r.seq)
      (λ e. (ltb→lt cp r.seq e, b, Rising-kept (beyond cp) (suc r.seq) rs hi c))
      (λ _. Rising-keep cp (suc r.seq) rs hi c)

module _ {B D : Type 0} (codec : Codec B D) where
  abbrev pub seq_of_batch : ℕ × B → ℕ
  seq_of_batch (n, b) = n

  Rising-numbered :
      (n lo : ℕ) (o : Option B) (xs : List (ℕ × B)) (hi : ℕ)
      → lo ≤ n
      → n < hi
      → Rising seq_of_batch (suc n) xs hi
      → Rising seq_of_batch lo (or_skip (numbered n o) xs) hi
  Rising-numbered n lo none xs hi a b h = Rising-lower seq_of_batch (suc n) lo xs hi (omega arith) h
  Rising-numbered n lo (some x) xs hi a b h = (a, b, h)

  Rising-batches :
      (lo : ℕ) (rs : List Record) (hi : ℕ)
      → Rising seq_of_record lo rs hi
      → Rising seq_of_batch lo (batches codec rs) hi
  Rising-batches lo [] hi h = tt
  Rising-batches lo (r ∷ rs) hi (a, b, c) =
      Rising-numbered r.seq lo (codec.decode r.payload) (batches codec rs) hi a b
        (Rising-batches (suc r.seq) rs hi c)

  pub Rising-outstanding :
      (s : Spool) → IsValid s.wal → Rising seq_of_batch 1 (outstanding codec s) s.wal.next_seq
  unfolding pending
  Rising-outstanding s v = Rising-batches 1 (pending s.wal) s.wal.next_seq (
      Rising-lower seq_of_record (suc s.wal.checkpoint) 1 (pending s.wal) s.wal.next_seq
        (omega arith)
        (Rising-keep s.wal.checkpoint (first_start s.wal.next_seq s.wal.segments)
          (all_records s.wal.segments) s.wal.next_seq
          (Rising-chain s.wal.segments s.wal.next_seq v.chain)))

  -- All of a rising queue is beyond a number below its first.
  pub keep-rising :
      (n lo : ℕ) (xs : List (ℕ × B)) (hi : ℕ)
      → n < lo
      → Rising seq_of_batch lo xs hi
      → keep (is_beyond codec n) xs ≡ xs
  keep-rising n lo [] hi low h = refl
  keep-rising n lo ((m, b) ∷ xs) hi low (a, _, c) =
      rw (lt→ltb n m (omega arith))
        (ap (λ t. (m, b) ∷ t) (keep-rising n (suc m) xs hi (omega arith) c))
