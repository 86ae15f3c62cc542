-- ===== src/Wal/Checkpoint.antt =====
-- `SetCheckpoint` of internal/wal/wal.go and its pruning.
use omni_logging.Common.{
  ℕ, suc, ◌+◌, ◌-◌, ◌%◌, ◌≤◌, ◌<◌, ◌^◌, ◌≡◌, ◌≢◌, refl, sym, ap, ◌∙◌, Bool, true, List, [], ◌∷◌,
  ◌++◌, arith, ltb, leb, if◌then◌else◌, if-elim, lt→ltb, le→ltb, leb→le, leb→lt, keep, keep-append,
  some, take, take-append, append-nil,
}
use omni_logging.Wal.Words.{put_be, get_be, length-put_be, get_be-put_be}
use omni_logging.Wal.Record.{Record}
use omni_logging.Wal.Log.{
  Segment, Wal, prune_segments_locked, set_checkpoint, segment_records, all_records, beyond,
  pending, last_size, read_checkpoint,
}
use omni_logging.Wal.Chain.{
  Increasing, first_start, Chain, Increasing-le, Increasing-grow, segment_records_lem,
}
use omni_logging.Wal.Append.{IsValid}

-- Nothing of an increasing run that ends at or below the checkpoint is pending.
pub keep_none :
    (cp lo : ℕ) (rs : List Record) (hi : ℕ)
    → Increasing lo rs hi
    → hi ≤ suc cp
    → keep (beyond cp) rs ≡ []
keep_none cp lo [] hi h e = refl
keep_none cp lo (r ∷ rs) hi (h, hs) e =
    let below = Increasing-le (suc r.seq) rs hi hs in
    rw (le→ltb cp r.seq (omega arith)) (keep_none cp (suc r.seq) rs hi hs e)

pub Chain-first_start :
    (s : Segment) (ss : List Segment) (hi : ℕ) → Chain (s ∷ ss) hi → s.start_seq ≤ hi
Chain-first_start s [] hi ((rs, (e, fs, i)), _) = Increasing-le s.start_seq rs hi i
Chain-first_start s (t ∷ ss) hi ((rs, (e, fs, i)), hs) =
    omega (arith, Increasing-le s.start_seq rs t.start_seq i, Chain-first_start t ss hi hs)

-- A segment that the checkpoint covers holds nothing pending. Its end is the next one's number less
-- one, as a uint64.
covered_empty :
    (cp : ℕ) (s t : Segment) (ss : List Segment) (hi : ℕ)
    → Chain (s ∷ t ∷ ss) hi
    → hi < 2 ^ 64
    → cp < hi
    → leb ((t.start_seq + 2 ^ 64 - 1) % 2 ^ 64) cp ≡ true
    → keep (beyond cp) (segment_records s) ≡ []
covered_empty cp s t ss hi ((rs, (e, fs, i)), hs) bound below covered =
    let low = Chain-first_start t ss hi hs in
    let le = leb→le ((t.start_seq + 2 ^ 64 - 1) % 2 ^ 64) cp covered in
    rw (segment_records_lem s rs e fs) (keep_none cp s.start_seq rs t.start_seq i (omega arith))

prune-pending :
    (cp : ℕ) (ss : List Segment) (hi : ℕ)
    → Chain ss hi
    → hi < 2 ^ 64
    → cp < hi
    → keep (beyond cp) (all_records (prune_segments_locked cp ss))
      ≡ keep (beyond cp) (all_records ss)
unfolding prune_segments_locked all_records
prune-pending cp [] hi h bound below = refl
prune-pending cp (s ∷ []) hi h bound below = refl
prune-pending cp (s ∷ t ∷ ss) hi (h, hs) bound below =
    let ih = prune-pending cp (t ∷ ss) hi hs bound below in
    let rest : List Segment = prune_segments_locked cp (t ∷ ss) in
    let p : Record → Bool = beyond cp in
    let split = keep-append p (segment_records s) in
    if-elim (λ kept. keep p (all_records kept) ≡ keep p (all_records (s ∷ t ∷ ss)))
      (leb ((t.start_seq + 2 ^ 64 - 1) % 2 ^ 64) cp)
      (λ c.
        ih
        ∙ sym (
            split (all_records (t ∷ ss))
            ∙ ap (λ x. x ++ keep p (all_records (t ∷ ss)))
                (covered_empty cp s t ss hi (h, hs) bound below c)))
      (λ _.
        split (all_records rest)
        ∙ ap (λ x. keep p (segment_records s) ++ x) ih
        ∙ sym (split (all_records (t ∷ ss))))

first_start-prune :
    (cp : ℕ) (s : Segment) (ss : List Segment) (hi : ℕ)
    → Chain (s ∷ ss) hi
    → s.start_seq ≤ first_start hi (prune_segments_locked cp (s ∷ ss))
unfolding prune_segments_locked
first_start-prune cp s [] hi h = omega arith
first_start-prune cp s (t ∷ ss) hi ((rs, (e, fs, i)), hs) =
    let ih = first_start-prune cp t ss hi hs in
    if-elim (λ kept. s.start_seq ≤ first_start hi kept)
      (leb ((t.start_seq + 2 ^ 64 - 1) % 2 ^ 64) cp)
      (λ _. omega (arith, Increasing-le s.start_seq rs t.start_seq i)) (λ _. omega arith)

Chain-prune :
    (cp : ℕ) (ss : List Segment) (hi : ℕ) → Chain ss hi → Chain (prune_segments_locked cp ss) hi
unfolding prune_segments_locked
Chain-prune cp [] hi h = tt
Chain-prune cp (s ∷ []) hi h = h
Chain-prune cp (s ∷ t ∷ ss) hi ((rs, (e, fs, i)), hs) =
    let ih = Chain-prune cp (t ∷ ss) hi hs in
    if-elim (λ kept. Chain kept hi) (leb ((t.start_seq + 2 ^ 64 - 1) % 2 ^ 64) cp) (λ _. ih)
      (λ _. (
        (
          rs,
          (
            e,
            fs,
            Increasing-grow s.start_seq rs t.start_seq
                (first_start hi (prune_segments_locked cp (t ∷ ss)))
                (first_start-prune cp t ss hi hs) i,
          ),
        ),
        ih,
      ))

-- The active segment is never pruned.
abbrev SameLast : List Segment → List Segment → Type 0
SameLast ss kept = (kept ≢ []) × (last_size kept ≡ last_size ss)

SameLast-cons : (s : Segment) (ss kept : List Segment) → SameLast ss kept → SameLast ss (s ∷ kept)
unfolding last_size
SameLast-cons s ss [] (h, e) = absurd (h refl)
SameLast-cons s ss (t ∷ kept) (h, e) = (cc, e)

SameLast-prune : (cp : ℕ) (ss : List Segment) → ss ≢ [] → SameLast ss (prune_segments_locked cp ss)
unfolding prune_segments_locked last_size
SameLast-prune cp [] h = absurd (h refl)
SameLast-prune cp (s ∷ []) h = (h, refl)
SameLast-prune cp (s ∷ t ∷ ss) h =
    let ih = SameLast-prune cp (t ∷ ss) (cc) in
    if-elim (SameLast (s ∷ t ∷ ss)) (leb ((t.start_seq + 2 ^ 64 - 1) % 2 ^ 64) cp) (λ _. ih)
      (λ _. SameLast-cons s (t ∷ ss) (prune_segments_locked cp (t ∷ ss)) ih)

pub keep-keep :
    (c d : ℕ) (rs : List Record) → c ≤ d → keep (beyond d) (keep (beyond c) rs) ≡ keep (beyond d) rs
keep-keep c d [] h = refl
keep-keep c d (r ∷ rs) h = ground (arith, keep-keep c d rs h)

keep-keep_idle :
    (c d : ℕ) (rs : List Record) → d ≤ c → keep (beyond d) (keep (beyond c) rs) ≡ keep (beyond c) rs
keep-keep_idle c d [] h = refl
keep-keep_idle c d (r ∷ rs) h = ground (arith, keep-keep_idle c d rs h)

-- The checkpoint's file, as it is written, is read back.
read_checkpoint-put_be : (seq : ℕ) → seq < 2 ^ 64 → read_checkpoint (some (put_be 8 seq)) ≡ seq
unfolding read_checkpoint
read_checkpoint-put_be seq h =
    let whole : take 8 (put_be 8 seq) ≡ put_be 8 seq =
      ap (take 8) (sym (append-nil (put_be 8 seq)))
      ∙ take-append (put_be 8 seq) [] 8 (sym (length-put_be 8 seq)) in
    rw (length-put_be 8 seq) (ap get_be whole ∙ get_be-put_be 8 seq h)

-- What a call of `SetCheckpoint` promises: the invariant, a checkpoint that never goes back, and the
-- records beyond it, all of them and no other, left for a replay.
pub record Advanced (seq : ℕ) (w v : Wal) : Type 0 where
  pub valid : IsValid v
  pub next_seq : v.next_seq ≡ w.next_seq
  pub checkpoint : v.checkpoint ≡ (if ltb w.checkpoint seq then seq else w.checkpoint)
  pub left : pending v ≡ keep (beyond seq) (pending w)

-- For every number that the log has given out, whether the checkpoint's file is written or not,
-- `SetCheckpoint` keeps the invariant, raises the checkpoint to the number unless it is there
-- already, and leaves for a replay exactly the pending records beyond the number.
pub set_checkpoint-Advanced :
    (written : Bool) (seq : ℕ) (w : Wal)
    → IsValid w
    → seq < w.next_seq
    → Advanced seq w (set_checkpoint written seq w).0
unfolding set_checkpoint pending
set_checkpoint-Advanced written seq w v below =
    if-elim (λ (r : Wal × Bool). Advanced seq w r.0) (leb seq w.checkpoint)
      (λ old.
        let le = leb→le seq w.checkpoint old in
        record {
          valid = v;
          next_seq = refl;
          checkpoint = rw (le→ltb w.checkpoint seq le);
          left = sym (keep-keep_idle w.checkpoint seq (all_records w.segments) le);
        })
      (λ new.
        let lt = leb→lt seq w.checkpoint new in
        let narrowed = sym (keep-keep w.checkpoint seq (all_records w.segments) (omega arith)) in
        if-elim (λ (r : Wal × Bool). Advanced seq w r.0) written
          (λ _. record {
            valid = record {
              chain = Chain-prune seq w.segments w.next_seq v.chain;
              bounded = v.bounded;
              applied = below;
              opened = λ is_open.
                  let kept = SameLast-prune seq w.segments (v.opened is_open).0 in
                  (kept.0, kept.1 ∙ (v.opened is_open).1);
              saved = omega (arith, read_checkpoint-put_be seq (omega (arith, v.bounded)));
            };
            next_seq = refl;
            checkpoint = rw (lt→ltb w.checkpoint seq lt);
            left = prune-pending seq w.segments w.next_seq v.chain v.bounded below ∙ narrowed;
          })
          (λ _. record {
            valid = record {
              chain = v.chain;
              bounded = v.bounded;
              applied = below;
              opened = v.opened;
              saved = omega (arith, v.saved);
            };
            next_seq = refl;
            checkpoint = rw (lt→ltb w.checkpoint seq lt);
            left = narrowed;
          }))
