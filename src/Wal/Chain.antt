-- ===== src/Wal/Chain.antt =====
-- The order of a log's records over its segments, and how writing keeps it (internal/wal/wal.go).
use omni_logging.Common.{
  ℕ, suc, ◌≤◌, ◌≡◌, ◌≢◌, refl, sym, ap, ◌∙◌, List, [], ◌∷◌, ◌++◌, append_assoc, append-nil, arith,
  All, All-append,
}
use omni_logging.Wal.Record.{Record, encode_record, Scan, scan_segment, encode_all}
use omni_logging.Wal.Scan.{Fits}
use omni_logging.Wal.Recovery.{scan_segment-encode_all}
use omni_logging.Wal.Log.{Segment, in_last, segment_records, all_records}

-- Strictly increasing numbers from `lo` on, all below `hi`.
abbrev pub Increasing : ℕ → List Record → ℕ → Type 0
Increasing lo [] hi = lo ≤ hi
Increasing lo (r ∷ rs) hi = (lo ≤ r.seq) × Increasing (suc r.seq) rs hi

-- Where the segments start, or the next number where there is none.
abbrev pub first_start : ℕ → List Segment → ℕ
first_start hi [] = hi
first_start hi (s ∷ ss) = s.start_seq

-- A file holds whole records, numbered from its own number up to the next file's.
abbrev pub Holds : Segment → List Record → ℕ → Type 0
Holds s rs hi = (s.content ≡ encode_all rs) × All Fits rs × Increasing s.start_seq rs hi

abbrev pub Chain : List Segment → ℕ → Type 0
Chain [] hi = Unit
Chain (s ∷ ss) hi = ((rs : List Record) × Holds s rs (first_start hi ss)) × Chain ss hi

pub Increasing-le : (lo : ℕ) (rs : List Record) (hi : ℕ) → Increasing lo rs hi → lo ≤ hi
Increasing-le lo [] hi h = h
Increasing-le lo (r ∷ rs) hi (h, hs) = omega (arith, Increasing-le (suc r.seq) rs hi hs)

pub Increasing-grow :
    (lo : ℕ) (rs : List Record) (hi hi' : ℕ) → hi ≤ hi' → Increasing lo rs hi → Increasing lo rs hi'
Increasing-grow lo [] hi hi' g h = omega arith
Increasing-grow lo (r ∷ rs) hi hi' g (h, hs) = (h, Increasing-grow (suc r.seq) rs hi hi' g hs)

pub Increasing-snoc :
    (lo : ℕ) (rs : List Record) (r : Record)
    → Increasing lo rs r.seq
    → Increasing lo (rs ++ r ∷ []) (suc r.seq)
Increasing-snoc lo [] r h = (h, omega arith)
Increasing-snoc lo (x ∷ rs) r (h, hs) = (h, Increasing-snoc (suc x.seq) rs r hs)

pub encode_all-snoc :
    (rs : List Record) (r : Record) → encode_all (rs ++ r ∷ []) ≡ encode_all rs ++ encode_record r
unfolding encode_all
encode_all-snoc [] r = append-nil (encode_record r)
encode_all-snoc (x ∷ rs) r =
    ap (λ t. encode_record x ++ t) (encode_all-snoc rs r)
    ∙ sym (append_assoc (encode_record x) (encode_all rs) (encode_record r))

pub segment_records_lem :
    (s : Segment) (rs : List Record)
    → s.content ≡ encode_all rs
    → All Fits rs
    → segment_records s ≡ rs
segment_records_lem s rs e fs =
    ap (λ c. (scan_segment c).records) e
    ∙ ap (λ (x : Scan). x.records) (scan_segment-encode_all rs fs)

pub Chain-grow : (ss : List Segment) (hi hi' : ℕ) → hi ≤ hi' → Chain ss hi → Chain ss hi'
Chain-grow [] hi hi' g _ = tt
Chain-grow (s ∷ []) hi hi' g ((rs, (e, fs, i)), _) =
    ((rs, (e, fs, Increasing-grow s.start_seq rs hi hi' g i)), tt)
Chain-grow (s ∷ t ∷ ss) hi hi' g (h, hs) = (h, Chain-grow (t ∷ ss) hi hi' g hs)

-- A new segment, empty, that starts at the next number.
pub Chain-new :
    (ss : List Segment) (hi : ℕ)
    → Chain ss hi
    → Chain (ss ++ record { start_seq = hi; content = [] } ∷ []) hi
Chain-new [] hi _ = (([], (unfold encode_all in refl, tt, omega arith)), tt)
Chain-new (s ∷ []) hi (h, hs) = (h, Chain-new [] hi hs)
Chain-new (s ∷ t ∷ ss) hi (h, hs) = (h, Chain-new (t ∷ ss) hi hs)

-- A record written behind the last segment.
pub Chain-write :
    (ss : List Segment) (r : Record)
    → ss ≢ []
    → Fits r
    → Chain ss r.seq
    → Chain (in_last (λ c. c ++ encode_record r) ss) (suc r.seq)
unfolding in_last
Chain-write [] r some_segment f _ = absurd (some_segment refl)
Chain-write (s ∷ []) r _ f ((rs, (e, fs, i)), _) = (
  (
    rs ++ r ∷ [],
    (
      ap (λ c. c ++ encode_record r) e ∙ sym (encode_all-snoc rs r),
      All-append Fits rs (r ∷ []) fs (f, tt),
      Increasing-snoc s.start_seq rs r i,
    ),
  ),
  tt,
)
Chain-write (s ∷ t ∷ []) r _ f (h, hs) = (h, Chain-write (t ∷ []) r (cc) f hs)
Chain-write (s ∷ t ∷ u ∷ ss) r _ f (h, hs) = (h, Chain-write (t ∷ u ∷ ss) r (cc) f hs)

pub all_records-new :
    (ss : List Segment) (hi : ℕ)
    → all_records (ss ++ record { start_seq = hi; content = [] } ∷ []) ≡ all_records ss
unfolding all_records
all_records-new [] hi =
    append-nil _
    ∙ segment_records_lem (record { start_seq = hi; content = [] }) [] (unfold encode_all in refl)
        tt
all_records-new (s ∷ ss) hi = ap (λ t. segment_records s ++ t) (all_records-new ss hi)

pub all_records-write :
    (ss : List Segment) (r : Record)
    → ss ≢ []
    → Fits r
    → Chain ss r.seq
    → all_records (in_last (λ c. c ++ encode_record r) ss) ≡ all_records ss ++ r ∷ []
unfolding all_records in_last
all_records-write [] r some_segment f _ = absurd (some_segment refl)
all_records-write (s ∷ []) r _ f ((rs, (e, fs, i)), _) =
    let old = segment_records_lem s rs e fs in
    let new =
      segment_records_lem (record s { content = s.content ++ encode_record r }) (rs ++ r ∷ [])
        (ap (λ c. c ++ encode_record r) e ∙ sym (encode_all-snoc rs r))
        (All-append Fits rs (r ∷ []) fs (f, tt)) in
    append-nil _ ∙ new ∙ ap (λ t. t ++ r ∷ []) (sym old ∙ sym (append-nil (segment_records s)))
all_records-write (s ∷ t ∷ ss) r _ f (h, hs) =
    ap (λ t. segment_records s ++ t) (all_records-write (t ∷ ss) r (cc) f hs)
    ∙ sym (append_assoc (segment_records s) (all_records (t ∷ ss)) (r ∷ []))
