-- ===== src/Wal/Reopen.antt =====
-- `Open` of internal/wal/wal.go on the files that a crash of the process leaves.
use omni_logging.Common.{
  Bool, true, false, ℕ, suc, ◌+◌, ◌%◌, ◌^◌, subst, ◌≤◌, ◌<◌, ◌≡◌, ◌≢◌, refl, sym, ap, ◌∙◌, ◌⊎◌, inl,
  inr, List, [], ◌∷◌, ◌++◌, append-nil, arith, ltb, if-elim, if◌then◌else◌, Bytes, length,
  take-append, keep, All, All-append, All-map, ltb→lt, ltb→le,
}
use omni_logging.Wal.Record.{
  Record, max_record_bytes, encode_record, encode_all, Scan, scan_segment,
}
use omni_logging.Wal.Scan.{Fits}
use omni_logging.Wal.Recovery.{scan_segment-encode_all, scan_segment-torn_tail}
use omni_logging.Wal.Log.{
  Segment, Wal, in_last, repair, read_checkpoint, max_seq, all_records, beyond, pending, open_log,
  segment_records,
}
use omni_logging.Wal.Chain.{
  Increasing, first_start, Chain, Increasing-le, segment_records_lem, Chain-new, all_records-new,
}
use omni_logging.Wal.Append.{IsValid}
use omni_logging.Wal.Checkpoint.{keep-keep, Chain-first_start}

-- What a crash leaves behind the last record of the active file: nothing, or the beginning of the record
-- that `Append` was writing.
abbrev pub IsTorn : Bytes → Wal → Type 0
IsTorn part w =
    (part ≡ [])
    ⊎ ((payload : Bytes) × (rest : Bytes) × (length payload ≤ max_record_bytes)
        × (encode_record (record { seq = w.next_seq; payload = payload }) ≡ part ++ rest)
        × (part ≢ [])
        × (0 < length rest))

-- The files of a log where a crash ends an `Append`, which may have created a segment.
unfoldable pub files_at : Bool → Wal → List Segment
files_at created w =
    if created
    then w.segments ++ record { start_seq = w.next_seq; content = [] } ∷ []
    else w.segments

-- The log that the next process opens: of the old one there are its files, with the part of a record.
unfoldable pub reopen : Bool → Bytes → Wal → Wal
unfolding in_last open_log files_at
reopen created part w =
    open_log w.max_segment w.sync_on_append (in_last (λ c. c ++ part) (files_at created w))
      w.checkpoint_file

-- A new segment holds nothing.
files_at-Chain :
    (created : Bool) (w : Wal)
    → IsValid w
    → Chain (files_at created w) w.next_seq
      × (all_records (files_at created w) ≡ all_records w.segments)
unfolding files_at
files_at-Chain true w v =
    (Chain-new w.segments w.next_seq v.chain, all_records-new w.segments w.next_seq)
files_at-Chain false w v = (v.chain, refl)

repair-whole : (rs : List Record) → All Fits rs → repair (encode_all rs) ≡ encode_all rs
unfolding repair
repair-whole rs fs = rw (scan_segment-encode_all rs fs) refl

-- The beginning of a record is cut off, and nothing else.
repair-torn :
    (rs : List Record) (w : Wal) (part : Bytes)
    → IsValid w
    → All Fits rs
    → IsTorn part w
    → repair (encode_all rs ++ part) ≡ encode_all rs
repair-torn rs w part v fs (inl e) =
    ap (λ p. repair (encode_all rs ++ p)) e
    ∙ ap repair (append-nil (encode_all rs))
    ∙ repair-whole rs fs
repair-torn rs w part v fs (inr (payload, rest, small, e, p_some, q_some)) =
    let r : Record = record { seq = w.next_seq; payload = payload } in
    let fits : Fits r = record { seq_lt = v.bounded; payload_le = small } in
    unfold repair in
    rw (scan_segment-torn_tail rs r part rest fs fits e p_some q_some)
      (take-append (encode_all rs) part (length (encode_all rs)) refl)

scanned-torn :
    (rs : List Record) (w : Wal) (part : Bytes)
    → IsValid w
    → All Fits rs
    → IsTorn part w
    → (scan_segment (encode_all rs ++ part)).records ≡ rs
scanned-torn rs w part v fs (inl e) =
    ap (λ p. (scan_segment (encode_all rs ++ p)).records) e
    ∙ ap (λ c. (scan_segment c).records) (append-nil (encode_all rs))
    ∙ ap (λ (x : Scan). x.records) (scan_segment-encode_all rs fs)
scanned-torn rs w part v fs (inr (payload, rest, small, e, p_some, q_some)) =
    let r : Record = record { seq = w.next_seq; payload = payload } in
    ap (λ (x : Scan). x.records)
      (scan_segment-torn_tail rs r part rest fs (record { seq_lt = v.bounded; payload_le = small })
        e p_some q_some)

-- The beginning of a record holds none.
all_records-torn :
    (ss : List Segment) (w : Wal) (part : Bytes) (hi : ℕ)
    → IsValid w
    → Chain ss hi
    → IsTorn part w
    → all_records (in_last (λ c. c ++ part) ss) ≡ all_records ss
unfolding all_records in_last
all_records-torn [] w part hi v _ t = refl
all_records-torn (s ∷ []) w part hi v ((rs, (e, fs, i)), _) t =
    ap (λ x. x ++ [])
      (ap (λ c. (scan_segment (c ++ part)).records) e
        ∙ scanned-torn rs w part v fs t
        ∙ sym (segment_records_lem s rs e fs))
all_records-torn (s ∷ t ∷ ss) w part hi v (h, hs) torn =
    ap (λ x. segment_records s ++ x) (all_records-torn (t ∷ ss) w part hi v hs torn)

-- The last file is what it was before the write.
repaired :
    (ss : List Segment) (w : Wal) (part : Bytes) (hi : ℕ)
    → IsValid w
    → Chain ss hi
    → IsTorn part w
    → in_last repair (in_last (λ c. c ++ part) ss) ≡ ss
unfolding in_last
repaired [] w part hi v _ t = refl
repaired (s ∷ []) w part hi v ((rs, (e, fs, i)), _) t =
    ap (λ c. record s { content = c } ∷ [])
      (ap (λ c. repair (c ++ part)) e ∙ repair-torn rs w part v fs t ∙ sym e)
repaired (s ∷ t ∷ []) w part hi v (h, hs) torn =
    ap (λ r. s ∷ r) (repaired (t ∷ []) w part hi v hs torn)
repaired (s ∷ t ∷ u ∷ ss) w part hi v (h, hs) torn =
    ap (λ r. s ∷ r) (repaired (t ∷ u ∷ ss) w part hi v hs torn)

Increasing-below :
    (lo : ℕ) (rs : List Record) (hi : ℕ) → Increasing lo rs hi → All (λ (r : Record). r.seq < hi) rs
Increasing-below lo [] hi h = tt
Increasing-below lo (r ∷ rs) hi (h, hs) =
    (omega (arith, Increasing-le (suc r.seq) rs hi hs), Increasing-below (suc r.seq) rs hi hs)

-- The records of a log are numbered below the next number.
all_records-below :
    (ss : List Segment) (hi : ℕ) → Chain ss hi → All (λ (r : Record). r.seq < hi) (all_records ss)
unfolding all_records
all_records-below [] hi _ = tt
all_records-below (s ∷ ss) hi ((rs, (e, fs, i)), hs) =
    All-append (λ (r : Record). r.seq < hi) (segment_records s) (all_records ss)
      (subst (λ xs. All (λ (r : Record). r.seq < hi) xs) (sym (segment_records_lem s rs e fs))
        (All-map rs (λ r h. omega (arith, h, start ss hs))
          (Increasing-below s.start_seq rs (first_start hi ss) i)))
      (all_records-below ss hi hs)
  where
    start : (ts : List Segment) → Chain ts hi → first_start hi ts ≤ hi
    start [] _ = omega arith
    start (t ∷ ts) h = Chain-first_start t ts hi h

-- The highest number is one that was there, and none is above it.
max_seq-bounds :
    (m : ℕ) (rs : List Record) (hi : ℕ)
    → m < hi
    → All (λ (r : Record). r.seq < hi) rs
    → (max_seq m rs < hi) × (m ≤ max_seq m rs) × All (λ (r : Record). r.seq ≤ max_seq m rs) rs
unfolding max_seq
max_seq-bounds m [] hi h _ = (h, omega arith, tt)
max_seq-bounds m (r ∷ rs) hi h (k, ks) =
    if-elim
      (λ (n : ℕ).
        (max_seq n rs < hi)
        × (m ≤ max_seq n rs)
        × ((r.seq ≤ max_seq n rs) × All (λ (x : Record). x.seq ≤ max_seq n rs) rs))
      (ltb m r.seq)
      (λ t.
        let ih = max_seq-bounds r.seq rs hi k ks in
        let up = ltb→lt m r.seq t in (ih.0, omega (arith, ih.1, up), (ih.1, ih.2)))
      (λ f.
        let ih = max_seq-bounds m rs hi h ks in
        let down = ltb→le m r.seq f in (ih.0, ih.1, (omega (arith, ih.1, down), ih.2)))

-- What `Open` promises of the log that a crash ended.
pub record Reopened (created : Bool) (w v : Wal) : Type 0 where
  pub segments : v.segments ≡ files_at created w
  pub checkpoint : v.checkpoint ≡ read_checkpoint w.checkpoint_file
  pub not_ahead : v.checkpoint ≤ w.checkpoint
  pub pending_kept : keep (beyond w.checkpoint) (pending v) ≡ pending w
  pub unused : All (λ (r : Record). r.seq < v.next_seq) (all_records w.segments)
  pub applied : v.checkpoint < v.next_seq

-- The next number, of the highest one and the checkpoint.
next_of :
    (top cp hi : ℕ)
    → top < hi
    → cp < hi
    → hi < 2 ^ 64
    → (let n =
          (if ltb ((top + 1) % 2 ^ 64) ((cp + 1) % 2 ^ 64)
            then (cp + 1) % 2 ^ 64
            else (top + 1) % 2 ^ 64) in
        (top < n) × (cp < n))
next_of top cp hi h k b = ground arith

-- `Open` on the files of a valid log, where a crash may have left a segment that `Append` had just
-- created, and the beginning of the record that it was writing behind the last segment, cuts that off
-- and nothing else. Its checkpoint is the one of the file, at most the one of before, and among the
-- records beyond it are all that were pending, in order. The next number is above that of every record
-- and above the checkpoint. The payload of the record that was being written is at most 64 MiB.
pub reopen-Reopened :
    (created : Bool) (part : Bytes) (w : Wal)
    → IsValid w
    → IsTorn part w
    → Reopened created w (reopen created part w)
unfolding reopen open_log pending
reopen-Reopened created part w v t =
    let files = files_at created w in
    let (chain, records) = files_at-Chain created w v in
    let same = repaired files w part w.next_seq v chain t in
    let cp = read_checkpoint w.checkpoint_file in
    let found : all_records (in_last (λ c. c ++ part) files) ≡ all_records w.segments =
      all_records-torn files w part w.next_seq v chain t ∙ records in
    let b =
      max_seq-bounds 0 (all_records w.segments) w.next_seq (omega (arith, v.applied))
        (all_records-below w.segments w.next_seq v.chain) in
    let n =
      next_of (max_seq 0 (all_records w.segments)) cp w.next_seq b.0
        (omega (arith, v.saved, v.applied)) v.bounded in
    record {
      segments = same;
      checkpoint = refl;
      not_ahead = v.saved;
      pending_kept =
          ap (λ rs. keep (beyond w.checkpoint) (keep (beyond cp) rs))
            (ap (λ ss. all_records ss) same ∙ records)
          ∙ keep-keep cp w.checkpoint (all_records w.segments) v.saved;
      unused = rw found (All-map (all_records w.segments) (λ r h. omega (arith, h, n.0)) b.2);
      applied = rw found n.1;
    }
