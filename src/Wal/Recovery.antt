-- ===== src/Wal/Recovery.antt =====
-- The whole scan of a segment of internal/wal/wal.go, of whole records and of a torn one.
use omni_logging.Common.{
  ℕ, zero, suc, ◌+◌, ◌<◌, ◌≡◌, ◌≢◌, refl, sym, ap, ◌∙◌, Bool, true, false, List, [], ◌∷◌, ◌++◌,
  append_assoc, append-nil, arith, Bytes, length, length-append, All,
}
use omni_logging.Wal.Record.{
  Record, encode_record, Next, clean_end, torn_tail, valid, next_record, Scan, prepend, scan,
  scan_segment, encode_all,
}
use omni_logging.Wal.Scan.{
  Fits, length-encode_record, next_record-encode, next_record-torn, next_record-shorter,
}

abbrev stopped : Bool → Scan
stopped b = record { records = []; end_off = 0; torn = b }

-- Two scans agree where they agree on what each round leaves.
scan_step :
    (f g : ℕ) (buf : Bytes)
    → ((rest : Bytes) → length rest < length buf → scan f rest ≡ scan g rest)
    → scan (suc f) buf ≡ scan (suc g) buf
scan_step f g buf ih = go (next_record buf) refl
  where
    go : (n : Next) → next_record buf ≡ n → scan (suc f) buf ≡ scan (suc g) buf
    go clean_end e = unfold scan in rw (e, scan)
    go torn_tail e = unfold scan in rw (e, scan)
    go (valid r rest) e =
        unfold scan in rw (e, scan) (ap (prepend r) (ih rest (next_record-shorter buf r rest e)))

-- Any two amounts of fuel above the length of the bytes give the same scan.
pub scan_enough :
    (f g : ℕ) (buf : Bytes) → length buf < f → length buf < g → scan f buf ≡ scan g buf
scan_enough zero g buf h k = absurd (omega arith)
scan_enough (suc f) zero buf h k = absurd (omega arith)
scan_enough (suc f) (suc g) buf h k =
    scan_step f g buf (λ rest shorter. scan_enough f g rest (omega arith) (omega arith))

scan_segment-valid :
    (buf : Bytes) (r : Record) (rest : Bytes)
    → next_record buf ≡ valid r rest
    → scan_segment buf ≡ prepend r (scan_segment rest)
unfolding scan_segment scan
scan_segment-valid buf r rest e =
    rw (e, scan, scan_segment)
      (ap (prepend r) (
        scan_enough (length buf) (suc (length rest)) rest (next_record-shorter buf r rest e)
          (omega arith)))

pub scan_segment-torn :
    (buf : Bytes) → next_record buf ≡ torn_tail → scan_segment buf ≡ stopped true
unfolding scan_segment scan
scan_segment-torn buf e = rw (e, scan, scan_segment)

pub scan_segment-nil : scan_segment [] ≡ stopped false
unfolding scan_segment scan next_record
scan_segment-nil = refl

-- A scan that has already read `rs`.
abbrev pub prepend_all : List Record → Scan → Scan
prepend_all rs s = record {
  records = rs ++ s.records;
  end_off = length (encode_all rs) + s.end_off;
  torn = s.torn;
}

-- Whatever follows them, records that fit are read back in order.
pub scan_segment-append :
    (rs : List Record) (x : Bytes)
    → All Fits rs
    → scan_segment (encode_all rs ++ x) ≡ prepend_all rs (scan_segment x)
unfolding encode_all
scan_segment-append [] x _ =
    ap
      (λ (n : ℕ). record {
        records = (scan_segment x).records;
        end_off = n;
        torn = (scan_segment x).torn;
      })
      (omega arith)
scan_segment-append (r ∷ rs) x (f, fs) = rw (append_assoc (encode_record r) (encode_all rs) x) (
    rw
      (scan_segment-valid (encode_record r ++ (encode_all rs ++ x)) r (encode_all rs ++ x)
        (next_record-encode r (encode_all rs ++ x) f))
      (rw (scan_segment-append rs x fs) (
        ap
          (λ (n : ℕ). record {
            records = r ∷ rs ++ (scan_segment x).records;
            end_off = n;
            torn = (scan_segment x).torn;
          })
          (omega
            (arith, length-append (encode_record r) (encode_all rs), length-encode_record r)))))

-- A segment that was written to its end is read back whole, and its end is clean.
pub scan_segment-encode_all :
    (rs : List Record)
    → All Fits rs
    → scan_segment (encode_all rs)
      ≡ record { records = rs; end_off = length (encode_all rs); torn = false }
scan_segment-encode_all rs fs =
    ap scan_segment (sym (append-nil (encode_all rs)))
    ∙ scan_segment-append rs [] fs
    ∙ rw scan_segment-nil (λ i. record {
      records = append-nil rs i;
      end_off = add_nothing (length (encode_all rs)) i;
      torn = false;
    })
  where
    add_nothing : (n : ℕ) → n + 0 ≡ n
    add_nothing n = omega arith

-- Of records that fit, a crash in the middle of a write, which leaves a part of the bytes that is not
-- empty, loses the record that was being written and no other: the scan
-- returns every record before it and the offset where it began, and reports the tail as torn.
pub scan_segment-torn_tail :
    (rs : List Record) (r : Record) (p q : Bytes)
    → All Fits rs
    → Fits r
    → encode_record r ≡ p ++ q
    → p ≢ []
    → 0 < length q
    → scan_segment (encode_all rs ++ p)
      ≡ record { records = rs; end_off = length (encode_all rs); torn = true }
scan_segment-torn_tail rs r p q fs f e p_some q_some =
    scan_segment-append rs p fs
    ∙ rw (scan_segment-torn p (next_record-torn r p q f e p_some q_some)) (λ i. record {
      records = append-nil rs i;
      end_off = add_nothing (length (encode_all rs)) i;
      torn = true;
    })
  where
    add_nothing : (n : ℕ) → n + 0 ≡ n
    add_nothing n = omega arith
