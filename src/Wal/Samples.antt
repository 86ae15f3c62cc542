-- ===== src/Wal/Samples.antt =====
-- The log of internal/wal/wal.go at concrete inputs.
use omni_logging.Common.{
  ℕ, ◌*◌, ◌≤◌, ◌^◌, ◌≡◌, refl, inr, true, false, Option, none, some, [], ◌∷◌, ◌++◌, arith, Bytes,
  length, take, drop,
}
use omni_logging.Wal.Words.{put_be, crc_bits, crc_bytes, checksum}
use omni_logging.Wal.Record.{Record, encode_record, encode_all, scan_segment, max_record_bytes}
use omni_logging.Wal.Scan.{Fits}
use omni_logging.Wal.Recovery.{prepend_all, scan_segment-append, scan_segment-torn_tail}
use omni_logging.Wal.Log.{
  Wal, Answers, open_new_segment_locked, sync_record, write_record, needs_rotation, ensure_active,
  rotate_if_full, append, set_checkpoint, read_checkpoint,
}
use omni_logging.Wal.Append.{IsValid, Outcome}
use omni_logging.Wal.Accept.{Accepted, append-Outcome, append-accepts}
use omni_logging.Wal.Reopen.{IsTorn, Reopened, reopen, reopen-Reopened}
use omni_logging.Wal.Checkpoint.{Advanced, set_checkpoint-Advanced}

abbrev pub all_well : Answers
all_well = record {
  rotated = true;
  created = true;
  cut_short = none;
  truncated = true;
  synced = true;
}

abbrev disk_full : Answers
disk_full = record {
  rotated = true;
  created = true;
  cut_short = some 3;
  truncated = true;
  synced = true;
}

abbrev pub empty_log : Wal
empty_log = record {
  max_segment = 8 * 2 ^ 20;
  sync_on_append = true;
  next_seq = 1;
  checkpoint = 0;
  segments = [];
  active = false;
  active_size = 0;
  checkpoint_file = none;
}

pub empty_log-IsValid : IsValid empty_log
empty_log-IsValid = record {
  chain = tt;
  bounded = omega arith;
  applied = omega arith;
  opened = λ h. absurd (grind (arith, h));
  saved = unfold read_checkpoint in omega arith;
}

abbrev pub hello : Bytes
hello = 104 ∷ 105 ∷ []

hello-Fits : length hello ≤ max_record_bytes
hello-Fits = omega arith

IsValid-Outcome :
    (payload : Bytes) (w : Wal) (r : Wal × Option ℕ) → Outcome payload w r → IsValid r.0
IsValid-Outcome payload w (v, none) o = o.valid
IsValid-Outcome payload w (v, some seq) o = o.1.valid

-- A log of one record.
abbrev pub one_log : Wal
one_log = (append all_well hello empty_log).0

pub one_log-IsValid : IsValid one_log
one_log-IsValid =
    IsValid-Outcome hello empty_log (append all_well hello empty_log)
      (append-Outcome all_well hello empty_log refl hello-Fits (omega arith) empty_log-IsValid)

pub one_log_next : one_log.next_seq ≡ 2
unfolding append rotate_if_full ensure_active write_record sync_record needs_rotation
    open_new_segment_locked
one_log_next = refl

append-Outcome_example : Outcome hello one_log (append disk_full hello one_log)
append-Outcome_example =
    append-Outcome disk_full hello one_log refl hello-Fits (omega (arith, one_log_next))
      one_log-IsValid

append-accepts_example : Accepted hello one_log (append all_well hello one_log)
append-accepts_example =
    append-accepts all_well hello one_log refl refl refl refl refl hello-Fits
      (omega (arith, one_log_next)) one_log-IsValid

-- Sixteen bytes and one of the next record, left by a crash.
abbrev next_record : Bytes
next_record = encode_record (record { seq = one_log.next_seq; payload = hello })

torn : IsTorn (take 17 next_record) one_log
unfolding encode_record put_be checksum crc_bytes crc_bits append rotate_if_full ensure_active
    write_record sync_record needs_rotation open_new_segment_locked
torn = inr (hello, drop 17 next_record, hello-Fits, refl, (λ e. cc), omega arith)

reopen-Reopened_example : Reopened true one_log (reopen true (take 17 next_record) one_log)
reopen-Reopened_example = reopen-Reopened true (take 17 next_record) one_log one_log-IsValid torn

set_checkpoint-Advanced_example : Advanced 1 one_log (set_checkpoint true 1 one_log).0
set_checkpoint-Advanced_example =
    set_checkpoint-Advanced true 1 one_log one_log-IsValid (omega (arith, one_log_next))

abbrev first : Record
first = record { seq = 1; payload = hello }

first-Fits : Fits first
first-Fits = record { seq_lt = omega arith; payload_le = hello-Fits }

scan_segment-append_example :
    scan_segment (encode_all (first ∷ []) ++ 0 ∷ [])
    ≡ prepend_all (first ∷ []) (scan_segment (0 ∷ []))
scan_segment-append_example = scan_segment-append (first ∷ []) (0 ∷ []) (first-Fits, tt)

scan_segment-torn_tail_example :
    scan_segment (encode_all (first ∷ []) ++ take 17 (encode_record first))
    ≡ record { records = first ∷ []; end_off = length (encode_all (first ∷ [])); torn = true }
unfolding encode_record put_be checksum crc_bytes crc_bits
scan_segment-torn_tail_example =
    scan_segment-torn_tail (first ∷ []) first (take 17 (encode_record first))
      (drop 17 (encode_record first)) (first-Fits, tt) first-Fits refl (cc) (omega arith)
