-- ===== src/Wal/Log.antt =====
-- The log of internal/wal/wal.go as a state: `Append` with its rotation and its rollbacks,
-- `SetCheckpoint`, `Replay`, `Close` and `Open`. What the operating system answers is an argument of
-- each operation. A segment's file name is its first number, so a segment is that number and the
-- bytes of its file; the last segment of the list is the active one while a handle is open.
use omni_logging.Common.{
  ℕ, ◌+◌, ◌-◌, ◌*◌, ◌%◌, ◌^◌, Bool, true, false, ◌&&◌, Option, none, some, List, [], ◌∷◌, ◌++◌, ltb,
  leb, ◌==◌, if◌then◌else◌, Bytes, length, take, keep,
}
use omni_logging.Wal.Words.{put_be, get_be}
use omni_logging.Wal.Record.{Record, encode_record, scan_segment}

pub record Segment : Type 0 where
  pub start_seq : ℕ
  pub content : Bytes

pub record Wal : Type 0 where
  pub max_segment : ℕ
  pub sync_on_append : Bool
  pub next_seq : ℕ
  pub checkpoint : ℕ
  pub segments : List Segment
  pub active : Bool
  pub active_size : ℕ
  pub checkpoint_file : Option Bytes

-- What the system calls of one `Append` answer: the sync and close of a rotation, the creation of a
-- segment, the write (`none` when it is complete, else the bytes that got through), the truncation of
-- a rollback, and the fsync.
pub record Answers : Type 0 where
  pub rotated : Bool
  pub created : Bool
  pub cut_short : Option ℕ
  pub truncated : Bool
  pub synced : Bool

-- A change of the active segment's file.
unfoldable pub in_last : (Bytes → Bytes) → List Segment → List Segment
in_last f [] = []
in_last f (s ∷ []) = record s { content = f s.content } ∷ []
in_last f (s ∷ t ∷ ss) = s ∷ in_last f (t ∷ ss)

-- `Truncate(n)`, if it succeeds.
unfoldable pub truncate : Bool → ℕ → Bytes → Bytes
truncate done n content = if done then take n content else content

-- The handle is cleared whether the sync and the close succeed or not.
unfoldable pub rotate_locked : Bool → Wal → Wal × Bool
rotate_locked ok w =
    if w.active then (record w { active = false; active_size = 0 }, ok) else (w, true)

-- The file is new: one of this number, empty, can be there only if a log is used behind `Close`, which
-- the program does not do.
unfoldable pub open_new_segment_locked : Bool → ℕ → Wal → Wal × Bool
open_new_segment_locked ok start w =
    if ok
    then (
      record w {
        active = true;
        active_size = 0;
        segments = w.segments ++ record { start_seq = start; content = [] } ∷ [];
      },
      true,
    )
    else (w, false)

-- The fsync behind a complete write: a failure takes the record back.
unfoldable pub sync_record : Answers → ℕ → ℕ → Wal → Wal × Option ℕ
unfolding in_last truncate
sync_record io seq len w =
    if w.sync_on_append && (if io.synced then false else true)
    then (
      record w {
        active_size = w.active_size - len;
        next_seq = (w.next_seq + 2 ^ 64 - 1) % 2 ^ 64;
        segments = in_last (truncate io.truncated (w.active_size - len)) w.segments;
      },
      none,
    )
    else (w, some seq)

-- The write of an encoded record to the active segment. What a failed write left is cut off.
unfoldable pub write_record : Answers → ℕ → Bytes → Wal → Wal × Option ℕ
unfolding in_last truncate sync_record
write_record io seq rec w = elim io.cut_short [
  | some k ↦ (
    record w {
      segments = in_last (λ c. truncate io.truncated w.active_size (c ++ take k rec)) w.segments;
    },
    none,
  )
  | none ↦ sync_record io seq (length rec) (record w {
    segments = in_last (λ c. c ++ rec) w.segments;
    active_size = w.active_size + length rec;
    next_seq = (w.next_seq + 1) % 2 ^ 64;
  })
]

unfoldable pub needs_rotation : ℕ → Wal → Bool
needs_rotation len w = w.active && (ltb 0 w.active_size && ltb w.max_segment (w.active_size + len))

-- `openNewSegmentLocked` where no segment is open.
unfoldable pub ensure_active : Bool → ℕ → Wal → Wal × Bool
unfolding open_new_segment_locked
ensure_active ok seq w = if w.active then (w, true) else open_new_segment_locked ok seq w

unfoldable pub rotate_if_full : Bool → ℕ → Wal → Wal × Bool
unfolding needs_rotation rotate_locked
rotate_if_full ok len w = if needs_rotation len w then rotate_locked ok w else (w, true)

-- `none` is an error: the caller reports the record as not accepted.
unfoldable pub append : Answers → Bytes → Wal → Wal × Option ℕ
unfolding rotate_if_full ensure_active write_record
append io payload w =
    let seq = w.next_seq in
    let rec = encode_record (record { seq = seq; payload = payload }) in
    let (w1, rotated) = rotate_if_full io.rotated (length rec) w in
    if rotated
    then (let (w2, opened) = ensure_active io.created seq w1 in
        if opened then write_record io seq rec w2 else (w2, none))
    else (w1, none)

-- Every segment but the last goes, once the checkpoint covers it: `startSeq - 1` is a uint64.
unfoldable pub prune_segments_locked : ℕ → List Segment → List Segment
prune_segments_locked cp [] = []
prune_segments_locked cp (s ∷ []) = s ∷ []
prune_segments_locked cp (s ∷ t ∷ ss) =
    let rest = prune_segments_locked cp (t ∷ ss) in
    if leb ((t.start_seq + 2 ^ 64 - 1) % 2 ^ 64) cp then rest else s ∷ rest

-- A regression is ignored. Where the file cannot be written nothing is pruned.
unfoldable pub set_checkpoint : Bool → ℕ → Wal → Wal × Bool
unfolding prune_segments_locked
set_checkpoint written seq w =
    if leb seq w.checkpoint
    then (w, true)
    else if written
    then (
      record w {
        checkpoint = seq;
        checkpoint_file = some (put_be 8 seq);
        segments = prune_segments_locked seq w.segments;
      },
      true,
    )
    else (record w { checkpoint = seq }, false)

abbrev pub segment_records : Segment → List Record
segment_records s = (scan_segment s.content).records

unfoldable pub all_records : List Segment → List Record
all_records [] = []
all_records (s ∷ ss) = segment_records s ++ all_records ss

abbrev pub beyond : ℕ → Record → Bool
beyond cp r = ltb cp r.seq

-- The records that `Replay` hands to its callback, in order.
unfoldable pub pending : Wal → List Record
unfolding all_records
pending w = keep (beyond w.checkpoint) (all_records w.segments)

-- `Replay`: the callback's first error ends it.
unfoldable pub visit_all : {S : Type 0} → (Record → S → S × Bool) → List Record → S → S × Bool
visit_all fn [] s = (s, true)
visit_all fn (r ∷ rs) s =
    let (s', ok) = fn r s in let rest = visit_all fn rs s' in if ok then rest else (s', false)

unfoldable pub replay : {S : Type 0} → (Record → S → S × Bool) → Wal → S → S × Bool
unfolding visit_all pending
replay fn w s = visit_all fn (pending w) s

-- `Close`: the handle goes, the files stay.
unfoldable pub close : Wal → Wal
close w = record w { active = false }

-- `readCheckpoint`: a missing or short file counts as 0.
unfoldable pub read_checkpoint : Option Bytes → ℕ
read_checkpoint none = 0
read_checkpoint (some bytes) = if ltb (length bytes) 8 then 0 else get_be (take 8 bytes)

unfoldable pub max_seq : ℕ → List Record → ℕ
max_seq m [] = m
max_seq m (r ∷ rs) = max_seq (if ltb m r.seq then r.seq else m) rs

-- The torn tail of the last segment is cut off.
unfoldable pub repair : Bytes → Bytes
repair content =
    let found = scan_segment content in if found.torn then take found.end_off content else content

unfoldable pub last_size : List Segment → ℕ
last_size [] = 0
last_size (s ∷ []) = length s.content
last_size (s ∷ t ∷ ss) = last_size (t ∷ ss)

unfoldable pub has_segments : List Segment → Bool
has_segments [] = false
has_segments (s ∷ ss) = true

-- `Open` over the segments of the directory in the order of `listSegments`, where the calls of the
-- operating system succeed.
unfoldable pub open_log : ℕ → Bool → List Segment → Option Bytes → Wal
unfolding in_last repair last_size has_segments read_checkpoint max_seq all_records
open_log limit sync files saved =
    let cp = read_checkpoint saved in
    let top = max_seq 0 (all_records files) in
    let segments = in_last repair files in
    record {
      max_segment = if limit == 0 then 8 * 2 ^ 20 else limit;
      sync_on_append = sync;
      next_seq =
          if ltb ((top + 1) % 2 ^ 64) ((cp + 1) % 2 ^ 64)
          then (cp + 1) % 2 ^ 64
          else (top + 1) % 2 ^ 64;
      checkpoint = cp;
      segments = segments;
      active = has_segments files;
      active_size = last_size segments;
      checkpoint_file = saved;
    }
