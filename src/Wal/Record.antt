-- ===== src/Wal/Record.antt =====
-- Records of a log segment: `encodeRecord` and `scanSegment` of internal/wal/wal.go.
use omni_logging.Common.{
  ℕ, zero, suc, ◌+◌, ◌*◌, ◌%◌, ◌^◌, Bool, true, false, List, [], ◌∷◌, ◌++◌, ltb, ◌==◌,
  if◌then◌else◌, Bytes, length, take, drop,
}
use omni_logging.Wal.Words.{put_be, get_be, checksum}

pub record Record : Type 0 where
  pub seq : ℕ
  pub payload : Bytes

abbrev pub header_size : ℕ
header_size = 16

abbrev pub max_record_bytes : ℕ
max_record_bytes = 64 * 2 ^ 20

-- The length and the sequence number are written as uint32 and uint64.
unfoldable pub encode_record : Record → Bytes
encode_record r =
    put_be 8 r.seq
    ++ (put_be 4 (length r.payload % 2 ^ 32) ++ (put_be 4 (checksum r.payload) ++ r.payload))

-- One round of the scan: a clean end, a record that cannot be trusted, or a record and the rest.
pub data Next : Type 0 where
  clean_end : Next
  torn_tail : Next
  valid : Record → Bytes → Next

-- The payload's part of a round: the length's bound, a short read, the checksum.
unfoldable pub read_payload : ℕ → ℕ → ℕ → Bytes → Next
read_payload seq plen crc body =
    if ltb max_record_bytes plen
    then torn_tail
    else if ltb (length body) plen
    then torn_tail
    else if checksum (take plen body) == crc
    then valid (record { seq = seq; payload = take plen body }) (drop plen body)
    else torn_tail

-- `io.ReadFull` of the header: no byte at all is the end of the file, a part of a header is torn.
unfoldable pub next_record : Bytes → Next
next_record [] = clean_end
next_record (b ∷ bs) =
    let buf = b ∷ bs in
    if ltb (length buf) header_size
    then torn_tail
    else read_payload (get_be (take 8 buf)) (get_be (take 4 (drop 8 buf)))
        (get_be (take 4 (drop 12 buf))) (drop header_size buf)

-- What a scan visits, the offset behind the last valid record, and whether it stopped early.
pub record Scan : Type 0 where
  pub records : List Record
  pub end_off : ℕ
  pub torn : Bool

abbrev pub prepend : Record → Scan → Scan
prepend r s = record {
  records = r ∷ s.records;
  end_off = header_size + length r.payload + s.end_off;
  torn = s.torn;
}

-- The loop of `scanSegment`, on fuel.
unfoldable pub scan : ℕ → Bytes → Scan
scan zero buf = record { records = []; end_off = 0; torn = true }
scan (suc fuel) buf = elim (next_record buf) [
  | clean_end ↦ record { records = []; end_off = 0; torn = false }
  | torn_tail ↦ record { records = []; end_off = 0; torn = true }
  | valid r rest ↦ prepend r (scan fuel rest)
]

-- Each round reads a header, so the file's length is fuel enough.
unfoldable pub scan_segment : Bytes → Scan
scan_segment buf = scan (suc (length buf)) buf

-- The records written one after another.
unfoldable pub encode_all : List Record → Bytes
encode_all [] = []
encode_all (r ∷ rs) = encode_record r ++ encode_all rs
