-- ===== src/Wal/Scan.antt =====
-- What `scanSegment` of internal/wal/wal.go makes of a segment that `encodeRecord` wrote, whole or
-- cut short in its last record.
use omni_logging.Common.{
  ℕ, ◌+◌, ◌%◌, ◌^◌, ◌≤◌, ◌<◌, ◌≡◌, ◌≢◌, refl, sym, ap, subst, ltb→le, lt→ltb, ◌∙◌, inl, inr, true,
  List, [], ◌∷◌, ◌++◌, append_assoc, append-nil, arith, ltb, le→ltb, ==_iff, Bool-cases, Bytes,
  length, take, drop, length-append, length-drop, take-append, drop-append, take-append_le,
  drop-append_le,
}
use omni_logging.Wal.Words.{put_be, get_be, checksum, length-put_be, get_be-put_be, checksum_lt}
use omni_logging.Wal.Record.{
  Record, header_size, max_record_bytes, encode_record, torn_tail, valid, read_payload, next_record,
}

-- A record that the log can hold: a uint64 number and a payload below the guard of the scan.
pub record Fits (r : Record) : Type 0 where
  pub seq_lt : r.seq < 2 ^ 64
  pub payload_le : length r.payload ≤ max_record_bytes

module _ {ℓ} {A : Type ℓ} (a b c d : List A) (p : length a ≡ 8) (q : length b ≡ 4)
    (r : length c ≡ 4) where
  field_seq : take 8 (a ++ (b ++ (c ++ d))) ≡ a
  field_seq = take-append a _ 8 (sym p)

  field_len : take 4 (drop 8 (a ++ (b ++ (c ++ d)))) ≡ b
  field_len = rw (drop-append a (b ++ (c ++ d)) 8 (sym p)) (take-append b _ 4 (sym q))

  field_crc : take 4 (drop 12 (a ++ (b ++ (c ++ d)))) ≡ c
  field_crc = rw (← append_assoc a b (c ++ d)) (
      rw (drop-append (a ++ b) (c ++ d) 12 (omega (arith, length-append a b)))
        (take-append c _ 4 (sym r)))

  field_body : drop 16 (a ++ (b ++ (c ++ d))) ≡ d
  field_body = rw (← append_assoc a b (c ++ d)) (
      rw (← append_assoc (a ++ b) c d) (
        drop-append ((a ++ b) ++ c) d 16
          (omega (arith, length-append (a ++ b) c, length-append a b))))

-- The bytes of a record with those that follow it, bracketed for the fields.
encode-append :
    (r : Record) (x : Bytes)
    → encode_record r ++ x
      ≡ put_be 8 r.seq
        ++ (put_be 4 (length r.payload % 2 ^ 32)
            ++ (put_be 4 (checksum r.payload) ++ (r.payload ++ x)))
unfolding encode_record
encode-append r x = simp append_assoc

pub length-encode_record : (r : Record) → length (encode_record r) ≡ header_size + length r.payload
unfolding encode_record
length-encode_record r = omega (
  arith,
  length-append (put_be 8 r.seq)
      (put_be 4 (length r.payload % 2 ^ 32) ++ (put_be 4 (checksum r.payload) ++ r.payload)),
  length-append (put_be 4 (length r.payload % 2 ^ 32)) (put_be 4 (checksum r.payload) ++ r.payload),
  length-append (put_be 4 (checksum r.payload)) r.payload,
  length-put_be,
)

-- The fields of the header, as a reader of the file finds them.
pub record Header (r : Record) (x buf : Bytes) : Type 0 where
  pub seq : get_be (take 8 buf) ≡ r.seq
  pub plen : get_be (take 4 (drop 8 buf)) ≡ length r.payload % 2 ^ 32
  pub crc : get_be (take 4 (drop 12 buf)) ≡ checksum r.payload
  pub body : drop 16 buf ≡ r.payload ++ x

pub Header-encode : (r : Record) (x : Bytes) → r.seq < 2 ^ 64 → Header r x (encode_record r ++ x)
Header-encode r x h =
    let a = put_be 8 r.seq in
    let b = put_be 4 (length r.payload % 2 ^ 32) in
    let c = put_be 4 (checksum r.payload) in
    let d = r.payload ++ x in
    let p = length-put_be 8 r.seq in
    let q = length-put_be 4 (length r.payload % 2 ^ 32) in
    let s = length-put_be 4 (checksum r.payload) in
    rw (encode-append r x) (record {
      seq = ap get_be (field_seq a b c d p q s) ∙ get_be-put_be 8 r.seq h;
      plen = ap get_be (field_len a b c d p q s) ∙ get_be-put_be 4 _ (omega arith);
      crc = ap get_be (field_crc a b c d p q s) ∙ get_be-put_be 4 _ (checksum_lt r.payload);
      body = field_body a b c d p q s;
    })

-- A round of the scan where a whole header is left.
pub next_record-read_payload :
    (buf : Bytes)
    → header_size ≤ length buf
    → next_record buf
      ≡ read_payload
          (get_be (take 8 buf))
          (get_be (take 4 (drop 8 buf)))
          (get_be (take 4 (drop 12 buf)))
          (drop 16 buf)
unfolding next_record
next_record-read_payload [] h = absurd (omega arith)
next_record-read_payload (b ∷ bs) h = rw (le→ltb (length (b ∷ bs)) header_size h)

read_payload_valid :
    (r : Record) (x : Bytes)
    → length r.payload ≤ max_record_bytes
    → read_payload r.seq (length r.payload) (checksum r.payload) (r.payload ++ x) ≡ valid r x
unfolding read_payload
read_payload_valid r x h = rw (
  le→ltb max_record_bytes (length r.payload) h,
  le→ltb (length (r.payload ++ x)) (length r.payload) (omega (arith, length-append r.payload x)),
  take-append r.payload x (length r.payload) refl,
  drop-append r.payload x (length r.payload) refl,
  (==_iff (checksum r.payload) (checksum r.payload)).1 refl,
)

pub next_record-encode :
    (r : Record) (x : Bytes) → Fits r → next_record (encode_record r ++ x) ≡ valid r x
next_record-encode r x f =
    let h = Header-encode r x f.seq_lt in
    let small : length r.payload % 2 ^ 32 ≡ length r.payload = omega (arith, f.payload_le) in
    rw
      (next_record-read_payload (encode_record r ++ x)
        (omega (arith, length-append (encode_record r) x, length-encode_record r)))
      (rw (h.seq, h.plen, h.crc, h.body, small) (read_payload_valid r x f.payload_le))

-- The header of a record that is cut behind its header.
plen_of_part :
    (r : Record) (p q : Bytes)
    → header_size ≤ length p
    → Header r [] (p ++ q)
    → get_be (take 4 (drop 8 p)) ≡ length r.payload % 2 ^ 32
plen_of_part r p q h head =
    ap get_be (
      sym (take-append_le 4 (drop 8 p) q (omega (arith, length-drop 8 p)))
      ∙ ap (take 4) (sym (drop-append_le 8 p q (omega arith))))
    ∙ head.plen

body_of_part :
    (r : Record) (p q : Bytes)
    → header_size ≤ length p
    → Header r [] (p ++ q)
    → length (drop 16 p) + length q ≡ length r.payload
body_of_part r p q h head =
    sym (length-append (drop 16 p) q)
    ∙ ap length (sym (drop-append_le 16 p q h) ∙ head.body ∙ append-nil r.payload)

read_payload_short :
    (seq plen crc : ℕ) (body : Bytes)
    → length body < plen
    → read_payload seq plen crc body ≡ torn_tail
unfolding read_payload
read_payload_short seq plen crc body h = ground arith

next_record_short :
    (p : Bytes) → p ≢ [] → ltb (length p) header_size ≡ true → next_record p ≡ torn_tail
unfolding next_record
next_record_short [] h _ = absurd (h refl)
next_record_short (b ∷ bs) _ t = rw t

-- A proper part of a record, cut anywhere behind its first byte, is torn.
pub next_record-torn :
    (r : Record) (p q : Bytes)
    → Fits r
    → encode_record r ≡ p ++ q
    → p ≢ []
    → 0 < length q
    → next_record p ≡ torn_tail
next_record-torn r p q f e p_some q_some = elim (Bool-cases (ltb (length p) header_size)) [
  | inl short ↦ next_record_short p p_some short
  | inr long ↦
      let h = ltb→le (length p) header_size long in
      let head : Header r [] (p ++ q) =
        subst (λ buf. Header r [] buf) (append-nil (encode_record r) ∙ e)
          (Header-encode r [] f.seq_lt) in
      next_record-read_payload p h
      ∙ read_payload_short _ _ _ (drop 16 p)
          (omega (arith, plen_of_part r p q h head, body_of_part r p q h head, f.payload_le))
]

-- A payload above the scan's guard, below the reach of its uint32 length, is refused.
pub next_record-oversized :
    (r : Record) (x : Bytes)
    → r.seq < 2 ^ 64
    → max_record_bytes < length r.payload
    → length r.payload < 2 ^ 32
    → next_record (encode_record r ++ x) ≡ torn_tail
unfolding read_payload
next_record-oversized r x h big small =
    let head = Header-encode r x h in
    let n : get_be (take 4 (drop 8 (encode_record r ++ x))) ≡ length r.payload =
      head.plen ∙ omega arith in
    next_record-read_payload (encode_record r ++ x)
      (omega (arith, length-append (encode_record r) x, length-encode_record r))
    ∙ rw n (rw (lt→ltb max_record_bytes (length r.payload) big))

-- A round that finds a record leaves less to read.
read_payload-shorter :
    (seq plen crc : ℕ) (body : Bytes) (r : Record) (rest : Bytes)
    → read_payload seq plen crc body ≡ valid r rest
    → length rest ≤ length body
unfolding read_payload
read_payload-shorter seq plen crc body r rest h = ground (arith, length-drop plen body)

pub next_record-shorter :
    (buf : Bytes) (r : Record) (rest : Bytes)
    → next_record buf ≡ valid r rest
    → length rest < length buf
unfolding next_record
next_record-shorter [] r rest h = cc
next_record-shorter (b ∷ bs) r rest h = ground (
  arith,
  read_payload-shorter (get_be (take 8 (b ∷ bs))) (get_be (take 4 (drop 8 (b ∷ bs))))
      (get_be (take 4 (drop 12 (b ∷ bs)))) (drop header_size (b ∷ bs)) r rest,
  length-drop header_size (b ∷ bs),
)
