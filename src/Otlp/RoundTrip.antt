-- ===== src/Otlp/RoundTrip.antt =====
-- The readers of internal/otlp/protowire.go on what an encoder writes.
use omni_logging.Common.{
  ℕ, zero, suc, ◌+◌, ◌*◌, ◌/◌, ◌%◌, ◌^◌, ◌≤◌, ◌<◌, ◌≡◌, refl, ap, false, some, ◌∷◌, ◌++◌,
  append_assoc, arith, if-elim, ltb, Bytes, length, take-append, drop-append, length-append,
}
use omni_logging.Otlp.{done, varint_from, varint, tag, bytes, fixed64, get_le}
use omni_logging.Otlp.Encoding.{put_on, put_varint, put_bytes, put_le}
use native.Mathlib.Nat.{div-add-mod}
use native.Mathlib.Numerals.{towards_suc}

next_weight : (s : ℕ) → 2 ^ (s + 7) ≡ 128 * 2 ^ s
next_weight s = simp towards_suc (omega arith)

-- The bits of `v` from `s` on: its lowest group and those above.
weigh : (v s : ℕ) → v % 128 * 2 ^ s + v / 128 * 2 ^ (s + 7) ≡ v * 2 ^ s
weigh v s = omega (
  arith,
  ap (λ (t : ℕ). v / 128 * t) (next_weight s),
  ap (λ (t : ℕ). t * 2 ^ s) (div-add-mod v 128),
)

varint_from-put_on :
    (k v acc shift : ℕ) (rest : Bytes)
    → v < 128 ^ suc k
    → shift + 7 * k ≤ 63
    → acc + v * 2 ^ shift < 2 ^ 64
    → varint_from acc shift (put_on k v ++ rest) ≡ some (acc + v * 2 ^ shift, rest)
unfolding varint_from put_on
varint_from-put_on zero v acc shift rest small low fits = ground arith
varint_from-put_on (suc k) v acc shift rest small low fits = ground (
  arith,
  weigh v shift,
  varint_from-put_on k (v / 128) (acc + v % 128 * 2 ^ shift) (shift + 7) rest (omega arith),
)

pub varint-put_varint :
    (v : ℕ) (rest : Bytes) → v < 2 ^ 64 → varint (put_varint v ++ rest) ≡ some (v, rest)
unfolding varint put_varint
varint-put_varint v rest h = ground (arith, varint_from-put_on 9 v 0 0 rest)

pub tag-put_varint :
    (field wire : ℕ) (rest : Bytes)
    → 0 < field
    → wire < 8
    → 8 * field + wire < 2 ^ 64
    → tag (put_varint (8 * field + wire) ++ rest) ≡ some (field, wire, rest)
unfolding tag
tag-put_varint field wire rest positive small fits =
    ground (arith, varint-put_varint (8 * field + wire) rest)

pub bytes-put_payload :
    (payload rest : Bytes)
    → length payload < 2 ^ 64
    → bytes ((put_varint (length payload) ++ payload) ++ rest) ≡ some (payload, rest)
unfolding bytes
bytes-put_payload payload rest fits =
    rw
      (
        append_assoc (put_varint (length payload)) payload rest,
        varint-put_varint (length payload) (payload ++ rest) fits,
      )
      (ground (
        arith,
        length-append payload rest,
        take-append payload rest (length payload) refl,
        drop-append payload rest (length payload) refl,
      ))

length-put_le : (k v : ℕ) → length (put_le k v) ≡ k
unfolding put_le
length-put_le zero v = refl
length-put_le (suc k) v = ap suc (length-put_le k (v / 256))

get_le-put_le : (k v : ℕ) → v < 256 ^ k → get_le (put_le k v) ≡ v
unfolding put_le get_le
get_le-put_le zero v h = omega arith
get_le-put_le (suc k) v h = omega (arith, get_le-put_le k (v / 256) (omega arith))

pub fixed64-put_le :
    (v : ℕ) (rest : Bytes) → v < 2 ^ 64 → fixed64 (put_le 8 v ++ rest) ≡ some (v, rest)
unfolding fixed64
fixed64-put_le v rest h = ground (
  arith,
  length-put_le 8 v,
  length-append (put_le 8 v) rest,
  take-append (put_le 8 v) rest 8,
  drop-append (put_le 8 v) rest 8,
  get_le-put_le 8 v,
)

-- The bytes of a field behind its tag.
abbrev pub framed : Bytes → Bytes
framed payload = put_varint (length payload) ++ payload

put_bytes-append :
    (field : ℕ) (payload rest : Bytes)
    → put_bytes field payload ++ rest ≡ put_varint (8 * field + 2) ++ (framed payload ++ rest)
unfolding put_bytes
put_bytes-append field payload rest =
    append_assoc (put_varint (8 * field + 2)) (put_varint (length payload) ++ payload) rest

pub tag-put_bytes :
    (field : ℕ) (payload rest : Bytes)
    → 0 < field
    → field < 2 ^ 60
    → tag (put_bytes field payload ++ rest) ≡ some (field, 2, framed payload ++ rest)
tag-put_bytes field payload rest positive small =
    rw (put_bytes-append field payload rest)
      (tag-put_varint field 2 (framed payload ++ rest) positive (omega arith) (omega arith))

pub done-cons : (b : ℕ) (rest : Bytes) → done (b ∷ rest) ≡ false
unfolding done
done-cons b rest = ground arith

pub done-put_varint : (v : ℕ) (rest : Bytes) → done (put_varint v ++ rest) ≡ false
unfolding put_varint
done-put_varint v rest =
    if-elim (λ (b : Bytes). done (b ++ rest) ≡ false) (ltb v 128) (λ _. done-cons v rest)
      (λ _. done-cons (128 + v % 128) (put_on 8 (v / 128) ++ rest))

pub done-put_bytes :
    (field : ℕ) (payload rest : Bytes) → done (put_bytes field payload ++ rest) ≡ false
done-put_bytes field payload rest =
    rw (put_bytes-append field payload rest)
      (done-put_varint (8 * field + 2) (framed payload ++ rest))
