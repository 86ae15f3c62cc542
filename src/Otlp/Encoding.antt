-- ===== src/Otlp/Encoding.antt =====
-- An encoder of attributes, as an OTLP exporter writes them, which the decoders of internal/otlp read
-- back: numbers in groups of seven bits, fields behind their tags, and values that nest.
use omni_logging.Common.{
  ℕ, zero, suc, ◌+◌, ◌*◌, ◌/◌, ◌%◌, Bool, [], ◌∷◌, ◌++◌, if◌then◌else◌, ltb, Bytes, length,
}

-- A number on `k` bytes at most behind which one more follows.
unfoldable pub put_on : ℕ → ℕ → Bytes
put_on zero v = v ∷ []
put_on (suc k) v =
    let more = put_on k (v / 128) in if ltb v 128 then v ∷ [] else (128 + v % 128) ∷ more

unfoldable pub put_varint : ℕ → Bytes
unfolding put_on
put_varint v = put_on 9 v

-- A length-delimited field.
unfoldable pub put_bytes : ℕ → Bytes → Bytes
put_bytes field payload = put_varint (8 * field + 2) ++ (put_varint (length payload) ++ payload)

-- binary.LittleEndian, on `k` bytes.
unfoldable pub put_le : ℕ → ℕ → Bytes
put_le zero v = []
put_le (suc k) v = v % 256 ∷ put_le k (v / 256)

-- What an exporter holds: an AnyValue of the protocol. An integer and a float64 are their 64 bits.
mutual
  pub data Tree : Type 0 where
    str : Bytes → Tree
    boolean : Bool → Tree
    int : ℕ → Tree
    double : ℕ → Tree
    blob : Bytes → Tree
    arr : Trees → Tree
    kvs : Entries → Tree

  pub data Trees : Type 0 where
    no_tree : Trees
    tree : Tree → Trees → Trees

  pub data Entries : Type 0 where
    no_entry : Entries
    entry : Bytes → Tree → Entries → Entries

unfoldable mutual
  -- The field of the AnyValue.
  pub put_value : Tree → Bytes
  put_value (str b) = put_bytes 1 b
  put_value (boolean b) = 16 ∷ (if b then 1 else 0) ∷ []
  put_value (int n) = 24 ∷ put_varint n
  put_value (double n) = 33 ∷ put_le 8 n
  put_value (blob b) = put_bytes 7 b
  put_value (arr ts) = put_bytes 5 (put_items ts)
  put_value (kvs es) = put_bytes 6 (put_entries es)

  pub put_items : Trees → Bytes
  put_items no_tree = []
  put_items (tree t ts) = put_bytes 1 (put_value t) ++ put_items ts

  pub put_entries : Entries → Bytes
  put_entries no_entry = []
  put_entries (entry k t es) =
      put_bytes 1 (put_bytes 1 k ++ put_bytes 2 (put_value t)) ++ put_entries es
