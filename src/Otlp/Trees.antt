-- ===== src/Otlp/Trees.antt =====
-- What `decodeAnyValue` of internal/otlp/logs.go makes of a value that an exporter wrote, however it nests.
use omni_logging.Common.{ℕ, ◌+◌, ◌^◌, ◌<◌, Bool, true, ◌&&◌, ◌++◌, if◌then◌else◌, leb, length}
use omni_logging.Query.{is_empty}
use omni_logging.Model.Json.{wrap_64}
use omni_logging.Otlp.Values.{
  AnyValue, string_value, bool_value, int_value, double_value, array_value, kvlist_value, Items,
  no_item, Pairs, no_pair, Codec, append_item, set_pair, max_nesting_depth, hex,
}
use omni_logging.Otlp.Encoding.{
  put_bytes, Tree, str, boolean, int, double, blob, arr, kvs, Trees, no_tree, tree, Entries,
  no_entry, entry, put_value, put_items, put_entries,
}

-- The numbers fit 64 bits, and so do the lengths.
unfoldable mutual
  pub IsSized : Tree → Type 0
  IsSized (str b) = length b < 2 ^ 64
  IsSized (boolean b) = Unit
  IsSized (int n) = n < 2 ^ 64
  IsSized (double n) = n < 2 ^ 64
  IsSized (blob b) = length b < 2 ^ 64
  IsSized (arr ts) = (length (put_items ts) < 2 ^ 64) × AreSized ts
  IsSized (kvs es) = (length (put_entries es) < 2 ^ 64) × EntriesSized es

  pub AreSized : Trees → Type 0
  AreSized no_tree = Unit
  AreSized (tree t ts) = (length (put_value t) < 2 ^ 64) × IsSized t × AreSized ts

  pub EntriesSized : Entries → Type 0
  EntriesSized no_entry = Unit
  EntriesSized (entry k t es) =
      (length k < 2 ^ 64)
      × (length (put_value t) < 2 ^ 64)
      × (length (put_bytes 1 k ++ put_bytes 2 (put_value t)) < 2 ^ 64)
      × IsSized t
      × EntriesSized es

-- Nothing stands deeper than the limit: an element of a list is two deeper than the list, an entry of a
-- map two and its value three.
unfoldable mutual
  pub is_within : ℕ → Tree → Bool
  is_within depth (arr ts) = leb depth max_nesting_depth && are_within (depth + 2) ts
  is_within depth (kvs es) = leb depth max_nesting_depth && entries_within (depth + 2) es
  is_within depth _ = leb depth max_nesting_depth

  pub are_within : ℕ → Trees → Bool
  are_within depth no_tree = true
  are_within depth (tree t ts) = is_within depth t && are_within depth ts

  pub entries_within : ℕ → Entries → Bool
  entries_within depth no_entry = true
  entries_within depth (entry k t es) =
      (leb depth max_nesting_depth && is_within (depth + 1) t) && entries_within depth es

module _ (c : Codec) where
  -- What a value stands for. A later entry of a map replaces an earlier one, and one without a name is
  -- left out.
  unfoldable mutual
    unfolding set_pair append_item hex wrap_64 is_empty

    pub meaning : Tree → AnyValue
    meaning (str b) = string_value (c.text_of b)
    meaning (boolean b) = bool_value b
    meaning (int n) = int_value (wrap_64 n)
    meaning (double n) = double_value n
    meaning (blob b) = string_value (hex b)
    meaning (arr ts) = array_value (items_behind no_item ts)
    meaning (kvs es) = kvlist_value (pairs_behind no_pair es)

    pub items_behind : Items → Trees → Items
    items_behind out no_tree = out
    items_behind out (tree t ts) = items_behind (append_item out (meaning t)) ts

    pub pairs_behind : Pairs → Entries → Pairs
    pairs_behind out no_entry = out
    pairs_behind out (entry k t es) =
        pairs_behind
          (if is_empty (c.text_of k) then out else set_pair (c.text_of k) (meaning t) out) es
