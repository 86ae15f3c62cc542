-- ===== src/Otlp/Nesting.antt =====
-- `decodeAnyValue` of internal/otlp/logs.go on the values that an exporter writes, up to its limit of depth
-- and beyond.
use omni_logging.Common.{
  ℕ, zero, suc, ◌+◌, ◌^◌, ◌≤◌, ◌<◌, ◌≡◌, refl, ◌∙◌, subst, Bool, true, false, ◌&&◌, Option, none,
  some, [], ◌++◌, arith, Text, if◌then◌else◌, ◌>>=◌, leb, Bytes, length,
}
use omni_logging.Query.{is_empty}
use omni_logging.Otlp.Fields.{each_field}
use omni_logging.Otlp.Values.{
  AnyValue, array_value, kvlist_value, Items, no_item, Pairs, no_pair, Codec, append_item, set_pair,
  max_nesting_depth, array_field, kvlist_field, decode_array_value, decode_kvlist, decode_key_value,
  decode_any_value_on, decode_any_value, any_value_field,
}
use omni_logging.Otlp.Encoding.{
  put_bytes, Tree, str, boolean, int, double, blob, arr, kvs, Trees, no_tree, tree, Entries,
  no_entry, entry, put_value, put_items, put_entries,
}
use omni_logging.Otlp.RoundTrip.{bytes-put_payload}
use omni_logging.Otlp.Trees.{
  IsSized, AreSized, EntriesSized, is_within, are_within, entries_within, meaning, items_behind,
  pairs_behind,
}
use omni_logging.Otlp.Entries.{item_round, pair_round, entry_read}
use omni_logging.Otlp.Leaves.{
  first_field-put_bytes, probe_at, value_read, str_read, blob_read, boolean_read, int_read,
  double_read,
}

-- A value that is kept where a test succeeds.
abbrev when : {A : Type 0} → Bool → A → Option A
when b x = if b then some x else none

nested_guard : {A : Type 0} (a b : Bool) (x : A) → (if a then when b x else none) ≡ when (a && b) x
nested_guard true b x = refl
nested_guard false b x = refl

guard-map :
    {A B : Type 0} (b : Bool) (x : A) (f : A → B) → (when b x >>= λ a. some (f a)) ≡ when b (f x)
guard-map true x f = refl
guard-map false x f = refl

guard-bind :
    {A B : Type 0} (a b : Bool) (x : A) (y : B) (f : A → Option B)
    → f x ≡ when b y
    → (when a x >>= f) ≡ when (a && b) y
guard-bind true b x y f h = h
guard-bind false b x y f h = refl

too_deep : (depth : ℕ) (t : Tree) → 17 ≤ depth → is_within depth t ≡ false
unfolding is_within
too_deep depth (str b) h = ground arith
too_deep depth (boolean b) h = ground arith
too_deep depth (int n) h = ground arith
too_deep depth (double n) h = ground arith
too_deep depth (blob b) h = ground arith
too_deep depth (arr ts) h = ground arith
too_deep depth (kvs es) h = ground arith

module _ (c : Codec) where
  arr_read :
      (n depth : ℕ) (payload : Bytes)
      → length payload < 2 ^ 64
      → decode_any_value_on c (suc n) depth (put_bytes 5 payload) ≡ (
          if leb depth max_nesting_depth
          then decode_array_value c (decode_any_value_on c n (depth + 2)) payload
          else none)
  unfolding any_value_field
  arr_read n depth payload fits =
      let o : Option AnyValue =
        decode_array_value c (decode_any_value_on c n (depth + 2)) payload in
      value_read c n depth (put_bytes 5 payload) o (
        first_field-put_bytes (probe_at c n depth) 5 payload o (omega arith) (omega arith)
          (rw (bytes-put_payload payload [] fits) refl))

  kvs_read :
      (n depth : ℕ) (payload : Bytes)
      → length payload < 2 ^ 64
      → decode_any_value_on c (suc n) depth (put_bytes 6 payload) ≡ (
          if leb depth max_nesting_depth
          then decode_kvlist c
              (decode_key_value c (decode_any_value_on c n (depth + 2 + 1)) (depth + 2))
              payload
          else none)
  unfolding any_value_field
  kvs_read n depth payload fits =
      let o : Option AnyValue =
        decode_kvlist c (decode_key_value c (decode_any_value_on c n (depth + 3)) (depth + 2))
          payload in
      subst
        (λ (d : ℕ). decode_any_value_on c (suc n) depth (put_bytes 6 payload) ≡ (
          if leb depth max_nesting_depth
          then decode_kvlist c (decode_key_value c (decode_any_value_on c n d) (depth + 2)) payload
          else none))
        (three depth)
        (value_read c n depth (put_bytes 6 payload) o (
          first_field-put_bytes (probe_at c n depth) 6 payload o (omega arith) (omega arith)
            (rw (bytes-put_payload payload [] fits) refl)))
    where
      three : (d : ℕ) → d + 3 ≡ d + 2 + 1
      three d = omega arith

  entry_within :
      (decode : Bytes → Option AnyValue) (depth : ℕ) (k v : Bytes) (b : Bool) (x : AnyValue)
      → length k < 2 ^ 64
      → length v < 2 ^ 64
      → decode v ≡ when b x
      → decode_key_value c decode depth (put_bytes 1 k ++ put_bytes 2 v)
        ≡ when (leb depth max_nesting_depth && b) (c.text_of k, x)
  entry_within decode depth k v b x fits fits' h =
      entry_read c decode depth k v fits fits'
      ∙ rw (h, guard-map {B = Text × AnyValue} b x (λ a. (c.text_of k, a))) (ground arith)

  mutual
    unfolding decode_any_value_on is_within put_value meaning IsSized decode_array_value
        decode_kvlist

    tree_decodes :
        (n depth : ℕ) (t : Tree)
        → 17 ≤ n + depth
        → IsSized t
        → decode_any_value_on c n depth (put_value t) ≡ when (is_within depth t) (meaning c t)
    tree_decodes zero depth t enough s = rw (too_deep depth t (omega arith)) refl
    tree_decodes (suc n) depth (str b) enough s =
        value_read c n depth (put_value (str b)) (some (meaning c (str b))) (str_read c n depth b s)
    tree_decodes (suc n) depth (boolean b) enough s =
        value_read c n depth (put_value (boolean b)) (some (meaning c (boolean b)))
          (boolean_read c n depth b)
    tree_decodes (suc n) depth (int v) enough s =
        value_read c n depth (put_value (int v)) (some (meaning c (int v))) (int_read c n depth v s)
    tree_decodes (suc n) depth (double v) enough s =
        value_read c n depth (put_value (double v)) (some (meaning c (double v)))
          (double_read c n depth v s)
    tree_decodes (suc n) depth (blob b) enough s =
        value_read c n depth (put_value (blob b)) (some (meaning c (blob b)))
          (blob_read c n depth b s)
    tree_decodes (suc n) depth (arr ts) enough (fits, s) =
        arr_read n depth (put_items ts) fits
        ∙ rw
            (
              items_decode n (depth + 2) no_item ts (omega arith) s,
              guard-map (are_within (depth + 2) ts) (items_behind c no_item ts) array_value,
            )
            (nested_guard (leb depth max_nesting_depth) (are_within (depth + 2) ts) _)
    tree_decodes (suc n) depth (kvs es) enough (fits, s) =
        kvs_read n depth (put_entries es) fits
        ∙ rw
            (
              entries_decode n (depth + 2) no_pair es (omega arith) s,
              guard-map (entries_within (depth + 2) es) (pairs_behind c no_pair es) kvlist_value,
            )
            (nested_guard (leb depth max_nesting_depth) (entries_within (depth + 2) es) _)

    items_decode :
        (n depth : ℕ) (out : Items) (ts : Trees)
        → 17 ≤ n + depth
        → AreSized ts
        → each_field (array_field c (decode_any_value_on c n depth)) out (put_items ts)
          ≡ when (are_within depth ts) (items_behind c out ts)
    items_decode n depth out no_tree enough s = refl
    items_decode n depth out (tree t ts) enough (fits, here, s) =
        item_round c (decode_any_value_on c n depth) out (put_value t) (put_items ts) fits
        ∙ rw (tree_decodes n depth t enough here) (
            guard-bind (is_within depth t) (are_within depth ts) (meaning c t)
              (items_behind c (append_item out (meaning c t)) ts)
              (λ v.
                each_field (array_field c (decode_any_value_on c n depth)) (append_item out v)
                  (put_items ts))
              (items_decode n depth (append_item out (meaning c t)) ts enough s))

    entries_decode :
        (n depth : ℕ) (out : Pairs) (es : Entries)
        → 17 ≤ n + (depth + 1)
        → EntriesSized es
        → each_field
            (kvlist_field c (decode_key_value c (decode_any_value_on c n (depth + 1)) depth))
            out
            (put_entries es)
          ≡ when (entries_within depth es) (pairs_behind c out es)
    entries_decode n depth out no_entry enough s = refl
    entries_decode n depth out (entry k t es) enough (f, g, fits, here, s) =
        pair_round c (decode_key_value c (decode_any_value_on c n (depth + 1)) depth) out
          (put_bytes 1 k ++ put_bytes 2 (put_value t)) (put_entries es) fits
        ∙ rw
            (entry_within (decode_any_value_on c n (depth + 1)) depth k (put_value t)
              (is_within (depth + 1) t) (meaning c t) f g
              (tree_decodes n (depth + 1) t enough here))
            (guard-bind {A = Text × AnyValue}
              (leb depth max_nesting_depth && is_within (depth + 1) t) (entries_within depth es)
              (c.text_of k, meaning c t) (pairs_behind c out (entry k t es))
              (λ e.
                each_field
                  (kvlist_field c (decode_key_value c (decode_any_value_on c n (depth + 1)) depth))
                  (if is_empty e.0 then out else set_pair e.0 e.1 out) (put_entries es))
              (entries_decode n depth
                (if is_empty (c.text_of k) then out else set_pair (c.text_of k) (meaning c t) out)
                es enough s))

  -- What an exporter writes of a value is read back as that value, whatever it holds and however lists and
  -- maps nest in it, as long as nothing stands deeper than the limit of 16; a value that nests deeper is
  -- refused. The lengths and the numbers fit 64 bits.
  pub decode_any_value-put_value :
      (depth : ℕ) (t : Tree)
      → IsSized t
      → decode_any_value c depth (put_value t)
        ≡ (if is_within depth t then some (meaning c t) else none)
  unfolding decode_any_value
  decode_any_value-put_value depth t s = tree_decodes 17 depth t (omega arith) s
