-- ===== src/Otlp/Entries.antt =====
-- A round of the loops of internal/otlp/logs.go on a field that an exporter wrote.
use omni_logging.Common.{
  ℕ, ◌^◌, ◌<◌, ◌≡◌, refl, sym, ap, ◌∙◌, not, ◌||◌, Option, none, some, [], ◌++◌, append-nil, arith,
  Text, if◌then◌else◌, ◌>>=◌, ltb, ◌==◌, Bytes, length,
}
use omni_logging.Query.{is_empty}
use omni_logging.Otlp.Fields.{Handler, each_field}
use omni_logging.Otlp.Values.{
  AnyValue, no_value, Items, Pairs, Codec, append_item, set_pair, max_nesting_depth, array_field,
  kvlist_field, key_value_field, key_or_value, decode_key_value,
}
use omni_logging.Otlp.Encoding.{put_bytes}
use omni_logging.Otlp.RoundTrip.{framed, done-put_bytes, tag-put_bytes, bytes-put_payload}
use omni_logging.Otlp.Rounds.{IsForward, framed-forward, each_field-loop}

module _ (c : Codec) where
  array_field-IsForward : (decode : Bytes → Option AnyValue) → IsForward (array_field c decode)
  unfolding array_field
  array_field-IsForward decode out field wire rest =
      framed-forward (not (field == 1) || not (wire == 2)) out wire decode
        (λ _ v. append_item out v) rest

  kvlist_field-IsForward :
      (decode : Bytes → Option (Text × AnyValue)) → IsForward (kvlist_field c decode)
  unfolding kvlist_field
  kvlist_field-IsForward decode out field wire rest =
      framed-forward (not (field == 1) || not (wire == 2)) out wire decode
        (λ _ e. if is_empty e.0 then out else set_pair e.0 e.1 out) rest

  key_value_field-IsForward :
      (decode : Bytes → Option AnyValue) → IsForward (key_value_field c decode)
  unfolding key_value_field
  key_value_field-IsForward decode e field wire rest =
      framed-forward (not (wire == 2)) e wire (key_or_value c decode e field) (λ _ next. next) rest

  -- The next round of a loop over what an exporter wrote.
  each_field-put_bytes :
      {S : Type 0} (h : Handler S) (forward : IsForward h) (s : S) (field : ℕ)
      (payload rest : Bytes)
      → 0 < field
      → field < 2 ^ 60
      → each_field h s (put_bytes field payload ++ rest)
        ≡ (do (next, behind) ← h s field 2 (framed payload ++ rest); each_field h next behind)
  each_field-put_bytes h forward s field payload rest positive small =
      each_field-loop h forward s (put_bytes field payload ++ rest)
      ∙ rw (done-put_bytes field payload rest, tag-put_bytes field payload rest positive small) refl

  bind-some :
      {A B C : Type 0} (o : Option A) (f : A → B) (g : B → Option C)
      → ((o >>= λ (a : A). some (f a)) >>= g) ≡ (o >>= λ (a : A). g (f a))
  bind-some none f g = refl
  bind-some (some a) f g = refl

  pub item_round :
      (decode : Bytes → Option AnyValue) (out : Items) (payload rest : Bytes)
      → length payload < 2 ^ 64
      → each_field (array_field c decode) out (put_bytes 1 payload ++ rest)
        ≡ (do v ← decode payload; each_field (array_field c decode) (append_item out v) rest)
  unfolding array_field
  item_round decode out payload rest fits =
      each_field-put_bytes (array_field c decode) (array_field-IsForward decode) out 1 payload rest
        (omega arith) (omega arith)
      ∙ rw (bytes-put_payload payload rest fits) (
          bind-some (decode payload) (λ v. (append_item out v, rest))
            (λ (r : Items × Bytes). each_field (array_field c decode) r.0 r.1))

  pub pair_round :
      (decode : Bytes → Option (Text × AnyValue)) (out : Pairs) (payload rest : Bytes)
      → length payload < 2 ^ 64
      → each_field (kvlist_field c decode) out (put_bytes 1 payload ++ rest) ≡ (do
        (k, v) ← decode payload
        each_field (kvlist_field c decode) (if is_empty k then out else set_pair k v out) rest)
  unfolding kvlist_field
  pair_round decode out payload rest fits =
      each_field-put_bytes (kvlist_field c decode) (kvlist_field-IsForward decode) out 1 payload
        rest (omega arith) (omega arith)
      ∙ rw (bytes-put_payload payload rest fits) (
          bind-some (decode payload)
            (λ e. (if is_empty e.0 then out else set_pair e.0 e.1 out, rest))
            (λ (r : Pairs × Bytes). each_field (kvlist_field c decode) r.0 r.1))

  entry_round :
      (decode : Bytes → Option AnyValue) (e : Text × AnyValue) (field : ℕ) (payload rest : Bytes)
      → 0 < field
      → field < 2 ^ 60
      → length payload < 2 ^ 64
      → each_field (key_value_field c decode) e (put_bytes field payload ++ rest) ≡ (do
        next ← key_or_value c decode e field payload
        each_field (key_value_field c decode) next rest)
  unfolding key_value_field
  entry_round decode e field payload rest positive small fits =
      each_field-put_bytes (key_value_field c decode) (key_value_field-IsForward decode) e field
        payload rest positive small
      ∙ rw (bytes-put_payload payload rest fits) (
          bind-some (key_or_value c decode e field payload) (λ next. (next, rest))
            (λ (r : (Text × AnyValue) × Bytes). each_field (key_value_field c decode) r.0 r.1))

  -- The key and the value of an entry, in the order in which an exporter writes them.
  pub entry_read :
      (decode : Bytes → Option AnyValue) (depth : ℕ) (k v : Bytes)
      → length k < 2 ^ 64
      → length v < 2 ^ 64
      → decode_key_value c decode depth (put_bytes 1 k ++ put_bytes 2 v)
        ≡ (if ltb max_nesting_depth depth then none else (do a ← decode v; some (c.text_of k, a)))
  unfolding decode_key_value key_or_value each_field
  entry_read decode depth k v fits fits' =
      ap (λ (o : Option (Text × AnyValue)). if ltb max_nesting_depth depth then none else o)
        (entry_round decode ([], no_value) 1 k (put_bytes 2 v) (omega arith) (omega arith) fits
          ∙ ap (each_field (key_value_field c decode) (c.text_of k, no_value))
              (sym (append-nil (put_bytes 2 v)))
          ∙ entry_round decode (c.text_of k, no_value) 2 v [] (omega arith) (omega arith) fits'
          ∙ bind-some (decode v) (λ a. (c.text_of k, a))
              (λ (e : Text × AnyValue). each_field (key_value_field c decode) e []))
