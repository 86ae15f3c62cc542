-- ===== src/Syslog/RoundTrip.antt =====
-- Structured data from its text to the attributes of an event: `splitStructuredData` and
-- `parseStructuredData` of internal/syslog/parse.go.
use omni_logging.Common.{◌≡◌, refl, sym, ap, ◌∙◌, true, false, List, [], ◌∷◌, ◌++◌, map, Text, All}
use omni_logging.Common.Strings.{Unicode, trim_left}
use omni_logging.Common.Maps.{set_entry, set_entries}
use omni_logging.Query.{is_empty}
use omni_logging.Query.Match.{Value, text, flag}
use omni_logging.Syslog.Elements.{
  Halves, split_trimmed, split_structured_data, Element, under, set_params, set_element,
  set_elements, parse_structured_data,
}
use omni_logging.Syslog.Reading.{
  written, written_element, IsWritable, split_from-written, split_elements-written,
}
use omni_logging.Syslog.Params.{split_element_id-written}

-- The attributes of one element: its parameters under its ID, or its ID alone.
abbrev pub flat : Text → List (Text × Text) → List (Text × Value)
flat id [] = (id, flag true) ∷ []
flat id (p ∷ ps) = map (under id) (p ∷ ps)

abbrev pub attributes_of : List Element → List (Text × Value)
attributes_of [] = []
attributes_of (e ∷ es) = flat e.id (set_entries e.params []) ++ attributes_of es

set_entries-append :
    {A : Type 0} (xs ys m : List (Text × A))
    → set_entries (xs ++ ys) m ≡ set_entries ys (set_entries xs m)
unfolding set_entries
set_entries-append [] ys m = refl
set_entries-append ((k, x) ∷ xs) ys m = set_entries-append xs ys (set_entry k x m)

set_params-flat :
    (id : Text) (ps : List (Text × Text)) (out : List (Text × Value))
    → set_params id ps out ≡ set_entries (map (under id) ps) out
unfolding set_params set_entries
set_params-flat id [] out = refl
set_params-flat id ((k, v) ∷ ps) out =
    set_params-flat id ps (set_entry (id ++ (b'.' ∷ k)) (text v) out)

set_element-flat :
    (id : Text) (ps : List (Text × Text)) (out : List (Text × Value))
    → is_empty id ≡ false
    → set_element (record { id = id; params = ps }) out ≡ set_entries (flat id ps) out
unfolding set_element set_entries
set_element-flat id [] out h = rw h refl
set_element-flat id (p ∷ ps) out h = rw h (set_params-flat id (p ∷ ps) out)

set_elements-written :
    (u : Unicode) (es : List Element) (out : List (Text × Value))
    → All (IsWritable u) es
    → u.is_space b'"' ≡ false
    → set_elements u (map written_element es) out ≡ set_entries (attributes_of es) out
unfolding set_elements set_entries
set_elements-written u [] out _ q = refl
set_elements-written u (e ∷ es) out (h, hs) q =
    ap (λ x. set_elements u (map written_element es) (set_element x out))
      (split_element_id-written u e h q)
    ∙ ap (set_elements u (map written_element es))
        (set_element-flat e.id (set_entries e.params []) out h.has_id)
    ∙ set_elements-written u es (set_entries (flat e.id (set_entries e.params [])) out) hs q
    ∙ sym (set_entries-append (flat e.id (set_entries e.params [])) (attributes_of es) out)

split_structured_data-written :
    (u : Unicode) (e : Element) (es : List Element) (msg : Text)
    → All (IsWritable u) (e ∷ es)
    → split_structured_data (written (e ∷ es) ++ (32 ∷ msg))
      ≡ record { data_part = written (e ∷ es); message = msg }
unfolding split_structured_data split_trimmed trim_left
split_structured_data-written u e es msg h = split_from-written u e es [] msg h

parse_structured_data-written :
    (u : Unicode) (es : List Element)
    → All (IsWritable u) es
    → u.is_space b'"' ≡ false
    → parse_structured_data u (written es) ≡ set_entries (attributes_of es) []
unfolding parse_structured_data
parse_structured_data-written u es h q =
    ap (λ ts. set_elements u ts []) (split_elements-written u es h)
    ∙ set_elements-written u es [] h q

-- What is read of structured data with a message behind it.
pub record IsRead (u : Unicode) (es : List Element) (msg : Text) (halves : Halves) : Type 0 where
  pub message : halves.message ≡ msg
  pub attributes : parse_structured_data u halves.data_part ≡ set_entries (attributes_of es) []

-- Any elements, at least one, written as RFC5424 says with quotes, backslashes and closing brackets in
-- their values escaped, a space, and any message: the message is found behind them, and the attributes
-- are every parameter's value, unescaped, under its element's ID and its key, and true under the ID of an
-- element without parameters. Of two with one key the last one counts. Names are not empty, and hold no
-- spaces, equals signs, quotes, backslashes or brackets; a quote is no space.
pub split_structured_data-IsRead :
    (u : Unicode) (e : Element) (es : List Element) (msg : Text)
    → All (IsWritable u) (e ∷ es)
    → u.is_space b'"' ≡ false
    → IsRead u (e ∷ es) msg (split_structured_data (written (e ∷ es) ++ (32 ∷ msg)))
split_structured_data-IsRead u e es msg h q =
    let split = split_structured_data-written u e es msg h in
    record {
      message = ap (λ (x : Halves). x.message) split;
      attributes =
          ap (λ (x : Halves). parse_structured_data u x.data_part) split
          ∙ parse_structured_data-written u (e ∷ es) h q;
    }
