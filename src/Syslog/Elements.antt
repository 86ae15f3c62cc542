-- ===== src/Syslog/Elements.antt =====
-- The structured data of RFC5424: `splitStructuredData`, `parseStructuredData` and their parts in
-- internal/syslog/parse.go. The loops over indexes are recursion on the text behind the index.
use omni_logging.Common.{
  ℕ, zero, suc, Bool, true, false, not, Option, none, some, List, [], ◌∷◌, ◌++◌, if◌then◌else◌,
  ◌==◌, length, Text,
}
use omni_logging.Common.Int.{ℤ, pos, ◌+ℤ◌, ◌-ℤ◌}
use omni_logging.Common.Strings.{Unicode, trim_space, trim_left, cut_at}
use omni_logging.Common.Maps.{set_entry}
use omni_logging.Query.{is_empty}
use omni_logging.Query.Match.{Value, text, flag}

-- The two flags that the loops keep.
pub record Quotes : Type 0 where
  pub in_quote : Bool
  pub escaped : Bool

abbrev pub outside : Quotes
outside = record { in_quote = false; escaped = false }

-- What a character is under the flags: part of a value or an escape, or a bracket.
pub data Sign : Type 0 where
  plain : Quotes → Sign
  opening closing : Sign

-- The cases of the two switches that come before the brackets.
unfoldable pub sign_of : Quotes → ℕ → Sign
sign_of q c =
    if q.escaped
    then plain (record q { escaped = false })
    else if c == b'\\'
    then plain (record q { escaped = true })
    else if c == b'"'
    then plain (record q { in_quote = not q.in_quote })
    else if q.in_quote
    then plain q
    else if c == b'['
    then opening
    else if c == b']'
    then closing
    else plain q

-- strings.TrimPrefix(s, " ")
unfoldable pub drop_space : Text → Text
drop_space [] = []
drop_space (c ∷ s) = if c == 32 then s else c ∷ s

unfoldable pub starts_with : ℕ → Text → Bool
starts_with c [] = false
starts_with c (d ∷ s) = d == c

-- The structured data and the message.
pub record Halves : Type 0 where
  pub data_part : Text
  pub message : Text

-- The loop of `splitStructuredData`, with the text before the index, and the depth.
unfoldable pub split_from : Quotes → ℤ → Text → Text → Halves
unfolding sign_of drop_space starts_with
split_from q depth before [] = record { data_part = before; message = [] }
split_from q depth before (c ∷ s) =
    let deeper = split_from q (depth +ℤ pos 1) (before ++ c ∷ []) s in
    let higher = split_from q (depth -ℤ pos 1) (before ++ c ∷ []) s in
    let next = λ (r : Quotes). split_from r depth (before ++ c ∷ []) s in
    elim (sign_of q c) [
      | plain r ↦ next r
      | opening ↦ deeper
      | closing ↦ elim (depth -ℤ pos 1) [
        | pos zero ↦
            if starts_with b'[' s
            then higher
            else record { data_part = before ++ c ∷ []; message = drop_space s }
        | _ ↦ higher
      ]
    ]

-- `splitStructuredData` behind the leading spaces.
unfoldable pub split_trimmed : Text → Halves
unfolding split_from drop_space
split_trimmed [] = record { data_part = []; message = [] }
split_trimmed (c ∷ s) =
    if c == b'-'
    then record { data_part = []; message = drop_space s }
    else if not (c == b'[')
    then record { data_part = []; message = c ∷ s }
    else split_from outside (pos 0) [] (c ∷ s)

-- `splitStructuredData`
unfoldable pub split_structured_data : Text → Halves
unfolding split_trimmed trim_left
split_structured_data s = split_trimmed (trim_left (λ c. c == 32) s)

unfoldable pub open_at : ℕ → Option Text → Option Text
open_at c none = some []
open_at c (some t) = some (t ++ c ∷ [])

-- The loop of `splitElements`: `none` is a start of -1, else the element so far.
unfoldable pub elements_from : Quotes → Option Text → Text → List Text
unfolding sign_of open_at
elements_from q cur [] = []
elements_from q cur (c ∷ s) =
    let more : Option Text = elim cur [ none ↦ none | some t ↦ some (t ++ c ∷ []) ] in
    let next = λ (r : Quotes). elements_from r more s in
    let opened = elements_from q (open_at c cur) s in
    let closed = elements_from q none s in
    elim (sign_of q c) [
      | plain r ↦ next r
      | opening ↦ opened
      | closing ↦ elim cur [ none ↦ closed | some t ↦ t ∷ closed ]
    ]

-- `splitElements`
unfoldable pub split_elements : Text → List Text
unfolding elements_from
split_elements sd = elements_from outside none sd

-- A value that was read, and what follows it; or no quote that ends it.
pub data Quoted : Type 0 where
  quoted : Text → Text → Quoted
  unquoted : Quoted

-- The loop of `readQuoted`.
unfoldable pub read_from : Bool → Text → Text → Quoted
read_from escaped value [] = unquoted
read_from escaped value (c ∷ s) =
    let kept = read_from false (value ++ c ∷ []) s in
    let escape = read_from true value s in
    if escaped
    then kept
    else if c == b'\\'
    then escape
    else if c == b'"'
    then quoted value s
    else kept

-- `readQuoted`
unfoldable pub read_quoted : Text → Quoted
unfolding read_from
read_quoted [] = unquoted
read_quoted (c ∷ s) = if c == b'"' then read_from false [] s else unquoted

-- The loop of `splitElementID`. Each round reads a character at least: the fuel is the length.
unfoldable pub params_from : ℕ → List (Text × Text) → Text → List (Text × Text)
unfolding trim_left cut_at read_quoted set_entry
params_from zero params rest = params
params_from (suc fuel) params rest =
    let next = λ (p : List (Text × Text)) (r : Text). params_from fuel p r in
    elim (cut_at b'=' [] (trim_left (λ c. c == 32) rest)) [
      | none ↦ params
      | some (key, behind) ↦ elim (read_quoted behind) [
        | unquoted ↦ params
        | quoted value remainder ↦ next (set_entry key value params) remainder
      ]
    ]

-- An element's ID and its parameters.
pub record Element : Type 0 where
  pub id : Text
  pub params : List (Text × Text)

unfoldable pub element_of : Text → Element
unfolding cut_at params_from
element_of elem = elim (cut_at 32 [] elem) [
  | none ↦ record { id = elem; params = [] }
  | some (id, rest) ↦ record { id = id; params = params_from (suc (length rest)) [] rest }
]

-- `splitElementID`
unfoldable pub split_element_id : Unicode → Text → Element
unfolding element_of trim_space
split_element_id u elem = element_of (trim_space u elem)

-- id + "." + k, with the value.
abbrev pub under : Text → Text × Text → Text × Value
under id (k, v) = (id ++ (b'.' ∷ k), text v)

unfoldable pub set_params : Text → List (Text × Text) → List (Text × Value) → List (Text × Value)
unfolding set_entry
set_params id [] out = out
set_params id ((k, v) ∷ params) out =
    set_params id params (set_entry (id ++ (b'.' ∷ k)) (text v) out)

-- A round of `parseStructuredData`.
unfoldable pub set_element : Element → List (Text × Value) → List (Text × Value)
unfolding is_empty set_params set_entry
set_element e out = if is_empty e.id then out else elim e.params [
  | [] ↦ set_entry e.id (flag true) out
  | p ∷ ps ↦ set_params e.id (p ∷ ps) out
]

unfoldable pub set_elements : Unicode → List Text → List (Text × Value) → List (Text × Value)
unfolding set_element split_element_id
set_elements u [] out = out
set_elements u (e ∷ es) out = set_elements u es (set_element (split_element_id u e) out)

-- `parseStructuredData`
unfoldable pub parse_structured_data : Unicode → Text → List (Text × Value)
unfolding set_elements split_elements
parse_structured_data u sd = set_elements u (split_elements sd) []
