-- ===== src/Pipeline/Grok.antt =====
-- Grok patterns (internal/pipeline/grok.go): the expansion of references into a regular expression. The
-- table of built-in patterns is an argument.
use omni_logging.Common.{
  ℕ, zero, suc, Bool, true, false, ◌&&◌, ◌||◌, Option, none, some, ◌>>=◌, List, [], ◌∷◌, ◌++◌,
  if◌then◌else◌, leb, ◌==◌, length, Text, codes, same,
}
use omni_logging.Common.Maps.{get_entry, set_entry}
use omni_logging.Query.{is_empty}
use omni_logging.Syslog.{itoa}

-- \w
unfoldable pub is_word_char : ℕ → Bool
is_word_char c =
    (leb b'0' c && leb c b'9')
    || ((leb b'A' c && leb c b'Z') || ((leb b'a' c && leb c b'z') || c == b'_'))

-- The longest prefix of characters that pass a test, and the rest.
pub record Run : Type 0 where
  pub word : Text
  pub rest : Text

unfoldable pub run_of : (ℕ → Bool) → Text → Run
run_of p [] = record { word = []; rest = [] }
run_of p (c ∷ s) =
    let more = run_of p s in
    if p c
    then record { word = c ∷ more.word; rest = more.rest }
    else record { word = []; rest = c ∷ s }

-- A reference %{NAME} or %{NAME:field}, with what follows it. The field is empty where there is none.
pub record Reference : Type 0 where
  pub name : Text
  pub field : Text
  pub behind : Text

unfoldable pub close_ref : Text → Text → Text → Option Reference
close_ref name field [] = none
close_ref name field (c ∷ s) =
    if c == b'}' then some (record { name = name; field = field; behind = s }) else none

unfoldable pub field_of_ref : Text → Text → Option Reference
unfolding close_ref run_of is_word_char is_empty
field_of_ref name [] = none
field_of_ref name (c ∷ s) =
    if c == b':'
    then (let r = run_of (λ d. is_word_char d || d == b'.') s in
        if is_empty r.word then none else close_ref name r.word r.rest)
    else close_ref name [] (c ∷ s)

-- `grokRef` at the beginning of a text.
unfoldable pub reference_at : Text → Option Reference
unfolding run_of is_word_char is_empty field_of_ref
reference_at (c ∷ d ∷ s) =
    if c == b'%' && d == b'{'
    then (let r = run_of is_word_char s in
        if is_empty r.word then none else field_of_ref r.word r.rest)
    else none
reference_at _ = none

-- The pieces of a pattern.
pub data Piece : Type 0 where
  literal : ℕ → Piece
  reference : Text → Text → Piece

-- Each round reads a character at least: the fuel is the length.
unfoldable pub pieces : ℕ → Text → List Piece
unfolding reference_at
pieces zero s = []
pieces (suc fuel) [] = []
pieces (suc fuel) (c ∷ s) =
    let next = λ (t : Text). pieces fuel t in
    elim (reference_at (c ∷ s)) [
      | none ↦ literal c ∷ next s
      | some r ↦ reference r.name r.field ∷ next r.behind
    ]

-- nonWordRun.ReplaceAllString(field, "_")
unfoldable pub replace_runs : Bool → Text → Text
unfolding is_word_char
replace_runs in_run [] = []
replace_runs in_run (c ∷ s) =
    let word = c ∷ replace_runs false s in
    let more = replace_runs true s in
    if is_word_char c then word else if in_run then more else b'_' ∷ more

unfoldable pub starts_with_digit : Text → Bool
starts_with_digit [] = true
starts_with_digit (c ∷ s) = leb b'0' c && leb c b'9'

unfoldable pub safe_base : Text → Text
unfolding replace_runs starts_with_digit
safe_base field =
    let safe = replace_runs false field in
    if starts_with_digit safe then codes "f_" ++ safe else safe

unfoldable pub is_free : Text → Text → List (Text × Text) → Bool
unfolding get_entry same
is_free safe field names = elim (get_entry safe names) [ none ↦ true | some f ↦ same f field ]

-- The loop of `safeCaptureName`: of one more name than there are entries, one is free.
unfoldable pub free_name : ℕ → ℕ → Text → Text → Text → List (Text × Text) → Text
unfolding is_free itoa
free_name zero i base safe field names = safe
free_name (suc fuel) i base safe field names =
    let next = free_name fuel (suc i) base (base ++ (b'_' ∷ itoa i)) field names in
    if is_free safe field names then safe else next

-- `safeCaptureName`
unfoldable pub safe_capture_name : Text → List (Text × Text) → Text
unfolding safe_base free_name
safe_capture_name field names =
    free_name (suc (length names)) 2 (safe_base field) (safe_base field) field names

-- A pattern as a regular expression, with the attribute that each of its groups stands for.
pub record Expansion : Type 0 where
  pub expression : Text
  pub names : List (Text × Text)

-- maxGrokDepth
abbrev pub max_grok_depth : ℕ
max_grok_depth = 20

unfoldable pub expand_pieces :
    List (Text × Text)
    → (Text → List (Text × Text) → Option Expansion)
    → List Piece
    → List (Text × Text)
    → Option Expansion
unfolding get_entry set_entry is_empty safe_capture_name
expand_pieces table expand [] names = some (record { expression = []; names = names })
expand_pieces table expand (literal c ∷ ps) names = do
  rest ← expand_pieces table expand ps names
  some (record { expression = c ∷ rest.expression; names = rest.names })
expand_pieces table expand (reference name field ∷ ps) names = do
  body ← get_entry name table
  sub ← expand body names
  let safe = safe_capture_name field sub.names
  rest ←
      expand_pieces table expand ps
        (if is_empty field then sub.names else set_entry safe field sub.names)
  some (record {
    expression =
        (if is_empty field
          then codes "(?:" ++ sub.expression ++ codes ")"
          else codes "(?P<" ++ safe ++ codes ">" ++ sub.expression ++ codes ")")
        ++ rest.expression;
    names = rest.names;
  })

-- `expandGrok` with so many levels left.
unfoldable pub expand_grok : List (Text × Text) → ℕ → Text → List (Text × Text) → Option Expansion
unfolding expand_pieces pieces
expand_grok table zero pattern names = none
expand_grok table (suc levels) pattern names =
    expand_pieces table (expand_grok table levels) (pieces (length pattern) pattern) names
