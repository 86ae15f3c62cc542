-- ===== src/Query/Lexer.antt =====
-- The cutting of an expression: `tokenize` of internal/query/parse.go and `SplitPipeline` of
-- internal/query/agg.go.
use omni_logging.Common.{
  ℕ, Bool, true, false, not, ◌&&◌, ◌||◌, Option, none, some, List, [], ◌∷◌, ◌++◌, ◌==◌,
  if◌then◌else◌, Text,
}

pub record Token : Type 0 where
  pub text : Text
  pub quoted : Bool

abbrev pub quote_char : ℕ
quote_char = b'"'

abbrev pub is_blank : ℕ → Bool
is_blank r = r == 32 || (r == 9 || r == 10)

-- `flush`: an empty token is kept only where it was quoted.
unfoldable pub flush : Bool → List Token → Text → List Token
flush quoted tokens [] =
    if quoted then tokens ++ record { text = []; quoted = true } ∷ [] else tokens
flush quoted tokens (c ∷ b) = tokens ++ record { text = c ∷ b; quoted = quoted } ∷ []

-- `none` is an unterminated quote.
unfoldable pub tokenize_from : Text → List Token → Text → Bool → Option (List Token)
unfolding flush
tokenize_from [] tokens b true = none
tokenize_from [] tokens b false = some (flush false tokens b)
tokenize_from (r ∷ expr) tokens b in_quote =
    let closed = tokenize_from expr (flush true tokens b) [] false in
    let opened = tokenize_from expr (flush false tokens b) [] true in
    let cut = tokenize_from expr (flush false tokens b) [] in_quote in
    let more = tokenize_from expr tokens (b ++ r ∷ []) in_quote in
    if r == quote_char
    then (if in_quote then closed else opened)
    else if is_blank r && not in_quote
    then cut
    else more

unfoldable pub tokenize : Text → Option (List Token)
unfolding tokenize_from
tokenize expr = tokenize_from expr [] [] false

abbrev pub bar : ℕ
bar = b'|'

unfoldable pub split_pipeline_from : Text → List Text → Text → Bool → List Text
split_pipeline_from [] parts b in_quote = parts ++ b ∷ []
split_pipeline_from (r ∷ expr) parts b in_quote =
    let quote = split_pipeline_from expr parts (b ++ r ∷ []) (not in_quote) in
    let stage = split_pipeline_from expr (parts ++ b ∷ []) [] in_quote in
    let more = split_pipeline_from expr parts (b ++ r ∷ []) in_quote in
    if r == quote_char then quote else if r == bar && not in_quote then stage else more

unfoldable pub split_pipeline : Text → List Text
unfolding split_pipeline_from
split_pipeline expr = split_pipeline_from expr [] [] false
