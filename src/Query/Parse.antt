-- ===== src/Query/Parse.antt =====
-- `Parse` of internal/query/parse.go, with its time directives.
use omni_logging.Common.{
  Bool, true, false, not, Option, none, some, List, [], ◌∷◌, ◌++◌, if◌then◌else◌, ◌>>=◌, Text,
}
use omni_logging.Common.Int.{ℤ}
use omni_logging.Common.Strings.{Unicode, trim_space, trim_quotes, lower}
use omni_logging.Query.{TimeSpec, Query, empty_query}
use omni_logging.Query.Lexer.{Token, tokenize}
use omni_logging.Query.Times.{time_value, is_time_key}
use omni_logging.Query.Filters.{Sign, eq_sign, split_op, bare, filter, refused, parse_filter}

-- What the program takes from Go's library: Unicode's tables, the layout RFC3339Nano, and whether a
-- regular expression compiles.
pub record Host : Type 0 where
  pub unicode : Unicode
  pub rfc3339 : Text → Option ℤ
  pub compiles : Text → Bool

-- No directive, one that was recorded, or an error.
pub data Directive : Type 0 where
  other : Directive
  recorded : TimeSpec → Directive
  invalid : Directive

unfoldable pub is_eq : Sign → Bool
is_eq eq_sign = true
is_eq _ = false

-- A value that is not empty.
unfoldable pub directive_value : Host → TimeSpec → Text → Text → Directive
unfolding time_value
directive_value host spec key [] = invalid
directive_value host spec key (c ∷ val) =
    elim (time_value host.unicode host.rfc3339 spec key (c ∷ val)) [
      | none ↦ invalid
      | some s ↦ recorded s
    ]

-- `parseTimeDirective`.
unfoldable pub parse_time_directive : Host → TimeSpec → Text → Directive
unfolding split_op is_time_key is_eq directive_value lower trim_space trim_quotes
parse_time_directive host spec tok = elim (split_op tok) [
  | none ↦ other
  | some s ↦
      let key = lower host.unicode (trim_space host.unicode s.key) in
      if not (is_time_key key)
      then other
      else if not (is_eq s.sign)
      then invalid
      else directive_value host spec key (trim_quotes (trim_space host.unicode s.val))
]

-- A token that is no directive: a filter, a term, nothing, or an error.
unfoldable pub parse_term : Host → Query → Text → Option Query
unfolding parse_filter
parse_term host q text = elim (parse_filter host.unicode host.compiles text) [
  | refused ↦ none
  | filter f ↦ some (record q { filters = q.filters ++ f ∷ [] })
  | bare ↦ elim text [ [] ↦ some q | c ∷ cs ↦ some (record q { terms = q.terms ++ (c ∷ cs) ∷ [] }) ]
]

unfoldable pub parse_token : Host → Query → Token → Option Query
unfolding parse_time_directive parse_term
parse_token host q tok =
    if tok.quoted
    then some (record q { terms = q.terms ++ tok.text ∷ [] })
    else elim (parse_time_directive host q.time tok.text) [
      | invalid ↦ none
      | recorded spec ↦ some (record q { time = spec })
      | other ↦ parse_term host q tok.text
    ]

-- The loop of `Parse` over the tokens: the first error ends it.
unfoldable pub parse_tokens : Host → Query → List Token → Option Query
unfolding parse_token
parse_tokens host q [] = some q
parse_tokens host q (tok ∷ toks) = elim (parse_token host q tok) [
  | none ↦ none
  | some q' ↦ parse_tokens host q' toks
]

unfoldable pub parse : Host → Text → Option Query
unfolding parse_tokens tokenize
parse host expr = do toks ← tokenize expr; parse_tokens host empty_query toks
