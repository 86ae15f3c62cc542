-- ===== src/Query/Phrase.antt =====
-- The free-text terms of internal/query/match.go, and `Matches` itself.
use omni_logging.Common.{
  Bool, true, false, not, ◌&&◌, ◌||◌, List, [], ◌∷◌, ◌++◌, if◌then◌else◌, ltb, Text, same,
  has_prefix, length,
}
use omni_logging.Common.Int.{ltb_ℤ}
use omni_logging.Common.Strings.{Unicode}
use omni_logging.Query.{Filter, Query}
use omni_logging.Query.Build.{is_zero}
use omni_logging.Query.Match.{Value, Event, Engine, stringify, filter_matches}

-- `flush` of `ftsTokenize`: an empty token is none.
unfoldable pub add_token : Text → List Text → List Text
add_token [] toks = toks
add_token (c ∷ b) toks = (c ∷ b) ∷ toks

-- `ftsTokenize`, behind the token so far.
unfoldable pub fts_tokenize_from : Unicode → Text → Text → List Text
unfolding add_token
fts_tokenize_from u b [] = add_token b []
fts_tokenize_from u b (r ∷ s) =
    let more = fts_tokenize_from u (b ++ u.to_lower r ∷ []) s in
    let cut = fts_tokenize_from u [] s in
    if u.is_letter r || u.is_digit r then more else add_token b cut

unfoldable pub fts_tokenize : Unicode → Text → List Text
unfolding fts_tokenize_from
fts_tokenize u s = fts_tokenize_from u [] s

unfoldable pub attribute_tokens : Unicode → List (Text × Value) → List Text
unfolding fts_tokenize stringify
attribute_tokens u [] = []
attribute_tokens u ((k, v) ∷ m) =
    fts_tokenize u k ++ (fts_tokenize u (stringify v) ++ attribute_tokens u m)

unfoldable pub fts_tokens : Unicode → Event → List Text
unfolding fts_tokenize attribute_tokens
fts_tokens u e =
    fts_tokenize u e.message
    ++ (fts_tokenize u e.raw
        ++ (fts_tokenize u e.service
            ++ (fts_tokenize u e.source ++ attribute_tokens u e.attributes)))

-- The tokens wanted stand at the front: all but the last in full, the last as a prefix.
unfoldable pub phrase_at : List Text → List Text → Bool
unfolding same has_prefix
phrase_at have [] = false
phrase_at [] (w ∷ ws) = false
phrase_at (h ∷ hs) (w ∷ []) = has_prefix h w
phrase_at (h ∷ hs) (w ∷ x ∷ ws) = same h w && phrase_at hs (x ∷ ws)

-- The loop of `containsTokens`, which ends where too few tokens are left. What is wanted is not empty.
unfoldable pub contains_from : List Text → List Text → Bool
unfolding phrase_at
contains_from [] want = false
contains_from (h ∷ hs) want =
    let rest = contains_from hs want in
    if ltb (length (h ∷ hs)) (length want)
    then false
    else if phrase_at (h ∷ hs) want
    then true
    else rest

unfoldable pub contains_tokens : List Text → List Text → Bool
unfolding contains_from
contains_tokens have want =
    if ltb (length have) (length want) then false else contains_from have want

-- `termMatchesTokens`: a term without tokens matches nothing.
unfoldable pub term_matches_tokens : Unicode → List Text → Text → Bool
unfolding fts_tokenize contains_tokens
term_matches_tokens u have term = elim (fts_tokenize u term) [
  | [] ↦ false
  | w ∷ ws ↦ contains_tokens have (w ∷ ws)
]

unfoldable pub all_terms : Unicode → List Text → List Text → Bool
unfolding term_matches_tokens
all_terms u have [] = true
all_terms u have (t ∷ ts) =
    let rest = all_terms u have ts in if term_matches_tokens u have t then rest else false

module _ {F : Type 0} (g : Engine F) where
  unfoldable pub all_filters : List Filter → Event → Bool
  unfolding filter_matches
  all_filters [] e = true
  all_filters (f ∷ fs) e =
      let rest = all_filters fs e in if filter_matches g f e then rest else false

  -- `Matches`.
  unfoldable pub matches : Query → Event → Bool
  unfolding all_filters all_terms fts_tokens
  matches q e =
      if not (is_zero q.from) && ltb_ℤ e.timestamp q.from
      then false
      else if not (is_zero q.to) && ltb_ℤ q.to e.timestamp
      then false
      else if all_filters q.filters e
      then all_terms g.unicode (fts_tokens g.unicode e) q.terms
      else false
