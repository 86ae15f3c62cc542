-- ===== src/Store/Samples.antt =====
-- The statements, the patterns and the pages of internal/store/sqlite/search.go at concrete inputs.
use omni_logging.Common.{ℕ, ◌≡◌, refl, false, none, some, List, [], ◌∷◌, arith, ◌==◌, codes}
use omni_logging.Common.Int.{pos, negsuc}
use omni_logging.Common.Strings.{ascii}
use omni_logging.Query.{attr, in_set, neq, oldest, Filter, Query, empty_query}
use omni_logging.Query.Build.{decode_cursor}
use omni_logging.Model.{empty_event}
use omni_logging.Store.Conditions.{Go, glob_to_like}
use omni_logging.Store.Search.{search_sql, stream_sql, count_sql, histogram_sql, facet_sql}
use omni_logging.Store.Placeholders.{marks, IsBound}
use omni_logging.Store.Statements.{statements-IsBound}
use omni_logging.Store.Globs.{glob_matches, like_matches, glob_to_like-matches}
use omni_logging.Store.Cursors.{encode_cursor, decode_cursor-encode_cursor}
use omni_logging.Store.Pages.{Db}

abbrev go : Go ℕ
go = record { unicode = ascii; parse_float = λ s. none; equal_fold = λ s t. false }

-- attr.k in (a, ?), attr.k != ?
abbrev filters : List Filter
filters =
    record {
      field = attr;
      attr_key = codes "k";
      op = in_set;
      value = [];
      values = codes "a" ∷ codes "?" ∷ [];
    }
    ∷ record { field = attr; attr_key = codes "?"; op = neq; value = codes "?"; values = [] }
    ∷ []

abbrev request : Query
request = record empty_query {
  terms = codes "who?" ∷ [];
  filters = filters;
  from = pos 7;
  order = oldest;
  after_ts = pos 9;
  after_id = codes "?";
}

statements-IsBound_example :
    IsBound (search_sql go request)
    × IsBound (stream_sql go request)
    × IsBound (count_sql go request)
    × IsBound (histogram_sql go request 60)
    × IsBound (facet_sql go request (codes "level"))
unfolding marks
statements-IsBound_example = statements-IsBound go request 60 (codes "level") refl

glob_to_like-matches_example :
    like_matches (λ c d. c == d) false (glob_to_like (codes "a_*%")) (codes "a_bc%")
    ≡ glob_matches (λ c d. c == d) (codes "a_*%") (codes "a_bc%")
glob_to_like-matches_example = glob_to_like-matches (λ c d. c == d) (codes "a_*%") (codes "a_bc%")

pattern_is_literal :
    like_matches (λ c d. c == d) false (glob_to_like (codes "a_")) (codes "ab") ≡ false
unfolding like_matches glob_to_like
pattern_is_literal = refl

-- A database with more matches than are counted.
abbrev db : Db ℕ
db = record {
  events = λ s. some (empty_event ∷ empty_event ∷ []);
  count = λ s. some 50001;
  buckets = λ s. none;
  facets = λ s. none;
  base64 = λ s. s;
}

decode_cursor-encode_cursor_example :
    decode_cursor (λ s. some s) (encode_cursor (λ s. s) (negsuc 41) (codes "a|b"))
    ≡ some (negsuc 41, codes "a|b")
decode_cursor-encode_cursor_example =
    decode_cursor-encode_cursor (λ s. s) (λ s. some s) (negsuc 41) (codes "a|b") (λ s. refl)
      (omega arith)
