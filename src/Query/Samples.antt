-- ===== src/Query/Samples.antt =====
-- The query language of internal/query at concrete inputs, with the tables of Unicode below 128.
use omni_logging.Common.{OnSuccess, ◌≡◌, refl, true, Option, none, some, [], Text, codes}
use omni_logging.Common.Int.{pos}
use omni_logging.Common.Strings.{ascii}
use omni_logging.Common.{same, has_prefix}
use omni_logging.Common.Strings.{
  trim_space, trim_quotes, trim, trim_left, lower, parse_int, read_number, read_digits, fields,
  fields_from, contains, ends_with, split_on,
}
use omni_logging.Query.{Query, empty_query, is_empty, has_lower_bound}
use omni_logging.Query.Times.{
  time_value, is_time_key, parse_relative, relative_text, relative_of, scale_of, split_last,
}
use omni_logging.Query.Lexer.{split_pipeline, split_pipeline_from, tokenize, tokenize_from, flush}
use omni_logging.Query.Filters.{
  split_op, split_op_from, sign_at, parse_filter, filter_of_split, resolve_key, known_field,
  sign_filter, eq_filter,
}
use omni_logging.Query.Parse.{
  Host, parse, parse_tokens, parse_token, parse_term, parse_time_directive, directive_value, is_eq,
}
use omni_logging.Query.Agg.{
  parse_aggregation, parse_command, parse_stats, parse_top_rare, take_count, split_comma_list,
  comma_parts, resolve_ref,
}
use omni_logging.Query.Build.{Params, build, build_expr, add_stages}
use omni_logging.Query.Bounds.{IsRunnable, build-IsRunnable}
use omni_logging.Query.Cuts.{join_bar, IsSplit, split_pipeline_lem}
use omni_logging.Common.{ℕ, false, ltb, leb, ◌++◌, ◌∷◌, ◌↔◌}
use omni_logging.Query.{eq, attr, Filter}
use omni_logging.Query.Match.{Event, Engine, flag}
use omni_logging.Query.Phrase.{contains_tokens}
use omni_logging.Query.Matching.{HasPhrase, contains_tokens-HasPhrase}

abbrev host : Host
host = record { unicode = ascii; rfc3339 = λ t. none; compiles = λ t. true }

abbrev no_cursor : Text → Option Text
no_cursor s = none

abbrev params : Params
params = record {
  q = codes "level=error last=1h | top 5 service";
  from = [];
  to = [];
  last = [];
  limit = codes "90000";
  order = codes "oldest";
  interval = [];
  after = [];
}

build-IsRunnable_example : OnSuccess IsRunnable (build host no_cursor (pos 9) params)
build-IsRunnable_example = build-IsRunnable host no_cursor (pos 9) params

split_pipeline_lem_example :
    (join_bar (split_pipeline (codes "a \"b|c\" | top d")) ≡ codes "a \"b|c\" | top d")
    × IsSplit (split_pipeline (codes "a \"b|c\" | top d"))
split_pipeline_lem_example = split_pipeline_lem (codes "a \"b|c\" | top d")

abbrev query_of : Option Query → Query
query_of none = empty_query
query_of (some q) = q

-- The expression above names `last=1h`.
abbrev found : Query
found = query_of (build_expr host params.q)

found_is : build_expr host params.q ≡ some found
unfolding build_expr split_pipeline split_pipeline_from parse parse_tokens parse_token parse_term
    parse_time_directive directive_value is_eq tokenize tokenize_from flush parse_filter split_op
    split_op_from sign_at filter_of_split resolve_key known_field sign_filter eq_filter time_value
    is_time_key parse_relative relative_text relative_of scale_of split_last add_stages
    parse_aggregation parse_command parse_stats parse_top_rare take_count split_comma_list
    comma_parts resolve_ref trim_space trim_quotes trim trim_left lower parse_int read_number
    read_digits fields fields_from same has_prefix contains ends_with split_on is_empty
found_is = refl

found_lower : has_lower_bound found.time ≡ true
unfolding build_expr split_pipeline split_pipeline_from parse parse_tokens parse_token parse_term
    parse_time_directive directive_value is_eq tokenize tokenize_from flush parse_filter split_op
    split_op_from sign_at filter_of_split resolve_key known_field sign_filter eq_filter time_value
    is_time_key parse_relative relative_text relative_of scale_of split_last add_stages
    parse_aggregation parse_command parse_stats parse_top_rare take_count split_comma_list
    comma_parts resolve_ref trim_space trim_quotes trim trim_left lower parse_int read_number
    read_digits fields fields_from same has_prefix contains ends_with split_on is_empty
    has_lower_bound
found_lower = refl

-- Numbers for floats, no regular expressions.
abbrev engine : Engine ℕ
engine = record {
  unicode = ascii;
  parse_float = λ t. (0, false);
  lt = ltb;
  le = leb;
  compile = λ t. none;
  quote_meta = λ t. t;
}

abbrev event : Event
event = record {
  timestamp = pos 5;
  level = codes "error";
  service = codes "api";
  source = codes "web1";
  message = codes "Connection lost";
  raw = [];
  attributes = (codes "retry", flag true) ∷ [];
}

abbrev retried : Filter
retried = record {
  field = attr;
  attr_key = codes "retry";
  op = eq;
  value = codes "true";
  values = [];
}

contains_tokens-HasPhrase_example :
    (contains_tokens
        (codes "db" ∷ codes "connection" ∷ codes "lost" ∷ [])
        ((codes "connection" ∷ []) ++ codes "lo" ∷ [])
      ≡ true)
    ↔ HasPhrase
        (codes "db" ∷ codes "connection" ∷ codes "lost" ∷ [])
        (codes "connection" ∷ [])
        (codes "lo")
contains_tokens-HasPhrase_example =
    contains_tokens-HasPhrase (codes "db" ∷ codes "connection" ∷ codes "lost" ∷ [])
      (codes "connection" ∷ []) (codes "lo")
