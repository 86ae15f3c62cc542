-- ===== src/Pipeline/Samples.antt =====
-- Pipelines of internal/pipeline at concrete inputs.
use omni_logging.Common.{
  ℕ, ◌≡◌, refl, true, false, none, some, List, [], ◌∷◌, leb, ltb, Text, codes,
}
use omni_logging.Common.Int.{pos}
use omni_logging.Common.Strings.{ascii}
use omni_logging.Query.Match.{Engine, text}
use omni_logging.Query.Parse.{Host}
use omni_logging.Model.{LogEvent, empty_event, level_warn}
use omni_logging.Pipeline.{StageType, regex, level, remove, set, StageSpec, Spec, Regexp, Tools}
use omni_logging.Pipeline.Set.{Set, replace, apply, TestResult, test}
use omni_logging.Pipeline.Kept.{IsEnriched, apply-IsEnriched}
use omni_logging.Pipeline.Replacing.{IsReplaced, replace-IsReplaced}
use omni_logging.Pipeline.Rehearsal.{installed, test-installed}

abbrev engine : Engine ℕ
engine = record {
  unicode = ascii;
  parse_float = λ t. (0, false);
  lt = ltb;
  le = leb;
  compile = λ t. none;
  quote_meta = λ t. t;
}

abbrev host : Host
host = record { unicode = ascii; rfc3339 = λ t. none; compiles = λ t. true }

-- A regular expression that captures the whole text as a level.
abbrev whole : Regexp
whole = record { submatch = λ t. some (t ∷ t ∷ []); subexp_names = [] ∷ codes "level" ∷ [] }

abbrev tools : Tools
tools = record {
  grok_patterns =
      (codes "WORD", codes "\\b\\w+\\b") ∷ (codes "PAIR", codes "%{WORD:a.b} %{WORD}") ∷ [];
  compile_regexp = λ t. some whole;
  parse_layout = λ l t. none;
  year_of = λ t. 2026;
  float_text = λ t. none;
  map_order = λ fields. fields;
}

abbrev stage : StageType → StageSpec
stage t = record {
  type = t;
  field = codes "message";
  pattern = codes "(?P<level>.*)";
  to = codes "attr.team";
  value = codes "ops";
  fields = codes "secret" ∷ [];
  layouts = [];
  fail_pipeline = true;
}

abbrev spec : Text → ℕ → List StageSpec → Spec
spec id order stages = record {
  id = id;
  name = id;
  match = [];
  stages = stages;
  enabled = true;
  order = pos order;
}

abbrev specs : List Spec
specs =
    spec (codes "tag") 2 (stage set ∷ [])
    ∷ spec (codes "level") 1 (stage regex ∷ stage remove ∷ [])
    ∷ spec (codes "late") 2 (stage level ∷ [])
    ∷ []

abbrev empty_set : Set
empty_set = record { compiled = []; applied = 0; failed = 0; warned = [] }

abbrev event : LogEvent
event = record empty_event {
  id = codes "E1";
  message = codes "warning";
  raw = codes "warning";
  attributes = (codes "secret", text (codes "x")) ∷ [];
}

replace-IsReplaced_example :
    IsReplaced host tools specs empty_set (replace host tools specs empty_set)
replace-IsReplaced_example = replace-IsReplaced host tools specs empty_set

apply-IsEnriched_example :
    IsEnriched event (apply engine tools (replace host tools specs empty_set).0 event).event
apply-IsEnriched_example =
    apply-IsEnriched engine tools (replace host tools specs empty_set).0 event

abbrev result : TestResult
result = record {
  event = record event { level = level_warn; attributes = (codes "team", text (codes "ops")) ∷ [] };
  matched = codes "level" ∷ codes "tag" ∷ codes "late" ∷ [];
  errors = [];
}

rehearsed : test engine tools host specs event ≡ some result
unfolding test
rehearsed = refl

test-installed_example :
    ((replace host tools specs empty_set).1 ≡ true)
    × (result.event ≡ installed engine tools host specs empty_set event)
test-installed_example =
    test-installed engine tools host specs empty_set event result (refl, (refl, (refl, tt)))
      rehearsed
