-- ===== src/Pipeline.antt =====
-- Ingest pipelines (internal/pipeline/pipeline.go): specifications and their compilation. Stages is
-- what the stages do, Grok the expansion of grok.go, Set is set.go. The table of grok patterns, regular
-- expressions, floats and the layouts of the package time are parameters; the cache of compiled patterns
-- does not show. An int is an integer.
pub mod Grok
pub mod Stages
pub mod Set
pub mod Kept
pub mod Replacing
pub mod Rehearsal
mod Samples
use omni_logging.Common.{
  ℕ, suc, Bool, true, false, not, ◌&&◌, Option, none, some, ◌>>=◌, List, [], ◌∷◌, if◌then◌else◌,
  ltb, length, Text, codes,
}
use omni_logging.Common.Int.{ℤ}
use omni_logging.Common.Strings.{trim_space}
use omni_logging.Query.{Query, TimeSpec, is_empty, normalize}
use omni_logging.Query.Lexer.{split_pipeline}
use omni_logging.Query.Parse.{Host, parse}
use omni_logging.Syslog.Message.{Stamp}
use omni_logging.Pipeline.Grok.{max_grok_depth, expand_grok}

-- `unknown_stage` stands for every text that is no type.
pub data StageType : Type 0 where
  grok regex timestamp level service rename remove set unknown_stage : StageType

pub record StageSpec : Type 0 where
  pub type : StageType
  pub field : Text
  pub pattern : Text
  pub to : Text
  pub value : Text
  pub fields : List Text
  pub layouts : List Text
  pub fail_pipeline : Bool

pub record Spec : Type 0 where
  pub id : Text
  pub name : Text
  pub match : Text
  pub stages : List StageSpec
  pub enabled : Bool
  pub order : ℤ

-- A compiled regular expression: the submatches of a text, and the names of the groups.
pub record Regexp : Type 0 where
  pub submatch : Text → Option (List Text)
  pub subexp_names : List Text

pub record CompiledGrok : Type 0 where
  pub re : Regexp
  pub names : List (Text × Text)

-- `grokPatterns`, and what the pipelines take from Go: regexp.Compile, time.Parse on a layout, the year of an
-- instant, the text that `%v` makes of the float that a text is, and the order, not specified, in which
-- a range walks a map.
pub record Tools : Type 0 where
  pub grok_patterns : List (Text × Text)
  pub compile_regexp : Text → Option Regexp
  pub parse_layout : Text → Text → Option Stamp
  pub year_of : ℤ → ℕ
  pub float_text : Text → Option Text
  pub map_order : List (Text × Text) → List (Text × Text)

-- What a compiled stage does.
pub data Work : Type 0 where
  extract_grok : CompiledGrok → Work
  extract_regexp : Regexp → Work
  read_timestamp : List Text → Work
  set_level set_service move discard fill : Work

pub record Stage : Type 0 where
  pub spec : StageSpec
  pub work : Work

pub record Pipeline : Type 0 where
  pub spec : Spec
  pub match : Option Query
  pub stages : List Stage

-- defaultTimeLayouts
abbrev pub default_time_layouts : List Text
default_time_layouts =
    codes "2006-01-02T15:04:05.999999999Z07:00"
    ∷ codes "2006-01-02T15:04:05Z07:00"
    ∷ codes "2006-01-02 15:04:05.999999999 -0700 MST"
    ∷ codes "2006-01-02 15:04:05,000"
    ∷ codes "2006-01-02 15:04:05.000"
    ∷ codes "2006-01-02 15:04:05"
    ∷ codes "02/Jan/2006:15:04:05 -0700"
    ∷ codes "Jan _2 15:04:05"
    ∷ codes "Mon, 02 Jan 2006 15:04:05 -0700"
    ∷ []

unfoldable pub is_nil : {A : Type 0} → List A → Bool
is_nil [] = true
is_nil (x ∷ xs) = false

unfoldable pub default_field : StageSpec → StageSpec
unfolding is_empty
default_field s = if is_empty s.field then record s { field = codes "message" } else s

-- `CompileGrok`
unfoldable pub compile_grok : Tools → Text → Option CompiledGrok
unfolding expand_grok
compile_grok tools pattern = do
  x ← expand_grok tools.grok_patterns (suc max_grok_depth) pattern []
  re ← tools.compile_regexp x.expression
  some (record { re = re; names = x.names })

unfoldable pub work_of : Tools → StageSpec → Option Work
unfolding compile_grok is_nil is_empty
work_of tools s = elim s.type [
  | grok ↦ elim (compile_grok tools s.pattern) [ none ↦ none | some g ↦ some (extract_grok g) ]
  | regex ↦ elim (tools.compile_regexp s.pattern) [ none ↦ none | some r ↦ some (extract_regexp r) ]
  | timestamp ↦ some (read_timestamp (if is_nil s.layouts then default_time_layouts else s.layouts))
  | level ↦ some set_level
  | service ↦ some set_service
  | rename ↦ if is_empty s.to then none else some move
  | remove ↦ if is_nil s.fields then none else some discard
  | set ↦ if is_empty s.to then none else some fill
  | unknown_stage ↦ none
]

-- `compileStage`
unfoldable pub compile_stage : Tools → StageSpec → Option Stage
unfolding default_field work_of
compile_stage tools s = do
  w ← work_of tools (default_field s)
  some (record { spec = default_field s; work = w })

unfoldable pub compile_stages : Tools → List StageSpec → Option (List Stage)
unfolding compile_stage
compile_stages tools [] = some []
compile_stages tools (s ∷ ss) = do
  st ← compile_stage tools s
  rest ← compile_stages tools ss
  some (st ∷ rest)

-- `IsZero` of the time bounds.
unfoldable pub no_time : TimeSpec → Bool
unfolding is_empty
no_time t = is_empty t.last && (is_empty t.from && is_empty t.to)

-- The filter of a pipeline: `some none` is everything, `none` an error.
unfoldable pub compile_match : Host → Text → Option (Option Query)
unfolding is_empty trim_space split_pipeline parse no_time normalize
compile_match host expr =
    if is_empty (trim_space host.unicode expr)
    then some none
    else if ltb 1 (length (split_pipeline expr))
    then none
    else (do q ← parse host expr; if no_time q.time then some (some (normalize q)) else none)

-- `Compile`
unfoldable pub compile : Host → Tools → Spec → Option Pipeline
unfolding compile_match compile_stages is_nil
compile host tools s = do
  m ← compile_match host s.match
  stages ← if is_nil s.stages then none else compile_stages tools s.stages
  some (record { spec = s; match = m; stages = stages })
