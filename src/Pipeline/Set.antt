-- ===== src/Pipeline/Set.antt =====
-- The pipelines that are installed (internal/pipeline/set.go): Replace, Apply and Test.
use omni_logging.Common.{
  ℕ, suc, Bool, true, false, not, Option, none, some, ◌>>=◌, List, [], ◌∷◌, ◌++◌, if◌then◌else◌,
  Text,
}
use omni_logging.Common.Int.{leb_ℤ}
use omni_logging.Query.Match.{Engine, Event}
use omni_logging.Query.Phrase.{matches}
use omni_logging.Query.Parse.{Host}
use omni_logging.Model.{LogEvent, is_among}
use omni_logging.Pipeline.{Spec, Tools, Pipeline, compile}
use omni_logging.Pipeline.Stages.{apply_stages}

-- `Set`: the compiled pipelines, the counters, and the pipelines whose failure was logged.
pub record Set : Type 0 where
  pub compiled : List Pipeline
  pub applied : ℕ
  pub failed : ℕ
  pub warned : List Text

-- The fields of an event that the matching reads.
abbrev pub event_of : LogEvent → Event
event_of e = record {
  timestamp = e.timestamp;
  level = e.level;
  service = e.service;
  source = e.source;
  message = e.message;
  raw = e.raw;
  attributes = e.attributes;
}

-- The specifications that are enabled, compiled; `none` is an error of one of them.
unfoldable pub compile_enabled : Host → Tools → List Spec → Option (List Pipeline)
unfolding compile
compile_enabled host tools [] = some []
compile_enabled host tools (s ∷ ss) =
    let rest = compile_enabled host tools ss in
    if not s.enabled then rest else (do p ← compile host tools s; ps ← rest; some (p ∷ ps))

-- In front of the first pipeline that does not run before it.
unfoldable pub insert : Pipeline → List Pipeline → List Pipeline
insert p [] = p ∷ []
insert p (q ∷ qs) =
    let rest = insert p qs in if leb_ℤ p.spec.order q.spec.order then p ∷ q ∷ qs else q ∷ rest

-- sort.SliceStable by the order.
unfoldable pub sort_stable : List Pipeline → List Pipeline
unfolding insert
sort_stable [] = []
sort_stable (p ∷ ps) = insert p (sort_stable ps)

-- `Replace`, and whether it succeeds.
unfoldable pub replace : Host → Tools → List Spec → Set → Set × Bool
unfolding compile_enabled sort_stable
replace host tools specs set = elim (compile_enabled host tools specs) [
  | none ↦ (set, false)
  | some ps ↦ (record set { compiled = sort_stable ps; warned = [] }, true)
]

-- The event and the set behind the pipelines.
pub record Enriched : Type 0 where
  pub event : LogEvent
  pub set : Set

module _ {F : Type 0} (g : Engine F) (tools : Tools) where
  -- `Matches`
  unfoldable pub applies_to : Pipeline → LogEvent → Bool
  unfolding matches
  applies_to p e = elim p.match [ none ↦ true | some q ↦ matches g q (event_of e) ]

  unfoldable pub count : Pipeline → Bool → Set → Set
  unfolding is_among
  count p failed s =
      if failed
      then record s {
        failed = suc s.failed;
        warned = if is_among p.spec.id s.warned then s.warned else p.spec.id ∷ s.warned;
      }
      else record s { applied = suc s.applied }

  -- The loop of `Apply`.
  unfoldable pub apply_pipelines : List Pipeline → Enriched → Enriched
  unfolding applies_to apply_stages count
  apply_pipelines [] x = x
  apply_pipelines (p ∷ ps) x = apply_pipelines ps (
      if applies_to p x.event
      then (let done = apply_stages g.unicode tools p.stages x.event in
          record { event = done.event; set = count p done.failed x.set })
      else x)

  -- `Apply` of a set.
  unfoldable pub apply : Set → LogEvent → Enriched
  unfolding apply_pipelines
  apply s e = apply_pipelines s.compiled (record { event = e; set = s })

-- All specifications, compiled, those that are not enabled too.
unfoldable pub compile_all : Host → Tools → List Spec → Option (List Pipeline)
unfolding compile
compile_all host tools [] = some []
compile_all host tools (s ∷ ss) = do
  p ← compile host tools s
  ps ← compile_all host tools ss
  some (p ∷ ps)

-- `TestResult`. An error is the name of its pipeline, with which its text begins.
pub record TestResult : Type 0 where
  pub event : LogEvent
  pub matched : List Text
  pub errors : List Text

module _ {F : Type 0} (g : Engine F) (tools : Tools) where
  -- The loop of `Test`.
  unfoldable pub test_pipelines : List Pipeline → TestResult → TestResult
  unfolding applies_to apply_stages
  test_pipelines [] r = r
  test_pipelines (p ∷ ps) r = test_pipelines ps (
      if applies_to g tools p r.event
      then (let done = apply_stages g.unicode tools p.stages r.event in
          record {
            event = done.event;
            matched = r.matched ++ p.spec.name ∷ [];
            errors = if done.failed then r.errors ++ p.spec.name ∷ [] else r.errors;
          })
      else r)

  -- `Test`
  unfoldable pub test : Host → List Spec → LogEvent → Option TestResult
  unfolding compile_all sort_stable test_pipelines
  test host specs e = do
    ps ← compile_all host tools specs
    some (test_pipelines (sort_stable ps) (record { event = e; matched = []; errors = [] }))
